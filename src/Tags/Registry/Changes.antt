-- ===== src/Tags/Registry/Changes.antt =====
-- `Registry::adopt`, `Registry::forget` and the calls that the anchor makes in any order.
use bin_range.Base.{
  ℕ, suc, ◌≡◌, ◌↔◌, inl, inr, Bool, true, false, refl, arith, List, [], ◌∷◌, ◌++◌, Option, none,
  some, length, ◌==◌, leb, if◌then◌else◌, Bool-cases, Option-cases,
}
use bin_range.Tags.Registry.{
  TagRecord, Registry, find, forget, touch, fresh_tag, Config, configure, unhear, adopt,
}
use bin_range.Tags.Registry.Lookup.{
  lookup, Distinct, find-none, find-some, find-append, lookup-modify, lookup-append,
  lookup-move_last, move_last-Distinct, length-move_last,
}
use bin_range.Tags.Registry.Map.{
  IsValid, modify-IsValid, append-IsValid, addr-fresh_tag, touch-lookup, KeepsAddr-configure,
  KeepsAddr-adopted,
}

-- The entry that a configuration leaves behind.
abbrev pub adopted_entry : ℕ → Config → ℕ → Registry → Option TagRecord
adopted_entry addr c now tags = elim (lookup addr tags) [
  | some t ↦ some (configure c now t)
  | none ↦ if leb 16 (length tags) then none else some (configure c now (unhear (fresh_tag addr 0)))
]

pub adopt_lem :
    (addr b now : ℕ) (c : Config) (tags : Registry)
    → IsValid tags
    → (lookup b (adopt addr c now tags).0
        ≡ (if addr == b then adopted_entry addr c now tags else lookup b tags))
      × ((adopt addr c now tags).1 ≡ false ↔ ((lookup addr tags ≡ none) × (length tags ≡ 16)))
      × IsValid (adopt addr c now tags).0
unfolding adopt touch
adopt_lem addr b now c tags v = elim (Option-cases (find addr tags)) [
  | inr (i, e) ↦
      let (t, found, at) = find-some addr tags i e in
      let f = configure c now in
      let keeps = KeepsAddr-configure c now in
      let valid = modify-IsValid f keeps i tags v in
      (
        ground (arith, lookup-modify f keeps addr b i tags e),
        (λ h. absurd (ground arith), λ h. absurd (ground arith)),
        ground arith,
      )
  | inl e ↦
      let out = find-none addr tags e in
      let bound = v.bounded in
      elim (Bool-cases (leb 16 (length tags))) [
        | inl full ↦ (ground arith, (λ h. (out, ground arith), λ h. ground arith), ground arith)
        | inr room ↦
            let new = fresh_tag addr 0 in
            let f = λ (t : TagRecord). configure c now (unhear t) in
            let keeps = KeepsAddr-adopted c now in
            let at = addr-fresh_tag addr 0 in
            let put = lookup-append b tags new in
            let slot = find-append addr tags new e at in
            let valid =
              modify-IsValid f keeps (length tags) (tags ++ new ∷ [])
                (append-IsValid addr 0 tags v out (ground arith)) in
            (
              ground (arith, lookup-modify f keeps addr b (length tags) (tags ++ new ∷ []) slot),
              (λ h. absurd (ground arith), λ h. absurd (ground arith)),
              ground arith,
            )
      ]
]

forget-none :
    (addr : ℕ) (tags : Registry) → lookup addr tags ≡ none → forget addr tags ≡ (tags, false)
unfolding forget lookup
forget-none addr [] h = refl
forget-none addr (t ∷ tags) h = ground (arith, forget-none addr tags)

forget-some :
    (addr : ℕ) (tags : Registry) (t : TagRecord)
    → lookup addr tags ≡ some t
    → ((forget addr tags).1 ≡ true) × (suc (length (forget addr tags).0) ≡ length tags)
unfolding forget lookup
forget-some addr [] t h = absurd (ground arith)
forget-some addr (u ∷ tags) t h = elim (Bool-cases (u.addr == addr)) [
  | inl e ↦ (ground arith, ground (arith, length-move_last tags))
  | inr e ↦
      let (found, less) = forget-some addr tags t (ground arith) in (ground arith, ground arith)
]

lookup-forget :
    (addr b : ℕ) (tags : Registry)
    → Distinct tags
    → lookup b (forget addr tags).0 ≡ (if addr == b then none else lookup b tags)
unfolding forget lookup
lookup-forget addr b [] d = ground arith
lookup-forget addr b (t ∷ tags) d =
    let ih = lookup-forget addr b tags d.1 in
    let apart = d.0 in let moved = lookup-move_last b tags d.1 in ground arith

forget-Distinct : (addr : ℕ) (tags : Registry) → Distinct tags → Distinct (forget addr tags).0
unfolding forget
forget-Distinct addr [] d = tt
forget-Distinct addr (t ∷ tags) d =
    let ih = forget-Distinct addr tags d.1 in
    let moved = move_last-Distinct tags d.1 in
    let out = lookup-forget addr t.addr tags d.1 in
    let apart = d.0 in
    elim (Bool-cases (t.addr == addr)) [ inl e ↦ ground arith | inr e ↦ ground arith ]

-- Forgetting an address with a record removes that record and no other, though the last record
-- moves into the gap; an address without one leaves the registry as it is and reports failure.
pub forget_lem :
    (addr b : ℕ) (tags : Registry)
    → IsValid tags
    → (lookup b (forget addr tags).0 ≡ (if addr == b then none else lookup b tags))
      × IsValid (forget addr tags).0
      × (lookup addr tags ≡ none → forget addr tags ≡ (tags, false))
      × ((t : TagRecord)
          → lookup addr tags ≡ some t
          → ((forget addr tags).1 ≡ true) × (suc (length (forget addr tags).0) ≡ length tags))
forget_lem addr b tags v = (
  lookup-forget addr b tags v.distinct,
  elim (Option-cases (lookup addr tags)) [
    | inl out ↦ ground (arith, forget-none addr tags out)
    | inr (t, found) ↦
        let (_, less) = forget-some addr tags t found in
        let bound = v.bounded in
        record { bounded = omega arith; distinct = forget-Distinct addr tags v.distinct }
  ],
  forget-none addr tags,
  forget-some addr tags,
)

-- A call that changes which tags are known.
pub data Call : Type 0 where
  touching : ℕ → ℕ → Call
  adopting : ℕ → Config → ℕ → Call
  forgetting : ℕ → Call

unfoldable pub apply : Call → Registry → Registry
apply (touching addr now) tags = (touch addr now tags).0
apply (adopting addr c now) tags = (adopt addr c now tags).0
apply (forgetting addr) tags = (forget addr tags).0

unfoldable pub run : List Call → Registry → Registry
run [] tags = tags
run (c ∷ cs) tags = run cs (apply c tags)

-- A call forgets this address.
abbrev pub forgets : ℕ → List Call → Bool
forgets a [] = false
forgets a (forgetting addr ∷ cs) = if addr == a then true else forgets a cs
forgets a (touching addr now ∷ cs) = forgets a cs
forgets a (adopting addr c now ∷ cs) = forgets a cs

-- Some record stands for the address.
abbrev pub known : ℕ → Registry → Bool
known a tags = elim (lookup a tags) [ none ↦ false | some t ↦ true ]

apply_lem :
    (a : ℕ) (c : Call) (tags : Registry)
    → IsValid tags
    → IsValid (apply c tags)
      × (known a tags ≡ true → forgets a (c ∷ []) ≡ false → known a (apply c tags) ≡ true)
unfolding apply
apply_lem a (touching addr now) tags v =
    let (at, valid) = touch-lookup addr now a tags v in
    (
      valid,
      λ k f. elim (Option-cases (lookup a tags)) [
        | inl e ↦ ground arith
        | inr (t, e) ↦ ground arith
      ],
    )
apply_lem a (adopting addr c now) tags v =
    let (at, _, valid) = adopt_lem addr a now c tags v in
    (
      valid,
      λ k f. elim (Option-cases (lookup a tags)) [
        | inl e ↦ ground arith
        | inr (t, e) ↦ ground arith
      ],
    )
apply_lem a (forgetting addr) tags v =
    let (at, valid, _, _) = forget_lem addr a tags v in (valid, λ k f. ground arith)

-- Whatever is called in whatever order, the registry stays within its sixteen slots with distinct
-- addresses, and a tag that is known stays known until a call forgets it: hearing or adopting
-- another tag never evicts it, even from a full registry.
pub run_keeps_known :
    (a : ℕ) (cs : List Call) (tags : Registry)
    → IsValid tags
    → IsValid (run cs tags)
      × (known a tags ≡ true → forgets a cs ≡ false → known a (run cs tags) ≡ true)
unfolding run
run_keeps_known a [] tags v = (v, λ k f. k)
run_keeps_known a (c ∷ cs) tags v =
    let (valid, keeps) = apply_lem a c tags v in
    let (done, rest) = run_keeps_known a cs (apply c tags) valid in
    (done, λ k f. rest (keeps k (here c f)) (later c f))
  where
    here : (c : Call) → forgets a (c ∷ cs) ≡ false → forgets a (c ∷ []) ≡ false
    here (touching addr now) f = refl
    here (adopting addr d now) f = refl
    here (forgetting addr) f = ground arith

    later : (c : Call) → forgets a (c ∷ cs) ≡ false → forgets a cs ≡ false
    later (touching addr now) f = f
    later (adopting addr d now) f = f
    later (forgetting addr) f = ground arith
