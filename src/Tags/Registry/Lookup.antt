-- ===== src/Tags/Registry/Lookup.antt =====
-- The registry read as a map from an address to its record, and what the writes through a slot and
-- the compaction of `Registry::forget` do to that map.
use bin_range.Base.{
  ℕ, zero, suc, ◌≡◌, inl, inr, refl, ap, ◌∙◌, arith, [], ◌∷◌, ◌++◌, Option, none, some, length,
  ◌==◌, if◌then◌else◌, Bool-cases, Option-cases,
}
use bin_range.Tags.Registry.{TagRecord, Registry, find, modify, but_last, move_last}

-- The first record of an address.
unfoldable pub lookup : ℕ → Registry → Option TagRecord
lookup a [] = none
lookup a (t ∷ tags) = if t.addr == a then some t else lookup a tags

-- No two records share an address.
abbrev pub Distinct : Registry → Type 0
Distinct [] = Unit {0}
Distinct (t ∷ tags) = (lookup t.addr tags ≡ none) × Distinct tags

pub find-none : (a : ℕ) (tags : Registry) → find a tags ≡ none → lookup a tags ≡ none
unfolding find lookup
find-none a [] h = refl
find-none a (t ∷ tags) h = ground (arith, find-none a tags)

pub find-some :
    (a : ℕ) (tags : Registry) (i : ℕ)
    → find a tags ≡ some i
    → (t : TagRecord) × (lookup a tags ≡ some t) × (t.addr ≡ a)
unfolding find lookup
find-some a [] i h = absurd (ground arith)
find-some a (t ∷ tags) i h = elim (Bool-cases (t.addr == a)) [
  | inl e ↦ (t, ground arith, ground arith)
  | inr e ↦ elim (Option-cases (find a tags)) [
    | inl n ↦ absurd (ground arith)
    | inr (j, f) ↦ let (u, found, at) = find-some a tags j f in (u, ground arith, at)
  ]
]

-- Mapped over the record that was found.
abbrev pub on : (TagRecord → TagRecord) → Option TagRecord → Option TagRecord
on f none = none
on f (some t) = some (f t)

-- A write that keeps the address.
abbrev pub KeepsAddr : (TagRecord → TagRecord) → Type 0
KeepsAddr f = (t : TagRecord) → (f t).addr ≡ t.addr

-- A write through the slot of an address changes what that address finds, and nothing else.
pub lookup-modify :
    (f : TagRecord → TagRecord)
    → KeepsAddr f
    → (a b i : ℕ) (tags : Registry) → find a tags ≡ some i
    → lookup b (modify f i tags) ≡ (if a == b then on f (lookup b tags) else lookup b tags)
unfolding find lookup modify
lookup-modify f k a b i [] h = absurd (ground arith)
lookup-modify f k a b i (t ∷ tags) h = elim (Bool-cases (t.addr == a)) [
  | inl e ↦ ground (arith, k t)
  | inr e ↦ elim (Option-cases (find a tags)) [
    | inl n ↦ absurd (ground arith)
    | inr (j, g) ↦ ground (arith, k t, lookup-modify f k a b j tags g)
  ]
]

-- With distinct addresses, a write at any slot leaves out what is out.
pub lookup-modify-none :
    (f : TagRecord → TagRecord)
    → KeepsAddr f
    → (b i : ℕ) (tags : Registry) → lookup b tags ≡ none
    → lookup b (modify f i tags) ≡ none
unfolding lookup modify
lookup-modify-none f k b i [] h = refl
lookup-modify-none f k b zero (t ∷ tags) h = ground (arith, k t)
lookup-modify-none f k b (suc i) (t ∷ tags) h = ground (arith, lookup-modify-none f k b i tags)

pub modify-Distinct :
    (f : TagRecord → TagRecord)
    → KeepsAddr f
    → (i : ℕ) (tags : Registry) → Distinct tags
    → Distinct (modify f i tags)
unfolding lookup modify
modify-Distinct f k i [] d = tt
modify-Distinct f k zero (t ∷ tags) d = (ap (λ a. lookup a tags) (k t) ∙ d.0, d.1)
modify-Distinct f k (suc i) (t ∷ tags) d =
    (lookup-modify-none f k t.addr i tags d.0, modify-Distinct f k i tags d.1)

pub length-modify :
    (f : TagRecord → TagRecord) (i : ℕ) (tags : Registry) → length (modify f i tags) ≡ length tags
unfolding modify
length-modify f i [] = refl
length-modify f zero (t ∷ tags) = refl
length-modify f (suc i) (t ∷ tags) = ap suc (length-modify f i tags)

-- A record put at the end is found when no record has its address.
pub lookup-append :
    (b : ℕ) (tags : Registry) (t : TagRecord)
    → lookup t.addr tags ≡ none
    → lookup b (tags ++ t ∷ []) ≡ (if t.addr == b then some t else lookup b tags)
unfolding lookup
lookup-append b [] t h = refl
lookup-append b (u ∷ tags) t h = ground (arith, lookup-append b tags t)

pub find-append :
    (a : ℕ) (tags : Registry) (t : TagRecord)
    → find a tags ≡ none
    → t.addr ≡ a
    → find a (tags ++ t ∷ []) ≡ some (length tags)
unfolding find
find-append a [] t h e = ground arith
find-append a (u ∷ tags) t h e = elim (Bool-cases (u.addr == a)) [
  | inl here ↦ absurd (ground arith)
  | inr away ↦ elim (Option-cases (find a tags)) [
    | inl n ↦ ground (arith, find-append a tags t n e)
    | inr (i, f) ↦ absurd (ground arith)
  ]
]

pub append-Distinct :
    (tags : Registry) (t : TagRecord)
    → Distinct tags
    → lookup t.addr tags ≡ none
    → Distinct (tags ++ t ∷ [])
unfolding lookup
append-Distinct [] t d h = (refl, tt)
append-Distinct (u ∷ tags) t d h =
    (ground (arith, lookup-append u.addr tags t), append-Distinct tags t d.1 (ground arith))

-- The compaction moves the last record to the front, which no address notices.
pub lookup-move_last :
    (b : ℕ) (tags : Registry) → Distinct tags → lookup b (move_last tags) ≡ lookup b tags
unfolding lookup
lookup-move_last b [] d = refl
lookup-move_last b (t ∷ []) d = refl
lookup-move_last b (t ∷ u ∷ tags) d =
    let ih = lookup-move_last b (u ∷ tags) d.1 in let apart = d.0 in ground arith

pub move_last-Distinct : (tags : Registry) → Distinct tags → Distinct (move_last tags)
unfolding lookup
move_last-Distinct [] d = tt
move_last-Distinct (t ∷ []) d = d
move_last-Distinct (t ∷ u ∷ tags) d =
    let ih = move_last-Distinct (u ∷ tags) d.1 in
    let out = lookup-move_last t.addr (u ∷ tags) d.1 ∙ d.0 in
    let front = ih.0 in (ground arith, (ground arith, ih.1))

pub length-move_last : (tags : Registry) → length (move_last tags) ≡ length tags
length-move_last [] = refl
length-move_last (t ∷ tags) = ap suc (rest t tags)
  where
    rest : (t : TagRecord) (tags : Registry) → length (but_last t tags) ≡ length tags
    rest t [] = refl
    rest t (u ∷ tags) = ap suc (rest u tags)
