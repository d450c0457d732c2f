-- ===== src/Tags/Registry/Map.antt =====
-- The registry as a bounded map: every operation keeps its addresses distinct and its size within
-- the array, changes the record of one address, and never drops a record to make room.
use bin_range.Base.{
  ℕ, ◌≤◌, ◌<◌, ◌≡◌, ◌≢◌, true, false, inl, inr, refl, arith, [], ◌∷◌, ◌++◌, Option, none, some,
  length, ◌==◌, leb, if◌then◌else◌, length-append, Bool-cases, Option-cases,
}
use bin_range.Tags.Registry.{
  TagRecord, Registry, find, modify, touch, hear, fresh_tag, Config, configure, unhear,
}
use bin_range.Tags.Registry.Lookup.{
  lookup, Distinct, find-none, find-some, KeepsAddr, lookup-modify, modify-Distinct, length-modify,
  lookup-append, append-Distinct,
}

-- What holds of a registry between two calls.
pub record IsValid (tags : Registry) : Type 0 where
  pub bounded : length tags ≤ 16
  pub distinct : Distinct tags

pub modify-IsValid :
    (f : TagRecord → TagRecord)
    → KeepsAddr f
    → (i : ℕ) (tags : Registry) → IsValid tags
    → IsValid (modify f i tags)
modify-IsValid f k i tags v = record {
  bounded = ground (arith, length-modify f i tags);
  distinct = modify-Distinct f k i tags v.distinct;
}

KeepsAddr-hear : (now : ℕ) → KeepsAddr (hear now)
KeepsAddr-hear now t = refl

pub KeepsAddr-configure : (c : Config) (now : ℕ) → KeepsAddr (configure c now)
unfolding configure
KeepsAddr-configure c now t = refl

pub KeepsAddr-adopted : (c : Config) (now : ℕ) → KeepsAddr (λ t. configure c now (unhear t))
unfolding configure
KeepsAddr-adopted c now t = refl

pub addr-fresh_tag : (addr now : ℕ) → (fresh_tag addr now).addr ≡ addr
unfolding fresh_tag
addr-fresh_tag addr now = refl

pub append-IsValid :
    (addr now : ℕ) (tags : Registry)
    → IsValid tags
    → lookup addr tags ≡ none
    → length tags < 16
    → IsValid (tags ++ fresh_tag addr now ∷ [])
unfolding fresh_tag
append-IsValid addr now tags v h b = record {
  bounded = ground (arith, length-append tags (fresh_tag addr now ∷ []));
  distinct = append-Distinct tags (fresh_tag addr now) v.distinct h;
}

-- What hearing a tag makes of its entry.
abbrev pub touched : ℕ → ℕ → ℕ → Option TagRecord → Option TagRecord
touched addr now size (some t) = some (hear now t)
touched addr now size none = if leb 16 size then none else some (fresh_tag addr now)

pub touch-lookup :
    (addr now b : ℕ) (tags : Registry)
    → IsValid tags
    → (lookup b (touch addr now tags).0
        ≡ (if addr == b then touched addr now (length tags) (lookup addr tags) else lookup b tags))
      × IsValid (touch addr now tags).0
unfolding touch
touch-lookup addr now b tags v = elim (Option-cases (find addr tags)) [
  | inr (i, e) ↦
      let (t, found, at) = find-some addr tags i e in
      let valid = modify-IsValid (hear now) (KeepsAddr-hear now) i tags v in
      (ground (arith, lookup-modify (hear now) (KeepsAddr-hear now) addr b i tags e), ground arith)
  | inl e ↦
      let out = find-none addr tags e in
      let new = lookup-append b tags (fresh_tag addr now) in
      let at = addr-fresh_tag addr now in
      elim (Bool-cases (leb 16 (length tags))) [
        | inl full ↦ (ground arith, ground arith)
        | inr room ↦
            let valid = append-IsValid addr now tags v out (ground arith) in
            (ground arith, ground arith)
      ]
]

-- A record of a tag that has just been heard, against the one before.
pub record Heard (now : ℕ) (before after : TagRecord) : Type 0 where
  pub stamped : after.last_seen_ms ≡ now
  pub flagged : after.heard ≡ true
  pub rest : after ≡ record before { last_seen_ms = after.last_seen_ms; heard = after.heard }

-- A record of a tag that is heard for the first time.
pub record FirstHeard (addr now : ℕ) (t : TagRecord) : Type 0 where
  pub at_addr : t.addr ≡ addr
  pub stamped : t.last_seen_ms ≡ now
  pub flagged : t.heard ≡ true
  pub unadopted : t.adopted ≡ false
  pub present : t.absent ≡ false
  pub unnamed : t.name ≡ []
  pub default_limit : t.stale_after_s ≡ 21600
  pub no_samples : t.stats.count ≡ 0

-- What hearing a tag makes of its entry, by what it was and the size of the registry.
abbrev pub Touched : ℕ → ℕ → ℕ → Option TagRecord → Option TagRecord → Type 0
Touched addr now size (some before) (some after) = Heard now before after
Touched addr now size (some before) none = ⊥
Touched addr now size none (some after) = (size < 16) × FirstHeard addr now after
Touched addr now size none none = 16 ≤ size

fresh_tag-FirstHeard : (addr now : ℕ) → FirstHeard addr now (fresh_tag addr now)
unfolding fresh_tag
fresh_tag-FirstHeard addr now = record {
  at_addr = refl;
  stamped = refl;
  flagged = refl;
  unadopted = refl;
  present = refl;
  unnamed = refl;
  default_limit = refl;
  no_samples = refl;
}

touched-Touched :
    (addr now size : ℕ) (before : Option TagRecord)
    → Touched addr now size before (touched addr now size before)
touched-Touched addr now size (some t) = record { stamped = refl; flagged = refl; rest = refl }
touched-Touched addr now size none = elim (Bool-cases (leb 16 size)) [
  | inl full ↦ rw full (ground arith)
  | inr room ↦ rw room (ground arith, fresh_tag-FirstHeard addr now)
]

-- Hearing a tag stamps the record of that address with the time, marks it as heard and changes
-- nothing else in it, also in a full registry. An unknown address gets a new record with the time,
-- not adopted and without samples, when a slot is free, and none when the registry is full. Every
-- other address keeps its record, and the registry stays valid, in every case.
pub touch_lem :
    (addr now b : ℕ) (tags : Registry)
    → IsValid tags
    → Touched addr now (length tags) (lookup addr tags) (lookup addr (touch addr now tags).0)
      × (b ≢ addr → lookup b (touch addr now tags).0 ≡ lookup b tags)
      × IsValid (touch addr now tags).0
touch_lem addr now b tags v =
    let before = lookup addr tags in
    let (self, valid) = touch-lookup addr now addr tags v in
    let (other, _) = touch-lookup addr now b tags v in
    let here : lookup addr (touch addr now tags).0 ≡ touched addr now (length tags) before =
      ground arith in
    (rw here (touched-Touched addr now (length tags) before), λ apart. ground arith, valid)
