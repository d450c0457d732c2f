-- ===== src/Update/Queue/Entries.antt =====
-- The restore check read as a predicate: each entry is valid, and no two of them clash.
use bin_range.Base.{ℕ, ◌≤◌, ◌<◌, ◌≡◌, ◌↔◌, true, false, refl, arith, List, [], ◌∷◌, some, take}
use bin_range.Update.Job.{phase_byte, rebooting}
use bin_range.Update.Queue.{
  UpdateJobState, valid_target, valid_release, has_zero, valid_state, clash, clashes, valid_entries,
  valid_restore,
}
use bin_range.Update.Job.Trial.{is_trial_phase}
use bin_range.Update.Job.{error_size}

-- What `valid_restore` asks of one entry.
pub record IsValidState (s : UpdateJobState) : Type 0 where
  pub id : 0 < s.id
  pub target : valid_target s.target ≡ true
  pub release : valid_release s.release ≡ true
  pub phase : phase_byte s.phase ≤ 10
  pub acknowledged : s.acknowledged ≤ s.release.size
  pub attempts : s.attempts ≤ 3
  pub error : has_zero error_size s.error ≡ true
  pub arms : s.phase ≡ rebooting → s.trial_may_be_armed ≡ true
  pub armed : s.trial_may_be_armed ≡ true → is_trial_phase s.phase ≡ true

valid_state→IsValidState : (s : UpdateJobState) → valid_state s ≡ true → IsValidState s
unfolding valid_state
valid_state→IsValidState s h = ground arith

IsValidState→valid_state : (s : UpdateJobState) → IsValidState s → valid_state s ≡ true
unfolding valid_state
IsValidState→valid_state s v = ground arith

pub clash_comm : (s t : UpdateJobState) → clash s t ≡ clash t s
unfolding clash
clash_comm s t = ground arith

abbrev pub AllValid : List UpdateJobState → Type 0
AllValid [] = Unit {0}
AllValid (s ∷ ss) = IsValidState s × AllValid ss

abbrev pub Distinct : List UpdateJobState → Type 0
Distinct [] = Unit {0}
Distinct (s ∷ ss) = (clashes s ss ≡ false) × Distinct ss

-- No entry clashes with one of `seen`.
abbrev Clear : List UpdateJobState → List UpdateJobState → Type 0
Clear seen [] = Unit {0}
Clear seen (s ∷ ss) = (clashes s seen ≡ false) × Clear seen ss

Clear-nil : (ss : List UpdateJobState) → Clear [] ss
unfolding clashes
Clear-nil [] = tt
Clear-nil (s ∷ ss) = (refl, Clear-nil ss)

Clear-cons :
    (s : UpdateJobState) (seen ss : List UpdateJobState)
    → clashes s ss ≡ false
    → Clear seen ss
    → Clear (s ∷ seen) ss
unfolding clashes
Clear-cons s seen [] h c = tt
Clear-cons s seen (t ∷ ts) h c =
    (ground (arith, clash_comm s t), Clear-cons s seen ts (ground arith) c.1)

Clear-uncons :
    (s : UpdateJobState) (seen ss : List UpdateJobState)
    → Clear (s ∷ seen) ss
    → (clashes s ss ≡ false) × Clear seen ss
unfolding clashes
Clear-uncons s seen [] c = (refl, tt)
Clear-uncons s seen (t ∷ ts) c =
    let (h, rest) = Clear-uncons s seen ts c.1 in
    (ground (arith, clash_comm s t), (ground arith, rest))

pub valid_entries_intro :
    (seen ss : List UpdateJobState)
    → AllValid ss
    → Distinct ss
    → Clear seen ss
    → valid_entries seen ss ≡ true
unfolding valid_entries
valid_entries_intro seen [] v d c = refl
valid_entries_intro seen (s ∷ ss) v d c = ground (
  arith,
  IsValidState→valid_state s v.0,
  valid_entries_intro (s ∷ seen) ss v.1 d.1 (Clear-cons s seen ss d.0 c.1),
)

pub valid_entries_sound :
    (seen ss : List UpdateJobState)
    → valid_entries seen ss ≡ true
    → AllValid ss × Distinct ss × Clear seen ss
unfolding valid_entries
valid_entries_sound seen [] h = (tt, tt, tt)
valid_entries_sound seen (s ∷ ss) h =
    let (v, d, c) = valid_entries_sound (s ∷ seen) ss (ground arith) in
    let (apart, clear) = Clear-uncons s seen ss c in
    ((valid_state→IsValidState s (ground arith), v), (apart, d), (ground arith, clear))

-- `valid_restore` accepts an array exactly when it names at most 16 entries, each is valid, and no
-- two of them share an ID or, both live, a tag.
pub valid_restore_iff :
    (states : List UpdateJobState) (count : ℕ)
    → (valid_restore (some states) count ≡ true)
      ↔ ((count ≤ 16) × AllValid (take count states) × Distinct (take count states))
unfolding valid_restore
valid_restore_iff states count = (
  λ h.
      let (v, d, c) = valid_entries_sound [] (take count states) (ground arith) in
      (ground arith, v, d),
  λ h. ground (arith, valid_entries_intro [] (take count states) h.1 h.2 (Clear-nil _)),
)
