-- ===== src/Update/Queue/Restore.antt =====
-- `UpdateQueue::restore`: a saved queue always comes back, and nothing of it resumes an upload.
use bin_range.Base.{
  ℕ, ◌+◌, ◌≤◌, ◌≡◌, ◌⊎◌, inl, inr, true, false, refl, ap, arith, List, [], ◌∷◌, length, suc, map,
  some, take, ltb, if◌then◌else◌, Bool-cases, length-take,
}
use bin_range.Update.Job.{update_after_restart}
use bin_range.Update.Queue.{
  UpdateJobState, UpdateQueue, clash, clashes, update_export_state, u32_max, restored_job,
  restored_queue, largest_id, restore, valid_restore,
}
use bin_range.Update.Queue.Entries.{IsValidState, AllValid, Distinct, valid_restore_iff}
use bin_range.Update.Queue.Validity.{IsValidJob}
use bin_range.Update.Queue.Invariant.{IsValid, AllBelow, states}

restored_job-IsValidJob :
    (now : ℕ) (s : UpdateJobState) → IsValidState s → IsValidJob (restored_job now s)
unfolding update_export_state update_after_restart
restored_job-IsValidJob now s v = ground arith

AllValid-restored :
    (now : ℕ) (ss : List UpdateJobState)
    → AllValid ss
    → AllValid (states (map (restored_job now) ss))
AllValid-restored now [] v = tt
AllValid-restored now (s ∷ ss) v = (restored_job-IsValidJob now s v.0, AllValid-restored now ss v.1)

-- Restoring ends no job and revives none, so it makes no new clash.
clash-restored :
    (now : ℕ) (s t : UpdateJobState)
    → IsValidState s
    → IsValidState t
    → clash s t ≡ false
    → clash (update_export_state (restored_job now s)) (update_export_state (restored_job now t))
      ≡ false
unfolding clash update_export_state update_after_restart
clash-restored now s t v w h = ground arith

clashes-restored :
    (now : ℕ) (s : UpdateJobState) (ts : List UpdateJobState)
    → IsValidState s
    → AllValid ts
    → clashes s ts ≡ false
    → clashes (update_export_state (restored_job now s)) (states (map (restored_job now) ts))
      ≡ false
unfolding clashes
clashes-restored now s [] v w h = refl
clashes-restored now s (t ∷ ts) v w h =
    ground (arith, clash-restored now s t v w.0, clashes-restored now s ts v w.1)

Distinct-restored :
    (now : ℕ) (ss : List UpdateJobState)
    → AllValid ss
    → Distinct ss
    → Distinct (states (map (restored_job now) ss))
Distinct-restored now [] v d = tt
Distinct-restored now (s ∷ ss) v d =
    (clashes-restored now s ss v.0 v.1 d.0, Distinct-restored now ss v.1 d.1)

length-restored :
    (now : ℕ) (ss : List UpdateJobState) → length (map (restored_job now) ss) ≡ length ss
length-restored now [] = refl
length-restored now (s ∷ ss) = ap suc (length-restored now ss)

largest_id-ge : (n : ℕ) (ss : List UpdateJobState) → n ≤ largest_id n ss
unfolding largest_id
largest_id-ge n [] = omega arith
largest_id-ge n (s ∷ ss) = ground (arith, largest_id-ge (if ltb n s.id then s.id else n) ss)

AllBelow-restored :
    (now n : ℕ) (ss : List UpdateJobState)
    → AllBelow (largest_id n ss + 1) (map (restored_job now) ss)
unfolding largest_id
AllBelow-restored now n [] = tt
AllBelow-restored now n (s ∷ ss) =
    let m = if ltb n s.id then s.id else n in
    (ground (arith, largest_id-ge m ss), AllBelow-restored now m ss)

-- The IDs are uint32_t.
abbrev pub AllWords : List UpdateJobState → Type 0
AllWords [] = Unit {0}
AllWords (s ∷ ss) = (s.id ≤ u32_max) × AllWords ss

largest_id-le :
    (n : ℕ) (ss : List UpdateJobState) → n ≤ u32_max → AllWords ss → largest_id n ss ≤ u32_max
unfolding largest_id
largest_id-le n [] h w = h
largest_id-le n (s ∷ ss) h w = largest_id-le (if ltb n s.id then s.id else n) ss (ground arith) w.1

restored_queue-IsValid :
    (ss : List UpdateJobState) (now : ℕ)
    → length ss ≤ 16
    → AllValid ss
    → Distinct ss
    → AllWords ss
    → IsValid (restored_queue ss now)
restored_queue-IsValid ss now b v d w = record {
  bounded = omega (arith, length-restored now ss);
  valid = AllValid-restored now ss v;
  distinct = Distinct-restored now ss v d;
  fresh = λ e. simp e (AllBelow-restored now 0 ss);
  next_pos = λ e. ground arith;
  next_max = ground (arith, largest_id-le 0 ss);
}

-- An array that `restore` accepts becomes a valid queue, whatever the queue was; any other leaves
-- the queue as it was.
pub restore-IsValid :
    (q : UpdateQueue) (saved : List UpdateJobState) (count now : ℕ)
    → AllWords (take count saved)
    → let (q', done) = restore q (some saved) count now in
      ((done ≡ true) × IsValid q') ⊎ ((done ≡ false) × (q' ≡ q))
unfolding restore
restore-IsValid q saved count now w = elim (Bool-cases (valid_restore (some saved) count)) [
  | inr e ↦ rw e (inr (refl, refl))
  | inl e ↦
      let (b, v, d) = (valid_restore_iff saved count).0 e in
      rw e (
        inl (
          refl,
          restored_queue-IsValid (take count saved) now (omega (arith, length-take count saved)) v d
              w,
        ))
]
