-- ===== src/Update/Queue/History.antt =====
-- Every history of calls on a queue, and the one call order that makes it impossible to save.
use bin_range.Base.{ℕ, ◌≤◌, ◌≡◌, inl, inr, true, false, arith, List, length, some, take}
use bin_range.Update.Job.{UpdateTarget, UpdateRelease}
use bin_range.Update.Job.Ops.{Op}
use bin_range.Update.Queue.{
  UpdateJobState, UpdateQueue, restore, valid_restore, init, enqueue, u32_max,
}
use bin_range.Update.Queue.Invariant.{IsValid, states, apply_at, apply_at-IsValid}
use bin_range.Update.Queue.Admission.{has_live_tag, enqueue-IsValid}
use bin_range.Update.Queue.Restore.{AllWords, restore-IsValid}
use bin_range.Update.Queue.Restart.{export-valid_restore}

-- One call, by the updater: it enqueues only for a tag without live work.
pub data Step (q : UpdateQueue) : UpdateQueue → Type 0 where
  enqueues :
      (target : UpdateTarget) (release : UpdateRelease) (now : ℕ)
      → has_live_tag target.tag q.jobs ≡ false
      → Step q (enqueue q target release now).0
  applies : (slot : ℕ) (op : Op) (now : ℕ) → Step q (apply_at q slot op now)
  restores :
      (saved : List UpdateJobState) (count now : ℕ)
      → AllWords (take count saved)
      → Step q (restore q (some saved) count now).0

pub data Reach (q : UpdateQueue) : UpdateQueue → Type 0 where
  here : Reach q q
  next : {q' q'' : UpdateQueue} → Reach q q' → Step q' q'' → Reach q q''

init-IsValid : (first_id : ℕ) → first_id ≤ u32_max → IsValid (init first_id)
unfolding init
init-IsValid first_id h = record {
  bounded = omega arith;
  valid = tt;
  distinct = tt;
  fresh = λ e. tt;
  next_pos = λ e. ground arith;
  next_max = h;
}

Step-IsValid : {q q' : UpdateQueue} → IsValid q → Step q q' → IsValid q'
Step-IsValid {q} v (enqueues target release now h) = enqueue-IsValid q target release now v h
Step-IsValid {q} v (applies slot op now) = apply_at-IsValid op now q slot v
Step-IsValid {q} v (restores saved count now w) = elim (restore-IsValid q saved count now w) [
  | inl (_, v') ↦ v'
  | inr (_, e) ↦ rw e v
]

pub Reach-IsValid : {q q' : UpdateQueue} → IsValid q → Reach q q' → IsValid q'
Reach-IsValid v here = v
Reach-IsValid v (next r s) = Step-IsValid (Reach-IsValid v r) s

-- From an empty queue, no history of calls, restores of any saved array among them, leads to a
-- queue that breaks the invariant, or whose export `restore` would refuse.
pub history_restorable :
    (first_id : ℕ) {q : UpdateQueue}
    → first_id ≤ u32_max
    → Reach (init first_id) q
    → IsValid q × (valid_restore (some (states q.jobs)) (length q.jobs) ≡ true)
history_restorable first_id {q} h r =
    let v : IsValid q = Reach-IsValid (init-IsValid first_id h) r in (v, export-valid_restore q v)
