-- ===== src/Update/Queue/Admission.antt =====
-- A queue stays valid when a job is enqueued for a tag that has no live job, which is what
-- `UpdateController::queue` of firmware/anchor/src/core/update_controller.cpp makes sure of.
use bin_range.Base.{
  ℕ, ◌+◌, ◌≤◌, ◌<◌, ◌≡◌, inl, inr, Bool, true, false, not, refl, arith, List, [], ◌∷◌, ◌&&◌, ◌||◌,
  length, suc, zero, ◌==◌, Bool-cases,
}
use bin_range.Update.Job.{UpdateJob, UpdateTarget, UpdateRelease, update_terminal}
use bin_range.Update.Queue.{
  UpdateJobState, UpdateQueue, valid_target, valid_release, has_zero, clash, clashes,
  update_export_state, u32_max, enqueue, store_new, new_job, put,
}
use bin_range.Update.Queue.Entries.{AllValid, Distinct, clash_comm}
use bin_range.Update.Queue.Validity.{IsValidJob}
use bin_range.Update.Queue.Invariant.{IsValid, AllBelow, states}
use bin_range.Update.Queue.Slots.{Slot, at_end, replaces, get_elem?-lt}
use bin_range.Update.Queue.Enqueue.{enqueue-cases}

-- The loop of `UpdateController::queue` over the jobs.
unfoldable pub has_live_tag : ℕ → List UpdateJob → Bool
has_live_tag tag [] = false
has_live_tag tag (job ∷ jobs) =
    not (update_terminal job.phase) && job.target.tag == tag || has_live_tag tag jobs

module _ (new : UpdateJob) where
  length-put :
      (jobs : List UpdateJob) (slot : ℕ)
      → (slot < length jobs → length (put jobs slot new) ≡ length jobs)
        × (slot ≡ length jobs → length (put jobs slot new) ≡ length jobs + 1)
  unfolding put
  length-put [] slot = (λ h. absurd (omega arith), λ h. refl)
  length-put (x ∷ jobs) zero = (λ h. refl, λ h. absurd (omega arith))
  length-put (x ∷ jobs) (suc slot) =
      let (inside, past) = length-put jobs slot in
      (λ h. omega (arith, inside (omega arith)), λ h. omega (arith, past (omega arith)))

  length-put-Slot :
      (jobs : List UpdateJob) (slot : ℕ)
      → length jobs ≤ 16
      → Slot jobs slot
      → length (put jobs slot new) ≤ 16
  length-put-Slot jobs slot b (at_end h e) = omega (arith, (length-put jobs slot).1 e)
  length-put-Slot jobs slot b (replaces o h (job, e, _, _) l) =
      omega (arith, (length-put jobs slot).0 (get_elem?-lt jobs slot e))

  AllValid-put :
      (jobs : List UpdateJob) (slot : ℕ)
      → IsValidJob new
      → AllValid (states jobs)
      → AllValid (states (put jobs slot new))
  unfolding put
  AllValid-put [] slot n v = (n, tt)
  AllValid-put (x ∷ jobs) zero n v = (n, v.1)
  AllValid-put (x ∷ jobs) (suc slot) n v = (v.0, AllValid-put jobs slot n v.1)

  AllBelow-put :
      (n : ℕ) (jobs : List UpdateJob) (slot : ℕ)
      → new.id < n
      → AllBelow n jobs
      → AllBelow n (put jobs slot new)
  unfolding put
  AllBelow-put n [] slot h b = (h, tt)
  AllBelow-put n (x ∷ jobs) zero h b = (h, b.1)
  AllBelow-put n (x ∷ jobs) (suc slot) h b = (b.0, AllBelow-put n jobs slot h b.1)

  clashes-put :
      (s : UpdateJobState) (jobs : List UpdateJob) (slot : ℕ)
      → clash s (update_export_state new) ≡ false
      → clashes s (states jobs) ≡ false
      → clashes s (states (put jobs slot new)) ≡ false
  unfolding put clashes
  clashes-put s [] slot h c = ground arith
  clashes-put s (x ∷ jobs) zero h c = ground arith
  clashes-put s (x ∷ jobs) (suc slot) h c = ground (arith, clashes-put s jobs slot h)

  Distinct-put :
      (jobs : List UpdateJob) (slot : ℕ)
      → clashes (update_export_state new) (states jobs) ≡ false
      → Distinct (states jobs)
      → Distinct (states (put jobs slot new))
  unfolding put clashes
  Distinct-put [] slot c d = (refl, tt)
  Distinct-put (x ∷ jobs) zero c d = (ground arith, d.1)
  Distinct-put (x ∷ jobs) (suc slot) c d = (
    clashes-put (update_export_state x) jobs slot
        (ground (arith, clash_comm (update_export_state new) (update_export_state x))) d.0,
    Distinct-put jobs slot (ground arith) d.1,
  )

  -- A fresh ID and a tag with no live job clash with nothing.
  clashes-new :
      (jobs : List UpdateJob)
      → AllBelow new.id jobs
      → has_live_tag new.target.tag jobs ≡ false
      → clashes (update_export_state new) (states jobs) ≡ false
  unfolding clashes clash has_live_tag update_export_state
  clashes-new [] b h = refl
  clashes-new (x ∷ jobs) b h = ground (arith, clashes-new jobs b.1)

AllBelow-mono : (n : ℕ) (jobs : List UpdateJob) → AllBelow n jobs → AllBelow (n + 1) jobs
AllBelow-mono n [] b = tt
AllBelow-mono n (x ∷ jobs) b = (omega arith, AllBelow-mono n jobs b.1)

new_job-IsValidJob :
    (id : ℕ) (target : UpdateTarget) (release : UpdateRelease) (now : ℕ)
    → 0 < id
    → valid_target target ≡ true
    → valid_release release ≡ true
    → IsValidJob (new_job id target release now)
unfolding update_export_state has_zero
new_job-IsValidJob id target release now h vt vr = ground arith

store_new-IsValid :
    (q : UpdateQueue) (slot : ℕ) (new : UpdateJob)
    → IsValid q
    → q.id_exhausted ≡ false
    → new.id ≡ q.next_id
    → has_live_tag new.target.tag q.jobs ≡ false
    → IsValidJob new
    → Slot q.jobs slot
    → IsValid (store_new q slot new)
store_new-IsValid q slot new v x e live n s = record {
  bounded = length-put-Slot new q.jobs slot v.bounded s;
  valid = AllValid-put new q.jobs slot n v.valid;
  distinct =
      Distinct-put new q.jobs slot (clashes-new new q.jobs (rw e (v.fresh x)) live) v.distinct;
  fresh = λ m. elim (Bool-cases (q.next_id == u32_max)) [
    | inl p ↦ absurd (ground arith)
    | inr p ↦ rw p (
        AllBelow-put new (q.next_id + 1) q.jobs slot (omega arith)
          (AllBelow-mono q.next_id q.jobs (v.fresh x)))
  ];
  next_pos = λ m. ground arith;
  next_max = ground (arith, v.next_max);
}

-- A valid queue stays valid when a job is enqueued for a tag that has no live job.
pub enqueue-IsValid :
    (q : UpdateQueue) (target : UpdateTarget) (release : UpdateRelease) (now : ℕ)
    → IsValid q
    → has_live_tag target.tag q.jobs ≡ false
    → IsValid (enqueue q target release now).0
enqueue-IsValid q target release now v h = elim (enqueue-cases q target release now v.bounded) [
  | inl (e, _) ↦ rw e v
  | inr (slot, e, s) ↦ rw e (
      store_new-IsValid q slot _ v s.not_exhausted refl h
        (new_job-IsValidJob q.next_id target release now (v.next_pos s.not_exhausted) s.target_ok
          s.release_ok)
        s.place)
]
