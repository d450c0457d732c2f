-- ===== src/Update/Queue/Duplicates.antt =====
-- `enqueue` compares whole targets, the restore check only tags: two live jobs for one tag with
-- different hardware IDs can be queued, and then no checkpoint of the queue can be restored.
use bin_range.Base.{
  ℕ, ◌≤◌, ◌≡◌, ◌≢◌, inl, inr, true, false, refl, ap, arith, length, some, get_elem?, Bool-cases,
  take-length, length-map, List, [], ◌∷◌, zero, suc,
}
use bin_range.Update.Job.{UpdateJob, UpdateTarget, UpdateRelease, update_terminal}
use bin_range.Update.Queue.{
  UpdateQueue, update_export_state, valid_restore, enqueue, clash, clashes, new_job, UpdateJobState,
}
use bin_range.Update.Queue.Entries.{Distinct, valid_restore_iff, clash_comm}
use bin_range.Update.Queue.Invariant.{states}
use bin_range.Update.Queue.Slots.{Slot, at_end, replaces, get_elem?-lt}
use bin_range.Update.Queue.Enqueue.{enqueue_keeps_live, get_elem?-enqueue}

clashes-get :
    (s : UpdateJobState) (jobs : List UpdateJob) (i : ℕ) (job : UpdateJob)
    → get_elem? jobs i ≡ some job
    → clashes s (states jobs) ≡ false
    → clash s (update_export_state job) ≡ false
unfolding clashes
clashes-get s [] i job h c = cc
clashes-get s (x ∷ jobs) zero job h c = ground arith
clashes-get s (x ∷ jobs) (suc i) job h c = clashes-get s jobs i job h (ground arith)

Distinct-get :
    (jobs : List UpdateJob) (i k : ℕ) (a b : UpdateJob)
    → Distinct (states jobs)
    → i ≢ k
    → get_elem? jobs i ≡ some a
    → get_elem? jobs k ≡ some b
    → clash (update_export_state a) (update_export_state b) ≡ false
Distinct-get [] i k a b d n h g = cc
Distinct-get (x ∷ jobs) zero zero a b d n h g = absurd (n refl)
Distinct-get (x ∷ jobs) zero (suc k) a b d n h g =
    let c = clashes-get (update_export_state x) jobs k b g d.0 in ground arith
Distinct-get (x ∷ jobs) (suc i) zero a b d n h g =
    let c = clashes-get (update_export_state x) jobs i a h d.0 in
    ground (arith, clash_comm (update_export_state a) (update_export_state b))
Distinct-get (x ∷ jobs) (suc i) (suc k) a b d n h g =
    Distinct-get jobs i k a b d.1 (λ e. n (ap suc e)) h g

clash_of_tag :
    (job : UpdateJob) (id : ℕ) (target : UpdateTarget) (release : UpdateRelease) (now : ℕ)
    → update_terminal job.phase ≡ false
    → job.target.tag ≡ target.tag
    → clash (update_export_state job) (update_export_state (new_job id target release now)) ≡ true
unfolding clash update_export_state
clash_of_tag job id target release now live h = ground arith

Slot-ne :
    (q : UpdateQueue) (slot i : ℕ) (job : UpdateJob)
    → Slot q.jobs slot
    → get_elem? q.jobs i ≡ some job
    → update_terminal job.phase ≡ false
    → i ≢ slot
Slot-ne q slot i job (at_end l e) h live p = absurd (omega (arith, get_elem?-lt q.jobs i h))
Slot-ne q slot i job (replaces o l (ended, e, t, _) _) h live p = ground arith

-- If `enqueue` stores a job for a tag that a live job already has, as it does when the hardware
-- IDs differ, then `restore` refuses what the queue exports.
pub duplicate_tag_unsaveable :
    (q : UpdateQueue) (target : UpdateTarget) (release : UpdateRelease) (now slot i : ℕ)
    (job : UpdateJob)
    → length q.jobs ≤ 16
    → get_elem? q.jobs i ≡ some job
    → update_terminal job.phase ≡ false
    → job.target.tag ≡ target.tag
    → (enqueue q target release now).1 ≡ some slot
    → let q' = (enqueue q target release now).0 in
      valid_restore (some (states q'.jobs)) (length q'.jobs) ≡ false
duplicate_tag_unsaveable q target release now slot i job b h live tag stored =
    let q' : UpdateQueue = (enqueue q target release now).0 in
    let (at_slot, place) = get_elem?-enqueue q target release now slot b stored in
    let kept = enqueue_keeps_live q target release now i job b h live in
    let both = clash_of_tag job q.next_id target release now live tag in
    elim (Bool-cases (valid_restore (some (states q'.jobs)) (length q'.jobs))) [
      | inr e ↦ e
      | inl e ↦
          let (_, _, d) = (valid_restore_iff (states q'.jobs) (length q'.jobs)).0 e in
          let d' : Distinct (states q'.jobs) =
            rw (← length-map q'.jobs update_export_state, take-length (states q'.jobs)) at d in
          let apart =
            Distinct-get q'.jobs i slot job (new_job q.next_id target release now) d'
              (Slot-ne q slot i job place h live) kept at_slot in
          cc
    ]
