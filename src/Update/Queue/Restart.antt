-- ===== src/Update/Queue/Restart.antt =====
-- What a restart does to a valid queue that was saved: nothing is lost, and no upload is resumed.
use bin_range.Base.{
  ℕ, ◌≡◌, true, false, refl, ap, arith, List, [], ◌∷◌, length, map, some, take, take-length,
  length-map,
}
use bin_range.Update.Job.{
  UpdateJob, update_terminal, update_after_restart, UpdatePhase, queued, waiting, connecting,
  uploading, rebooting, checking, successful, failed, cancelled, needs_release, needs_action,
  unnamed,
}
use bin_range.Update.Queue.{UpdateQueue, update_export_state, restored_job, restore, valid_restore}
use bin_range.Update.Queue.Entries.{valid_restore_iff}
use bin_range.Update.Queue.Invariant.{IsValid, states}

-- What a valid queue exports is accepted when it is restored, by any queue.
pub export-valid_restore :
    (q : UpdateQueue) → IsValid q → valid_restore (some (states q.jobs)) (length q.jobs) ≡ true
export-valid_restore q v =
    (valid_restore_iff (states q.jobs) (length q.jobs)).1
      (v.bounded, rw whole v.valid, rw whole v.distinct)
  where
    whole : take (length q.jobs) (states q.jobs) ≡ states q.jobs
    whole = rw (← length-map q.jobs update_export_state) (take-length (states q.jobs))

-- The job that a saved job comes back as.
abbrev pub restarted : ℕ → UpdateJob → UpdateJob
restarted now job = restored_job now (update_export_state job)

map-restarted :
    (now : ℕ) (jobs : List UpdateJob)
    → map (restored_job now) (states jobs) ≡ map (restarted now) jobs
map-restarted now [] = refl
map-restarted now (job ∷ jobs) = ap (◌∷◌ (restarted now job)) (map-restarted now jobs)

-- The phases of a saved and of a restored job: an ended job stays ended, work that was not yet
-- handed to the tag needs its release again, a reboot is inspected, and the rest waits for the
-- operator.
pub data Resumes : UpdatePhase → UpdatePhase → Type 0 where
  stays_successful : Resumes successful successful
  stays_failed : Resumes failed failed
  stays_cancelled : Resumes cancelled cancelled
  queued_again : Resumes queued needs_release
  waiting_again : Resumes waiting needs_release
  connecting_again : Resumes connecting needs_release
  uploading_again : Resumes uploading needs_release
  still_needed : Resumes needs_release needs_release
  rebooted : Resumes rebooting checking
  checked_again : Resumes checking checking
  still_waiting : Resumes needs_action needs_action
  unknown : (n : ℕ) → Resumes (unnamed n) needs_action

pub Resumes-update_after_restart : (p : UpdatePhase) → Resumes p (update_after_restart p)
unfolding update_after_restart
Resumes-update_after_restart queued = queued_again
Resumes-update_after_restart waiting = waiting_again
Resumes-update_after_restart connecting = connecting_again
Resumes-update_after_restart uploading = uploading_again
Resumes-update_after_restart rebooting = rebooted
Resumes-update_after_restart checking = checked_again
Resumes-update_after_restart successful = stays_successful
Resumes-update_after_restart failed = stays_failed
Resumes-update_after_restart cancelled = stays_cancelled
Resumes-update_after_restart needs_release = still_needed
Resumes-update_after_restart needs_action = still_waiting
Resumes-update_after_restart (unnamed n) = unknown n

-- A job and what it comes back as at a time.
pub record Restarts (now : ℕ) (job job' : UpdateJob) : Type 0 where
  pub id : job'.id ≡ job.id
  pub target : job'.target ≡ job.target
  pub release : job'.release ≡ job.release
  pub attempts : job'.attempts ≡ job.attempts
  pub error : job'.error ≡ job.error
  pub trial : job'.trial_may_be_armed ≡ job.trial_may_be_armed
  pub changed : job'.changed_ms ≡ now
  pub phase : Resumes job.phase job'.phase
  pub ended : update_terminal job.phase ≡ true → job'.acknowledged ≡ job.acknowledged
  pub unended : update_terminal job.phase ≡ false → job'.acknowledged ≡ 0

-- The jobs of two queues, slot by slot.
abbrev pub RestartsAll : ℕ → List UpdateJob → List UpdateJob → Type 0
RestartsAll now [] [] = Unit {0}
RestartsAll now [] (job' ∷ jobs') = ⊥
RestartsAll now (job ∷ jobs) [] = ⊥
RestartsAll now (job ∷ jobs) (job' ∷ jobs') = Restarts now job job' × RestartsAll now jobs jobs'

restarted-Restarts : (now : ℕ) (job : UpdateJob) → Restarts now job (restarted now job)
unfolding update_export_state
restarted-Restarts now job = record {
  id = refl;
  target = refl;
  release = refl;
  attempts = refl;
  error = refl;
  trial = refl;
  changed = refl;
  phase = Resumes-update_after_restart job.phase;
  ended = λ h. ground arith;
  unended = λ h. ground arith;
}

restarted-RestartsAll :
    (now : ℕ) (jobs : List UpdateJob) → RestartsAll now jobs (map (restarted now) jobs)
restarted-RestartsAll now [] = tt
restarted-RestartsAll now (job ∷ jobs) =
    (restarted-Restarts now job, restarted-RestartsAll now jobs)

-- Saving a valid queue and restoring it, into any queue, always succeeds, and brings back every
-- job, in its slot: with its ID, target, release, attempts, error and trial flag, changed at the
-- time of the restart. An ended job keeps its phase and its offset; any other holds no offset, and
-- needs its release, an inspection or the operator, by how far it had come.
pub restart_keeps_jobs :
    (q fresh : UpdateQueue) (now : ℕ)
    → IsValid q
    → let (q', done) = restore fresh (some (states q.jobs)) (length q.jobs) now in
      (done ≡ true) × RestartsAll now q.jobs q'.jobs
unfolding restore
restart_keeps_jobs q fresh now v = rw (export-valid_restore q v) (
  refl,
  rw (← length-map q.jobs update_export_state) (
      rw (take-length (states q.jobs))
        (rw (map-restarted now q.jobs) (restarted-RestartsAll now q.jobs))),
)
