-- ===== src/Update/Job/Trial.antt =====
-- What a job may do once a trial installation may be armed, how it becomes successful, and how
-- many connections it may make.
use bin_range.Base.{
  ℕ, ◌≡◌, ◌≢◌, inl, inr, Bool, true, refl, arith, List, [], ◌∷◌, some, none, Bool-cases, ◌||◌,
}
use bin_range.Update.Job.{
  UpdatePhase, UpdateJob, UpdateRelease, successful, rebooting, checking, failed, needs_action,
  bytes_eq, same_phase, allowed_edge, update_transition, update_progress, update_attempt,
  update_retry, update_error, update_cancel, update_complete,
}
use bin_range.Update.Job.Ops.{Op, transition, record_error, complete, apply, run, apply-IsSame}

pub bytes_eq-eq : (xs ys : List ℕ) → bytes_eq xs ys ≡ true → xs ≡ ys
unfolding bytes_eq
bytes_eq-eq [] [] h = refl
bytes_eq-eq [] (y ∷ ys) h = cc
bytes_eq-eq (x ∷ xs) [] h = cc
bytes_eq-eq (x ∷ xs) (y ∷ ys) h = ground (arith, bytes_eq-eq xs ys)

pub bytes_eq_refl : (xs : List ℕ) → bytes_eq xs xs ≡ true
unfolding bytes_eq
bytes_eq_refl [] = refl
bytes_eq_refl (x ∷ xs) = ground (arith, bytes_eq_refl xs)

-- Some call of the sequence confirms the release: it reports an active image that has the
-- release's hash and is confirmed.
pub data Confirms (release : UpdateRelease) : List (ℕ × Op) → Type 0 where
  here :
      {now : ℕ} {ops : List (ℕ × Op)}
      → Confirms release ((now, complete (some release.image_hash) true) ∷ ops)
  later :
      {call : ℕ × Op} {ops : List (ℕ × Op)} → Confirms release ops → Confirms release (call ∷ ops)

apply-successful :
    (op : Op) (now : ℕ) (job : UpdateJob)
    → job.phase ≢ successful
    → (apply op now job).0.phase ≡ successful
    → op ≡ complete (some job.release.image_hash) true
unfolding apply update_transition update_progress update_attempt update_retry update_error
    update_cancel update_complete allowed_edge
apply-successful (transition next) now job n h = ground arith
apply-successful (record_error none) now job n h = ground arith
apply-successful (complete none c) now job n h = ground arith
apply-successful (complete (some hash) c) now job n h =
    ground (arith, bytes_eq-eq job.release.image_hash hash)
apply-successful _ now job n h = ground arith

-- The only way to `successful`: a job that was not successful and is so after a sequence of calls
-- had its release confirmed by one of them.
pub successful_needs_confirmation :
    (ops : List (ℕ × Op)) (job : UpdateJob)
    → job.phase ≢ successful
    → (run ops job).phase ≡ successful
    → Confirms job.release ops
unfolding run
successful_needs_confirmation [] job n h = absurd (n h)
successful_needs_confirmation ((now, op) ∷ ops) job n h =
    elim (Bool-cases (same_phase (apply op now job).0.phase successful)) [
      | inl e ↦ rw (apply-successful op now job n (ground arith)) here
      | inr e ↦ later (
          rw (← (apply-IsSame op now job).release)
            (successful_needs_confirmation ops (apply op now job).0 (λ p. ground arith) h))
    ]

-- The phases in which an installation may be under way, or has been seen to end.
abbrev pub is_trial_phase : UpdatePhase → Bool
is_trial_phase phase =
    same_phase phase rebooting
    || same_phase phase checking
    || same_phase phase needs_action
    || same_phase phase successful
    || same_phase phase failed

-- What holds of every job of the queue.
pub record IsTrialSafe (job : UpdateJob) : Type 0 where
  pub armed : job.trial_may_be_armed ≡ true → is_trial_phase job.phase ≡ true
  pub arms : job.phase ≡ rebooting → job.trial_may_be_armed ≡ true

apply-IsTrialSafe :
    (op : Op) (now : ℕ) (job : UpdateJob)
    → IsTrialSafe job
    → IsTrialSafe (apply op now job).0
      × (job.trial_may_be_armed ≡ true → (apply op now job).0.trial_may_be_armed ≡ true)
unfolding apply update_transition update_progress update_attempt update_retry update_error
    update_cancel update_complete allowed_edge
apply-IsTrialSafe (transition next) now job s = ground arith
apply-IsTrialSafe (record_error none) now job s = ground arith
apply-IsTrialSafe _ now job s = ground arith

-- Once a trial may be armed it stays so whatever is called, and the job is from then on only
-- rebooted, checked, or ended: it never uploads again, and is never cancelled.
pub armed_trial_sticks :
    (ops : List (ℕ × Op)) (job : UpdateJob)
    → IsTrialSafe job
    → job.trial_may_be_armed ≡ true
    → ((run ops job).trial_may_be_armed ≡ true) × (is_trial_phase (run ops job).phase ≡ true)
unfolding run
armed_trial_sticks [] job s h = (h, s.armed h)
armed_trial_sticks ((now, op) ∷ ops) job s h =
    let (safe, still) = apply-IsTrialSafe op now job s in
    armed_trial_sticks ops (apply op now job).0 safe (still h)
