-- ===== src/Tests/Jobs.antt =====
-- The policy helpers of update_job.cpp on one job.
use bin_range.Base.{ℕ, ◌≤◌, ◌≡◌, ◌↔◌, true, false, refl, arith, List, [], ◌∷◌, some}
use bin_range.Update.Job.{
  queued, waiting, checking, cancelled, update_transition, update_attempt, update_complete,
  bytes_eq, update_confirmed_match, allowed_edge,
}
use bin_range.Update.Job.Edges.{Edge, update_transition-true_iff}
use bin_range.Update.Job.Ops.{
  Op, transition, attempt, cancel, complete, apply, run, terminal_immutable,
}
use bin_range.Update.Job.Trial.{
  Confirms, successful_needs_confirmation, armed_trial_sticks, is_trial_phase,
}
use bin_range.Update.Job.Attempts.{granted, granted_within_budget}
use bin_range.Tests.Data.{waiting_job, armed_job, done_job, version_one}

-- A job that reconnects after the reboot and is then seen to run its release.
abbrev confirming : List (ℕ × Op)
confirming = (110, transition checking) ∷ (120, complete (some version_one.image_hash) true) ∷ []

successful_needs_confirmation_example : Confirms version_one confirming
unfolding run apply update_transition update_complete update_confirmed_match bytes_eq allowed_edge
successful_needs_confirmation_example =
    successful_needs_confirmation confirming armed_job (λ e. ground arith) refl

armed_trial_sticks_example :
    ((run ((110, cancel) ∷ []) armed_job).trial_may_be_armed ≡ true)
    × (is_trial_phase (run ((110, cancel) ∷ []) armed_job).phase ≡ true)
armed_trial_sticks_example = armed_trial_sticks ((110, cancel) ∷ []) armed_job (ground arith) refl

update_transition-true_iff_example : ((update_transition waiting_job waiting 120).1 ≡ true) ↔ (
    Edge queued waiting
    × (100 ≤ 120)
    × (waiting ≡ cancelled → waiting_job.trial_may_be_armed ≡ false))
update_transition-true_iff_example = update_transition-true_iff waiting_job waiting 120

terminal_immutable_example :
    (run ((110, attempt) ∷ []) done_job ≡ done_job)
    × ((op : Op) (now : ℕ) → (apply op now done_job).1 ≡ false)
terminal_immutable_example = terminal_immutable ((110, attempt) ∷ []) done_job refl

abbrev connecting_twice : List (ℕ × Op)
connecting_twice = (110, attempt) ∷ (120, attempt) ∷ []

granted_within_budget_example :
    ((run connecting_twice waiting_job).attempts ≡ granted connecting_twice waiting_job)
    × (granted connecting_twice waiting_job ≤ 3)
unfolding granted apply update_attempt
granted_within_budget_example =
    granted_within_budget connecting_twice waiting_job (omega arith) (refl, (refl, tt))
