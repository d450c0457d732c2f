-- ===== src/Update/Job/Attempts.antt =====
-- The budget of three connections between two retries of the operator.
use bin_range.Base.{
  ℕ, ◌+◌, ◌≤◌, ◌≡◌, Bool, true, false, arith, List, [], ◌∷◌, none, ◌&&◌, if◌then◌else◌,
}
use bin_range.Update.Job.{
  UpdateJob, update_transition, update_progress, update_attempt, update_retry, update_error,
  update_cancel, update_complete,
}
use bin_range.Update.Job.Ops.{Op, transition, attempt, retry, record_error, apply, run}

abbrev pub is_attempt : Op → Bool
is_attempt attempt = true
is_attempt _ = false

abbrev pub is_retry : Op → Bool
is_retry retry = true
is_retry _ = false

-- The connections that a sequence of calls is granted.
unfoldable pub granted : List (ℕ × Op) → UpdateJob → ℕ
granted [] job = 0
granted ((now, op) ∷ ops) job =
    (if is_attempt op && (apply op now job).1 then 1 else 0) + granted ops (apply op now job).0

abbrev pub NoRetry : List (ℕ × Op) → Type 0
NoRetry [] = Unit {0}
NoRetry ((now, op) ∷ ops) = (is_retry op ≡ false) × NoRetry ops

apply-attempts :
    (op : Op) (now : ℕ) (job : UpdateJob)
    → job.attempts ≤ 3
    → is_retry op ≡ false
    → ((apply op now job).0.attempts ≤ 3)
      × ((apply op now job).0.attempts
          ≡ (if is_attempt op && (apply op now job).1 then 1 else 0) + job.attempts)
unfolding apply update_transition update_progress update_attempt update_retry update_error
    update_cancel update_complete
apply-attempts (transition next) now job b h = ground arith
apply-attempts (record_error none) now job b h = ground arith
apply-attempts _ now job b h = ground arith

-- Without an operator's retry among them, no sequence of calls is granted more than three
-- connections, those already counted included; and the job counts each one.
pub granted_within_budget :
    (ops : List (ℕ × Op)) (job : UpdateJob)
    → job.attempts ≤ 3
    → NoRetry ops
    → ((run ops job).attempts ≡ job.attempts + granted ops job)
      × (job.attempts + granted ops job ≤ 3)
unfolding run granted
granted_within_budget [] job b n = omega arith
granted_within_budget ((now, op) ∷ ops) job b n =
    let (bound, count) = apply-attempts op now job b n.0 in
    omega (arith, granted_within_budget ops (apply op now job).0 bound n.1, count)
