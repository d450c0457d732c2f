-- ===== src/Update/Job/Ops.antt =====
-- The policy helpers as one set of operations on a job, run in any order: the job's identity,
-- which operations a finished job still takes, and the one way to `successful`.
use bin_range.Base.{ℕ, ◌≤◌, ◌≡◌, Bool, true, false, refl, ap, arith, List, [], ◌∷◌, Option, none}
use bin_range.Update.Job.{
  UpdatePhase, UpdateJob, update_terminal, update_transition, update_progress, update_attempt,
  update_retry, update_error, update_cancel, update_complete,
}

-- A call of a policy helper, with its arguments but for the job and the time.
pub data Op : Type 0 where
  transition : UpdatePhase → Op
  progress : ℕ → Op
  attempt retry cancel : Op
  record_error : Option (List ℕ) → Op
  complete : Option (List ℕ) → Bool → Op

unfoldable pub apply : Op → ℕ → UpdateJob → UpdateJob × Bool
apply (transition next) now job = update_transition job next now
apply (progress acknowledged) now job = update_progress job acknowledged now
apply attempt now job = update_attempt job now
apply retry now job = update_retry job now
apply cancel now job = update_cancel job now
apply (record_error text) now job = update_error job text now
apply (complete active_hash confirmed) now job = update_complete job active_hash confirmed now

-- The calls in order, each with its time.
unfoldable pub run : List (ℕ × Op) → UpdateJob → UpdateJob
run [] job = job
run ((now, op) ∷ ops) job = run ops (apply op now job).0

-- A helper that returns false leaves the job as it was.
pub apply-false_unchanged :
    (op : Op) (now : ℕ) (job : UpdateJob)
    → (apply op now job).1 ≡ false
    → (apply op now job).0 ≡ job
unfolding apply update_transition update_progress update_attempt update_retry update_error
    update_cancel update_complete
apply-false_unchanged (transition next) now job h = ground arith
apply-false_unchanged (record_error none) now job h = ground arith
apply-false_unchanged _ now job h = ground arith

-- No helper changes a job's ID, target or release, or takes its time back.
pub record IsSame (job job' : UpdateJob) : Type 0 where
  pub id : job'.id ≡ job.id
  pub target : job'.target ≡ job.target
  pub release : job'.release ≡ job.release
  pub later : job.changed_ms ≤ job'.changed_ms

pub apply-IsSame : (op : Op) (now : ℕ) (job : UpdateJob) → IsSame job (apply op now job).0
unfolding apply update_transition update_progress update_attempt update_retry update_error
    update_cancel update_complete
apply-IsSame (transition next) now job = ground arith
apply-IsSame (record_error none) now job = ground arith
apply-IsSame _ now job = ground arith

pub run-IsSame : (ops : List (ℕ × Op)) (job : UpdateJob) → IsSame job (run ops job)
unfolding run
run-IsSame [] job = ground arith
run-IsSame ((now, op) ∷ ops) job =
    ground (arith, apply-IsSame op now job, run-IsSame ops (apply op now job).0)

-- A terminal job takes no operation.
pub terminal-apply :
    (op : Op) (now : ℕ) (job : UpdateJob)
    → update_terminal job.phase ≡ true
    → apply op now job ≡ (job, false)
unfolding apply update_transition update_progress update_attempt update_retry update_error
    update_cancel update_complete
terminal-apply (transition next) now job h = ground arith
terminal-apply (record_error none) now job h = ground arith
terminal-apply _ now job h = ground arith

-- A terminal job is immutable: every helper refuses it, and any sequence of calls leaves it as it
-- was.
pub terminal_immutable :
    (ops : List (ℕ × Op)) (job : UpdateJob)
    → update_terminal job.phase ≡ true
    → (run ops job ≡ job) × ((op : Op) (now : ℕ) → (apply op now job).1 ≡ false)
unfolding run
terminal_immutable [] job h =
    (refl, λ op now. ap (λ (r : UpdateJob × Bool). r.1) (terminal-apply op now job h))
terminal_immutable ((now, op) ∷ ops) job h = (
  rw (terminal-apply op now job h) (terminal_immutable ops job h).0,
  λ op now. ap (λ (r : UpdateJob × Bool). r.1) (terminal-apply op now job h),
)
