-- ===== src/Update/Queue/Validity.antt =====
-- Every policy helper keeps a job in a state that the restore check accepts.
use bin_range.Base.{
  ℕ, ◌+◌, ◌-◌, ◌≤◌, ◌<◌, ◌≡◌, inl, inr, true, refl, arith, List, [], ◌∷◌, ◌++◌, some, none, take,
  suc, zero, ◌==◌, replicate, Bool-cases,
}
use bin_range.Update.Job.{
  UpdateJob, bounded_length, error_size, update_transition, update_progress, update_attempt,
  update_retry, update_error, update_cancel, update_complete, allowed_edge, clear_error,
}
use bin_range.Update.Job.Ops.{Op, transition, record_error, apply}
use bin_range.Update.Queue.{has_zero, update_export_state}
use bin_range.Update.Queue.Entries.{IsValidState}

-- A job that the restore check would accept.
abbrev pub IsValidJob : UpdateJob → Type 0
IsValidJob job = IsValidState (update_export_state job)

bounded_length-le : (limit : ℕ) (text : List ℕ) → bounded_length limit text ≤ limit
unfolding bounded_length
bounded_length-le zero text = omega arith
bounded_length-le (suc limit) [] = omega arith
bounded_length-le (suc limit) (c ∷ text) = ground (arith, bounded_length-le limit text)

-- What `update_error` stores keeps a terminating 0.
has_zero-padded :
    (limit pad : ℕ) (text : List ℕ)
    → bounded_length limit text + pad ≡ limit
    → 0 < pad
    → has_zero limit (take (bounded_length limit text) text ++ replicate pad 0) ≡ true
unfolding has_zero bounded_length
has_zero-padded zero pad text e h = absurd (omega arith)
has_zero-padded (suc limit) zero text e h = absurd (omega arith)
has_zero-padded (suc limit) (suc pad) [] e h = refl
has_zero-padded (suc limit) (suc pad) (c ∷ text) e h = elim (Bool-cases (c == 0)) [
  | inl z ↦ rw z
  | inr n ↦ ground (arith, has_zero-padded limit (suc pad) text (ground arith) h)
]

has_zero-clear_error :
    (bytes : List ℕ) (limit : ℕ)
    → has_zero limit bytes ≡ true
    → has_zero limit (clear_error bytes) ≡ true
unfolding has_zero
has_zero-clear_error [] zero h = cc
has_zero-clear_error [] (suc n) h = cc
has_zero-clear_error (x ∷ xs) zero h = cc
has_zero-clear_error (x ∷ xs) (suc n) h = refl

pub apply-IsValidJob :
    (op : Op) (now : ℕ) (job : UpdateJob) → IsValidJob job → IsValidJob (apply op now job).0
unfolding apply update_transition update_progress update_attempt update_retry update_error
    update_cancel update_complete allowed_edge update_export_state
apply-IsValidJob (transition next) now job v =
    ground (arith, has_zero-clear_error job.error error_size)
apply-IsValidJob (record_error none) now job v = ground arith
apply-IsValidJob (record_error (some text)) now job v = ground (
  arith,
  bounded_length-le error_size text,
  has_zero-padded error_size (error_size - bounded_length error_size text) text,
)
apply-IsValidJob _ now job v = ground (arith, has_zero-clear_error job.error error_size)
