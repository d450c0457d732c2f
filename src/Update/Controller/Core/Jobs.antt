-- ===== src/Update/Controller/Core/Jobs.antt =====
-- The calls on the active job obey every relation that the basic steps obey.
use bin_range.Base.{ℕ, Bool, true, arith, some, Option-cases, inl, inr, List, codes}
use bin_range.Update.Job.{UpdatePhase, UpdateJob, connecting, checking, needs_action}
use bin_range.Update.Job.Ops.{Op, apply}
use bin_range.Update.Smp.{tag_status}
use bin_range.Update.Controller.{
  Ports, UpdateController, connect, active_slot, job_at, index, cooldown,
}
use bin_range.Update.Controller.Link.{checkpoint, submit}
use bin_range.Update.Controller.Jobs.{
  on_job, note_error, move_to, record_stop, stopped, stop, set_deadline, prepare_check,
  after_failure, inspect_later, failed_with, opened, open_session, exhausted, start_attempt,
  connect_phase, start,
}
use bin_range.Update.Controller.Core.{
  Core, core, Laws, To, Does, quiet, To-trans, or_else-To, if_done-To, checkpoint-Does, submit-Does,
  close-To, disable-To, transition-Does,
}

module _ {S : Type 0} (ports : Ports S) (R : Core S → Core S → Type 0) (laws : Laws ports R) where
  pub policy-Does :
      (slot : ℕ) (op : Op) (now : ℕ) (c : UpdateController S)
      → Does ports R laws c (on_job slot (apply op now) c)
  policy-Does slot op now c = record { does = laws.policy slot op now c }

  pub note_error-To :
      (slot : ℕ) (text : List ℕ) (now : ℕ) (c : UpdateController S)
      → To ports R laws c (note_error slot text now c)
  unfolding apply
  note_error-To slot text now c = record {
    by = laws.policy slot (Op.record_error (some text)) now c;
  }

  move_to-To :
      (slot : ℕ) (phase : UpdatePhase) (now : ℕ) (c : UpdateController S)
      → To ports R laws c (move_to slot phase now c)
  unfolding apply
  move_to-To slot phase now c =
      let moved =
        or_else-To ports R laws (on_job slot (apply (Op.transition phase) now) c) _
          (policy-Does slot (Op.transition phase) now c)
          (disable-To ports R laws (codes "Invalid update transition; restart required")) in
      record { by = ground (arith, laws.same (core c), moved.by) }

  record_stop-To :
      (slot : ℕ) (phase : UpdatePhase) (text : List ℕ) (now : ℕ) (c : UpdateController S)
      → To ports R laws c (record_stop ports slot phase text now c)
  unfolding record_stop
  record_stop-To slot phase text now c =
      let noted = note_error slot text now c in
      record {
        by = laws.trans (note_error-To slot text now c).by (
            laws.trans (move_to-To slot phase now noted).by
              (checkpoint-Does ports R laws (move_to slot phase now noted)).does);
      }

  stopped-To :
      (phase : UpdatePhase) (text : List ℕ) (now : ℕ) (c : UpdateController S)
      → To ports R laws c (stopped ports phase text now c)
  stopped-To phase text now c = elim (Option-cases (active_slot c)) [
    | inl e ↦ record { by = ground (arith, laws.same (core c)) }
    | inr (slot, e) ↦ record {
      by = ground (arith, laws.same (core c), (record_stop-To slot phase text now c).by);
    }
  ]

  pub stop-To :
      (phase : UpdatePhase) (text : List ℕ) (now delay : ℕ) (c : UpdateController S)
      → To ports R laws c (stop ports phase text now delay c)
  unfolding stop
  stop-To phase text now delay c =
      To-trans ports R laws (stopped-To phase text now c) (close-To ports R laws now delay _)

  set_deadline-To :
      (slot now : ℕ) (c : UpdateController S) → To ports R laws c (set_deadline slot now c)
  set_deadline-To slot now c = record { by = ground (arith, laws.same (core c)) }

  pub prepare_check-Does :
      (at now : ℕ) (c : UpdateController S) → Does ports R laws c (prepare_check ports at now c)
  unfolding prepare_check
  prepare_check-Does at now c = elim (Option-cases (job_at c at)) [
    | inl e ↦ record { does = ground (arith, laws.same (core c)) }
    | inr (job, e) ↦
        let timed = set_deadline-To (index c job.id) now c in
        let moved =
          transition-Does ports R laws at checking now (set_deadline (index c job.id) now c) in
        record {
          does = ground (arith, laws.same (core c), timed.by, laws.trans timed.by moved.does);
        }
  ]

  inspect_later-To :
      (slot : ℕ) (next : UpdatePhase) (now : ℕ) (c : UpdateController S)
      → To ports R laws c (inspect_later ports slot next now c)
  inspect_later-To slot next now c = record {
    by = ground (arith, laws.same (core c), (prepare_check-Does slot now c).does);
  }

  pub failed_with-To :
      (text : List ℕ) (now : ℕ) (retryable : Bool) (c : UpdateController S)
      → To ports R laws c (failed_with ports text now retryable c)
  unfolding failed_with
  failed_with-To text now retryable c = elim (Option-cases (active_slot c)) [
    | inl e ↦ record { by = ground (arith, laws.same (core c)) }
    | inr (slot, e) ↦ elim (Option-cases (job_at c slot)) [
      | inl e' ↦ record { by = ground (arith, laws.same (core c)) }
      | inr (job, e') ↦
          let next = after_failure job retryable in
          let prepared = inspect_later-To slot next now c in
          let ended = stop-To next text now cooldown (inspect_later ports slot next now c) in
          record { by = ground (arith, laws.trans prepared.by ended.by) }
    ]
  ]

  opened-To : (id now : ℕ) (c : UpdateController S) → To ports R laws c (opened id now c)
  opened-To id now c = record { by = laws.same _ }

  open_session-To :
      (id now : ℕ) (c : UpdateController S) → To ports R laws c (open_session ports id now c)
  unfolding open_session
  open_session-To id now c =
      if_done-To ports R laws (checkpoint ports c) _ _ (checkpoint-Does ports R laws c)
        (λ d. To-trans ports R laws (opened-To id now d) (
          or_else-To ports R laws (submit ports connect tag_status now (opened id now d)) _
            (submit-Does ports R laws connect tag_status now (opened id now d))
            (failed_with-To (codes "BLE connection could not be queued") now true)))
        (λ d. quiet ports R laws d)

  exhausted-To :
      (slot now : ℕ) (c : UpdateController S) → To ports R laws c (exhausted ports slot now c)
  exhausted-To slot now c =
      let noted =
        note_error-To slot (codes "Connection attempts exhausted; operator retry required") now c in
      record {
        by = laws.trans noted.by (transition-Does ports R laws slot needs_action now _).does;
      }

  start_attempt-To :
      (slot id now : ℕ) (c : UpdateController S)
      → To ports R laws c (start_attempt ports slot id now c)
  unfolding start_attempt apply
  start_attempt-To slot id now c =
      if_done-To ports R laws (on_job slot (apply Op.attempt now) c) _ _
        (policy-Does slot Op.attempt now c) (open_session-To id now) (exhausted-To slot now)

  connect_phase-Does :
      (slot : ℕ) (job : UpdateJob) (now : ℕ) (c : UpdateController S)
      → Does ports R laws c (connect_phase slot job now c)
  unfolding apply
  connect_phase-Does slot job now c = record {
    does = ground (arith, laws.same (core c), laws.policy slot (Op.transition connecting) now c);
  }

  pub start-To :
      (slot now : ℕ) (c : UpdateController S) → To ports R laws c (start ports slot now c)
  unfolding start
  start-To slot now c = elim (Option-cases (job_at c slot)) [
    | inl e ↦ record { by = ground (arith, laws.same (core c)) }
    | inr (job, e) ↦
        let begun =
          if_done-To ports R laws (connect_phase slot job now c) _ _
            (connect_phase-Does slot job now c) (start_attempt-To slot job.id now)
            (quiet ports R laws) in
        let refused =
          disable-To ports R laws (codes "Association missing or session IDs exhausted") c in
        record { by = ground (arith, begun.by, refused.by) }
  ]
