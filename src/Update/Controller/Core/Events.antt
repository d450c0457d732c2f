-- ===== src/Update/Controller/Core/Events.antt =====
-- The events of the active job obey every relation that the basic steps obey.
use bin_range.Base.{
  ℕ, ◌==◌, Bool, true, false, arith, some, List, codes, Option-cases, inl, inr, if◌then◌else◌,
}
use bin_range.Update.Job.{UpdatePhase, UpdateJob, uploading, rebooting, failed, needs_action}
use bin_range.Update.Job.Ops.{Op, apply}
use bin_range.Update.Smp.{
  SmpCommand, SmpImage, SmpReply, image_list, tag_status, upload, trial, reset, config_read,
  config_write, smp_accept_upload_offset,
}
use bin_range.Update.Controller.{
  Ports, UpdateController, UpdateTransportEvent, EventKind, event_connected, event_secured,
  event_reply, event_disconnected, event_failed, security, exchange, Observation, poll_interval,
}
use bin_range.Update.Controller.Link.{checkpoint, submit, close}
use bin_range.Update.Controller.Jobs.{
  on_job, transition, prepare_check, failed_with, and_then, or_else,
}
use bin_range.Update.Controller.Pairing.{is_transient}
use bin_range.Update.Controller.Events.{
  active_image, observe, with_tag, with_image, request_trial, completed, confirm, inspect_wanted,
  inspect_other, inspect_active, inspect_or_upload, identify, checked_offset, progressed, uploaded,
  next_exchange, job_reply, lost, job_handle, denied_text,
}
use bin_range.Update.Controller.Core.{
  Core, core, Laws, To, Does, quiet, To-trans, or_else-To, and_then-Does, if_done-To,
  checkpoint-Does, submit-Does, close-To, transition-Does, first-To,
}
use bin_range.Update.Controller.Core.Jobs.{policy-Does, stop-To, prepare_check-Does, failed_with-To}

module _ {S : Type 0} (ports : Ports S) (R : Core S → Core S → Type 0) (laws : Laws ports R) where
  -- A call that may fail, and then the failure of the job.
  or_failed-To :
      {c : UpdateController S} (r : UpdateController S × Bool) (text : List ℕ) (now : ℕ)
      (retryable : Bool)
      → Does ports R laws c r
      → To ports R laws c (or_else r (failed_with ports text now retryable))
  or_failed-To r text now retryable p =
      or_else-To ports R laws r (failed_with ports text now retryable) p
        (failed_with-To ports R laws text now retryable)

  -- A move of the phase, and then a command.
  move_and_send-Does :
      (slot : ℕ) (phase : UpdatePhase) (smp : SmpCommand) (now : ℕ) (c : UpdateController S)
      → Does ports R laws c
          (and_then (transition ports slot phase now c) (submit ports exchange smp now))
  move_and_send-Does slot phase smp now c =
      and_then-Does ports R laws (transition ports slot phase now c) (submit ports exchange smp now)
        (transition-Does ports R laws slot phase now c) (submit-Does ports R laws exchange smp now)

  request_trial-To :
      (slot : ℕ) (job : UpdateJob) (reply : SmpReply) (now : ℕ) (c : UpdateController S)
      → To ports R laws c (request_trial ports slot job reply now c)
  unfolding request_trial
  request_trial-To slot job reply now c =
      let wrong =
        failed_with-To ports R laws (codes "Inactive image hash/state does not match release") now
          false c in
      let sent =
        or_failed-To _ (codes "Could not request trial; inspect outcome") now false
          (move_and_send-Does slot rebooting trial now c) in
      record { by = ground (arith, wrong.by, sent.by) }

  completed-To :
      (slot : ℕ) (active : SmpImage) (now : ℕ) (c : UpdateController S)
      → To ports R laws c (completed ports slot active now c)
  unfolding apply
  completed-To slot active now c =
      if_done-To ports R laws (on_job slot (apply (Op.complete (some active.hash) true) now) c) _ _
        (policy-Does ports R laws slot (Op.complete (some active.hash) true) now c)
        (λ d. first-To ports R laws (checkpoint ports d) (checkpoint-Does ports R laws d))
        (quiet ports R laws)

  confirm-To :
      (slot : ℕ) (active : SmpImage) (now : ℕ) (c : UpdateController S)
      → To ports R laws c (confirm ports slot active now c)
  confirm-To slot active now c =
      let ended =
        To-trans ports R laws (completed-To slot active now c)
          (close-To ports R laws now 0 (completed ports slot active now c)) in
      record { by = ground (arith, laws.same (core c), ended.by) }

  inspect_wanted-To :
      (slot : ℕ) (active : SmpImage) (now : ℕ) (c : UpdateController S)
      → To ports R laws c (inspect_wanted ports slot active now c)
  unfolding inspect_wanted
  inspect_wanted-To slot active now c =
      if_done-To ports R laws (prepare_check ports slot now c) (confirm ports slot active now)
        (close ports now 0) (prepare_check-Does ports R laws slot now c)
        (confirm-To slot active now) (close-To ports R laws now 0)

  inspect_other-To :
      (slot : ℕ) (job : UpdateJob) (active : SmpImage) (reply : SmpReply) (now : ℕ)
      (c : UpdateController S)
      → To ports R laws c (inspect_other ports slot job active reply now c)
  unfolding inspect_other
  inspect_other-To slot job active reply now c =
      let pending =
        failed_with-To ports R laws
          (codes "Old image has a pending trial; inspect locally before retry") now false c in
      let gone =
        stop-To ports R laws (if job.trial_may_be_armed then failed else needs_action)
          (codes "Requested image is not active; trial did not remain installed") now 0 c in
      let other =
        failed_with-To ports R laws (codes "Another unconfirmed image is running") now false c in
      let sent =
        or_failed-To _ (codes "Release could not be acquired or upload queued") now false
          (move_and_send-Does slot uploading upload now c) in
      record { by = ground (arith, pending.by, gone.by, other.by, sent.by) }

  observe-To :
      (job : UpdateJob) (change : Observation → Observation) (c : UpdateController S)
      → To ports R laws c (observe job change c)
  observe-To job change c = record { by = laws.same _ }

  inspect_active-To :
      (slot : ℕ) (job : UpdateJob) (reply : SmpReply) (now : ℕ) (active : SmpImage)
      (c : UpdateController S)
      → To ports R laws c (inspect_active ports slot job reply now active c)
  inspect_active-To slot job reply now active c =
      let seen = observe job (with_image active now) c in
      record {
        by = ground (
          arith,
          (request_trial-To slot job reply now seen).by,
          (inspect_wanted-To slot active now seen).by,
          (inspect_other-To slot job active reply now seen).by,
        );
      }

  inspect_or_upload-To :
      (slot : ℕ) (job : UpdateJob) (reply : SmpReply) (now : ℕ) (c : UpdateController S)
      → To ports R laws c (inspect_or_upload ports slot job reply now c)
  unfolding inspect_or_upload
  inspect_or_upload-To slot job reply now c = elim (Option-cases (active_image reply)) [
    | inl e ↦
        let wrong = failed_with-To ports R laws (codes "Invalid active image status") now false c in
        record { by = ground (arith, wrong.by) }
    | inr (active, e) ↦ record {
      by = ground (arith, (inspect_active-To slot job reply now active c).by);
    }
  ]

  identify-To :
      (job : UpdateJob) (reply : SmpReply) (now : ℕ) (c : UpdateController S)
      → To ports R laws c (identify ports job reply now c)
  unfolding identify
  identify-To job reply now c =
      let wrong =
        failed_with-To ports R laws (codes "Commissioned tag identity mismatch") now false c in
      let seen = observe job (with_tag reply.tag now) c in
      let sent =
        or_failed-To _ (codes "Could not queue image inspection") now true
          (submit-Does ports R laws exchange image_list now seen) in
      record { by = ground (arith, wrong.by, sent.by) }

  checked_offset-Does :
      (checked : ℕ × Bool) (c : UpdateController S) → Does ports R laws c (checked_offset checked c)
  checked_offset-Does (stalled, accepted) c = record { does = laws.same _ }

  progressed-Does :
      (slot : ℕ) (job : UpdateJob) (reply : SmpReply) (now : ℕ) (c : UpdateController S)
      → Does ports R laws c (progressed slot job reply now c)
  unfolding apply
  progressed-Does slot job reply now c =
      let checked =
        smp_accept_upload_offset reply.offset c.sent_offset c.sent_end job.release.size
          (c.sent_offset == 0) c.stalled in
      and_then-Does ports R laws (checked_offset checked c)
        (on_job slot (apply (Op.progress reply.offset) now)) (checked_offset-Does checked c)
        (policy-Does ports R laws slot (Op.progress reply.offset) now)

  uploaded-To :
      (slot : ℕ) (job : UpdateJob) (reply : SmpReply) (now : ℕ) (c : UpdateController S)
      → To ports R laws c (uploaded ports slot job reply now c)
  unfolding uploaded
  uploaded-To slot job reply now c =
      if_done-To ports R laws (progressed slot job reply now c) _ _
        (progressed-Does slot job reply now c)
        (λ d.
          or_failed-To (submit ports exchange (next_exchange job reply) now d)
            (codes "Could not continue upload") now true
            (submit-Does ports R laws exchange (next_exchange job reply) now d))
        (failed_with-To ports R laws (codes "Invalid or stalled receiver upload offset") now false)

  job_reply-To :
      (slot : ℕ) (job : UpdateJob) (reply : SmpReply) (now : ℕ) (command : SmpCommand)
      (c : UpdateController S)
      → To ports R laws c (job_reply ports slot job reply now command c)
  unfolding job_reply
  job_reply-To slot job reply now tag_status c = identify-To job reply now c
  job_reply-To slot job reply now image_list c = inspect_or_upload-To slot job reply now c
  job_reply-To slot job reply now upload c = uploaded-To slot job reply now c
  job_reply-To slot job reply now trial c =
      or_failed-To (and_then (prepare_check ports slot now c) (submit ports exchange reset now))
        (codes "Could not request reset; inspect outcome") now false
        (and_then-Does ports R laws (prepare_check ports slot now c)
          (submit ports exchange reset now) (prepare_check-Does ports R laws slot now c)
          (submit-Does ports R laws exchange reset now))
  job_reply-To slot job reply now reset c = close-To ports R laws now poll_interval c
  job_reply-To slot job reply now config_read c = quiet ports R laws c
  job_reply-To slot job reply now config_write c = quiet ports R laws c

  lost-To :
      (now : ℕ) (transient : Bool) (c : UpdateController S)
      → To ports R laws c (lost ports now transient c)
  lost-To now transient c = failed_with-To ports R laws _ now transient c

  pub job_handle-To :
      (slot : ℕ) (job : UpdateJob) (event : UpdateTransportEvent) (now : ℕ) (kind : EventKind)
      (c : UpdateController S)
      → To ports R laws c (job_handle ports slot job event now kind c)
  unfolding job_handle
  job_handle-To slot job event now event_disconnected c = lost-To now true c
  job_handle-To slot job event now event_failed c = lost-To now (is_transient event.failure) c
  job_handle-To slot job event now event_connected c =
      let secured =
        or_failed-To _ (codes "Could not queue link security") now false
          (submit-Does ports R laws security tag_status now c) in
      record { by = ground (arith, laws.same (core c), secured.by) }
  job_handle-To slot job event now event_secured c =
      let weak =
        failed_with-To ports R laws (codes "Authenticated Secure Connections bond required") now
          false c in
      let asked =
        or_failed-To _ (codes "Could not queue tag identity request") now true
          (submit-Does ports R laws exchange tag_status now c) in
      record { by = ground (arith, laws.same (core c), weak.by, asked.by) }
  job_handle-To slot job event now event_reply c =
      let refused = failed_with-To ports R laws (denied_text event.reply) now false c in
      let answered = job_reply-To slot job event.reply now c.pending_smp c in
      record { by = ground (arith, laws.same (core c), refused.by, answered.by) }
