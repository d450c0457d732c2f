-- ===== src/Update/Controller/Core/Motion.antt =====
-- The motion settings obey every relation that the basic steps obey.
use bin_range.Base.{ℕ, zero, suc, ◌+◌, Bool, arith, List, codes, if◌then◌else◌, not, ◌||◌}
use bin_range.Update.Smp.{
  SmpCommand, SmpReply, image_list, tag_status, upload, trial, reset, config_read, config_write,
  smp_motion_equal, smp_motion_valid, SmpTag, SmpMotionConfig,
}
use bin_range.Update.Controller.{
  Ports, UpdateController, UpdateTransportEvent, EventKind, event_connected, event_secured,
  event_reply, event_disconnected, event_failed, connect, security, exchange, max_associations,
  association_of,
}
use bin_range.Update.Controller.Link.{submit}
use bin_range.Update.Controller.Motion.{
  motion_slot, settings_at, identified, request_slot, motion_request, motion_failing, motion_fail,
  forget_slot, forget_round, forget_from, motion_forget, open_motion, motion_start, motion_send,
  applied, motion_status, patched, aim, motion_config, motion_applied_status, motion_compare,
  motion_write, keep_target, written, motion_reply, motion_handle, denied_text,
}
use bin_range.Update.Controller.Core.{
  Core, core, Laws, To, quiet, To-trans, or_else-To, submit-Does, close-To, chosen-To,
}

module _ {S : Type 0} (ports : Ports S) (R : Core S → Core S → Type 0) (laws : Laws ports R) where
  request_slot-To :
      (tag idle moving now : ℕ) (c : UpdateController S) (slot : ℕ)
      → To ports R laws c (request_slot tag idle moving now c slot).0
  request_slot-To tag idle moving now c slot = record { by = ground (arith, laws.same (core c)) }

  pub motion_request-To :
      (tag idle moving now : ℕ) (c : UpdateController S)
      → To ports R laws c (motion_request tag idle moving now c).0
  unfolding motion_request
  motion_request-To tag idle moving now c =
      let slot = motion_slot tag c.motion.active 0 max_associations c.motion.settings in
      record {
        by = ground (arith, laws.same (core c), (request_slot-To tag idle moving now c slot).by);
      }

  pub motion_fail-To :
      (message : List ℕ) (now : ℕ) (c : UpdateController S)
      → To ports R laws c (motion_fail ports message now c)
  unfolding motion_fail
  motion_fail-To message now c = record {
    by = (close-To ports R laws now 60000 (motion_failing message now c)).by;
  }

  forget_round-To :
      (tag now slot : ℕ) (c : UpdateController S)
      → To ports R laws c (forget_round ports tag now slot c)
  unfolding forget_slot
  forget_round-To tag now slot c =
      let failed = motion_fail-To (codes "Tag no longer adopted") now c in
      record { by = ground (arith, laws.same (core c), failed.by) }

  forget_from-To :
      (tag now left slot : ℕ) (c : UpdateController S)
      → To ports R laws c (forget_from ports tag now left slot c)
  unfolding forget_from
  forget_from-To tag now zero slot c = quiet ports R laws c
  forget_from-To tag now (suc left) slot c =
      To-trans ports R laws (forget_round-To tag now slot c)
        (forget_from-To tag now left (slot + 1) (forget_round ports tag now slot c))

  pub motion_forget-To :
      (tag now : ℕ) (c : UpdateController S) → To ports R laws c (motion_forget ports tag now c)
  unfolding motion_forget
  motion_forget-To tag now c = forget_from-To tag now 16 0 c

  pub motion_start-To :
      (slot now : ℕ) (c : UpdateController S) → To ports R laws c (motion_start ports slot now c)
  unfolding motion_start
  motion_start-To slot now c =
      let started =
        or_else-To ports R laws (submit ports connect tag_status now (open_motion slot now c))
          (motion_fail ports (codes "Bluetooth connection could not be queued") now)
          (submit-Does ports R laws connect tag_status now (open_motion slot now c))
          (motion_fail-To (codes "Bluetooth connection could not be queued") now) in
      record { by = ground (arith, laws.same (core c), started.by) }

  pub motion_send-To :
      (command : SmpCommand) (now : ℕ) (c : UpdateController S)
      → To ports R laws c (motion_send ports command now c)
  unfolding motion_send
  motion_send-To command now c =
      or_else-To ports R laws (submit ports exchange command now c)
        (motion_fail ports (codes "Bluetooth request could not be queued") now)
        (submit-Does ports R laws exchange command now c)
        (motion_fail-To (codes "Bluetooth request could not be queued") now)

  motion_applied_status-To :
      (tag : SmpTag) (now : ℕ) (c : UpdateController S)
      → To ports R laws c (motion_applied_status ports tag now c)
  unfolding motion_applied_status
  motion_applied_status-To tag now c =
      let broken =
        motion_fail-To (codes "Tag saved settings but motion sensor application failed") now c in
      let ended = close-To ports R laws now 0 (applied now c) in
      let read = motion_send-To config_read now c in
      record { by = ground (arith, laws.same (core c), broken.by, read.by, ended.by) }

  motion_status-To :
      (reply : SmpReply) (now : ℕ) (c : UpdateController S)
      → To ports R laws c (motion_status ports reply now c)
  unfolding motion_status
  motion_status-To reply now c =
      let wrong = motion_fail-To (codes "Commissioned tag identity mismatch") now c in
      let old =
        motion_fail-To (codes "Confirmed tag firmware 0.2.6+ with settings schema 1 required") now
          c in
      let further = motion_applied_status-To reply.tag now c in
      let tag = (settings_at c.motion.active c).tag in
      chosen-To ports R laws (not (identified reply.tag (association_of tag c.associations))) wrong
        (chosen-To ports R laws (not reply.tag.confirmed || not reply.tag.config_status_known) old
          further)

  motion_compare-To :
      (reply : SmpReply) (now : ℕ) (c : UpdateController S)
      → To ports R laws c (motion_compare ports reply now c)
  unfolding motion_compare
  motion_compare-To reply now c =
      let unmatched = motion_fail-To (codes "Tag settings readback did not match request") now c in
      record { by = ground (arith, unmatched.by, (motion_send-To tag_status now c).by) }

  motion_write-To :
      (target : SmpMotionConfig) (same : Bool) (now : ℕ) (c : UpdateController S)
      → To ports R laws c (motion_write ports target same now c)
  unfolding motion_write
  motion_write-To target same now c =
      let invalid =
        motion_fail-To (codes "Requested intervals are invalid") now (keep_target target c) in
      let command = if same then tag_status else config_write in
      let sent = motion_send-To command now (aim target same now c) in
      record { by = ground (arith, invalid.by, sent.by) }

  motion_config-To :
      (reply : SmpReply) (now : ℕ) (c : UpdateController S)
      → To ports R laws c (motion_config ports reply now c)
  unfolding motion_config
  motion_config-To reply now c =
      let target = patched reply.config c.motion.idle c.motion.moving in
      let bad = motion_fail-To (codes "Invalid tag motion configuration") now c in
      let written = motion_write-To target (smp_motion_equal target reply.config) now c in
      chosen-To ports R laws (not (smp_motion_valid reply.config)) bad
        (chosen-To ports R laws c.motion.verifying (motion_compare-To reply now c) written)

  motion_reply-To :
      (reply : SmpReply) (now : ℕ) (command : SmpCommand) (c : UpdateController S)
      → To ports R laws c (motion_reply ports reply now command c)
  unfolding motion_reply
  motion_reply-To reply now tag_status c = motion_status-To reply now c
  motion_reply-To reply now config_read c = motion_config-To reply now c
  motion_reply-To reply now config_write c = record {
    by = (motion_send-To config_read now (written now c)).by;
  }
  motion_reply-To reply now image_list c = quiet ports R laws c
  motion_reply-To reply now upload c = quiet ports R laws c
  motion_reply-To reply now trial c = quiet ports R laws c
  motion_reply-To reply now reset c = quiet ports R laws c

  pub motion_handle-To :
      (event : UpdateTransportEvent) (now : ℕ) (kind : EventKind) (c : UpdateController S)
      → To ports R laws c (motion_handle ports event now kind c)
  unfolding motion_handle
  motion_handle-To event now event_failed c = motion_fail-To _ now c
  motion_handle-To event now event_disconnected c = motion_fail-To _ now c
  motion_handle-To event now event_connected c =
      let failing = motion_fail ports (codes "Could not queue authenticated link security") now in
      let secured =
        or_else-To ports R laws (submit ports security tag_status now c) failing
          (submit-Does ports R laws security tag_status now c)
          (motion_fail-To (codes "Could not queue authenticated link security") now) in
      record { by = ground (arith, laws.same (core c), secured.by) }
  motion_handle-To event now event_secured c =
      let weak = motion_fail-To (codes "Authenticated Secure Connections bond required") now c in
      record {
        by = ground (arith, laws.same (core c), weak.by, (motion_send-To tag_status now c).by);
      }
  motion_handle-To event now event_reply c = record {
    by = ground (
      arith,
      laws.same (core c),
      (motion_fail-To (denied_text event.reply) now c).by,
      (motion_reply-To event.reply now c.pending_smp c).by,
    );
  }
