-- ===== src/Update/Controller/Events.antt =====
-- `handle` and `inspect_or_upload` of firmware/anchor/src/core/update_controller.cpp.
use bin_range.Base.{
  ℕ, Bool, true, false, not, ◌&&◌, ◌||◌, Option, none, some, List, [], ◌∷◌, ◌++◌, ltb, ◌==◌,
  if◌then◌else◌, length, set, get_or, codes,
}
use bin_range.Update.Job.{
  UpdateJob, uploading, rebooting, checking, failed, needs_action, same_phase, bytes_eq,
  update_progress, update_complete,
}
use bin_range.Update.Smp.{
  SmpCommand, SmpImage, SmpReply, SmpTag, image_list, tag_status, upload, trial, reset, config_read,
  config_write, smp_accept_upload_offset,
}
use bin_range.Update.Controller.{
  Ports, UpdateController, UpdateTransportEvent, EventKind, event_connected, event_secured,
  event_reply, event_disconnected, event_failed, security, exchange, Observation, no_observation,
  await_connected, await_secured, await_reply, await_poll, await_disconnected, awaits, active_slot,
  job_at, index, owned, pairing_active, motion_running, later, poll_interval,
}
use bin_range.Update.Controller.Link.{checkpoint, submit, close, finish_close}
use bin_range.Update.Controller.Jobs.{
  on_job, and_then, or_else, if_done, transition, stop, prepare_check, failed_with, decimal,
}
use bin_range.Update.Controller.Pairing.{pairing_finish_close, pairing_handle, is_transient, is_ok}
use bin_range.Update.Controller.Motion.{motion_handle}

-- The images that are active; `out` is the last of them.
abbrev pub active_ones : List SmpImage → List SmpImage
active_ones [] = []
active_ones (image ∷ images) =
    if image.active then image ∷ active_ones images else active_ones images

abbrev the_only : List SmpImage → Option SmpImage
the_only [] = none
the_only (image ∷ []) = if image.bootable then some image else none
the_only (image ∷ other ∷ images) = none

unfoldable pub active_image : SmpReply → Option SmpImage
active_image reply =
    if length reply.images == 0 || ltb 2 (length reply.images)
    then none
    else the_only (active_ones reply.images)

-- A reply holds two images at most, so the bound of the loop is the count.
unfoldable pub pending_image : List SmpImage → Bool
pending_image [] = false
pending_image (image ∷ images) = image.pending || pending_image images

-- `inactive_match`.
unfoldable pub inactive_match : List ℕ → List SmpImage → Bool
inactive_match hash [] = false
inactive_match hash (image ∷ images) =
    not image.active && image.bootable && bytes_eq image.hash hash || inactive_match hash images

-- The command after an upload's reply.
abbrev pub next_exchange : UpdateJob → SmpReply → SmpCommand
next_exchange job reply = if ltb reply.offset job.release.size then upload else image_list

abbrev pub denied_text : SmpReply → List ℕ
denied_text reply =
    codes "Tag denied command (group "
    ++ decimal reply.error_group
    ++ codes ", code "
    ++ decimal reply.error_code
    ++ codes ")"

abbrev pub is_disconnected : EventKind → Bool
is_disconnected event_connected = false
is_disconnected event_secured = false
is_disconnected event_reply = false
is_disconnected event_disconnected = true
is_disconnected event_failed = false

abbrev pub with_tag : SmpTag → ℕ → Observation → Observation
with_tag tag now o = record o { identity_valid = true; tag = tag; seen_ms = now }

abbrev pub with_image : SmpImage → ℕ → Observation → Observation
with_image active now o = record o { image_valid = true; active = active; seen_ms = now }

module _ {S : Type 0} where
  abbrev pub observe :
      UpdateJob → (Observation → Observation) → UpdateController S → UpdateController S
  observe job change c =
      let slot = index c job.id in
      record c { observed = set c.observed slot (change (get_or c.observed slot no_observation)) }

  -- The upload is whole: ask for the trial of the image.
  unfoldable pub request_trial :
      Ports S → ℕ → UpdateJob → SmpReply → ℕ → UpdateController S → UpdateController S
  unfolding inactive_match pending_image failed_with transition submit
  request_trial ports slot job reply now c =
      if not (inactive_match job.release.image_hash reply.images) || pending_image reply.images
      then failed_with ports (codes "Inactive image hash/state does not match release") now false c
      else or_else
          (and_then (transition ports slot rebooting now c) (submit ports exchange trial now))
          (failed_with ports (codes "Could not request trial; inspect outcome") now false)

  abbrev pub wait_confirmation : ℕ → UpdateController S → UpdateController S
  wait_confirmation now c = record c { await = await_poll; deadline = later now poll_interval }

  abbrev pub completed : Ports S → ℕ → SmpImage → ℕ → UpdateController S → UpdateController S
  completed ports slot active now c =
      if_done (on_job slot (λ job. update_complete job (some active.hash) true now) c)
        (λ done. (checkpoint ports done).0) (λ refused. refused)

  abbrev pub confirm : Ports S → ℕ → SmpImage → ℕ → UpdateController S → UpdateController S
  confirm ports slot active now c =
      if active.confirmed
      then close ports now 0 (completed ports slot active now c)
      else wait_confirmation now c

  -- The release runs: done once it is confirmed, else polled.
  unfoldable pub inspect_wanted :
      Ports S → ℕ → SmpImage → ℕ → UpdateController S → UpdateController S
  unfolding prepare_check on_job checkpoint close
  inspect_wanted ports slot active now c =
      if_done (prepare_check ports slot now c) (confirm ports slot active now) (close ports now 0)

  -- Another image runs.
  unfoldable pub inspect_other :
      Ports S → ℕ → UpdateJob → SmpImage → SmpReply → ℕ → UpdateController S → UpdateController S
  unfolding pending_image failed_with stop transition submit
  inspect_other ports slot job active reply now c =
      if pending_image reply.images
      then failed_with ports (codes "Old image has a pending trial; inspect locally before retry")
          now false c
      else if same_phase job.phase checking || job.trial_may_be_armed
      then stop ports (if job.trial_may_be_armed then failed else needs_action)
          (codes "Requested image is not active; trial did not remain installed") now 0 c
      else if not active.confirmed
      then failed_with ports (codes "Another unconfirmed image is running") now false c
      else or_else
          (and_then (transition ports slot uploading now c) (submit ports exchange upload now))
          (failed_with ports (codes "Release could not be acquired or upload queued") now false)

  abbrev pub inspect_active :
      Ports S → ℕ → UpdateJob → SmpReply → ℕ → SmpImage → UpdateController S → UpdateController S
  inspect_active ports slot job reply now active c =
      let seen =
        observe job (λ o. record o { image_valid = true; active = active; seen_ms = now }) c in
      if same_phase job.phase uploading
      then request_trial ports slot job reply now seen
      else if bytes_eq active.hash job.release.image_hash
      then inspect_wanted ports slot active now seen
      else inspect_other ports slot job active reply now seen

  unfoldable pub inspect_or_upload :
      Ports S → ℕ → UpdateJob → SmpReply → ℕ → UpdateController S → UpdateController S
  unfolding active_image failed_with index request_trial inspect_wanted inspect_other
  inspect_or_upload ports slot job reply now c = elim (active_image reply) [
    | none ↦ failed_with ports (codes "Invalid active image status") now false c
    | some active ↦ inspect_active ports slot job reply now active c
  ]

  -- The reply to TagStatus.
  unfoldable pub identify :
      Ports S → UpdateJob → SmpReply → ℕ → UpdateController S → UpdateController S
  unfolding failed_with index submit
  identify ports job reply now c =
      if not (bytes_eq reply.tag.id job.target.hardware_id) || not (reply.tag.tag == job.target.tag)
      then failed_with ports (codes "Commissioned tag identity mismatch") now false c
      else or_else
          (submit ports exchange image_list now (
            observe job (λ o. record o { identity_valid = true; tag = reply.tag; seen_ms = now })
              c))
          (failed_with ports (codes "Could not queue image inspection") now true)

  abbrev pub checked_offset : ℕ × Bool → UpdateController S → UpdateController S × Bool
  checked_offset (stalled, accepted) c = (record c { stalled = stalled }, accepted)

  -- The two tests on the offset, `stalled_` changed by the first.
  abbrev pub progressed :
      ℕ → UpdateJob → SmpReply → ℕ → UpdateController S → UpdateController S × Bool
  progressed slot job reply now c =
      and_then
        (checked_offset
          (smp_accept_upload_offset reply.offset c.sent_offset c.sent_end job.release.size
            (c.sent_offset == 0) c.stalled)
          c)
        (on_job slot (λ j. update_progress j reply.offset now))

  -- The reply to Upload.
  unfoldable pub uploaded :
      Ports S → ℕ → UpdateJob → SmpReply → ℕ → UpdateController S → UpdateController S
  unfolding smp_accept_upload_offset on_job failed_with submit
  uploaded ports slot job reply now c =
      if_done (progressed slot job reply now c)
        (λ c'.
          or_else (submit ports exchange (next_exchange job reply) now c')
            (failed_with ports (codes "Could not continue upload") now true))
        (failed_with ports (codes "Invalid or stalled receiver upload offset") now false)

  -- A reply that is not denied, by the command that it answers.
  unfoldable pub job_reply :
      Ports S → ℕ → UpdateJob → SmpReply → ℕ → SmpCommand → UpdateController S → UpdateController S
  unfolding identify inspect_or_upload uploaded prepare_check submit failed_with close
  job_reply ports slot job reply now tag_status c = identify ports job reply now c
  job_reply ports slot job reply now image_list c = inspect_or_upload ports slot job reply now c
  job_reply ports slot job reply now upload c = uploaded ports slot job reply now c
  job_reply ports slot job reply now trial c =
      or_else (and_then (prepare_check ports slot now c) (submit ports exchange reset now))
        (failed_with ports (codes "Could not request reset; inspect outcome") now false)
  job_reply ports slot job reply now reset c = close ports now poll_interval c
  job_reply ports slot job reply now config_read c = c
  job_reply ports slot job reply now config_write c = c

  abbrev pub lost : Ports S → ℕ → Bool → UpdateController S → UpdateController S
  lost ports now transient =
      failed_with ports
        (if transient
          then codes "BLE disconnected or operation failed"
          else codes "BLE security/identity/protocol failure")
        now transient

  -- The part of `handle` for the active job, by the kind of the event.
  unfoldable pub job_handle :
      Ports S
      → ℕ
      → UpdateJob
      → UpdateTransportEvent
      → ℕ
      → EventKind
      → UpdateController S
      → UpdateController S
  unfolding failed_with submit job_reply
  job_handle ports slot job event now event_disconnected c = lost ports now true c
  job_handle ports slot job event now event_failed c = lost ports now (is_transient event.failure) c
  job_handle ports slot job event now event_connected c =
      if awaits c.await await_connected
      then (or_else (submit ports security tag_status now c)
          (failed_with ports (codes "Could not queue link security") now false))
      else c
  job_handle ports slot job event now event_secured c =
      if not (awaits c.await await_secured)
      then c
      else if not event.bonded_mitm_sc
      then failed_with ports (codes "Authenticated Secure Connections bond required") now false c
      else or_else (submit ports exchange tag_status now c)
          (failed_with ports (codes "Could not queue tag identity request") now true)
  job_handle ports slot job event now event_reply c =
      if not (awaits c.await await_reply)
      then c
      else if not (is_ok event.reply.outcome)
      then failed_with ports (denied_text event.reply) now false c
      else job_reply ports slot job event.reply now c.pending_smp c

  -- The event is of the operation and session at hand.
  abbrev pub expected : UpdateTransportEvent → UpdateController S → Bool
  expected event c = owned c && event.operation == c.operation && event.session == c.session

  -- `await_` is Disconnected: the acknowledgement ends the session, and nothing else counts.
  unfoldable pub acknowledge :
      Ports S → UpdateTransportEvent → ℕ → UpdateController S → UpdateController S
  unfolding pairing_finish_close finish_close
  acknowledge ports event now c =
      if c.disconnect_submitted && is_disconnected event.kind
      then (if pairing_active c then pairing_finish_close now c else finish_close ports c)
      else c

  abbrev pub job_event :
      Ports S → UpdateTransportEvent → ℕ → UpdateController S → UpdateController S
  job_event ports event now c = elim (active_slot c) [
    | none ↦ c
    | some slot ↦ elim (job_at c slot) [
      | none ↦ c
      | some job ↦ job_handle ports slot job event now event.kind c
    ]
  ]

  unfoldable pub handle :
      Ports S → UpdateTransportEvent → ℕ → UpdateController S → UpdateController S
  unfolding acknowledge motion_handle pairing_handle job_handle
  handle ports event now c =
      if not (expected event c)
      then c
      else if awaits c.await await_disconnected
      then acknowledge ports event now c
      else if c.disabled
      then c
      else if motion_running c
      then motion_handle ports event now event.kind c
      else if pairing_active c
      then pairing_handle ports event now event.kind c
      else job_event ports event now c
