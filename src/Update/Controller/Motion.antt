-- ===== src/Update/Controller/Motion.antt =====
-- The motion settings of a tag: firmware/anchor/src/core/motion_controller.cpp.
use bin_range.Base.{
  ℕ, zero, suc, ◌+◌, Bool, true, false, not, ◌&&◌, ◌||◌, Option, none, some, List, [], ◌∷◌, ◌++◌,
  ltb, ◌==◌, if◌then◌else◌, take, set, get_or, codes, u32,
}
use bin_range.Update.Job.{bytes_eq}
use bin_range.Update.Queue.{u16_max, u32_max}
use bin_range.Update.Snapshot.{UpdateAssociation}
use bin_range.Update.Smp.{
  SmpCommand, SmpReply, SmpTag, SmpMotionConfig, SensorError, pos, negsuc, image_list, tag_status,
  upload, trial, reset, config_read, config_write, same_command, smp_motion_valid, smp_motion_equal,
}
use bin_range.Update.Smp.Reply.{no_motion}
use bin_range.Update.Controller.{
  Ports, UpdateController, UpdateQueueResult, result_accepted, result_conflict, result_invalid,
  result_capacity, result_needs_action, result_error, MotionSettings, motion_queued, motion_reading,
  motion_writing, motion_verifying, motion_applied, motion_failed, UpdateTransportEvent, EventKind,
  event_connected, event_secured, event_reply, event_disconnected, event_failed, connect, security,
  exchange, await_connected, await_secured, await_reply, await_poll, awaits, association_of, later,
  max_associations, no_settings,
}
use bin_range.Update.Controller.Link.{submit, close}
use bin_range.Update.Controller.Jobs.{or_else, decimal}
use bin_range.Update.Controller.Pairing.{is_transient, is_ok}

abbrev is_some {ℓ} : {A : Type ℓ} → Option A → Bool
is_some none = false
is_some (some a) = true

-- The loop of `motion_request`, over the slots from `i` on: the tag's own, or else the first free one
-- that is not in use; 16 for none.
unfoldable pub motion_slot : ℕ → ℕ → ℕ → ℕ → List MotionSettings → ℕ
motion_slot tag active i free [] = free
motion_slot tag active i free (m ∷ rest) =
    let later_slot =
      motion_slot tag active (i + 1)
        (if m.tag == 0 && not (i == active) && free == max_associations then i else free) rest in
    if m.tag == tag then i else later_slot

-- An interval that is asked for and is out of its bounds.
abbrev pub out_of_range : ℕ → ℕ → ℕ → Bool
out_of_range value low high = not (value == 0) && (ltb value low || ltb high value)

abbrev pub bad_request : ℕ → ℕ → ℕ → Bool
bad_request tag idle moving =
    tag == 0 || tag == u16_max || out_of_range idle 60000 3600000 || out_of_range moving 1000 60000

abbrev queue_patch : ℕ → ℕ → ℕ → Bool → ℕ → MotionSettings → MotionSettings
queue_patch tag idle moving running now m = record m {
  tag = tag;
  idle_ms = if idle == 0 then m.idle_ms else idle;
  moving_ms = if moving == 0 then m.moving_ms else moving;
  queued = true;
  phase = if running then m.phase else motion_queued;
  changed_ms = now;
  error = [];
}

abbrev pub denied_text : SmpReply → List ℕ
denied_text reply =
    codes "Tag denied settings command (group "
    ++ decimal reply.error_group
    ++ codes ", code "
    ++ decimal reply.error_code
    ++ codes ")"

-- The target of a write: what was read, with what was asked for.
abbrev pub patched : SmpMotionConfig → ℕ → ℕ → SmpMotionConfig
patched read idle moving = record read {
  idle_ms = if idle == 0 then read.idle_ms else idle;
  moving_ms = if moving == 0 then read.moving_ms else moving;
}

abbrev nonzero : SensorError → Bool
nonzero (pos n) = not (n == 0)
nonzero (negsuc n) = true

-- The tag of the reply is that of the association.
abbrev pub identified : SmpTag → Option UpdateAssociation → Bool
identified tag none = false
identified tag (some a) = tag.tag == a.target.tag && bytes_eq tag.id a.target.hardware_id

module _ {S : Type 0} where
  abbrev pub settings_at : ℕ → UpdateController S → MotionSettings
  settings_at slot c = get_or c.motion.settings slot no_settings

  abbrev put_settings : ℕ → MotionSettings → UpdateController S → UpdateController S
  put_settings slot m c = record c {
    motion = record (c.motion) { settings = set c.motion.settings slot m };
  }

  abbrev pub request_slot :
      ℕ → ℕ → ℕ → ℕ → UpdateController S → ℕ → UpdateController S × UpdateQueueResult
  request_slot tag idle moving now c slot =
      let m = settings_at slot c in
      let running = c.motion.active == slot in
      if slot == max_associations
      then (c, result_capacity)
      else if running && c.motion.forgetting
      then (c, result_conflict)
      else if idle == 0 && moving == 0 && (m.queued || running)
      then (c, result_accepted)
      else (put_settings slot (queue_patch tag idle moving running now m) c, result_accepted)

  unfoldable pub motion_request :
      ℕ → ℕ → ℕ → ℕ → UpdateController S → UpdateController S × UpdateQueueResult
  unfolding association_of motion_slot
  motion_request tag idle moving now c =
      if not c.ready || c.disabled
      then (c, result_error)
      else if bad_request tag idle moving
      then (c, result_invalid)
      else if not (is_some (association_of tag c.associations))
      then (c, result_needs_action)
      else request_slot tag idle moving now c
          (motion_slot tag c.motion.active 0 max_associations c.motion.settings)

  -- After an attempted write the value known before is no longer authoritative.
  abbrev pub motion_failing : List ℕ → ℕ → UpdateController S → UpdateController S
  motion_failing message now c =
      let m = settings_at c.motion.active c in
      put_settings c.motion.active
        (record m {
          phase = motion_failed;
          changed_ms = now;
          known =
              if c.motion.verifying || same_command c.pending_smp config_write
              then false
              else m.known;
          error = take 79 message;
        })
        c

  unfoldable pub motion_fail : Ports S → List ℕ → ℕ → UpdateController S → UpdateController S
  unfolding close
  motion_fail ports message now c = close ports now 60000 (motion_failing message now c)

  -- A round of `motion_forget`.
  unfoldable pub forget_slot : Ports S → ℕ → ℕ → UpdateController S → UpdateController S
  unfolding motion_fail
  forget_slot ports slot now c =
      if slot == c.motion.active
      then (let closing = motion_fail ports (codes "Tag no longer adopted") now c in
          let m = settings_at slot closing in
          let dropped = put_settings slot (record m { queued = false }) closing in
          record dropped { motion = record (dropped.motion) { forgetting = true } })
      else put_settings slot no_settings c

  abbrev pub forget_round : Ports S → ℕ → ℕ → ℕ → UpdateController S → UpdateController S
  forget_round ports tag now slot c =
      if (settings_at slot c).tag == tag then forget_slot ports slot now c else c

  -- The loop, with the rounds that are left.
  unfoldable pub forget_from : Ports S → ℕ → ℕ → ℕ → ℕ → UpdateController S → UpdateController S
  unfolding forget_slot
  forget_from ports tag now zero slot c = c
  forget_from ports tag now (suc left) slot c =
      forget_from ports tag now left (slot + 1) (forget_round ports tag now slot c)

  unfoldable pub motion_forget : Ports S → ℕ → ℕ → UpdateController S → UpdateController S
  unfolding forget_from
  motion_forget ports tag now c = forget_from ports tag now 16 0 c

  abbrev pub open_motion : ℕ → ℕ → UpdateController S → UpdateController S
  open_motion slot now c =
      let m = settings_at slot c in
      record c {
        motion = record {
          settings = set c.motion.settings slot (record m {
            idle_ms = 0;
            moving_ms = 0;
            queued = false;
            phase = motion_reading;
            changed_ms = now;
            error = [];
          });
          active = slot;
          target = no_motion;
          idle = m.idle_ms;
          moving = m.moving_ms;
          verifying = false;
          forgetting = false;
          apply_until = 0;
        };
        session = u32 (c.session + 1);
        session_started = now;
      }

  unfoldable pub motion_start : Ports S → ℕ → ℕ → UpdateController S → UpdateController S
  unfolding association_of submit motion_fail
  motion_start ports slot now c =
      let m = settings_at slot c in
      if not (is_some (association_of m.tag c.associations)) || c.session == u32_max
      then put_settings slot
          (record m {
            queued = false;
            phase = motion_failed;
            changed_ms = now;
            error = codes "Association missing or session IDs exhausted";
          })
          c
      else or_else (submit ports connect tag_status now (open_motion slot now c))
          (motion_fail ports (codes "Bluetooth connection could not be queued") now)

  -- The answer is not used by its callers.
  unfoldable pub motion_send : Ports S → SmpCommand → ℕ → UpdateController S → UpdateController S
  unfolding submit motion_fail
  motion_send ports command now c =
      or_else (submit ports exchange command now c)
        (motion_fail ports (codes "Bluetooth request could not be queued") now)

  -- The target is confirmed: it is what the tag now has.
  abbrev pub applied : ℕ → UpdateController S → UpdateController S
  applied now c =
      let m = settings_at c.motion.active c in
      put_settings c.motion.active
        (record m {
          config = c.motion.target;
          known = true;
          seen_ms = now;
          changed_ms = now;
          phase = if m.queued then motion_queued else motion_applied;
        })
        c

  -- The status of a tag with the settings written, or to be read.
  unfoldable pub motion_applied_status :
      Ports S → SmpTag → ℕ → UpdateController S → UpdateController S
  unfolding motion_fail motion_send close
  motion_applied_status ports tag now c =
      if not c.motion.verifying
      then motion_send ports config_read now c
      else if tag.config_pending
      then record c { await = await_poll; deadline = later now 2000 }
      else if nonzero tag.sensor_error
      then motion_fail ports (codes "Tag saved settings but motion sensor application failed") now c
      else close ports now 0 (applied now c)

  unfoldable pub motion_status : Ports S → SmpReply → ℕ → UpdateController S → UpdateController S
  unfolding association_of motion_fail motion_applied_status
  motion_status ports reply now c =
      let m = settings_at c.motion.active c in
      if not (identified reply.tag (association_of m.tag c.associations))
      then motion_fail ports (codes "Commissioned tag identity mismatch") now c
      else if not reply.tag.confirmed || not reply.tag.config_status_known
      then motion_fail ports (codes "Confirmed tag firmware 0.2.6+ with settings schema 1 required")
          now c
      else motion_applied_status ports reply.tag now c

  -- The new target, and whether it is to be written.
  abbrev pub aim : SmpMotionConfig → Bool → ℕ → UpdateController S → UpdateController S
  aim target same now c =
      let m = settings_at c.motion.active c in
      record c {
        motion = record (c.motion) {
          target = target;
          apply_until = later now 15000;
          verifying = true;
          settings = set c.motion.settings c.motion.active (record m {
            changed_ms = now;
            phase = if same then motion_verifying else motion_writing;
            known = if same then m.known else false;
          });
        };
      }

  abbrev pub keep_target : SmpMotionConfig → UpdateController S → UpdateController S
  keep_target target c = record c { motion = record (c.motion) { target = target } }

  -- The read back after a write.
  unfoldable pub motion_compare : Ports S → SmpReply → ℕ → UpdateController S → UpdateController S
  unfolding smp_motion_equal motion_fail motion_send
  motion_compare ports reply now c =
      if not (smp_motion_equal reply.config c.motion.target)
      then motion_fail ports (codes "Tag settings readback did not match request") now c
      else motion_send ports tag_status now c

  -- The read before a write of this target.
  unfoldable pub motion_write :
      Ports S → SmpMotionConfig → Bool → ℕ → UpdateController S → UpdateController S
  unfolding smp_motion_valid motion_fail motion_send
  motion_write ports target same now c =
      if not (smp_motion_valid target)
      then motion_fail ports (codes "Requested intervals are invalid") now (keep_target target c)
      else motion_send ports (if same then tag_status else config_write) now (aim target same now c)

  unfoldable pub motion_config : Ports S → SmpReply → ℕ → UpdateController S → UpdateController S
  unfolding smp_motion_valid smp_motion_equal motion_fail motion_compare motion_write
  motion_config ports reply now c =
      let target = patched reply.config c.motion.idle c.motion.moving in
      if not (smp_motion_valid reply.config)
      then motion_fail ports (codes "Invalid tag motion configuration") now c
      else if c.motion.verifying
      then motion_compare ports reply now c
      else motion_write ports target (smp_motion_equal target reply.config) now c

  abbrev pub written : ℕ → UpdateController S → UpdateController S
  written now c =
      let m = settings_at c.motion.active c in
      put_settings c.motion.active (record m { phase = motion_verifying; changed_ms = now }) c

  -- A reply that is not denied, by the command that it answers.
  unfoldable pub motion_reply :
      Ports S → SmpReply → ℕ → SmpCommand → UpdateController S → UpdateController S
  unfolding motion_status motion_config motion_send
  motion_reply ports reply now tag_status c = motion_status ports reply now c
  motion_reply ports reply now config_read c = motion_config ports reply now c
  motion_reply ports reply now config_write c = motion_send ports config_read now (written now c)
  motion_reply ports reply now image_list c = c
  motion_reply ports reply now upload c = c
  motion_reply ports reply now trial c = c
  motion_reply ports reply now reset c = c

  abbrev pub motion_lost :
      Ports S → UpdateTransportEvent → ℕ → UpdateController S → UpdateController S
  motion_lost ports event now =
      motion_fail ports
        (if is_transient event.failure
          then codes "Tag unreachable or disconnected; read settings or retry"
          else codes "Bluetooth security/identity/protocol failure")
        now

  -- `motion_handle`, by the kind of the event.
  unfoldable pub motion_handle :
      Ports S → UpdateTransportEvent → ℕ → EventKind → UpdateController S → UpdateController S
  unfolding motion_fail submit motion_send motion_reply
  motion_handle ports event now event_failed c = motion_lost ports event now c
  motion_handle ports event now event_disconnected c = motion_lost ports event now c
  motion_handle ports event now event_connected c =
      if awaits c.await await_connected
      then (or_else (submit ports security tag_status now c)
          (motion_fail ports (codes "Could not queue authenticated link security") now))
      else c
  motion_handle ports event now event_secured c =
      if awaits c.await await_secured
      then (if not event.bonded_mitm_sc
          then motion_fail ports (codes "Authenticated Secure Connections bond required") now c
          else motion_send ports tag_status now c)
      else c
  motion_handle ports event now event_reply c =
      if awaits c.await await_reply
      then (if not (is_ok event.reply.outcome)
          then motion_fail ports (denied_text event.reply) now c
          else motion_reply ports event.reply now c.pending_smp c)
      else c
