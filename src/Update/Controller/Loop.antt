-- ===== src/Update/Controller/Loop.antt =====
-- `loop` of firmware/anchor/src/core/update_controller.cpp: deadlines, events, the disconnect, and the
-- choice of the next work.
use bin_range.Base.{
  ℕ, zero, suc, ◌+◌, ◌-◌, ◌%◌, Bool, true, false, not, ◌&&◌, ◌||◌, Option, none, some, List, [],
  ◌∷◌, ltb, leb, ◌==◌, if◌then◌else◌, length, take, get_or, codes,
}
use bin_range.Update.Job.{queued, waiting, checking, needs_release, needs_action}
use bin_range.Update.Storage.{same_release}
use bin_range.Update.Smp.{tag_status, image_list}
use bin_range.Update.Controller.{
  Ports, UpdateController, MotionSettings, UpdateTransportEvent, exchange, disconnect, await_poll,
  await_disconnected, awaits, active_slot, job_at, in_phase, owned, busy, pairing_active,
  motion_running, session_deadline,
}
use bin_range.Update.Controller.Link.{disable, submit, close, tried}
use bin_range.Update.Controller.Jobs.{or_else, if_done, note_error, transition, failed_with, start}
use bin_range.Update.Controller.Pairing.{pairing_fail}
use bin_range.Update.Controller.Motion.{motion_fail, motion_send, motion_start}
use bin_range.Update.Controller.Events.{handle}

-- The first slot with a request, 16 for none.
unfoldable pub queued_motion : ℕ → List MotionSettings → Option ℕ
queued_motion i [] = none
queued_motion i (m ∷ rest) =
    let further = queued_motion (i + 1) rest in if m.queued then some i else further

-- `now - since` on `uint64_t`.
unfoldable pub sub64 : ℕ → ℕ → ℕ
sub64 now since = (now + 0x1_0000_0000_0000_0000 - since) % 0x1_0000_0000_0000_0000

-- How a round of the scan ends: `return` from `loop`, `continue`, or on to what follows.
pub data Flow : Type 0 where
  returns continues proceeds : Flow

module _ {S : Type 0} where
  abbrev pub session_over : ℕ → UpdateController S → Bool
  session_over now c = leb session_deadline (sub64 now c.session_started)

  -- The confirmation of the job in a slot is overdue.
  abbrev pub overdue : ℕ → ℕ → UpdateController S → Bool
  overdue slot now c =
      in_phase c slot checking
      && not (get_or c.checking_until slot 0 == 0)
      && leb (get_or c.checking_until slot 0) now

  abbrev pub active_overdue : ℕ → UpdateController S → Bool
  active_overdue now c = elim (active_slot c) [ none ↦ false | some slot ↦ overdue slot now c ]

  unfoldable pub motion_deadlines : Ports S → ℕ → UpdateController S → UpdateController S
  unfolding sub64 motion_fail motion_send
  motion_deadlines ports now c =
      if session_over now c || not (c.motion.apply_until == 0) && leb c.motion.apply_until now
      then motion_fail ports (codes "Tag settings application timed out; read settings or retry")
          now c
      else if awaits c.await await_poll && leb c.deadline now
      then motion_send ports tag_status now c
      else if not (awaits c.await await_poll) && leb c.deadline now
      then motion_fail ports (codes "Bluetooth operation timed out; read settings or retry") now c
      else c

  unfoldable pub pairing_deadlines : Ports S → ℕ → UpdateController S → UpdateController S
  unfolding sub64 pairing_fail
  pairing_deadlines ports now c =
      if session_over now c
      then pairing_fail ports (codes "BLE session deadline expired") now c
      else if leb c.deadline now
      then pairing_fail ports (codes "BLE operation deadline expired") now c
      else c

  -- In a session that is not a pairing's, and for a pairing's within its deadlines.
  unfoldable pub job_deadlines : Ports S → ℕ → UpdateController S → UpdateController S
  unfolding sub64 failed_with submit
  job_deadlines ports now c =
      if active_overdue now c
      then failed_with ports (codes "Local confirmation was not observed before deadline") now false
          c
      else if session_over now c
      then failed_with ports (codes "BLE session deadline expired") now true c
      else if not (leb c.deadline now)
      then c
      else if awaits c.await await_poll
      then or_else (submit ports exchange image_list now c)
          (failed_with ports (codes "Could not poll confirmation") now true)
      else failed_with ports (codes "BLE operation deadline expired") now true c

  -- The tests of `pairing_active()` in the chain.
  abbrev pub pairing_late : ℕ → UpdateController S → Bool
  pairing_late now c = pairing_active c && (session_over now c || leb c.deadline now)

  -- The first `if` of `loop`.
  unfoldable pub check_deadlines : Ports S → ℕ → UpdateController S → UpdateController S
  unfolding sub64 close motion_deadlines pairing_deadlines job_deadlines
  check_deadlines ports now c =
      if not (owned c) || awaits c.await await_disconnected
      then c
      else if c.disabled
      then close ports now 0 c
      else if motion_running c
      then motion_deadlines ports now c
      else if pairing_late now c
      then pairing_deadlines ports now c
      else job_deadlines ports now c

  unfoldable pub handle_all :
      Ports S → List UpdateTransportEvent → ℕ → UpdateController S → UpdateController S
  unfolding handle
  handle_all ports [] now c = c
  handle_all ports (event ∷ events) now c = handle_all ports events now (handle ports event now c)

  -- The second `if` of `loop`.
  unfoldable pub push_disconnect : Ports S → ℕ → UpdateController S → UpdateController S
  unfolding disable submit
  push_disconnect ports now c =
      if not (owned c && awaits c.await await_disconnected)
      then c
      else if leb c.deadline now
      then disable (codes "BLE did not acknowledge disconnect; restart required") c
      else if not c.disconnect_submitted && leb c.next_disconnect_try now
      then tried now (submit ports disconnect tag_status now c)
      else c

  abbrev pub after : UpdateController S × Bool → Flow → UpdateController S × Flow
  after (c, true) flow = (c, flow)
  after (c, false) flow = (c, returns)

  abbrev pub chain :
      UpdateController S × Flow
      → (UpdateController S → UpdateController S × Flow)
      → UpdateController S × Flow
  chain (c, returns) next = (c, returns)
  chain (c, continues) next = (c, continues)
  chain (c, proceeds) next = next c

  abbrev pub expired : Ports S → ℕ → ℕ → UpdateController S → UpdateController S × Bool
  expired ports i now c =
      transition ports i needs_action now
        (note_error i (codes "Local confirmation was not observed before deadline") now c)

  unfoldable pub expire : Ports S → ℕ → ℕ → UpdateController S → UpdateController S × Flow
  unfolding transition
  expire ports i now c =
      if overdue i now c then after (expired ports i now c) proceeds else (c, proceeds)

  unfoldable pub await_turn : Ports S → ℕ → ℕ → UpdateController S → UpdateController S × Flow
  unfolding transition
  await_turn ports i now c =
      if ltb now c.cooldown_until
      then (c, continues)
      else if in_phase c i queued
      then after (transition ports i waiting now c) proceeds
      else (c, proceeds)

  -- The release of the job in this slot is staged.
  abbrev pub has_release : Ports S → ℕ → UpdateController S → Bool
  has_release ports i c = elim (job_at c i) [
    | none ↦ false
    | some job ↦ elim (ports.staged c.storage) [
      | none ↦ false
      | some staged ↦ same_release job.release staged
    ]
  ]

  abbrev pub unreleased : Ports S → ℕ → ℕ → UpdateController S → UpdateController S × Bool
  unreleased ports i now c =
      transition ports i needs_release now
        (note_error i (codes "Upload the exact release again before retrying") now c)

  unfoldable pub need_release : Ports S → ℕ → ℕ → UpdateController S → UpdateController S × Flow
  unfolding same_release transition
  need_release ports i now c =
      if in_phase c i waiting && not (has_release ports i c)
      then after
          (transition ports i needs_release now
            (note_error i (codes "Upload the exact release again before retrying") now c))
          continues
      else (c, proceeds)

  unfoldable pub try_start : Ports S → ℕ → ℕ → UpdateController S → UpdateController S × Flow
  unfolding start
  try_start ports i now c =
      if in_phase c i waiting || in_phase c i checking
      then (start ports i now c, returns)
      else (c, proceeds)

  -- A round of the loop over the jobs.
  unfoldable pub scan_job : Ports S → ℕ → ℕ → UpdateController S → UpdateController S × Flow
  unfolding expire await_turn need_release try_start
  scan_job ports i now c =
      chain
        (chain (chain (expire ports i now c) (await_turn ports i now)) (need_release ports i now))
        (try_start ports i now)

  abbrev pub scan_on :
      (UpdateController S → UpdateController S × Bool)
      → UpdateController S × Flow
      → UpdateController S × Bool
  scan_on rest (c, returns) = (c, false)
  scan_on rest (c, continues) = rest c
  scan_on rest (c, proceeds) = rest c

  -- The loop, with the rounds that are left; whether it ran to its end. No round adds a job.
  unfoldable pub scan_jobs : Ports S → ℕ → ℕ → ℕ → UpdateController S → UpdateController S × Bool
  unfolding scan_job
  scan_jobs ports now zero i c = (c, true)
  scan_jobs ports now (suc left) i c =
      scan_on (scan_jobs ports now left (i + 1)) (scan_job ports i now c)

  unfoldable pub start_motion : Ports S → ℕ → UpdateController S → UpdateController S
  unfolding queued_motion motion_start
  start_motion ports now c =
      if leb c.cooldown_until now
      then elim (queued_motion 0 c.motion.settings) [
        | none ↦ c
        | some slot ↦ motion_start ports slot now c
      ]
      else c

  unfoldable pub next_work : Ports S → ℕ → UpdateController S → UpdateController S
  unfolding busy scan_jobs start_motion
  next_work ports now c =
      if c.disabled || busy c
      then c
      else if_done (scan_jobs ports now (length c.queue.jobs) 0 c) (start_motion ports now)
          (λ c'. c')

  -- `events` is what `poll` hands out, of which eight are taken at most.
  unfoldable pub loop :
      Ports S → List UpdateTransportEvent → ℕ → UpdateController S → UpdateController S
  unfolding check_deadlines handle_all push_disconnect next_work
  loop ports events now c =
      if not c.ready
      then c
      else next_work ports now (
          push_disconnect ports now
            (handle_all ports (take 8 events) now (check_deadlines ports now c)))
