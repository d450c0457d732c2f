-- ===== src/Update/Controller/Core/Loop.antt =====
-- The loop, its events apart, obeys every relation that the basic steps obey.
use bin_range.Base.{
  ℕ, zero, suc, ◌+◌, Bool, true, false, not, ◌||◌, ◌&&◌, arith, List, codes, Option-cases, inl, inr,
  length, leb, ltb, take, ◌==◌, if◌then◌else◌,
}
use bin_range.Update.Job.{UpdatePhase, queued, waiting, checking, needs_release, needs_action}
use bin_range.Update.Smp.{tag_status, image_list}
use bin_range.Update.Controller.{
  Ports, UpdateController, exchange, disconnect, await_poll, await_disconnected, awaits, owned,
  busy, in_phase, UpdateTransportEvent, motion_running,
}
use bin_range.Update.Controller.Link.{submit}
use bin_range.Update.Controller.Jobs.{note_error, transition, failed_with}
use bin_range.Update.Controller.Loop.{
  Flow, returns, continues, proceeds, session_over, active_overdue, motion_deadlines,
  pairing_deadlines, job_deadlines, pairing_late, check_deadlines, push_disconnect, after, chain,
  expired, expire, await_turn, unreleased, need_release, try_start, scan_job, scan_on, scan_jobs,
  queued_motion, start_motion, next_work, overdue, has_release, handle_all, loop,
}
use bin_range.Update.Controller.Core.{
  Core, core, Laws, To, Does, quiet, To-trans, or_else-To, if_done-To, submit-Does, close-To,
  disable-To, transition-Does, chosen-To, tried-To,
}
use bin_range.Update.Controller.Core.Jobs.{note_error-To, failed_with-To, start-To}
use bin_range.Update.Controller.Core.Pairing.{pairing_fail-To}
use bin_range.Update.Controller.Core.Motion.{motion_fail-To, motion_send-To, motion_start-To}

module _ {S : Type 0} (ports : Ports S) (R : Core S → Core S → Type 0) (laws : Laws ports R) where
  motion_deadlines-To :
      (now : ℕ) (c : UpdateController S) → To ports R laws c (motion_deadlines ports now c)
  unfolding motion_deadlines
  motion_deadlines-To now c =
      let late =
        motion_fail-To ports R laws
          (codes "Tag settings application timed out; read settings or retry") now c in
      let slow =
        motion_fail-To ports R laws (codes "Bluetooth operation timed out; read settings or retry")
          now c in
      let asked = motion_send-To ports R laws tag_status now c in
      let over = session_over now c in
      let until = c.motion.apply_until in
      chosen-To ports R laws (over || not (until == 0) && leb until now) late (
        chosen-To ports R laws (awaits c.await await_poll && leb c.deadline now) asked (
          chosen-To ports R laws (not (awaits c.await await_poll) && leb c.deadline now) slow
            (quiet ports R laws c)))

  pairing_deadlines-To :
      (now : ℕ) (c : UpdateController S) → To ports R laws c (pairing_deadlines ports now c)
  unfolding pairing_deadlines
  pairing_deadlines-To now c =
      let over = pairing_fail-To ports R laws (codes "BLE session deadline expired") now c in
      let late = pairing_fail-To ports R laws (codes "BLE operation deadline expired") now c in
      record { by = ground (arith, laws.same (core c), over.by, late.by) }

  job_deadlines-To :
      (now : ℕ) (c : UpdateController S) → To ports R laws c (job_deadlines ports now c)
  unfolding job_deadlines
  job_deadlines-To now c =
      let unconfirmed =
        failed_with-To ports R laws (codes "Local confirmation was not observed before deadline")
          now false c in
      let over = failed_with-To ports R laws (codes "BLE session deadline expired") now true c in
      let late = failed_with-To ports R laws (codes "BLE operation deadline expired") now true c in
      let polled =
        or_else-To ports R laws (submit ports exchange image_list now c)
          (failed_with ports (codes "Could not poll confirmation") now true)
          (submit-Does ports R laws exchange image_list now c)
          (failed_with-To ports R laws (codes "Could not poll confirmation") now true) in
      chosen-To ports R laws (active_overdue now c) unconfirmed (
        chosen-To ports R laws (session_over now c) over (
          chosen-To ports R laws (not (leb c.deadline now)) (quiet ports R laws c)
            (chosen-To ports R laws (awaits c.await await_poll) polled late)))

  check_deadlines-To :
      (now : ℕ) (c : UpdateController S) → To ports R laws c (check_deadlines ports now c)
  unfolding check_deadlines
  check_deadlines-To now c =
      chosen-To ports R laws (not (owned c) || awaits c.await await_disconnected)
        (quiet ports R laws c)
        (chosen-To ports R laws c.disabled (close-To ports R laws now 0 c) (
          chosen-To ports R laws (motion_running c) (motion_deadlines-To now c) (
            chosen-To ports R laws (pairing_late now c) (pairing_deadlines-To now c)
              (job_deadlines-To now c))))

  push_disconnect-To :
      (now : ℕ) (c : UpdateController S) → To ports R laws c (push_disconnect ports now c)
  unfolding push_disconnect
  push_disconnect-To now c =
      let stuck =
        disable-To ports R laws (codes "BLE did not acknowledge disconnect; restart required") c in
      let again =
        tried-To ports R laws now (submit ports disconnect tag_status now c)
          (submit-Does ports R laws disconnect tag_status now c) in
      chosen-To ports R laws (not (owned c && awaits c.await await_disconnected))
        (quiet ports R laws c)
        (chosen-To ports R laws (leb c.deadline now) stuck (
          chosen-To ports R laws (not c.disconnect_submitted && leb c.next_disconnect_try now) again
            (quiet ports R laws c)))

  -- The same for a round of the scan.
  pub record Goes (c : UpdateController S) (r : UpdateController S × Flow) : Type 0 where
    pub goes : R (core c) (core r.0)

  stays : (c : UpdateController S) (flow : Flow) → Goes c (c, flow)
  stays c flow = record { goes = laws.same (core c) }

  after-Goes :
      {c : UpdateController S} (r : UpdateController S × Bool) (flow : Flow)
      → Does ports R laws c r
      → Goes c (after r flow)
  after-Goes (d, true) flow p = record { goes = p.does }
  after-Goes (d, false) flow p = record { goes = p.does }

  chain-Goes :
      {c : UpdateController S} (r : UpdateController S × Flow)
      (next : UpdateController S → UpdateController S × Flow)
      → Goes c r
      → ((d : UpdateController S) → Goes d (next d))
      → Goes c (chain r next)
  chain-Goes (d, returns) next p q = p
  chain-Goes (d, continues) next p q = p
  chain-Goes (d, proceeds) next p q = record { goes = laws.trans p.goes (q d).goes }

  picked-Goes :
      {c : UpdateController S} {x y : UpdateController S × Flow} (test : Bool)
      → Goes c x
      → Goes c y
      → Goes c (if test then x else y)
  picked-Goes true p q = p
  picked-Goes false p q = q

  noted_move-Does :
      (slot : ℕ) (phase : UpdatePhase) (text : List ℕ) (now : ℕ) (c : UpdateController S)
      → Does ports R laws c (transition ports slot phase now (note_error slot text now c))
  noted_move-Does slot phase text now c = record {
    does =
        laws.trans (note_error-To ports R laws slot text now c).by
          (transition-Does ports R laws slot phase now (note_error slot text now c)).does;
  }

  expire-Goes : (i now : ℕ) (c : UpdateController S) → Goes c (expire ports i now c)
  unfolding expire
  expire-Goes i now c =
      picked-Goes (overdue i now c)
        (after-Goes (expired ports i now c) proceeds (
          noted_move-Does i needs_action
            (codes "Local confirmation was not observed before deadline") now c))
        (stays c proceeds)

  await_turn-Goes : (i now : ℕ) (c : UpdateController S) → Goes c (await_turn ports i now c)
  unfolding await_turn
  await_turn-Goes i now c = picked-Goes (ltb now c.cooldown_until) (stays c continues) (
      picked-Goes (in_phase c i queued)
        (after-Goes (transition ports i waiting now c) proceeds
          (transition-Does ports R laws i waiting now c))
        (stays c proceeds))

  need_release-Goes : (i now : ℕ) (c : UpdateController S) → Goes c (need_release ports i now c)
  unfolding need_release
  need_release-Goes i now c =
      picked-Goes (in_phase c i waiting && not (has_release ports i c))
        (after-Goes (unreleased ports i now c) continues (
          noted_move-Does i needs_release (codes "Upload the exact release again before retrying")
            now c))
        (stays c proceeds)

  try_start-Goes : (i now : ℕ) (c : UpdateController S) → Goes c (try_start ports i now c)
  unfolding try_start
  try_start-Goes i now c =
      picked-Goes (in_phase c i waiting || in_phase c i checking)
        (record { goes = (start-To ports R laws i now c).by }) (stays c proceeds)

  scan_job-Goes : (i now : ℕ) (c : UpdateController S) → Goes c (scan_job ports i now c)
  unfolding scan_job
  scan_job-Goes i now c =
      chain-Goes
        (chain (chain (expire ports i now c) (await_turn ports i now)) (need_release ports i now))
        (try_start ports i now)
        (chain-Goes (chain (expire ports i now c) (await_turn ports i now))
          (need_release ports i now)
          (chain-Goes (expire ports i now c) (await_turn ports i now) (expire-Goes i now c)
            (await_turn-Goes i now))
          (need_release-Goes i now))
        (try_start-Goes i now)

  scan_on-Does :
      {c : UpdateController S} (rest : UpdateController S → UpdateController S × Bool)
      (r : UpdateController S × Flow)
      → Goes c r
      → ((d : UpdateController S) → Does ports R laws d (rest d))
      → Does ports R laws c (scan_on rest r)
  scan_on-Does rest (d, returns) p q = record { does = p.goes }
  scan_on-Does rest (d, continues) p q = record { does = laws.trans p.goes (q d).does }
  scan_on-Does rest (d, proceeds) p q = record { does = laws.trans p.goes (q d).does }

  scan_jobs-Does :
      (now left i : ℕ) (c : UpdateController S) → Does ports R laws c (scan_jobs ports now left i c)
  unfolding scan_jobs
  scan_jobs-Does now zero i c = record { does = laws.same (core c) }
  scan_jobs-Does now (suc left) i c =
      scan_on-Does (scan_jobs ports now left (i + 1)) (scan_job ports i now c)
        (scan_job-Goes i now c) (scan_jobs-Does now left (i + 1))

  start_motion-To :
      (now : ℕ) (c : UpdateController S) → To ports R laws c (start_motion ports now c)
  unfolding start_motion
  start_motion-To now c = elim (Option-cases (queued_motion 0 c.motion.settings)) [
    | inl e ↦ record { by = ground (arith, laws.same (core c)) }
    | inr (slot, e) ↦ record {
      by = ground (arith, laws.same (core c), (motion_start-To ports R laws slot now c).by);
    }
  ]

  next_work-To : (now : ℕ) (c : UpdateController S) → To ports R laws c (next_work ports now c)
  unfolding next_work
  next_work-To now c = chosen-To ports R laws (c.disabled || busy c) (quiet ports R laws c) (
      if_done-To ports R laws (scan_jobs ports now (length c.queue.jobs) 0 c)
        (start_motion ports now) (λ d. d) (scan_jobs-Does now (length c.queue.jobs) 0 c)
        (start_motion-To now) (quiet ports R laws))

  -- All of `loop`, if its events obey the relation.
  pub loop-To :
      (events : List UpdateTransportEvent) (now : ℕ) (c : UpdateController S)
      → ((d : UpdateController S) → To ports R laws d (handle_all ports (take 8 events) now d))
      → To ports R laws c (loop ports events now c)
  unfolding loop
  loop-To events now c handled =
      let checked = check_deadlines ports now c in
      let heard = handle_all ports (take 8 events) now checked in
      let pushed = push_disconnect ports now heard in
      let before = To-trans ports R laws (check_deadlines-To now c) (handled checked) in
      let after = To-trans ports R laws (push_disconnect-To now heard) (next_work-To now pushed) in
      chosen-To ports R laws (not c.ready) (quiet ports R laws c)
        (To-trans ports R laws before after)
