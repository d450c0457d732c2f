-- ===== src/Update/Controller/Calls/Sends.antt =====
-- A relation that the basic steps obey, the end of a session among them, holds of every run of the
-- controller.
use bin_range.Base.{ℕ, not, arith, List, [], ◌∷◌, take, Option-cases, inl, inr}
use bin_range.Update.Controller.{
  Ports, UpdateController, UpdateTransportEvent, active_slot, job_at, awaits, await_disconnected,
  motion_running, pairing_active,
}
use bin_range.Update.Controller.Link.{finish_close}
use bin_range.Update.Controller.Pairing.{pairing_finish_close}
use bin_range.Update.Controller.Events.{expected, acknowledge, job_event, handle}
use bin_range.Update.Controller.Loop.{handle_all}
use bin_range.Update.Controller.Core.{Core, core, Laws, To, quiet, To-trans, chosen-To}
use bin_range.Update.Controller.Core.Pairing.{commission-To, pairing_handle-To}
use bin_range.Update.Controller.Core.Motion.{motion_request-To, motion_forget-To, motion_handle-To}
use bin_range.Update.Controller.Core.Events.{job_handle-To}
use bin_range.Update.Controller.Core.Loop.{loop-To}
use bin_range.Update.Controller.Core.Requests.{queue-To, cancel-To, retry-To}
use bin_range.Update.Controller.Calls.{
  Call, queues, commissions, cancels, retries, requests, forgets, loops, apply, run,
}

module _ {S : Type 0} (ports : Ports S) (R : Core S → Core S → Type 0) (laws : Laws ports R) where
  job_event-To :
      (event : UpdateTransportEvent) (now : ℕ) (c : UpdateController S)
      → To ports R laws c (job_event ports event now c)
  job_event-To event now c = elim (Option-cases (active_slot c)) [
    | inl e ↦ record { by = ground (arith, laws.same (core c)) }
    | inr (slot, e) ↦ elim (Option-cases (job_at c slot)) [
      | inl e' ↦ record { by = ground (arith, laws.same (core c)) }
      | inr (job, e') ↦
          let handled = job_handle-To ports R laws slot job event now event.kind c in
          record { by = ground (arith, handled.by) }
    ]
  ]

  -- An event, by what is known of the acknowledgement of a disconnect.
  pub handle-To :
      (event : UpdateTransportEvent) (now : ℕ) (c : UpdateController S)
      → To ports R laws c (acknowledge ports event now c)
      → To ports R laws c (handle ports event now c)
  unfolding handle
  handle-To event now c acknowledged =
      let still = quiet ports R laws c in
      chosen-To ports R laws (not (expected event c)) still (
        chosen-To ports R laws (awaits c.await await_disconnected) acknowledged (
          chosen-To ports R laws c.disabled still (
            chosen-To ports R laws (motion_running c)
              (motion_handle-To ports R laws event now event.kind c)
              (chosen-To ports R laws (pairing_active c)
                (pairing_handle-To ports R laws event now event.kind c)
                (job_event-To event now c)))))

  module _ (finishing : (c : UpdateController S) → R (core c) (core (finish_close ports c))) where
    acknowledge-To :
        (event : UpdateTransportEvent) (now : ℕ) (c : UpdateController S)
        → To ports R laws c (acknowledge ports event now c)
    unfolding acknowledge pairing_finish_close
    acknowledge-To event now c = record { by = ground (arith, laws.same (core c), finishing c) }

    handle_all-To :
        (events : List UpdateTransportEvent) (now : ℕ) (c : UpdateController S)
        → To ports R laws c (handle_all ports events now c)
    unfolding handle_all
    handle_all-To [] now c = quiet ports R laws c
    handle_all-To (event ∷ events) now c =
        To-trans ports R laws (handle-To event now c (acknowledge-To event now c))
          (handle_all-To events now (handle ports event now c))

    pub apply-To : (call : Call) (c : UpdateController S) → R (core c) (core (apply ports call c))
    unfolding apply
    apply-To (queues tag now) c = (queue-To ports R laws tag now c).by
    apply-To (commissions a pin now) c = (commission-To ports R laws a pin now c).by
    apply-To (cancels id now) c = (cancel-To ports R laws id now c).by
    apply-To (retries id now) c = (retry-To ports R laws id now c).by
    apply-To (requests tag idle moving now) c =
        (motion_request-To ports R laws tag idle moving now c).by
    apply-To (forgets tag now) c = (motion_forget-To ports R laws tag now c).by
    apply-To (loops events now) c =
        (loop-To ports R laws events now c (handle_all-To (take 8 events) now)).by

    pub run-To :
        (calls : List Call) (c : UpdateController S) → R (core c) (core (run ports calls c))
    unfolding run
    run-To [] c = laws.same (core c)
    run-To (call ∷ calls) c = laws.trans (apply-To call c) (run-To calls (apply ports call c))
