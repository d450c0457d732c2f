-- ===== src/Update/Controller/Core/Pairing.antt =====
-- Commissioning obeys every relation that the basic steps obey.
use bin_range.Base.{
  ℕ, Bool, true, false, arith, Option, none, some, List, codes, if◌then◌else◌, not, ◌&&◌, ◌==◌,
  length,
}
use bin_range.Update.Queue.Admission.{has_live_tag}
use bin_range.Update.Snapshot.{UpdateAssociation}
use bin_range.Update.Smp.{SmpReply, tag_status}
use bin_range.Update.Controller.{
  Ports, UpdateController, UpdateTransportEvent, EventKind, event_connected, event_secured,
  event_reply, event_disconnected, event_failed, connect, security, exchange, pairing_securing,
  pairing_checking, UpdateQueueResult, result_error, result_capacity, result_conflict,
  max_associations,
}
use bin_range.Update.Controller.Link.{disable, checkpoint, submit, close}
use bin_range.Update.Controller.Pairing.{
  enter, failing, pairing_fail, open_pairing, start_pairing, start_with_ids, commission_new,
  commission, succeed, with_new, ids_exhausted, taken_back, adopt_association, pairing_reply,
  pairing_secured, pairing_lost, pairing_handle, known_association,
}
use bin_range.Update.Controller.Core.{
  Core, core, Laws, To, quiet, To-trans, or_else-To, if_done-To, checkpoint-Does, submit-Does,
  close-To, disable-To,
}

module _ {S : Type 0} (ports : Ports S) (R : Core S → Core S → Type 0) (laws : Laws ports R) where
  failing-To :
      (message : List ℕ) (now : ℕ) (c : UpdateController S)
      → To ports R laws c (failing message now c)
  failing-To message now c = record { by = laws.same _ }

  pub pairing_fail-To :
      (message : List ℕ) (now : ℕ) (c : UpdateController S)
      → To ports R laws c (pairing_fail ports message now c)
  unfolding pairing_fail
  pairing_fail-To message now c =
      To-trans ports R laws (failing-To message now c)
        (close-To ports R laws now 0 (failing message now c))

  start_pairing-To :
      (a : UpdateAssociation) (pin now : ℕ) (c : UpdateController S)
      → To ports R laws c (start_pairing ports a pin now c).0
  unfolding start_pairing
  start_pairing-To a pin now c =
      let sent = submit-Does ports R laws connect tag_status now (open_pairing a pin now c) in
      let failed =
        pairing_fail-To (codes "BLE connection could not be queued") now
          (submit ports connect tag_status now (open_pairing a pin now c)).0 in
      record { by = ground (arith, sent.does, laws.trans sent.does failed.by) }

  -- By the test's value, which `ground` need not look into.
  chosen-To :
      (exhausted : Bool) (c : UpdateController S) (x y : UpdateController S × UpdateQueueResult)
      → To ports R laws c x.0
      → To ports R laws c y.0
      → To ports R laws c (if exhausted then x else y).0
  chosen-To true c x y p q = p
  chosen-To false c x y p q = q

  start_with_ids-To :
      (a : UpdateAssociation) (pin now : ℕ) (c : UpdateController S)
      → To ports R laws c (start_with_ids ports a pin now c).0
  unfolding start_with_ids
  start_with_ids-To a pin now c =
      let message = codes "Transport IDs exhausted; restart required" in
      chosen-To (ids_exhausted c) c (disable message c, result_error)
        (start_pairing ports a pin now c) (disable-To ports R laws message c)
        (start_pairing-To a pin now c)

  commission_new-To :
      (a : UpdateAssociation) (pin now : ℕ) (c : UpdateController S) (exists : Option Bool)
      → To ports R laws c (commission_new ports a pin now c exists).0
  unfolding commission_new
  commission_new-To a pin now c none = record { by = laws.same (core c) }
  commission_new-To a pin now c (some exists) =
      let started = start_with_ids ports a pin now c in
      let live = has_live_tag a.target.tag c.queue.jobs in
      chosen-To (not exists && length c.associations == max_associations) c (c, result_capacity)
        (if live then (c, result_conflict) else started) (quiet ports R laws c)
        (chosen-To live c (c, result_conflict) started (quiet ports R laws c)
          (start_with_ids-To a pin now c))

  pub commission-To :
      (a : UpdateAssociation) (pin now : ℕ) (c : UpdateController S)
      → To ports R laws c (commission ports a pin now c).0
  unfolding commission
  commission-To a pin now c =
      let started = commission_new-To a pin now c (known_association a c.associations) in
      record { by = ground (arith, laws.same (core c), started.by) }

  with_new-To : (c : UpdateController S) → To ports R laws c (with_new c)
  with_new-To c = record { by = ground (arith, laws.same (core c)) }

  adopt_association-To :
      (now : ℕ) (c : UpdateController S) → To ports R laws c (adopt_association ports now c)
  unfolding adopt_association
  adopt_association-To now c =
      let full = pairing_fail-To (codes "Association capacity exhausted") now c in
      let adopted =
        if_done-To ports R laws {c = c} (checkpoint ports (with_new c))
          (λ d. close ports now 0 (succeed now d))
          (λ d.
            pairing_fail ports (codes "Association checkpoint failed") now
              (taken_back c.associations d))
          (record {
            does = laws.trans (with_new-To c).by (checkpoint-Does ports R laws (with_new c)).does;
          })
          (λ d. record { by = (close-To ports R laws now 0 (succeed now d)).by })
          (λ d. record {
            by =
                (pairing_fail-To (codes "Association checkpoint failed") now
                  (taken_back c.associations d)).by;
          }) in
      record { by = ground (arith, full.by, adopted.by) }

  pairing_reply-To :
      (reply : SmpReply) (now : ℕ) (c : UpdateController S)
      → To ports R laws c (pairing_reply ports reply now c)
  unfolding pairing_reply
  pairing_reply-To reply now c =
      let wrong = pairing_fail-To (codes "Commissioned tag identity mismatch") now c in
      record { by = ground (arith, wrong.by, (adopt_association-To now c).by) }

  pairing_secured-To :
      (event : UpdateTransportEvent) (now : ℕ) (c : UpdateController S)
      → To ports R laws c (pairing_secured ports event now c)
  unfolding pairing_secured
  pairing_secured-To event now c =
      let weak = pairing_fail-To (codes "Authenticated Secure Connections bond required") now c in
      let asked =
        or_else-To ports R laws _ _
          (submit-Does ports R laws exchange tag_status now (enter pairing_checking now c))
          (pairing_fail-To (codes "Could not queue tag identity request") now) in
      record { by = ground (arith, weak.by, asked.by) }

  pairing_lost-To :
      (event : UpdateTransportEvent) (now : ℕ) (c : UpdateController S)
      → To ports R laws c (pairing_lost ports event now c)
  pairing_lost-To event now c = pairing_fail-To _ now c

  pub pairing_handle-To :
      (event : UpdateTransportEvent) (now : ℕ) (kind : EventKind) (c : UpdateController S)
      → To ports R laws c (pairing_handle ports event now kind c)
  unfolding pairing_handle
  pairing_handle-To event now event_failed c = pairing_lost-To event now c
  pairing_handle-To event now event_disconnected c = pairing_lost-To event now c
  pairing_handle-To event now event_connected c =
      let secured =
        or_else-To ports R laws _ _
          (submit-Does ports R laws security tag_status now (enter pairing_securing now c))
          (pairing_fail-To (codes "Could not queue link security") now) in
      record { by = ground (arith, laws.same (core c), secured.by) }
  pairing_handle-To event now event_secured c = record {
    by = ground (arith, laws.same (core c), (pairing_secured-To event now c).by);
  }
  pairing_handle-To event now event_reply c = record {
    by = ground (arith, laws.same (core c), (pairing_reply-To event.reply now c).by);
  }
