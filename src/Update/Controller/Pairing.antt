-- ===== src/Update/Controller/Pairing.antt =====
-- Commissioning: `commission`, `pairing_fail`, `pairing_finish_close` and the pairing half of `handle`
-- of firmware/anchor/src/core/update_controller.cpp. `secure_erase` leaves zeros, and the copy of the PIN
-- in `ScopedPin` dies with the call.
use bin_range.Base.{
  ℕ, ◌+◌, ◌-◌, Bool, true, false, not, ◌&&◌, ◌||◌, Option, none, some, List, [], ◌∷◌, ◌++◌, ltb,
  leb, ◌==◌, if◌then◌else◌, length, take, codes, u32,
}
use bin_range.Update.Job.{bytes_eq}
use bin_range.Update.Queue.{u32_max}
use bin_range.Update.Queue.Admission.{has_live_tag}
use bin_range.Update.Snapshot.{UpdateAssociation}
use bin_range.Update.Smp.{SmpReply, SmpOutcome, ok, denied, tag_status}
use bin_range.Update.Controller.{
  Ports, UpdateController, UpdateQueueResult, result_accepted, result_conflict, result_invalid,
  result_capacity, result_error, pairing_connecting, pairing_securing, pairing_checking,
  pairing_disconnecting, pairing_successful, pairing_failed, UpdatePairingPhase,
  UpdateTransportEvent, EventKind, event_connected, event_secured, event_reply, event_disconnected,
  event_failed, UpdateTransportFailure, fail_transient, fail_security, fail_identity, fail_protocol,
  fail_unavailable, connect, security, exchange, await_none, await_connected, await_secured,
  await_reply, awaits, same_association, valid_association, busy, max_associations,
}
use bin_range.Update.Controller.Link.{disable, checkpoint, submit, close}
use bin_range.Update.Controller.Jobs.{or_else, if_done}

-- Some association names the tag, the hardware or the address of this one.
abbrev pub related : UpdateAssociation → UpdateAssociation → Bool
related b a =
    b.target.tag == a.target.tag
    || bytes_eq b.target.hardware_id a.target.hardware_id
    || b.address_type == a.address_type && bytes_eq b.address a.address

-- The loop of `commission`: `none` on a conflict, else whether the association exists.
unfoldable pub known_association : UpdateAssociation → List UpdateAssociation → Option Bool
unfolding same_association
known_association a [] = some false
known_association a (b ∷ rest) =
    let found = known_association a rest in
    if related b a
    then (if not (same_association b a)
        then none
        else elim found [ none ↦ none | some exists ↦ some true ])
    else found

-- The loop of `handle` that looks for the association.
unfoldable pub includes : UpdateAssociation → List UpdateAssociation → Bool
unfolding same_association
includes a [] = false
includes a (b ∷ rest) = same_association b a || includes a rest

abbrev pub is_transient : UpdateTransportFailure → Bool
is_transient fail_transient = true
is_transient fail_security = false
is_transient fail_identity = false
is_transient fail_protocol = false
is_transient fail_unavailable = false

abbrev pub is_ok : SmpOutcome → Bool
is_ok ok = true
is_ok denied = false

module _ {S : Type 0} where
  -- `pairing_phase_ = phase; pairing_changed_ms_ = now;`
  abbrev pub enter : UpdatePairingPhase → ℕ → UpdateController S → UpdateController S
  enter phase now c = record c { pairing = record (c.pairing) { phase = phase; changed_ms = now } }

  unfoldable pub pairing_finish_close : ℕ → UpdateController S → UpdateController S
  pairing_finish_close now c = record c {
    pairing = record (c.pairing) {
      pin = 0;
      phase = if c.pairing.success then pairing_successful else pairing_failed;
      changed_ms = now;
      success = false;
    };
    await = await_none;
    disconnect_submitted = false;
  }

  abbrev pub failing : List ℕ → ℕ → UpdateController S → UpdateController S
  failing message now c = record c {
    pairing = record (c.pairing) {
      pin = 0;
      success = false;
      error = take 79 message;
      phase = pairing_disconnecting;
      changed_ms = now;
    };
  }

  unfoldable pub pairing_fail : Ports S → List ℕ → ℕ → UpdateController S → UpdateController S
  unfolding close
  pairing_fail ports message now c = close ports now 0 (failing message now c)

  abbrev pub open_pairing : UpdateAssociation → ℕ → ℕ → UpdateController S → UpdateController S
  open_pairing a pin now c = record c {
    pairing = record {
      association = a;
      pin = pin;
      success = false;
      error = [];
      phase = pairing_connecting;
      changed_ms = now;
    };
    session = u32 (c.session + 1);
    session_started = now;
    stalled = 0;
  }

  -- From the assignment of `pairing_association_` on.
  unfoldable pub start_pairing :
      Ports S
      → UpdateAssociation
      → ℕ
      → ℕ
      → UpdateController S
      → UpdateController S × UpdateQueueResult
  unfolding submit pairing_fail
  start_pairing ports a pin now c =
      let (c', submitted) = submit ports connect tag_status now (open_pairing a pin now c) in
      if submitted
      then (c', result_accepted)
      else (pairing_fail ports (codes "BLE connection could not be queued") now c', result_error)

  unfoldable pub ids_exhausted : UpdateController S → Bool
  ids_exhausted c = c.session == u32_max || leb (u32_max - 1) c.operation

  unfoldable pub start_with_ids :
      Ports S
      → UpdateAssociation
      → ℕ
      → ℕ
      → UpdateController S
      → UpdateController S × UpdateQueueResult
  unfolding ids_exhausted disable start_pairing
  start_with_ids ports a pin now c =
      if ids_exhausted c
      then (disable (codes "Transport IDs exhausted; restart required") c, result_error)
      else start_pairing ports a pin now c

  -- The checks after the loop over the associations.
  unfoldable pub commission_new :
      Ports S
      → UpdateAssociation
      → ℕ
      → ℕ
      → UpdateController S
      → Option Bool
      → UpdateController S × UpdateQueueResult
  unfolding has_live_tag start_with_ids
  commission_new ports a pin now c none = (c, result_conflict)
  commission_new ports a pin now c (some exists) =
      if not exists && length c.associations == max_associations
      then (c, result_capacity)
      else if has_live_tag a.target.tag c.queue.jobs
      then (c, result_conflict)
      else start_with_ids ports a pin now c

  unfoldable pub commission :
      Ports S
      → UpdateAssociation
      → ℕ
      → ℕ
      → UpdateController S
      → UpdateController S × UpdateQueueResult
  unfolding busy valid_association known_association commission_new
  commission ports a pin now c =
      if not c.ready
      then (c, result_error)
      else if c.disabled
      then (c, result_error)
      else if busy c
      then (c, result_conflict)
      else if not (valid_association a) || ltb 999999 pin
      then (c, result_invalid)
      else commission_new ports a pin now c (known_association a c.associations)

  abbrev pub succeed : ℕ → UpdateController S → UpdateController S
  succeed now c = record c {
    pairing = record (c.pairing) {
      success = true;
      phase = pairing_disconnecting;
      changed_ms = now;
    };
  }

  abbrev pub with_new : UpdateController S → UpdateController S
  with_new c =
      if includes c.pairing.association c.associations
      then c
      else record c { associations = c.associations ++ (c.pairing.association ∷ []) }

  abbrev pub taken_back : List UpdateAssociation → UpdateController S → UpdateController S
  taken_back associations c = record c { associations = associations }

  -- From the search for an existing association on. A refused checkpoint takes back what was added.
  unfoldable pub adopt_association : Ports S → ℕ → UpdateController S → UpdateController S
  unfolding includes checkpoint pairing_fail close
  adopt_association ports now c =
      if not (includes c.pairing.association c.associations)
        && length c.associations == max_associations
      then pairing_fail ports (codes "Association capacity exhausted") now c
      else if_done (checkpoint ports (with_new c)) (λ c'. close ports now 0 (succeed now c'))
          (λ c'.
            pairing_fail ports (codes "Association checkpoint failed") now
              (taken_back c.associations c'))

  unfoldable pub pairing_reply : Ports S → SmpReply → ℕ → UpdateController S → UpdateController S
  unfolding pairing_fail adopt_association
  pairing_reply ports reply now c =
      if not (is_ok reply.outcome)
        || not (reply.tag.tag == c.pairing.association.target.tag)
        || not (bytes_eq reply.tag.id c.pairing.association.target.hardware_id)
      then pairing_fail ports (codes "Commissioned tag identity mismatch") now c
      else adopt_association ports now c

  unfoldable pub pairing_secured :
      Ports S → UpdateTransportEvent → ℕ → UpdateController S → UpdateController S
  unfolding submit pairing_fail
  pairing_secured ports event now c =
      if not event.bonded_mitm_sc
      then pairing_fail ports (codes "Authenticated Secure Connections bond required") now c
      else or_else (submit ports exchange tag_status now (enter pairing_checking now c))
          (pairing_fail ports (codes "Could not queue tag identity request") now)

  abbrev pub pairing_lost :
      Ports S → UpdateTransportEvent → ℕ → UpdateController S → UpdateController S
  pairing_lost ports event now =
      pairing_fail ports
        (if is_transient event.failure
          then codes "BLE disconnected or operation failed"
          else codes "BLE security/identity/protocol failure")
        now

  -- The half of `handle` for a pairing session, by the kind of the event.
  unfoldable pub pairing_handle :
      Ports S → UpdateTransportEvent → ℕ → EventKind → UpdateController S → UpdateController S
  unfolding pairing_fail submit pairing_secured pairing_reply
  pairing_handle ports event now event_failed c = pairing_lost ports event now c
  pairing_handle ports event now event_disconnected c = pairing_lost ports event now c
  pairing_handle ports event now event_connected c =
      if awaits c.await await_connected
      then (or_else (submit ports security tag_status now (enter pairing_securing now c))
          (pairing_fail ports (codes "Could not queue link security") now))
      else c
  pairing_handle ports event now event_secured c =
      if awaits c.await await_secured then pairing_secured ports event now c else c
  pairing_handle ports event now event_reply c =
      if awaits c.await await_reply then pairing_reply ports event.reply now c else c
