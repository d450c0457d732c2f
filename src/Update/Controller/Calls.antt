-- ===== src/Update/Controller/Calls.antt =====
-- Any order of calls of the controller, and what `submit` does.
pub mod Sends
pub mod Sound
pub mod Loans
use bin_range.Base.{
  ℕ, ◌+◌, ◌-◌, u32, ◌≢◌, ◌≤◌, ◌≡◌, ◌⊎◌, inl, inr, Bool, true, false, not, arith, Option, none, some,
  List, [], ◌∷◌, refl, ◌∙◌, codes, take, Option-cases, Bool-cases,
}
use bin_range.Update.Job.{UpdateJob}
use bin_range.Update.Queue.{UpdateQueue, u32_max}
use bin_range.Update.Snapshot.{UpdateAssociation}
use bin_range.Update.Smp.{SmpCommand, SmpUpload, upload, same_command}
use bin_range.Update.Controller.{
  Ports, UpdateController, UpdateTransportCommand, UpdateTransportEvent, CommandKind, connect,
  security, exchange, disconnect, active_slot, job_at,
}
use bin_range.Update.Controller.Link.{
  is_disconnect, disable, addressee, borrow, next_chunk, make_frame, dispatch, submit, finish_close,
  with_chunk, command_of, unusable,
}
use bin_range.Update.Controller.Pairing.{commission, pairing_finish_close}
use bin_range.Update.Controller.Motion.{motion_request, motion_forget}
use bin_range.Update.Controller.Events.{acknowledge, handle}
use bin_range.Update.Controller.Loop.{handle_all, loop}
use bin_range.Update.Controller.Requests.{queue, cancel, retry}
use bin_range.Update.Controller.Core.{Core, core, Laws, To, quiet, To-trans, chosen-To}
use bin_range.Update.Controller.Core.Pairing.{commission-To, pairing_handle-To}
use bin_range.Update.Controller.Core.Motion.{motion_request-To, motion_forget-To, motion_handle-To}
use bin_range.Update.Controller.Core.Events.{job_handle-To}
use bin_range.Update.Controller.Core.Loop.{loop-To}
use bin_range.Update.Controller.Core.Requests.{queue-To, cancel-To, retry-To}

-- One call of a controller that has begun. A number at the end is the time.
pub data Call : Type 0 where
  queues : ℕ → ℕ → Call
  commissions : UpdateAssociation → ℕ → ℕ → Call
  cancels retries : ℕ → ℕ → Call
  requests : ℕ → ℕ → ℕ → ℕ → Call
  forgets : ℕ → ℕ → Call
  loops : List UpdateTransportEvent → ℕ → Call

-- What `submit` may do to the core.
pub record Submitted {S : Type 0} (kind : CommandKind) (k l : Core S) : Type 0 where
  pub queue : l.queue ≡ k.queue
  pub keeps :
      k.borrowed ≡ true → (l.borrowed ≡ true) × (l.bytes ≡ k.bytes) × (l.storage ≡ k.storage)
  pub stays : k.disabled ≡ true → l.disabled ≡ true
  pub way :
      ((l.log ≡ k.log)
        × (k.operation ≤ u32_max → (k.operation ≤ l.operation) × (l.operation ≤ u32_max)))
      ⊎ ((command : UpdateTransportCommand) × (l.log ≡ command ∷ k.log)
          × (command.operation ≡ u32 (k.operation + 1))
          × (l.operation ≡ u32 (k.operation + 1))
          × (k.operation ≢ u32_max)
          × (is_disconnect command.kind ≡ false → k.operation ≢ u32_max - 1)
          × (k.disabled ≡ true → is_disconnect command.kind ≡ true))

module _ {S : Type 0} (ports : Ports S) where
  unfoldable pub apply : Call → UpdateController S → UpdateController S
  apply (queues tag now) c = (queue ports tag now c).0
  apply (commissions a pin now) c = (commission ports a pin now c).0
  apply (cancels id now) c = (cancel ports id now c).0
  apply (retries id now) c = (retry ports id now c).0
  apply (requests tag idle moving now) c = (motion_request tag idle moving now c).0
  apply (forgets tag now) c = motion_forget ports tag now c
  apply (loops events now) c = loop ports events now c

  unfoldable pub run : List Call → UpdateController S → UpdateController S
  run [] c = c
  run (call ∷ calls) c = run calls (apply call c)

  -- What preparing a frame may change: the loan, if there is none yet.
  record Prepared (c d : UpdateController S) : Type 0 where
    log : d.log ≡ c.log
    operation : d.operation ≡ c.operation
    disabled : d.disabled ≡ c.disabled
    queue : d.queue ≡ c.queue
    keeps :
        c.stage_borrowed ≡ true
        → (d.stage_borrowed ≡ true) × (d.stage_bytes ≡ c.stage_bytes) × (d.storage ≡ c.storage)

  borrow-Prepared : (job : UpdateJob) (c : UpdateController S) → Prepared c (borrow ports job c).0
  unfolding borrow
  borrow-Prepared job c = elim (Bool-cases c.stage_borrowed) [
    | inl e ↦ ground arith
    | inr e ↦ elim (Option-cases (ports.acquires c.storage job.release).1) [
      | inl e' ↦ ground arith
      | inr (bytes, e') ↦ ground arith
    ]
  ]

  next_chunk-Prepared : (c : UpdateController S) → Prepared c (next_chunk ports c).0
  unfolding next_chunk
  next_chunk-Prepared c = elim (Option-cases (active_slot c)) [
    | inl e ↦ ground arith
    | inr (slot, e) ↦ elim (Option-cases (job_at c slot)) [
      | inl e' ↦ ground arith
      | inr (job, e') ↦ ground (arith, borrow-Prepared job c)
    ]
  ]

  with_chunk-Prepared :
      (c d : UpdateController S) (payload : Option SmpUpload)
      → Prepared c d
      → Prepared c (with_chunk (d, payload)).0
  with_chunk-Prepared c d none p = p
  with_chunk-Prepared c d (some payload) p = ground (arith, p)

  make_frame-Prepared :
      (kind : CommandKind) (smp : SmpCommand) (c : UpdateController S)
      → Prepared c (make_frame ports kind smp c).0
  unfolding make_frame
  make_frame-Prepared connect smp c = ground arith
  make_frame-Prepared security smp c = ground arith
  make_frame-Prepared disconnect smp c = ground arith
  make_frame-Prepared exchange smp c = elim (Bool-cases (same_command smp upload)) [
    | inl e ↦
        let (d, payload) = next_chunk ports c in
        ground (arith, with_chunk-Prepared c d payload (next_chunk-Prepared c))
    | inr e ↦ ground arith
  ]

  dispatch-Submitted :
      (kind : CommandKind) (smp : SmpCommand) (a : UpdateAssociation) (now : ℕ)
      (c d : UpdateController S) (frame : Option (List ℕ))
      → c.operation ≢ u32_max
      → (is_disconnect kind ≡ false → c.operation ≢ u32_max - 1)
      → Prepared (record c { operation = u32 (c.operation + 1) }) d
      → (c.disabled ≡ true → is_disconnect kind ≡ true)
      → Submitted kind (core c) (core (dispatch ports kind smp a now (d, frame)).0)
  unfolding dispatch
  dispatch-Submitted kind smp a now c d none m r p q = record {
    queue = p.queue;
    keeps = p.keeps;
    stays = λ h. p.disabled ∙ h;
    way = inl (p.log, λ b. (ground (arith, p.operation), ground (arith, p.operation)));
  }
  dispatch-Submitted kind smp a now c d (some frame) m r p q =
      let command = command_of kind smp a frame d in
      elim (Bool-cases (ports.accepts d.log command)) [
        | inl e ↦ record {
          queue = ground (arith, p.queue);
          keeps = λ h.
              (ground (arith, p.keeps h), ground (arith, p.keeps h), ground (arith, p.keeps h));
          stays = λ h. ground (arith, p.disabled);
          way =
              inr
                (command, ground (arith, p.log), p.operation, ground (arith, p.operation), m, r, q);
        }
        | inr e ↦ record {
          queue = ground (arith, p.queue);
          keeps = λ h.
              (ground (arith, p.keeps h), ground (arith, p.keeps h), ground (arith, p.keeps h));
          stays = λ h. ground (arith, p.disabled);
          way =
              inr
                (command, ground (arith, p.log), p.operation, ground (arith, p.operation), m, r, q);
        }
      ]

  unsent : (kind : CommandKind) (k : Core S) → Submitted kind k k
  unsent kind k = record {
    queue = refl;
    keeps = λ h. (h, refl, refl);
    stays = λ h. h;
    way = inl (refl, λ b. (omega arith, b));
  }

  pub submit-Submitted :
      (kind : CommandKind) (smp : SmpCommand) (now : ℕ) (c : UpdateController S)
      → Submitted kind (core c) (core (submit ports kind smp now c).0)
  unfolding submit disable
  submit-Submitted kind smp now c = elim (Bool-cases (unusable kind c)) [
    | inl e ↦ record {
      queue = ground arith;
      keeps = λ h. (ground arith, ground arith, ground arith);
      stays = λ h. ground arith;
      way = inl (ground arith, λ b. (ground arith, ground arith));
    }
    | inr e ↦ elim (Option-cases (addressee c)) [
      | inl e' ↦ ground (arith, unsent kind (core c))
      | inr (a, e') ↦
          let raised : UpdateController S = record c { operation = u32 (c.operation + 1) } in
          let sent =
            dispatch-Submitted kind smp a now c (make_frame ports kind smp raised).0
              (make_frame ports kind smp raised).1 (ground arith) (λ d. ground arith)
              (make_frame-Prepared kind smp raised) (λ h. ground arith) in
          ground (arith, sent)
    ]
  ]
