-- ===== src/Update/Controller/Calls/Loans.antt =====
-- The image that the storage lends to the controller.
use bin_range.Base.{
  ℕ, ◌≡◌, inl, inr, true, false, refl, ◌∙◌, arith, List, [], ◌∷◌, take, Option-cases,
}
use bin_range.Update.Job.Ops.{Op}
use bin_range.Update.Job.Ops
use bin_range.Update.Controller.{Ports, UpdateController, UpdateTransportEvent, job_at}
use bin_range.Update.Snapshot.{UpdateSnapshot}
use bin_range.Update.Controller.Link.{submit}
use bin_range.Update.Controller.Jobs.{on_job}
use bin_range.Update.Controller.Events.{is_disconnected, acknowledge, handle}
use bin_range.Update.Controller.Loop.{handle_all}
use bin_range.Update.Controller.Core.{Core, core, Laws, To, quiet, To-trans}
use bin_range.Update.Controller.Core.Pairing.{commission-To}
use bin_range.Update.Controller.Core.Motion.{motion_request-To, motion_forget-To}
use bin_range.Update.Controller.Core.Loop.{loop-To}
use bin_range.Update.Controller.Core.Requests.{queue-To, cancel-To, retry-To}
use bin_range.Update.Controller.Calls.{
  Call, queues, commissions, cancels, retries, requests, forgets, loops, apply, run,
  submit-Submitted,
}
use bin_range.Update.Controller.Calls.Sends.{handle-To}

-- The second storage comes from the first by checkpoints alone: nothing was given back to it or
-- acquired from it.
pub data OnlySaved {S : Type 0} (ports : Ports S) : S → S → Type 0 where
  unsaved : (s : S) → OnlySaved ports s s
  saved :
      (s t : S) (snapshot : UpdateSnapshot)
      → OnlySaved ports s t
      → OnlySaved ports s (ports.saves t snapshot).0

OnlySaved-trans :
    {S : Type 0} (ports : Ports S) (s t u : S)
    → OnlySaved ports s t
    → OnlySaved ports t u
    → OnlySaved ports s u
OnlySaved-trans ports s t u p (unsaved _) = p
OnlySaved-trans ports s t u p (saved _ v snapshot q) =
    saved s v snapshot (OnlySaved-trans ports s t v p q)

-- A loan is kept, with its bytes, and the storage that made it is only saved to.
abbrev pub KeepsLoan : {S : Type 0} → Ports S → Core S → Core S → Type 0
KeepsLoan ports k l =
    k.borrowed ≡ true
    → (l.borrowed ≡ true) × (l.bytes ≡ k.bytes) × OnlySaved ports k.storage l.storage

-- No event is the acknowledgement of a disconnect.
abbrev pub NoneDisconnected : List UpdateTransportEvent → Type 0
NoneDisconnected [] = Unit {0}
NoneDisconnected (event ∷ events) = (is_disconnected event.kind ≡ false) × NoneDisconnected events

-- The same of the events that the loops of these calls take.
abbrev pub NoAcknowledgement : List Call → Type 0
NoAcknowledgement [] = Unit {0}
NoAcknowledgement (loops events now ∷ calls) =
    NoneDisconnected (take 8 events) × NoAcknowledgement calls
NoAcknowledgement (queues tag now ∷ calls) = NoAcknowledgement calls
NoAcknowledgement (commissions a pin now ∷ calls) = NoAcknowledgement calls
NoAcknowledgement (cancels id now ∷ calls) = NoAcknowledgement calls
NoAcknowledgement (retries id now ∷ calls) = NoAcknowledgement calls
NoAcknowledgement (requests tag idle moving now ∷ calls) = NoAcknowledgement calls
NoAcknowledgement (forgets tag now ∷ calls) = NoAcknowledgement calls

module _ {S : Type 0} (ports : Ports S) where
  OnlySaved-refl : (s t : S) → t ≡ s → OnlySaved ports s t
  OnlySaved-refl s t e = rw e (unsaved s)

  on_job-KeepsLoan :
      (slot : ℕ) (op : Op) (now : ℕ) (c : UpdateController S)
      → KeepsLoan ports (core c) (core (on_job slot (Ops.apply op now) c).0)
  unfolding on_job
  on_job-KeepsLoan slot op now c h = elim (Option-cases (job_at c slot)) [
    | inl e ↦ (
      ground arith,
      ground arith,
      OnlySaved-refl c.storage (on_job slot (Ops.apply op now) c).0.storage (ground arith),
    )
    | inr (job, e) ↦ (
      ground arith,
      ground arith,
      OnlySaved-refl c.storage (on_job slot (Ops.apply op now) c).0.storage (ground arith),
    )
  ]

  KeepsLoan-Laws : Laws ports (KeepsLoan ports)
  KeepsLoan-Laws = record {
    same = λ k h. (h, refl, unsaved k.storage);
    trans = λ p q h.
        let (a, b, s) = p h in
        let (a', b', t) = q a in (a', b' ∙ b, OnlySaved-trans ports _ _ _ s t);
    disabling = λ k h. (h, refl, unsaved k.storage);
    saving = λ k snapshot h. (h, refl, saved k.storage k.storage snapshot (unsaved k.storage));
    submitting = λ kind smp now c h.
        let (a, b, e) = (submit-Submitted ports kind smp now c).keeps h in
        (a, b, OnlySaved-refl c.storage (submit ports kind smp now c).0.storage e);
    policy = on_job-KeepsLoan;
    enqueueing = λ k target release now e h. (h, refl, unsaved k.storage);
  }

  unmoved :
      (event : UpdateTransportEvent) (now : ℕ) (c : UpdateController S)
      → is_disconnected event.kind ≡ false
      → acknowledge ports event now c ≡ c
  unfolding acknowledge
  unmoved event now c h = ground arith

  handle_all-KeepsLoan :
      (events : List UpdateTransportEvent) (now : ℕ) (c : UpdateController S)
      → NoneDisconnected events
      → To ports (KeepsLoan ports) KeepsLoan-Laws c (handle_all ports events now c)
  unfolding handle_all
  handle_all-KeepsLoan [] now c n = quiet ports (KeepsLoan ports) KeepsLoan-Laws c
  handle_all-KeepsLoan (event ∷ events) now c n =
      let still : To ports (KeepsLoan ports) KeepsLoan-Laws c (acknowledge ports event now c) =
        (record { by = ground (arith, KeepsLoan-Laws.same (core c), unmoved event now c n.0) }) in
      To-trans ports (KeepsLoan ports) KeepsLoan-Laws
        (handle-To ports (KeepsLoan ports) KeepsLoan-Laws event now c still)
        (handle_all-KeepsLoan events now (handle ports event now c) n.1)

  apply-KeepsLoan :
      (call : Call) (c : UpdateController S)
      → NoAcknowledgement (call ∷ [])
      → KeepsLoan ports (core c) (core (apply ports call c))
  unfolding apply
  apply-KeepsLoan (queues tag now) c n =
      (queue-To ports (KeepsLoan ports) KeepsLoan-Laws tag now c).by
  apply-KeepsLoan (commissions a pin now) c n =
      (commission-To ports (KeepsLoan ports) KeepsLoan-Laws a pin now c).by
  apply-KeepsLoan (cancels id now) c n =
      (cancel-To ports (KeepsLoan ports) KeepsLoan-Laws id now c).by
  apply-KeepsLoan (retries id now) c n =
      (retry-To ports (KeepsLoan ports) KeepsLoan-Laws id now c).by
  apply-KeepsLoan (requests tag idle moving now) c n =
      (motion_request-To ports (KeepsLoan ports) KeepsLoan-Laws tag idle moving now c).by
  apply-KeepsLoan (forgets tag now) c n =
      (motion_forget-To ports (KeepsLoan ports) KeepsLoan-Laws tag now c).by
  apply-KeepsLoan (loops events now) c n =
      (loop-To ports (KeepsLoan ports) KeepsLoan-Laws events now c
        (λ d. handle_all-KeepsLoan (take 8 events) now d n.0)).by

  NoAcknowledgement-cons :
      (call : Call) (calls : List Call)
      → NoAcknowledgement (call ∷ calls)
      → NoAcknowledgement (call ∷ []) × NoAcknowledgement calls
  NoAcknowledgement-cons (queues tag now) calls n = (tt, n)
  NoAcknowledgement-cons (commissions a pin now) calls n = (tt, n)
  NoAcknowledgement-cons (cancels id now) calls n = (tt, n)
  NoAcknowledgement-cons (retries id now) calls n = (tt, n)
  NoAcknowledgement-cons (requests tag idle moving now) calls n = (tt, n)
  NoAcknowledgement-cons (forgets tag now) calls n = (tt, n)
  NoAcknowledgement-cons (loops events now) calls n = ((n.0, tt), n.1)

  -- While the controller holds a borrowed image, and none of the events handed to it says that the
  -- link is disconnected, no order of calls gives the image back or takes its bytes away, whatever
  -- fails, times out, is cancelled or disables the controller: all that the storage is asked to
  -- change is to save checkpoints.
  pub run_keeps_loan :
      (calls : List Call) (c : UpdateController S)
      → c.stage_borrowed ≡ true
      → NoAcknowledgement calls
      → ((run ports calls c).stage_borrowed ≡ true)
        × ((run ports calls c).stage_bytes ≡ c.stage_bytes)
        × OnlySaved ports c.storage (run ports calls c).storage
  unfolding run
  run_keeps_loan [] c h n = (h, refl, unsaved c.storage)
  run_keeps_loan (call ∷ calls) c h n =
      let (first, rest) = NoAcknowledgement-cons call calls n in
      let (kept, same, saves) = apply-KeepsLoan call c first h in
      let (kept', same', saves') = run_keeps_loan calls (apply ports call c) kept rest in
      (kept', same' ∙ same, OnlySaved-trans ports _ _ _ saves saves')
