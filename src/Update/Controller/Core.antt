-- ===== src/Update/Controller/Core.antt =====
-- What the controller's calls do to the part of its state that other parties rely on: the commands
-- sent, the queue, the storage and the image borrowed from it. A relation that the basic steps obey holds of every call.
pub mod Jobs
pub mod Pairing
pub mod Motion
pub mod Events
pub mod Loop
pub mod Requests
use bin_range.Base.{
  ℕ, ◌≡◌, inl, inr, Bool, true, false, not, ◌||◌, refl, arith, Option, none, some, List, Bool-cases,
  Option-cases, if◌then◌else◌,
}
use bin_range.Update.Job.Ops.{Op, apply}
use bin_range.Update.Job.{UpdatePhase, UpdateTarget, UpdateRelease}
use bin_range.Update.Queue.{UpdateQueue, enqueue}
use bin_range.Update.Queue.Admission.{has_live_tag}
use bin_range.Update.Snapshot.{UpdateSnapshot}
use bin_range.Update.Smp.{SmpCommand, tag_status}
use bin_range.Update.Controller.{
  Ports, UpdateController, UpdateTransportCommand, CommandKind, disconnect,
}
use bin_range.Update.Controller.Link.{disable, candidate, checkpoint, submit, close, closing, tried}
use bin_range.Update.Controller.Jobs.{or_else, and_then, if_done, on_job, transition}

pub record Core (S : Type 0) : Type 0 where
  pub log : List UpdateTransportCommand
  pub operation : ℕ
  pub disabled : Bool
  pub borrowed : Bool
  pub bytes : Option (List ℕ)
  pub queue : UpdateQueue
  pub storage : S

abbrev pub core : {S : Type 0} → UpdateController S → Core S
core c = record {
  log = c.log;
  operation = c.operation;
  disabled = c.disabled;
  borrowed = c.stage_borrowed;
  bytes = c.stage_bytes;
  queue = c.queue;
  storage = c.storage;
}

-- What a relation between the states before and after must obey.
pub record Laws {S : Type 0} (ports : Ports S) (R : Core S → Core S → Type 0) : Type 0 where
  pub same : (k : Core S) → R k k
  pub trans : {k l m : Core S} → R k l → R l m → R k m
  pub disabling : (k : Core S) → R k (record k { disabled = true })
  pub saving :
      (k : Core S) (snapshot : UpdateSnapshot)
      → R k (record k { storage = (ports.saves k.storage snapshot).0 })
  pub submitting :
      (kind : CommandKind) (smp : SmpCommand) (now : ℕ) (c : UpdateController S)
      → R (core c) (core (submit ports kind smp now c).0)
  pub policy :
      (slot : ℕ) (op : Op) (now : ℕ) (c : UpdateController S)
      → R (core c) (core (on_job slot (apply op now) c).0)
  pub enqueueing :
      (k : Core S) (target : UpdateTarget) (release : UpdateRelease) (now : ℕ)
      → has_live_tag target.tag k.queue.jobs ≡ false
      → R k (record k { queue = (enqueue k.queue target release now).0 })

module _ {S : Type 0} (ports : Ports S) (R : Core S → Core S → Type 0) (laws : Laws ports R) where
  pub record To (c d : UpdateController S) : Type 0 where
    pub by : R (core c) (core d)

  -- The same for a call with an answer.
  pub record Does (c : UpdateController S) (r : UpdateController S × Bool) : Type 0 where
    pub does : R (core c) (core r.0)

  pub quiet : (c : UpdateController S) → To c c
  quiet c = record { by = laws.same _ }

  pub To-trans : {c d e : UpdateController S} → To c d → To d e → To c e
  To-trans p q = record { by = laws.trans p.by q.by }

  pub or_else-To :
      {c : UpdateController S} (r : UpdateController S × Bool)
      (next : UpdateController S → UpdateController S)
      → Does c r
      → ((d : UpdateController S) → To d (next d))
      → To c (or_else r next)
  or_else-To (d, true) next p q = record { by = p.does }
  or_else-To (d, false) next p q = record { by = laws.trans p.does (q d).by }

  pub and_then-Does :
      {c : UpdateController S} (r : UpdateController S × Bool)
      (next : UpdateController S → UpdateController S × Bool)
      → Does c r
      → ((d : UpdateController S) → Does d (next d))
      → Does c (and_then r next)
  and_then-Does (d, true) next p q = record { does = laws.trans p.does (q d).does }
  and_then-Does (d, false) next p q = p

  pub if_done-To :
      {c : UpdateController S} (r : UpdateController S × Bool)
      (granted refused : UpdateController S → UpdateController S)
      → Does c r
      → ((d : UpdateController S) → To d (granted d))
      → ((d : UpdateController S) → To d (refused d))
      → To c (if_done r granted refused)
  if_done-To (d, true) granted refused p q q' = record { by = laws.trans p.does (q d).by }
  if_done-To (d, false) granted refused p q q' = record { by = laws.trans p.does (q' d).by }

  -- For a test that is named; `ground` splits on the others.
  pub chosen-To :
      {c x y : UpdateController S} (test : Bool) → To c x → To c y → To c (if test then x else y)
  chosen-To true p q = p
  chosen-To false p q = q

  pub first-To : {c : UpdateController S} (r : UpdateController S × Bool) → Does c r → To c r.0
  first-To r p = record { by = p.does }

  pub checkpoint-Does : (c : UpdateController S) → Does c (checkpoint ports c)
  unfolding checkpoint disable
  checkpoint-Does c =
      let (storage, done) = ports.saves c.storage (candidate ports c) in
      let saved = laws.saving (core c) (candidate ports c) in
      let disabled = laws.trans saved (laws.disabling (record (core c) { storage = storage })) in
      record { does = ground (arith, laws.same (core c), saved, disabled) }

  pub submit-Does :
      (kind : CommandKind) (smp : SmpCommand) (now : ℕ) (c : UpdateController S)
      → Does c (submit ports kind smp now c)
  submit-Does kind smp now c = record { does = laws.submitting kind smp now c }

  pub tried-To :
      {c : UpdateController S} (now : ℕ) (r : UpdateController S × Bool)
      → Does c r
      → To c (tried now r)
  tried-To now (d, submitted) p = record { by = p.does }

  pub close-To : (now delay : ℕ) (c : UpdateController S) → To c (close ports now delay c)
  unfolding close
  close-To now delay c = record {
    by = ground (
      arith,
      laws.same (core c),
      laws.submitting disconnect tag_status now (closing now delay c),
    );
  }

  pub disable-To : (message : List ℕ) (c : UpdateController S) → To c (disable message c)
  unfolding disable
  disable-To message c = record { by = laws.disabling (core c) }

  pub transition-Does :
      (slot : ℕ) (phase : UpdatePhase) (now : ℕ) (c : UpdateController S)
      → Does c (transition ports slot phase now c)
  unfolding transition apply
  transition-Does slot phase now c =
      and_then-Does (on_job slot (apply (Op.transition phase) now) c) (checkpoint ports)
        (record { does = laws.policy slot (Op.transition phase) now c }) checkpoint-Does
