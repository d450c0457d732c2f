-- ===== src/Update/Controller/Calls/Sound.antt =====
-- What every run of the controller keeps: the commands that it sends, and its queue.
use bin_range.Base.{
  append_assoc, ℕ, zero, suc, ◌≤◌, ◌<◌, ◌≡◌, ◌≢◌, ◌+◌, ◌-◌, u32, Bool-cases, ◌⊎◌, inl, inr, true,
  false, refl, sym, ◌∙◌, ap, arith, some, List, [], ◌∷◌, ◌++◌, length, Option-cases, set, get_elem?,
}
use bin_range.Update.Job.{UpdateJob}
use bin_range.Update.Job.Ops.{Op}
use bin_range.Update.Job.Ops
use bin_range.Update.Queue.{modify, valid_restore, u32_max}
use bin_range.Update.Queue.Invariant.{IsValid, states, apply_at, apply_at-IsValid}
use bin_range.Update.Queue.Admission.{enqueue-IsValid}
use bin_range.Update.Queue.Restart.{export-valid_restore}
use bin_range.Update.Controller.{
  Ports, UpdateController, UpdateTransportCommand, CommandKind, job_at,
}
use bin_range.Update.Controller.Link.{is_disconnect, finish_close}
use bin_range.Update.Controller.Jobs.{on_job}
use bin_range.Update.Controller.Core.{Core, core, Laws}
use bin_range.Update.Controller.Calls.{Call, run, Submitted, submit-Submitted}
use bin_range.Update.Controller.Calls.Sends.{run-To}

-- The commands, the latest first, have falling operation IDs, all above `low` and none above `high`;
-- the last of all IDs is only given to a disconnect.
abbrev pub Falls : ℕ → ℕ → List UpdateTransportCommand → Type 0
Falls low high [] = low ≤ high
Falls low high (command ∷ sent) =
    (command.operation ≤ high)
    × (command.operation ≡ u32_max → is_disconnect command.kind ≡ true)
    × ((next : ℕ) × (next < command.operation) × Falls low next sent)

abbrev pub AllDisconnect : List UpdateTransportCommand → Type 0
AllDisconnect [] = Unit {0}
AllDisconnect (command ∷ sent) = (is_disconnect command.kind ≡ true) × AllDisconnect sent

-- What was sent between two states.
pub record Sent {S : Type 0} (k l : Core S) : Type 0 where
  pub sent : List UpdateTransportCommand
  pub log : l.log ≡ sent ++ k.log
  pub falls : k.operation ≤ u32_max → Falls k.operation l.operation sent × (l.operation ≤ u32_max)
  pub quiet : k.disabled ≡ true → (l.disabled ≡ true) × AllDisconnect sent

Falls-raise :
    (low high higher : ℕ) (sent : List UpdateTransportCommand)
    → Falls low high sent
    → high ≤ higher
    → Falls low higher sent
Falls-raise low high higher [] f h = omega arith
Falls-raise low high higher (command ∷ sent) f h = (omega (arith, f.0), f.1, f.2)

Falls-append :
    (low mid high : ℕ) (new old : List UpdateTransportCommand)
    → Falls mid high new
    → Falls low mid old
    → Falls low high (new ++ old)
Falls-append low mid high [] old f g = Falls-raise low mid high old g f
Falls-append low mid high (command ∷ new) old (h, last, (next, lt, f)) g =
    (h, last, (next, lt, Falls-append low mid next new old f g))

AllDisconnect-append :
    (new old : List UpdateTransportCommand)
    → AllDisconnect new
    → AllDisconnect old
    → AllDisconnect (new ++ old)
AllDisconnect-append [] old a b = b
AllDisconnect-append (command ∷ new) old a b = (a.0, AllDisconnect-append new old a.1 b)

Sent-trans : {S : Type 0} {k l m : Core S} → Sent k l → Sent l m → Sent k m
Sent-trans {k = k} {l = l} {m = m} p q = record {
  sent = q.sent ++ p.sent;
  log = q.log ∙ ap (λ x. q.sent ++ x) p.log ∙ sym (append_assoc q.sent p.sent k.log);
  falls = λ b.
      let (f, b') = p.falls b in
      let (g, b'') = q.falls b' in
      (Falls-append k.operation l.operation m.operation q.sent p.sent g f, b'');
  quiet = λ h.
      let (d, all) = p.quiet h in
      let (d', all') = q.quiet d in (d', AllDisconnect-append q.sent p.sent all' all);
}

-- Nothing is sent.
silent :
    {S : Type 0} (k l : Core S)
    → l.log ≡ k.log
    → (k.operation ≤ u32_max → (k.operation ≤ l.operation) × (l.operation ≤ u32_max))
    → (k.disabled ≡ true → l.disabled ≡ true)
    → Sent k l
silent k l e o d = record { sent = []; log = e; falls = o; quiet = λ h. (d h, tt) }

last_is_disconnect :
    (command : UpdateTransportCommand) (before : ℕ)
    → command.operation ≡ u32_max
    → command.operation ≡ u32 (before + 1)
    → before ≤ u32_max
    → before ≢ u32_max
    → (is_disconnect command.kind ≡ false → before ≢ u32_max - 1)
    → is_disconnect command.kind ≡ true
last_is_disconnect command before last e b m r = elim (Bool-cases (is_disconnect command.kind)) [
  | inl d ↦ d
  | inr d ↦ absurd (r d (ground arith))
]

Submitted-Sent : {S : Type 0} (kind : CommandKind) (k l : Core S) → Submitted kind k l → Sent k l
Submitted-Sent kind k l s = elim (s.way) [
  | inl (e, o) ↦ silent k l e o s.stays
  | inr (command, e, o, o', m, r, d) ↦ record {
    sent = command ∷ [];
    log = e;
    falls = λ b. (
      (
        omega (arith, o, o'),
        λ last. last_is_disconnect command k.operation last o b m r,
        (k.operation, omega (arith, o, m), omega arith),
      ),
      omega (arith, o'),
    );
    quiet = λ h. (s.stays h, (d h, tt));
  }
]

set-modify :
    (f : UpdateJob → UpdateJob) (jobs : List UpdateJob) (slot : ℕ) (job : UpdateJob)
    → get_elem? jobs slot ≡ some job
    → set jobs slot (f job) ≡ modify f jobs slot
set-modify f [] slot job h = refl
set-modify f (x ∷ jobs) zero job h = ground arith
set-modify f (x ∷ jobs) (suc slot) job h = ap (◌∷◌ x) (set-modify f jobs slot job h)

-- The queue stays valid.
abbrev KeepsQueue : {S : Type 0} → Core S → Core S → Type 0
KeepsQueue k l = IsValid k.queue → IsValid l.queue

module _ {S : Type 0} (ports : Ports S) where
  on_job-Sent :
      (slot : ℕ) (op : Op) (now : ℕ) (c : UpdateController S)
      → Sent (core c) (core (on_job slot (Ops.apply op now) c).0)
  unfolding on_job
  on_job-Sent slot op now c = elim (Option-cases (job_at c slot)) [
    | inl e ↦ silent _ _ (ground arith) (λ b. (ground arith, ground arith)) (λ h. ground arith)
    | inr (job, e) ↦
        silent _ _ (ground arith) (λ b. (ground arith, ground arith)) (λ h. ground arith)
  ]

  Sent-Laws : Laws ports Sent
  Sent-Laws = record {
    same = λ k. silent k k refl (λ b. (omega arith, b)) (λ h. h);
    trans = Sent-trans;
    disabling =
        λ k. silent k (record k { disabled = true }) refl (λ b. (omega arith, b)) (λ h. refl);
    saving = λ k snapshot. silent k _ refl (λ b. (omega arith, b)) (λ h. h);
    submitting = λ kind smp now c. Submitted-Sent kind _ _ (submit-Submitted ports kind smp now c);
    policy = on_job-Sent;
    enqueueing = λ k target release now h. silent k _ refl (λ b. (omega arith, b)) (λ d. d);
  }

  finish_close-Sent : (c : UpdateController S) → Sent (core c) (core (finish_close ports c))
  unfolding finish_close
  finish_close-Sent c = silent _ _ refl (λ b. (omega arith, b)) (λ h. h)

  run-Sent : (calls : List Call) (c : UpdateController S) → Sent (core c) (core (run ports calls c))
  run-Sent = run-To ports Sent Sent-Laws finish_close-Sent

  -- While the last ID used is a uint32_t, in any order of calls the commands handed to the transport
  -- have rising operation IDs, all of them above the last ID used before and none above the last ID
  -- used after, which is a uint32_t again: the counter stops before it wraps. The last ID of all is
  -- only given to a disconnect.
  pub run_ids_rise :
      (calls : List Call) (c : UpdateController S)
      → c.operation ≤ u32_max
      → (sent : List UpdateTransportCommand) × ((run ports calls c).log ≡ sent ++ c.log)
        × Falls c.operation (run ports calls c).operation sent
        × ((run ports calls c).operation ≤ u32_max)
  run_ids_rise calls c b =
      let s = run-Sent calls c in let (falls, bound) = s.falls b in (s.sent, s.log, falls, bound)

  -- Once the controller is disabled, it stays so in any order of calls, and all that it hands to
  -- the transport is disconnects.
  pub run_disabled :
      (calls : List Call) (c : UpdateController S)
      → c.disabled ≡ true
      → ((run ports calls c).disabled ≡ true)
        × ((sent : List UpdateTransportCommand) × ((run ports calls c).log ≡ sent ++ c.log)
            × AllDisconnect sent)
  run_disabled calls c h =
      let s = run-Sent calls c in
      let (disabled, all) = s.quiet h in (disabled, (s.sent, s.log, all))

  on_job-queue :
      (slot : ℕ) (op : Op) (now : ℕ) (c : UpdateController S)
      → ((on_job slot (Ops.apply op now) c).0.queue ≡ c.queue)
        ⊎ ((on_job slot (Ops.apply op now) c).0.queue ≡ apply_at c.queue slot op now)
  unfolding on_job
  on_job-queue slot op now c = elim (Option-cases (job_at c slot)) [
    | inl e ↦ inl (ground arith)
    | inr (job, e) ↦
        let f = λ (j : UpdateJob). (Ops.apply op now j).0 in
        inr (ground (arith, set-modify f c.queue.jobs slot job e))
  ]

  on_job-KeepsQueue :
      (slot : ℕ) (op : Op) (now : ℕ) (c : UpdateController S)
      → KeepsQueue (core c) (core (on_job slot (Ops.apply op now) c).0)
  on_job-KeepsQueue slot op now c v = elim (on_job-queue slot op now c) [
    | inl e ↦ rw e v
    | inr e ↦ rw e (apply_at-IsValid op now c.queue slot v)
  ]

  KeepsQueue-Laws : Laws ports KeepsQueue
  KeepsQueue-Laws = record {
    same = λ k v. v;
    trans = λ p q v. q (p v);
    disabling = λ k v. v;
    saving = λ k snapshot v. v;
    submitting = λ kind smp now c v. rw ((submit-Submitted ports kind smp now c).queue) v;
    policy = on_job-KeepsQueue;
    enqueueing = λ k target release now h v. enqueue-IsValid k.queue target release now v h;
  }

  finish_close-KeepsQueue :
      (c : UpdateController S) → KeepsQueue (core c) (core (finish_close ports c))
  unfolding finish_close
  finish_close-KeepsQueue c v = v

  -- In any order of calls the queue of the controller stays valid, and what it exports would be
  -- accepted by the restore check of the next start.
  pub run_keeps_queue :
      (calls : List Call) (c : UpdateController S)
      → IsValid c.queue
      → IsValid (run ports calls c).queue
        × (valid_restore
              (some (states (run ports calls c).queue.jobs))
              (length (run ports calls c).queue.jobs)
            ≡ true)
  run_keeps_queue calls c v =
      let v' : IsValid (run ports calls c).queue =
        run-To ports KeepsQueue KeepsQueue-Laws finish_close-KeepsQueue calls c v in
      (v', export-valid_restore (run ports calls c).queue v')
