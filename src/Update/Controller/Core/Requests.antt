-- ===== src/Update/Controller/Core/Requests.antt =====
-- The operator's requests obey every relation that the basic steps obey.
use bin_range.Base.{
  ℕ, ◌≡◌, ◌==◌, Bool, true, false, arith, Option, none, some, List, [], ◌∷◌, codes, Option-cases,
  Bool-cases, inl, inr, if◌then◌else◌,
}
use bin_range.Update.Job.{UpdateRelease}
use bin_range.Update.Job.Ops.{Op, apply}
use bin_range.Update.Queue.{UpdateQueue, enqueue, find}
use bin_range.Update.Queue.Admission.{has_live_tag}
use bin_range.Update.Snapshot.{UpdateAssociation}
use bin_range.Update.Controller.{
  Ports, UpdateController, association_of, job_at, index, poll_interval,
}
use bin_range.Update.Controller.Link.{checkpoint}
use bin_range.Update.Controller.Jobs.{on_job, note_error}
use bin_range.Update.Controller.Requests.{
  fresh_slot, admitted, store, queue_release, queue, inspect_outcome, close_own, cancelled_at,
  cancel, retimed, retried, enqueued, retry_at, retry, armed,
}
use bin_range.Update.Controller.Core.{
  Core, core, Laws, To, Does, quiet, and_then-Does, checkpoint-Does, close-To, chosen-To,
}
use bin_range.Update.Controller.Core.Jobs.{policy-Does, note_error-To, prepare_check-Does}

module _ {S : Type 0} (ports : Ports S) (R : Core S → Core S → Type 0) (laws : Laws ports R) where
  inspect_outcome-To :
      (slot now : ℕ) (c : UpdateController S) → To ports R laws c (inspect_outcome ports slot now c)
  inspect_outcome-To slot now c =
      let text = codes "Cancellation requested after trial; inspecting outcome" in
      let noted = note_error-To ports R laws slot text now c in
      let checked = prepare_check-Does ports R laws slot now (note_error slot text now c) in
      chosen-To ports R laws (armed c slot) (record { by = laws.trans noted.by checked.does })
        (quiet ports R laws c)

  close_own-Does :
      {c : UpdateController S} (id slot now : ℕ) (r : UpdateController S × Bool)
      → Does ports R laws c r
      → Does ports R laws c (close_own ports id slot now r)
  close_own-Does id slot now (d, saved) p =
      let closed =
        chosen-To ports R laws (id == d.active_job_id)
          (close-To ports R laws now (if armed d slot then poll_interval else 0) d)
          (quiet ports R laws d) in
      record { does = laws.trans p.does closed.by }

  cancelled_at-Does :
      (id slot now : ℕ) (c : UpdateController S)
      → Does ports R laws c (cancelled_at ports id slot now c)
  unfolding cancelled_at
  cancelled_at-Does id slot now c =
      let inspected = inspect_outcome ports slot now c in
      close_own-Does id slot now (checkpoint ports inspected) (record {
        does =
            laws.trans (inspect_outcome-To slot now c).by
              (checkpoint-Does ports R laws inspected).does;
      })

  pub cancel-To :
      (id now : ℕ) (c : UpdateController S) → To ports R laws c (cancel ports id now c).0
  unfolding cancel apply
  cancel-To id now c = elim (Option-cases (find c.queue id)) [
    | inl e ↦ record { by = ground (arith, laws.same (core c)) }
    | inr (slot, e) ↦
        let done =
          and_then-Does ports R laws (on_job slot (apply Op.cancel now) c)
            (cancelled_at ports id slot now) (policy-Does ports R laws slot Op.cancel now c)
            (cancelled_at-Does id slot now) in
        record { by = ground (arith, laws.same (core c), done.does) }
  ]

  retried-Does :
      (id slot now : ℕ) (c : UpdateController S) → Does ports R laws c (retried ports id slot now c)
  retried-Does id slot now c = elim (Option-cases (job_at c slot)) [
    | inl e ↦ record { does = ground (arith, laws.same (core c)) }
    | inr (job, e) ↦ record {
      does = ground (arith, (checkpoint-Does ports R laws (retimed id job now c)).does);
    }
  ]

  retry_at-Does :
      (id slot now : ℕ) (c : UpdateController S)
      → Does ports R laws c (retry_at ports id slot now c)
  unfolding apply
  retry_at-Does id slot now c =
      and_then-Does ports R laws (on_job slot (apply Op.retry now) c) (retried ports id slot now)
        (policy-Does ports R laws slot Op.retry now c) (retried-Does id slot now)

  pub retry-To : (id now : ℕ) (c : UpdateController S) → To ports R laws c (retry ports id now c).0
  unfolding retry
  retry-To id now c = elim (Option-cases (find c.queue id)) [
    | inl e ↦ record { by = ground (arith, laws.same (core c)) }
    | inr (slot, e) ↦ elim (Option-cases (job_at c slot)) [
      | inl e' ↦ record { by = ground (arith, laws.same (core c)) }
      | inr (job, e') ↦ record {
        by = ground (arith, laws.same (core c), (retry_at-Does id slot now c).does);
      }
    ]
  ]

  admitted-To :
      {c : UpdateController S} (id : ℕ) (r : UpdateController S × Bool)
      → Does ports R laws c r
      → To ports R laws c (admitted id r).0
  admitted-To id (d, true) p = record { by = p.does }
  admitted-To id (d, false) p = record { by = p.does }

  store-To :
      (c : UpdateController S) (q : UpdateQueue) (slot : Option ℕ)
      → R (core c) (record (core c) { queue = q })
      → To ports R laws c (store ports c q slot).0
  store-To c q none p = quiet ports R laws c
  store-To c q (some slot) p = elim (Option-cases (job_at (enqueued c q) slot)) [
    | inl e ↦ record { by = ground (arith, laws.same (core c)) }
    | inr (job, e) ↦
        let fresh = fresh_slot (index (enqueued c q) job.id) q c in
        let saved =
          admitted-To {c = c} job.id (checkpoint ports fresh)
            (record { does = laws.trans p (checkpoint-Does ports R laws fresh).does }) in
        record { by = ground (arith, saved.by) }
  ]

  queue_release-To :
      (tag : ℕ) (a : UpdateAssociation) (release : UpdateRelease) (now : ℕ) (c : UpdateController S)
      → a.target.tag ≡ tag
      → To ports R laws c (queue_release ports tag a release now c).0
  unfolding queue_release
  queue_release-To tag a release now c e = elim (Bool-cases (has_live_tag tag c.queue.jobs)) [
    | inl live ↦ record { by = ground (arith, laws.same (core c)) }
    | inr idle ↦
        let enqueues = laws.enqueueing (core c) a.target release now (rw e idle) in
        let stored =
          store-To c (enqueue c.queue a.target release now).0
            (enqueue c.queue a.target release now).1 enqueues in
        record { by = ground (arith, stored.by) }
  ]

  association_of-tag :
      (tag : ℕ) (associations : List UpdateAssociation) (a : UpdateAssociation)
      → association_of tag associations ≡ some a
      → a.target.tag ≡ tag
  unfolding association_of
  association_of-tag tag [] a h = absurd (ground arith)
  association_of-tag tag (b ∷ rest) a h = elim (Bool-cases (b.target.tag == tag)) [
    | inl e ↦ ground arith
    | inr e ↦ association_of-tag tag rest a (ground arith)
  ]

  pub queue-To :
      (tag now : ℕ) (c : UpdateController S) → To ports R laws c (queue ports tag now c).0
  unfolding queue
  queue-To tag now c = elim (Option-cases (association_of tag c.associations)) [
    | inl e ↦ record { by = ground (arith, laws.same (core c)) }
    | inr (a, e) ↦ elim (Option-cases (ports.staged c.storage)) [
      | inl e' ↦ record { by = ground (arith, laws.same (core c)) }
      | inr (release, e') ↦
          let stored =
            queue_release-To tag a release now c (association_of-tag tag c.associations a e) in
          record { by = ground (arith, laws.same (core c), stored.by) }
    ]
  ]
