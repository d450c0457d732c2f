-- ===== src/Update/Queue/Enqueue.antt =====
-- `UpdateQueue::enqueue` on every branch: when it refuses, what it stores, and what it leaves alone.
use bin_range.Base.{
  ℕ, ◌≤◌, ◌≡◌, ◌≢◌, ◌⊎◌, inl, inr, true, false, refl, replicate, arith, some, none, length,
  get_elem?, Bool-cases, Option-cases,
}
use bin_range.Update.Job.{UpdateJob, UpdateTarget, UpdateRelease, update_terminal, queued}
use bin_range.Update.Queue.{
  UpdateQueue, valid_target, valid_release, enqueue, enqueue_slot, store_new, new_job,
  has_live_target,
}
use bin_range.Update.Queue.Slots.{
  Slot, get_elem?-lt, at_end, replaces, AllLive, Slot-le, get_elem?-put_self, get_elem?-put_ne,
  enqueue_slot-some, enqueue_slot-none,
}

-- Why `enqueue` refuses.
abbrev pub Refuses : UpdateQueue → UpdateTarget → UpdateRelease → Type 0
Refuses q target release =
    (valid_target target ≡ false)
    ⊎ (valid_release release ≡ false)
    ⊎ (q.id_exhausted ≡ true)
    ⊎ (has_live_target target q.jobs ≡ true)
    ⊎ ((length q.jobs ≡ 16) × AllLive q.jobs)

-- When `enqueue` stores a job, and where.
pub record Stores (q : UpdateQueue) (target : UpdateTarget) (release : UpdateRelease) (slot : ℕ)
    : Type 0 where
  pub target_ok : valid_target target ≡ true
  pub release_ok : valid_release release ≡ true
  pub not_exhausted : q.id_exhausted ≡ false
  pub no_duplicate : has_live_target target q.jobs ≡ false
  pub place : Slot q.jobs slot

pub enqueue-cases :
    (q : UpdateQueue) (target : UpdateTarget) (release : UpdateRelease) (now : ℕ)
    → length q.jobs ≤ 16
    → ((enqueue q target release now ≡ (q, none)) × Refuses q target release)
      ⊎ ((slot : ℕ) × (enqueue q target release now
            ≡ (store_new q slot (new_job q.next_id target release now), some slot))
          × Stores q target release slot)
unfolding enqueue
enqueue-cases q target release now b = elim (Bool-cases (valid_target target)) [
  | inr e ↦ inl (rw e, inl e)
  | inl vt ↦ elim (Bool-cases (valid_release release)) [
    | inr e ↦ inl (rw (vt, e), inr (inl e))
    | inl vr ↦ elim (Bool-cases q.id_exhausted) [
      | inl e ↦ inl (simp (vt, vr, e), inr (inr (inl e)))
      | inr x ↦ elim (Bool-cases (has_live_target target q.jobs)) [
        | inl e ↦ inl (simp (vt, vr, x, e), inr (inr (inr (inl e))))
        | inr d ↦ elim (Option-cases (enqueue_slot q.jobs)) [
          | inl e ↦ inl (simp (vt, vr, x, d, e), inr (inr (inr (inr (enqueue_slot-none q.jobs e)))))
          | inr (slot, e) ↦ inr (
            slot,
            simp (vt, vr, x, d, e),
            record {
              target_ok = vt;
              release_ok = vr;
              not_exhausted = x;
              no_duplicate = d;
              place = enqueue_slot-some q.jobs slot b e;
            },
          )
        ]
      ]
    ]
  ]
]

-- `enqueue` never evicts live work: a job that is not terminal stays where it is.
pub enqueue_keeps_live :
    (q : UpdateQueue) (target : UpdateTarget) (release : UpdateRelease) (now i : ℕ)
    (job : UpdateJob)
    → length q.jobs ≤ 16
    → get_elem? q.jobs i ≡ some job
    → update_terminal job.phase ≡ false
    → get_elem? (enqueue q target release now).0.jobs i ≡ some job
enqueue_keeps_live q target release now i job b h live =
    elim (enqueue-cases q target release now b) [
      | inl (e, _) ↦ rw e h
      | inr (slot, e, s) ↦ rw e (get_elem?-put_ne q.jobs slot i _ job (apart slot s.place) h)
    ]
  where
    apart : (slot : ℕ) → Slot q.jobs slot → i ≢ slot
    apart slot (at_end l e) p = absurd (omega (arith, get_elem?-lt q.jobs i h))
    apart slot (replaces o l (ended, e, t, _) _) p = ground arith

-- A job as it is when it has just been queued.
pub record Fresh (id : ℕ) (target : UpdateTarget) (release : UpdateRelease) (now : ℕ)
    (job : UpdateJob) : Type 0 where
  pub id_next : job.id ≡ id
  pub target_given : job.target ≡ target
  pub release_given : job.release ≡ release
  pub phase_queued : job.phase ≡ queued
  pub unsent : job.acknowledged ≡ 0
  pub untried : job.attempts ≡ 0
  pub changed_now : job.changed_ms ≡ now
  pub no_error : job.error ≡ replicate 80 0
  pub no_trial : job.trial_may_be_armed ≡ false

pub get_elem?-enqueue :
    (q : UpdateQueue) (target : UpdateTarget) (release : UpdateRelease) (now slot : ℕ)
    → length q.jobs ≤ 16
    → (enqueue q target release now).1 ≡ some slot
    → (get_elem? (enqueue q target release now).0.jobs slot
        ≡ some (new_job q.next_id target release now))
      × Slot q.jobs slot
get_elem?-enqueue q target release now slot b h = elim (enqueue-cases q target release now b) [
  | inl (e, _) ↦ absurd (none_ne (rw e at h))
  | inr (slot', e, s) ↦
      let same : slot' ≡ slot = ground arith in
      (
        rw e (rw same (get_elem?-put_self q.jobs slot _ (rw same at (Slot-le s.place)))),
        rw same at s.place,
      )
]
  where
    none_ne : none ≡ some slot → ⊥
    none_ne e = cc

-- A job that `enqueue` returns a slot for stands in that slot, under the next ID, for this target
-- and release, queued at this time with nothing sent, no attempt used, no error and no trial. The
-- slot is the end of a queue that is not full, or that of the terminal job of a full queue that
-- changed first.
pub enqueue_stores :
    (q : UpdateQueue) (target : UpdateTarget) (release : UpdateRelease) (now slot : ℕ)
    → length q.jobs ≤ 16
    → (enqueue q target release now).1 ≡ some slot
    → ((job : UpdateJob) × (get_elem? (enqueue q target release now).0.jobs slot ≡ some job)
        × Fresh q.next_id target release now job)
      × Slot q.jobs slot
enqueue_stores q target release now slot b h =
    let (there, place) = get_elem?-enqueue q target release now slot b h in
    let fresh : Fresh q.next_id target release now (new_job q.next_id target release now) = record {
      id_next = refl;
      target_given = refl;
      release_given = refl;
      phase_queued = refl;
      unsent = refl;
      untried = refl;
      changed_now = refl;
      no_error = refl;
      no_trial = refl;
    } in
    ((new_job q.next_id target release now, there, fresh), place)

-- When `enqueue` refuses it changes nothing, and there is a reason: the target or the release is
-- malformed, the IDs are used up, a live job has this very target, or sixteen live jobs fill the
-- queue.
pub enqueue-Refuses :
    (q : UpdateQueue) (target : UpdateTarget) (release : UpdateRelease) (now : ℕ)
    → length q.jobs ≤ 16
    → (enqueue q target release now).1 ≡ none
    → ((enqueue q target release now).0 ≡ q) × Refuses q target release
enqueue-Refuses q target release now b h = elim (enqueue-cases q target release now b) [
  | inl (e, why) ↦ (rw e, why)
  | inr (slot, e, s) ↦ absurd (some_ne (rw e at h))
]
  where
    some_ne : {slot : ℕ} → some slot ≡ none → ⊥
    some_ne e = cc
