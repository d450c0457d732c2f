-- ===== src/Update/Controller/Requests.antt =====
-- What the operator asks of the controller: `begin`, `queue`, `cancel`, `retry` and `snapshot` of
-- firmware/anchor/src/core/update_controller.cpp.
use bin_range.Base.{
  ℕ, Bool, true, false, not, ◌&&◌, ◌||◌, Option, none, some, List, [], ◌∷◌, ltb, ◌==◌,
  if◌then◌else◌, length, set, codes, map, take,
}
use bin_range.Update.Job.{
  UpdateRelease, UpdateJob, checking, same_phase, update_cancel, update_retry,
}
use bin_range.Update.Queue.{
  UpdateQueue, UpdateJobState, u16_max, enqueue, find, update_export_state,
}
use bin_range.Update.Queue.Admission.{has_live_tag}
use bin_range.Update.Snapshot.{UpdateAssociation}
use bin_range.Update.Storage.{same_release}
use bin_range.Update.Controller.{
  Ports, UpdateController, UpdateQueueResult, result_accepted, result_conflict, result_invalid,
  result_capacity, result_needs_action, result_error, Observation, no_observation, MotionSettings,
  UpdatePairingPhase, await_disconnected, awaits, association_of, pairing_active, job_at, index,
  later, confirmation_deadline, poll_interval,
}
use bin_range.Update.Controller.Link.{disable, checkpoint, close}
use bin_range.Update.Controller.Jobs.{on_job, note_error, prepare_check, set_until, and_then}

-- The loop of `begin`: each job that is inspected gets its deadline.
unfoldable pub confirm_by : ℕ → List UpdateJob → List ℕ → List ℕ
confirm_by limit [] until = until
confirm_by limit (job ∷ jobs) [] = []
confirm_by limit (job ∷ jobs) (t ∷ until) =
    (if same_phase job.phase checking then limit else t) ∷ confirm_by limit jobs until

-- `UpdateControllerSnapshot`; the counts are the lengths.
pub record UpdateControllerSnapshot : Type 0 where
  pub associations : List UpdateAssociation
  pub jobs : List UpdateJobState
  pub active_job_id : ℕ
  pub staging_capacity : ℕ
  pub staging_available : Bool
  pub disabled : Bool
  pub disconnecting : Bool
  pub motion : List MotionSettings
  pub error : List ℕ
  pub pairing_phase : UpdatePairingPhase
  pub pairing_association : UpdateAssociation
  pub pairing_error : List ℕ
  pub pairing_changed_ms : ℕ
  pub changed_ms : List ℕ
  pub observed : List Observation

abbrev is_some {ℓ} : {A : Type ℓ} → Option A → Bool
is_some none = false
is_some (some a) = true

module _ {S : Type 0} where
  abbrev pub adopt_saved : Ports S → ℕ → UpdateController S → UpdateController S × Bool
  adopt_saved ports now c =
      let saved = ports.saved c.storage in
      if ltb 16 (length saved.associations)
      then (disable (codes "Invalid saved associations") c, false)
      else (
        record c {
          associations = saved.associations;
          checking_until =
              confirm_by (later now confirmation_deadline) c.queue.jobs c.checking_until;
          ready = true;
        },
        true,
      )

  unfoldable pub begin : Ports S → ℕ → UpdateController S → UpdateController S × Bool
  unfolding disable confirm_by
  begin ports now c =
      let (storage, queue, done) = ports.begins c.storage c.queue now in
      let begun = record c { begun = true } in
      let loaded = record begun { storage = storage; queue = queue } in
      if c.begun
      then (c, false)
      else if not c.has_storage || not c.has_transport
      then (disable (codes "Update storage/transport unavailable") begun, false)
      else if not done
      then (disable (codes "Update storage/transport unavailable") loaded, false)
      else adopt_saved ports now loaded

  -- The new job is stored; its slot's observation and deadline are those of the job before.
  abbrev pub fresh_slot : ℕ → UpdateQueue → UpdateController S → UpdateController S
  fresh_slot slot q c = record c {
    queue = q;
    observed = set c.observed slot no_observation;
    checking_until = set c.checking_until slot 0;
  }

  abbrev pub admitted : ℕ → UpdateController S × Bool → UpdateController S × ℕ × UpdateQueueResult
  admitted id (c, true) = (c, id, result_accepted)
  admitted id (c, false) = (c, 0, result_error)

  abbrev pub enqueued : UpdateController S → UpdateQueue → UpdateController S
  enqueued c q = record c { queue = q }

  abbrev pub store :
      Ports S
      → UpdateController S
      → UpdateQueue
      → Option ℕ
      → UpdateController S × ℕ × UpdateQueueResult
  store ports c q none = (c, 0, result_capacity)
  store ports c q (some slot) = elim (job_at (enqueued c q) slot) [
    | none ↦ (c, 0, result_capacity)
    | some job ↦ admitted job.id (checkpoint ports (fresh_slot (index (enqueued c q) job.id) q c))
  ]

  -- The part of `queue` that has an association and the staged release.
  unfoldable pub queue_release :
      Ports S
      → ℕ
      → UpdateAssociation
      → UpdateRelease
      → ℕ
      → UpdateController S
      → UpdateController S × ℕ × UpdateQueueResult
  unfolding has_live_tag enqueue index checkpoint
  queue_release ports tag a release now c =
      if has_live_tag tag c.queue.jobs
      then (c, 0, result_conflict)
      else (let (q, slot) = enqueue c.queue a.target release now in store ports c q slot)

  -- With what is written to `job_id`.
  unfoldable pub queue :
      Ports S → ℕ → ℕ → UpdateController S → UpdateController S × ℕ × UpdateQueueResult
  unfolding association_of queue_release
  queue ports tag now c =
      if c.disabled
      then (c, 0, result_error)
      else if awaits c.await await_disconnected || pairing_active c
      then (c, 0, result_conflict)
      else if tag == 0 || tag == u16_max
      then (c, 0, result_invalid)
      else elim (association_of tag c.associations) [
        | none ↦ (c, 0, result_needs_action)
        | some a ↦
            if not c.ready then (c, 0, result_needs_action) else elim (ports.staged c.storage) [
              | none ↦ (c, 0, result_invalid)
              | some release ↦ queue_release ports tag a release now c
            ]
      ]

  abbrev pub armed : UpdateController S → ℕ → Bool
  armed c slot = elim (job_at c slot) [ none ↦ false | some job ↦ job.trial_may_be_armed ]

  abbrev pub inspect_outcome : Ports S → ℕ → ℕ → UpdateController S → UpdateController S
  inspect_outcome ports slot now c =
      if armed c slot
      then (prepare_check ports slot now (
          note_error slot (codes "Cancellation requested after trial; inspecting outcome") now c)).0
      else c

  abbrev pub close_own : Ports S → ℕ → ℕ → ℕ → UpdateController S × Bool → UpdateController S × Bool
  close_own ports id slot now (c, saved) = (
    if id == c.active_job_id
        then close ports now (if armed c slot then poll_interval else 0) c
        else c,
    saved,
  )

  -- After the policy granted the cancellation.
  unfoldable pub cancelled_at : Ports S → ℕ → ℕ → ℕ → UpdateController S → UpdateController S × Bool
  unfolding prepare_check checkpoint close
  cancelled_at ports id slot now c =
      close_own ports id slot now (checkpoint ports (inspect_outcome ports slot now c))

  unfoldable pub cancel : Ports S → ℕ → ℕ → UpdateController S → UpdateController S × Bool
  unfolding on_job cancelled_at
  cancel ports id now c = if not c.ready || c.disabled then (c, false) else elim (find c.queue id) [
    | none ↦ (c, false)
    | some slot ↦
        and_then (on_job slot (λ job. update_cancel job now) c) (cancelled_at ports id slot now)
  ]

  -- A job without a trial needs its release again.
  abbrev pub may_retry : Ports S → UpdateController S → UpdateJob → Bool
  may_retry ports c job = job.trial_may_be_armed || (elim (ports.staged c.storage) [
    | none ↦ false
    | some staged ↦ same_release job.release staged
  ])

  abbrev pub retimed : ℕ → UpdateJob → ℕ → UpdateController S → UpdateController S
  retimed id job now c =
      set_until (index c id)
        (if same_phase job.phase checking then later now confirmation_deadline else 0) c

  abbrev pub retried : Ports S → ℕ → ℕ → ℕ → UpdateController S → UpdateController S × Bool
  retried ports id slot now c = elim (job_at c slot) [
    | none ↦ (c, false)
    | some job ↦ checkpoint ports (retimed id job now c)
  ]

  abbrev pub retry_at : Ports S → ℕ → ℕ → ℕ → UpdateController S → UpdateController S × Bool
  retry_at ports id slot now c =
      and_then (on_job slot (λ job. update_retry job now) c) (retried ports id slot now)

  unfoldable pub retry : Ports S → ℕ → ℕ → UpdateController S → UpdateController S × Bool
  unfolding find same_release on_job index checkpoint
  retry ports id now c =
      if not c.ready || c.disabled || c.active_job_id == id
      then (c, false)
      else elim (find c.queue id) [
        | none ↦ (c, false)
        | some slot ↦ elim (job_at c slot) [
          | none ↦ (c, false)
          | some job ↦
              if not (may_retry ports c job) then (c, false) else retry_at ports id slot now c
        ]
      ]

  -- The bytes of a snapshot that was not begun are all as described; the answer is `ready_`.
  unfoldable pub snapshot : Ports S → UpdateController S → UpdateControllerSnapshot × Bool
  snapshot ports c = (
    record {
      associations = c.associations;
      jobs = map update_export_state c.queue.jobs;
      active_job_id = c.active_job_id;
      staging_capacity = if c.has_storage then ports.capacity c.storage else 0;
      staging_available = c.has_storage && is_some (ports.staged c.storage);
      disabled = c.disabled;
      disconnecting = awaits c.await await_disconnected;
      motion = c.motion.settings;
      error = c.error;
      pairing_phase = c.pairing.phase;
      pairing_association = c.pairing.association;
      pairing_error = c.pairing.error;
      pairing_changed_ms = c.pairing.changed_ms;
      changed_ms = map UpdateJob.changed_ms c.queue.jobs;
      observed = take (length c.queue.jobs) c.observed;
    },
    c.ready,
  )
