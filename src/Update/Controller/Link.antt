-- ===== src/Update/Controller/Link.antt =====
-- The controller's use of its storage and of its transport: `checkpoint`, `submit`, `close` and
-- `finish_close` of firmware/anchor/src/core/update_controller.cpp.
use bin_range.Base.{
  ℕ, ◌+◌, ◌-◌, ◌%◌, Bool, true, false, not, ◌&&◌, ◌||◌, Option, none, some, List, [], ◌∷◌, ltb, leb,
  ◌==◌, if◌then◌else◌, take, drop, set, get_or, codes, u32,
}
use bin_range.Update.Job.{UpdateJob}
use bin_range.Update.Queue.{u32_max, same_target, update_export_state}
use bin_range.Update.Snapshot.{UpdateAssociation, UpdateSnapshot, SavedJob}
use bin_range.Update.Smp.{
  SmpCommand, SmpUpload, tag_status, upload, config_write, same_command, smp_encode_request,
  smp_encode_config,
}
use bin_range.Update.Controller.{
  Ports, UpdateController, UpdateTransportCommand, CommandKind, connect, security, exchange,
  disconnect, Await, await_none, await_connected, await_secured, await_reply, await_disconnected,
  awaits, association_of, pairing_active, motion_running, owned, active_slot, job_at, later,
  connect_deadline, request_deadline, max_associations, no_settings,
}

abbrev pub is_disconnect : CommandKind → Bool
is_disconnect connect = false
is_disconnect security = false
is_disconnect exchange = false
is_disconnect disconnect = true

-- What is awaited after a command.
abbrev pub awaited : CommandKind → Await
awaited connect = await_connected
awaited security = await_secured
awaited exchange = await_reply
awaited disconnect = await_disconnected

-- The deadline that a command sets.
abbrev deadline_after : CommandKind → ℕ → ℕ → ℕ
deadline_after connect old now = later now connect_deadline
deadline_after security old now = later now request_deadline
deadline_after exchange old now = later now request_deadline
deadline_after disconnect old now = old

-- The jobs of the scratch snapshot: each keeps the wall time saved in its place if that was its own.
unfoldable pub saved_jobs : List SavedJob → List UpdateJob → List SavedJob
saved_jobs saved [] = []
saved_jobs [] (job ∷ jobs) =
    record { state = update_export_state job; last_wall_seconds = 0 } ∷ saved_jobs [] jobs
saved_jobs (s ∷ saved) (job ∷ jobs) =
    record {
      state = update_export_state job;
      last_wall_seconds = if not (s.state.id == job.id) then 0 else s.last_wall_seconds;
    }
    ∷ saved_jobs saved jobs

abbrev chunk : UpdateJob → ℕ
chunk job = let left = job.release.size - job.acknowledged in if ltb 256 left then 256 else left

abbrev next_upload : UpdateJob → List ℕ → SmpUpload
next_upload job bytes = record {
  offset = job.acknowledged;
  total = job.release.size;
  file_sha = if job.acknowledged == 0 then some job.release.file_sha else none;
  bytes = some (drop job.acknowledged bytes);
  size = chunk job;
}

module _ {S : Type 0} where
  -- `snprintf` into 80 bytes.
  unfoldable pub disable : List ℕ → UpdateController S → UpdateController S
  disable message c = record c { disabled = true; error = take 79 message }

  -- `checkpoint_scratch_`, when it is handed to the storage.
  abbrev pub candidate : Ports S → UpdateController S → UpdateSnapshot
  candidate ports c = record {
    restart_count = (ports.saved c.storage).restart_count;
    associations = c.associations;
    jobs = saved_jobs (ports.saved c.storage).jobs c.queue.jobs;
  }

  unfoldable pub checkpoint : Ports S → UpdateController S → UpdateController S × Bool
  unfolding disable
  checkpoint ports c =
      if not c.has_storage || c.disabled
      then (c, false)
      else (let (storage, done) = ports.saves c.storage (candidate ports c) in
          let saved = record c { storage = storage } in
          if done
          then (saved, true)
          else (disable (codes "Checkpoint failed; updater disabled until restart") saved, false))

  -- The association that a command goes to, if it is that of the active job.
  unfoldable pub addressee : UpdateController S → Option UpdateAssociation
  addressee c = elim (active_slot c) [
    | some slot ↦ elim (job_at c slot) [
      | none ↦ none
      | some job ↦ elim (association_of job.target.tag c.associations) [
        | none ↦ none
        | some a ↦ if not (same_target job.target a.target) then none else some a
      ]
    ]
    | none ↦
        if pairing_active c
        then some c.pairing.association
        else if motion_running c
        then association_of (get_or c.motion.settings c.motion.active no_settings).tag
            c.associations
        else none
  ]

  -- The image is borrowed for the first chunk of a session, and kept.
  unfoldable pub borrow : Ports S → UpdateJob → UpdateController S → UpdateController S × Bool
  borrow ports job c =
      if c.stage_borrowed
      then (c, true)
      else (let (storage, lent) = ports.acquires c.storage job.release in
          elim lent [
            | none ↦ (record c { storage = storage }, false)
            | some bytes ↦ (
              record c { storage = storage; stage_bytes = some bytes; stage_borrowed = true },
              true,
            )
          ])

  -- The next chunk of the active job; a call for an upload has one. The job's offset is not past the
  -- size of its release, so the difference does not wrap.
  unfoldable pub next_chunk : Ports S → UpdateController S → UpdateController S × Option SmpUpload
  unfolding borrow
  next_chunk ports c = elim (active_slot c) [
    | none ↦ (c, none)
    | some slot ↦ elim (job_at c slot) [
      | none ↦ (c, none)
      | some job ↦
          let (c', lent) = borrow ports job c in
          elim (if lent then c'.stage_bytes else none) [
            | none ↦ (c', none)
            | some bytes ↦ if leb job.release.size job.acknowledged then (c', none) else (
              record c' { sent_offset = job.acknowledged; sent_end = job.acknowledged + chunk job },
              some (next_upload job bytes),
            )
          ]
    ]
  ]

  -- The frame of an exchange, in the next sequence number, an `uint8_t`.
  abbrev pub encode_frame :
      SmpCommand → Option SmpUpload → UpdateController S → UpdateController S × Option (List ℕ)
  encode_frame smp payload c = (
    record c { sequence = (c.sequence + 1) % 256 },
    if same_command smp config_write
        then smp_encode_config c.sequence c.motion.target 512
        else smp_encode_request smp c.sequence payload 512,
  )

  abbrev pub with_chunk :
      UpdateController S × Option SmpUpload → UpdateController S × Option (List ℕ)
  with_chunk (c, none) = (c, none)
  with_chunk (c, some payload) = encode_frame upload (some payload) c

  -- What `submit` puts into the frame; `none` when it returns false there.
  unfoldable pub make_frame :
      Ports S → CommandKind → SmpCommand → UpdateController S → UpdateController S × Option (List ℕ)
  unfolding next_chunk
  make_frame ports connect smp c = (c, some [])
  make_frame ports security smp c = (c, some [])
  make_frame ports disconnect smp c = (c, some [])
  make_frame ports exchange smp c =
      if same_command smp upload then with_chunk (next_chunk ports c) else encode_frame smp none c

  -- This command carries the PIN.
  abbrev pub carries_pin : CommandKind → UpdateController S → Bool
  carries_pin connect c = false
  carries_pin security c = pairing_active c
  carries_pin exchange c = false
  carries_pin disconnect c = false

  abbrev pub command_of :
      CommandKind
      → SmpCommand
      → UpdateAssociation
      → List ℕ
      → UpdateController S
      → UpdateTransportCommand
  command_of kind smp association frame c = record {
    kind = kind;
    operation = c.operation;
    session = c.session;
    association = association;
    smp = smp;
    frame = frame;
    commissioning = carries_pin kind c;
    passkey = if carries_pin kind c then c.pairing.pin else 0;
  }

  -- `transport_->submit(command)`, with the PIN erased.
  abbrev pub deliver :
      CommandKind → UpdateTransportCommand → UpdateController S → UpdateController S
  deliver kind command c = record c {
    log = command ∷ c.log;
    pairing = if carries_pin kind c then record (c.pairing) { pin = 0 } else c.pairing;
  }

  -- From the finished frame on.
  unfoldable pub dispatch :
      Ports S
      → CommandKind
      → SmpCommand
      → UpdateAssociation
      → ℕ
      → UpdateController S × Option (List ℕ)
      → UpdateController S × Bool
  dispatch ports kind smp association now (c, none) = (c, false)
  dispatch ports kind smp association now (c, some frame) =
      let command = command_of kind smp association frame c in
      let sent = deliver kind command c in
      if not (ports.accepts c.log command) then (sent, false) else (
        record sent {
          pending_smp = smp;
          await = awaited kind;
          deadline = deadline_after kind c.deadline now;
        },
        true,
      )

  -- The last ID is kept for a disconnect.
  abbrev pub unusable : CommandKind → UpdateController S → Bool
  unusable kind c =
      not (is_disconnect kind) && c.disabled
      || c.operation == u32_max
      || not (is_disconnect kind) && c.operation == u32_max - 1

  unfoldable pub submit :
      Ports S → CommandKind → SmpCommand → ℕ → UpdateController S → UpdateController S × Bool
  unfolding disable addressee make_frame dispatch
  submit ports kind smp now c =
      if unusable kind c
      then (disable (codes "Transport operation IDs exhausted; restart required") c, false)
      else elim (addressee c) [
        | none ↦ (c, false)
        | some association ↦
            dispatch ports kind smp association now
              (make_frame ports kind smp (record c { operation = u32 (c.operation + 1) }))
      ]

  -- What `close` sets before its command, and after.
  abbrev pub closing : ℕ → ℕ → UpdateController S → UpdateController S
  closing now delay c = record c {
    await = await_disconnected;
    deadline = later now request_deadline;
    cooldown_until =
        if ltb c.cooldown_until (later now delay) then later now delay else c.cooldown_until;
  }

  abbrev pub tried : ℕ → UpdateController S × Bool → UpdateController S
  tried now (c, submitted) = record c {
    disconnect_submitted = submitted;
    next_disconnect_try = later now 1000;
  }

  unfoldable pub close : Ports S → ℕ → ℕ → UpdateController S → UpdateController S
  unfolding submit
  close ports now delay c =
      if not (owned c) || awaits c.await await_disconnected
      then c
      else tried now (submit ports disconnect tag_status now (closing now delay c))

  -- The settings slot of a forgotten tag is given back with the session.
  unfoldable pub finish_close : Ports S → UpdateController S → UpdateController S
  finish_close ports c = record c {
    storage = if c.stage_borrowed then ports.releases c.storage else c.storage;
    stage_borrowed = false;
    stage_bytes = none;
    active_job_id = 0;
    motion = record (c.motion) {
      settings =
          if motion_running c && c.motion.forgetting
          then set c.motion.settings c.motion.active no_settings
          else c.motion.settings;
      forgetting = false;
      active = max_associations;
    };
    await = await_none;
    disconnect_submitted = false;
  }
