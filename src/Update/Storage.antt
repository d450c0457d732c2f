-- ===== src/Update/Storage.antt =====
-- `UpdateStorage` of firmware/anchor/src/core/update_storage.h and update_storage.cpp. The backend is a
-- parameter, whose answers may depend on the calls made so far; the model records these calls, the
-- latest first. The queue that `begin` binds is named by a number, and a call that reads it takes it
-- as it then is. The scratch buffer `encoded_` is not state.
pub mod Staged
use bin_range.Base.{
  ℕ, zero, suc, ◌+◌, ◌-◌, Bool, true, false, not, ◌&&◌, ◌||◌, Option, none, some, List, [], ◌∷◌,
  ◌++◌, ltb, leb, ◌==◌, if◌then◌else◌, length, take, drop, get_or, replicate, map,
}
use bin_range.Update.Job.{UpdateRelease, UpdateJob, update_terminal, bytes_eq}
use bin_range.Update.Queue.{UpdateQueue, init, restore, has_zero, update_export_state, u32_max}
use bin_range.Update.Snapshot.{
  UpdateSnapshot, SavedJob, job_states, update_snapshot_encode, update_snapshot_decode,
  max_encoded_size,
}
use bin_range.Update.Image.{ImageInfo, parse_update_image, validate_release}

abbrev pub stage_capacity : ℕ
stage_capacity = 212992

pub data UpdateStorageError : Type 0 where
  no_error read decode encode write allocate hash stage : UpdateStorageError

-- A call of the backend, with what was passed.
pub data Event : Type 0 where
  size_asked blob_read allocated freed : Event
  written : List ℕ → Event

-- `UpdateStorageRead` of `snapshot_size`, with the size.
pub data SizeRead : Type 0 where
  missing failed_size : SizeRead
  size_ok : ℕ → SizeRead

-- `read_snapshot` gives the bytes, `none` unless it answers Ok. A digest is `none` on failure.
pub record UpdateStorageBackend : Type 0 where
  pub callbacks_present : Bool
  pub snapshot_size : List Event → SizeRead
  pub read_snapshot : List Event → ℕ → Option (List ℕ)
  pub write_snapshot : List Event → List ℕ → Bool
  pub can_allocate : Bool
  pub allocate_external : List Event → Bool
  pub allocation_size : List Event → ℕ
  pub is_external : List Event → Bool
  pub can_hash : Bool
  pub sha256 : List ℕ → Option (List ℕ)

pub record UpdateStorage : Type 0 where
  pub queue : Option ℕ
  pub snapshot : UpdateSnapshot
  pub stage_bytes : Option (List ℕ)
  pub capacity : ℕ
  pub received : ℕ
  pub receiving : UpdateRelease
  pub staged : UpdateRelease
  pub ready : Bool
  pub receiving_active : Bool
  pub staged_valid : Bool
  pub borrowed : Bool
  pub storage_error : UpdateStorageError
  pub staging_error : UpdateStorageError
  pub log : List Event

abbrev pub no_snapshot : UpdateSnapshot
no_snapshot = record { restart_count = 0; associations = []; jobs = [] }

abbrev pub no_release : UpdateRelease
no_release = record {
  size = 0;
  file_sha = replicate 32 0;
  image_hash = replicate 32 0;
  version = replicate 24 0;
}

abbrev pub new_storage : UpdateStorage
new_storage = record {
  queue = none;
  snapshot = no_snapshot;
  stage_bytes = none;
  capacity = 0;
  received = 0;
  receiving = no_release;
  staged = no_release;
  ready = false;
  receiving_active = false;
  staged_valid = false;
  borrowed = false;
  storage_error = no_error;
  staging_error = no_error;
  log = [];
}

-- The jobs as restored, each with its wall time.
unfoldable pub rejoin : List SavedJob → List UpdateJob → List SavedJob
rejoin [] jobs = []
rejoin (s ∷ saved) [] = s ∷ saved
rejoin (s ∷ saved) (job ∷ jobs) = record s { state = update_export_state job } ∷ rejoin saved jobs

unfoldable pub same_release : UpdateRelease → UpdateRelease → Bool
same_release left right =
    left.size == right.size
    && bytes_eq left.file_sha right.file_sha
    && bytes_eq left.image_hash right.image_hash
    && bytes_eq left.version right.version

unfoldable pub release_in_use : UpdateRelease → List UpdateJob → Bool
release_in_use release [] = false
release_in_use release (job ∷ jobs) =
    not (update_terminal job.phase) && bytes_eq job.release.file_sha release.file_sha
    || release_in_use release jobs

abbrev pub is_null : Option (List ℕ) → Bool
is_null none = true
is_null (some bytes) = false

abbrev pub buffer : UpdateStorage → List ℕ
buffer s = elim s.stage_bytes [ none ↦ [] | some bytes ↦ bytes ]

-- `memcpy(stage_bytes_ + at, bytes, size)`.
abbrev pub write_at : List ℕ → ℕ → List ℕ → List ℕ
write_at into at bytes = take at into ++ bytes ++ drop (at + length bytes) into

abbrev pub stage_failed : UpdateStorageError → UpdateStorage → UpdateStorage
stage_failed error s = record s {
  receiving_active = false;
  staged_valid = false;
  received = 0;
  staging_error = error;
}

unfoldable pub stage_begin : UpdateStorage → UpdateQueue → UpdateRelease → UpdateStorage × Bool
stage_begin s queue release =
    if not s.ready
      || is_null s.stage_bytes
      || s.capacity == 0
      || s.receiving_active
      || s.borrowed
      || ltb release.size 32
      || ltb s.capacity release.size
      || get_or release.version 0 0 == 0
      || not (has_zero 24 release.version)
      || s.staged_valid && release_in_use s.staged queue.jobs
    then (record s { staging_error = stage }, false)
    else (
      record s {
        staged_valid = false;
        receiving = release;
        received = 0;
        receiving_active = true;
        staging_error = no_error;
      },
      true,
    )

-- The bytes are those that `bytes` and `size` name. What was received never exceeds the size that
-- `stage_begin` set, so the difference does not wrap.
unfoldable pub stage_write : UpdateStorage → List ℕ → UpdateStorage × Bool
stage_write s bytes =
    if not s.receiving_active || s.borrowed || ltb (s.receiving.size - s.received) (length bytes)
    then (stage_failed stage s, false)
    else (
      record s {
        stage_bytes = some (write_at (buffer s) s.received bytes);
        received = s.received + length bytes;
      },
      true,
    )

unfoldable pub stage_abort : UpdateStorage → UpdateStorage × Bool
stage_abort s =
    if s.borrowed
    then (record s { staging_error = stage }, false)
    else (stage_failed no_error s, true)

abbrev pub staged_release : UpdateStorage → Option UpdateRelease
staged_release s = if s.staged_valid then some s.staged else none

-- The bytes that are lent, `none` on refusal.
unfoldable pub acquire : UpdateStorage → UpdateRelease → UpdateStorage × Option (List ℕ)
acquire s release =
    if not s.ready || not s.staged_valid || s.borrowed || not (same_release release s.staged)
    then (s, none)
    else (record s { borrowed = true }, some (buffer s))

unfoldable pub release : UpdateStorage → UpdateStorage
release s = record s { borrowed = false }

module _ (backend : UpdateStorageBackend) where
  -- The checks of `stage_finish` on the bytes received.
  unfoldable pub verified : List ℕ → UpdateRelease → Bool
  verified bytes receiving = elim (parse_update_image (some bytes)) [
    | none ↦ false
    | some image ↦ leb image.signed_region_size (length bytes) && (elim (backend.sha256 bytes) [
      | none ↦ false
      | some file_sha ↦ elim (backend.sha256 (take image.signed_region_size bytes)) [
        | none ↦ false
        | some image_sha ↦ validate_release image (length bytes) file_sha image_sha receiving
      ]
    ])
  ]

  unfoldable pub stage_finish : UpdateStorage → UpdateStorage × Bool
  stage_finish s =
      if not s.receiving_active
        || s.borrowed
        || not (s.received == s.receiving.size)
        || not backend.can_hash
      then (stage_failed stage s, false)
      else if not (verified (take s.received (buffer s)) s.receiving)
      then (stage_failed hash s, false)
      else (
        record s {
          receiving_active = false;
          received = 0;
          staged = s.receiving;
          staged_valid = true;
          staging_error = no_error;
        },
        true,
      )

  -- `persist`.
  unfoldable pub persist : UpdateStorage → UpdateSnapshot → UpdateStorage × Bool
  persist s candidate = elim (update_snapshot_encode candidate (some max_encoded_size)) [
    | none ↦ (record s { storage_error = encode }, false)
    | some bytes ↦
        if not (backend.write_snapshot s.log bytes)
        then (record s { storage_error = write; log = written bytes ∷ s.log }, false)
        else (
          record s { snapshot = candidate; storage_error = no_error; log = written bytes ∷ s.log },
          true,
        )
  ]

  unfoldable pub checkpoint : UpdateStorage → UpdateSnapshot → UpdateStorage × Bool
  checkpoint s candidate =
      if not s.ready
      then (s, false)
      else elim (update_snapshot_encode candidate (some max_encoded_size)) [
        | none ↦ (record s { storage_error = encode }, false)
        | some bytes ↦
            if not (backend.write_snapshot s.log bytes)
            then (
              record s { storage_error = write; ready = false; log = written bytes ∷ s.log },
              false,
            )
            else (
              record s {
                snapshot = candidate;
                storage_error = no_error;
                log = written bytes ∷ s.log;
              },
              true,
            )
      ]

  -- The stage buffer, asked for once the queue is restored. Its first contents are unknown; they are
  -- zero here, and no byte of it is read before it is written.
  unfoldable pub allocate_stage : UpdateStorage → UpdateStorage
  allocate_stage s =
      let asked = allocated ∷ s.log in
      if not backend.can_allocate
      then record s { staging_error = allocate }
      else if not (backend.allocate_external s.log)
      then record s { staging_error = allocate; log = asked }
      else if leb stage_capacity (backend.allocation_size asked) && backend.is_external asked
      then record s {
        stage_bytes = some (replicate (backend.allocation_size asked) 0);
        capacity = stage_capacity;
        log = asked;
      }
      else record s { staging_error = allocate; log = freed ∷ asked }

  -- `begin`, from the snapshot that was read on.
  unfoldable pub recover :
      UpdateStorage → ℕ → UpdateQueue → ℕ → UpdateSnapshot → UpdateStorage × UpdateQueue × Bool
  recover s id queue now recovery =
      let (restored, accepted) =
        restore (init 1) (some (job_states recovery.jobs)) (length recovery.jobs) now in
      let counted : UpdateSnapshot = record {
        restart_count =
            if recovery.restart_count == u32_max then u32_max else recovery.restart_count + 1;
        associations = recovery.associations;
        jobs = rejoin recovery.jobs restored.jobs;
      } in
      let (saved, persisted) = persist s counted in
      let (queue', taken) =
        restore queue (some (job_states counted.jobs)) (length counted.jobs) now in
      if not accepted
      then (record s { storage_error = decode }, queue, false)
      else if not persisted
      then (saved, queue, false)
      else if not taken
      then (saved, queue', false)
      else (allocate_stage (record saved { queue = some id; ready = true }), queue', true)

  abbrev pub same_queue : Option ℕ → ℕ → Bool
  same_queue none id = false
  same_queue (some bound) id = bound == id

  unfoldable pub begin : UpdateStorage → ℕ → UpdateQueue → ℕ → UpdateStorage × UpdateQueue × Bool
  begin s id queue now =
      let asked = record s { log = size_asked ∷ s.log } in
      if s.ready
      then (s, queue, same_queue s.queue id)
      else if not backend.callbacks_present
      then (record s { storage_error = read }, queue, false)
      else elim (backend.snapshot_size s.log) [
        | failed_size ↦ (record asked { storage_error = read }, queue, false)
        | missing ↦ recover asked id queue now no_snapshot
        | size_ok size ↦
            if size == 0 || ltb max_encoded_size size
            then (record asked { storage_error = read }, queue, false)
            else (let loaded = record asked { log = blob_read ∷ asked.log } in
                elim (backend.read_snapshot asked.log size) [
                  | none ↦ (record loaded { storage_error = decode }, queue, false)
                  | some bytes ↦ elim (update_snapshot_decode (some bytes)) [
                    | none ↦ (record loaded { storage_error = decode }, queue, false)
                    | some recovery ↦ recover loaded id queue now recovery
                  ]
                ])
      ]
