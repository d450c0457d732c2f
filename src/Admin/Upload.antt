-- ===== src/Admin/Upload.antt =====
-- `AdminUploadSession` of firmware/anchor/src/core/admin_policy.h and admin_policy.cpp. The
-- interface `AdminUploadIo` is a parameter: its answers may depend on the calls made so far, which
-- the model records, the latest first.
pub mod Session
use bin_range.Base.{
  ℕ, ◌+◌, ◌-◌, Bool, true, false, not, List, [], ◌∷◌, ◌&&◌, ◌||◌, ◌==◌, ltb, if◌then◌else◌, some,
  none, Option, length,
}
use bin_range.Admin.Gate.{elapsed}

-- A call of the interface, with its answer.
pub data Event : Type 0 where
  suspend begin finish : Bool → Event
  write : ℕ → Bool → Event
  resume abort : Event

-- What the interface answers to the next call.
pub record AdminUploadIo : Type 0 where
  pub suspend_ok : List Event → Bool
  pub begin_ok : List Event → Bool
  pub write_ok : List Event → List ℕ → Bool
  pub finish_ok : List Event → Bool

abbrev pub upload_idle_ms : ℕ
upload_idle_ms = 30000

-- `SIZE_MAX` of the anchor's 32-bit processor.
abbrev pub size_max : ℕ
size_max = 0xffff_ffff

pub record AdminUploadSession : Type 0 where
  pub active : Bool
  pub suspended : Bool
  pub file_ended : Bool
  pub failed : Bool
  pub finalized : Bool
  pub bytes : ℕ
  pub last_activity : ℕ
  pub log : List Event

abbrev pub new_session : AdminUploadSession
new_session = record {
  active = false;
  suspended = false;
  file_ended = false;
  failed = false;
  finalized = false;
  bytes = 0;
  last_activity = 0;
  log = [];
}

unfoldable pub fail : AdminUploadSession → AdminUploadSession
fail s = if s.failed then s else record s {
  suspended = false;
  active = false;
  file_ended = false;
  failed = true;
  log = if s.suspended then resume ∷ abort ∷ s.log else s.log;
}

-- The session after the check, and whether it is alive.
unfoldable pub alive : AdminUploadSession → ℕ → AdminUploadSession × Bool
unfolding fail elapsed
alive s now =
    let s' = if s.active && elapsed now s.last_activity upload_idle_ms then fail s else s in
    (s', s'.active && not s'.failed)

module _ (io : AdminUploadIo) where
  unfoldable pub start : AdminUploadSession → Bool → ℕ → AdminUploadSession × Bool
  unfolding fail
  start s authorized now =
      let suspended = record s { suspended = true; log = suspend true ∷ s.log } in
      let begun = record suspended {
        active = true;
        last_activity = now;
        log = begin true ∷ suspended.log;
      } in
      let refused = record suspended {
        suspended = false;
        failed = true;
        log = resume ∷ begin false ∷ suspended.log;
      } in
      if s.active || s.file_ended || s.failed || s.finalized || not authorized
      then (fail s, false)
      else if not (io.suspend_ok s.log)
      then (fail (record s { log = suspend false ∷ s.log }), false)
      else if not (io.begin_ok suspended.log)
      then (refused, false)
      else (begun, true)

  -- `bytes` is `none` for a null pointer, with the length that the caller gives.
  unfoldable pub write_chunk :
      AdminUploadSession → Bool → Option (List ℕ) → ℕ → ℕ → AdminUploadSession × Bool
  unfolding fail alive
  write_chunk s authorized bytes count now =
      let (s', live) = if authorized then alive s now else (s, false) in
      let null : Bool = elim bytes [ none ↦ true | some b ↦ false ] in
      let chunk : List ℕ = elim bytes [ none ↦ [] | some b ↦ b ] in
      if not live || null && not (count == 0) || ltb (size_max - s'.bytes) count
      then (fail s', false)
      else if not (io.write_ok s'.log chunk)
      then (fail (record s' { log = write count false ∷ s'.log }), false)
      else (
        record s' {
          bytes = s'.bytes + count;
          last_activity = now;
          log = write count true ∷ s'.log;
        },
        true,
      )

  unfoldable pub finalize : AdminUploadSession → Bool → ℕ → AdminUploadSession × Bool
  unfolding fail elapsed
  finalize s authorized now =
      if not authorized
        || s.failed
        || s.finalized
        || s.active
        || not s.file_ended
        || elapsed now s.last_activity upload_idle_ms
      then (fail s, false)
      else if not (io.finish_ok s.log)
      then (fail (record s { log = finish false ∷ s.log }), false)
      else (
        record s {
          finalized = true;
          file_ended = false;
          suspended = false;
          log = finish true ∷ s.log;
        },
        true,
      )

unfoldable pub end : AdminUploadSession → Bool → ℕ → AdminUploadSession × Bool
unfolding fail alive
end s authorized now =
    let (s', live) = if authorized then alive s now else (s, false) in
    if not live || s'.bytes == 0
    then (fail s', false)
    else (record s' { active = false; file_ended = true; last_activity = now }, true)

unfoldable pub clear : AdminUploadSession → AdminUploadSession
unfolding fail
clear s =
    let s' = if s.suspended then fail s else s in
    record s' {
      active = false;
      suspended = false;
      file_ended = false;
      failed = false;
      finalized = false;
      bytes = 0;
      last_activity = 0;
    }
