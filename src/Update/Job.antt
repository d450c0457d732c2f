-- ===== src/Update/Job.antt =====
-- One update job: the phases, the transition table and the policy helpers of
-- firmware/anchor/src/core/update_job.h and update_job.cpp. A helper that takes `UpdateJob &` and
-- returns `bool` returns the new job beside the result. A char array is the list of its bytes.
pub mod Edges
pub mod Ops
pub mod Trial
pub mod Attempts
use bin_range.Base.{
  ℕ, suc, zero, ◌+◌, ◌-◌, Bool, true, false, not, ◌&&◌, ◌||◌, Option, none, some, List, [], ◌∷◌,
  ◌++◌, ltb, leb, ◌==◌, if◌then◌else◌, take, replicate,
}

-- `enum class UpdatePhase : uint8_t`. `unnamed n` is the byte 11 + n, which a cast can make.
pub data UpdatePhase : Type 0 where
  queued waiting connecting uploading rebooting checking : UpdatePhase
  successful failed cancelled needs_release needs_action : UpdatePhase
  unnamed : ℕ → UpdatePhase

-- `static_cast<uint8_t>(phase)`.
abbrev pub phase_byte : UpdatePhase → ℕ
phase_byte queued = 0
phase_byte waiting = 1
phase_byte connecting = 2
phase_byte uploading = 3
phase_byte rebooting = 4
phase_byte checking = 5
phase_byte successful = 6
phase_byte failed = 7
phase_byte cancelled = 8
phase_byte needs_release = 9
phase_byte needs_action = 10
phase_byte (unnamed n) = 11 + n

-- `left == right` on phases.
abbrev pub same_phase : UpdatePhase → UpdatePhase → Bool
same_phase p q = phase_byte p == phase_byte q

pub record UpdateTarget : Type 0 where
  pub tag : ℕ  -- uint16_t
  pub hardware_id : List ℕ  -- char[17]

pub record UpdateRelease : Type 0 where
  pub size : ℕ  -- uint32_t
  pub file_sha : List ℕ  -- uint8_t[32]
  pub image_hash : List ℕ  -- uint8_t[32]
  pub version : List ℕ  -- char[24]

pub record UpdateJob : Type 0 where
  pub id : ℕ  -- uint32_t
  pub target : UpdateTarget
  pub release : UpdateRelease
  pub phase : UpdatePhase
  pub acknowledged : ℕ  -- uint32_t
  pub attempts : ℕ  -- uint8_t
  pub changed_ms : ℕ  -- uint64_t
  pub error : List ℕ  -- char[80]
  pub trial_may_be_armed : Bool

timestamp_ok : UpdateJob → ℕ → Bool
timestamp_ok job now = leb job.changed_ms now

unfoldable pub allowed_edge : UpdatePhase → UpdatePhase → Bool
allowed_edge queued to = same_phase to waiting || same_phase to cancelled || same_phase to failed
allowed_edge waiting to =
    same_phase to connecting
    || same_phase to cancelled
    || same_phase to failed
    || same_phase to needs_release
allowed_edge connecting to =
    same_phase to waiting
    || same_phase to uploading
    || same_phase to checking
    || same_phase to cancelled
    || same_phase to failed
    || same_phase to needs_action
allowed_edge uploading to =
    same_phase to waiting
    || same_phase to rebooting
    || same_phase to cancelled
    || same_phase to failed
    || same_phase to needs_release
    || same_phase to needs_action
allowed_edge rebooting to = same_phase to checking || same_phase to needs_action
allowed_edge checking to = same_phase to failed || same_phase to needs_action
allowed_edge needs_release to = same_phase to waiting || same_phase to cancelled
allowed_edge needs_action to = same_phase to checking || same_phase to cancelled
allowed_edge successful to = false
allowed_edge failed to = false
allowed_edge cancelled to = false
allowed_edge (unnamed n) to = false

unfoldable pub hex_digit : ℕ → Bool
hex_digit c = leb b'0' c && leb c b'9' || leb b'a' c && leb c b'f'

abbrev pub update_terminal : UpdatePhase → Bool
update_terminal phase =
    same_phase phase successful || same_phase phase failed || same_phase phase cancelled

unfoldable pub update_after_restart : UpdatePhase → UpdatePhase
update_after_restart queued = needs_release
update_after_restart waiting = needs_release
update_after_restart connecting = needs_release
update_after_restart uploading = needs_release
update_after_restart rebooting = checking
update_after_restart checking = checking
update_after_restart successful = successful
update_after_restart failed = failed
update_after_restart cancelled = cancelled
update_after_restart needs_release = needs_release
update_after_restart needs_action = needs_action
update_after_restart (unnamed n) = needs_action

-- `memcmp` of two arrays of one size, as equality of their bytes.
unfoldable pub bytes_eq : List ℕ → List ℕ → Bool
bytes_eq [] [] = true
bytes_eq [] (y ∷ ys) = false
bytes_eq (x ∷ xs) [] = false
bytes_eq (x ∷ xs) (y ∷ ys) = x == y && bytes_eq xs ys

-- The hash is `none` for a null pointer.
unfoldable pub update_confirmed_match : UpdateRelease → Option (List ℕ) → Bool → Bool
update_confirmed_match wanted none confirmed = false
update_confirmed_match wanted (some active_hash) confirmed =
    confirmed && bytes_eq wanted.image_hash active_hash

unfoldable pub update_transition : UpdateJob → UpdatePhase → ℕ → UpdateJob × Bool
unfolding timestamp_ok
update_transition job next now =
    if not (timestamp_ok job now) || update_terminal job.phase || not (allowed_edge job.phase next)
    then (job, false)
    else if same_phase next cancelled && job.trial_may_be_armed
    then (job, false)
    else (
      record job {
        acknowledged =
            if same_phase next needs_release || same_phase next uploading
            then 0
            else job.acknowledged;
        trial_may_be_armed = same_phase next rebooting || job.trial_may_be_armed;
        phase = next;
        changed_ms = now;
      },
      true,
    )

unfoldable pub update_progress : UpdateJob → ℕ → ℕ → UpdateJob × Bool
unfolding timestamp_ok
update_progress job acknowledged now =
    if not (timestamp_ok job now)
      || not (same_phase job.phase uploading)
      || ltb job.release.size acknowledged
    then (job, false)
    else (record job { acknowledged = acknowledged; changed_ms = now }, true)

unfoldable pub update_attempt : UpdateJob → ℕ → UpdateJob × Bool
unfolding timestamp_ok
update_attempt job now =
    if not (timestamp_ok job now)
      || leb 3 job.attempts
      || not (same_phase job.phase connecting) && not (same_phase job.phase checking)
    then (job, false)
    else (record job { attempts = job.attempts + 1; changed_ms = now }, true)

-- `error_[0] = '\0'`.
abbrev pub clear_error : List ℕ → List ℕ
clear_error [] = []
clear_error (c ∷ cs) = 0 ∷ cs

unfoldable pub update_retry : UpdateJob → ℕ → UpdateJob × Bool
unfolding timestamp_ok
update_retry job now =
    if not (timestamp_ok job now)
      || not (same_phase job.phase needs_release) && not (same_phase job.phase needs_action)
    then (job, false)
    else (
      record job {
        phase = if job.trial_may_be_armed then checking else waiting;
        attempts = 0;
        acknowledged = if job.trial_may_be_armed then job.acknowledged else 0;
        error = clear_error job.error;
        changed_ms = now;
      },
      true,
    )

-- `while (length < limit && text[length]) ++length`: the text is the bytes before its end, and
-- what is read past them is the terminating 0.
unfoldable pub bounded_length : ℕ → List ℕ → ℕ
bounded_length zero text = 0
bounded_length (suc limit) [] = 0
bounded_length (suc limit) (c ∷ text) = if c == 0 then 0 else suc (bounded_length limit text)

abbrev pub error_size : ℕ
error_size = 80

unfoldable pub update_error : UpdateJob → Option (List ℕ) → ℕ → UpdateJob × Bool
unfolding timestamp_ok
update_error job none now = (job, false)
update_error job (some text) now =
    let n = bounded_length error_size text in
    if not (timestamp_ok job now) || update_terminal job.phase
    then (job, false)
    else if n == error_size
    then (job, false)
    else (
      record job { error = take n text ++ replicate (error_size - n) 0; changed_ms = now },
      true,
    )

unfoldable pub update_cancel : UpdateJob → ℕ → UpdateJob × Bool
unfolding timestamp_ok update_transition
update_cancel job now =
    if not (timestamp_ok job now) || update_terminal job.phase
    then (job, false)
    else if not job.trial_may_be_armed
    then update_transition job cancelled now
    else if same_phase job.phase checking
    then (job, true)
    else update_transition job checking now

unfoldable pub update_complete : UpdateJob → Option (List ℕ) → Bool → ℕ → UpdateJob × Bool
unfolding timestamp_ok update_confirmed_match
update_complete job active_hash confirmed now =
    if not (timestamp_ok job now)
      || not (same_phase job.phase checking)
      || not (update_confirmed_match job.release active_hash confirmed)
    then (job, false)
    else (record job { phase = successful; error = clear_error job.error; changed_ms = now }, true)
