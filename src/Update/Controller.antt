-- ===== src/Update/Controller.antt =====
-- `UpdateController` of firmware/anchor/src/core/update_controller.h, update_controller.cpp and
-- motion_controller.cpp: its types and queries. Storage is an interface that `Update.Storage`
-- can fill. The transport answers `submit` as it likes, given the commands so far; these are recorded,
-- the latest first, and `poll` is a list of events handed to `loop`. A char array that is printed to
-- is the text before its end. Arrays of a used part are lists.
pub mod Link
pub mod Jobs
pub mod Pairing
pub mod Motion
pub mod Events
pub mod Loop
pub mod Requests
pub mod Core
pub mod Calls
use bin_range.Base.{
  ℕ, zero, suc, ◌+◌, ◌%◌, ◌/◌, Bool, true, false, not, ◌&&◌, ◌||◌, Option, none, some, List, [],
  ◌∷◌, ◌++◌, ltb, leb, ◌==◌, if◌then◌else◌, length, take, get_or, get_elem?, replicate, bit_and,
}
use bin_range.Update.Job.{UpdatePhase, UpdateTarget, UpdateRelease, UpdateJob, same_phase, bytes_eq}
use bin_range.Update.Queue.{UpdateQueue, init, hex_prefix, u16_max, same_target, find}
use bin_range.Update.Snapshot.{UpdateAssociation, UpdateSnapshot}
use bin_range.Update.Smp.{SmpCommand, SmpImage, SmpTag, SmpMotionConfig, SmpReply, tag_status}
use bin_range.Update.Smp.Reply.{no_tag, no_motion, no_image}

pub data UpdateQueueResult : Type 0 where
  result_accepted result_conflict result_invalid : UpdateQueueResult
  result_capacity result_needs_action result_error : UpdateQueueResult

pub data UpdatePairingPhase : Type 0 where
  pairing_idle pairing_connecting pairing_securing pairing_checking : UpdatePairingPhase
  pairing_disconnecting pairing_successful pairing_failed : UpdatePairingPhase

pub data MotionPhase : Type 0 where
  motion_unknown motion_queued motion_reading motion_writing : MotionPhase
  motion_verifying motion_applied motion_failed : MotionPhase

pub record MotionSettings : Type 0 where
  pub tag : ℕ  -- uint16_t
  pub phase : MotionPhase
  pub known : Bool
  pub config : SmpMotionConfig
  pub idle_ms : ℕ  -- uint32_t
  pub moving_ms : ℕ  -- uint32_t
  pub queued : Bool
  pub changed_ms : ℕ  -- uint64_t
  pub seen_ms : ℕ  -- uint64_t
  pub error : List ℕ

pub data CommandKind : Type 0 where
  connect security exchange disconnect : CommandKind

pub data EventKind : Type 0 where
  event_connected event_secured event_reply event_disconnected event_failed : EventKind

pub data UpdateTransportFailure : Type 0 where
  fail_transient fail_security fail_identity fail_protocol fail_unavailable : UpdateTransportFailure

-- The frame is what `frame_size` names of it.
pub record UpdateTransportCommand : Type 0 where
  pub kind : CommandKind
  pub operation : ℕ  -- uint32_t
  pub session : ℕ  -- uint32_t
  pub association : UpdateAssociation
  pub smp : SmpCommand
  pub frame : List ℕ
  pub commissioning : Bool
  pub passkey : ℕ  -- uint32_t

pub record UpdateTransportEvent : Type 0 where
  pub kind : EventKind
  pub operation : ℕ  -- uint32_t
  pub session : ℕ  -- uint32_t
  pub bonded_mitm_sc : Bool
  pub reply : SmpReply
  pub failure : UpdateTransportFailure

-- `UpdateControllerStorage` over a state `S`, and `UpdateControllerTransport::submit`.
pub record Ports (S : Type 0) : Type 0 where
  pub begins : S → UpdateQueue → ℕ → S × UpdateQueue × Bool
  pub saves : S → UpdateSnapshot → S × Bool
  pub saved : S → UpdateSnapshot
  pub staged : S → Option UpdateRelease
  pub acquires : S → UpdateRelease → S × Option (List ℕ)
  pub releases : S → S
  pub capacity : S → ℕ
  pub accepts : List UpdateTransportCommand → UpdateTransportCommand → Bool

pub record Observation : Type 0 where
  pub identity_valid : Bool
  pub image_valid : Bool
  pub tag : SmpTag
  pub active : SmpImage
  pub seen_ms : ℕ  -- uint64_t

pub data Await : Type 0 where
  await_none await_connected await_secured await_reply await_poll await_disconnected : Await

abbrev await_number : Await → ℕ
await_number await_none = 0
await_number await_connected = 1
await_number await_secured = 2
await_number await_reply = 3
await_number await_poll = 4
await_number await_disconnected = 5

-- `await_ == a`.
abbrev pub awaits : Await → Await → Bool
awaits left right = await_number left == await_number right

-- The members `pairing_phase_` to `pairing_changed_ms_`.
pub record PairingState : Type 0 where
  pub phase : UpdatePairingPhase
  pub association : UpdateAssociation
  pub pin : ℕ  -- uint32_t
  pub success : Bool
  pub error : List ℕ
  pub changed_ms : ℕ  -- uint64_t

-- The members `motion_` to `motion_apply_until_`.
pub record MotionState : Type 0 where
  pub settings : List MotionSettings  -- motion_[16]
  pub active : ℕ  -- 16 for none
  pub target : SmpMotionConfig
  pub idle : ℕ  -- uint32_t
  pub moving : ℕ  -- uint32_t
  pub verifying : Bool
  pub forgetting : Bool
  pub apply_until : ℕ  -- uint64_t

-- `storage_` and `transport_` are there or not. `checkpoint_scratch_` is not state.
pub record UpdateController (S : Type 0) : Type 0 where
  pub storage : S
  pub has_storage : Bool
  pub has_transport : Bool
  pub log : List UpdateTransportCommand
  pub queue : UpdateQueue
  pub associations : List UpdateAssociation
  pub active_job_id : ℕ  -- uint32_t
  pub operation : ℕ  -- uint32_t
  pub session : ℕ  -- uint32_t
  pub deadline : ℕ  -- uint64_t
  pub session_started : ℕ  -- uint64_t
  pub cooldown_until : ℕ  -- uint64_t
  pub sequence : ℕ  -- uint8_t
  pub stalled : ℕ  -- uint8_t
  pub pending_smp : SmpCommand
  pub sent_offset : ℕ  -- uint32_t
  pub sent_end : ℕ  -- uint32_t
  pub stage_bytes : Option (List ℕ)
  pub stage_borrowed : Bool
  pub disabled : Bool
  pub begun : Bool
  pub ready : Bool
  pub await : Await
  pub disconnect_submitted : Bool
  pub next_disconnect_try : ℕ  -- uint64_t
  pub checking_until : List ℕ  -- uint64_t[16]
  pub observed : List Observation  -- [16]
  pub error : List ℕ
  pub pairing : PairingState
  pub motion : MotionState

abbrev pub max_associations : ℕ
max_associations = 16

abbrev pub no_association : UpdateAssociation
no_association = record {
  target = record { tag = 0; hardware_id = replicate 17 0 };
  address = replicate 6 0;
  address_type = 0;
}

abbrev pub no_observation : Observation
no_observation = record {
  identity_valid = false;
  image_valid = false;
  tag = no_tag;
  active = no_image;
  seen_ms = 0;
}

-- `MotionSettings{}`.
abbrev pub no_settings : MotionSettings
no_settings = record {
  tag = 0;
  phase = motion_unknown;
  known = false;
  config = no_motion;
  idle_ms = 0;
  moving_ms = 0;
  queued = false;
  changed_ms = 0;
  seen_ms = 0;
  error = [];
}

abbrev pub no_pairing : PairingState
no_pairing = record {
  phase = pairing_idle;
  association = no_association;
  pin = 0;
  success = false;
  error = [];
  changed_ms = 0;
}

abbrev pub no_motion_state : MotionState
no_motion_state = record {
  settings = replicate 16 no_settings;
  active = max_associations;
  target = no_motion;
  idle = 0;
  moving = 0;
  verifying = false;
  forgetting = false;
  apply_until = 0;
}

abbrev pub new_controller : {S : Type 0} → S → Bool → Bool → UpdateController S
new_controller storage has_storage has_transport = record {
  storage = storage;
  has_storage = has_storage;
  has_transport = has_transport;
  log = [];
  queue = init 1;
  associations = [];
  active_job_id = 0;
  operation = 0;
  session = 0;
  deadline = 0;
  session_started = 0;
  cooldown_until = 0;
  sequence = 0;
  stalled = 0;
  pending_smp = tag_status;
  sent_offset = 0;
  sent_end = 0;
  stage_bytes = none;
  stage_borrowed = false;
  disabled = false;
  begun = false;
  ready = false;
  await = await_none;
  disconnect_submitted = false;
  next_disconnect_try = 0;
  checking_until = replicate 16 0;
  observed = replicate 16 no_observation;
  error = [];
  pairing = no_pairing;
  motion = no_motion_state;
}

-- `now + delay` on `uint64_t`.
unfoldable pub later : ℕ → ℕ → ℕ
later now delay = (now + delay) % 0x1_0000_0000_0000_0000

abbrev pub connect_deadline : ℕ
connect_deadline = 35000

abbrev pub request_deadline : ℕ
request_deadline = 10000

abbrev pub session_deadline : ℕ
session_deadline = 540000

abbrev pub cooldown : ℕ
cooldown = 60000

abbrev pub confirmation_deadline : ℕ
confirmation_deadline = 150000

abbrev pub poll_interval : ℕ
poll_interval = 2000

unfoldable pub same_association : UpdateAssociation → UpdateAssociation → Bool
same_association a b =
    same_target a.target b.target
    && a.address_type == b.address_type
    && bytes_eq a.address b.address

abbrev pub all_are : ℕ → List ℕ → Bool
all_are value [] = true
all_are value (b ∷ bytes) = b == value && all_are value bytes

unfoldable pub hardware_id_valid : List ℕ → Bool
hardware_id_valid id = hex_prefix 16 id && get_or id 16 0 == 0

unfoldable pub valid_association : UpdateAssociation → Bool
valid_association a =
    if a.target.tag == 0 || a.target.tag == u16_max || not (hardware_id_valid a.target.hardware_id)
    then false
    else if ltb 1 a.address_type
    then false
    else if all_are 0 a.address || all_are 0xff a.address
    then false
    else a.address_type == 0 || bit_and (get_or a.address 0 0) 0xc0 == 0xc0

abbrev pub is_pairing : UpdatePairingPhase → Bool
is_pairing pairing_idle = false
is_pairing pairing_connecting = true
is_pairing pairing_securing = true
is_pairing pairing_checking = true
is_pairing pairing_disconnecting = true
is_pairing pairing_successful = false
is_pairing pairing_failed = false

-- `association(tag)`, the first with this tag; a caller reads it only.
unfoldable pub association_of : ℕ → List UpdateAssociation → Option UpdateAssociation
association_of tag [] = none
association_of tag (a ∷ rest) = if a.target.tag == tag then some a else association_of tag rest

module _ {S : Type 0} where
  abbrev pub pairing_active : UpdateController S → Bool
  pairing_active c = is_pairing c.pairing.phase

  abbrev pub motion_running : UpdateController S → Bool
  motion_running c = not (c.motion.active == max_associations)

  -- The test that opens `close`, `handle` and the two halves of `loop`: some session is owned.
  abbrev pub owned : UpdateController S → Bool
  owned c = not (c.active_job_id == 0) || pairing_active c || motion_running c

  unfoldable pub busy : UpdateController S → Bool
  busy c =
      not (c.active_job_id == 0)
      || motion_running c
      || pairing_active c
      || awaits c.await await_disconnected

  -- `index(id)`; 16 when there is none.
  unfoldable pub index : UpdateController S → ℕ → ℕ
  index c id = elim (find c.queue id) [ none ↦ 16 | some slot ↦ slot ]

  -- `queue_.find(active_job_id_)`, as a slot.
  abbrev pub active_slot : UpdateController S → Option ℕ
  active_slot c = find c.queue c.active_job_id

  abbrev pub job_at : UpdateController S → ℕ → Option UpdateJob
  job_at c slot = get_elem? c.queue.jobs slot

  -- `queue_.at(slot)->phase() == phase`.
  abbrev pub in_phase : UpdateController S → ℕ → UpdatePhase → Bool
  in_phase c slot phase = elim (job_at c slot) [
    | none ↦ false
    | some job ↦ same_phase job.phase phase
  ]
