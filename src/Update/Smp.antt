-- ===== src/Update/Smp.antt =====
-- The SMP codec of the anchor, firmware/anchor/src/core/smp_codec.h and smp_codec.cpp: the types, the
-- requests and the check of an upload's offset. `Reader` has the CBOR reader, `Reply` the replies and
-- `Assembler` the reassembly of a frame.
pub mod Reader
pub mod Reply
pub mod Assembler
pub mod Pieces
pub mod Progress
pub mod Frames
pub mod Numbers
use bin_range.Base.{
  ℕ, ◌+◌, ◌-◌, ◌*◌, ◌/◌, ◌%◌, Bool, true, false, not, ◌&&◌, ◌||◌, Option, none, some, List, [], ◌∷◌,
  ◌++◌, ltb, leb, ◌==◌, if◌then◌else◌, length, take, u32, codes,
}

-- `MaxImage`.
abbrev pub max_image : ℕ
max_image = 212992

pub data SmpCommand : Type 0 where
  image_list tag_status upload trial reset config_read config_write : SmpCommand

pub data SmpOutcome : Type 0 where
  ok denied : SmpOutcome

-- A null pointer is `none`. `data` names at least `size` bytes, and `file_sha` 32.
pub record SmpUpload : Type 0 where
  pub offset : ℕ  -- uint32_t
  pub total : ℕ  -- uint32_t
  pub file_sha : Option (List ℕ)
  pub bytes : Option (List ℕ)
  pub size : ℕ

pub record SmpImage : Type 0 where
  pub slot : ℕ  -- uint8_t
  pub version : List ℕ  -- char[24]
  pub hash : List ℕ  -- uint8_t[32]
  pub bootable : Bool
  pub pending : Bool
  pub confirmed : Bool
  pub active : Bool
  pub permanent : Bool

-- An `int32_t`.
pub data SensorError : Type 0 where
  pos : ℕ → SensorError
  negsuc : ℕ → SensorError  -- -1 - n

pub record SmpTag : Type 0 where
  pub id : List ℕ  -- char[17]
  pub version : List ℕ  -- char[24]
  pub tag : ℕ  -- uint16_t
  pub uptime_ms : ℕ  -- uint64_t
  pub reset_reason : ℕ  -- uint32_t
  pub confirmed : Bool
  pub maintenance : Bool
  pub radio_ok : Bool
  pub ble_ok : Bool
  pub config_status_known : Bool
  pub config_pending : Bool
  pub sensor_error : SensorError

pub record SmpMotionConfig : Type 0 where
  pub moving_ms : ℕ
  pub idle_ms : ℕ
  pub quiet_ms : ℕ
  pub threshold_mg : ℕ
  pub duration_samples : ℕ

-- Of `images[2]` the model keeps the first `image_count`.
pub record SmpReply : Type 0 where
  pub outcome : SmpOutcome
  pub error_group : ℕ  -- uint16_t
  pub error_code : ℕ  -- uint32_t
  pub tag : SmpTag
  pub images : List SmpImage
  pub offset : ℕ  -- uint32_t
  pub config : SmpMotionConfig

pub record WireCommand : Type 0 where
  pub op : ℕ
  pub group : ℕ
  pub id : ℕ

-- Every command has its constructor, so the `return false` after the switch is never reached.
abbrev pub wire_command : SmpCommand → WireCommand
wire_command image_list = record { op = 0; group = 1; id = 0 }
wire_command tag_status = record { op = 0; group = 64; id = 0 }
wire_command upload = record { op = 2; group = 1; id = 1 }
wire_command trial = record { op = 2; group = 64; id = 1 }
wire_command reset = record { op = 2; group = 0; id = 5 }
wire_command config_read = record { op = 0; group = 64; id = 2 }
wire_command config_write = record { op = 2; group = 64; id = 2 }

abbrev pub command_number : SmpCommand → ℕ
command_number image_list = 0
command_number tag_status = 1
command_number upload = 2
command_number trial = 3
command_number reset = 4
command_number config_read = 5
command_number config_write = 6

-- `left == right` on commands.
abbrev pub same_command : SmpCommand → SmpCommand → Bool
same_command left right = command_number left == command_number right

-- What `Encoder::number` appends. The number is a `uint32_t`.
unfoldable pub number : ℕ → ℕ → List ℕ
number major n =
    if ltb n 24
    then (major * 32 + n) ∷ []
    else if leb n 0xff
    then (major * 32 + 24) ∷ n ∷ []
    else if leb n 0xffff
    then (major * 32 + 25) ∷ (n / 256) ∷ (n % 256) ∷ []
    else (major * 32 + 26)
      ∷ (n / 0x100_0000)
      ∷ (n / 0x1_0000 % 256)
      ∷ (n / 256 % 256)
      ∷ (n % 256)
      ∷ []

unfoldable pub blob : ℕ → List ℕ → List ℕ
unfolding number
blob major bytes = number major (u32 (length bytes)) ++ bytes

unfoldable pub key : List ℕ → List ℕ
unfolding blob
key text = blob 3 text

-- The eight bytes before the payload.
abbrev pub frame_header : WireCommand → ℕ → ℕ → List ℕ
frame_header wire sequence size =
    wire.op
    ∷ 0
    ∷ size / 256 % 256
    ∷ size % 256
    ∷ wire.group / 256
    ∷ wire.group % 256
    ∷ sequence
    ∷ wire.id
    ∷ []

abbrev is_some : {A : Type 0} → Option A → Bool
is_some none = false
is_some (some a) = true

abbrev pub bytes_of : Option (List ℕ) → List ℕ
bytes_of none = []
bytes_of (some bytes) = bytes

-- The checks of `smp_encode_request` on an upload.
unfoldable pub upload_ok : SmpUpload → Bool
upload_ok u = not (
    ltb u.total 32
    || ltb max_image u.total
    || not (is_some u.bytes)
    || u.size == 0
    || ltb 256 u.size
    || ltb u.total u.offset
    || ltb (u.total - u.offset) u.size
    || u.offset == 0 && (not (is_some u.file_sha) || ltb u.size 32))

unfoldable pub upload_payload : SmpUpload → List ℕ
unfolding number blob key
upload_payload u =
    number 5 (if u.offset == 0 then 4 else 2)
    ++ key (codes "off")
    ++ number 0 u.offset
    ++ key (codes "data")
    ++ blob 2 (take u.size (bytes_of u.bytes))
    ++ (if u.offset == 0
        then key (codes "len")
          ++ number 0 u.total
          ++ key (codes "sha")
          ++ blob 2 (take 32 (bytes_of u.file_sha))
        else [])

-- The payload behind its header, if that fits into `capacity` and the 512 bytes of the encoder.
abbrev pub framed : WireCommand → ℕ → ℕ → List ℕ → Option (List ℕ)
framed wire sequence capacity payload =
    if ltb capacity (length payload + 8) || ltb 512 (length payload + 8)
    then none
    else some (frame_header wire sequence (length payload) ++ payload)

-- What is written to `out`, which is there; `none` when the call returns false.
unfoldable pub smp_encode_request : SmpCommand → ℕ → Option SmpUpload → ℕ → Option (List ℕ)
unfolding number upload_payload
smp_encode_request command sequence none capacity =
    if same_command command config_write || same_command command upload
    then none
    else framed (wire_command command) sequence capacity (number 5 0)
smp_encode_request command sequence (some u) capacity =
    if not (same_command command upload) || not (upload_ok u)
    then none
    else framed (wire_command command) sequence capacity (upload_payload u)

unfoldable pub smp_motion_valid : SmpMotionConfig → Bool
smp_motion_valid c =
    leb 1000 c.moving_ms
    && leb c.moving_ms 60000
    && leb 60000 c.idle_ms
    && leb c.idle_ms 3600000
    && leb c.moving_ms c.idle_ms
    && leb 5000 c.quiet_ms
    && leb c.quiet_ms 300000
    && leb 32 c.threshold_mg
    && leb c.threshold_mg 1000
    && leb 1 c.duration_samples
    && leb c.duration_samples 127

unfoldable pub smp_motion_equal : SmpMotionConfig → SmpMotionConfig → Bool
smp_motion_equal a b =
    a.moving_ms == b.moving_ms
    && a.idle_ms == b.idle_ms
    && a.quiet_ms == b.quiet_ms
    && a.threshold_mg == b.threshold_mg
    && a.duration_samples == b.duration_samples

unfoldable pub config_payload : SmpMotionConfig → List ℕ
unfolding number key
config_payload c =
    number 5 5
    ++ key (codes "moving_ms")
    ++ number 0 c.moving_ms
    ++ key (codes "idle_ms")
    ++ number 0 c.idle_ms
    ++ key (codes "quiet_ms")
    ++ number 0 c.quiet_ms
    ++ key (codes "threshold_mg")
    ++ number 0 c.threshold_mg
    ++ key (codes "duration_samples")
    ++ number 0 c.duration_samples

-- The encoder's buffer is zeroed, so the bytes that are not set here stay zero.
abbrev pub config_frame : ℕ → List ℕ → List ℕ
config_frame sequence payload = 2 ∷ 0 ∷ 0 ∷ length payload % 256 ∷ 0 ∷ 64 ∷ sequence ∷ 2 ∷ payload

unfoldable pub smp_encode_config : ℕ → SmpMotionConfig → ℕ → Option (List ℕ)
unfolding config_payload
smp_encode_config sequence c capacity =
    if not (smp_motion_valid c) || ltb capacity (length (config_payload c) + 8)
    then none
    else some (config_frame sequence (config_payload c))

-- `stalled` is a `uint8_t`; its new value stands beside the answer.
unfoldable pub smp_accept_upload_offset : ℕ → ℕ → ℕ → ℕ → Bool → ℕ → ℕ × Bool
smp_accept_upload_offset reply sent_offset sent_end total first stalled =
    if ltb total 32
      || ltb max_image total
      || ltb sent_end sent_offset
      || ltb total sent_end
      || first && not (sent_offset == 0)
      || ltb reply sent_offset
      || ltb (if first then total else sent_end) reply
    then (stalled, false)
    else (let counted =
          if not (reply == sent_offset)
          then 0
          else if stalled == 255
          then stalled
          else stalled + 1 in
        (counted, ltb counted 3))
