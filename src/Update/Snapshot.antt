-- ===== src/Update/Snapshot.antt =====
-- The saved form of the update service: firmware/anchor/src/core/update_snapshot.h and
-- update_snapshot.cpp. Of the arrays of `UpdateSnapshot` the model keeps the used part, so the counts
-- are their lengths, and a job stands with the wall time of the same index. Writing into a zeroed
-- buffer at offsets that follow one another is the concatenation of the fields, gaps included.
pub mod Fields
pub mod Text
pub mod Records
pub mod Canonical
pub mod RoundTrip
use bin_range.Base.{
  ℕ, zero, suc, ◌+◌, ◌-◌, ◌*◌, ◌/◌, ◌%◌, Bool, true, false, not, ◌&&◌, ◌||◌, Option, none, some,
  List, [], ◌∷◌, ◌++◌, ltb, leb, ◌==◌, if◌then◌else◌, length, take, drop, replicate, get_or, map,
  bit_and, bit_xor, u32, u32_mod,
}
use bin_range.Update.Job.{
  UpdatePhase, phase_byte, UpdateTarget, UpdateRelease, update_terminal, bytes_eq, queued, waiting,
  connecting, uploading, rebooting, checking, successful, failed, cancelled, needs_release,
  needs_action, unnamed,
}
use bin_range.Update.Queue.{UpdateJobState, valid_restore, hex_prefix, u16_max}

pub record UpdateAssociation : Type 0 where
  pub target : UpdateTarget
  pub address : List ℕ  -- uint8_t[6]
  pub address_type : ℕ  -- uint8_t

pub record SavedJob : Type 0 where
  pub state : UpdateJobState
  pub last_wall_seconds : ℕ  -- uint64_t

pub record UpdateSnapshot : Type 0 where
  pub restart_count : ℕ  -- uint32_t
  pub associations : List UpdateAssociation
  pub jobs : List SavedJob

abbrev pub header_size : ℕ
header_size = 24

abbrev pub association_size : ℕ
association_size = 26

abbrev pub job_size : ℕ
job_size = 212

abbrev pub max_encoded_size : ℕ
max_encoded_size = 3832

-- `crc = (crc >> 1) ^ ((crc & 1) ? 0xedb88320u : 0)`, `count` times.
unfoldable pub crc_bits : ℕ → ℕ → ℕ
crc_bits zero crc = crc
crc_bits (suc count) crc =
    crc_bits count (bit_xor (crc / 2) (if crc % 2 == 1 then 0xedb8_8320 else 0))

unfoldable pub crc_byte : ℕ → ℕ → ℕ
unfolding crc_bits
crc_byte crc byte = crc_bits 8 (bit_xor crc byte)

unfoldable pub crc_bytes : ℕ → List ℕ → ℕ
unfolding crc_byte
crc_bytes crc [] = crc
crc_bytes crc (b ∷ bytes) = crc_bytes (crc_byte crc b) bytes

unfoldable pub update_snapshot_crc32 : List ℕ → ℕ
unfolding crc_bytes
update_snapshot_crc32 bytes = u32 (bit_xor (crc_bytes 0xffff_ffff bytes) 0xffff_ffff)

-- The sum that the header carries, over everything but itself.
unfoldable pub wire_crc : List ℕ → ℕ
unfolding update_snapshot_crc32
wire_crc bytes = update_snapshot_crc32 (take 20 bytes ++ drop 24 bytes)

abbrev pub put : ℕ → ℕ → List ℕ
put zero value = []
put (suc width) value = value % 256 ∷ put width (value / 256)

-- All of the bytes; the callers cut them to the width.
abbrev pub get : List ℕ → ℕ
get [] = 0
get (b ∷ bytes) = b + 256 * get bytes

abbrev pub slice : ℕ → ℕ → List ℕ → List ℕ
slice at width bytes = take width (drop at bytes)

abbrev pub byte_at : ℕ → List ℕ → ℕ
byte_at at bytes = get_or bytes at 0

unfoldable pub all_byte : ℕ → List ℕ → Bool
all_byte value [] = true
all_byte value (b ∷ bytes) = b == value && all_byte value bytes

-- The checks of `valid_snapshot` on one association.
unfoldable pub valid_association : UpdateAssociation → Bool
valid_association a =
    if a.target.tag == 0
      || a.target.tag == u16_max
      || not (byte_at 16 a.target.hardware_id == 0)
      || ltb 1 a.address_type
      || a.address_type == 1 && not (bit_and (byte_at 0 a.address) 0xc0 == 0xc0)
    then false
    else hex_prefix 16 a.target.hardware_id
      && not (all_byte 0 a.address)
      && not (all_byte 0xff a.address)

abbrev pub same_hardware : UpdateTarget → UpdateTarget → Bool
same_hardware a b = bytes_eq (take 16 a.hardware_id) (take 16 b.hardware_id)

unfoldable pub association_clash : UpdateAssociation → UpdateAssociation → Bool
association_clash a b =
    a.target.tag == b.target.tag
    || same_hardware a.target b.target
    || a.address_type == b.address_type && bytes_eq a.address b.address

unfoldable pub association_clashes : UpdateAssociation → List UpdateAssociation → Bool
association_clashes a [] = false
association_clashes a (b ∷ bs) = association_clash a b || association_clashes a bs

unfoldable pub valid_associations : List UpdateAssociation → List UpdateAssociation → Bool
valid_associations seen [] = true
valid_associations seen (a ∷ rest) =
    valid_association a && not (association_clashes a seen) && valid_associations (a ∷ seen) rest

-- The loop that sets `matched`.
unfoldable pub has_association : UpdateTarget → List UpdateAssociation → Bool
has_association target [] = false
has_association target (a ∷ rest) =
    a.target.tag == target.tag && same_hardware a.target target || has_association target rest

unfoldable pub all_associated : List UpdateAssociation → List UpdateJobState → Bool
all_associated associations [] = true
all_associated associations (s ∷ rest) =
    (update_terminal s.phase || has_association s.target associations)
    && all_associated associations rest

abbrev pub job_states : List SavedJob → List UpdateJobState
job_states jobs = map SavedJob.state jobs

unfoldable pub valid_snapshot : UpdateSnapshot → Bool
valid_snapshot s =
    leb (length s.associations) 16
    && valid_restore (some (job_states s.jobs)) (length s.jobs)
    && valid_associations [] s.associations
    && all_associated s.associations (job_states s.jobs)

-- The field of `width` bytes, zeroed before.
abbrev pub put_string : ℕ → List ℕ → List ℕ
put_string zero value = []
put_string (suc width) [] = replicate (suc width) 0
put_string (suc width) (c ∷ value) =
    if c == 0 then replicate (suc width) 0 else c ∷ put_string width value

unfoldable pub canonical_from : Bool → List ℕ → Bool
canonical_from ended [] = ended
canonical_from ended (b ∷ bytes) =
    if b == 0 then canonical_from true bytes else not ended && canonical_from ended bytes

unfoldable pub canonical_string : List ℕ → Bool
unfolding canonical_from
canonical_string bytes = canonical_from false bytes

-- The fields one after the other, and then `rest`.
abbrev pub layout : List (List ℕ) → List ℕ → List ℕ
layout [] rest = rest
layout (field ∷ fields) rest = field ++ layout fields rest

abbrev pub flag_byte : Bool → ℕ
flag_byte flag = if flag then 1 else 0

abbrev pub association_fields : UpdateAssociation → List (List ℕ)
association_fields a =
    put 2 a.target.tag
    ∷ take 16 a.target.hardware_id
    ∷ take 6 a.address
    ∷ put 1 a.address_type
    ∷ put 1 0
    ∷ []

abbrev pub job_fields : SavedJob → List (List ℕ)
job_fields saved =
    let j = saved.state in
    put 4 j.id
    ∷ put 2 j.target.tag
    ∷ take 16 j.target.hardware_id
    ∷ put 1 (phase_byte j.phase)
    ∷ put 1 j.attempts
    ∷ put 1 (flag_byte j.trial_may_be_armed)
    ∷ put 3 0
    ∷ put 4 j.acknowledged
    ∷ put 4 j.release.size
    ∷ take 32 j.release.file_sha
    ∷ take 32 j.release.image_hash
    ∷ put_string 24 j.release.version
    ∷ put_string 80 j.error
    ∷ put 8 saved.last_wall_seconds
    ∷ []

unfoldable pub encode_jobs : List SavedJob → List ℕ
encode_jobs [] = []
encode_jobs (j ∷ jobs) = layout (job_fields j) (encode_jobs jobs)

unfoldable pub encode_associations : List UpdateAssociation → List ℕ → List ℕ
encode_associations [] rest = rest
encode_associations (a ∷ associations) rest =
    layout (association_fields a) (encode_associations associations rest)

-- "USNP"
abbrev pub magic : List ℕ
magic = 85 ∷ 83 ∷ 78 ∷ 80 ∷ []

abbrev pub header_fields : UpdateSnapshot → ℕ → ℕ → List (List ℕ)
header_fields s size crc =
    magic
    ∷ put 2 1
    ∷ put 2 header_size
    ∷ put 4 size
    ∷ put 4 s.restart_count
    ∷ put 1 (length s.associations)
    ∷ put 1 (length s.jobs)
    ∷ put 2 0
    ∷ put 4 crc
    ∷ []

abbrev pub encoded_size : UpdateSnapshot → ℕ
encoded_size s = header_size + length s.associations * association_size + length s.jobs * job_size

abbrev pub encode_body : UpdateSnapshot → List ℕ
encode_body s = encode_associations s.associations (encode_jobs s.jobs)

-- What the output then holds, `none` on failure. The capacity is `none` for a null output.
unfoldable pub update_snapshot_encode : UpdateSnapshot → Option ℕ → Option (List ℕ)
update_snapshot_encode s none = none
update_snapshot_encode s (some capacity) =
    if not (valid_snapshot s) || ltb capacity (encoded_size s)
    then none
    else (let blank = layout (header_fields s (encoded_size s) 0) (encode_body s) in
        some (layout (header_fields s (encoded_size s) (wire_crc blank)) (encode_body s)))

-- The phases that the enum names, from 0.
abbrev pub named_phases : List UpdatePhase
named_phases =
    queued ∷ waiting ∷ connecting ∷ uploading ∷ rebooting ∷ checking ∷ successful ∷ failed
    ∷ cancelled ∷ needs_release ∷ needs_action ∷ []

-- `static_cast<UpdatePhase>(byte)`.
abbrev pub phase_of : ℕ → UpdatePhase
phase_of byte = get_or named_phases byte (unnamed (byte - 11))

abbrev pub read_association : List ℕ → UpdateAssociation
read_association p = record {
  target = record { tag = get (slice 0 2 p); hardware_id = slice 2 16 p ++ 0 ∷ [] };
  address = slice 18 6 p;
  address_type = get (slice 24 1 p);
}

unfoldable pub decode_associations : ℕ → List ℕ → Option (List UpdateAssociation)
decode_associations zero p = some []
decode_associations (suc count) p =
    let rest = decode_associations count (drop association_size p) in
    if not (get (slice 25 1 p) == 0)
    then none
    else elim rest [ none ↦ none | some rest_of ↦ some (read_association p ∷ rest_of) ]

abbrev pub read_job : List ℕ → SavedJob
read_job p = record {
  state = record {
    id = get (slice 0 4 p);
    target = record { tag = get (slice 4 2 p); hardware_id = slice 6 16 p ++ 0 ∷ [] };
    release = record {
      size = get (slice 32 4 p);
      file_sha = slice 36 32 p;
      image_hash = slice 68 32 p;
      version = slice 100 24 p;
    };
    phase = phase_of (get (slice 22 1 p));
    acknowledged = get (slice 28 4 p);
    attempts = get (slice 23 1 p);
    error = slice 124 80 p;
    trial_may_be_armed = not (get (slice 24 1 p) == 0);
  };
  last_wall_seconds = get (slice 204 8 p);
}

unfoldable pub valid_job_bytes : List ℕ → Bool
unfolding canonical_string
valid_job_bytes p =
    leb (get (slice 24 1 p)) 1
    && all_byte 0 (slice 25 3 p)
    && canonical_string (slice 100 24 p)
    && canonical_string (slice 124 80 p)

unfoldable pub decode_jobs : ℕ → List ℕ → Option (List SavedJob)
unfolding valid_job_bytes
decode_jobs zero p = some []
decode_jobs (suc count) p =
    let rest = decode_jobs count (drop job_size p) in
    if not (valid_job_bytes p)
    then none
    else elim rest [ none ↦ none | some rest_of ↦ some (read_job p ∷ rest_of) ]

-- The checks of the header.
unfoldable pub valid_header : List ℕ → Bool
valid_header bytes =
    let size = length bytes in
    if ltb size header_size || ltb max_encoded_size size
    then false
    else bytes_eq (slice 0 4 bytes) magic
      && get (slice 4 2 bytes) == 1
      && get (slice 6 2 bytes) == header_size
      && get (slice 8 4 bytes) == size
      && leb (get (slice 16 1 bytes)) 16
      && leb (get (slice 17 1 bytes)) 16
      && get (slice 18 2 bytes) == 0
      && size
        == header_size
          + get (slice 16 1 bytes) * association_size
          + get (slice 17 1 bytes) * job_size
      && get (slice 20 4 bytes) == wire_crc bytes

-- The bytes are `none` for a null pointer.
unfoldable pub update_snapshot_decode : Option (List ℕ) → Option UpdateSnapshot
update_snapshot_decode none = none
update_snapshot_decode (some bytes) =
    if not (valid_header bytes)
    then none
    else (let count = get (slice 16 1 bytes) in
        elim (decode_associations count (drop header_size bytes)) [
          | none ↦ none
          | some associations ↦
              elim (decode_jobs (get (slice 17 1 bytes))
                (drop (count * association_size) (drop header_size bytes))) [
                  | none ↦ none
                  | some jobs ↦
                      let decoded : UpdateSnapshot = record {
                        restart_count = get (slice 12 4 bytes);
                        associations = associations;
                        jobs = jobs;
                      } in
                      if valid_snapshot decoded then some decoded else none
                ]
        ])
