-- ===== src/Update/Image.antt =====
-- `parse_update_image` and `validate_release` of firmware/anchor/src/core/update_image.cpp. An image is
-- the list of its bytes, and a pointer into it is what remains from there.
pub mod Walk
pub mod Entries
use bin_range.Base.{
  ℕ, zero, suc, ◌+◌, ◌-◌, ◌*◌, ◌/◌, ◌%◌, Bool, true, false, not, ◌&&◌, ◌||◌, Option, none, some,
  List, [], ◌∷◌, ◌++◌, ltb, leb, ◌==◌, if◌then◌else◌, length, take, drop, get_or, bit_and,
  replicate,
}
use bin_range.Update.Job.{UpdateRelease, bytes_eq, bounded_length}
use bin_range.Update.Queue.{has_zero}

pub record ImageInfo : Type 0 where
  pub signed_region_size : ℕ
  pub image_hash : List ℕ  -- uint8_t[32]
  pub version : List ℕ  -- char[24]

abbrev pub maximum_signed_size : ℕ
maximum_signed_size = 212992

abbrev pub read16 : List ℕ → ℕ → ℕ
read16 bytes off = get_or bytes off 0 + get_or bytes (off + 1) 0 * 0x100

abbrev pub read32 : List ℕ → ℕ → ℕ
read32 bytes off =
    get_or bytes off 0
    + get_or bytes (off + 1) 0 * 0x100
    + get_or bytes (off + 2) 0 * 0x1_0000
    + get_or bytes (off + 3) 0 * 0x100_0000

-- One integer of the signature, from `rest` on: what follows it.
unfoldable pub der_integer : List ℕ → Option (List ℕ)
der_integer rest =
    let integer_length = get_or rest 1 0 in
    let value = drop 2 rest in
    let first = get_or value 0 0 in
    if ltb (length rest) 2
      || not (get_or rest 0 0 == 2)
      || integer_length == 0
      || ltb 33 integer_length
      || ltb (length value) integer_length
    then none
    else if not (bit_and first 0x80 == 0)
        || first == 0 && (integer_length == 1 || bit_and (get_or value 1 0) 0x80 == 0)
    then none
    else some (drop integer_length value)

unfoldable pub valid_ecdsa_p256_der : List ℕ → Bool
valid_ecdsa_p256_der value =
    if ltb (length value) 8
      || ltb 72 (length value)
      || not (get_or value 0 0 == 0x30)
      || not (get_or value 1 0 == length value - 2)
      || leb 0x80 (get_or value 1 0)
    then false
    else elim (der_integer (drop 2 value)) [
      | none ↦ false
      | some rest ↦ elim (der_integer rest) [ none ↦ false | some after ↦ length after == 0 ]
    ]

-- What the walk over an area has found.
pub record Found : Type 0 where
  pub sha : Option (List ℕ)
  pub keyhash : Bool
  pub signature : Bool

abbrev pub nothing_found : Found
nothing_found = record { sha = none; keyhash = false; signature = false }

abbrev pub is_some : Option (List ℕ) → Bool
is_some none = false
is_some (some x) = true

-- One entry of a release's area, by its type.
unfoldable pub note_tlv : Found → ℕ → List ℕ → Option Found
note_tlv found type value =
    if type == 0x10
    then (if is_some found.sha || not (length value == 32)
        then none
        else some (record found { sha = some value }))
    else if type == 1
    then (if found.keyhash || not (length value == 32)
        then none
        else some (record found { keyhash = true }))
    else if type == 0x22
    then (if found.signature || not (valid_ecdsa_p256_der value)
        then none
        else some (record found { signature = true }))
    else some found

-- One round of the loop: what has been found, and what remains of the area.
unfoldable pub tlv_round : Bool → Found → List ℕ → Option (Found × List ℕ)
tlv_round release found rest =
    let value_size = read16 rest 2 in
    let value = drop 4 rest in
    if ltb (length rest) 4 || ltb (length value) value_size
    then none
    else elim (if release
        then note_tlv found (read16 rest 0) (take value_size value)
        else some found) [ none ↦ none | some found' ↦ some (found', drop value_size value) ]

-- The loop, for at most `fuel` rounds.
unfoldable pub tlv_walk : ℕ → Bool → Found → List ℕ → Option Found
tlv_walk fuel release found [] = some found
tlv_walk zero release found (b ∷ rest) = none
tlv_walk (suc fuel) release found (b ∷ rest) = elim (tlv_round release found (b ∷ rest)) [
  | none ↦ none
  | some (found', rest') ↦ tlv_walk fuel release found' rest'
]

-- A round takes four bytes at least, so an area never needs more rounds than it has bytes.
unfoldable pub parse_tlv_area : List ℕ → ℕ → Bool → Option Found
parse_tlv_area area magic release =
    if ltb (length area) 4 || not (read16 area 0 == magic) || not (read16 area 2 == length area)
    then none
    else elim (tlv_walk (length area) release nothing_found (drop 4 area)) [
      | none ↦ none
      | some found ↦
          if not release || is_some found.sha && found.keyhash && found.signature
          then some found
          else none
    ]

-- "%u", for a number of at most `fuel` digits.
unfoldable pub decimal : ℕ → ℕ → List ℕ
decimal zero n = []
decimal (suc fuel) n =
    let front = decimal fuel (n / 10) in
    if ltb n 10 then (48 + n) ∷ [] else front ++ (48 + n % 10) ∷ []

-- "%u.%u.%u+%lu"; no 32-bit number has more than ten digits.
unfoldable pub version_text : List ℕ → List ℕ
version_text bytes =
    decimal 10 (get_or bytes 20 0)
    ++ 46 ∷ decimal 10 (get_or bytes 21 0)
    ++ 46 ∷ decimal 10 (read16 bytes 22)
    ++ 43 ∷ decimal 10 (read32 bytes 24)

abbrev pub found_hash : Found → List ℕ
found_hash found = elim found.sha [ none ↦ replicate 32 0 | some hash ↦ hash ]

-- The data is `none` for a null pointer. On failure `out` is zeroed, here `none`.
unfoldable pub parse_update_image : Option (List ℕ) → Option ImageInfo
parse_update_image none = none
parse_update_image (some bytes) =
    let size = length bytes in
    let header_size = read16 bytes 8 in
    let protected_size = read16 bytes 10 in
    let payload_size = read32 bytes 12 in
    let payload_end = header_size + payload_size in
    let signed_size = payload_end + protected_size in
    if ltb size 32
      || not (read32 bytes 0 == 0x96f3_b83d)
      || not (read32 bytes 4 == 0)
      || not (read32 bytes 16 == 0)
      || ltb header_size 32
      || ltb size header_size
      || payload_size == 0
      || ltb (size - header_size) payload_size
      || ltb (size - header_size - payload_size) protected_size
      || ltb maximum_signed_size size
      || ltb maximum_signed_size signed_size
      || ltb size signed_size
    then none
    else elim (if protected_size == 0
        then some nothing_found
        else parse_tlv_area (take protected_size (drop payload_end bytes)) 0x6908 false) [
          | none ↦ none
          | some unused ↦ elim (parse_tlv_area (drop signed_size bytes) 0x6907 true) [
            | none ↦ none
            | some found ↦
                if leb 24 (length (version_text bytes))
                then none
                else some (record {
                  signed_region_size = signed_size;
                  image_hash = found_hash found;
                  version = version_text bytes ++ replicate (24 - length (version_text bytes)) 0;
                })
          ]
        ]

-- `validate_release`, with no null digest.
unfoldable pub validate_release : ImageInfo → ℕ → List ℕ → List ℕ → UpdateRelease → Bool
validate_release parsed actual_size actual_file_sha actual_image_sha expected =
    has_zero 24 parsed.version
    && has_zero 24 expected.version
    && actual_size == expected.size
    && bytes_eq actual_file_sha expected.file_sha
    && bytes_eq actual_image_sha parsed.image_hash
    && bytes_eq actual_image_sha expected.image_hash
    && bytes_eq (take (bounded_length 24 parsed.version) parsed.version)
        (take (bounded_length 24 expected.version) expected.version)
