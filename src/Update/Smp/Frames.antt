-- ===== src/Update/Smp/Frames.antt =====
-- The frames that the encoder makes: they fit, and their header tells their length.
use bin_range.Base.{
  ℕ, ◌+◌, ◌≤◌, ◌<◌, ◌≡◌, Bool, true, false, arith, some, List, [], ◌++◌, length, take,
  length-append, length-take, codes, if◌then◌else◌, ◌==◌, u32,
}
use bin_range.Update.Smp.{
  SmpUpload, upload, number, blob, key, bytes_of, upload_ok, upload_payload, smp_encode_request,
  wire_command, frame_header, framed, WireCommand,
}
use bin_range.Update.Smp.Assembler.{payload_length}

length-number : (major n : ℕ) → length (number major n) ≤ 5
unfolding number
length-number major n = ground arith

length-blob : (major : ℕ) (bytes : List ℕ) → length (blob major bytes) ≤ 5 + length bytes
unfolding blob
length-blob major bytes = omega (
  arith,
  length-append (number major (u32 (length bytes))) bytes,
  length-number major (u32 (length bytes)),
)

length-blob-take : (major n : ℕ) (bytes : List ℕ) → length (blob major (take n bytes)) ≤ 5 + n
length-blob-take major n bytes =
    omega (arith, length-blob major (take n bytes), length-take n bytes)

-- The first part of a payload, and the part that only the first chunk has.
abbrev chunk_part : SmpUpload → List ℕ
chunk_part u =
    key (codes "off")
    ++ number 0 u.offset
    ++ key (codes "data")
    ++ blob 2 (take u.size (bytes_of u.bytes))

abbrev first_part : SmpUpload → List ℕ
first_part u =
    key (codes "len")
    ++ number 0 u.total
    ++ key (codes "sha")
    ++ blob 2 (take 32 (bytes_of u.file_sha))

short_key : (text : List ℕ) → length text ≤ 4 → length (key text) ≤ 9
unfolding key
short_key text h = omega (arith, length-blob 3 text)

length-four :
    (a b c d : List ℕ) → length (a ++ b ++ c ++ d) ≡ length a + length b + length c + length d
length-four a b c d =
    omega (arith, length-append (a ++ b ++ c) d, length-append (a ++ b) c, length-append a b)

length-first_part : (u : SmpUpload) → length (first_part u) ≤ 60
unfolding codes
length-first_part u =
    let len = key (codes "len") in
    let sha = key (codes "sha") in
    let digest = blob 2 (take 32 (bytes_of u.file_sha)) in
    omega (
      arith,
      length-four len (number 0 u.total) sha digest,
      short_key (codes "len") (omega arith),
      short_key (codes "sha") (omega arith),
      length-number 0 u.total,
      length-blob-take 2 32 (bytes_of u.file_sha),
    )

length-chunk_part : (u : SmpUpload) → length (chunk_part u) ≤ 28 + u.size
unfolding codes
length-chunk_part u =
    let chunk = blob 2 (take u.size (bytes_of u.bytes)) in
    omega (
      arith,
      length-four (key (codes "off")) (number 0 u.offset) (key (codes "data")) chunk,
      short_key (codes "off") (omega arith),
      short_key (codes "data") (omega arith),
      length-number 0 u.offset,
      length-blob-take 2 u.size (bytes_of u.bytes),
    )

length-six :
    (a b c d e f : List ℕ)
    → length (a ++ b ++ c ++ d ++ e ++ f)
      ≡ length a + length b + length c + length d + length e + length f
length-six a b c d e f = omega (
  arith,
  length-append (a ++ b ++ c ++ d ++ e) f,
  length-append (a ++ b ++ c ++ d) e,
  length-four a b c d,
)

length-last_part : (b : Bool) (u : SmpUpload) → length (if b then first_part u else []) ≤ 60
length-last_part true u = length-first_part u
length-last_part false u = omega arith

length-upload_payload : (u : SmpUpload) → length (upload_payload u) ≤ 93 + u.size
unfolding upload_payload codes
length-upload_payload u =
    let chunk = blob 2 (take u.size (bytes_of u.bytes)) in
    let pairs : ℕ = (if u.offset == 0 then 4 else 2) in
    let last = if u.offset == 0 then first_part u else [] in
    omega (
      arith,
      length-six (number 5 pairs) (key (codes "off")) (number 0 u.offset) (key (codes "data")) chunk
          last,
      short_key (codes "off") (omega arith),
      short_key (codes "data") (omega arith),
      length-number 5 pairs,
      length-number 0 u.offset,
      length-blob-take 2 u.size (bytes_of u.bytes),
      length-last_part (u.offset == 0) u,
    )

upload_ok-size : (u : SmpUpload) → upload_ok u ≡ true → u.size ≤ 256
unfolding upload_ok
upload_ok-size u h = ground arith

framed_tells :
    (wire : WireCommand) (sequence : ℕ) (payload : List ℕ)
    → length payload < 0x1_0000
    → payload_length (frame_header wire sequence (length payload) ++ payload) ≡ length payload
framed_tells wire sequence payload h = omega arith

framed_fits :
    (wire : WireCommand) (sequence : ℕ) (payload : List ℕ)
    → length payload ≤ 349
    → framed wire sequence 512 payload
      ≡ some (frame_header wire sequence (length payload) ++ payload)
framed_fits wire sequence payload h = ground arith

-- A valid upload always fits into the buffer of 512 bytes: it is encoded into a frame of at most 357
-- bytes, whose header names the length of what follows it.
pub upload_fits :
    (sequence : ℕ) (u : SmpUpload)
    → upload_ok u ≡ true
    → (frame : List ℕ) × (smp_encode_request upload sequence (some u) 512 ≡ some frame)
      × (length frame ≤ 357)
      × (payload_length frame + 8 ≡ length frame)
unfolding smp_encode_request
upload_fits sequence u h =
    let payload = upload_payload u in
    let size = length-upload_payload u in
    let small = upload_ok-size u h in
    let wire = wire_command upload in
    let header = frame_header wire sequence (length payload) in
    let fits = framed_fits wire sequence payload (omega arith) in
    let tells = framed_tells wire sequence payload (omega arith) in
    (header ++ payload, ground (arith, fits), omega arith, omega (arith, tells))
