-- ===== src/Update/Snapshot/RoundTrip.antt =====
-- What `update_snapshot_encode` writes, `update_snapshot_decode` reads back.
use bin_range.Base.{
  ℕ, ◌+◌, ◌*◌, ◌≤◌, ◌<◌, ◌≡◌, Bool, true, false, not, refl, ap, sym, ◌∙◌, arith, List, none, some,
  length, drop, ltb, leb, ◌==◌, ◌&&◌, ◌||◌, if◌then◌else◌, ==_iff, map,
}
use bin_range.Update.Job.{bytes_eq}
use bin_range.Update.Queue.{valid_restore}
use bin_range.Update.Job.Trial.{bytes_eq_refl}
use bin_range.Update.Snapshot.{
  UpdateSnapshot, UpdateAssociation, SavedJob, get, slice, magic, wire_crc, update_snapshot_crc32,
  valid_header, layout, header_fields, encoded_size, encode_body, encode_jobs, valid_snapshot,
  update_snapshot_encode, update_snapshot_decode, decode_associations, decode_jobs,
}
use bin_range.Update.Snapshot.Fields.{get-put}
use bin_range.Update.Snapshot.Records.{
  AllAssociationWords, AllJobWords, canonical_job, decode_associations-encode, decode_jobs-encode,
  drop-encode_associations, length-encode_associations, length-encode_jobs,
}
use bin_range.Update.Snapshot.Canonical.{canonical, canonical-valid_snapshot}

-- The fields of a snapshot are of their types' sizes.
pub record IsWords (s : UpdateSnapshot) : Type 0 where
  pub restart_count : s.restart_count < 0x1_0000_0000
  pub associations : AllAssociationWords s.associations
  pub jobs : AllJobWords s.jobs

guarded : (c x : Bool) → c ≡ false → x ≡ true → (if c then false else x) ≡ true
guarded c x h e = ground arith

both : (a b : Bool) → a ≡ true → b ≡ true → (a && b) ≡ true
both a b h e = ground arith

sized : (n : ℕ) → 24 ≤ n → n ≤ 3832 → (ltb n 24 || ltb 3832 n) ≡ false
sized n lo hi = ground arith

within : (n : ℕ) → n ≤ 16 → leb n 16 ≡ true
within n h = ground arith

valid_header_intro :
    (bytes : List ℕ) (na nj : ℕ)
    → na ≤ 16
    → nj ≤ 16
    → length bytes ≡ 24 + na * 26 + nj * 212
    → slice 0 4 bytes ≡ magic
    → get (slice 4 2 bytes) ≡ 1
    → get (slice 6 2 bytes) ≡ 24
    → get (slice 8 4 bytes) ≡ length bytes
    → get (slice 16 1 bytes) ≡ na
    → get (slice 17 1 bytes) ≡ nj
    → get (slice 18 2 bytes) ≡ 0
    → get (slice 20 4 bytes) ≡ wire_crc bytes
    → valid_header bytes ≡ true
unfolding valid_header
valid_header_intro bytes na nj ba bj len m e4 e6 e8 e16 e17 e18 e20 =
    let a0 = ap (λ xs. bytes_eq xs magic) m ∙ bytes_eq_refl magic in
    let a1 = both _ _ a0 (ap (λ n. n == 1) e4) in
    let a2 = both _ _ a1 (ap (λ n. n == 24) e6) in
    let a3 = both _ _ a2 ((==_iff (get (slice 8 4 bytes)) (length bytes)).1 e8) in
    let a4 = both _ _ a3 (ap (λ n. leb n 16) e16 ∙ within na ba) in
    let a5 = both _ _ a4 (ap (λ n. leb n 16) e17 ∙ within nj bj) in
    let a6 = both _ _ a5 (ap (λ n. n == 0) e18) in
    let a7 = both _ _ a6 (
      (==_iff (length bytes) (24 + get (slice 16 1 bytes) * 26 + get (slice 17 1 bytes) * 212)).1
        (omega (arith, len, e16, e17))) in
    let a8 = both _ _ a7 ((==_iff (get (slice 20 4 bytes)) (wire_crc bytes)).1 e20) in
    guarded (ltb (length bytes) 24 || ltb 3832 (length bytes)) _
      (sized (length bytes) (omega arith) (omega arith)) a8

wire_crc-lt : (bytes : List ℕ) → wire_crc bytes < 0x1_0000_0000
unfolding wire_crc update_snapshot_crc32
wire_crc-lt bytes = omega arith

counts-le :
    (s : UpdateSnapshot)
    → valid_snapshot s ≡ true
    → (length s.associations ≤ 16) × (length s.jobs ≤ 16)
unfolding valid_snapshot valid_restore
counts-le s h = (ground arith, ground arith)

length-encode_body :
    (s : UpdateSnapshot)
    → IsWords s
    → length (encode_body s) ≡ length s.associations * 26 + length s.jobs * 212
length-encode_body s w = omega (
  arith,
  length-encode_associations s.associations (encode_jobs s.jobs) w.associations,
  length-encode_jobs s.jobs w.jobs,
)

decode_step :
    (bytes : List ℕ) (na nj rc : ℕ) (xs : List UpdateAssociation) (js : List SavedJob)
    → valid_header bytes ≡ true
    → get (slice 16 1 bytes) ≡ na
    → get (slice 17 1 bytes) ≡ nj
    → get (slice 12 4 bytes) ≡ rc
    → decode_associations na (drop 24 bytes) ≡ some xs
    → decode_jobs nj (drop (na * 26) (drop 24 bytes)) ≡ some js
    → valid_snapshot (record { restart_count = rc; associations = xs; jobs = js }) ≡ true
    → update_snapshot_decode (some bytes)
      ≡ some (record { restart_count = rc; associations = xs; jobs = js })
unfolding update_snapshot_decode
decode_step bytes na nj rc xs js h e16 e17 e12 da dj v = simp (h, e16, e17, e12, da, dj, v)

-- The bytes that the encoder writes pass the checks of the header.
written_header :
    (s : UpdateSnapshot) (crc : ℕ)
    → IsWords s
    → valid_snapshot s ≡ true
    → crc < 0x1_0000_0000
    → crc ≡ wire_crc (layout (header_fields s (encoded_size s) crc) (encode_body s))
    → valid_header (layout (header_fields s (encoded_size s) crc) (encode_body s)) ≡ true
written_header s crc w v lt e =
    let (ba, bj) = counts-le s v in
    let bytes = layout (header_fields s (encoded_size s) crc) (encode_body s) in
    let size : length bytes ≡ encoded_size s = omega (arith, length-encode_body s w) in
    valid_header_intro bytes (length s.associations) (length s.jobs) ba bj size refl refl refl
      (get-put 4 (encoded_size s) (omega arith) ∙ sym size)
      (get-put 1 (length s.associations) (omega arith)) (get-put 1 (length s.jobs) (omega arith))
      refl (get-put 4 crc lt ∙ e)

-- The sum skips its own place.
wire_crc-blank :
    (s : UpdateSnapshot) (size crc : ℕ) (body : List ℕ)
    → wire_crc (layout (header_fields s size 0) body)
      ≡ wire_crc (layout (header_fields s size crc) body)
unfolding wire_crc
wire_crc-blank s size crc body = refl

stores : (c : Bool) (bytes : List ℕ) → c ≡ false → (if c then none else some bytes) ≡ some bytes
stores c bytes h = ground arith

fits_in :
    (v : Bool) (size capacity : ℕ)
    → v ≡ true
    → size ≤ capacity
    → (not v || ltb capacity size) ≡ false
fits_in v size capacity h le = ground arith

-- A snapshot whose fields are of their types' sizes is encoded whenever it is valid and the output
-- is large enough, and decoding those bytes gives the snapshot back, with what follows the end of
-- each of its strings zeroed.
pub decode-encode :
    (s : UpdateSnapshot) (capacity : ℕ)
    → IsWords s
    → valid_snapshot s ≡ true
    → encoded_size s ≤ capacity
    → (bytes : List ℕ) × (update_snapshot_encode s (some capacity) ≡ some bytes)
      × (length bytes ≡ encoded_size s)
      × (update_snapshot_decode (some bytes) ≡ some (canonical s))
unfolding update_snapshot_encode canonical
decode-encode s capacity w v c =
    let body = encode_body s in
    let (ba, bj) = counts-le s v in
    let blank = layout (header_fields s (encoded_size s) 0) body in
    let crc = wire_crc blank in
    let bytes = layout (header_fields s (encoded_size s) crc) body in
    (
      bytes,
      stores _ bytes (fits_in (valid_snapshot s) (encoded_size s) capacity v c),
      omega (arith, length-encode_body s w),
      decode_step bytes (length s.associations) (length s.jobs) s.restart_count s.associations
          (map canonical_job s.jobs)
          (written_header s crc w v (wire_crc-lt blank)
            (wire_crc-blank s (encoded_size s) crc body))
          (get-put 1 (length s.associations) (omega arith))
          (get-put 1 (length s.jobs) (omega arith)) (get-put 4 s.restart_count w.restart_count)
          (decode_associations-encode s.associations (encode_jobs s.jobs) w.associations)
          (ap (decode_jobs (length s.jobs))
              (drop-encode_associations s.associations (encode_jobs s.jobs) w.associations)
            ∙ decode_jobs-encode s.jobs w.jobs)
          (canonical-valid_snapshot s w.jobs v),
    )
