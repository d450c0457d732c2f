-- ===== src/Update/Image/Walk.antt =====
-- What an accepted image guarantees to the code that stages it.
use bin_range.Base.{
  ℕ, ◌+◌, ◌-◌, ◌≤◌, ◌<◌, ◌≡◌, inl, inr, Bool, true, arith, List, some, length, drop, ltb,
  length-drop, length-append, length-replicate, Bool-cases, Option-cases, replicate,
}
use bin_range.Update.Image.{
  ImageInfo, Found, parse_tlv_area, parse_update_image, version_text, read16, read32,
}

parse_tlv_area-size :
    (area : List ℕ) (magic : ℕ) (release : Bool) (found : Found)
    → parse_tlv_area area magic release ≡ some found
    → 4 ≤ length area
unfolding parse_tlv_area
parse_tlv_area-size area magic release found h = elim (Bool-cases (ltb (length area) 4)) [
  | inl e ↦ absurd (ground arith)
  | inr e ↦ ground arith
]

-- The signed region of an accepted image lies within the bytes, holds more than the header, and
-- with the rest of the file fits the partition.
pub parse_update_image_lem :
    (bytes : List ℕ) (info : ImageInfo)
    → parse_update_image (some bytes) ≡ some info
    → (32 < info.signed_region_size)
      × (info.signed_region_size + 4 ≤ length bytes)
      × (length bytes ≤ 212992)
      × (length info.version ≡ 24)
unfolding parse_update_image
parse_update_image_lem bytes info h =
    let signed = read16 bytes 8 + read32 bytes 12 + read16 bytes 10 in
    elim (Option-cases (parse_tlv_area (drop signed bytes) 0x6907 true)) [
      | inl e ↦ absurd (ground arith)
      | inr (found, e) ↦
          let rest = parse_tlv_area-size (drop signed bytes) 0x6907 true found e in
          let cut = length-drop signed bytes in
          (
            ground arith,
            ground arith,
            ground arith,
            ground (
              arith,
              length-append (version_text bytes) (replicate (24 - length (version_text bytes)) 0),
              length-replicate {A = ℕ} (24 - length (version_text bytes)) 0,
            ),
          )
    ]
