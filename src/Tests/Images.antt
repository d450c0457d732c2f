-- ===== src/Tests/Images.antt =====
-- A smallest image that `parse_update_image` accepts.
use bin_range.Base.{ℕ, ◌+◌, ◌≤◌, ◌<◌, ◌≡◌, some, refl, List, [], ◌∷◌, ◌++◌, length, replicate}
use bin_range.Update.Image.{
  ImageInfo, parse_update_image, parse_tlv_area, tlv_walk, tlv_round, note_tlv,
  valid_ecdsa_p256_der, der_integer, decimal, version_text,
}
use bin_range.Update.Image.Walk.{parse_update_image_lem}

abbrev image_header : List ℕ
image_header =
    0x3d ∷ 0xb8 ∷ 0xf3 ∷ 0x96 ∷ 0 ∷ 0 ∷ 0 ∷ 0 ∷ 32 ∷ 0 ∷ 0 ∷ 0 ∷ 4 ∷ 0 ∷ 0 ∷ 0 ∷ 0 ∷ 0 ∷ 0 ∷ 0 ∷ 1
    ∷ 2 ∷ 3 ∷ 0 ∷ 4 ∷ 0 ∷ 0 ∷ 0 ∷ 0 ∷ 0 ∷ 0 ∷ 0 ∷ []

abbrev signature_entry : List ℕ
signature_entry = 0x22 ∷ 0 ∷ 8 ∷ 0 ∷ 0x30 ∷ 6 ∷ 2 ∷ 1 ∷ 1 ∷ 2 ∷ 1 ∷ 1 ∷ []

abbrev image_entries : List ℕ
image_entries =
    (0x10 ∷ 0 ∷ 32 ∷ 0 ∷ replicate 32 9) ++ (1 ∷ 0 ∷ 32 ∷ 0 ∷ replicate 32 8) ++ signature_entry

abbrev pub image : List ℕ
image = image_header ++ replicate 4 5 ++ 0x07 ∷ 0x69 ∷ 88 ∷ 0 ∷ image_entries

abbrev image_info : ImageInfo
image_info = record {
  signed_region_size = 36;
  image_hash = replicate 32 9;
  version = (49 ∷ 46 ∷ 50 ∷ 46 ∷ 51 ∷ 43 ∷ 52 ∷ []) ++ replicate 17 0;
}

image-parsed : parse_update_image (some image) ≡ some image_info
unfolding parse_update_image parse_tlv_area tlv_walk tlv_round note_tlv valid_ecdsa_p256_der
    der_integer decimal version_text
image-parsed = refl

parse_update_image_lem_example :
    (32 < image_info.signed_region_size)
    × (image_info.signed_region_size + 4 ≤ length image)
    × (length image ≤ 212992)
    × (length image_info.version ≡ 24)
parse_update_image_lem_example = parse_update_image_lem image image_info image-parsed

abbrev protected_area : List ℕ
protected_area = 0x08 ∷ 0x69 ∷ 16 ∷ 0 ∷ signature_entry
