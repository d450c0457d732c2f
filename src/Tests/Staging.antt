-- ===== src/Tests/Staging.antt =====
-- A staged image is lent, and the next upload has to wait.
use bin_range.Base.{◌≡◌, true, refl, List, [], ◌∷◌, ◌++◌, none, some, replicate, take}
use bin_range.Update.Job.{UpdateRelease, bytes_eq, bounded_length}
use bin_range.Update.Queue.{init, has_zero}
use bin_range.Update.Image.{
  parse_update_image, validate_release, parse_tlv_area, tlv_walk, tlv_round, note_tlv,
  valid_ecdsa_p256_der, der_integer, decimal, version_text,
}
use bin_range.Update.Storage.{
  UpdateStorage, UpdateStorageBackend, new_storage, missing, verified, acquire, release,
  same_release,
}
use bin_range.Update.Storage.Staged.{
  IsStaged, Call, begins, acquires, gives_back, apply, run, acquired_is_verified, lent_is_kept,
}
use bin_range.Tests.Images.{image}

-- A backend that grants every call, with a digest that is the same for all data.
abbrev granting_backend : UpdateStorageBackend
granting_backend = record {
  callbacks_present = true;
  snapshot_size = λ log. missing;
  read_snapshot = λ log size. none;
  write_snapshot = λ log bytes. true;
  can_allocate = true;
  allocate_external = λ log. true;
  allocation_size = λ log. 212992;
  is_external = λ log. true;
  can_hash = true;
  sha256 = λ bytes. some (replicate 32 9);
}

abbrev image_release : UpdateRelease
image_release = record {
  size = 124;
  file_sha = replicate 32 9;
  image_hash = replicate 32 9;
  version = (49 ∷ 46 ∷ 50 ∷ 46 ∷ 51 ∷ 43 ∷ 52 ∷ []) ++ replicate 17 0;
}

abbrev holding : UpdateStorage
holding = record new_storage {
  queue = some 1;
  stage_bytes = some image;
  capacity = 212992;
  ready = true;
  staged = image_release;
  staged_valid = true;
}

holding-IsStaged : IsStaged granting_backend holding
unfolding verified parse_update_image validate_release parse_tlv_area tlv_walk tlv_round note_tlv
    valid_ecdsa_p256_der der_integer decimal version_text has_zero bytes_eq bounded_length
holding-IsStaged = record { quiet = λ e. refl; whole = λ e. refl }

abbrev lent_and_returned : List (Call granting_backend)
lent_and_returned = acquires image_release ∷ gives_back ∷ []

acquired_is_verified_example : verified granting_backend (take 124 image) image_release ≡ true
unfolding run apply acquire release same_release bytes_eq
acquired_is_verified_example =
    acquired_is_verified granting_backend lent_and_returned holding image_release image
      holding-IsStaged refl

abbrev lending : UpdateStorage
lending = record holding { borrowed = true }

abbrev second_upload : List (Call granting_backend)
second_upload = begins (init 1) image_release ∷ []

lent_is_kept_example :
    ((run granting_backend second_upload lending).borrowed ≡ true)
    × ((run granting_backend second_upload lending).stage_bytes ≡ some image)
lent_is_kept_example = lent_is_kept granting_backend second_upload lending refl refl
