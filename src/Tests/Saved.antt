-- ===== src/Tests/Saved.antt =====
-- The saved form of a queue with one job.
use bin_range.Base.{ℕ, ◌≡◌, true, refl, arith, List, [], ◌∷◌, some, length}
use bin_range.Update.Job.{hex_digit, bytes_eq, update_terminal}
use bin_range.Update.Queue.{
  update_export_state, valid_restore, valid_entries, valid_state, valid_target, valid_release,
  hex_prefix, has_zero, clashes, clash,
}
use bin_range.Update.Snapshot.{
  UpdateSnapshot, update_snapshot_encode, update_snapshot_decode, valid_snapshot,
  valid_associations, valid_association, association_clashes, association_clash, all_associated,
  has_association, all_byte,
}
use bin_range.Update.Snapshot.Canonical.{canonical}
use bin_range.Update.Snapshot.RoundTrip.{IsWords, decode-encode}
use bin_range.Tests.Data.{tag_seven, waiting_job}

abbrev one_saved : UpdateSnapshot
one_saved = record {
  restart_count = 3;
  associations =
      record {
        target = tag_seven;
        address = 209 ∷ 42 ∷ 131 ∷ 140 ∷ 240 ∷ 180 ∷ [];
        address_type = 1;
      }
      ∷ [];
  jobs = record { state = update_export_state waiting_job; last_wall_seconds = 1_700_000_000 } ∷ [];
}

one_saved-valid : valid_snapshot one_saved ≡ true
unfolding valid_snapshot valid_restore valid_entries valid_state valid_target valid_release
    hex_prefix has_zero hex_digit clashes clash valid_associations valid_association
    association_clashes association_clash all_associated has_association all_byte bytes_eq
    update_terminal update_export_state
one_saved-valid = refl

one_saved-IsWords : IsWords one_saved
unfolding has_zero update_export_state
one_saved-IsWords = record {
  restart_count = omega arith;
  associations = (
    record {
      tag = omega arith;
      hardware_id = refl;
      nul = refl;
      address = refl;
      address_type = omega arith;
    },
    tt,
  );
  jobs = (
    record {
      id = omega arith;
      tag = omega arith;
      hardware_id = refl;
      nul = refl;
      phase = omega arith;
      attempts = omega arith;
      acknowledged = omega arith;
      size = omega arith;
      file_sha = refl;
      image_hash = refl;
      version = refl;
      error = refl;
      last_wall_seconds = omega arith;
    },
    tt,
  );
}

decode-encode_example :
    (bytes : List ℕ) × (update_snapshot_encode one_saved (some 3832) ≡ some bytes)
    × (length bytes ≡ 262)
    × (update_snapshot_decode (some bytes) ≡ some (canonical one_saved))
decode-encode_example = decode-encode one_saved 3832 one_saved-IsWords one_saved-valid (omega arith)
