-- ===== src/Update/Snapshot/Canonical.antt =====
-- A snapshot with its strings as the encoder writes them is as valid as it was.
use bin_range.Base.{
  ℕ, suc, ◌≡◌, true, refl, ap, sym, ◌∙◌, arith, List, [], ◌∷◌, length, take, get_or, map,
  length-map, take-length,
}
use bin_range.Update.Queue.{
  valid_release, valid_state, clash, clashes, valid_entries, valid_restore,
}
use bin_range.Update.Snapshot.{
  UpdateSnapshot, UpdateAssociation, SavedJob, put_string, job_states, valid_snapshot,
  all_associated,
}
use bin_range.Update.Snapshot.Text.{has_zero-put_string, put_string-last}
use bin_range.Update.Snapshot.Records.{JobWords, AllJobWords, canonical_job}

-- The snapshot that comes back.
unfoldable pub canonical : UpdateSnapshot → UpdateSnapshot
canonical s = record s { jobs = map canonical_job s.jobs }

put_string-first : (width : ℕ) (v : List ℕ) → get_or (put_string (suc width) v) 0 0 ≡ get_or v 0 0
put_string-first width [] = refl
put_string-first width (c ∷ v) = ground arith

valid_state-canonical :
    (j : SavedJob)
    → JobWords j
    → valid_state j.state ≡ true
    → valid_state (canonical_job j).state ≡ true
unfolding valid_state valid_release
valid_state-canonical j w h =
    let s = j.state in
    let first = put_string-first 23 s.release.version in
    let last = put_string-last 23 s.release.version w.version in
    let ends = has_zero-put_string 80 s.error w.error in ground arith

clashes-canonical :
    (j : SavedJob) (seen : List SavedJob)
    → clashes (canonical_job j).state (job_states (map canonical_job seen))
      ≡ clashes j.state (job_states seen)
unfolding clashes clash
clashes-canonical j [] = refl
clashes-canonical j (k ∷ seen) = ground (arith, clashes-canonical j seen)

valid_entries-canonical :
    (seen js : List SavedJob)
    → AllJobWords js
    → valid_entries (job_states seen) (job_states js) ≡ true
    → valid_entries (job_states (map canonical_job seen)) (job_states (map canonical_job js)) ≡ true
unfolding valid_entries
valid_entries-canonical seen [] w h = refl
valid_entries-canonical seen (j ∷ js) w h = ground (
  arith,
  valid_state-canonical j w.0,
  clashes-canonical j seen,
  valid_entries-canonical (j ∷ seen) js w.1,
)

whole : (js : List SavedJob) → take (length js) (job_states js) ≡ job_states js
whole js =
    ap (λ n. take n (job_states js)) (sym (length-map js SavedJob.state))
    ∙ take-length (job_states js)

all_associated-canonical :
    (xs : List UpdateAssociation) (js : List SavedJob)
    → all_associated xs (job_states (map canonical_job js)) ≡ all_associated xs (job_states js)
unfolding all_associated
all_associated-canonical xs [] = refl
all_associated-canonical xs (j ∷ js) = ground (arith, all_associated-canonical xs js)

pub canonical-valid_snapshot :
    (s : UpdateSnapshot)
    → AllJobWords s.jobs
    → valid_snapshot s ≡ true
    → valid_snapshot (canonical s) ≡ true
unfolding canonical valid_snapshot valid_restore
canonical-valid_snapshot s w h = ground (
  arith,
  whole s.jobs,
  whole (map canonical_job s.jobs),
  length-map s.jobs canonical_job,
  valid_entries-canonical [] s.jobs w,
  all_associated-canonical s.associations s.jobs,
)
