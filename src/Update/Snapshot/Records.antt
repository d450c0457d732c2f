-- ===== src/Update/Snapshot/Records.antt =====
-- One association and one job, read back from their bytes.
use bin_range.Base.{
  ℕ, zero, suc, ◌+◌, ◌*◌, ◌≤◌, ◌<◌, ◌≡◌, Bool, true, false, not, refl, ap, ◌∙◌, arith, List, [],
  ◌∷◌, ◌++◌, some, length, take, drop, get_or, length-take, map, ◌==◌,
}
use bin_range.Update.Job.{
  UpdatePhase, phase_byte, queued, waiting, connecting, uploading, rebooting, checking, successful,
  failed, cancelled, needs_release, needs_action, unnamed,
}
use bin_range.Update.Queue.{has_zero}
use bin_range.Update.Snapshot.{
  UpdateAssociation, SavedJob, put, get, slice, byte_at, all_byte, put_string, canonical_string,
  canonical_from, layout, flag_byte, association_fields, job_fields, encode_jobs,
  encode_associations, phase_of, read_association, decode_associations, read_job, valid_job_bytes,
  decode_jobs,
}
use bin_range.Update.Snapshot.Fields.{
  Fits, slice-layout, drop-layout, drop-layout_more, length-layout, get-put,
}
use bin_range.Update.Snapshot.Text.{length-put_string, canonical-put_string}

-- The fields of an association are of their types' sizes.
pub record AssociationWords (a : UpdateAssociation) : Type 0 where
  pub tag : a.target.tag < 0x1_0000
  pub hardware_id : length a.target.hardware_id ≡ 17
  pub nul : byte_at 16 a.target.hardware_id ≡ 0
  pub address : length a.address ≡ 6
  pub address_type : a.address_type < 256

-- The fields of a job are of their types' sizes, the phase is one that the enum names, and the two
-- strings end.
pub record JobWords (saved : SavedJob) : Type 0 where
  pub id : saved.state.id < 0x1_0000_0000
  pub tag : saved.state.target.tag < 0x1_0000
  pub hardware_id : length saved.state.target.hardware_id ≡ 17
  pub nul : byte_at 16 saved.state.target.hardware_id ≡ 0
  pub phase : phase_byte saved.state.phase ≤ 10
  pub attempts : saved.state.attempts < 256
  pub acknowledged : saved.state.acknowledged < 0x1_0000_0000
  pub size : saved.state.release.size < 0x1_0000_0000
  pub file_sha : length saved.state.release.file_sha ≡ 32
  pub image_hash : length saved.state.release.image_hash ≡ 32
  pub version : has_zero 24 saved.state.release.version ≡ true
  pub error : has_zero 80 saved.state.error ≡ true
  pub last_wall_seconds : saved.last_wall_seconds < 0x1_0000_0000_0000_0000

-- The strings as the encoder writes them.
abbrev pub canonical_job : SavedJob → SavedJob
canonical_job saved = record saved {
  state = record (saved.state) {
    release = record (saved.state.release) { version = put_string 24 saved.state.release.version };
    error = put_string 80 saved.state.error;
  };
}

abbrev pub AllAssociationWords : List UpdateAssociation → Type 0
AllAssociationWords [] = Unit {0}
AllAssociationWords (a ∷ xs) = AssociationWords a × AllAssociationWords xs

abbrev pub AllJobWords : List SavedJob → Type 0
AllJobWords [] = Unit {0}
AllJobWords (j ∷ js) = JobWords j × AllJobWords js

take-all : (xs : List ℕ) (n : ℕ) → length xs ≡ n → take n xs ≡ xs
take-all [] zero h = refl
take-all [] (suc n) h = refl
take-all (x ∷ xs) zero h = absurd (omega arith)
take-all (x ∷ xs) (suc n) h = ap (◌∷◌ x) (take-all xs n (omega arith))

take-last : (xs : List ℕ) (n : ℕ) → length xs ≡ suc n → get_or xs n 0 ≡ 0 → take n xs ++ 0 ∷ [] ≡ xs
take-last [] n h e = absurd (omega arith)
take-last (x ∷ []) zero h e = ap (λ b. b ∷ []) (ground arith)
take-last (x ∷ y ∷ xs) zero h e = absurd (omega arith)
take-last (x ∷ xs) (suc n) h e = ap (◌∷◌ x) (take-last xs n (omega arith) e)

length-prefix : (xs : List ℕ) (n m : ℕ) → length xs ≡ m → n ≤ m → length (take n xs) ≡ n
length-prefix xs n m h le = omega (arith, length-take n xs)

abbrev pub association_widths : List ℕ
association_widths = 2 ∷ 16 ∷ 6 ∷ 1 ∷ 1 ∷ []

association-Fits :
    (a : UpdateAssociation) → AssociationWords a → Fits association_widths (association_fields a)
association-Fits a w = (
  refl,
  (
    length-prefix a.target.hardware_id 16 17 w.hardware_id (omega arith),
    (length-prefix a.address 6 6 w.address (omega arith), (refl, (refl, tt))),
  ),
)

association-eq :
    (a : UpdateAssociation) (p : List ℕ)
    → get (slice 0 2 p) ≡ a.target.tag
    → slice 2 16 p ++ 0 ∷ [] ≡ a.target.hardware_id
    → slice 18 6 p ≡ a.address
    → get (slice 24 1 p) ≡ a.address_type
    → read_association p ≡ a
association-eq a p e0 e1 e2 e3 = ground arith

read_association-layout :
    (a : UpdateAssociation) (rest : List ℕ)
    → AssociationWords a
    → read_association (layout (association_fields a) rest) ≡ a
read_association-layout a rest w =
    let fits = association-Fits a w in
    let at = λ (i : ℕ). slice-layout association_widths (association_fields a) rest i fits in
    association-eq a (layout (association_fields a) rest)
      (ap get (at 0) ∙ get-put 2 a.target.tag w.tag)
      (ap (λ xs. xs ++ 0 ∷ []) (at 1) ∙ take-last a.target.hardware_id 16 w.hardware_id w.nul)
      (at 2 ∙ take-all a.address 6 w.address)
      (ap get (at 3) ∙ get-put 1 a.address_type w.address_type)

abbrev pub job_widths : List ℕ
job_widths = 4 ∷ 2 ∷ 16 ∷ 1 ∷ 1 ∷ 1 ∷ 3 ∷ 4 ∷ 4 ∷ 32 ∷ 32 ∷ 24 ∷ 80 ∷ 8 ∷ []

job-Fits : (j : SavedJob) → JobWords j → Fits job_widths (job_fields j)
job-Fits j w = (
  refl,
  (
    refl,
    (
      length-prefix j.state.target.hardware_id 16 17 w.hardware_id (omega arith),
      (
        refl,
        (
          refl,
          (
            refl,
            (
              refl,
              (
                refl,
                (
                  refl,
                  (
                    length-prefix j.state.release.file_sha 32 32 w.file_sha (omega arith),
                    (
                      length-prefix j.state.release.image_hash 32 32 w.image_hash (omega arith),
                      (
                        length-put_string 24 j.state.release.version,
                        (length-put_string 80 j.state.error, (refl, tt)),
                      ),
                    ),
                  ),
                ),
              ),
            ),
          ),
        ),
      ),
    ),
  ),
)

phase_of-phase_byte : (p : UpdatePhase) → phase_byte p ≤ 10 → phase_of (phase_byte p) ≡ p
phase_of-phase_byte queued h = refl
phase_of-phase_byte waiting h = refl
phase_of-phase_byte connecting h = refl
phase_of-phase_byte uploading h = refl
phase_of-phase_byte rebooting h = refl
phase_of-phase_byte checking h = refl
phase_of-phase_byte successful h = refl
phase_of-phase_byte failed h = refl
phase_of-phase_byte cancelled h = refl
phase_of-phase_byte needs_release h = refl
phase_of-phase_byte needs_action h = refl
phase_of-phase_byte (unnamed n) h = absurd (omega arith)

-- What the fields of a record must be for it to read as this job.
record Reads (j : SavedJob) (p : List ℕ) : Type 0 where
  id : get (slice 0 4 p) ≡ j.state.id
  tag : get (slice 4 2 p) ≡ j.state.target.tag
  hardware_id : slice 6 16 p ++ 0 ∷ [] ≡ j.state.target.hardware_id
  phase : phase_of (get (slice 22 1 p)) ≡ j.state.phase
  attempts : get (slice 23 1 p) ≡ j.state.attempts
  trial : not (get (slice 24 1 p) == 0) ≡ j.state.trial_may_be_armed
  acknowledged : get (slice 28 4 p) ≡ j.state.acknowledged
  size : get (slice 32 4 p) ≡ j.state.release.size
  file_sha : slice 36 32 p ≡ j.state.release.file_sha
  image_hash : slice 68 32 p ≡ j.state.release.image_hash
  version : slice 100 24 p ≡ put_string 24 j.state.release.version
  error : slice 124 80 p ≡ put_string 80 j.state.error
  wall : get (slice 204 8 p) ≡ j.last_wall_seconds

read_job-eq : (j : SavedJob) (p : List ℕ) → Reads j p → read_job p ≡ canonical_job j
read_job-eq j p r = ground arith

read_job-layout : (j : SavedJob) (rest : List ℕ) → JobWords j → Reads j (layout (job_fields j) rest)
read_job-layout j rest w =
    let s = j.state in
    let fits = job-Fits j w in
    let at = λ (i : ℕ). slice-layout job_widths (job_fields j) rest i fits in
    let flag =
      ap get (at 5) ∙ get-put 1 (flag_byte s.trial_may_be_armed) (flag_lt s.trial_may_be_armed) in
    record {
      id = ap get (at 0) ∙ get-put 4 s.id w.id;
      tag = ap get (at 1) ∙ get-put 2 s.target.tag w.tag;
      hardware_id =
          ap (λ xs. xs ++ 0 ∷ []) (at 2) ∙ take-last s.target.hardware_id 16 w.hardware_id w.nul;
      phase =
          ap phase_of (ap get (at 3) ∙ get-put 1 (phase_byte s.phase) (byte_lt w.phase))
          ∙ phase_of-phase_byte s.phase w.phase;
      attempts = ap get (at 4) ∙ get-put 1 s.attempts w.attempts;
      trial = ap (λ b. not (b == 0)) flag ∙ flag-eq s.trial_may_be_armed;
      acknowledged = ap get (at 7) ∙ get-put 4 s.acknowledged w.acknowledged;
      size = ap get (at 8) ∙ get-put 4 s.release.size w.size;
      file_sha = at 9 ∙ take-all s.release.file_sha 32 w.file_sha;
      image_hash = at 10 ∙ take-all s.release.image_hash 32 w.image_hash;
      version = at 11;
      error = at 12;
      wall = ap get (at 13) ∙ get-put 8 j.last_wall_seconds w.last_wall_seconds;
    }
  where
    flag_lt : (b : Bool) → flag_byte b < 256
    flag_lt b = ground arith

    flag-eq : (b : Bool) → not (flag_byte b == 0) ≡ b
    flag-eq b = ground arith

    byte_lt : {n : ℕ} → n ≤ 10 → n < 256
    byte_lt h = omega arith

all_zero : all_byte 0 (put 3 0) ≡ true
unfolding all_byte
all_zero = refl

valid_job_bytes_intro :
    (p : List ℕ) (flag : Bool)
    → get (slice 24 1 p) ≡ flag_byte flag
    → slice 25 3 p ≡ put 3 0
    → canonical_from false (slice 100 24 p) ≡ true
    → canonical_from false (slice 124 80 p) ≡ true
    → valid_job_bytes p ≡ true
unfolding valid_job_bytes canonical_string
valid_job_bytes_intro p flag e z v x =
    let zeros : all_byte 0 (slice 25 3 p) ≡ true = ap (all_byte 0) z ∙ all_zero in ground arith

valid_job_bytes-layout :
    (j : SavedJob) (rest : List ℕ)
    → JobWords j
    → valid_job_bytes (layout (job_fields j) rest) ≡ true
valid_job_bytes-layout j rest w =
    let s = j.state in
    let fits = job-Fits j w in
    let at = λ (i : ℕ). slice-layout job_widths (job_fields j) rest i fits in
    valid_job_bytes_intro (layout (job_fields j) rest) s.trial_may_be_armed
      (ap get (at 5) ∙ get-put 1 (flag_byte s.trial_may_be_armed) (ground arith)) (at 6)
      (ap (canonical_from false) (at 11) ∙ canonical-put_string 24 s.release.version w.version)
      (ap (canonical_from false) (at 12) ∙ canonical-put_string 80 s.error w.error)

decode_associations_step :
    (a : UpdateAssociation) (xs : List UpdateAssociation) (count : ℕ) (p : List ℕ)
    → get (slice 25 1 p) ≡ 0
    → read_association p ≡ a
    → decode_associations count (drop 26 p) ≡ some xs
    → decode_associations (suc count) p ≡ some (a ∷ xs)
unfolding decode_associations
decode_associations_step a xs count p z e h = ground arith

decode_associations_end : (p : List ℕ) → decode_associations 0 p ≡ some []
unfolding decode_associations
decode_associations_end p = refl

pub decode_associations-encode :
    (xs : List UpdateAssociation) (rest : List ℕ)
    → AllAssociationWords xs
    → decode_associations (length xs) (encode_associations xs rest) ≡ some xs
unfolding encode_associations
decode_associations-encode [] rest w = decode_associations_end rest
decode_associations-encode (a ∷ xs) rest w =
    let after = encode_associations xs rest in
    let fits = association-Fits a w.0 in
    decode_associations_step a xs (length xs) (layout (association_fields a) after)
      (ap get (slice-layout association_widths (association_fields a) after 4 fits))
      (read_association-layout a after w.0)
      (ap (decode_associations (length xs))
          (drop-layout association_widths (association_fields a) after fits)
        ∙ decode_associations-encode xs rest w.1)

pub drop-encode_associations :
    (xs : List UpdateAssociation) (rest : List ℕ)
    → AllAssociationWords xs
    → drop (length xs * 26) (encode_associations xs rest) ≡ rest
unfolding encode_associations
drop-encode_associations [] rest w = refl
drop-encode_associations (a ∷ xs) rest w =
    let after = encode_associations xs rest in
    ap (λ n. drop n (layout (association_fields a) after)) (grow (length xs))
    ∙ drop-layout_more (length xs * 26) association_widths (association_fields a) after
        (association-Fits a w.0)
    ∙ drop-encode_associations xs rest w.1
  where
    grow : (n : ℕ) → suc n * 26 ≡ 26 + n * 26
    grow n = omega arith

decode_jobs_step :
    (j : SavedJob) (js : List SavedJob) (count : ℕ) (p : List ℕ)
    → valid_job_bytes p ≡ true
    → read_job p ≡ j
    → decode_jobs count (drop 212 p) ≡ some js
    → decode_jobs (suc count) p ≡ some (j ∷ js)
unfolding decode_jobs
decode_jobs_step j js count p z e h = ground arith

decode_jobs_end : decode_jobs 0 [] ≡ some []
unfolding decode_jobs
decode_jobs_end = refl

pub decode_jobs-encode :
    (js : List SavedJob)
    → AllJobWords js
    → decode_jobs (length js) (encode_jobs js) ≡ some (map canonical_job js)
unfolding encode_jobs
decode_jobs-encode [] w = decode_jobs_end
decode_jobs-encode (j ∷ js) w =
    let after = encode_jobs js in
    let fits = job-Fits j w.0 in
    let p = layout (job_fields j) after in
    decode_jobs_step (canonical_job j) (map canonical_job js) (length js) p
      (valid_job_bytes-layout j after w.0) (read_job-eq j p (read_job-layout j after w.0))
      (ap (decode_jobs (length js)) (drop-layout job_widths (job_fields j) after fits)
        ∙ decode_jobs-encode js w.1)

pub length-encode_associations :
    (xs : List UpdateAssociation) (rest : List ℕ)
    → AllAssociationWords xs
    → length (encode_associations xs rest) ≡ length xs * 26 + length rest
unfolding encode_associations
length-encode_associations [] rest w = omega arith
length-encode_associations (a ∷ xs) rest w = omega (
  arith,
  length-layout association_widths (association_fields a) (encode_associations xs rest)
      (association-Fits a w.0),
  length-encode_associations xs rest w.1,
)

pub length-encode_jobs :
    (js : List SavedJob) → AllJobWords js → length (encode_jobs js) ≡ length js * 212
unfolding encode_jobs
length-encode_jobs [] w = omega arith
length-encode_jobs (j ∷ js) w = omega (
  arith,
  length-layout job_widths (job_fields j) (encode_jobs js) (job-Fits j w.0),
  length-encode_jobs js w.1,
)
