-- ===== src/Update/Storage/Staged.antt =====
-- The staging buffer: what is lent is a verified image of the release asked for, and stays as it is
-- until it is given back.
use bin_range.Base.{
  ℕ, ◌≡◌, Bool, true, false, refl, ap, sym, ◌∙◌, arith, List, [], ◌∷◌, some, take, ◌||◌,
}
use bin_range.Update.Job.{UpdateRelease}
use bin_range.Update.Job.Trial.{bytes_eq-eq}
use bin_range.Update.Queue.{UpdateQueue}
use bin_range.Update.Snapshot.{UpdateSnapshot}
use bin_range.Update.Storage.{
  UpdateStorage, UpdateStorageBackend, buffer, verified, stage_begin, stage_write, stage_finish,
  stage_abort, acquire, release, checkpoint, same_release,
}

module _ (backend : UpdateStorageBackend) where
  -- What holds of the staging side between two calls.
  pub record IsStaged (s : UpdateStorage) : Type 0 where
    pub quiet : s.staged_valid ≡ true → s.receiving_active ≡ false
    pub whole :
        s.staged_valid ≡ true → verified backend (take s.staged.size (buffer s)) s.staged ≡ true

  -- One call of the staging side.
  pub data Call : Type 0 where
    begins : UpdateQueue → UpdateRelease → Call
    writes : List ℕ → Call
    finishes aborts gives_back : Call
    acquires : UpdateRelease → Call
    checkpoints : UpdateSnapshot → Call

  unfoldable pub apply : Call → UpdateStorage → UpdateStorage
  apply (begins queue wanted) s = (stage_begin s queue wanted).0
  apply (writes bytes) s = (stage_write s bytes).0
  apply finishes s = (stage_finish backend s).0
  apply aborts s = (stage_abort s).0
  apply gives_back s = release s
  apply (acquires wanted) s = (acquire s wanted).0
  apply (checkpoints candidate) s = (checkpoint backend s candidate).0

  apply-IsStaged : (c : Call) (s : UpdateStorage) → IsStaged s → IsStaged (apply c s)
  unfolding apply stage_begin stage_write stage_finish stage_abort acquire release checkpoint
  apply-IsStaged (begins queue wanted) s v = ground arith
  apply-IsStaged (writes bytes) s v = ground arith
  apply-IsStaged finishes s v = ground arith
  apply-IsStaged aborts s v = ground arith
  apply-IsStaged gives_back s v = ground arith
  apply-IsStaged (acquires wanted) s v = ground arith
  apply-IsStaged (checkpoints candidate) s v = ground arith

  unfoldable pub run : List Call → UpdateStorage → UpdateStorage
  run [] s = s
  run (c ∷ cs) s = run cs (apply c s)

  run-IsStaged : (cs : List Call) (s : UpdateStorage) → IsStaged s → IsStaged (run cs s)
  unfolding run
  run-IsStaged [] s v = v
  run-IsStaged (c ∷ cs) s v = run-IsStaged cs (apply c s) (apply-IsStaged c s v)

  same_release-eq : (left right : UpdateRelease) → same_release left right ≡ true → left ≡ right
  unfolding same_release
  same_release-eq left right h =
      let a = bytes_eq-eq left.file_sha right.file_sha (ground arith) in
      let b = bytes_eq-eq left.image_hash right.image_hash (ground arith) in
      let c = bytes_eq-eq left.version right.version (ground arith) in ground arith

  acquire-some :
      (s : UpdateStorage) (wanted : UpdateRelease) (bytes : List ℕ)
      → (acquire s wanted).1 ≡ some bytes
      → (s.staged_valid ≡ true) × (same_release wanted s.staged ≡ true) × (buffer s ≡ bytes)
  unfolding acquire
  acquire-some s wanted bytes h = (ground arith, ground arith, ground arith)

  -- After any sequence of calls, bytes that `acquire` lends for a release begin with a complete
  -- image that was parsed, whose two digests were computed, and that matches this very release.
  pub acquired_is_verified :
      (cs : List Call) (s : UpdateStorage) (wanted : UpdateRelease) (bytes : List ℕ)
      → IsStaged s
      → (acquire (run cs s) wanted).1 ≡ some bytes
      → verified backend (take wanted.size bytes) wanted ≡ true
  acquired_is_verified cs s wanted bytes v h =
      let s' = run cs s in
      let (valid, same, lent) = acquire-some s' wanted bytes h in
      let agreed = same_release-eq wanted s'.staged same in
      let whole = (run-IsStaged cs s v).whole valid in
      ap (λ r. verified backend (take r.size bytes) r) agreed
      ∙ ap (λ b. verified backend (take s'.staged.size b) s'.staged) (sym lent)
      ∙ whole

  -- A call gives the image back.
  abbrev pub returns : List Call → Bool
  returns [] = false
  returns (gives_back ∷ cs) = true
  returns (begins queue wanted ∷ cs) = returns cs
  returns (writes bytes ∷ cs) = returns cs
  returns (finishes ∷ cs) = returns cs
  returns (aborts ∷ cs) = returns cs
  returns (acquires wanted ∷ cs) = returns cs
  returns (checkpoints candidate ∷ cs) = returns cs

  apply_keeps_lent :
      (c : Call) (s : UpdateStorage)
      → s.borrowed ≡ true
      → returns (c ∷ []) ≡ false
      → ((apply c s).borrowed ≡ true) × ((apply c s).stage_bytes ≡ s.stage_bytes)
  unfolding apply stage_begin stage_write stage_finish stage_abort acquire checkpoint
  apply_keeps_lent (begins queue wanted) s b r = (ground arith, ground arith)
  apply_keeps_lent (writes bytes) s b r = (ground arith, ground arith)
  apply_keeps_lent finishes s b r = (ground arith, ground arith)
  apply_keeps_lent aborts s b r = (ground arith, ground arith)
  apply_keeps_lent gives_back s b r = absurd (ground arith)
  apply_keeps_lent (acquires wanted) s b r = (ground arith, ground arith)
  apply_keeps_lent (checkpoints candidate) s b r = (ground arith, ground arith)

  returns-cons : (c : Call) (cs : List Call) → returns (c ∷ cs) ≡ (returns (c ∷ []) || returns cs)
  returns-cons (begins queue wanted) cs = refl
  returns-cons (writes bytes) cs = refl
  returns-cons finishes cs = refl
  returns-cons aborts cs = refl
  returns-cons gives_back cs = refl
  returns-cons (acquires wanted) cs = refl
  returns-cons (checkpoints candidate) cs = refl

  -- While an image is lent, no sequence of calls that does not give it back writes to the buffer or
  -- clears the mark that it is lent.
  pub lent_is_kept :
      (cs : List Call) (s : UpdateStorage)
      → s.borrowed ≡ true
      → returns cs ≡ false
      → ((run cs s).borrowed ≡ true) × ((run cs s).stage_bytes ≡ s.stage_bytes)
  unfolding run
  lent_is_kept [] s b r = (b, refl)
  lent_is_kept (c ∷ cs) s b r =
      let split = returns-cons c cs in
      let (b', same) = apply_keeps_lent c s b (ground arith) in
      let (b'', same') = lent_is_kept cs (apply c s) b' (ground arith) in (b'', same' ∙ same)
