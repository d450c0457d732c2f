-- ===== src/Admin/Credentials/Safe.antt =====
-- The anchor runs with a well-formed password that its store holds, or with its pages disabled.
use bin_range.Base.{
  ℕ, zero, suc, ◌+◌, ◌-◌, get_or, Bool-cases, ◌≤◌, ◌<◌, ◌≢◌, ◌||◌, ◌==◌, ltb, not, ◌≡◌, ◌⊎◌, inl,
  inr, Bool, true, false, refl, ap, ◌∙◌, arith, ◌&&◌, Option, none, some, List, [], ◌∷◌, leb,
  if◌then◌else◌, length, take,
}
use bin_range.Admin.Text.{admin_password_valid, printable_ascii}
use bin_range.Admin.Credentials.{
  Event, read, write, commit, disable_admin_and_ota, AdminCredentialIo, AdminCredentialRead, found,
  not_found, error, text_of, or_disable, after_read, Output, has_room, admin_store_credential,
  admin_load_credential, admin_load_credential_or_disable,
}

-- A password of twelve to sixty-four printable bytes.
abbrev pub WellFormed : List ℕ → Type 0
WellFormed p = (12 ≤ length p) × (length p ≤ 64) × (admin_password_valid (some p) (length p) ≡ true)

printable-take :
    (text : List ℕ) (n : ℕ)
    → printable_ascii text n ≡ true
    → (length (take n text) ≡ n) × (printable_ascii (take n text) n ≡ true)
unfolding printable_ascii
printable-take text zero h = (refl, refl)
printable-take [] (suc n) h = absurd (ground arith)
printable-take (c ∷ text) (suc n) h =
    let (size, rest) = printable-take text n (ground arith) in (ap suc size, ground arith)

take-WellFormed :
    (text : List ℕ) (n : ℕ) → admin_password_valid (some text) n ≡ true → WellFormed (take n text)
unfolding admin_password_valid
take-WellFormed text n h =
    let (size, rest) = printable-take text n (ground arith) in
    (
      ground arith,
      ground arith,
      ap (λ k. leb 12 k && leb k 64 && printable_ascii (take n text) k) size ∙ ground arith,
    )

module _ (io : AdminCredentialIo) where
  -- The password is the stored one: what the read put in the output, up to the NUL that ends it.
  pub record FromStore (log after : List Event) (p : List ℕ) : Type 0 where
    pub out : List ℕ
    pub stored : ℕ
    pub was_read : io.read log ≡ found out stored
    pub only_read : after ≡ read ∷ log
    pub bytes : p ≡ take (stored - 1) out
    pub all : suc (length p) ≡ stored
    pub ended : get_or out (stored - 1) 0 ≡ 0

  -- The password is the bootstrap password: nothing was stored, and it was written with the byte
  -- after it, and committed.
  pub record FromBootstrap (log : List Event) (text : List ℕ) (n : ℕ) (after : List Event)
      (p : List ℕ) : Type 0 where
    pub was_empty : io.read log ≡ not_found
    pub bytes : p ≡ take n text
    pub kept : after ≡ commit ∷ write (take (n + 1) text) ∷ read ∷ log
    pub written : io.write (read ∷ log) (take (n + 1) text) ≡ true
    pub committed : io.commit (write (take (n + 1) text) ∷ read ∷ log) ≡ true

  -- What was read is no password with its NUL.
  abbrev pub Malformed : List ℕ → ℕ → Type 0
  Malformed out stored =
      (stored < 13)
      ⊎ (65 < stored)
      ⊎ (get_or out (stored - 1) 0 ≢ 0)
      ⊎ (admin_password_valid (some out) (stored - 1) ≡ false)

  -- The bootstrap password is malformed, or the store refused a call.
  abbrev pub Unstored : List Event → Option (List ℕ) → ℕ → Type 0
  Unstored log bootstrap n =
      (admin_password_valid bootstrap n ≡ false)
      ⊎ (io.write (read ∷ log) (take (n + 1) (text_of bootstrap)) ≡ false)
      ⊎ (io.commit (write (take (n + 1) (text_of bootstrap)) ∷ read ∷ log) ≡ false)

  -- Why a load fails.
  abbrev pub Refused : List Event → Option (List ℕ) → ℕ → Output → Type 0
  Refused log bootstrap n output =
      (has_room output ≡ false)
      ⊎ (io.read log ≡ error)
      ⊎ ((out : List ℕ) × (stored : ℕ) × (io.read log ≡ found out stored) × Malformed out stored)
      ⊎ ((io.read log ≡ not_found) × Unstored log bootstrap n)

  -- What a load ends with.
  abbrev pub Loaded :
      List Event → Option (List ℕ) → ℕ → Output → List Event → Option (List ℕ) → Type 0
  Loaded log bootstrap n output after none =
      ((before : List Event) × (after ≡ disable_admin_and_ota ∷ before))
      × Refused log bootstrap n output
  Loaded log bootstrap n output after (some p) =
      WellFormed p × (FromStore log after p ⊎ FromBootstrap log (text_of bootstrap) n after p)

  LoadedAll : List Event → Option (List ℕ) → ℕ → Output → List Event × Option (List ℕ) → Type 0
  LoadedAll log bootstrap n output (after, loaded) = Loaded log bootstrap n output after loaded

  malformed :
      (out : List ℕ) (stored : ℕ)
      → ltb stored 13
          || ltb 65 stored
          || not (get_or out (stored - 1) 0 == 0)
          || not (admin_password_valid (some out) (stored - 1))
        ≡ true
      → Malformed out stored
  malformed out stored h = ground arith

  found-Loaded :
      (log : List Event) (bootstrap : Option (List ℕ)) (n : ℕ) (output : Output) (p : List ℕ)
      (bad : Bool)
      → (bad ≡ true → Refused log bootstrap n output)
      → (bad ≡ false → WellFormed p × FromStore log (read ∷ log) p)
      → LoadedAll log bootstrap n output
          (or_disable (if bad then (read ∷ log, none) else (read ∷ log, some p)))
  unfolding LoadedAll
  found-Loaded log bootstrap n output p true r w = ((read ∷ log, refl), r refl)
  found-Loaded log bootstrap n output p false r w = let (good, here) = w refl in (good, inl here)

  stored-Loaded :
      (log : List Event) (text : List ℕ) (n : ℕ) (output : Output) (valid : Bool)
      → io.read log ≡ not_found
      → admin_password_valid (some text) n ≡ valid
      → (written committed : Bool)
      → let bytes = take (n + 1) text in
        io.write (read ∷ log) bytes ≡ written
        → io.commit (write bytes ∷ read ∷ log) ≡ committed
        → LoadedAll log
            (some text)
            n
            output
            (or_disable (after_read io (read ∷ log) (some text) n not_found))
  unfolding LoadedAll after_read admin_store_credential
  stored-Loaded log text n output false r v written committed e c =
      simp v ((read ∷ log, refl), inr (inr (inr (r, inl refl))))
  stored-Loaded log text n output true r v false committed e c =
      simp (v, e)
        ((write (take (n + 1) text) ∷ read ∷ log, refl), inr (inr (inr (r, inr (inl refl)))))
  stored-Loaded log text n output true r v true false e c =
      simp (v, e, c)
        (
          (commit ∷ write (take (n + 1) text) ∷ read ∷ log, refl),
          inr (inr (inr (r, inr (inr refl)))),
        )
  stored-Loaded log text n output true r v true true e c =
      simp (v, e, c)
        (
          take-WellFormed text n v,
          inr (record { was_empty = r; bytes = refl; kept = refl; written = e; committed = c }),
        )

  after_read-Loaded :
      (log : List Event) (bootstrap : Option (List ℕ)) (n : ℕ) (output : Output)
      (r : AdminCredentialRead)
      → io.read log ≡ r
      → LoadedAll log bootstrap n output (or_disable (after_read io (read ∷ log) bootstrap n r))
  unfolding LoadedAll after_read admin_password_valid
  after_read-Loaded log bootstrap n output error h = ((read ∷ log, refl), inr (inl h))
  after_read-Loaded log none n output not_found h =
      ((read ∷ log, refl), inr (inr (inr (h, inl refl))))
  after_read-Loaded log (some text) n output not_found h =
      stored-Loaded log text n output (admin_password_valid (some text) n) h refl
        (io.write (read ∷ log) (take (n + 1) text))
        (io.commit (write (take (n + 1) text) ∷ read ∷ log)) refl refl
  after_read-Loaded log bootstrap n output (found out stored) h =
      found-Loaded log bootstrap n output (take (stored - 1) out) _
        (λ bad. inr (inr (inl (out, stored, h, malformed out stored bad))))
        (λ good.
          let printable = printable-take out (stored - 1) (ground arith) in
          (
            take-WellFormed out (stored - 1) (ground arith),
            record {
              out = out;
              stored = stored;
              was_read = h;
              only_read = refl;
              bytes = refl;
              all = ground arith;
              ended = ground arith;
            },
          ))

  -- After the load, either the pages are disabled, and then the output has no room, the read failed
  -- or gave no well-formed password with its NUL, or the store was empty and the bootstrap password
  -- is malformed or a call to store it was refused. Or the password in use is well formed and is the
  -- one that the store holds: it is what was read there, up to the NUL that ends it; or the store
  -- was empty, it is the bootstrap password, and that was written and committed, in this order, with
  -- each of the two calls granted.
  pub admin_load_credential_or_disable_lem :
      (log : List Event) (bootstrap : Option (List ℕ)) (n : ℕ) (out : Output)
      → let (after, loaded) = admin_load_credential_or_disable io log bootstrap n out in
        Loaded log bootstrap n out after loaded
  unfolding admin_load_credential_or_disable admin_load_credential LoadedAll
  admin_load_credential_or_disable_lem log bootstrap n out = elim (Bool-cases (has_room out)) [
    | inl e ↦ simp e (after_read-Loaded log bootstrap n out (io.read log) refl)
    | inr e ↦ simp e ((log, refl), inl refl)
  ]
