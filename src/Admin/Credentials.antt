-- ===== src/Admin/Credentials.antt =====
-- `admin_store_credential`, `admin_load_credential` and their callers of
-- firmware/anchor/src/core/admin_credentials.cpp. The interfaces `AdminCredentialIo` and
-- `AdminCredentialFailureIo` are parameters, whose answers may depend on the calls made so far; the
-- model records these calls, the latest first. A text is the memory from its pointer on.
pub mod Safe
use bin_range.Base.{
  ℕ, ◌+◌, ◌-◌, Bool, true, false, not, ◌&&◌, ◌||◌, Option, none, some, List, [], ◌∷◌, ◌++◌, ltb,
  leb, ◌==◌, if◌then◌else◌, length, take, get_or,
}
use bin_range.Admin.Text.{admin_password_valid}

-- A call, with what was passed.
pub data Event : Type 0 where
  read commit disable_admin_and_ota : Event
  write : List ℕ → Event

-- `AdminCredentialRead`, with the bytes that a read puts in the output and their number.
pub data AdminCredentialRead : Type 0 where
  found : List ℕ → ℕ → AdminCredentialRead
  not_found error : AdminCredentialRead

pub record AdminCredentialIo : Type 0 where
  pub read : List Event → AdminCredentialRead
  pub write : List Event → List ℕ → Bool
  pub commit : List Event → Bool

abbrev pub or_disable : List Event × Option (List ℕ) → List Event × Option (List ℕ)
or_disable (log, some password) = (log, some password)
or_disable (log, none) = (disable_admin_and_ota ∷ log, none)

-- The bytes that a pointer names.
abbrev pub text_of : Option (List ℕ) → List ℕ
text_of none = []
text_of (some text) = text

-- The output arguments of a load: whether `out` is not null, and what `length` points to.
pub record Output : Type 0 where
  pub out_given : Bool
  pub capacity : Option ℕ

unfoldable pub has_room : Output → Bool
has_room o = elim o.capacity [ none ↦ false | some n ↦ o.out_given && not (ltb n 65) ]

module _ (io : AdminCredentialIo) where
  -- The byte after the password is written as it is.
  unfoldable pub admin_store_credential : List Event → Option (List ℕ) → ℕ → List Event × Bool
  admin_store_credential log none length = (log, false)
  admin_store_credential log (some value) length =
      let bytes = take (length + 1) value in
      let written = write bytes ∷ log in
      if not (admin_password_valid (some value) length)
      then (log, false)
      else if not (io.write log bytes)
      then (written, false)
      else (commit ∷ written, io.commit written)

  -- What `admin_load_credential` makes of what it has read; the password in use is `none` on failure.
  unfoldable pub after_read :
      List Event → Option (List ℕ) → ℕ → AdminCredentialRead → List Event × Option (List ℕ)
  after_read log bootstrap bootstrap_length (found out stored_length) =
      if ltb stored_length 13
        || ltb 65 stored_length
        || not (get_or out (stored_length - 1) 0 == 0)
        || not (admin_password_valid (some out) (stored_length - 1))
      then (log, none)
      else (log, some (take (stored_length - 1) out))
  after_read log bootstrap bootstrap_length error = (log, none)
  after_read log bootstrap bootstrap_length not_found =
      let (log', stored) = admin_store_credential log bootstrap bootstrap_length in
      if not (admin_password_valid bootstrap bootstrap_length)
      then (log, none)
      else (log', if stored then some (take bootstrap_length (text_of bootstrap)) else none)

  unfoldable pub admin_load_credential :
      List Event → Option (List ℕ) → ℕ → Output → List Event × Option (List ℕ)
  admin_load_credential log bootstrap bootstrap_length out =
      if not (has_room out)
      then (log, none)
      else after_read (read ∷ log) bootstrap bootstrap_length (io.read log)

  unfoldable pub admin_load_credential_or_disable :
      List Event → Option (List ℕ) → ℕ → Output → List Event × Option (List ℕ)
  admin_load_credential_or_disable log bootstrap bootstrap_length out =
      or_disable (admin_load_credential log bootstrap bootstrap_length out)

  unfoldable pub admin_store_credential_or_disable :
      List Event → Option (List ℕ) → ℕ → List Event × Bool
  admin_store_credential_or_disable log value length =
      let (log', stored) = admin_store_credential log value length in
      if stored then (log', true) else (disable_admin_and_ota ∷ log', false)
