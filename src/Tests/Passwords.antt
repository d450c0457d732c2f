-- ===== src/Tests/Passwords.antt =====
-- A first start: the store has no password, and takes the bootstrap password.
use bin_range.Base.{ℕ, true, List, [], ◌∷◌, ◌++◌, some, replicate}
use bin_range.Admin.Credentials.{
  AdminCredentialIo, not_found, Output, admin_load_credential_or_disable,
}
use bin_range.Admin.Credentials.Safe.{Loaded, admin_load_credential_or_disable_lem}

abbrev empty_store : AdminCredentialIo
empty_store = record { read = λ log. not_found; write = λ log bytes. true; commit = λ log. true }

abbrev bootstrap : List ℕ
bootstrap = replicate 12 97 ++ 0 ∷ []

abbrev whole_output : Output
whole_output = record { out_given = true; capacity = some 65 }

admin_load_credential_or_disable_lem_example :
    Loaded empty_store []
      (some bootstrap)
      12
      whole_output
      (admin_load_credential_or_disable empty_store [] (some bootstrap) 12 whole_output).0
      (admin_load_credential_or_disable empty_store [] (some bootstrap) 12 whole_output).1
admin_load_credential_or_disable_lem_example =
    admin_load_credential_or_disable_lem empty_store [] (some bootstrap) 12 whole_output
