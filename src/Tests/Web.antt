-- ===== src/Tests/Web.antt =====
-- The guards of the admin pages.
use bin_range.Base.{
  ℕ, ◌≤◌, ◌≡◌, ◌≢◌, ◌↔◌, ◌⊎◌, Bool, true, false, refl, arith, List, [], ◌∷◌, ◌++◌, some, none,
  replicate, ltb, ◌&&◌, IsText,
}
use bin_range.Admin.Text.{
  admin_constant_time_equal, admin_origin_matches_host, valid_host, http_prefix,
}
use bin_range.Admin.Text.Equal.{admin_constant_time_equal_iff, admin_origin_matches_host_iff}
use bin_range.Admin.Gate.{
  AdminRequestGate, AdminRateLimit, Request, authorize, blocked, record_failure, allow, no_failures,
}
use bin_range.Admin.Gate.Limit.{IsValid, in_last_minute, record_failure-blocks_iff}
use bin_range.Admin.Gate.Decisions.{authorize-allow_iff}
use bin_range.Admin.Upload.{
  AdminUploadIo, new_session, clear, finalize, alive, start, write_chunk, end, fail, finish,
}
use bin_range.Admin.Upload.Session

abbrev open_gate : AdminRequestGate
open_gate = record { csrf = replicate 64 97; configured = true; rate_limit = no_failures }

-- Four failures in the last seconds.
abbrev four_failures : AdminRateLimit
four_failures = record no_failures { failures = 1000 ∷ 2000 ∷ 3000 ∷ 4000 ∷ [] }

abbrev reading : Request
reading = record {
  authenticated = true;
  credential_supplied = true;
  mutation = false;
  csrf = none;
  origin = none;
  host = none;
}

abbrev guessing : Request
guessing = record reading { authenticated = false }

four_failures-IsValid : IsValid four_failures
four_failures-IsValid = record { bounded = omega arith; full = λ e. omega arith }

record_failure-blocks_iff_example :
    (blocked (record_failure four_failures true 5000) 5000 ≡ true)
    ↔ ((true ≡ true) × (4 ≤ in_last_minute 5000 four_failures.failures))
unfolding blocked
record_failure-blocks_iff_example =
    record_failure-blocks_iff four_failures true 5000 four_failures-IsValid refl

authorize-allow_iff_example :
    (((authorize open_gate reading 10).1 ≡ allow) ↔ (
      (open_gate.configured ≡ true)
      × (blocked open_gate.rate_limit 10 ≡ false)
      × (reading.authenticated ≡ true)
      × ((reading.mutation ≡ false)
          ⊎ (admin_constant_time_equal reading.csrf (some open_gate.csrf) ≡ true)
            × (admin_origin_matches_host reading.origin reading.host ≡ true))))
    × ((authorize open_gate reading 10).1 ≡ allow
        → ((authorize open_gate reading 10).0.rate_limit.failures ≡ [])
          × (blocked (authorize open_gate reading 10).0.rate_limit 10 ≡ false)
          × ((authorize open_gate reading 10).0.configured ≡ true)
          × ((authorize open_gate reading 10).0.csrf ≡ open_gate.csrf))
authorize-allow_iff_example = authorize-allow_iff open_gate reading 10

-- Twenty seconds into a cooldown.

is_text : List ℕ → Bool
is_text [] = true
is_text (x ∷ xs) = ltb 0 x && ltb x 256 && is_text xs

is_text-IsText : (xs : List ℕ) → is_text xs ≡ true → IsText xs
unfolding is_text
is_text-IsText [] h = tt
is_text-IsText (x ∷ xs) h = (ground arith, ground arith, is_text-IsText xs (ground arith))

abbrev left_text : List ℕ
left_text = 97 ∷ 98 ∷ []

abbrev right_text : List ℕ
right_text = 97 ∷ 99 ∷ []

admin_constant_time_equal_iff_example :
    (admin_constant_time_equal (some left_text) (some right_text) ≡ true) ↔ (left_text ≡ right_text)
unfolding is_text
admin_constant_time_equal_iff_example =
    admin_constant_time_equal_iff left_text right_text (is_text-IsText left_text refl)
      (is_text-IsText right_text refl)

-- A host called "a", and the rest of its origin after the first letter.
abbrev host_a : List ℕ
host_a = 97 ∷ []

abbrev origin_rest : List ℕ
origin_rest = 116 ∷ 116 ∷ 112 ∷ 58 ∷ 47 ∷ 47 ∷ 97 ∷ []

admin_origin_matches_host_iff_example :
    (admin_origin_matches_host (some (104 ∷ origin_rest)) (some host_a) ≡ true)
    ↔ ((valid_host (some host_a) ≡ true) × (104 ∷ origin_rest ≡ http_prefix ++ host_a))
unfolding is_text
admin_origin_matches_host_iff_example =
    admin_origin_matches_host_iff 104 origin_rest host_a (is_text-IsText (104 ∷ origin_rest) refl)
      (is_text-IsText host_a refl)

-- An interface that grants every call.
abbrev granting : AdminUploadIo
granting = record {
  suspend_ok = λ log. true;
  begin_ok = λ log. true;
  write_ok = λ log bytes. true;
  finish_ok = λ log. true;
}

new_session-IsValid : Session.IsValid new_session
unfolding Session.paused Session.uploaded
new_session-IsValid = ground arith

-- The connection is cut after one chunk.
abbrev cut_off : List Session.Call
cut_off = Session.starts true 10 ∷ Session.writes true (some (1 ∷ 2 ∷ [])) 2 20 ∷ []

scope_resumes_example :
    (Session.paused (clear (Session.run granting cut_off (clear new_session))).log ≡ false)
    × (clear (Session.run granting cut_off (clear new_session)) ≡ record new_session {
      log = (clear (Session.run granting cut_off (clear new_session))).log;
    })
scope_resumes_example = Session.scope_resumes granting cut_off new_session new_session-IsValid

-- An upload that was cut off, and then the whole of one.
abbrev whole_file : List Session.Call
whole_file =
    Session.starts true 40
    ∷ Session.writes true (some (1 ∷ 2 ∷ [])) 2 50
    ∷ Session.ends true 60
    ∷ []

finalize_whole_example :
    let s = Session.run granting whole_file (Session.serve granting (cut_off ∷ []) new_session) in
    (true ≡ true)
    × ((count : ℕ) × (Session.uploaded s.log ≡ some count) × (s.bytes ≡ count) × (count ≢ 0))
    × ((finalize granting s true 70).0.log ≡ finish true ∷ s.log)
unfolding Session.run Session.serve Session.apply start write_chunk end finalize alive fail clear
finalize_whole_example = Session.finalize_whole granting (cut_off ∷ []) whole_file true 70 refl
