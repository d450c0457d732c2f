-- ===== src/Admin/Gate.antt =====
-- `AdminRateLimit` and `AdminRequestGate` of firmware/anchor/src/core/admin_policy.cpp. Times are
-- uint32_t milliseconds that wrap. Of `failures_[5]` the model keeps the first `failure_count_`.
pub mod Limit
pub mod Decisions
use bin_range.Base.{
  ℕ, ◌+◌, Bool, true, false, not, List, [], ◌∷◌, ◌++◌, ◌&&◌, ◌||◌, length, ◌==◌, ltb, leb,
  if◌then◌else◌, some, none, Option, sub32,
}
use bin_range.Admin.Text.{admin_constant_time_equal, admin_origin_matches_host, printable_ascii}

abbrev pub rate_window_ms : ℕ
rate_window_ms = 60000

unfoldable pub elapsed : ℕ → ℕ → ℕ → Bool
elapsed now since duration = leb duration (sub32 now since)

pub record AdminRateLimit : Type 0 where
  pub failures : List ℕ
  pub cooldown_started : ℕ
  pub cooling_down : Bool

abbrev pub no_failures : AdminRateLimit
no_failures = record { failures = []; cooldown_started = 0; cooling_down = false }

unfoldable pub blocked : AdminRateLimit → ℕ → Bool
unfolding elapsed
blocked limit now = limit.cooling_down && not (elapsed now limit.cooldown_started rate_window_ms)

-- The loop that keeps the failures of the last minute.
unfoldable pub keep_recent : ℕ → List ℕ → List ℕ
unfolding elapsed
keep_recent now [] = []
keep_recent now (t ∷ ts) =
    if elapsed now t rate_window_ms then keep_recent now ts else t ∷ keep_recent now ts

-- What `record_failure` does with the failures that it kept.
abbrev pub note_failure : AdminRateLimit → List ℕ → ℕ → AdminRateLimit
note_failure limit kept now =
    let failures = if ltb (length kept) 5 then kept ++ now ∷ [] else kept in
    if length failures == 5
    then record { failures = failures; cooldown_started = now; cooling_down = true }
    else record limit { failures = failures }

unfoldable pub record_failure : AdminRateLimit → Bool → ℕ → AdminRateLimit
unfolding blocked
record_failure limit credential_attempt now =
    if not credential_attempt || blocked limit now
    then limit
    else note_failure limit (keep_recent now limit.failures) now

unfoldable pub record_success : AdminRateLimit → AdminRateLimit
record_success limit = record limit { failures = []; cooling_down = false }

pub data Decision : Type 0 where
  allow disabled challenge rate_limited forbidden : Decision

-- `csrf_` as the text that it holds.
pub record AdminRequestGate : Type 0 where
  pub csrf : List ℕ
  pub configured : Bool
  pub rate_limit : AdminRateLimit

abbrev pub new_gate : AdminRequestGate
new_gate = record { csrf = []; configured = false; rate_limit = no_failures }

unfoldable pub configure : AdminRequestGate → Option (List ℕ) → AdminRequestGate
configure gate none = record gate { configured = false }
configure gate (some csrf) =
    if length csrf == 64 && printable_ascii csrf 64
    then record gate { csrf = csrf; configured = true }
    else record gate { configured = false }

unfoldable pub disable : AdminRequestGate → AdminRequestGate
unfolding record_success
disable gate = record { csrf = []; configured = false; rate_limit = record_success gate.rate_limit }

-- The arguments of `authorize`, but for the time.
pub record Request : Type 0 where
  pub authenticated : Bool
  pub credential_supplied : Bool
  pub mutation : Bool
  pub csrf : Option (List ℕ)
  pub origin : Option (List ℕ)
  pub host : Option (List ℕ)

unfoldable pub authorize : AdminRequestGate → Request → ℕ → AdminRequestGate × Decision
unfolding blocked record_failure record_success
authorize gate r now =
    let failed = record_failure gate.rate_limit r.credential_supplied now in
    if not gate.configured
    then (gate, disabled)
    else if blocked gate.rate_limit now
    then (gate, rate_limited)
    else if not r.authenticated
    then (
      record gate { rate_limit = failed },
      if blocked failed now then rate_limited else challenge,
    )
    else (
      record gate { rate_limit = record_success gate.rate_limit },
      if not r.mutation
            || admin_constant_time_equal r.csrf (some gate.csrf)
              && admin_origin_matches_host r.origin r.host
          then allow
          else forbidden,
    )
