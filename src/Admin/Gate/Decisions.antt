-- ===== src/Admin/Gate/Decisions.antt =====
-- When a request is let through.
use bin_range.Base.{ℕ, ◌≤◌, ◌<◌, ◌≡◌, ◌↔◌, ◌⊎◌, true, false, arith, [], some}
use bin_range.Admin.Text.{admin_constant_time_equal, admin_origin_matches_host}
use bin_range.Admin.Gate.{
  AdminRequestGate, Request, allow, challenge, rate_limited, blocked, authorize, record_success,
}
use bin_range.Admin.Gate.Limit.{IsValid, in_last_minute, record_failure-blocks_iff}

-- A request is allowed exactly when the gate is configured and not blocked, the request is
-- authenticated, and, if it changes anything, it carries the gate's token and comes from the
-- host's own pages. An allowed request clears the failures counted so far and keeps the token.
pub authorize-allow_iff :
    (gate : AdminRequestGate) (r : Request) (now : ℕ)
    → (((authorize gate r now).1 ≡ allow) ↔ (
        (gate.configured ≡ true)
        × (blocked gate.rate_limit now ≡ false)
        × (r.authenticated ≡ true)
        × ((r.mutation ≡ false)
            ⊎ (admin_constant_time_equal r.csrf (some gate.csrf) ≡ true)
              × (admin_origin_matches_host r.origin r.host ≡ true))))
      × ((authorize gate r now).1 ≡ allow
          → ((authorize gate r now).0.rate_limit.failures ≡ [])
            × (blocked (authorize gate r now).0.rate_limit now ≡ false)
            × ((authorize gate r now).0.configured ≡ true)
            × ((authorize gate r now).0.csrf ≡ gate.csrf))
unfolding authorize record_success blocked
authorize-allow_iff gate r now = (
  (λ h. ground arith, λ h. ground arith),
  λ h. (ground arith, ground arith, ground arith, ground arith),
)

-- While the gate is blocked no request is judged, with the right credentials or without: the
-- answer is the same and nothing changes.
pub blocked_judges_nothing :
    (gate : AdminRequestGate) (r : Request) (now : ℕ)
    → gate.configured ≡ true
    → blocked gate.rate_limit now ≡ true
    → authorize gate r now ≡ (gate, rate_limited)
unfolding authorize
blocked_judges_nothing gate r now c b = ground arith

-- An unauthenticated request is answered by a challenge, or, where it carries a credential that is
-- the fifth wrong one in a minute, by the rate limit.
pub unauthenticated_lem :
    (gate : AdminRequestGate) (r : Request) (now : ℕ)
    → IsValid gate.rate_limit
    → gate.configured ≡ true
    → blocked gate.rate_limit now ≡ false
    → r.authenticated ≡ false
    → ((authorize gate r now).1 ≡ rate_limited)
        × (r.credential_supplied ≡ true)
        × (4 ≤ in_last_minute now gate.rate_limit.failures)
      ⊎ ((authorize gate r now).1 ≡ challenge)
        × ((r.credential_supplied ≡ false) ⊎ (in_last_minute now gate.rate_limit.failures < 4))
unfolding authorize
unauthenticated_lem gate r now v c b a =
    let iff = record_failure-blocks_iff gate.rate_limit r.credential_supplied now v b in
    ground (arith, iff.0, iff.1)
