-- ===== src/Admin/Gate/Limit.antt =====
-- The rate limit: its array stays in bounds, the fifth failure in a minute starts a cooldown, and
-- nothing less does.
use bin_range.Base.{
  ℕ, ◌+◌, refl, ltb, if◌then◌else◌, ◌≤◌, ◌<◌, ◌≡◌, ◌↔◌, Bool, true, false, arith, List, [], ◌∷◌,
  length, sub32, length-append,
}
use bin_range.Admin.Gate.{
  AdminRateLimit, blocked, elapsed, keep_recent, record_failure, record_success,
}

-- What holds of a rate limit between two calls.
pub record IsValid (limit : AdminRateLimit) : Type 0 where
  pub bounded : length limit.failures ≤ 5
  pub full : limit.cooling_down ≡ false → length limit.failures ≤ 4

-- One call.
pub data Call : Type 0 where
  failure : Bool → ℕ → Call
  success : Call

unfoldable pub apply : Call → AdminRateLimit → AdminRateLimit
apply (failure credential now) limit = record_failure limit credential now
apply success limit = record_success limit

unfoldable pub run : List Call → AdminRateLimit → AdminRateLimit
run [] limit = limit
run (c ∷ cs) limit = run cs (apply c limit)

length-keep_recent-le : (now : ℕ) (ts : List ℕ) → length (keep_recent now ts) ≤ length ts
unfolding keep_recent
length-keep_recent-le now [] = omega arith
length-keep_recent-le now (t ∷ ts) = ground (arith, length-keep_recent-le now ts)

apply-IsValid : (c : Call) (limit : AdminRateLimit) → IsValid limit → IsValid (apply c limit)
unfolding apply record_failure record_success
apply-IsValid (failure credential now) limit v =
    let kept = keep_recent now limit.failures in
    ground (arith, length-keep_recent-le now limit.failures, length-append kept (now ∷ []))
apply-IsValid success limit v = ground arith

-- No sequence of calls makes the limiter hold more than its five failures, or five of them
-- without having started a cooldown.
pub run-IsValid : (cs : List Call) (limit : AdminRateLimit) → IsValid limit → IsValid (run cs limit)
unfolding run
run-IsValid [] limit v = v
run-IsValid (c ∷ cs) limit v = run-IsValid cs (apply c limit) (apply-IsValid c limit v)

-- The number of the times that lie less than a minute back on the wrapping clock.
unfoldable pub in_last_minute : ℕ → List ℕ → ℕ
in_last_minute now [] = 0
in_last_minute now (t ∷ ts) = (if ltb (sub32 now t) 60000 then 1 else 0) + in_last_minute now ts

length-keep_recent : (now : ℕ) (ts : List ℕ) → length (keep_recent now ts) ≡ in_last_minute now ts
unfolding keep_recent in_last_minute elapsed
length-keep_recent now [] = refl
length-keep_recent now (t ∷ ts) = ground (arith, length-keep_recent now ts)

-- At a limiter that is not blocked, a failure blocks it exactly when the attempt carried a
-- credential and at least four of the failures held lie less than 60000 ms back, counted around the
-- wrap of the clock.
pub record_failure-blocks_iff :
    (limit : AdminRateLimit) (credential : Bool) (now : ℕ)
    → IsValid limit
    → blocked limit now ≡ false
    → (blocked (record_failure limit credential now) now ≡ true)
      ↔ ((credential ≡ true) × (4 ≤ in_last_minute now limit.failures))
unfolding record_failure blocked
record_failure-blocks_iff limit credential now v h =
    let kept = keep_recent now limit.failures in
    let counted = length-keep_recent now limit.failures in
    (
      λ b. ground (arith, length-append kept (now ∷ []), length-keep_recent-le now limit.failures),
      λ b. ground (arith, length-append kept (now ∷ []), length-keep_recent-le now limit.failures),
    )

-- A block that a failure starts lasts sixty seconds from it, and no longer.
pub cooldown_lasts :
    (limit : AdminRateLimit) (credential : Bool) (now later : ℕ)
    → IsValid limit
    → blocked limit now ≡ false
    → blocked (record_failure limit credential now) now ≡ true
    → (blocked (record_failure limit credential now) later ≡ true) ↔ (sub32 later now < 60000)
unfolding record_failure blocked
cooldown_lasts limit credential now later v h b =
    let kept = keep_recent now limit.failures in
    (
      λ c. ground (arith, length-append kept (now ∷ []), length-keep_recent-le now limit.failures),
      λ c. ground (arith, length-append kept (now ∷ []), length-keep_recent-le now limit.failures),
    )
