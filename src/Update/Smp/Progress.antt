-- ===== src/Update/Smp/Progress.antt =====
-- An upload comes to an end: how many replies can be accepted one after the other.
use bin_range.Base.{
  ℕ, ◌+◌, ◌-◌, ◌*◌, ◌≤◌, ◌<◌, ◌≡◌, inl, inr, Bool, true, ◌&&◌, arith, List, [], ◌∷◌, ltb, ◌==◌,
  if◌then◌else◌, length, Bool-cases,
}
use bin_range.Update.Smp.{smp_accept_upload_offset}

-- The end of the chunk that is sent from an offset.
abbrev pub chunk_end : ℕ → ℕ → ℕ
chunk_end total offset = offset + (if ltb 256 (total - offset) then 256 else total - offset)

abbrev checked : ℕ → ℕ → ℕ → ℕ → ℕ × Bool
checked total offset stalled reply =
    smp_accept_upload_offset reply offset (chunk_end total offset) total (offset == 0) stalled

-- Each reply is accepted, and the next chunk is sent from the offset that it gives.
unfoldable pub all_accepted : ℕ → ℕ → ℕ → List ℕ → Bool
all_accepted total offset stalled [] = true
all_accepted total offset stalled (reply ∷ replies) =
    let (stalled', accepted) = checked total offset stalled reply in
    let rest = all_accepted total reply stalled' replies in accepted && rest

-- What an accepted reply says.
record Accepted (total offset stalled reply counted : ℕ) : Type 0 where
  onward : offset ≤ reply
  within : reply ≤ total
  count : counted ≡ (if reply == offset then stalled + 1 else 0)
  few : counted < 3

checked-Accepted :
    (total offset stalled reply : ℕ)
    → stalled < 3
    → (checked total offset stalled reply).1 ≡ true
    → Accepted total offset stalled reply (checked total offset stalled reply).0
unfolding smp_accept_upload_offset
checked-Accepted total offset stalled reply few h = ground arith

-- From an offset of an image of `total` bytes, and a count of stalls below the limit of three, at
-- most three replies can be accepted one after the other for each byte that is missing, and as many
-- more as stalls are left.
pub upload_ends :
    (total offset stalled : ℕ) (replies : List ℕ)
    → stalled < 3
    → all_accepted total offset stalled replies ≡ true
    → length replies ≤ 3 * (total - offset) + (3 - stalled)
unfolding all_accepted
upload_ends total offset stalled [] few h = omega arith
upload_ends total offset stalled (reply ∷ replies) few h =
    let a = checked-Accepted total offset stalled reply few (ground arith) in
    let rest =
      upload_ends total reply (checked total offset stalled reply).0 replies a.few (ground arith) in
    elim (Bool-cases (reply == offset)) [
      | inl e ↦ ground (arith, a.count, a.onward, a.within, a.few, rest)
      | inr e ↦ ground (arith, a.count, a.onward, a.within, a.few, rest)
    ]
