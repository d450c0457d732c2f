-- ===== src/Tags/Freshness.antt =====
-- `tag_freshness` and `reception_epoch` of firmware/anchor/src/core/freshness.cpp: when a tag's
-- range and its presence count as stale, on a millisecond clock that wraps.
use bin_range.Base.{
  ℕ, ◌+◌, ◌*◌, ◌/◌, ◌%◌, ◌≤◌, ◌<◌, ◌≡◌, ◌↔◌, ◌⊎◌, Bool, true, false, not, ◌&&◌, arith, leb, ltb,
  if◌then◌else◌, sub32, u32,
}

abbrev pub moving_stale_ms : ℕ
moving_stale_ms = 20000

abbrev pub valid_epoch : ℕ
valid_epoch = 1700000000

pub record TagFreshness : Type 0 where
  pub range_stale : Bool
  pub absence_known : Bool
  pub absent : Bool

-- The arguments of `tag_freshness`.
pub record Sighting : Type 0 where
  pub heard : Bool
  pub motion_known : Bool
  pub moving : Bool
  pub last_seen_ms : ℕ
  pub adopted_ms : ℕ
  pub now_ms : ℕ
  pub stale_after_s : ℕ
  pub absent_latched : Bool

-- `stale_after_s * 1000UL` on 32 bits.
abbrev pub absence_ms : ℕ → ℕ
absence_ms stale_after_s = u32 (stale_after_s * 1000)

unfoldable pub tag_freshness : Sighting → TagFreshness
tag_freshness s =
    if s.absent_latched
    then record { range_stale = true; absence_known = true; absent = true }
    else (if not s.heard
        then (let overdue = leb (absence_ms s.stale_after_s) (sub32 s.now_ms s.adopted_ms) in
            record { range_stale = true; absence_known = overdue; absent = overdue })
        else (let elapsed_ms = sub32 s.now_ms s.last_seen_ms in
            let range_limit =
              if s.motion_known && s.moving then moving_stale_ms else absence_ms s.stale_after_s in
            record {
              range_stale = leb range_limit elapsed_ms;
              absence_known = true;
              absent = leb (absence_ms s.stale_after_s) elapsed_ms;
            }))

unfoldable pub reception_epoch : ℕ → ℕ → ℕ → ℕ
reception_epoch wall_now_s now_ms received_ms =
    if ltb wall_now_s valid_epoch then 0 else sub32 wall_now_s (sub32 now_ms received_ms / 1000)

-- The instant from which the silence of a tag is counted.
abbrev pub since : Sighting → ℕ
since s = if s.heard then s.last_seen_ms else s.adopted_ms

-- A tag is absent exactly when its absence is latched or its silence, counted around the wrap of
-- the clock from the last frame or, if none was heard, from the adoption, has reached its own
-- limit. Its presence is known exactly when it was heard or is absent. Its range is stale exactly
-- when its absence is latched, or it was never heard, or its silence has reached twenty seconds, if
-- it is known to be moving, and its own limit otherwise.
pub absent_iff :
    (s : Sighting)
    → let silence = sub32 s.now_ms (since s) in
      let limit = absence_ms s.stale_after_s in
      let moves = s.motion_known && s.moving in
      (((tag_freshness s).absent ≡ true) ↔ ((s.absent_latched ≡ true) ⊎ (limit ≤ silence)))
      × (((tag_freshness s).absence_known ≡ true)
          ↔ ((s.heard ≡ true) ⊎ ((tag_freshness s).absent ≡ true)))
      × (((tag_freshness s).range_stale ≡ true) ↔ (
          (s.absent_latched ≡ true)
          ⊎ (s.heard ≡ false)
          ⊎ ((moves ≡ true) × (20000 ≤ silence))
          ⊎ ((moves ≡ false) × (limit ≤ silence))))
unfolding tag_freshness
absent_iff s = (
  (λ e. ground arith, λ e. ground arith),
  (λ e. ground arith, λ e. ground arith),
  (λ e. ground arith, λ e. ground arith),
)

sub32-wrap :
    (since gap now : ℕ)
    → since < 0x1_0000_0000
    → gap < 0x1_0000_0000
    → now ≡ (since + gap) % 0x1_0000_0000
    → sub32 now since ≡ gap
sub32-wrap since gap now a b e = ground arith

-- The clock may wrap between the sighting and now: a tag heard `gap` milliseconds ago, with `gap`
-- below 2^32, is judged as on a clock that started at the sighting.
pub freshness_wraps :
    (s : Sighting) (gap : ℕ)
    → s.last_seen_ms < 0x1_0000_0000
    → gap < 0x1_0000_0000
    → s.heard ≡ true
    → s.now_ms ≡ (s.last_seen_ms + gap) % 0x1_0000_0000
    → tag_freshness s ≡ tag_freshness (record s { last_seen_ms = 0; now_ms = gap })
unfolding tag_freshness
freshness_wraps s gap a b h e =
    let wrap = sub32-wrap s.last_seen_ms gap s.now_ms a b e in
    let start = sub32-wrap 0 gap gap (omega arith) b (ground arith) in ground arith

-- With the wall clock set, a frame received `gap` milliseconds ago, around the wrap or not, gets an
-- epoch from which the wall clock is again reached by the whole seconds of the gap; before the wall
-- clock is set, every frame gets zero.
pub reception_epoch_lem :
    (wall now received gap : ℕ)
    → wall < 0x1_0000_0000
    → received < 0x1_0000_0000
    → gap < 0x1_0000_0000
    → now ≡ (received + gap) % 0x1_0000_0000
    → (valid_epoch ≤ wall → reception_epoch wall now received + gap / 1000 ≡ wall)
      × (wall < valid_epoch → reception_epoch wall now received ≡ 0)
unfolding reception_epoch
reception_epoch_lem wall now received gap w r g e =
    let wrap = sub32-wrap received gap now r g e in (λ set. ground arith, λ unset. ground arith)
