-- ===== src/Tags/Frame.antt =====
-- The lengths and the tip fields of a ranging frame: firmware/anchor/src/core/ranging_frame.h.
use bin_range.Base.{
  ℕ, ◌+◌, ◌*◌, ◌≡◌, Bool, true, false, not, ◌&&◌, ◌||◌, arith, List, Option, some, none, get_or,
  bit_and, ◌==◌, if◌then◌else◌,
}

abbrev pub ranging_poll_length_valid : ℕ → Bool
ranging_poll_length_valid length = length == 12

abbrev pub ranging_final_length_valid : ℕ → Bool
ranging_final_length_valid length =
    (length == 24) || (length == 26) || (length == 29) || (length == 33) || (length == 41)

pub record TipTelemetry : Type 0 where
  pub has_tip : Bool
  pub tip_ready : Bool
  pub tip_count : ℕ
  pub tip_age_s : ℕ

unfoldable pub no_tip : TipTelemetry
no_tip = record { has_tip = false; tip_ready = false; tip_count = 0; tip_age_s = 0xffff_ffff }

-- Four bytes of a frame from `at`, the lowest first.
abbrev pub word_at : List ℕ → ℕ → ℕ
word_at frame at =
    get_or frame at 0
    + get_or frame (at + 1) 0 * 0x100
    + get_or frame (at + 2) 0 * 0x1_0000
    + get_or frame (at + 3) 0 * 0x100_0000

unfoldable pub ranging_tip_telemetry : Option (List ℕ) → ℕ → TipTelemetry
unfolding no_tip
ranging_tip_telemetry none length = no_tip
ranging_tip_telemetry (some frame) length = if not (length == 41) then no_tip else record {
  has_tip = true;
  tip_ready = not (bit_and (get_or frame 24 0) 4 == 0) && (bit_and (get_or frame 24 0) 2 == 0);
  tip_count = word_at frame 31;
  tip_age_s = word_at frame 35;
}

-- Only the longest frame that the anchor accepts carries a tip report: for every other length the
-- report is the empty one, and so for a poll.
pub tip_needs_long_frame :
    (frame : Option (List ℕ)) (length : ℕ)
    → (ranging_tip_telemetry frame length).has_tip ≡ true
    → (length ≡ 41)
      × (ranging_final_length_valid length ≡ true)
      × (ranging_poll_length_valid length ≡ false)
unfolding ranging_tip_telemetry no_tip
tip_needs_long_frame none length h = absurd (ground arith)
tip_needs_long_frame (some frame) length h = ground arith
