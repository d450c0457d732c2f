-- ===== src/Tests/Ranges.antt =====
-- The registry, freshness and the tip fields on small data.
use bin_range.Base.{
  ℕ, ◌+◌, ◌≤◌, ◌<◌, ◌≡◌, ◌≢◌, ◌⊎◌, ◌↔◌, true, false, refl, arith, List, [], ◌∷◌, some, none, length,
  if◌then◌else◌, ◌==◌, sub32, suc,
}
use bin_range.Tags.Registry.{TagRecord, Registry, fresh_tag, touch, forget, Config}
use bin_range.Tags.Registry.Lookup.{lookup}
use bin_range.Tags.Registry.Map.{IsValid, Touched, touch_lem}
use bin_range.Tags.Registry.Changes.{
  forget_lem, Call, touching, adopting, forgetting, run, known, forgets, run_keeps_known,
}
use bin_range.Tags.Freshness.{
  Sighting, tag_freshness, absent_iff, reception_epoch, reception_epoch_lem, valid_epoch,
}
use bin_range.Tags.Topics.{
  parse_tag_config_topic, topic_tag_config, tag_id_to_hex, parse-topic_tag_config,
}

abbrev two_tags : Registry
two_tags = fresh_tag 7 100 ∷ fresh_tag 8 200 ∷ []

two_tags-IsValid : IsValid two_tags
unfolding lookup fresh_tag
two_tags-IsValid = record { bounded = omega arith; distinct = (refl, (refl, tt)) }

abbrev kitchen : Config
kitchen = record { name = some (98 ∷ []); area = none; offset = 0; stale_after_s = 0 }

touch_lem_example :
    Touched 9 300 2 (lookup 9 two_tags) (lookup 9 (touch 9 300 two_tags).0)
    × (◌≢◌ {A = ℕ} 8 9 → lookup 8 (touch 9 300 two_tags).0 ≡ lookup 8 two_tags)
    × IsValid (touch 9 300 two_tags).0
touch_lem_example = touch_lem 9 300 8 two_tags two_tags-IsValid

forget_lem_example :
    (lookup 8 (forget 7 two_tags).0 ≡ (if 7 == 8 then none else lookup 8 two_tags))
    × IsValid (forget 7 two_tags).0
    × (lookup 7 two_tags ≡ none → forget 7 two_tags ≡ (two_tags, false))
    × ((t : TagRecord)
        → lookup 7 two_tags ≡ some t
        → ((forget 7 two_tags).1 ≡ true) × (suc (length (forget 7 two_tags).0) ≡ 2))
forget_lem_example = forget_lem 7 8 two_tags two_tags-IsValid

abbrev busy_day : List Call
busy_day = touching 9 300 ∷ adopting 8 kitchen 400 ∷ forgetting 9 ∷ []

run_keeps_known_example :
    IsValid (run busy_day two_tags)
    × (known 7 two_tags ≡ true
        → forgets 7 busy_day ≡ false
        → known 7 (run busy_day two_tags) ≡ true)
run_keeps_known_example = run_keeps_known 7 busy_day two_tags two_tags-IsValid

-- Heard just before the clock wraps, looked at one second later.
abbrev seen_at_wrap : Sighting
seen_at_wrap = record {
  heard = true;
  motion_known = false;
  moving = false;
  last_seen_ms = 0xffff_ff00;
  adopted_ms = 0;
  now_ms = 744;
  stale_after_s = 60;
  absent_latched = false;
}

absent_iff_example :
    (((tag_freshness seen_at_wrap).absent ≡ true)
      ↔ ((false ≡ true) ⊎ (60000 ≤ sub32 744 0xffff_ff00)))
    × (((tag_freshness seen_at_wrap).absence_known ≡ true)
        ↔ ((true ≡ true) ⊎ ((tag_freshness seen_at_wrap).absent ≡ true)))
    × (((tag_freshness seen_at_wrap).range_stale ≡ true) ↔ (
        (false ≡ true)
        ⊎ (true ≡ false)
        ⊎ ((false ≡ true) × (20000 ≤ sub32 744 0xffff_ff00))
        ⊎ ((false ≡ false) × (60000 ≤ sub32 744 0xffff_ff00))))
absent_iff_example = absent_iff seen_at_wrap

reception_epoch_lem_example :
    (valid_epoch ≤ 1_700_000_100
      → reception_epoch 1_700_000_100 744 0xffff_ff00 + 1 ≡ 1_700_000_100)
    × (1_700_000_100 < valid_epoch → reception_epoch 1_700_000_100 744 0xffff_ff00 ≡ 0)
reception_epoch_lem_example =
    reception_epoch_lem 1_700_000_100 744 0xffff_ff00 1000 (omega arith) (omega arith) (omega arith)
      refl

parse-topic_tag_config_example :
    parse_tag_config_topic (topic_tag_config (tag_id_to_hex 0x1a2f)) ≡ some 0x1a2f
parse-topic_tag_config_example = parse-topic_tag_config 0x1a2f (omega arith)
