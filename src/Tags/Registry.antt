-- ===== src/Tags/Registry.antt =====
-- `Registry`, `TagRecord` and `TagStats` of firmware/anchor/src/core. A float is its bit pattern,
-- since this code only stores it. Of `tags_[16]` and `win_[32]` the model keeps the used part.
pub mod Lookup
pub mod Map
pub mod Changes
use bin_range.Base.{
  ℕ, suc, zero, ◌+◌, ◌-◌, ◌%◌, Bool, true, false, not, ◌&&◌, ◌||◌, Option, none, some, List, [],
  ◌∷◌, ◌++◌, ltb, leb, ◌==◌, if◌then◌else◌, length, take, replicate, set,
}
use bin_range.Update.Job.{bounded_length}

abbrev pub registry_max_tags : ℕ
registry_max_tags = 16

abbrev pub registry_name_len : ℕ
registry_name_len = 32

abbrev pub default_stale_after_s : ℕ
default_stale_after_s = 21600

abbrev pub no_tip_age : ℕ
no_tip_age = 0xffff_ffff

abbrev pub tagstats_window : ℕ
tagstats_window = 32

pub record RangeSample : Type 0 where
  pub dist : ℕ
  pub rssi : ℕ
  pub fp : ℕ
  pub ppm : ℕ

pub record TagStats : Type 0 where
  pub window : List RangeSample
  pub head : ℕ
  pub count : ℕ

unfoldable pub reset : TagStats → TagStats
reset s = record s { head = 0; count = 0 }

-- `win_[head_] = s`: the array is written from its start, so the slot is a used one or the next.
abbrev pub write_slot : List RangeSample → ℕ → RangeSample → List RangeSample
write_slot [] i sample = sample ∷ []
write_slot (x ∷ xs) zero sample = sample ∷ xs
write_slot (x ∷ xs) (suc i) sample = x ∷ write_slot xs i sample

unfoldable pub add : TagStats → RangeSample → TagStats
add s sample = record {
  window = write_slot s.window s.head sample;
  head = (s.head + 1) % tagstats_window;
  count = if ltb s.count tagstats_window then s.count + 1 else s.count;
}

pub record TagRecord : Type 0 where
  pub addr : ℕ  -- uint16_t
  pub name : List ℕ  -- char[32]
  pub area : List ℕ  -- char[32]
  pub offset : ℕ  -- float
  pub stale_after_s : ℕ
  pub batt_mv : ℕ
  pub misses : ℕ
  pub wake_count : ℕ
  pub tip_count : ℕ
  pub tip_age_s : ℕ
  pub last_seen_ms : ℕ
  pub adopted_ms : ℕ
  pub last_seen_epoch : ℕ
  pub adopted : Bool
  pub batt_known : Bool
  pub stale : Bool
  pub moving : Bool
  pub motion_known : Bool
  pub sensor_fault : Bool
  pub sensor_fault_known : Bool
  pub misses_known : Bool
  pub wake_count_known : Bool
  pub discovery_sent : Bool
  pub pending : Bool
  pub heard : Bool
  pub absence_known : Bool
  pub absent : Bool
  pub has_tip : Bool
  pub tip_ready : Bool
  pub stats : TagStats

unfoldable pub set_tip : TagRecord → Bool → Bool → ℕ → ℕ → TagRecord
set_tip t known ready count age_s = record t {
  has_tip = known;
  tip_ready = known && ready && not t.sensor_fault;
  tip_count = if known then count else 0;
  tip_age_s = if known then age_s else no_tip_age;
}

-- `copy_bounded`, as the text that the buffer then holds; `none` is a null pointer.
unfoldable pub copy_bounded : ℕ → Option (List ℕ) → List ℕ
copy_bounded n none = []
copy_bounded n (some src) = take (bounded_length (n - 1) src) src

-- What `touch` writes over a slot for a tag that it has not met. The sample window's memory stays
-- as it was in the source; `reset` leaves none of it in use.
unfoldable pub fresh_tag : ℕ → ℕ → TagRecord
fresh_tag addr now_ms = record {
  addr = addr;
  name = [];
  area = [];
  offset = 0;
  stale_after_s = default_stale_after_s;
  batt_mv = 0;
  misses = 0;
  wake_count = 0;
  tip_count = 0;
  tip_age_s = no_tip_age;
  last_seen_ms = now_ms;
  adopted_ms = now_ms;
  last_seen_epoch = 0;
  adopted = false;
  batt_known = false;
  stale = false;
  moving = false;
  motion_known = false;
  sensor_fault = false;
  sensor_fault_known = false;
  misses_known = false;
  wake_count_known = false;
  discovery_sent = false;
  pending = false;
  heard = true;
  absence_known = true;
  absent = false;
  has_tip = false;
  tip_ready = false;
  stats = record { window = []; head = 0; count = 0 };
}

abbrev pub Registry : Type 0
Registry = List TagRecord

-- The slot of a tag.
unfoldable pub find : ℕ → Registry → Option ℕ
find addr [] = none
find addr (t ∷ tags) =
    if t.addr == addr then some 0 else elim (find addr tags) [ none ↦ none | some i ↦ some (suc i) ]

-- A write through the pointer to a slot.
unfoldable pub modify : (TagRecord → TagRecord) → ℕ → Registry → Registry
modify f i [] = []
modify f zero (t ∷ tags) = f t ∷ tags
modify f (suc i) (t ∷ tags) = t ∷ modify f i tags

abbrev pub hear : ℕ → TagRecord → TagRecord
hear now_ms t = record t { last_seen_ms = now_ms; heard = true }

-- The registry, and the slot of the tag, or `none` when it is full.
unfoldable pub touch : ℕ → ℕ → Registry → Registry × Option ℕ
touch addr now_ms tags = elim (find addr tags) [
  | some i ↦ (modify (hear now_ms) i tags, some i)
  | none ↦
      if leb registry_max_tags (length tags)
      then (tags, none)
      else (tags ++ fresh_tag addr now_ms ∷ [], some (length tags))
]

-- The arguments of `adopt`, but for the address and the time.
pub record Config : Type 0 where
  pub name : Option (List ℕ)
  pub area : Option (List ℕ)
  pub offset : ℕ
  pub stale_after_s : ℕ

-- What `adopt` does to a tag's record.
unfoldable pub configure : Config → ℕ → TagRecord → TagRecord
unfolding copy_bounded
configure c now_ms t = record t {
  name = copy_bounded registry_name_len c.name;
  area = copy_bounded registry_name_len c.area;
  offset = c.offset;
  stale_after_s = if c.stale_after_s == 0 then default_stale_after_s else c.stale_after_s;
  adopted_ms = if t.adopted then t.adopted_ms else now_ms;
  absence_known = if t.adopted then t.absence_known else t.heard;
  absent = if t.adopted then t.absent else false;
  adopted = true;
}

abbrev pub unhear : TagRecord → TagRecord
unhear t = record t { heard = false; absence_known = false }

unfoldable pub adopt : ℕ → Config → ℕ → Registry → Registry × Bool
adopt addr c now_ms tags = elim (find addr tags) [
  | some i ↦ (modify (configure c now_ms) i tags, true)
  | none ↦
      let (tags', slot) = touch addr 0 tags in
      elim slot [
        | none ↦ (tags', false)
        | some i ↦ (modify (λ t. configure c now_ms (unhear t)) i tags', true)
      ]
]

abbrev pub last_of : TagRecord → Registry → TagRecord
last_of t [] = t
last_of t (u ∷ tags) = last_of u tags

abbrev pub but_last : TagRecord → Registry → Registry
but_last t [] = []
but_last t (u ∷ tags) = t ∷ but_last u tags

-- `tags_[0] = tags_[n_ - 1]; n_--` on what follows a removed record.
abbrev pub move_last : Registry → Registry
move_last [] = []
move_last (t ∷ tags) = last_of t tags ∷ but_last t tags

unfoldable pub forget : ℕ → Registry → Registry × Bool
forget addr [] = ([], false)
forget addr (t ∷ tags) =
    let (tags', found) = forget addr tags in
    if t.addr == addr then (move_last tags, true) else (t ∷ tags', found)

unfoldable pub adopted_count : Registry → ℕ
adopted_count [] = 0
adopted_count (t ∷ tags) = (if t.adopted then 1 else 0) + adopted_count tags
