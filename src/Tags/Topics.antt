-- ===== src/Tags/Topics.antt =====
-- The tag addresses in MQTT topics: `tag_id_to_hex`, `topic_tag_config` and `parse_tag_config_topic`
-- of firmware/anchor/src/core/topics.cpp. The buffers are large enough.
use bin_range.Base.{
  ℕ, zero, suc, ◌+◌, ◌-◌, ◌*◌, ◌/◌, ◌%◌, ◌<◌, ◌≡◌, not, ◌&&◌, ◌||◌, ap, ◌∙◌, arith, List, [], ◌∷◌,
  ◌++◌, Option, none, some, length, ltb, leb, if◌then◌else◌, take, drop, get_or,
}
use bin_range.Update.Job.{bytes_eq}

-- "%x", one digit.
abbrev pub hex_char : ℕ → ℕ
hex_char digit = if ltb digit 10 then 48 + digit else 87 + digit

-- "%04x", of a 16-bit address.
unfoldable pub tag_id_to_hex : ℕ → List ℕ
tag_id_to_hex addr =
    hex_char (addr / 4096)
    ∷ hex_char (addr / 256 % 16)
    ∷ hex_char (addr / 16 % 16)
    ∷ hex_char (addr % 16)
    ∷ []

-- The digit that a character stands for, in either case.
unfoldable pub hex_value : ℕ → Option ℕ
hex_value c =
    if leb 48 c && leb c 57
    then some (c - 48)
    else if leb 97 c && leb c 102
    then some (c - 97 + 10)
    else if leb 65 c && leb c 70
    then some (c - 65 + 10)
    else none

-- The loop of `hex4`, for the next `count` characters.
unfoldable pub hex_digits : ℕ → ℕ → List ℕ → Option ℕ
hex_digits zero v p = some v
hex_digits (suc count) v p = elim (hex_value (get_or p 0 0)) [
  | none ↦ none
  | some d ↦ hex_digits count ((v * 16 + d) % 0x1_0000) (drop 1 p)
]

unfoldable pub hex4 : List ℕ → Option ℕ
hex4 p = hex_digits 4 0 p

-- BINRANGE_TOPIC_BASE "/tag/"
abbrev pub tag_prefix : List ℕ
tag_prefix = 98 ∷ 105 ∷ 110 ∷ 114 ∷ 97 ∷ 110 ∷ 103 ∷ 101 ∷ 47 ∷ 116 ∷ 97 ∷ 103 ∷ 47 ∷ []

-- "/config"
abbrev pub config_suffix : List ℕ
config_suffix = 47 ∷ 99 ∷ 111 ∷ 110 ∷ 102 ∷ 105 ∷ 103 ∷ []

abbrev pub topic_tag_config : List ℕ → List ℕ
topic_tag_config tag = tag_prefix ++ tag ++ config_suffix

unfoldable pub parse_tag_config_topic : List ℕ → Option ℕ
parse_tag_config_topic topic =
    let pre = length tag_prefix in
    if not (bytes_eq (take pre topic) tag_prefix)
      || ltb (length topic) (pre + 4)
      || not (bytes_eq (drop (pre + 4) topic) config_suffix)
    then none
    else hex4 (drop pre topic)

hex_value-hex_char : (d : ℕ) → d < 16 → hex_value (hex_char d) ≡ some d
unfolding hex_value
hex_value-hex_char d h = ground arith

hex_digits-step :
    (count v c d : ℕ) (p : List ℕ)
    → hex_value c ≡ some d
    → hex_digits (suc count) v (c ∷ p) ≡ hex_digits count ((v * 16 + d) % 0x1_0000) p
unfolding hex_digits
hex_digits-step count v c d p e = cc

hex_digits_end : (v w : ℕ) (p : List ℕ) → v ≡ w → hex_digits 0 v p ≡ some w
unfolding hex_digits
hex_digits_end v w p e = ap some e

hex4-tag_id_to_hex :
    (addr : ℕ) (rest : List ℕ) → addr < 0x1_0000 → hex4 (tag_id_to_hex addr ++ rest) ≡ some addr
unfolding hex4 tag_id_to_hex
hex4-tag_id_to_hex addr rest h =
    hex_digits-step 3 0 _ (addr / 4096) _ (hex_value-hex_char (addr / 4096) (omega arith))
    ∙ hex_digits-step 2 _ _ (addr / 256 % 16) _ (hex_value-hex_char (addr / 256 % 16) (omega arith))
    ∙ hex_digits-step 1 _ _ (addr / 16 % 16) _ (hex_value-hex_char (addr / 16 % 16) (omega arith))
    ∙ hex_digits-step 0 _ _ (addr % 16) _ (hex_value-hex_char (addr % 16) (omega arith))
    ∙ hex_digits_end _ addr rest (omega arith)

-- The address in the configuration topic of a tag is read back from that topic.
pub parse-topic_tag_config :
    (addr : ℕ)
    → addr < 0x1_0000
    → parse_tag_config_topic (topic_tag_config (tag_id_to_hex addr)) ≡ some addr
unfolding parse_tag_config_topic tag_id_to_hex bytes_eq
parse-topic_tag_config addr h = hex4-tag_id_to_hex addr config_suffix h
