-- ===== src/Update/Smp/Reader.antt =====
-- `CborReader` and `valid_utf8` of firmware/anchor/src/core/smp_codec.cpp. A reader is the list of the
-- bytes that it has not read yet, so `pos_ == size_` is the empty list; a method that returns false is
-- `none`, and no caller reads on from there.
use bin_range.Base.{
  ℕ, zero, suc, ◌+◌, ◌-◌, ◌*◌, ◌/◌, ◌%◌, ◌^◌, Bool, true, false, not, ◌&&◌, ◌||◌, Option, none,
  some, List, [], ◌∷◌, ltb, leb, ◌==◌, if◌then◌else◌, length, take, drop, replicate, ◌++◌, ◌>>=◌,
  ◌>>◌, require,
}
use bin_range.Update.Job.{bytes_eq, hex_digit}

pub record CborHead : Type 0 where
  pub major : ℕ
  pub additional : ℕ
  pub value : ℕ  -- uint64_t
  pub indefinite : Bool

pub record CborContainer : Type 0 where
  pub remaining : ℕ  -- uint64_t
  pub indefinite : Bool

-- The inner loop of `valid_utf8`, with the value that it has and the bytes after the sequence.
unfoldable pub trail : ℕ → ℕ → List ℕ → Option (ℕ × List ℕ)
trail zero value bytes = some (value, bytes)
trail (suc trailing) value [] = none
trail (suc trailing) value (next ∷ bytes) =
    if next / 64 == 2 then trail trailing (value * 64 + next % 64) bytes else none

-- How many bytes follow the first of a sequence, its bits of the value, and the least value.
unfoldable pub lead : ℕ → Option (ℕ × ℕ × ℕ)
lead first =
    if leb 0xc2 first && leb first 0xdf
    then some (1, first % 32, 0x80)
    else if leb 0xe0 first && leb first 0xef
    then some (2, first % 16, 0x800)
    else if leb 0xf0 first && leb first 0xf4
    then some (3, first % 8, 0x1_0000)
    else none

-- One round of the outer loop on a first byte of 0x80 or more.
unfoldable pub sequence : ℕ → List ℕ → Option (List ℕ)
unfolding trail lead
sequence first bytes = do
  (trailing, value, minimum) ← lead first
  (value', rest) ← trail trailing value bytes
  require
      (not (ltb value' minimum || ltb 0x10_ffff value' || leb 0xd800 value' && leb value' 0xdfff))
  some rest

-- A round takes a byte at least, so the length of the text is fuel enough.
unfoldable pub utf8_loop : ℕ → List ℕ → Bool
unfolding sequence
utf8_loop fuel [] = true
utf8_loop zero (first ∷ bytes) = false
utf8_loop (suc fuel) (first ∷ bytes) =
    elim (if ltb first 0x80 then some bytes else sequence first bytes) [
      | none ↦ false
      | some rest ↦ utf8_loop fuel rest
    ]

unfoldable pub valid_utf8 : List ℕ → Bool
unfolding utf8_loop
valid_utf8 bytes = utf8_loop (length bytes) bytes

-- The loop over the `width` bytes of a value. At most eight are read, so no bit is shifted out.
unfoldable pub big_endian : ℕ → ℕ → List ℕ → Option (ℕ × List ℕ)
big_endian zero value bytes = some (value, bytes)
big_endian (suc width) value [] = none
big_endian (suc width) value (b ∷ bytes) = big_endian width (value * 256 + b) bytes

-- A length is not in its shortest form.
abbrev pub overlong : ℕ → ℕ → ℕ → Bool
overlong major width value =
    leb 2 major
    && leb major 5
    && (width == 1 && ltb value 24
        || width == 2 && leb value 0xff
        || width == 4 && leb value 0xffff
        || width == 8 && leb value 0xffff_ffff)

abbrev pub wide_head : ℕ → ℕ → List ℕ → Option (CborHead × List ℕ)
wide_head major additional bytes = do
  (value, rest) ← big_endian (2 ^ (additional - 24)) 0 bytes
  require (not (overlong major (2 ^ (additional - 24)) value))
  some (record { major = major; additional = additional; value = value; indefinite = false }, rest)

abbrev pub short_head : ℕ → ℕ → Bool → CborHead
short_head major additional indefinite = record {
  major = major;
  additional = additional;
  value = if indefinite then 0 else additional;
  indefinite = indefinite;
}

unfoldable pub head : List ℕ → Option (CborHead × List ℕ)
unfolding big_endian
head [] = none
head (byte ∷ bytes) =
    let major = byte / 32 in
    let additional = byte % 32 in
    if ltb additional 24
    then some (short_head major additional false, bytes)
    else if additional == 31
    then (if major == 4 || major == 5 then some (short_head major additional true, bytes) else none)
    else if ltb 27 additional
    then none
    else wide_head major additional bytes

unfoldable pub slice : ℕ → List ℕ → Option (List ℕ × List ℕ)
unfolding head
slice major bytes = do
  (h, rest) ← head bytes
  require (not (not (h.major == major) || h.indefinite || ltb (length rest) h.value))
  require (not (major == 3) || valid_utf8 (take h.value rest))
  some (take h.value rest, drop h.value rest)

-- Both forms of `number`, by the greatest value that is taken.
unfoldable pub read_number : ℕ → List ℕ → Option (ℕ × List ℕ)
unfolding head
read_number maximum bytes = do
  (h, rest) ← head bytes
  require (not (not (h.major == 0) || ltb maximum h.value))
  some (h.value, rest)

unfoldable pub boolean : List ℕ → Option (Bool × List ℕ)
boolean [] = none
boolean (b ∷ bytes) = if not (b == 0xf4) && not (b == 0xf5) then none else some (b == 0xf5, bytes)

abbrev pub any_zero : List ℕ → Bool
any_zero [] = false
any_zero (b ∷ bytes) = b == 0 || any_zero bytes

abbrev pub all_hex : List ℕ → Bool
all_hex [] = true
all_hex (b ∷ bytes) = hex_digit b && all_hex bytes

-- What is written to a zeroed array of `capacity` bytes.
unfoldable pub string : ℕ → Bool → List ℕ → Option (List ℕ × List ℕ)
unfolding slice
string capacity identity bytes = do
  (s, rest) ← slice 3 bytes
  require (
      not (
        length s == 0 || leb capacity (length s) || any_zero s || identity && not (length s == 16)))
  require (not identity || all_hex s)
  some (s ++ replicate (capacity - length s) 0, rest)

unfoldable pub container : ℕ → List ℕ → Option (CborContainer × List ℕ)
unfolding head
container major bytes = do
  (h, rest) ← head bytes
  require (not (not (h.major == major) || not h.indefinite && ltb 64 h.value))
  some (record { remaining = h.value; indefinite = h.indefinite }, rest)

-- `entry` is what `next` makes of the container when it returns true, and `ended` what the reader is
-- left with when it returns false.
pub data Next : Type 0 where
  entry : CborContainer → Next
  ended : List ℕ → Next

abbrev next_counted : ℕ → List ℕ → Next
next_counted zero bytes = ended bytes
next_counted (suc n) bytes = entry (record { remaining = n; indefinite = false })

abbrev next_until : CborContainer → List ℕ → Next
next_until c [] = ended []
next_until c (b ∷ bytes) = if b == 0xff then ended bytes else entry c

unfoldable pub next : CborContainer → List ℕ → Next
next c bytes = if c.indefinite then next_until c bytes else next_counted c.remaining bytes

-- How the loop of `skip` stands before a round: at its end, with what is left; to go on; or broken.
pub data Round : Type 0 where
  stop : List ℕ → Round
  go_on broken : Round

unfoldable pub round : Bool → ℕ → ℕ → List ℕ → Round
round true value entries [] = broken
round true value entries (b ∷ bytes) = if b == 0xff then stop bytes else go_on
round false value entries bytes = if entries == value then stop bytes else go_on

-- The loop of `skip`; `room` is 64 less the entries, and `skip_entry` skips an entry: an item, or the
-- two of a map.
unfoldable pub skip_entries : (List ℕ → Option (List ℕ)) → Bool → ℕ → ℕ → List ℕ → Option (List ℕ)
unfolding round
skip_entries skip_entry indefinite value zero bytes = elim (round indefinite value 64 bytes) [
  | stop rest ↦ some rest
  | go_on ↦ none
  | broken ↦ none
]
skip_entries skip_entry indefinite value (suc room) bytes =
    elim (round indefinite value (64 - suc room) bytes) [
      | stop rest ↦ some rest
      | go_on ↦ skip_entry bytes >>= skip_entries skip_entry indefinite value room
      | broken ↦ none
    ]

abbrev pub skip_string : CborHead → List ℕ → Option (List ℕ)
skip_string h rest = do
  require (not (ltb (length rest) h.value))
  require (not (h.major == 3) || valid_utf8 (take h.value rest))
  some (drop h.value rest)

-- The cases that have no item inside.
abbrev pub skip_leaf : CborHead → List ℕ → Option (List ℕ)
skip_leaf h rest =
    if leb h.major 1
    then some rest
    else if h.major == 2 || h.major == 3
    then skip_string h rest
    else if h.major == 7
        && (leb 20 h.additional && leb h.additional 22
            || leb 25 h.additional && leb h.additional 27)
    then some rest
    else none

abbrev pub is_container : CborHead → Bool
is_container h = h.major == 4 || h.major == 5

-- An entry of a container, by what skips an item.
abbrev pub entry_of : ℕ → (List ℕ → Option (List ℕ)) → List ℕ → Option (List ℕ)
entry_of major skip_item bytes =
    if major == 5 then skip_item bytes >>= skip_item else skip_item bytes

-- `skip(depth)`, by the levels that are left, 8 - depth.
unfoldable pub skip_at : ℕ → List ℕ → Option (List ℕ)
unfolding head skip_entries
skip_at zero bytes = do (h, rest) ← head bytes; require (not (is_container h)); skip_leaf h rest
skip_at (suc levels) bytes = do
  (h, rest) ← head bytes
  elim (is_container h) [
    | false ↦ skip_leaf h rest
    | true ↦
        require (h.indefinite || leb h.value 64)
        >> skip_entries (entry_of h.major (skip_at levels)) h.indefinite h.value 64 rest
  ]

unfoldable pub skip : List ℕ → Option (List ℕ)
unfolding skip_at
skip bytes = skip_at 8 bytes

-- The first of `names`, from `i` on, that is the text.
unfoldable pub name_index : ℕ → List ℕ → List (List ℕ) → Option ℕ
name_index i text [] = none
name_index i text (name ∷ names) =
    if bytes_eq text name then some i else name_index (i + 1) text names

abbrev pub seen_bit : ℕ → List ℕ → Bool
seen_bit i [] = false
seen_bit i (j ∷ seen) = i == j || seen_bit i seen

-- `seen` is the list of the bits that are set. The index is `none` for -1.
unfoldable pub read_key : List (List ℕ) → List ℕ → List ℕ → Option (Option ℕ × List ℕ × List ℕ)
unfolding skip slice name_index
read_key names seen [] = none
read_key names seen (b ∷ bytes) =
    if not (b / 32 == 3) then skip (b ∷ bytes) >>= (λ rest. some (none, seen, rest)) else (do
      (s, rest) ← slice 3 (b ∷ bytes)
      elim (name_index 0 s names) [
        | none ↦ some (none, seen, rest)
        | some i ↦ if seen_bit i seen then none else some (some i, i ∷ seen, rest)
      ])
