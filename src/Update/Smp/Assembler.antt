-- ===== src/Update/Smp/Assembler.antt =====
-- `SmpAssembler` of firmware/anchor/src/core/smp_codec.h and smp_codec.cpp. Of `buffer_[4096]` the model
-- keeps the first `used_` bytes, which are all that the code reads.
use bin_range.Base.{
  ℕ, ◌+◌, ◌-◌, ◌*◌, ◌/◌, ◌%◌, Bool, true, false, not, ◌||◌, Option, none, some, List, [], ◌++◌, ltb,
  ◌==◌, if◌then◌else◌, length, drop, get_or,
}
use bin_range.Update.Smp.{SmpCommand, SmpReply, WireCommand, image_list, wire_command}
use bin_range.Update.Smp.Reply.{decode_reply, no_reply}

pub data SmpFeed : Type 0 where
  more complete error : SmpFeed

pub data State : Type 0 where
  idle receiving completed failed : State

pub record SmpAssembler : Type 0 where
  pub state : State
  pub command : SmpCommand
  pub sequence : ℕ  -- uint8_t
  pub buffer : List ℕ
  pub stored : SmpReply

abbrev pub buffer_size : ℕ
buffer_size = 4096

-- `abort`, which the constructor calls too: nothing is left of what was before.
abbrev pub abort : SmpAssembler
abort = record { state = idle; command = image_list; sequence = 0; buffer = []; stored = no_reply }

abbrev pub fail : SmpAssembler → SmpAssembler × SmpFeed
fail a = (record a { state = failed; buffer = []; stored = no_reply }, error)

abbrev pub is_busy : State → Bool
is_busy idle = false
is_busy receiving = true
is_busy completed = false
is_busy failed = true

abbrev pub is_receiving : State → Bool
is_receiving idle = false
is_receiving receiving = true
is_receiving completed = false
is_receiving failed = false

unfoldable pub begin : SmpAssembler → SmpCommand → ℕ → SmpAssembler × Bool
begin a command sequence = if is_busy a.state then (a, false) else (
  record {
    state = receiving;
    command = command;
    sequence = sequence;
    buffer = [];
    stored = no_reply;
  },
  true,
)

abbrev is_complete : State → Bool
is_complete idle = false
is_complete receiving = false
is_complete completed = true
is_complete failed = false

unfoldable pub reply : SmpAssembler → Option SmpReply
reply a = if is_complete a.state then some a.stored else none

abbrev at : ℕ → List ℕ → ℕ
at i bytes = get_or bytes i 0

-- The length that the header in the buffer gives.
abbrev pub payload_length : List ℕ → ℕ
payload_length buffer = at 2 buffer * 256 + at 3 buffer

-- The checks on the header, and on the bytes received.
unfoldable pub header_ok : WireCommand → ℕ → List ℕ → Bool
header_ok wire sequence buffer = not (
    not (at 0 buffer == wire.op + 1)
    || not (at 1 buffer == 0)
    || not (at 4 buffer == wire.group / 256)
    || not (at 5 buffer == wire.group % 256)
    || not (at 6 buffer == sequence)
    || not (at 7 buffer == wire.id)
    || payload_length buffer == 0
    || ltb (buffer_size - 8) (payload_length buffer)
    || ltb (payload_length buffer + 8) (length buffer))

abbrev pub finish : SmpAssembler → Option SmpReply → SmpAssembler × SmpFeed
finish a none = fail a
finish a (some r) = (record a { state = completed; stored = r }, complete)

-- What `feed` does once the bytes are in the buffer.
unfoldable pub judge : SmpAssembler → SmpAssembler × SmpFeed
unfolding header_ok decode_reply
judge a =
    if ltb (length a.buffer) 8
    then (a, more)
    else if not (header_ok (wire_command a.command) a.sequence a.buffer)
    then fail a
    else if ltb (length a.buffer) (payload_length a.buffer + 8)
    then (a, more)
    else finish a (decode_reply a.command (drop 8 a.buffer) a.stored)

-- The bytes that `bytes` and `size` name; `none` for a null pointer with a size.
unfoldable pub feed : SmpAssembler → Option (List ℕ) → SmpAssembler × SmpFeed
unfolding judge
feed a none = fail a
feed a (some bytes) =
    if not (is_receiving a.state) || ltb (buffer_size - length a.buffer) (length bytes)
    then fail a
    else if length bytes == 0
    then (a, more)
    else judge (record a { buffer = a.buffer ++ bytes })
