-- ===== src/Update/Smp/Reply.antt =====
-- `parse_image`, `parse_images`, `parse_error` and `decode_reply` of
-- firmware/anchor/src/core/smp_codec.cpp.
use bin_range.Base.{
  ℕ, zero, suc, ◌+◌, Bool, true, false, not, ◌&&◌, ◌||◌, Option, none, some, List, [], ◌∷◌, ◌++◌,
  ltb, leb, ◌==◌, if◌then◌else◌, length, replicate, ◌>>=◌, ◌>>◌, require, codes, map,
}
use Prim.Native.String.{String}
use bin_range.Update.Queue.{u16_max, u32_max}
use bin_range.Update.Smp.{
  SmpCommand, SmpImage, SmpTag, SmpMotionConfig, SmpReply, ok, denied, pos, negsuc, image_list,
  tag_status, upload, trial, reset, config_read, config_write, smp_motion_valid,
}
use bin_range.Update.Smp.Reader.{
  CborContainer, entry, ended, next, head, slice, skip, read_number, boolean, string, container,
  read_key, seen_bit,
}

abbrev pub no_image : SmpImage
no_image = record {
  slot = 0;
  version = replicate 24 0;
  hash = replicate 32 0;
  bootable = false;
  pending = false;
  confirmed = false;
  active = false;
  permanent = false;
}

abbrev pub no_tag : SmpTag
no_tag = record {
  id = replicate 17 0;
  version = replicate 24 0;
  tag = 0;
  uptime_ms = 0;
  reset_reason = 0;
  confirmed = false;
  maintenance = false;
  radio_ok = false;
  ble_ok = false;
  config_status_known = false;
  config_pending = false;
  sensor_error = pos 0;
}

abbrev pub no_motion : SmpMotionConfig
no_motion = record {
  moving_ms = 0;
  idle_ms = 0;
  quiet_ms = 0;
  threshold_mg = 0;
  duration_samples = 0;
}

-- `reply_ = {}`.
abbrev pub no_reply : SmpReply
no_reply = record {
  outcome = ok;
  error_group = 0;
  error_code = 0;
  tag = no_tag;
  images = [];
  offset = 0;
  config = no_motion;
}

-- `while (c.next(map)) { ... }`, where the body turns a state and the bytes into new ones.
unfoldable pub entries {ℓ} :
    {S : Type ℓ}
    → (S → List ℕ → Option (S × List ℕ))
    → ℕ
    → S
    → CborContainer
    → List ℕ
    → Option (S × List ℕ)
unfolding next
entries body zero s c bytes = none
entries body (suc fuel) s c bytes = elim (next c bytes) [
  | ended rest ↦ some (s, rest)
  | entry c' ↦ body s bytes >>= (λ (s', rest). entries body fuel s' c' rest)
]

-- A container of this kind and its entries. A round takes a byte at least, so there are no more
-- rounds than bytes, and one that ends the loop.
unfoldable pub contents {ℓ} :
    {S : Type ℓ} → ℕ → (S → List ℕ → Option (S × List ℕ)) → S → List ℕ → Option (S × List ℕ)
unfolding entries container
contents major body s bytes =
    container major bytes >>= (λ (c, rest). entries body (length rest + 1) s c rest)

abbrev keyed {ℓ} :
    {S : Type ℓ}
    → (S → Option ℕ → List ℕ → Option (S × List ℕ))
    → List (List ℕ)
    → S × List ℕ
    → List ℕ
    → Option ((S × List ℕ) × List ℕ)
keyed field names (s, seen) bytes = do
  (index, seen', rest) ← read_key names seen bytes
  (s', rest') ← field s index rest
  some ((s', seen'), rest')

-- `(seen & mask) == mask` for the bits from `low` to `high`.
unfoldable pub all_seen : ℕ → ℕ → List ℕ → Bool
all_seen low zero seen = seen_bit low seen
all_seen low (suc more) seen = seen_bit low seen && all_seen (low + 1) more seen

abbrev u64_max : ℕ
u64_max = 0xffff_ffff_ffff_ffff

abbrev unknown {ℓ} : {S : Type ℓ} → S → List ℕ → Option (S × List ℕ)
unknown s bytes = skip bytes >>= (λ rest. some (s, rest))

abbrev a_flag {ℓ} : {S : Type ℓ} → (Bool → S) → List ℕ → Option (S × List ℕ)
a_flag store bytes = boolean bytes >>= (λ (b, rest). some (store b, rest))

-- A number of at most `maximum`, that passes the test.
abbrev a_number {ℓ} : {S : Type ℓ} → ℕ → (ℕ → Bool) → (ℕ → S) → List ℕ → Option (S × List ℕ)
a_number maximum test store bytes =
    read_number maximum bytes >>= (λ (n, rest). require (test n) >> some (store n, rest))

abbrev a_string {ℓ} : {S : Type ℓ} → ℕ → Bool → (List ℕ → S) → List ℕ → Option (S × List ℕ)
a_string capacity identity store bytes =
    string capacity identity bytes >>= (λ (text, rest). some (store text, rest))

abbrev any : ℕ → Bool
any n = true

abbrev a_hash : SmpImage → List ℕ → Option (SmpImage × List ℕ)
a_hash image bytes = do
  (hash, rest) ← slice 2 bytes
  require (length hash == 32)
  some (record image { hash = hash }, rest)

unfoldable pub image_field : SmpImage → Option ℕ → List ℕ → Option (SmpImage × List ℕ)
unfolding skip read_number boolean string slice
image_field image none bytes = unknown image bytes
image_field image (some k) bytes =
    if k == 0
    then a_number 255 (λ n. leb n 1) (λ n. record image { slot = n }) bytes
    else if k == 1
    then a_string 24 false (λ text. record image { version = text }) bytes
    else if k == 2
    then a_hash image bytes
    else if k == 3
    then a_flag (λ b. record image { bootable = b }) bytes
    else if k == 4
    then a_flag (λ b. record image { pending = b }) bytes
    else if k == 5
    then a_flag (λ b. record image { confirmed = b }) bytes
    else if k == 6
    then a_flag (λ b. record image { active = b }) bytes
    else if k == 7
    then a_flag (λ b. record image { permanent = b }) bytes
    else a_number 0 any (λ n. image) bytes

abbrev pub image_names : List (List ℕ)
image_names = map codes (
    "slot" ∷ "version" ∷ "hash" ∷ "bootable" ∷ "pending" ∷ "confirmed" ∷ "active" ∷ "permanent"
    ∷ "image" ∷ [])

unfoldable pub parse_image : List ℕ → Option (SmpImage × List ℕ)
unfolding contents image_field read_key all_seen
parse_image bytes = do
  ((image, seen), rest) ← contents 5 (keyed image_field image_names) (no_image, []) bytes
  require (all_seen 0 7 seen)
  some (image, rest)

-- `slots & (1u << slot)`: one of the images so far has this slot.
abbrev pub slot_used : ℕ → List SmpImage → Bool
slot_used slot [] = false
slot_used slot (image ∷ images) = image.slot == slot || slot_used slot images

-- `active`: one of the images so far is.
abbrev pub any_active : List SmpImage → Bool
any_active [] = false
any_active (image ∷ images) = image.active || any_active images

unfoldable pub images_entry : List SmpImage → List ℕ → Option (List SmpImage × List ℕ)
unfolding parse_image
images_entry images bytes = do
  require (not (length images == 2))
  (image, rest) ← parse_image bytes
  require (not (slot_used image.slot images || any_active images && image.active))
  some (images ++ (image ∷ []), rest)

unfoldable pub parse_images : List SmpImage → List ℕ → Option (List SmpImage × List ℕ)
unfolding contents images_entry
parse_images images bytes = contents 4 images_entry images bytes

unfoldable pub error_field : SmpReply → Option ℕ → List ℕ → Option (SmpReply × List ℕ)
unfolding skip read_number
error_field reply none bytes = unknown reply bytes
error_field reply (some k) bytes =
    if k == 0
    then a_number u16_max any (λ n. record reply { error_group = n }) bytes
    else a_number u32_max (λ n. not (n == 0)) (λ n. record reply { error_code = n }) bytes

abbrev pub error_names : List (List ℕ)
error_names = map codes ("group" ∷ "rc" ∷ [])

unfoldable pub parse_error : SmpReply → List ℕ → Option (SmpReply × List ℕ)
unfolding contents error_field read_key all_seen
parse_error reply bytes = do
  ((reply', seen), rest) ← contents 5 (keyed error_field error_names) (reply, []) bytes
  require (all_seen 0 1 seen)
  some (reply', rest)

-- The local variables `rc` and `config_schema` of `decode_reply` beside the reply.
pub record Decoding : Type 0 where
  pub reply : SmpReply
  pub rc : ℕ  -- uint32_t
  pub config_schema : ℕ  -- uint32_t

abbrev in_config : Decoding → SmpMotionConfig → Decoding
in_config d config = record d { reply = record (d.reply) { config = config } }

abbrev in_tag : Decoding → SmpTag → Decoding
in_tag d tag = record d { reply = record (d.reply) { tag = tag } }

unfoldable pub config_field : Decoding → ℕ → List ℕ → Option (Decoding × List ℕ)
unfolding read_number
config_field d k bytes =
    let config = d.reply.config in
    if k == 2
    then a_number u32_max any (λ n. in_config d (record config { moving_ms = n })) bytes
    else if k == 3
    then a_number u32_max any (λ n. in_config d (record config { idle_ms = n })) bytes
    else if k == 4
    then a_number u32_max any (λ n. in_config d (record config { quiet_ms = n })) bytes
    else if k == 5
    then a_number u32_max any (λ n. in_config d (record config { threshold_mg = n })) bytes
    else if k == 6
    then a_number u32_max any (λ n. in_config d (record config { duration_samples = n })) bytes
    else none

abbrev a_sensor_error : Decoding → List ℕ → Option (Decoding × List ℕ)
a_sensor_error d bytes = do
  (h, rest) ← head bytes
  require (not (h.indefinite || ltb 1 h.major || ltb 0x7fff_ffff h.value))
  some (
    in_tag d (record (d.reply.tag) {
      sensor_error = if h.major == 0 then pos h.value else negsuc h.value;
    }),
    rest,
  )

unfoldable pub tag_field : Decoding → ℕ → List ℕ → Option (Decoding × List ℕ)
unfolding read_number boolean string head
tag_field d k bytes =
    let tag = d.reply.tag in
    if k == 2
    then a_string 17 true (λ text. in_tag d (record tag { id = text })) bytes
    else if k == 3
    then a_string 24 false (λ text. in_tag d (record tag { version = text })) bytes
    else if k == 4
    then a_number u16_max (λ n. not (n == 0 || n == 0xffff))
        (λ n. in_tag d (record tag { tag = n })) bytes
    else if k == 5
    then a_number u64_max any (λ n. in_tag d (record tag { uptime_ms = n })) bytes
    else if k == 6
    then a_number u32_max any (λ n. in_tag d (record tag { reset_reason = n })) bytes
    else if k == 7
    then a_flag (λ b. in_tag d (record tag { confirmed = b })) bytes
    else if k == 8
    then a_flag (λ b. in_tag d (record tag { maintenance = b })) bytes
    else if k == 9
    then a_flag (λ b. in_tag d (record tag { radio_ok = b })) bytes
    else if k == 10
    then a_flag (λ b. in_tag d (record tag { ble_ok = b })) bytes
    else if k == 11
    then a_flag (λ b. in_tag d (record tag { config_pending = b })) bytes
    else if k == 12
    then a_sensor_error d bytes
    else if k == 13
    then a_number u32_max any (λ n. record d { config_schema = n }) bytes
    else none

-- The fields that only this command's reply has. The replies of Trial and Reset have none.
unfoldable pub own_field : SmpCommand → Decoding → ℕ → List ℕ → Option (Decoding × List ℕ)
unfolding parse_images read_number config_field tag_field
own_field image_list d k bytes = do
  (images, rest) ← parse_images d.reply.images bytes
  some (record d { reply = record (d.reply) { images = images } }, rest)
own_field upload d k bytes =
    a_number u32_max any (λ n. record d { reply = record (d.reply) { offset = n } }) bytes
own_field config_read d k bytes = config_field d k bytes
own_field config_write d k bytes = config_field d k bytes
own_field tag_status d k bytes = tag_field d k bytes
own_field trial d k bytes = tag_field d k bytes
own_field reset d k bytes = tag_field d k bytes

unfoldable pub reply_field : SmpCommand → Decoding → Option ℕ → List ℕ → Option (Decoding × List ℕ)
unfolding parse_error own_field skip read_number
reply_field command d none bytes = unknown d bytes
reply_field command d (some k) bytes =
    if k == 0
    then a_number u32_max any (λ n. record d { rc = n }) bytes
    else if k == 1
    then parse_error d.reply bytes >>= (λ (reply, rest). some (record d { reply = reply }, rest))
    else own_field command d k bytes

abbrev config_names : List String
config_names = "moving_ms" ∷ "idle_ms" ∷ "quiet_ms" ∷ "threshold_mg" ∷ "duration_samples" ∷ []

abbrev tag_names : List String
tag_names =
    "id" ∷ "version" ∷ "tag" ∷ "uptime_ms" ∷ "reset_reason" ∷ "confirmed" ∷ "maintenance"
    ∷ "radio_ok" ∷ "ble_ok" ∷ "config_pending" ∷ "sensor_error" ∷ "config_schema" ∷ []

abbrev own_names : SmpCommand → List String
own_names image_list = "images" ∷ []
own_names upload = "off" ∷ []
own_names config_read = config_names
own_names config_write = config_names
own_names tag_status = tag_names
own_names trial = []
own_names reset = []

-- `keys`, up to `key_count`.
unfoldable pub reply_names : SmpCommand → List (List ℕ)
reply_names command = map codes ("rc" ∷ "err" ∷ own_names command)

-- What a reply that is not denied needs, with the last of what it sets.
unfoldable pub complete : SmpCommand → List ℕ → Decoding → Option SmpReply
unfolding all_seen smp_motion_valid
complete image_list seen d = require (seen_bit 2 seen) >> some d.reply
complete upload seen d = require (seen_bit 2 seen) >> some d.reply
complete config_read seen d =
    require (all_seen 2 4 seen && smp_motion_valid d.reply.config) >> some d.reply
complete config_write seen d =
    require (all_seen 2 4 seen && smp_motion_valid d.reply.config) >> some d.reply
complete tag_status seen d =
    require (all_seen 2 8 seen)
    >> some (record (d.reply) {
      tag = record (d.reply.tag) {
        config_status_known = all_seen 11 2 seen && d.config_schema == 1;
      };
    })
complete trial seen d = some d.reply
complete reset seen d = some d.reply

abbrev deny : Decoding → SmpReply
deny d =
    if not (d.rc == 0)
    then record (d.reply) { outcome = denied; error_group = 0; error_code = d.rc }
    else record (d.reply) { outcome = denied }

abbrev finished : List ℕ → Bool
finished [] = true
finished (b ∷ bytes) = false

-- From the loop on.
abbrev conclude : SmpCommand → Decoding → List ℕ → Option SmpReply
conclude command d seen =
    if seen_bit 0 seen && seen_bit 1 seen
    then none
    else if seen_bit 1 seen || not (d.rc == 0)
    then some (deny d)
    else complete command seen (record d { reply = record (d.reply) { outcome = ok } })

-- `reply` is what it is on entry, and the result what it is when the call returns true.
unfoldable pub decode_reply : SmpCommand → List ℕ → SmpReply → Option SmpReply
unfolding skip contents reply_field read_key reply_names complete
decode_reply command bytes reply = do
  left ← skip bytes
  require (finished left)
  ((d, seen), rest) ←
      contents 5 (keyed (reply_field command) (reply_names command))
        (record { reply = reply; rc = 0; config_schema = 0 }, []) bytes
  require (finished rest)
  conclude command d seen
