-- ===== src/Admin/Text.antt =====
-- The tests on header text of firmware/anchor/src/core/admin_policy.cpp. A C string is the list of
-- its bytes before the end, `none` where the pointer is null.
pub mod Equal
use bin_range.Base.{
  ℕ, ◌-◌, ◌≤◌, ◌<◌, ◌≡◌, ◌↔◌, inl, inr, Bool, true, false, not, refl, ap, arith, List, [], ◌∷◌,
  ◌&&◌, ◌||◌, length, suc, zero, ◌==◌, ltb, leb, if◌then◌else◌, some, none, Option, take, drop,
  bit_or, bit_xor, byte_laws, IsText, ◌%◌,
}
use bin_range.Update.Job.{bytes_eq}

-- `value[i] < 0x20 || value[i] > 0x7e` for no i below `length`; what is read past the text is 0.
unfoldable pub printable_ascii : List ℕ → ℕ → Bool
printable_ascii value zero = true
printable_ascii [] (suc n) = false
printable_ascii (c ∷ value) (suc n) = leb 0x20 c && leb c 0x7e && printable_ascii value n

unfoldable pub admin_password_valid : Option (List ℕ) → ℕ → Bool
admin_password_valid none n = false
admin_password_valid (some password) n = leb 12 n && leb n 64 && printable_ascii password n

-- The loop of `admin_constant_time_equal`, over the longer text: a text that has ended reads as 0.
unfoldable pub differs : ℕ → List ℕ → List ℕ → ℕ
differs acc [] [] = acc
differs acc [] (b ∷ right) = differs (bit_or acc (bit_xor 0 b % 256)) [] right
differs acc (a ∷ left) [] = differs (bit_or acc (bit_xor a 0 % 256)) left []
differs acc (a ∷ left) (b ∷ right) = differs (bit_or acc (bit_xor a b % 256)) left right

unfoldable pub admin_constant_time_equal : Option (List ℕ) → Option (List ℕ) → Bool
unfolding differs
admin_constant_time_equal none right = false
admin_constant_time_equal (some left) none = false
admin_constant_time_equal (some left) (some right) =
    differs (bit_xor (length left) (length right) % 256) left right == 0

unfoldable pub host_bytes : List ℕ → Bool
host_bytes [] = true
host_bytes (c ∷ host) =
    not (leb c 0x20 || leb 0x7f c || c == b'@' || c == b'/' || c == b'?' || c == b'#')
    && host_bytes host

abbrev pub max_host : ℕ
max_host = 128

unfoldable pub valid_host : Option (List ℕ) → Bool
unfolding host_bytes
valid_host none = false
valid_host (some host) =
    if length host == 0 || ltb max_host (length host) then false else host_bytes host

abbrev pub http_prefix : List ℕ
http_prefix = b'h' ∷ b't' ∷ b't' ∷ b'p' ∷ b':' ∷ b'/' ∷ b'/' ∷ []

unfoldable pub admin_origin_matches_host : Option (List ℕ) → Option (List ℕ) → Bool
unfolding valid_host admin_constant_time_equal
admin_origin_matches_host none host = true
admin_origin_matches_host (some []) host = true
admin_origin_matches_host (some (c ∷ rest)) host =
    let origin = c ∷ rest in
    if not (valid_host host) || not (bytes_eq (take 7 origin) http_prefix)
    then false
    else valid_host (some (drop 7 origin)) && admin_constant_time_equal (some (drop 7 origin)) host
