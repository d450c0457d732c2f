-- ===== src/Update/Smp/Numbers.antt =====
-- Numbers and byte strings as the encoder writes them are read back.
use bin_range.Base.{
  append_assoc, ℕ, ◌≤◌, ◌<◌, ◌≡◌, inl, inr, false, refl, ap, arith, some, List, [], ◌∷◌, ◌++◌, ltb,
  leb, Bool-cases, length, take, drop, length-append, if◌then◌else◌, u32,
}
use bin_range.Update.Smp.{number, blob}
use bin_range.Update.Smp.Reader.{CborHead, read_number, head, big_endian, slice}

abbrev minimal : ℕ → ℕ
minimal n = if ltb n 24 then n else if leb n 0xff then 24 else if leb n 0xffff then 25 else 26

-- The head of an item as the encoder writes it.
abbrev head_of : ℕ → ℕ → CborHead
head_of major n = record { major = major; additional = minimal n; value = n; indefinite = false }

head-number :
    (major n : ℕ) (rest : List ℕ)
    → major < 6
    → n < 0x1_0000_0000
    → head (number major n ++ rest) ≡ some (head_of major n, rest)
unfolding head big_endian number
head-number major n rest m w = elim (Bool-cases (ltb n 24)) [
  | inl e ↦ ground arith
  | inr e ↦ elim (Bool-cases (leb n 0xff)) [
    | inl e' ↦ ground arith
    | inr e' ↦ elim (Bool-cases (leb n 0xffff)) [ inl e'' ↦ ground arith | inr e'' ↦ ground arith ]
  ]
]

take_front : (a b : List ℕ) → take (length a) (a ++ b) ≡ a
take_front [] b = refl
take_front (x ∷ a) b = ap (◌∷◌ x) (take_front a b)

drop_front : (a b : List ℕ) → drop (length a) (a ++ b) ≡ b
drop_front [] b = refl
drop_front (x ∷ a) b = drop_front a b

read_number-number :
    (maximum n : ℕ) (rest : List ℕ)
    → n ≤ maximum
    → n < 0x1_0000_0000
    → read_number maximum (number 0 n ++ rest) ≡ some (n, rest)
unfolding read_number
read_number-number maximum n rest h w =
    let e = head-number 0 n rest (omega arith) w in ground (arith, e)

slice-blob :
    (bytes rest : List ℕ)
    → length bytes < 0x1_0000_0000
    → slice 2 (blob 2 bytes ++ rest) ≡ some (bytes, rest)
unfolding slice blob
slice-blob bytes rest w =
    let n = u32 (length bytes) in
    let same : n ≡ length bytes = omega arith in
    let split = append_assoc (number 2 n) bytes rest in
    let e = head-number 2 n (bytes ++ rest) (omega arith) (omega arith) in
    ground (
      arith,
      same,
      split,
      e,
      take_front bytes rest,
      drop_front bytes rest,
      length-append bytes rest,
    )

-- A number of 32 bits within the reader's limit, and a byte string of a 32-bit length, are read back
-- as they were written, whatever follows them.
pub written_is_read :
    (maximum n : ℕ) (bytes rest : List ℕ)
    → n ≤ maximum
    → n < 0x1_0000_0000
    → length bytes < 0x1_0000_0000
    → (read_number maximum (number 0 n ++ rest) ≡ some (n, rest))
      × (slice 2 (blob 2 bytes ++ rest) ≡ some (bytes, rest))
written_is_read maximum n bytes rest h w l =
    (read_number-number maximum n rest h w, slice-blob bytes rest l)
