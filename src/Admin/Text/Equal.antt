-- ===== src/Admin/Text/Equal.antt =====
-- The constant-time comparison compares: its accumulator stays 0 exactly on equal texts, although
-- it keeps only a byte of the difference of the lengths.
use bin_range.Base.{
  ℕ, ◌<◌, ◌≡◌, ◌↔◌, true, refl, ap, arith, List, [], ◌∷◌, length, some, take, drop, bit_or, bit_xor,
  byte_laws, bit_xor_self, IsText, ◌%◌, ◌++◌, sym, ◌∙◌, take-append-drop, suc, zero,
}
use mathlib.Core.Path.{ap₂}
use bin_range.Update.Job.Trial.{bytes_eq-eq, bytes_eq_refl}
use bin_range.Admin.Text.{
  differs, admin_constant_time_equal, valid_host, admin_origin_matches_host, http_prefix,
}

differs-zero :
    (acc : ℕ) (left right : List ℕ)
    → acc < 256
    → IsText left
    → IsText right
    → differs acc left right ≡ 0
    → (acc ≡ 0) × (left ≡ right)
unfolding differs
differs-zero acc [] [] h l r e = (e, refl)
differs-zero acc [] (b ∷ right) h l r e =
    let laws = byte_laws 0 b (omega arith) (omega arith) in
    let laws' = byte_laws acc (bit_xor 0 b % 256) h (omega arith) in
    let (z, _) = differs-zero (bit_or acc (bit_xor 0 b % 256)) [] right (omega arith) tt r.2 e in
    ground arith
differs-zero acc (a ∷ left) [] h l r e =
    let laws = byte_laws a 0 (omega arith) (omega arith) in
    let laws' = byte_laws acc (bit_xor a 0 % 256) h (omega arith) in
    let (z, _) = differs-zero (bit_or acc (bit_xor a 0 % 256)) left [] (omega arith) l.2 tt e in
    ground arith
differs-zero acc (a ∷ left) (b ∷ right) h l r e =
    let laws = byte_laws a b (omega arith) (omega arith) in
    let laws' = byte_laws acc (bit_xor a b % 256) h (omega arith) in
    let (z, same) =
      differs-zero (bit_or acc (bit_xor a b % 256)) left right (omega arith) l.2 r.2 e in
    ground arith

differs_self : (acc : ℕ) (text : List ℕ) → acc ≡ 0 → IsText text → differs acc text text ≡ 0
unfolding differs
differs_self acc [] e t = e
differs_self acc (a ∷ text) e t =
    let laws = byte_laws a a (omega arith) (omega arith) in
    let laws' = byte_laws acc (bit_xor a a % 256) (omega arith) (omega arith) in
    differs_self (bit_or acc (bit_xor a a % 256)) text (ground arith) t.2

-- On two C strings, `admin_constant_time_equal` holds exactly when they are equal.
pub admin_constant_time_equal_iff :
    (left right : List ℕ)
    → IsText left
    → IsText right
    → (admin_constant_time_equal (some left) (some right) ≡ true) ↔ (left ≡ right)
unfolding admin_constant_time_equal
admin_constant_time_equal_iff left right l r = (
  λ h.
      (differs-zero (bit_xor (length left) (length right) % 256) left right (omega arith) l r
        (ground arith)).1,
  λ e. rw e (
      ground (
        arith,
        bit_xor_self (length right),
        differs_self (bit_xor (length right) (length right) % 256) right,
      )),
)

IsText-drop : (n : ℕ) (text : List ℕ) → IsText text → IsText (drop n text)
IsText-drop zero text t = t
IsText-drop (suc n) [] t = tt
IsText-drop (suc n) (c ∷ text) t = IsText-drop n text t.2

-- A nonempty Origin is accepted for a Host exactly when the Host is well formed and the Origin is
-- "http://" followed by it, byte for byte.
pub admin_origin_matches_host_iff :
    (c : ℕ) (rest host : List ℕ)
    → IsText (c ∷ rest)
    → IsText host
    → (admin_origin_matches_host (some (c ∷ rest)) (some host) ≡ true)
      ↔ ((valid_host (some host) ≡ true) × (c ∷ rest ≡ http_prefix ++ host))
unfolding admin_origin_matches_host
admin_origin_matches_host_iff c rest host o h = (sound, complete)
  where
    same :
        (admin_constant_time_equal (some (drop 7 (c ∷ rest))) (some host) ≡ true)
        ↔ (drop 7 (c ∷ rest) ≡ host)
    same = admin_constant_time_equal_iff (drop 7 (c ∷ rest)) host (IsText-drop 7 (c ∷ rest) o) h

    sound :
        admin_origin_matches_host (some (c ∷ rest)) (some host) ≡ true
        → (valid_host (some host) ≡ true) × (c ∷ rest ≡ http_prefix ++ host)
    sound e =
        let front = bytes_eq-eq (take 7 (c ∷ rest)) http_prefix (ground arith) in
        let back = same.0 (ground arith) in
        (ground arith, sym (take-append-drop 7 (c ∷ rest)) ∙ ap₂ ◌++◌ front back)

    complete :
        (valid_host (some host) ≡ true) × (c ∷ rest ≡ http_prefix ++ host)
        → admin_origin_matches_host (some (c ∷ rest)) (some host) ≡ true
    complete e =
        let front : take 7 (c ∷ rest) ≡ http_prefix = ap (take 7) e.1 in
        let back : drop 7 (c ∷ rest) ≡ host = ap (drop 7) e.1 in
        ground (arith, same.1 back, bytes_eq_refl http_prefix)
