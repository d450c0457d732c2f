-- ===== src/Base/Bytes.antt =====
-- Bytes: the laws of `|` and `^` on them that the code relies on, read off a table.
use Prim.Native.Nat.{
  ℕ, zero, suc, ◌<◌, ◌≤◌, ◌/◌, ◌%◌, bit_or, bit_xor, digits, bit_xor-bitwise, differ,
}
use mathlib.Core.Path.{◌≡◌, refl, ap, ◌∙◌}
use mathlib.Core.Logic.{◌⊎◌, inl, inr}
use mathlib.Core.Bool.{Bool, true, ◌&&◌}
use mathlib.Core.List.{List, [], ◌∷◌}
use native.Mathlib.Omega.{arith}
use bin_range.Base.Tests.{ltb, ◌==◌, if◌then◌else◌}

-- A test passes for each number up to the top one.
passes : (ℕ → Bool) → ℕ → Bool
passes test zero = test 0
passes test (suc top) = passes test top && test (suc top)

top_or_less : (k top : ℕ) → k ≤ suc top → (k ≡ suc top) ⊎ (k ≤ top)
top_or_less k top le = ground arith

passes_lem :
    (test : ℕ → Bool) (top : ℕ) → passes test top ≡ true → (k : ℕ) → k ≤ top → test k ≡ true
unfolding passes
passes_lem test zero all k le = ap test (omega arith) ∙ all
passes_lem test (suc top) all k le = elim (top_or_less k top le) [
  | inl e ↦ ap test e ∙ ground arith
  | inr less ↦ passes_lem test top (ground arith) k less
]

abbrev law : ℕ → ℕ → Bool
law x y =
    ltb (bit_or x y) 256
    && ltb (bit_xor x y) 256
    && (if x == 0 then bit_or x y == y else ltb 0 (bit_or x y))
    && (if y == 0 then bit_or x y == x else ltb 0 (bit_or x y))
    && (if x == y then bit_xor x y == 0 else ltb 0 (bit_xor x y))

table : passes (λ x. passes (law x) 255) 255 ≡ true
unfolding passes
table = refl

pub record ByteLaws (x y : ℕ) : Type 0 where
  pub or_lt : bit_or x y < 256
  pub xor_lt : bit_xor x y < 256
  pub or_zero : bit_or x y ≡ 0 → (x ≡ 0) × (y ≡ 0)
  pub zero_or_zero : x ≡ 0 → y ≡ 0 → bit_or x y ≡ 0
  pub xor_zero : bit_xor x y ≡ 0 → x ≡ y
  pub xor_self : x ≡ y → bit_xor x y ≡ 0

pub byte_laws : (x y : ℕ) → x < 256 → y < 256 → ByteLaws x y
byte_laws x y hx hy =
    let row = passes_lem (λ x. passes (law x) 255) 255 table x (omega arith) in
    let entry = passes_lem (law x) 255 row y (omega arith) in ground arith

abbrev pub AllBytes : List ℕ → Type 0
AllBytes [] = Unit {0}
AllBytes (x ∷ xs) = (x < 256) × AllBytes xs

-- The bytes of a C string before its end.
abbrev pub IsText : List ℕ → Type 0
IsText [] = Unit {0}
IsText (x ∷ xs) = (0 < x) × (x < 256) × IsText xs

differ_self : (a : ℕ) → differ a a ≡ 0
differ_self zero = refl
differ_self (suc a) = differ_self a

digits_self : (n a : ℕ) → a ≤ n → digits (λ b. b) differ n a a ≡ 0
digits_self zero zero h = refl
digits_self (suc n) zero h = refl
digits_self zero (suc a) h = absurd (omega arith)
digits_self (suc n) (suc a) h =
    omega (arith, digits_self n (suc a / 2) (omega arith), differ_self (suc a % 2))

pub bit_xor_self : (a : ℕ) → bit_xor a a ≡ 0
bit_xor_self a = bit_xor-bitwise a a ∙ digits_self a a (omega arith)
