-- ===== src/Update/Snapshot/Fields.antt =====
-- Numbers and fields in the snapshot: a field is read back from its offset.
use bin_range.Base.{
  ℕ, zero, suc, ◌+◌, ◌*◌, ◌/◌, ◌<◌, ◌≡◌, refl, ap, ◌∙◌, arith, List, [], ◌∷◌, ◌++◌, length, take,
  drop, get_or, length-append,
}
use bin_range.Update.Snapshot.{put, get, slice, layout}

-- The numbers that `width` bytes hold.
abbrev pub limit : ℕ → ℕ
limit zero = 1
limit (suc width) = 256 * limit width

pub length-put : (width value : ℕ) → length (put width value) ≡ width
length-put zero value = refl
length-put (suc width) value = ap suc (length-put width (value / 256))

pub get-put : (width value : ℕ) → value < limit width → get (put width value) ≡ value
get-put zero value h = omega arith
get-put (suc width) value h = omega (arith, get-put width (value / 256) (omega arith))

-- Each field has its width.
abbrev pub Fits : List ℕ → List (List ℕ) → Type 0
Fits [] [] = Unit {0}
Fits [] (x ∷ xss) = ⊥
Fits (w ∷ ws) [] = ⊥
Fits (w ∷ ws) (x ∷ xss) = (length x ≡ w) × Fits ws xss

abbrev pub total : List ℕ → ℕ
total [] = 0
total (w ∷ ws) = w + total ws

drop-append : (xs ys : List ℕ) (m n : ℕ) → m ≡ length xs + n → drop m (xs ++ ys) ≡ drop n ys
drop-append [] ys m n h = ap (λ k. drop k ys) (omega arith)
drop-append (x ∷ xs) ys zero n h = absurd (omega arith)
drop-append (x ∷ xs) ys (suc m) n h = drop-append xs ys m n (omega arith)

take-append : (xs ys : List ℕ) (w : ℕ) → length xs ≡ w → take w (xs ++ ys) ≡ xs
take-append [] ys zero h = refl
take-append [] ys (suc w) h = absurd (omega arith)
take-append (x ∷ xs) ys zero h = absurd (omega arith)
take-append (x ∷ xs) ys (suc w) h = ap (◌∷◌ x) (take-append xs ys w (omega arith))

-- The field after the first ones, from its offset.
pub slice-layout :
    (ws : List ℕ) (xss : List (List ℕ)) (rest : List ℕ) (i : ℕ)
    → Fits ws xss
    → slice (total (take i ws)) (get_or ws i 0) (layout xss rest) ≡ get_or xss i []
slice-layout [] [] rest i f = refl
slice-layout [] (x ∷ xss) rest i f = elim f [ ]
slice-layout (w ∷ ws) [] rest i f = elim f [ ]
slice-layout (w ∷ ws) (x ∷ xss) rest zero f = take-append x (layout xss rest) w f.0
slice-layout (w ∷ ws) (x ∷ xss) rest (suc i) f =
    ap (take (get_or ws i 0)) (
      drop-append x (layout xss rest) (w + total (take i ws)) (total (take i ws))
        (omega (arith, f.0)))
    ∙ slice-layout ws xss rest i f.1

pub drop-layout_more :
    (n : ℕ) (ws : List ℕ) (xss : List (List ℕ)) (rest : List ℕ)
    → Fits ws xss
    → drop (total ws + n) (layout xss rest) ≡ drop n rest
drop-layout_more n [] [] rest f = ap (λ k. drop k rest) (omega arith)
drop-layout_more n [] (x ∷ xss) rest f = elim f [ ]
drop-layout_more n (w ∷ ws) [] rest f = elim f [ ]
drop-layout_more n (w ∷ ws) (x ∷ xss) rest f =
    drop-append x (layout xss rest) (w + total ws + n) (total ws + n) (omega (arith, f.0))
    ∙ drop-layout_more n ws xss rest f.1

pub drop-layout :
    (ws : List ℕ) (xss : List (List ℕ)) (rest : List ℕ)
    → Fits ws xss
    → drop (total ws) (layout xss rest) ≡ rest
drop-layout ws xss rest f =
    ap (λ n. drop n (layout xss rest)) (omega arith) ∙ drop-layout_more 0 ws xss rest f

pub length-layout :
    (ws : List ℕ) (xss : List (List ℕ)) (rest : List ℕ)
    → Fits ws xss
    → length (layout xss rest) ≡ total ws + length rest
length-layout [] [] rest f = omega arith
length-layout [] (x ∷ xss) rest f = elim f [ ]
length-layout (w ∷ ws) [] rest f = elim f [ ]
length-layout (w ∷ ws) (x ∷ xss) rest f =
    omega (arith, length-append x (layout xss rest), length-layout ws xss rest f.1, f.0)
