-- ===== src/Update/Snapshot/Text.antt =====
-- Strings in the snapshot: what the encoder writes is canonical, keeps the text, and is written
-- again as it stands.
use bin_range.Base.{
  ℕ, zero, suc, ◌<◌, ◌≡◌, true, false, refl, arith, List, [], ◌∷◌, length, replicate, get_or,
  length-replicate,
}
use bin_range.Update.Queue.{has_zero}
use bin_range.Update.Snapshot.{put_string, canonical_from}

pub length-put_string : (width : ℕ) (v : List ℕ) → length (put_string width v) ≡ width
length-put_string zero v = refl
length-put_string (suc width) [] = length-replicate {A = ℕ} (suc width) 0
length-put_string (suc width) (c ∷ v) =
    ground (arith, length-put_string width v, length-replicate {A = ℕ} width 0)

canonical-zeros : (n : ℕ) → canonical_from true (replicate n 0) ≡ true
unfolding canonical_from
canonical-zeros zero = refl
canonical-zeros (suc n) = canonical-zeros n

pub canonical-put_string :
    (width : ℕ) (v : List ℕ)
    → has_zero width v ≡ true
    → canonical_from false (put_string width v) ≡ true
unfolding canonical_from has_zero
canonical-put_string zero v h = absurd (ground arith)
canonical-put_string (suc width) [] h = absurd (ground arith)
canonical-put_string (suc width) (c ∷ v) h =
    ground (arith, canonical-put_string width v, canonical-zeros width)

pub has_zero-put_string :
    (width : ℕ) (v : List ℕ) → has_zero width v ≡ true → has_zero width (put_string width v) ≡ true
unfolding has_zero
has_zero-put_string zero v h = h
has_zero-put_string (suc width) [] h = absurd (ground arith)
has_zero-put_string (suc width) (c ∷ v) h = ground (arith, has_zero-put_string width v)

get_or-zeros : (n i : ℕ) → get_or {A = ℕ} (replicate n 0) i 0 ≡ 0
get_or-zeros zero i = refl
get_or-zeros (suc n) zero = refl
get_or-zeros (suc n) (suc i) = get_or-zeros n i

pub put_string-last :
    (width : ℕ) (v : List ℕ)
    → has_zero (suc width) v ≡ true
    → get_or (put_string (suc width) v) width 0 ≡ 0
unfolding has_zero
put_string-last width [] h = get_or-zeros (suc width) width
put_string-last zero (c ∷ v) h = ground arith
put_string-last (suc width) (c ∷ v) h =
    ground (arith, put_string-last width v, get_or-zeros (suc width) width)

pub has_zero-get_or :
    (i width : ℕ) (v : List ℕ)
    → i < length v
    → i < width
    → get_or v i 0 ≡ 0
    → has_zero width v ≡ true
unfolding has_zero
has_zero-get_or i width [] l w h = elim l [ ]
has_zero-get_or i zero (c ∷ v) l w h = elim w [ ]
has_zero-get_or zero (suc width) (c ∷ v) l w h = ground arith
has_zero-get_or (suc i) (suc width) (c ∷ v) l w h =
    ground (arith, has_zero-get_or i width v (omega arith) (omega arith) h)

put_string-zeros : (n : ℕ) → put_string n (replicate n 0) ≡ replicate {A = ℕ} n 0
put_string-zeros zero = refl
put_string-zeros (suc n) = refl

pub put_string_idem :
    (width : ℕ) (v : List ℕ) → put_string width (put_string width v) ≡ put_string width v
put_string_idem zero v = refl
put_string_idem (suc width) [] = refl
put_string_idem (suc width) (c ∷ v) = ground (arith, put_string_idem width v)
