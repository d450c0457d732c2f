-- ===== src/Update/Image/Entries.antt =====
-- The loop of `parse_tlv_area` of firmware/anchor/src/core/update_image.cpp, against a list of the
-- entries that the area is made of.
use bin_range.Base.{
  ℕ, ◌+◌, ◌*◌, ◌≤◌, ◌≡◌, Bool, true, false, ◌⊎◌, List, [], ◌∷◌, ◌++◌, Option, some, none, length,
  drop, if◌then◌else◌,
}
use bin_range.Update.Image.{Found, nothing_found, is_some, read16, note_tlv}

-- An entry: the bytes of its type and of its size, and its value.
pub record Entry : Type 0 where
  pub type_low : ℕ
  pub type_high : ℕ
  pub size_low : ℕ
  pub size_high : ℕ
  pub value : List ℕ

abbrev pub entry_type : Entry → ℕ
entry_type e = e.type_low + e.type_high * 0x100

abbrev pub entry_bytes : Entry → List ℕ
entry_bytes e = e.type_low ∷ e.type_high ∷ e.size_low ∷ e.size_high ∷ e.value

abbrev pub entries_bytes : List Entry → List ℕ
entries_bytes [] = []
entries_bytes (e ∷ entries) = entry_bytes e ++ entries_bytes entries

-- The size of an entry is that of its value.
abbrev pub IsSized : Entry → Type 0
IsSized e = length e.value ≡ e.size_low + e.size_high * 0x100

abbrev pub AllSized : List Entry → Type 0
AllSized [] = Unit {0}
AllSized (e ∷ entries) = IsSized e × AllSized entries

-- What is found in the entries, one after the other; only a release's area is looked at.
abbrev pub note : Bool → Found → Entry → Option Found
note release found e = if release then note_tlv found (entry_type e) e.value else some found

abbrev pub notes : Bool → Found → List Entry → Option Found
notes release found [] = some found
notes release found (e ∷ entries) = elim (note release found e) [
  | none ↦ none
  | some found' ↦ notes release found' entries
]

-- What makes an area acceptable, and what is then found in it.
pub record Parsed (area : List ℕ) (magic : ℕ) (release : Bool) (found : Found) : Type 0 where
  pub headed : 4 ≤ length area
  pub marked : read16 area 0 ≡ magic
  pub whole : read16 area 2 ≡ length area
  pub entries : List Entry
  pub sized : AllSized entries
  pub covered : entries_bytes entries ≡ drop 4 area
  pub noted : notes release nothing_found entries ≡ some found
  pub complete :
      (release ≡ false)
      ⊎ ((is_some found.sha ≡ true) × (found.keyhash ≡ true) × (found.signature ≡ true))
