-- ===== src/Encoding/Lookup.antt =====
-- `_bin_search` against a walk over the table.
use mathlib.Core.Path.{subst}
use highwire.Common.{
  ℕ, zero, suc, ◌<◌, Bool, true, false, ◌&&◌, ◌||◌, List, [], ◌∷◌, ◌≡◌, refl, sym, ◌∙◌, inl, inr,
  arith, length, get_or, all, ◌==◌, if◌then◌else◌, Bool-cases, Option-cases,
}
use highwire.Common.Check.{same_bytes, same_bytes_iff}
use highwire.Common.Search.{chop, chop_sound}
use highwire.Encoding.Row.{Row, bin_search, row_order, last_trans, no_row}
use highwire.Encoding.Tables.{unicode_to_bics_tab, unicode_to_atari_tab}

-- the text of the first row for a character, and `other` if there is none
unfoldable pub lookup : ℕ → List Row → List ℕ → List ℕ
lookup uni [] other = other
lookup uni (r ∷ tab) other =
    let rest = lookup uni tab other in if r.uni == uni then r.trans else rest

-- whether the table has a row for the character
unfoldable pub has_row : ℕ → List Row → Bool
has_row uni [] = false
has_row uni (r ∷ tab) = let rest = has_row uni tab in r.uni == uni || rest

-- whether the search finds the row that the walk finds
abbrev pub finds : List Row → ℕ → Bool
finds tab uni = same_bytes (bin_search uni tab) (lookup uni tab (last_trans tab))

has_row-get_or :
    (tab : List Row) (k : ℕ) → k < length tab → has_row (get_or tab k no_row).uni tab ≡ true
unfolding has_row
has_row-get_or [] k l = absurd (omega arith)
has_row-get_or (r ∷ tab) zero l = ground arith
has_row-get_or (r ∷ tab) (suc k) l = ground (arith, has_row-get_or tab k)

lookup_missing :
    (uni : ℕ) (tab : List Row) (other : List ℕ)
    → has_row uni tab ≡ false
    → lookup uni tab other ≡ other
unfolding has_row lookup
lookup_missing uni [] other h = refl
lookup_missing uni (r ∷ tab) other h = ground (arith, lookup_missing uni tab other)

-- What holds for the character of every row holds for a character that has a row.
all-has_row :
    (p : ℕ → Bool) (tab : List Row) (uni : ℕ)
    → all (λ r. p r.uni) tab ≡ true
    → has_row uni tab ≡ true
    → p uni ≡ true
unfolding has_row
all-has_row p [] uni a h = cc
all-has_row p (r ∷ tab) uni a h = elim (Bool-cases (r.uni == uni)) [
  | inl same ↦
      let e : r.uni ≡ uni = ground arith in
      let b : p r.uni ≡ true = ground arith in subst (λ u. p u ≡ true) e b
  | inr other ↦ all-has_row p tab uni (ground arith) (ground arith)
]

-- A character without a row gets the text of the last row.
bin_search_missing :
    (uni : ℕ) (tab : List Row)
    → 0 < length tab
    → has_row uni tab ≡ false
    → bin_search uni tab ≡ last_trans tab
unfolding bin_search
bin_search_missing uni tab p h =
    elim (Option-cases (chop (row_order uni tab) (length tab) 0 (length tab))) [
      | inl miss ↦ rw (miss, bin_search)
      | inr (k, hit) ↦
          let (same, l) = chop_sound (row_order uni tab) (length tab) 0 (length tab) k p hit in
          let e : uni ≡ (get_or tab k no_row).uni = ground (arith, same) in
          absurd (ground (arith, has_row-get_or tab k l, e))
    ]

-- The search agrees with the walk for all characters but those in `missed`, if it does for those of
-- the rows.
bin_search-eq-lookup :
    (missed : ℕ → Bool) (tab : List Row) (uni : ℕ)
    → 0 < length tab
    → all (λ r. missed r.uni || finds tab r.uni) tab ≡ true
    → missed uni ≡ false
    → bin_search uni tab ≡ lookup uni tab (last_trans tab)
bin_search-eq-lookup missed tab uni p a m = elim (Bool-cases (has_row uni tab)) [
  | inl row ↦
      (same_bytes_iff (bin_search uni tab) (lookup uni tab (last_trans tab))).0
        (ground (arith, all-has_row (λ u. missed u || finds tab u) tab uni a row))
  | inr none_such ↦
      bin_search_missing uni tab p none_such
      ∙ sym (lookup_missing uni tab (last_trans tab) none_such)
]

abbrev no_code : ℕ → Bool
no_code uni = false

bics_finds : all (λ r. no_code r.uni || finds unicode_to_bics_tab r.uni) unicode_to_bics_tab ≡ true
unfolding bin_search lookup same_bytes unicode_to_bics_tab
bics_finds = refl

bics-filled : 0 < length unicode_to_bics_tab
unfolding unicode_to_bics_tab
bics-filled = omega arith

-- In the BICS table the search finds the text of every character, as a walk over the table does, and
-- the last row's text for a character without a row.
pub bics-eq-lookup :
    (uni : ℕ)
    → bin_search uni unicode_to_bics_tab
      ≡ lookup uni unicode_to_bics_tab (last_trans unicode_to_bics_tab)
bics-eq-lookup uni =
    bin_search-eq-lookup no_code unicode_to_bics_tab uni bics-filled bics_finds refl

-- the characters whose rows the search passes by
abbrev pub is_missed : ℕ → Bool
is_missed uni =
    uni == 0x2333
    || uni == 0x2039
    || uni == 0x203A
    || uni == 0x203C
    || uni == 0x203E
    || uni == 0x2043
    || uni == 0x2044
    || uni == 0x2047

atari_finds :
    all (λ r. is_missed r.uni || finds unicode_to_atari_tab r.uni) unicode_to_atari_tab ≡ true
unfolding bin_search lookup same_bytes unicode_to_atari_tab
atari_finds = refl

atari-filled : 0 < length unicode_to_atari_tab
unfolding unicode_to_atari_tab
atari-filled = omega arith

-- In the Atari table the search finds what a walk finds, for all characters but eight.
pub atari-eq-lookup :
    (uni : ℕ)
    → is_missed uni ≡ false
    → bin_search uni unicode_to_atari_tab
      ≡ lookup uni unicode_to_atari_tab (last_trans unicode_to_atari_tab)
atari-eq-lookup uni m =
    bin_search-eq-lookup is_missed unicode_to_atari_tab uni atari-filled atari_finds m

abbrev missed_codes : List ℕ
missed_codes = 0x2333 ∷ 0x2039 ∷ 0x203A ∷ 0x203C ∷ 0x203E ∷ 0x2043 ∷ 0x2044 ∷ 0x2047 ∷ []

abbrev is_replaced : ℕ → Bool
is_replaced uni =
    has_row uni unicode_to_atari_tab
    && same_bytes (bin_search uni unicode_to_atari_tab) (last_trans unicode_to_atari_tab)

missed_replaced : all is_replaced missed_codes ≡ true
unfolding bin_search has_row same_bytes unicode_to_atari_tab
missed_replaced = refl

-- The eight characters have rows, but the search gives them the text of the last row, as it does for
-- characters that the table does not know.
pub atari_missed :
    (uni : ℕ)
    → is_missed uni ≡ true
    → (has_row uni unicode_to_atari_tab ≡ true)
      × (bin_search uni unicode_to_atari_tab ≡ last_trans unicode_to_atari_tab)
atari_missed uni m = ground (
  arith,
  missed_replaced,
  same_bytes_iff (bin_search uni unicode_to_atari_tab) (last_trans unicode_to_atari_tab),
)
