-- ===== src/Encoding/Row.antt =====
-- src/encoding.c, `_bin_search`: the search in a table of replacements.
use Prim.Native.Nat.{compare, Ordering}
use highwire.Common.{ℕ, ◌-◌, none, some, List, [], ◌∷◌, length, get_or, ◌==◌, if◌then◌else◌}
use highwire.Common.Search.{chop}

-- `struct s_uni_trans`, with the replacement as the characters before its 0
pub record Row : Type 0 where
  pub uni : ℕ
  pub trans : List ℕ

-- `SMALL (u, t, x)`: one or two characters, where 0 ends the text
abbrev pub small : ℕ → ℕ → ℕ → Row
small u t x = record {
  uni = u;
  trans = if t == 0 then [] else if x == 0 then t ∷ [] else t ∷ x ∷ [];
}

-- `MULTI (u)`
abbrev pub multi : ℕ → List ℕ → Row
multi u t = record { uni = u; trans = t }

abbrev pub no_row : Row
no_row = record { uni = 0; trans = [] }

-- the sign of the comparison with a row
abbrev pub row_order : ℕ → List Row → ℕ → Ordering
row_order uni tab i = compare uni (get_or tab i no_row).uni

-- `&tab[end].Trans`
abbrev pub last_trans : List Row → List ℕ
last_trans tab = (get_or tab (length tab - 1) no_row).trans

-- `bin_search (uni, tab)`: a character that is not found gets the text of the last row.
unfoldable pub bin_search : ℕ → List Row → List ℕ
unfolding chop
bin_search uni tab = elim (chop (row_order uni tab) (length tab) 0 (length tab)) [
  | none ↦ last_trans tab
  | some k ↦ (get_or tab k no_row).trans
]
