-- ===== src/Scanner/Names.antt =====
-- Every name of the tables is found, in any case of letters.
use highwire.Common.{
  ℕ, zero, suc, ◌<◌, Bool, true, ◌&&◌, List, [], ◌∷◌, ◌++◌, ◌≡◌, refl, arith, length, all, ltb, leb,
  ◌==◌, map, get_or,
}
use highwire.Common.Bytes.{Bytes, strcmp}
use highwire.Common.Search.Table.{find}
use highwire.Scanner.{scan_key, is_key_byte, key_char}
use highwire.Scanner.Keys.{key_table}
use highwire.Scanner.Lookup.{lookup_symbol}
use highwire.Scanner.Words.{IsKeyEnd, scan_key-bytes}

-- whether the walk finds the name's own symbol, and the name fits into the buffer
abbrev pub is_own : Bytes × ℕ → Bool
is_own e = lookup_symbol key_table 0 e.0 == e.1 && leb (length e.0) 12 && ltb 0 (length e.0)

own-all : all is_own key_table ≡ true
unfolding key_table lookup_symbol find strcmp
own-all = refl

all-get_or :
    (p : Bytes × ℕ → Bool) (tab : List (Bytes × ℕ)) (d : Bytes × ℕ) (k : ℕ)
    → all p tab ≡ true
    → k < length tab
    → p (get_or tab k d) ≡ true
all-get_or p [] d k a l = absurd (omega arith)
all-get_or p (e ∷ tab) d zero a l = ground arith
all-get_or p (e ∷ tab) d (suc k) a l = all-get_or p tab d k (ground arith) (omega arith)

-- Each name of the key table gives its own symbol, in any case of letters and with dashes for `_`, if
-- something follows that ends it.
pub scan_key-own :
    (k c : ℕ) (word rest : Bytes)
    → k < length key_table
    → all is_key_byte (c ∷ word) ≡ true
    → map key_char (c ∷ word) ≡ (get_or key_table k ([], 0)).0
    → IsKeyEnd rest
    → scan_key ((c ∷ word) ++ rest) true ≡ ((get_or key_table k ([], 0)).1, rest)
scan_key-own k c word rest l a e t = ground (
  arith,
  scan_key-bytes c word rest true a t,
  all-get_or is_own key_table ([], 0) k own-all l,
  e,
  length-map (c ∷ word),
)
  where
    length-map : (s : Bytes) → length (map key_char s) ≡ length s
    length-map [] = refl
    length-map (x ∷ s) = ground (arith, length-map s)
