-- ===== src/Common/Bytes.antt =====
-- C strings and <ctype.h> in the "C" locale. A string is the list of the bytes before its NUL, so
-- a pointer into it is a suffix of the list, and reading the end gives 0.
use Prim.Native.Char.{code}
use Prim.Native.String.{String}
use Prim.Native.Nat.{ℕ, zero, suc, ◌+◌, ◌-◌, compare, Ordering}
use mathlib.Core.Bool.{Bool, true, false, ◌&&◌, ◌||◌}
use mathlib.Core.List.{List, [], ◌∷◌}
use highwire.Common.Compare.{leb, ◌==◌, if◌then◌else◌}

abbrev pub Bytes : Type 0
Bytes = List ℕ

-- the bytes of an ASCII literal
abbrev pub codes : String → Bytes
codes String.[] = []
codes (String.◌∷◌ c s) = code c ∷ codes s

-- `*s`
abbrev pub head_byte : Bytes → ℕ
head_byte [] = 0
head_byte (c ∷ s) = c

abbrev pub within : ℕ → ℕ → ℕ → Bool
within lo hi c = leb lo c && leb c hi

abbrev pub is_upper : ℕ → Bool
is_upper c = within b'A' b'Z' c

abbrev pub is_lower : ℕ → Bool
is_lower c = within b'a' b'z' c

abbrev pub is_alpha : ℕ → Bool
is_alpha c = is_upper c || is_lower c

abbrev pub is_digit : ℕ → Bool
is_digit c = within b'0' b'9' c

abbrev pub is_alnum : ℕ → Bool
is_alnum c = is_alpha c || is_digit c

abbrev pub is_xdigit : ℕ → Bool
is_xdigit c = is_digit c || within b'A' b'F' c || within b'a' b'f' c

-- space, \t \n \v \f \r
abbrev pub is_space : ℕ → Bool
is_space c = c == b' ' || within 9 13 c

abbrev pub to_upper : ℕ → ℕ
to_upper c = if is_lower c then c - 32 else c

abbrev pub to_lower : ℕ → ℕ
to_lower c = if is_upper c then c + 32 else c

-- `while (isspace (*s)) s++;`, and the like
abbrev pub skip : (ℕ → Bool) → Bytes → Bytes
skip p [] = []
skip p (c ∷ s) = let rest = skip p s in if p c then rest else c ∷ s

-- The sign of `strcmp`: `gt` for a positive result.
unfoldable pub strcmp : Bytes → Bytes → Ordering
strcmp [] [] = Ordering.eq
strcmp [] (d ∷ t) = Ordering.lt
strcmp (c ∷ s) [] = Ordering.gt
strcmp (c ∷ s) (d ∷ t) = elim (compare c d) [
  | Ordering.lt ↦ Ordering.lt
  | Ordering.gt ↦ Ordering.gt
  | Ordering.eq ↦ strcmp s t
]

-- The sign of `strncmp`, which compares `n` bytes at most.
unfoldable pub strncmp : Bytes → Bytes → ℕ → Ordering
strncmp s t zero = Ordering.eq
strncmp [] [] (suc n) = Ordering.eq
strncmp [] (d ∷ t) (suc n) = Ordering.lt
strncmp (c ∷ s) [] (suc n) = Ordering.gt
strncmp (c ∷ s) (d ∷ t) (suc n) = elim (compare c d) [
  | Ordering.lt ↦ Ordering.lt
  | Ordering.gt ↦ Ordering.gt
  | Ordering.eq ↦ strncmp s t n
]

-- `strnicmp (s, t, n) == 0`
unfoldable pub same_nocase : Bytes → Bytes → ℕ → Bool
same_nocase s t zero = true
same_nocase [] [] (suc n) = true
same_nocase [] (d ∷ t) (suc n) = false
same_nocase (c ∷ s) [] (suc n) = false
same_nocase (c ∷ s) (d ∷ t) (suc n) = to_lower c == to_lower d && same_nocase s t n

abbrev pub is_empty : Bytes → Bool
is_empty [] = true
is_empty (c ∷ s) = false

-- the string without the blanks at its end, as `while (ptr-- > beg && isspace (*ptr));` finds it
unfoldable pub trim : Bytes → Bytes
trim [] = []
trim (c ∷ s) = let rest = trim s in if is_empty rest && is_space c then [] else c ∷ rest
