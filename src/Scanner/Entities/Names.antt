-- ===== src/Scanner/Entities/Names.antt =====
-- What `scan_namedchar` makes of a name.
use highwire.Common.{
  ℕ, ◌<◌, Bool, true, false, none, some, [], ◌∷◌, ◌++◌, ◌≡◌, refl, arith, drop, inl, inr,
  Option-cases, length, all, ◌==◌, if◌then◌else◌, span,
}
use highwire.Common.Bytes.{Bytes, head_byte, is_alnum, strcmp}
use highwire.Common.Search.Order.{word_order}
use highwire.Common.Search.Table.{ascending, find, search_table-eq-find}
use highwire.Scanner.Lookup.{lookup_symbol, find-word_order, word_order-IsOrder}
use highwire.Scanner.Entities.{named_char, name_char, scan_namedchar, written}

-- the end of the text, or a character that is no part of a name
abbrev pub IsNameEnd : Bytes → Type 0
IsNameEnd [] = Unit
IsNameEnd (c ∷ rest) = is_alnum c ≡ false

span-alnum :
    (word rest : Bytes)
    → all is_alnum word ≡ true
    → IsNameEnd rest
    → span is_alnum (word ++ rest) ≡ (word, rest)
unfolding span
span-alnum [] [] a e = refl
span-alnum [] (c ∷ rest) a e = ground (arith, e)
span-alnum (c ∷ word) rest a e = ground (arith, span-alnum word rest (ground arith) e)

named-ascending : ascending word_order named_char ≡ true
unfolding ascending word_order named_char
named-ascending = refl

named-filled : 0 < length named_char
unfolding named_char
named-filled = omega arith

name_char-word :
    (word rest : Bytes)
    → all is_alnum word ≡ true
    → IsNameEnd rest
    → name_char (word ++ rest)
      ≡ (elim (find strcmp word named_char) [ none ↦ (0, word ++ rest) | some uni ↦ (uni, rest) ])
unfolding name_char
name_char-word word rest a e = ground (
  arith,
  span-alnum word rest a e,
  search_table-eq-find word_order word_order-IsOrder ([], 0) word named_char named-ascending
      named-filled,
  find-word_order word named_char,
)

-- `;` belongs to the reference.
abbrev pub behind_semicolon : Bytes → Bytes
behind_semicolon rest = if head_byte rest == b';' then drop 1 rest else rest

unwritten :
    (stale mapping : ℕ) (word_n_char : Bool) → (written stale word_n_char mapping 0).0 ≡ false
unfolding written
unwritten stale mapping true = refl
unwritten stale mapping false = refl

-- A name of letters and digits behind `&`, with what ends it, stands for the character that a walk over
-- the table finds. The place is behind the name and its semicolon if this character is known and the
-- font has it, and else behind the `&`; the text is what is written for the character, or the `&`.
pub scan_namedchar-word :
    (stale mapping : ℕ) (word_n_char : Bool) (c : ℕ) (word rest : Bytes)
    → all is_alnum (c ∷ word) ≡ true
    → IsNameEnd rest
    → scan_namedchar stale word_n_char mapping (b'&' ∷ (c ∷ word) ++ rest) ≡ (
      if (written stale word_n_char mapping (lookup_symbol named_char 0 (c ∷ word))).0
          then behind_semicolon rest
          else (c ∷ word) ++ rest,
      (written stale word_n_char mapping (lookup_symbol named_char 0 (c ∷ word))).1,
    )
unfolding scan_namedchar lookup_symbol
scan_namedchar-word stale mapping word_n_char c word rest a e =
    elim (Option-cases (find strcmp (c ∷ word) named_char)) [
      | inl missed ↦
          ground
            (arith, missed, name_char-word (c ∷ word) rest a e, unwritten stale mapping word_n_char)
      | inr (uni, found) ↦ ground (arith, found, name_char-word (c ∷ word) rest a e)
    ]
