-- ===== src/Scanner/Properties.antt =====
-- What `scan_css` makes of the name of a property.
use highwire.Common.{
  ℕ, zero, suc, ◌+◌, ◌<◌, true, false, not, some, [], ◌∷◌, ◌++◌, ◌≡◌, refl, arith, length, all,
  ◌==◌, if◌then◌else◌, map,
}
use highwire.Common.Bytes.{Bytes, is_alpha, is_space}
use highwire.Scanner.{css_word, scan_css, skip_css, is_key_byte, key_char}
use highwire.Scanner.Css.{css_unknown}
use highwire.Scanner.Lookup.{lookup_css, css-eq-lookup}

abbrev pub IsCssEnd : Bytes → Type 0
IsCssEnd [] = Unit
IsCssEnd (c ∷ rest) = is_key_byte c ≡ false

css_word-bytes :
    (length_left len more : ℕ) (word rest : Bytes)
    → length_left ≡ length word + more
    → all is_key_byte word ≡ true
    → 0 < len
    → len + length word < 20
    → IsCssEnd rest
    → css_word length_left len (word ++ rest) ≡ (some (map key_char word), (rest, more))
unfolding css_word
css_word-bytes zero len more [] rest q a p l e = ground arith
css_word-bytes (suc n) len more [] [] q a p l e = ground arith
css_word-bytes (suc n) len more [] (c ∷ rest) q a p l e = ground (arith, e)
css_word-bytes zero len more (c ∷ word) rest q a p l e = absurd (omega arith)
css_word-bytes (suc n) len more (c ∷ word) rest q a p l e = ground (
  arith,
  css_word-bytes n (len + 1) more word rest (omega arith) (ground arith) (omega arith) (omega arith)
      e,
)

css_word-first :
    (length_left c more : ℕ) (word rest : Bytes)
    → length_left ≡ length (c ∷ word) + more
    → is_alpha c ≡ true
    → all is_key_byte word ≡ true
    → length (c ∷ word) < 20
    → IsCssEnd rest
    → css_word length_left 0 ((c ∷ word) ++ rest) ≡ (some (map key_char (c ∷ word)), (rest, more))
unfolding css_word
css_word-first zero c more word rest q h a l e = absurd (omega arith)
css_word-first (suc n) c more word rest q h a l e =
    ground (arith, css_word-bytes n 1 more word rest (omega arith) a (omega arith) (omega arith) e)

-- what `scan_css` passes behind a name: white space behind a known one, and else all up to a semicolon
abbrev pub behind : ℕ → ℕ → Bytes → Bytes
behind key more rest =
    if key == css_unknown
    then skip_css (λ c. not (c == b';')) more rest
    else skip_css is_space more rest

-- A letter and letters and dashes, less than 20 in all, with what ends them: the key of `scan_css` is
-- the one that walks over the tables find for the name in capital letters with `_` for a dash, and the
-- place is behind the white space, or at the semicolon if the key is unknown.
pub scan_css-bytes :
    (c more : ℕ) (word rest : Bytes)
    → is_alpha c ≡ true
    → all is_key_byte word ≡ true
    → length (c ∷ word) < 20
    → IsCssEnd rest
    → scan_css ((c ∷ word) ++ rest) (length (c ∷ word) + more) ≡ (
      lookup_css (map key_char (c ∷ word)),
      behind (lookup_css (map key_char (c ∷ word))) more rest,
    )
unfolding scan_css
scan_css-bytes c more word rest h a l e = ground (
  arith,
  css_word-first (length (c ∷ word) + more) c more word rest refl h a l e,
  css-eq-lookup (key_char c) (map key_char word),
)
