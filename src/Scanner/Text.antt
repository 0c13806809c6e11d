-- ===== src/Scanner/Text.antt =====
-- src/scanner.c, `scan_string_to_16bit`: the text of an attribute, with references and white space.
pub mod Ends
use highwire.Common.{
  ℕ, zero, suc, ◌+◌, Bool, true, false, not, ◌&&◌, ◌||◌, Option, none, some, List, [], ◌∷◌, ◌++◌,
  ◌==◌, if◌then◌else◌, ◌>>=◌,
}
use highwire.Common.Bytes.{Bytes, is_space}
use highwire.Encoding.Bics.{space_bics}
use highwire.Encoding.Select.{Encoding, utf16, encoder_word}
use highwire.Scanner.Entities.{scan_namedchar}

-- `(mapping == MAP_BITSTREAM ? SPACE_BICS : SPACE_ATARI)`
abbrev pub space_code : ℕ → ℕ
space_code mapping = if mapping == 0 then space_bics else b' '

-- What a round of the loop writes, what it leaves of the text, and `space_found` behind it; `stale` is
-- what `*wstring` holds.
unfoldable pub text_step : Encoding → ℕ → ℕ → Bool → ℕ → Bytes → List ℕ × (Bytes × Bool)
text_step encoding mapping stale space_found c symbol =
    let (behind, reference) = scan_namedchar stale true mapping (c ∷ symbol) in
    let (rest, text) = encoder_word encoding mapping (c ∷ symbol) in
    if c == b'&'
    then (reference, (behind, false))
    else if is_space c
    then (if space_found then [] else space_code mapping ∷ [], (symbol, true))
    else (text, (rest, false))

-- The character that the encoder reads next has its second byte behind the end of the text.
abbrev pub is_cut : Encoding → Bytes → Bool
is_cut utf16 (c ∷ []) = true
is_cut _ s = false

-- a round that moves `symbol` behind the NUL, from where the loop would read on
abbrev pub overruns : Encoding → Bytes → Bool
overruns encoding [] = false
overruns encoding (c ∷ s) = not (c == b'&') && not (is_space c) && is_cut encoding (c ∷ s)

-- `while (*symbol != '\0')`: all that is written, and `space_found` at the end. `none` is a lack of fuel
-- or a step over the NUL.
unfoldable pub text_from : ℕ → Encoding → ℕ → (Bytes → ℕ) → Bool → Bytes → Option (List ℕ × Bool)
text_from zero encoding mapping stale space_found symbol = none
text_from (suc fuel) encoding mapping stale space_found [] = some ([], space_found)
text_from (suc fuel) encoding mapping stale space_found (c ∷ symbol) = do
  let (text, (rest, space)) = text_step encoding mapping (stale (c ∷ symbol)) space_found c symbol
  (more, last) ←
      if overruns encoding (c ∷ symbol)
      then none
      else text_from fuel encoding mapping stale space rest
  some (text ++ more, last)

-- `wstring--`
abbrev pub drop_last : List ℕ → List ℕ
drop_last [] = []
drop_last (c ∷ []) = []
drop_last (c ∷ d ∷ text) = c ∷ drop_last (d ∷ text)

-- Fuel above the length of the text is enough (`Ends`).
unfoldable pub scan_string_to_16bit : ℕ → Bytes → Encoding → ℕ → (Bytes → ℕ) → Option (List ℕ)
unfolding text_from
scan_string_to_16bit fuel symbol encoding mapping stale = do
  (text, space_found) ← text_from fuel encoding mapping stale true symbol
  some (if space_found then drop_last text else text)
