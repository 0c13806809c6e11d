-- ===== src/Cookie/Attributes.antt =====
-- src/cookie.c: `parse`, and what `cookie_set` reads of its text: the name, the value and the
-- attributes. The text is the `len` bytes at `str`.
pub mod Fields
use highwire.Common.{
  ℕ, zero, suc, ◌+◌, Bool, true, false, not, ◌&&◌, ◌||◌, Option, none, some, List, [], ◌∷◌, ◌++◌,
  length, drop, span, ◌==◌, if◌then◌else◌,
}
use highwire.Common.Int.{ℤ, pos, ltb_ℤ, ◌+ℤ◌, is_zero_ℤ}
unfoldable pub use highwire.Common.Bytes.{is_empty, trim}
use highwire.Common.Bytes.{Bytes, codes, head_byte, is_space, skip, same_nocase}

-- `memchr (s, c, len)`: what stands before the byte, and the text from it on
abbrev pub split_at : ℕ → Bytes → Bytes × Bytes
split_at c s = span (λ d. not (d == c)) s

-- `text` is the C string at the value, `rest` begins with the semicolon.
pub record Field : Type 0 where
  pub key : Bytes
  pub value : Bytes
  pub text : Bytes
  pub rest : Bytes

unfoldable pub parse : Bytes → Field
parse str =
    let (field, rest) = split_at b';' (skip is_space str) in
    let (key, from) = split_at b'=' field in
    let value = skip is_space (drop 1 from) in
    record { key = trim key; value = trim value; text = value ++ rest; rest = rest }

-- nam_ptr, val_ptr and the text where the attributes begin
unfoldable pub name_and_value : Bytes → Bytes × Bytes × Bytes
name_and_value str =
    let text = trim (skip is_space str) in
    let (name, from) = split_at b'=' text in
    let (value, rest) = split_at b';' (skip is_space (drop 1 from)) in
    if is_empty name || is_empty from then ([], [], text) else (trim name, trim value, rest)

pub record Attributes : Type 0 where
  pub expires : ℤ
  pub remove : Bool
  pub domain : Bytes
  pub path : Bytes

abbrev pub no_attributes : Attributes
no_attributes = record { expires = pos 0; remove = false; domain = []; path = [] }

abbrev pub is_key : Bytes → Bytes → Bool
is_key word key = length key == length word && same_nocase key word (length word)

-- `date` is `http_date`.
module _ (date : Bytes → ℤ) (srvr_date tdiff : ℤ) where
  abbrev pub expire : ℤ → Attributes → Attributes
  expire d a =
      if is_zero_ℤ d
      then record a { expires = d }
      else record a { expires = d +ℤ tdiff; remove = if ltb_ℤ d srvr_date then true else a.remove }

  unfoldable pub attribute : Field → Attributes → Attributes
  attribute f a =
      if is_key (codes "EXPIRES") f.key
      then expire (date f.text) a
      else if is_key (codes "DOMAIN") f.key
      then record a { domain = f.value }
      else if is_key (codes "PATH") f.key
      then record a { path = f.value }
      else a

  -- `while (*str == ';')`; `none` when the fuel is used up
  unfoldable pub attributes : ℕ → Bytes → Attributes → Option Attributes
  attributes zero str a = none
  attributes (suc fuel) [] a = some a
  attributes (suc fuel) (c ∷ str) a =
      let f = parse str in
      let rest = skip is_space f.rest in
      let b = attribute f a in
      let go = attributes fuel rest b in
      if not (c == b';') then some a else if is_empty rest then some b else go
