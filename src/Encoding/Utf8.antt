-- ===== src/Encoding/Utf8.antt =====
-- src/encoding.c, `utf8_to_unicode`: one character of UTF-8.
pub mod Octets
pub mod Decode
pub mod Forms
pub mod Strict
pub mod Advance
use highwire.Common.{
  ℕ, zero, suc, ◌+◌, ◌-◌, ◌*◌, ◌%◌, ◌^◌, Bool, true, false, not, ◌&&◌, ◌||◌, List, [], ◌∷◌, drop,
  ltb, leb, ◌==◌, if◌then◌else◌,
}
use highwire.Common.Bytes.{Bytes, head_byte, within}

-- `(s[i] >= 0x80) && (s[i] <= 0xBF)`
abbrev pub is_trail : Bytes → ℕ → Bool
is_trail s i = within 0x80 0xBF (head_byte (drop i s))

-- `octets` and `utf8ok` behind the nested tests; `ch` is the first byte, `s` what follows it.
unfoldable pub count_octets : ℕ → Bytes → ℕ × Bool
count_octets ch s =
    if not (within 0xC0 0xFD ch && is_trail s 0)
    then (0, false)
    else if leb ch 0xDF
    then (1, true)
    else if not (is_trail s 1)
    then (1, false)
    else if leb ch 0xEF
    then (2, true)
    else if not (is_trail s 2)
    then (2, false)
    else if leb ch 0xF7
    then (3, true)
    else if not (is_trail s 3)
    then (3, false)
    else if leb ch 0xFB
    then (4, true)
    else if not (is_trail s 4)
    then (4, false)
    else (5, true)

-- "nonshortest forms are illegal"
abbrev pub is_nonshortest : ℕ → ℕ → Bool
is_nonshortest ch next =
    ltb ch 0xC2
    || (ch == 0xE0 && ltb next 0xA0)
    || (ch == 0xF0 && ltb next 0x90)
    || (ch == 0xF8 && ltb next 0x88)
    || (ch == 0xFC && ltb next 0x84)

-- `for (; i < octets; ++i, shift -= 6) ch += (*s++ & 0x3F) << shift;`
unfoldable pub add_octets : ℕ → Bytes → ℕ → ℕ
add_octets zero s ch = ch
add_octets (suc n) s ch = add_octets n (drop 1 s) (ch + head_byte s % 64 * 2 ^ (n * 6))

-- "Surrogates Area not supported by NVDI"
abbrev pub replace_invalid : ℕ → ℕ
replace_invalid ch = if within 0xD800 0xDFFF ch || leb 0xFFFE ch then 0xFFFD else ch

-- The place behind the character, and the character.
unfoldable pub utf8_to_unicode : Bytes → Bytes × ℕ
unfolding count_octets add_octets
utf8_to_unicode psymbol =
    let ch = head_byte psymbol in
    let s = drop 1 psymbol in
    let (octets, ok) = count_octets ch s in
    let utf8ok = ok && not (is_nonshortest ch (head_byte s)) in
    (
      drop octets s,
      replace_invalid (
          if utf8ok
          then add_octets octets s (ch % 2 ^ (6 - octets) * 2 ^ (octets * 6))
          else 0xFFFD),
    )
