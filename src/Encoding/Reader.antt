-- ===== src/Encoding/Reader.antt =====
-- src/encoding.c: what the encoders share.
use highwire.Common.{ℕ, ◌+◌, ◌-◌, ◌*◌, Bool, ◌&&◌, ◌||◌, List, drop, get_or, ltb, leb, ◌==◌}
use highwire.Common.Bytes.{Bytes, head_byte, within}

-- An encoder reads one character at `*src`: what it leaves in `*src`, and what it writes to `dst`.
abbrev pub Encoder : Type 0
Encoder = Bytes → Bytes × List ℕ

-- `*((*src)++)`, by what is made of the byte
abbrev pub by_byte : (ℕ → List ℕ) → Encoder
by_byte encode src = (drop 1 src, encode (head_byte src))

-- `*((*(const WCHAR **)src)++)`: the more significant byte comes first. With one byte left the
-- source reads the NUL as the less significant byte and moves behind it, where a list has no place:
-- what reads a whole text counts this as a fault (`overruns` of Scanner/Text.antt).
abbrev pub by_word : (ℕ → List ℕ) → Encoder
by_word encode src = (drop 2 src, encode (head_byte src * 256 + head_byte (drop 1 src)))

-- an entry of a table whose first code is `beg`
abbrev pub entry : List ℕ → ℕ → ℕ → ℕ
entry tab beg ch = get_or tab (ch - beg) 0

abbrev pub is_ascii : ℕ → Bool
is_ascii ch = leb 32 ch && ltb ch 127

-- "some characters to ignore"
abbrev pub is_ignored : ℕ → Bool
is_ignored ch =
    ch == 0x070F
    || within 0x180B 0x180E ch
    || within 0x200B 0x200D ch
    || ch == 0x2060
    || ch == 0x2061
    || within 0xFE00 0xFE0F ch
    || ch == 0xFEFF
