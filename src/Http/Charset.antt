-- ===== src/Http/Charset.antt =====
-- src/http.c: `http_charset`. The text is the `len` bytes at `beg`, up to the end of the string.
pub mod Named
use highwire.Common.{
  ℕ, zero, suc, ◌+◌, Bool, true, false, not, ◌&&◌, ◌||◌, List, [], ◌∷◌, length, drop, span, ◌==◌,
  if◌then◌else◌, ltb,
}
use highwire.Common.Bytes.{Bytes, codes, head_byte, is_alnum, is_space, skip, same_nocase}
use highwire.Encoding.Select.{Encoding, unknown_encoding}
use highwire.Mime.{MimeType, text, mime_by_string, mime_major}
use highwire.Scanner.{scan_encoding}

abbrev pub is_text : MimeType → Bool
is_text type = elim (mime_major type) [ text ↦ true | _ ↦ false ]

abbrev pub is_name_byte : ℕ → Bool
is_name_byte c = is_alnum c || c == b'-'

-- `buf` with `n` bytes in it, from the place on: all of it is dropped when the buffer is full
unfoldable pub charset_name : ℕ → Bytes → Bytes × Bool
charset_name n [] = ([], true)
charset_name n (c ∷ s) =
    let (rest, fits) = charset_name (suc n) s in
    if not (is_name_byte c)
    then ([], true)
    else if ltb (suc n) 20
    then (c ∷ rest, fits)
    else ([], false)

abbrev pub buf : Bytes → Bytes
buf s = let (name, fits) = charset_name 0 s in if fits then name else []

-- the first parameter behind the type
unfoldable pub parameter : Bytes → Encoding
parameter s =
    let t = skip is_space (drop 1 s) in
    if ltb 8 (length t) && same_nocase t (codes "charset=") 8
    then scan_encoding (buf (drop 8 t)) unknown_encoding
    else unknown_encoding

abbrev pub charset_of : MimeType → Bytes → Encoding
charset_of type s =
    let found = parameter s in
    if is_text type && head_byte s == b';' then found else unknown_encoding

-- with `p_type`: the type is read, too
unfoldable pub http_charset_type : Bytes → MimeType × Encoding
http_charset_type beg =
    let (type, end) = mime_by_string beg in (type, charset_of type (skip is_space end))

-- `p_type` is NULL: what stands before the semicolon is passed
unfoldable pub http_charset : Bytes → Encoding
http_charset beg = charset_of text (span (λ c. not (c == b';')) beg).1
