-- ===== src/Http/Fields.antt =====
-- src/http.c: the fields of a header, and the loop over its lines. A line is the text before its
-- newline. `date` is `http_date`, `set` is `cookie_set` on the state of the cookies. The copies of
-- the realm and the redirection at the end of the buffer are kept as texts. `none` is a fault.
pub mod Exclusive
pub mod Realm
use highwire.Common.{
  ℕ, zero, suc, ◌+◌, ◌-◌, Bool, true, false, not, ◌&&◌, ◌||◌, Option, none, some, List, [], ◌∷◌,
  length, drop, span, ◌==◌, if◌then◌else◌, ◌>>=◌, leb, ltb, get_or,
}
use highwire.Common.Int.{ℤ, pos, negsuc, ltb_ℤ, leb_ℤ, ◌+ℤ◌, ◌-ℤ◌}
use highwire.Common.Bytes.{
  Bytes, codes, head_byte, is_digit, is_space, skip, same_nocase, is_empty, trim,
}
use highwire.Common.Number.{strtol_10}
use highwire.Encoding.Select.{Encoding, unknown_encoding}
use highwire.Mime.{MimeType, unknown}
use highwire.Http.Charset.{http_charset_type}

-- what the fields set; `mime_type` is `none` for -1, `realm` and `rdir` for NULL
pub record Header : Type 0 where
  pub locl_date : ℤ
  pub srvr_date : ℤ
  pub modified : ℤ
  pub expires : ℤ
  pub size : ℤ
  pub mime_type : Option MimeType
  pub encoding : Encoding
  pub chunked : Bool
  pub realm : Option Bytes
  pub rdir : Option Bytes

abbrev pub new_header : ℤ → Header
new_header now = record {
  locl_date = now;
  srvr_date = negsuc 0;
  modified = negsuc 0;
  expires = negsuc 0;
  size = negsuc 0;
  mime_type = none;
  encoding = unknown_encoding;
  chunked = false;
  realm = none;
  rdir = none;
}

-- `len >= sizeof(token)` and the comparison: what stands behind the token
unfoldable pub behind_token : Bytes → Bytes → Option Bytes
behind_token token line =
    if leb (suc (length token)) (length line) && same_nocase line token (length token)
    then some (drop (length token) line)
    else none

-- A function for a field returns `none` where the field is another one.
abbrev pub Field : Type 0
Field = Header → Option Header

-- the last byte that `strtol` read is a zero
abbrev pub ends_with_zero : Bytes → Bytes → Bool
ends_with_zero s end = ltb (length end) (length s) && get_or s (length s - length end - 1) 0 == b'0'

abbrev pub with_size : Bytes → ℤ × Bytes → Header → Header
with_size s (size, end) hdr =
    if ltb_ℤ (pos 0) size || ends_with_zero s end then record hdr { size = size } else hdr

abbrev pub found : (Bytes → Header) → Option Bytes → Option Header
found f none = none
found f (some s) = some (f s)

abbrev pub content_length : Bytes → Field
content_length line hdr =
    found (λ s. with_size s (strtol_10 s) hdr) (behind_token (codes "Content-Length:") line)

abbrev pub is_known : Encoding → Bool
is_known unknown_encoding = false
is_known e = true

abbrev pub with_type : MimeType × Encoding → Header → Header
with_type (unknown, cset) hdr = hdr
with_type (type, cset) hdr = record hdr {
  mime_type = some type;
  encoding = if is_known cset then cset else hdr.encoding;
}

-- nothing is done for a value that is empty
abbrev pub with_value : (Bytes → Header → Header) → Header → Bytes → Header
with_value f hdr [] = hdr
with_value f hdr (c ∷ v) = f (c ∷ v) hdr

abbrev pub set_type : Bytes → Header → Header
set_type v hdr = with_type (http_charset_type v) hdr

abbrev pub unless_realm : Option Bytes → Bytes → Header → Header
unless_realm none v hdr = record hdr { rdir = some (trim v) }
unless_realm (some r) v hdr = hdr

abbrev pub set_rdir : Bytes → Header → Header
set_rdir v hdr = unless_realm hdr.realm v hdr

abbrev pub starts_with : Bytes → Bytes → Bool
starts_with [] s = true
starts_with (c ∷ t) [] = false
starts_with (c ∷ t) (d ∷ s) = c == d && starts_with t s

-- `strstr` for a text that is not empty, and what stands behind the place
unfoldable pub behind_text : Bytes → Bytes → Option Bytes
behind_text t [] = none
behind_text t (c ∷ s) =
    let later = behind_text t s in
    if starts_with t (c ∷ s) then some (drop (length t) (c ∷ s)) else later

-- the realm in quotes, or up to a blank if it is shorter than what stands behind it
unfoldable pub realm_in : Bytes → Bytes
realm_in s =
    let (quoted, after) = span (λ c. not (c == b'"')) (drop 1 s) in
    let (plain, behind) = span (λ c. not (is_space c)) s in
    if head_byte s == b'"'
    then if is_empty after then [] else quoted
    else if ltb (length plain) (length behind)
    then plain
    else []

abbrev pub with_realm : Bytes → Header → Header
with_realm [] hdr = hdr
with_realm (c ∷ r) hdr = record hdr { realm = some (c ∷ r); rdir = none }

abbrev pub with_text : Option Bytes → Header → Header
with_text none hdr = hdr
with_text (some s) hdr = with_realm (realm_in s) hdr

abbrev pub set_realm : Bytes → Header → Header
set_realm v hdr = with_text (behind_text (codes "realm=") v) hdr

abbrev pub set_chunked : Bytes → Header → Header
set_chunked v hdr = if same_nocase v (codes "chunked") 7 then record hdr { chunked = true } else hdr

-- a field with a value
abbrev pub field : Bytes → (Bytes → Header → Header) → Bytes → Field
field token f line hdr = found (λ s. with_value f hdr (skip is_space s)) (behind_token token line)

abbrev pub content_type : Bytes → Field
content_type = field (codes "Content-Type:") set_type

abbrev pub redirect : Bytes → Field
redirect = field (codes "Location:") set_rdir

abbrev pub transfer_enc : Bytes → Field
transfer_enc line hdr =
    found (λ s. set_chunked (skip is_space s) hdr) (behind_token (codes "Transfer-Encoding:") line)

abbrev pub www_authenticate : Bytes → Field
www_authenticate = field (codes "WWW-Authenticate:") set_realm

module _ (date : Bytes → Option ℤ) where
  -- a date where there is a value
  abbrev pub with_date : (ℤ → Header → Header) → Bytes → Header → Option Header
  with_date f [] hdr = some hdr
  with_date f (c ∷ v) hdr = date (c ∷ v) >>= λ d. some (f d hdr)

  -- a number of seconds is "invalid format but often used"
  abbrev pub with_expiry : Bytes → Header → Option Header
  with_expiry [] hdr = some hdr
  with_expiry (c ∷ v) hdr =
      let delta = (strtol_10 (c ∷ v)).0 in
      if is_digit c
      then some
          (if leb_ℤ (pos 0) delta then record hdr { expires = hdr.srvr_date +ℤ delta } else hdr)
      else (date (c ∷ v) >>= λ d. some record hdr { expires = d })

  -- The fields in the order of `http_header`. The result is a fault, or the header and what is left for
  -- `set_cookie`.
  abbrev pub Line : Type 0
  Line = Option (Header × Option Bytes)

  abbrev pub done : Header → Line
  done hdr = some (hdr, none)

  abbrev pub dated : Option Header → Line
  dated none = none
  dated (some hdr) = done hdr

  abbrev pub or_line : Option Header → Line → Line
  or_line none next = next
  or_line (some hdr) next = done hdr

  abbrev pub or_date : Option Bytes → (Bytes → Option Header) → Line → Line
  or_date none f next = next
  or_date (some s) f next = dated (f (skip is_space s))

  abbrev pub set_srvr : ℤ → Header → Header
  set_srvr d hdr = record hdr { srvr_date = d }

  abbrev pub set_modified : ℤ → Header → Header
  set_modified d hdr = record hdr { modified = d }

  unfoldable pub header_line : Bytes → Header → Line
  header_line line hdr = or_line (content_length line hdr) (
      or_line (content_type line hdr) (
        or_line (redirect line hdr) (
          or_line (transfer_enc line hdr) (
            or_date (behind_token (codes "Date:") line) (λ v. with_date set_srvr v hdr)
              (or_date (behind_token (codes "Last-Modified:") line)
                (λ v. with_date set_modified v hdr)
                (or_date (behind_token (codes "Expires:") line) (λ v. with_expiry v hdr)
                  (or_line (www_authenticate line hdr)
                    (some (hdr, behind_token (codes "Set-Cookie:") line)))))))))

  abbrev pub time_shift : Header → ℤ
  time_shift hdr = if ltb_ℤ (pos 0) hdr.srvr_date then hdr.locl_date -ℤ hdr.srvr_date else pos 0

  -- the state of the cookies, and `cfg_AllowCookies`
  module _ {S : Type 0} (allow : Bool) (set : Bytes → ℤ → ℤ → S → Option S) where
    abbrev pub if_allowed : Bool → Header → S → Option S → Option (Header × S)
    if_allowed false hdr jars next = some (hdr, jars)
    if_allowed true hdr jars next = next >>= λ j. some (hdr, j)

    abbrev pub with_cookie : Header × Option Bytes → S → Option (Header × S)
    with_cookie (hdr, none) jars = some (hdr, jars)
    with_cookie (hdr, some s) jars =
        if_allowed allow hdr jars (set s hdr.srvr_date (time_shift hdr) jars)

    -- a line that is not empty, without the blanks before it
    abbrev pub read_line : Bytes → Header × S → Option (Header × S)
    read_line [] (hdr, jars) = some (hdr, jars)
    read_line (c ∷ line) (hdr, jars) = header_line (c ∷ line) hdr >>= λ r. with_cookie r jars

    abbrev pub is_blank_line : Bytes → Bool
    is_blank_line [] = true
    is_blank_line (c ∷ line) = c == b'\r' && is_empty line

    -- `while (ln_brk)`: the state, and the text behind the blank line; no text if the header goes on
    unfoldable pub header_lines :
        List Bytes → Header × S → Option ((Header × S) × Option (List Bytes))
    header_lines [] s = some (s, none)
    header_lines (line ∷ lines) s =
        let next = read_line (skip is_space line) s >>= header_lines lines in
        if is_blank_line line then some (s, some lines) else next
