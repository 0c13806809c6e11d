-- ===== src/Http/Fields/Exclusive.antt =====
-- "authenticate and redirect are mutual exclusive": no header has both a realm and a redirection.
use highwire.Common.{
  Bool, true, false, ◌||◌, Option, none, some, List, [], ◌∷◌, ◌≡◌, refl, sym, ◌∙◌, ◌⊎◌, inl, inr,
  if◌then◌else◌, ◌>>=◌, Bool-cases, bind-eq-some,
}
use mathlib.Core.Path.{subst}
use mathlib.Core.Option.{some-injective, none-ne-some}
use highwire.Common.Int.{ℤ, pos, ltb_ℤ, leb_ℤ, ◌+ℤ◌}
use highwire.Common.Bytes.{Bytes, codes, is_digit, is_space, skip, same_nocase}
use highwire.Common.Number.{strtol_10}
use highwire.Http.Charset.{http_charset_type}
use highwire.Encoding.Select.{Encoding}
use highwire.Mime.{MimeType, unknown}
use highwire.Http.Fields.{
  Header, found, with_size, with_type, with_value, unless_realm, with_text, with_realm, realm_in,
  behind_text, set_type, set_rdir, set_realm, set_chunked, field, ends_with_zero, content_length,
  content_type, redirect, transfer_enc, www_authenticate, behind_token, with_date, with_expiry,
  or_line, or_date, dated, Line, set_srvr, set_modified, header_line, with_cookie, if_allowed,
  time_shift, read_line, is_blank_line, header_lines,
}

abbrev pub IsExclusive : Header → Type 0
IsExclusive hdr = (hdr.realm ≡ none) ⊎ (hdr.rdir ≡ none)

if-IsExclusive :
    (b : Bool) (x y : Header) → IsExclusive x → IsExclusive y → IsExclusive (if b then x else y)
if-IsExclusive true x y h k = h
if-IsExclusive false x y h k = k

abbrev Holds : Option Header → Type 0
Holds none = Unit
Holds (some hdr) = IsExclusive hdr

found-Holds :
    (f : Bytes → Header) (o : Option Bytes) → ((s : Bytes) → IsExclusive (f s)) → Holds (found f o)
found-Holds f none h = tt
found-Holds f (some s) h = h s

with_value-IsExclusive :
    (f : Bytes → Header → Header) (hdr : Header) (v : Bytes)
    → IsExclusive hdr
    → ((v : Bytes) → IsExclusive (f v hdr))
    → IsExclusive (with_value f hdr v)
with_value-IsExclusive f hdr [] h k = h
with_value-IsExclusive f hdr (c ∷ v) h k = k (c ∷ v)

field-Holds :
    (token : Bytes) (f : Bytes → Header → Header) (line : Bytes) (hdr : Header)
    → IsExclusive hdr
    → ((v : Bytes) → IsExclusive (f v hdr))
    → Holds (field token f line hdr)
field-Holds token f line hdr h k =
    found-Holds (λ s. with_value f hdr (skip is_space s)) (behind_token token line)
      (λ s. with_value-IsExclusive f hdr (skip is_space s) h k)

with_size-IsExclusive :
    (s : Bytes) (r : ℤ × Bytes) (hdr : Header) → IsExclusive hdr → IsExclusive (with_size s r hdr)
with_size-IsExclusive s (size, end) hdr h =
    if-IsExclusive (ltb_ℤ (pos 0) size || ends_with_zero s end) (record hdr { size = size }) hdr h h

with_type-IsExclusive :
    (t : MimeType) (e : Encoding) (hdr : Header)
    → IsExclusive hdr
    → IsExclusive (with_type (t, e) hdr)
with_type-IsExclusive unknown e hdr h = h
with_type-IsExclusive _ e hdr h = h

unless_realm-IsExclusive :
    (o : Option Bytes) (v : Bytes) (hdr : Header)
    → hdr.realm ≡ o
    → IsExclusive hdr
    → IsExclusive (unless_realm o v hdr)
unless_realm-IsExclusive none v hdr e h = inl e
unless_realm-IsExclusive (some r) v hdr e h = h

with_realm-IsExclusive :
    (r : Bytes) (hdr : Header) → IsExclusive hdr → IsExclusive (with_realm r hdr)
with_realm-IsExclusive [] hdr h = h
with_realm-IsExclusive (c ∷ r) hdr h = inr refl

with_text-IsExclusive :
    (o : Option Bytes) (hdr : Header) → IsExclusive hdr → IsExclusive (with_text o hdr)
with_text-IsExclusive none hdr h = h
with_text-IsExclusive (some s) hdr h = with_realm-IsExclusive (realm_in s) hdr h

set_chunked-IsExclusive :
    (v : Bytes) (hdr : Header) → IsExclusive hdr → IsExclusive (set_chunked v hdr)
set_chunked-IsExclusive v hdr h =
    if-IsExclusive (same_nocase v (codes "chunked") 7) (record hdr { chunked = true }) hdr h h

module _ (date : Bytes → Option ℤ) where
  abbrev HoldsLine : Line date → Type 0
  HoldsLine none = Unit
  HoldsLine (some (hdr, s)) = IsExclusive hdr

  or_line-Holds :
      (o : Option Header) (next : Line date)
      → Holds o
      → HoldsLine next
      → HoldsLine (or_line date o next)
  or_line-Holds none next h k = k
  or_line-Holds (some hdr) next h k = h

  dated-Holds : (o : Option Header) → Holds o → HoldsLine (dated date o)
  dated-Holds none h = tt
  dated-Holds (some hdr) h = h

  or_date-Holds :
      (o : Option Bytes) (f : Bytes → Option Header) (next : Line date)
      → ((v : Bytes) → Holds (f v))
      → HoldsLine next
      → HoldsLine (or_date date o f next)
  or_date-Holds none f next h k = k
  or_date-Holds (some s) f next h k = dated-Holds (f (skip is_space s)) (h (skip is_space s))

  bind-Holds :
      (o : Option ℤ) (f : ℤ → Header)
      → ((d : ℤ) → IsExclusive (f d))
      → Holds (o >>= λ d. some (f d))
  bind-Holds none f h = tt
  bind-Holds (some d) f h = h d

  with_date-Holds :
      (f : ℤ → Header → Header) (v : Bytes) (hdr : Header)
      → IsExclusive hdr
      → ((d : ℤ) → IsExclusive (f d hdr))
      → Holds (with_date date f v hdr)
  with_date-Holds f [] hdr h k = h
  with_date-Holds f (c ∷ v) hdr h k = bind-Holds (date (c ∷ v)) (λ d. f d hdr) k

  with_expiry-Holds : (v : Bytes) (hdr : Header) → IsExclusive hdr → Holds (with_expiry date v hdr)
  with_expiry-Holds [] hdr h = h
  with_expiry-Holds (c ∷ v) hdr h = elim (Bool-cases (is_digit c)) [
    | inl digit ↦
        let delta = (strtol_10 (c ∷ v)).0 in
        rw digit (
          if-IsExclusive (leb_ℤ (pos 0) delta) (record hdr { expires = hdr.srvr_date +ℤ delta }) hdr
            h h)
    | inr other ↦ rw other (bind-Holds (date (c ∷ v)) (λ d. record hdr { expires = d }) (λ d. h))
  ]

  header_line-Holds :
      (line : Bytes) (hdr : Header) → IsExclusive hdr → HoldsLine (header_line date line hdr)
  unfolding header_line
  header_line-Holds line hdr h =
      let sized = λ (s : Bytes). with_size-IsExclusive s (strtol_10 s) hdr h in
      let typed = λ (v : Bytes).
        with_type-IsExclusive (http_charset_type v).0 (http_charset_type v).1 hdr h in
      let chunks = λ (s : Bytes). set_chunked-IsExclusive (skip is_space s) hdr h in
      let rdir = λ (v : Bytes). unless_realm-IsExclusive hdr.realm v hdr refl h in
      let realm = λ (v : Bytes). with_text-IsExclusive (behind_text (codes "realm=") v) hdr h in
      or_line-Holds (content_length line hdr) _
        (found-Holds (λ s. with_size s (strtol_10 s) hdr)
          (behind_token (codes "Content-Length:") line) sized)
        (or_line-Holds (content_type line hdr) _
          (field-Holds (codes "Content-Type:") set_type line hdr h typed)
          (or_line-Holds (redirect line hdr) _
            (field-Holds (codes "Location:") set_rdir line hdr h rdir)
            (or_line-Holds (transfer_enc line hdr) _
              (found-Holds (λ s. set_chunked (skip is_space s) hdr)
                (behind_token (codes "Transfer-Encoding:") line) chunks)
              (or_date-Holds (behind_token (codes "Date:") line)
                (λ v. with_date date (set_srvr date) v hdr) _
                (λ v. with_date-Holds (set_srvr date) v hdr h (λ d. h))
                (or_date-Holds (behind_token (codes "Last-Modified:") line)
                  (λ v. with_date date (set_modified date) v hdr) _
                  (λ v. with_date-Holds (set_modified date) v hdr h (λ d. h))
                  (or_date-Holds (behind_token (codes "Expires:") line)
                    (λ v. with_expiry date v hdr) _ (λ v. with_expiry-Holds v hdr h)
                    (or_line-Holds (www_authenticate line hdr) _
                      (field-Holds (codes "WWW-Authenticate:") set_realm line hdr h realm) h)))))))

  HoldsLine-some :
      (o : Line date) (r : Header × Option Bytes) → HoldsLine o → o ≡ some r → IsExclusive (r.0)
  HoldsLine-some none r h e = absurd (none-ne-some r e)
  HoldsLine-some (some s) r h e = subst (λ r. IsExclusive (r.0)) (some-injective s r e) h

  module _ {S : Type 0} (allow : Bool) (set : Bytes → ℤ → ℤ → S → Option S) (P : S → Type 0) where
    -- what is kept of the header and of the cookies
    abbrev Kept : Header × S → Type 0
    Kept (hdr, jars) = IsExclusive hdr × P jars

    if_allowed-Kept :
        (b : Bool) (hdr : Header) (jars : S) (next : Option S) (t : Header × S)
        → Kept (hdr, jars)
        → ((j : S) → next ≡ some j → P j)
        → if_allowed date allow set b hdr jars next ≡ some t
        → Kept t
    if_allowed-Kept false hdr jars next t h k e = subst Kept (some-injective (hdr, jars) t e) h
    if_allowed-Kept true hdr jars none t h k e = absurd (none-ne-some t e)
    if_allowed-Kept true hdr jars (some j) t h k e =
        subst Kept (some-injective (hdr, j) t e) (h.0, k j refl)

    module _
        (keeps : (s : Bytes) (d shift : ℤ) (j j' : S)
          → P j
          → set s d shift j ≡ some j'
          → P j') where
      with_cookie-Kept :
          (r : Header × Option Bytes) (jars : S) (t : Header × S)
          → Kept (r.0, jars)
          → with_cookie date allow set r jars ≡ some t
          → Kept t
      with_cookie-Kept (hdr, none) jars t h e = subst Kept (some-injective (hdr, jars) t e) h
      with_cookie-Kept (hdr, some s) jars t h e =
          let shift = time_shift date hdr in
          if_allowed-Kept allow hdr jars (set s hdr.srvr_date shift jars) t h
            (λ j. keeps s hdr.srvr_date shift jars j h.1) e

      read_line-Kept :
          (line : Bytes) (r t : Header × S)
          → Kept r
          → read_line date allow set line r ≡ some t
          → Kept t
      read_line-Kept [] r t h e = subst Kept (some-injective r t e) h
      read_line-Kept (c ∷ line) (hdr, jars) t h e =
          let (o, read, end) =
            bind-eq-some (header_line date (c ∷ line) hdr) (λ r. with_cookie date allow set r jars)
              e in
          with_cookie-Kept o jars t
            (
              HoldsLine-some (header_line date (c ∷ line) hdr) o
                  (header_line-Holds (c ∷ line) hdr h.0) read,
              h.1,
            )
            end

      -- No line of a header, and no sequence of them, gives it both a realm and a redirection, if it had
      -- not both before; and what each call of `cookie_set` keeps is kept of the cookies.
      pub header_lines-Kept :
          (lines : List Bytes) (s : Header × S) (t : (Header × S) × Option (List Bytes))
          → IsExclusive (s.0)
          → P (s.1)
          → header_lines date allow set lines s ≡ some t
          → IsExclusive (t.0.0) × P (t.0.1)
      unfolding header_lines
      header_lines-Kept [] s t h k e = subst (λ t. Kept (t.0)) (some-injective (s, none) t e) (h, k)
      header_lines-Kept (line ∷ lines) s t h k e =
          let run = header_lines date allow set (line ∷ lines) s in
          let read = read_line date allow set (skip is_space line) s in
          elim (Bool-cases (is_blank_line date allow set line)) [
            | inl blank ↦
                let ends : run ≡ some (s, some lines) = rw (header_lines, blank) refl in
                subst (λ t. Kept (t.0)) (some-injective (s, some lines) t (sym ends ∙ e)) (h, k)
            | inr field ↦
                let goes : run ≡ (read >>= header_lines date allow set lines) =
                  rw (header_lines, field) refl in
                let (r, one, end) =
                  bind-eq-some read (header_lines date allow set lines) (sym goes ∙ e) in
                let (h', k') = read_line-Kept (skip is_space line) s r (h, k) one in
                header_lines-Kept lines r t h' k' end
          ]
