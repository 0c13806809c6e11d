-- ===== src/Http/Tests.antt =====
-- Runs of the header's functions, and their theorems at concrete texts.
use Prim.Native.String.{String}
use highwire.Common.{ℕ, true, false, Option, none, some, List, [], ◌∷◌, ◌≡◌, refl, inl, arith, span}
use highwire.Common.Int.{ℤ, pos}
use highwire.Common.Bytes.{Bytes, codes, same_nocase, strncmp, trim}
use highwire.Cookie.{Jar, Jars, Place, empty}
use highwire.Cookie.Slots.{Heap, set_slots, search, to_front, refreshed, swap_down}
use highwire.Encoding.Select.{unknown_encoding}
use highwire.Scanner.{scan_encoding}
use highwire.Http.Date.{http_tm}
use highwire.Http.Date.Written.{http_tm-rfc1123, http_tm-rfc850, tm_of}
use highwire.Http.Date.Asctime.{http_tm-asctime, http_tm_letters}
use highwire.Http.Charset.{parameter}
use highwire.Http.Charset.Named.{parameter-charset}
use highwire.Http.Fields.{
  Header, new_header, header_line, header_lines, behind_token, realm_in, behind_text,
}
use highwire.Http.Fields.Realm.{realm_in_plain}
use highwire.Http.Fields.Exclusive.{IsExclusive}
use highwire.Http.Jars.{State, set_next, IsTidy, header_lines-IsTidy}
use highwire.Cookie.Set.{find_jar, cookie_set, set_checked, check_domain, check_path}
use highwire.Cookie.Set.Domain.{lower_case-IsLower}
use highwire.Cookie.Attributes.{name_and_value, attributes, parse, attribute}

http_tm-rfc1123_example :
    http_tm (codes "Sun, 06 Nov 1994 08:49:37 GMT") ≡ some (tm_of 6 10 (pos 94) 8 49 37)
http_tm-rfc1123_example =
    http_tm-rfc1123 (codes "Sun") 6 10 1994 8 49 37 (codes " GMT") (refl, (refl, (refl, tt)))
      (omega arith) (omega arith) (omega arith) (omega arith) (omega arith) (omega arith)
      (omega arith)

http_tm-rfc850_run :
    http_tm (codes "Sunday, 06-Nov-04 08:49:37 GMT") ≡ some (tm_of 6 10 (pos 104) 8 49 37)
http_tm-rfc850_run =
    http_tm-rfc850 (codes "Sunday") 6 10 4 8 49 37 (codes " GMT")
      (refl, (refl, (refl, (refl, (refl, (refl, tt)))))) (omega arith) (omega arith) (omega arith)
      (omega arith) (omega arith) (omega arith)

http_tm-asctime_example :
    http_tm (codes "Sun Nov  6 08:49:37 1994") ≡ some (tm_of 6 10 (pos 108) 0 0 0)
http_tm-asctime_example =
    http_tm-asctime (codes "Sun") 6 10 1994 8 49 37 [] (refl, (refl, (refl, tt))) (omega arith)
      (omega arith) (omega arith)

http_tm_letters_example : http_tm (codes "now") ≡ none
http_tm_letters_example = http_tm_letters (codes "now") (refl, (refl, (refl, tt)))

parameter-charset_example :
    parameter (codes "; charset=UTF-8") ≡ scan_encoding (codes "UTF-8") unknown_encoding
parameter-charset_example =
    parameter-charset (codes " ") b'U' (codes "TF-8") [] (refl, tt)
      (refl, (refl, (refl, (refl, (refl, tt))))) refl

realm_in_plain_example : (realm_in (codes "ab") ≡ []) × (realm_in (codes "ab cd") ≡ codes "ab")
realm_in_plain_example =
    realm_in_plain b'a' (codes "b") b' ' (codes "cd") (refl, (refl, tt)) refl refl

abbrev no_date : Bytes → Option ℤ
no_date s = some (pos 0)

-- the memory of two calls that put a new cookie and a new jar
abbrev heaps : List Heap
heaps =
    record { cookie = some 8; value = true; jar = true }
    ∷ record { cookie = some 9; value = true; jar = true }
    ∷ []

abbrev place : Place
place = record { flags = 0; host = 1; host_name = codes "www.a.org"; path = codes "/x/" }

abbrev nothing : Jars
nothing = record { list = []; changed = false }

abbrev sent : List Bytes
sent =
    codes "Location: /next \r"
    ∷ codes " WWW-Authenticate: Basic realm=\"a\"\r"
    ∷ codes "Set-Cookie: a=1; domain=.A.Org\r"
    ∷ codes "Set-Cookie: b=2\r"
    ∷ codes "\r"
    ∷ codes "body"
    ∷ []

abbrev jar : ℕ → String → String → String → Jar
jar addr name value domain = record {
  cookies =
      some record {
        addr = addr;
        expires = pos 0;
        path = some (codes "/x");
        value_max = 1;
        value = codes value;
        name = codes name;
      }
      ∷ empty 19;
  host = 1;
  host_name = codes "www.a.org";
  domain = codes domain;
}

-- a cookie for the domain, which is put in lower case, and one for the host
abbrev two_jars : Jars
two_jars = record { list = jar 9 "b" "2" "" ∷ jar 8 "a" "1" ".a.org" ∷ []; changed = true }

abbrev read : (Header × State) × Option (List Bytes)
read = (
  (record (new_header (pos 9)) { realm = some (codes "a") }, (two_jars, [])),
  some (codes "body" ∷ []),
)

sent_read :
    header_lines no_date true
      (set_next (λ s. pos 0) place)
      sent
      (new_header (pos 9), (nothing, heaps))
    ≡ some read
unfolding header_lines header_line behind_token same_nocase trim realm_in span behind_text
    cookie_set name_and_value attributes parse attribute set_checked check_domain check_path
    find_jar set_slots search to_front refreshed swap_down strncmp
sent_read = refl

header_lines-IsTidy_example : IsExclusive (read.0.0) × IsTidy (read.0.1.0)
header_lines-IsTidy_example =
    header_lines-IsTidy no_date (λ s. pos 0) true place sent (new_header (pos 9)) nothing heaps read
      (lower_case-IsLower (codes "www.a.org")) (inl refl) tt sent_read
