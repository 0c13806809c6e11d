-- ===== src/Cookie/Tests.antt =====
-- Runs of the cookie jars, and their theorems at concrete jars.
use highwire.Common.{
  ℕ, zero, suc, ◌*◌, span, true, false, Option, none, some, List, [], ◌∷◌, ◌++◌, ◌≡◌, refl, inl,
  inr, arith, take, map,
}
use Prim.Native.String.{String}
use highwire.Common.Int.{ℤ, pos}
use highwire.Common.Bytes.{Bytes, codes, same_nocase, strncmp}
use highwire.Cookie.{Cookie, Jars, Place, room, empty, create_jar}
use highwire.Cookie.Attributes.{trim, attribute, parse, attributes, name_and_value}
use highwire.Cookie.Attributes.Fields.{parse-field}
use highwire.Cookie.Slots.{
  Heap, Setting, set_slots, is_same, same_path, search, to_front, refreshed, swap_down,
}
use highwire.Cookie.Slots.Packed.{packed, find, without, picks}
use highwire.Cookie.Slots.Store.{set_slots-packed, set_cookie, set_changed}
use highwire.Cookie.Slots.Null.{set_slots_null}
use highwire.Cookie.Set.{find_jar, cookie_set, set_checked, check_domain, check_path}
use highwire.Cookie.Set.Domain.{lower_case-IsLower, find_jar_twice}
use highwire.Cookie.Set.Own.{IsSafe, cookie_set-IsSafe}
use highwire.Cookie.Collect.{collect, cookie_jar, is_match, is_under, is_expired}
use highwire.Cookie.Collect.Expired.{add_all, under}
use highwire.Cookie.Collect.Best.{View, jar_of, cookie_jar-best, sendable, swept, sweeps, place_all}
use highwire.Cookie.Collect.Order.{IsDescending}
use highwire.Cookie.Collect.Lost.{collect_loses, cut}

abbrev heap : Heap
heap = record { cookie = some 9; value = true; jar = true }

abbrev place : Place
place = record { flags = 0; host = 1; host_name = codes "www.a.org"; path = codes "/x/" }

abbrev nothing : Jars
nothing = record { list = []; changed = false }

abbrev no_date : Bytes → ℤ
no_date s = pos 0

abbrev cookie : ℕ → String → Option Bytes → Cookie
cookie a name path = record {
  addr = a;
  expires = pos 0;
  path = path;
  value_max = 2;
  value = codes "v";
  name = codes name;
}

abbrev header : Bytes
header = codes "id = 7 ; Path=/x/y; DOMAIN=.a.org"

header_read : name_and_value header ≡ (codes "id", codes "7", codes "; Path=/x/y; DOMAIN=.a.org")
unfolding name_and_value span trim
header_read = refl

abbrev after : Jars
after = record {
  list =
      record {
        cookies =
            some (record (cookie 9 "id" (some (codes "/x/"))) { value_max = 1; value = codes "7" })
            ∷ empty 19;
        host = 1;
        host_name = codes "www.a.org";
        domain = codes ".a.org";
      }
      ∷ [];
  changed = true;
}

domain_jar : cookie_set no_date heap place header (pos 5) (pos 0) nothing ≡ some after
unfolding cookie_set attributes name_and_value span trim parse set_checked check_domain attribute
    same_nocase check_path find_jar set_slots search to_front refreshed swap_down strncmp
domain_jar = refl

cookie_set-IsSafe_example : IsSafe heap place nothing after
cookie_set-IsSafe_example =
    cookie_set-IsSafe heap place nothing after no_date header (pos 5) (pos 0)
      (lower_case-IsLower (codes "www.a.org")) tt domain_jar

abbrev setting : Setting
setting = record { name = codes "ID"; value = codes "7"; path = some (codes "/x"); expires = pos 0 }

abbrev two : List Cookie
two = cookie 1 "other" none ∷ cookie 2 "id" (some (codes "/x")) ∷ []

set_slots-packed_example : set_slots heap setting false (packed room two) false ≡ (
    let found = find (codes "ID") (some (codes "/x")) two in
    some (
      packed room (set_cookie 9 setting found ∷ without (codes "ID") (some (codes "/x")) two),
      set_changed setting found false,
    ))
unfolding picks is_same same_path same_nocase strncmp
set_slots-packed_example =
    set_slots-packed heap 9 setting two false refl refl (ground arith, (ground arith, tt))
      ((ground arith, tt), (tt, tt)) (omega arith) (refl, (refl, tt))

set_slots_null_example :
    set_slots heap setting true
      (packed room ((cookie 1 "other" none ∷ []) ++ cookie 2 "id" none ∷ []))
      false
    ≡ none
unfolding same_nocase
set_slots_null_example =
    set_slots_null heap setting (codes "/x") true false (cookie 1 "other" none ∷ [])
      (cookie 2 "id" none) [] refl (omega arith) (refl, tt) refl refl

find_jar_twice_example :
    find_jar heap place (codes ".A.org") false after.list
    ≡ some ([], create_jar 1 (codes "www.a.org") (codes ".A.org"), after.list)
find_jar_twice_example =
    find_jar_twice heap place (codes ".A.org") after.list refl
      (lower_case-IsLower (codes ".a.org"), tt) (λ h. ground (arith, h.1.0))

abbrev view : View
view = record {
  cookies = cookie 1 "a" none ∷ cookie 2 "b" (some (codes "/x")) ∷ [];
  host = 1;
  host_name = codes "www.a.org";
  domain = [];
}

cookie_jar-best_example :
    (cookie_jar (pos 100) place record { list = map jar_of (view ∷ []); changed = false }
      ≡ some (
        record {
          list = map jar_of (swept (pos 100) place (view ∷ []));
          changed = sweeps (pos 100) place (view ∷ []) false;
        },
        take room (place_all (sendable (pos 100) place (view ∷ [])) []),
      ))
    × IsDescending (take room (place_all (sendable (pos 100) place (view ∷ [])) []))
cookie_jar-best_example =
    cookie_jar-best (pos 100) place (view ∷ []) false refl ((omega arith, inl (omega arith)), tt)

-- the longer path comes first
sent_order :
    place_all (sendable (pos 100) place (view ∷ [])) []
    ≡ cookie 2 "b" (some (codes "/x")) ∷ cookie 1 "a" none ∷ []
unfolding is_match is_under is_expired strncmp
sent_order = refl

abbrev many : ℕ → List Cookie
many zero = []
many (suc n) = cookie n "c" none ∷ many n

abbrev dead : Cookie
dead = record (cookie 30 "d" none) { expires = pos 1 }

collect_loses_example :
    collect
      (pos 100)
      (codes "/x/")
      (2 * room)
      room
      (packed room (dead ∷ many 18 ++ cookie 31 "e" none ∷ []))
      []
      false
    ≡ some (cut (many 18) (cookie 31 "e" none), add_all (under (codes "/x/") (many 18)) [], true)
unfolding is_expired
collect_loses_example =
    collect_loses (pos 100) (codes "/x/") dead (cookie 31 "e" none) (many 18) [] false refl refl
      refl

parse-field_example : parse (codes " Path= /x ; Secure") ≡ record {
  key = codes "Path";
  value = codes "/x";
  text = codes "/x ; Secure";
  rest = codes "; Secure";
}
unfolding trim
parse-field_example =
    parse-field (codes " ") (codes "Path") (codes " ") b'/' (codes "x") (codes " ")
      (codes "; Secure") (refl, tt) (refl, tt) (refl, tt) refl refl
      (refl, (refl, (refl, (refl, tt)))) (refl, (refl, (refl, (refl, tt)))) (refl, (refl, tt)) refl
      refl (inr (codes " Secure", refl))
