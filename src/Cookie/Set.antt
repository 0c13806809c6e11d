-- ===== src/Cookie/Set.antt =====
-- src/cookie.c: `cookie_set`. The result is `none` if a NULL is followed.
pub mod Domain
pub mod Safe
pub mod Own
use highwire.Common.{
  ℕ, suc, ◌-◌, Bool, true, false, not, ◌&&◌, ◌||◌, Option, none, some, List, [], ◌∷◌, ◌++◌, length,
  drop, take, span, ◌==◌, if◌then◌else◌, ◌>>=◌, leb,
}
use highwire.Common.Int.{ℤ}
use highwire.Common.Bytes.{Bytes, head_byte, same_nocase, strncmp}
use Prim.Native.Nat.{Ordering}
use highwire.Cookie.{Jar, Jars, Place, refuses, create_jar}
use highwire.Cookie.Attributes.{
  Attributes, no_attributes, attributes, name_and_value, is_empty, split_at,
}
use highwire.Cookie.Slots.{Heap, Setting, set_slots}

-- five bytes at least: a dot, a byte, and another dot that is not the last byte
abbrev pub is_domain : Bytes → Bool
is_domain d =
    leb 5 (length d)
    && head_byte d == b'.'
    && not (is_empty (split_at b'.' (take (length d - 3) (drop 2 d))).1)

-- the host is the domain without its dot, or it ends with the domain
abbrev pub in_domain : Bytes → Bytes → Bool
in_domain host d =
    if length host == length d - 1
    then same_nocase host (drop 1 d) (length d - 1)
    else not (leb (length host) (length d))
      && same_nocase (drop (length host - length d) host) d (length d)

-- the domain to use; `none` drops the cookie
unfoldable pub check_domain : Place → Bytes → Option Bytes
check_domain loc [] = some []
check_domain loc (c ∷ d) =
    if not (is_domain (c ∷ d))
    then some []
    else if in_domain loc.host_name (c ∷ d)
    then some (c ∷ d)
    else none

-- the front that two paths share
abbrev pub shared : Bytes → Bytes → Bytes
shared [] t = []
shared (c ∷ s) [] = []
shared (c ∷ s) (d ∷ t) = let rest = shared s t in if c == d then c ∷ rest else []

abbrev pub last_byte : Bytes → ℕ
last_byte [] = 0
last_byte (c ∷ []) = c
last_byte (c ∷ d ∷ s) = last_byte (d ∷ s)

-- the directory, without the slash at its end if it is not the root
abbrev pub directory : Bytes → Bytes
directory p = if not (leb (length p) 1) && last_byte p == b'/' then take (length p - 1) p else p

-- pth_ptr
abbrev pub unless_root : Bytes → Option Bytes
unless_root p = if length p == 1 then none else some p

unfoldable pub check_path : Place → Bytes → Option (Option Bytes)
check_path loc [] = some (unless_root (directory loc.path))
check_path loc (c ∷ p) =
    if not (c == b'/')
    then none
    else some (unless_root (if is_empty p then c ∷ p else shared (c ∷ p) loc.path))

abbrev pub is_jar : Place → Bytes → Jar → Bool
is_jar loc [] jar = is_empty jar.domain && jar.host == loc.host
is_jar loc (c ∷ d) jar =
    length jar.domain == length (c ∷ d)
    && elim (strncmp jar.domain (c ∷ d) (length (c ∷ d))) [ Ordering.eq ↦ true | _ ↦ false ]

-- the jars before the one that is used, it, and those behind it
abbrev pub Found : Type 0
Found = List Jar × Jar × List Jar

abbrev pub or_new : Heap → Place → Bytes → Bool → List Jar → List Jar × List Jar → Option Found
or_new heap loc domain remove jars (front, jar ∷ back) = some (front, jar, back)
or_new heap loc domain remove jars (front, []) =
    if not remove && heap.jar
    then some ([], create_jar loc.host loc.host_name domain, jars)
    else none

unfoldable pub find_jar : Heap → Place → Bytes → Bool → List Jar → Option Found
find_jar heap loc domain remove jars =
    or_new heap loc domain remove jars (span (λ j. not (is_jar loc domain j)) jars)

abbrev pub set_in : Heap → Setting → Bool → Jars → Option Found → Option Jars
set_in heap s remove jars none = some jars
set_in heap s remove jars (some (front, jar, back)) =
    set_slots heap s remove jar.cookies jars.changed >>= λ r.
    some record { list = front ++ record jar { cookies = r.0 } ∷ back; changed = r.1 }

-- with the domain and the path to use, unless the cookie is dropped
abbrev pub set_unless_dropped :
    Heap
    → Place
    → Bytes × Bytes
    → Attributes
    → Jars
    → Option Bytes
    → Option (Option Bytes)
    → Option Jars
set_unless_dropped heap loc pair a jars none path = some jars
set_unless_dropped heap loc pair a jars (some domain) none = some jars
set_unless_dropped heap loc (name, value) a jars (some domain) (some path) =
    set_in heap record { name = name; value = value; path = path; expires = a.expires } a.remove
      jars (find_jar heap loc domain a.remove jars.list)

unfoldable pub set_checked : Heap → Place → Bytes × Bytes → Attributes → Jars → Option Jars
set_checked heap loc pair a jars =
    set_unless_dropped heap loc pair a jars (check_domain loc a.domain) (check_path loc a.path)

-- a cookie without a name or a value is dropped
abbrev pub set_pair : Heap → Place → Bytes × Bytes → Jars → Attributes → Option Jars
set_pair heap loc (name, value) jars a =
    let set = set_checked heap loc (name, value) a jars in
    if is_empty name || is_empty value then some jars else set

-- `date` is `http_date`.
unfoldable pub cookie_set : (Bytes → ℤ) → Heap → Place → Bytes → ℤ → ℤ → Jars → Option Jars
cookie_set date heap loc str srvr_date tdiff jars =
    let (name, value, rest) = name_and_value str in
    let set =
      attributes date srvr_date tdiff (suc (length rest)) rest no_attributes
      >>= set_pair heap loc (name, value) jars in
    if refuses loc then some jars else set
