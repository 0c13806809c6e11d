-- ===== src/Cookie.antt =====
-- src/cookie.c: the cookie jars. A jar has room for twenty cookies, of which the first NULL ends
-- those in use. Attributes is about the text of a Set-Cookie header, Slots about the twenty places
-- of a jar, Set about `cookie_set`, Collect about `cookie_Jar`. A cookie is known by its address; the
-- name of a host by the address of its entry in the table of hosts. What `malloc` gives is a
-- parameter.
pub mod Attributes
pub mod Slots
pub mod Set
pub mod Collect
mod Tests
use highwire.Common.{
  ℕ, zero, suc, ◌+◌, ◌/◌, ◌%◌, Bool, true, false, ◌&&◌, Option, none, some, List, [], ◌∷◌, length,
  ◌==◌, get_or,
}
use highwire.Common.Int.{ℤ, pos}
use highwire.Common.Bytes.{Bytes, to_lower}

-- `path` is PathStr, which is NULL for the root; the lengths are those of the strings.
pub record Cookie : Type 0 where
  pub addr : ℕ
  pub expires : ℤ
  pub path : Option Bytes
  pub value_max : ℕ
  pub value : Bytes
  pub name : Bytes

-- the array of a jar
abbrev pub Slots : Type 0
Slots = List (Option Cookie)

pub record Jar : Type 0 where
  pub cookies : Slots
  pub host : ℕ
  pub host_name : Bytes
  pub domain : Bytes

-- jar_list and jar_changed
pub record Jars : Type 0 where
  pub list : List Jar
  pub changed : Bool

-- what `location_Host` and `location_Path` read of a location
pub record Place : Type 0 where
  pub flags : ℕ
  pub host : ℕ
  pub host_name : Bytes
  pub path : Bytes

-- the bit 'C' of the flags: no cookies for this host
abbrev pub refuses : Place → Bool
refuses loc = loc.flags / 4 % 2 == 1

abbrev pub room : ℕ
room = 20

abbrev pub empty : ℕ → Slots
empty zero = []
empty (suc n) = none ∷ empty n

abbrev pub lower_case : Bytes → Bytes
lower_case [] = []
lower_case (c ∷ s) = to_lower c ∷ lower_case s

abbrev pub create_jar : ℕ → Bytes → Bytes → Jar
create_jar host host_name domain = record {
  cookies = empty room;
  host = host;
  host_name = host_name;
  domain = lower_case domain;
}

abbrev pub path_len : Cookie → ℕ
path_len c = elim c.path [ none ↦ 0 | some p ↦ length p ]

-- a path of no bytes is not stored
abbrev pub stored_path : Bytes → Option Bytes
stored_path [] = none
stored_path (c ∷ s) = some (c ∷ s)

-- the cookie with its strings, which the caller copies into it; NULL when memory is exhausted
abbrev pub create_cookie : Option ℕ → Bytes → Bytes → Bytes → Option Cookie
create_cookie none name value path = none
create_cookie (some addr) name value path = some record {
  addr = addr;
  expires = pos 0;
  path = stored_path path;
  value_max = length value;
  value = value;
  name = name;
}

-- The part of the array that `list` points to, which holds `n` places at least.
unfoldable pub destroy_cookie : Slots → ℕ → Slots
destroy_cookie (c ∷ d ∷ list) (suc (suc n)) = d ∷ destroy_cookie (d ∷ list) (suc n)
destroy_cookie (c ∷ list) n = none ∷ list
destroy_cookie [] n = []
