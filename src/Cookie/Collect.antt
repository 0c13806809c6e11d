-- ===== src/Cookie/Collect.antt =====
-- src/cookie.c: `cookie_Jar`, once the file of cookies is read. `now` is the time. The cookies that
-- are collected stand in the order of the array.
pub mod Expired
pub mod Order
pub mod Best
pub mod Lost
use mathlib.Core.List.{reverse}
use highwire.Common.{
  ℕ, zero, suc, ◌+◌, ◌-◌, ◌*◌, Bool, true, false, not, ◌&&◌, ◌||◌, Option, none, some, List, [],
  ◌∷◌, ◌++◌, length, drop, ◌==◌, if◌then◌else◌, ltb, leb,
}
use highwire.Common.Int.{ℤ, is_zero_ℤ, leb_ℤ}
use highwire.Common.Bytes.{Bytes, strncmp, strcmp}
use Prim.Native.Nat.{Ordering}
use highwire.Cookie.{Cookie, Slots, Jar, Jars, Place, refuses, room, path_len, destroy_cookie}
use highwire.Cookie.Attributes.{is_empty}

abbrev pub is_equal : Ordering → Bool
is_equal Ordering.eq = true
is_equal o = false

-- the jars of the host, and of the domains that its name ends with
unfoldable pub is_match : Place → Jar → Bool
is_match loc jar =
    let host = loc.host_name in
    let d = jar.domain in
    if is_empty d
    then loc.host == jar.host
    else if length host == length d - 1
    then is_equal (strcmp host (drop 1 d))
    else not (leb (length host) (length d))
      && is_equal (strcmp (drop (length host - length d) host) d)

unfoldable pub is_expired : ℤ → Cookie → Bool
is_expired now c = not (is_zero_ℤ c.expires) && leb_ℤ c.expires now

unfoldable pub is_under : Bytes → Cookie → Bool
is_under path c = elim c.path [ none ↦ true | some p ↦ is_equal (strncmp path p (path_len c)) ]

-- from the end of the set: those with a shorter path make room
unfoldable pub before_shorter : Cookie → List Cookie → List Cookie
before_shorter c [] = c ∷ []
before_shorter c (d ∷ set) =
    let rest = before_shorter c set in
    if ltb (path_len d) (path_len c) then d ∷ rest else c ∷ d ∷ set

-- the set without its last cookie
abbrev pub but_last : List Cookie → List Cookie
but_last [] = []
but_last (c ∷ set) = set

abbrev pub add_last_first : Cookie → List Cookie → List Cookie
add_last_first c [] = c ∷ []
add_last_first c (d ∷ set) =
    if length (d ∷ set) == room && leb (path_len c) (path_len d)
    then d ∷ set
    else before_shorter c (if ltb (length (d ∷ set)) room then d ∷ set else but_last (d ∷ set))

unfoldable pub add : Cookie → List Cookie → List Cookie
add c set = reverse (add_last_first c (reverse set))

-- the array from a place on, the set, and jar_changed
abbrev pub Round : Type 0
Round = Slots × List Cookie × Bool

module _ (now : ℤ) (path : Bytes) where
  abbrev pub behind : Option Cookie → Round → Round
  behind c (list, set, changed) = (c ∷ list, set, changed)

  -- `n` is 20 - i; each round takes a cookie from the jar or a step to the next place. `none` when the
  -- fuel is used up
  unfoldable pub collect : ℕ → ℕ → Slots → List Cookie → Bool → Option Round
  collect zero n list set changed = none
  collect (suc fuel) n [] set changed = some ([], set, changed)
  collect (suc fuel) n (none ∷ list) set changed = some (none ∷ list, set, changed)
  collect (suc fuel) n (some c ∷ list) set changed =
      let removed = collect fuel n (destroy_cookie (some c ∷ list) (n - 1)) set true in
      let set' = if is_under path c then add c set else set in
      let later = collect fuel (n - 1) list set' changed in
      if is_expired now c
      then removed
      else if leb n 1
      then some (some c ∷ list, set', changed)
      else elim later [ none ↦ none | some r ↦ some (behind (some c) r) ]

  unfoldable pub collect_jars :
      Place → List Jar → List Cookie → Bool → Option (List Jar × List Cookie × Bool)
  collect_jars loc [] set changed = some ([], set, changed)
  collect_jars loc (jar ∷ jars) set changed = elim (is_match loc jar) [
    | true ↦ elim (collect (2 * room) room jar.cookies set changed) [
      | none ↦ none
      | some (list, set', changed') ↦ elim (collect_jars loc jars set' changed') [
        | none ↦ none
        | some (jars', set'', last) ↦ some (record jar { cookies = list } ∷ jars', set'', last)
      ]
    ]
    | false ↦ elim (collect_jars loc jars set changed) [
      | none ↦ none
      | some (jars', set', last) ↦ some (jar ∷ jars', set', last)
    ]
  ]

-- the jars and the set
unfoldable pub cookie_jar : ℤ → Place → Jars → Option (Jars × List Cookie)
cookie_jar now loc jars = elim (refuses loc) [
  | true ↦ some (jars, [])
  | false ↦ elim (collect_jars now loc.path loc jars.list [] jars.changed) [
    | none ↦ none
    | some (list, set, changed) ↦ some (record { list = list; changed = changed }, set)
  ]
]
