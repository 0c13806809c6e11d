-- ===== src/Cookie/Slots.antt =====
-- src/cookie.c: what `cookie_set` does to the places of a jar. `none` is a NULL that is followed.
pub mod Packed
pub mod Front
pub mod Store
pub mod Null
use highwire.Common.{
  ℕ, zero, suc, ◌+◌, ◌-◌, Bool, true, false, not, ◌&&◌, ◌||◌, Option, none, some, List, [], ◌∷◌,
  length, ◌==◌, if◌then◌else◌, ◌>>=◌, ltb, get_or,
}
use highwire.Common.Int.{ℤ, pos, is_zero_ℤ}
use highwire.Common.Bytes.{Bytes, strncmp, same_nocase}
use Prim.Native.Nat.{Ordering}
use highwire.Cookie.{Cookie, Slots, room, create_cookie, destroy_cookie}

-- the comparison of PathStr with the `pth_len` bytes at `pth_ptr`, of which either may be NULL
unfoldable pub same_path : Option Bytes → Option Bytes → Option Bool
same_path none none = some true
same_path none (some p) = none
same_path (some s) none = some (get_or s 0 0 == 0)
same_path (some s) (some p) =
    some (elim (strncmp s p (length p)) [ Ordering.eq ↦ get_or s (length p) 0 == 0 | _ ↦ false ])

abbrev pub same_name : Bytes → Cookie → Bool
same_name name c = length c.name == length name && same_nocase c.name name (length name)

unfoldable pub is_same : Bytes → Option Bytes → Cookie → Option Bool
is_same name path c = if same_name name c then same_path c.path path else some false

-- the array, the cookie that was found, and whether one was removed
abbrev pub Search : Type 0
Search = Slots × Option Cookie × Bool

abbrev pub behind : Cookie → Search → Option Search
behind c (list, found, removed) = some (some c ∷ list, found, removed)

-- `n` places are left. The end of the array is never passed.
unfoldable pub search : Bytes → Option Bytes → Bool → ℕ → Slots → Option Search
search name path remove n [] = none
search name path remove n (none ∷ list) = some (none ∷ list, none, false)
search name path remove n (some c ∷ list) =
    let later = search name path remove (n - 1) list >>= behind c in
    is_same name path c >>= λ same.
    if same
    then if remove
      then some (destroy_cookie (some c ∷ list) n, none, true)
      else some (some c ∷ list, some c, false)
    else if n == 1
    then if remove
      then some (some c ∷ list, some c, false)
      else some (destroy_cookie (some c ∷ list) 0, none, false)
    else later

abbrev pub is_cookie : Cookie → Option Cookie → Bool
is_cookie c none = false
is_cookie c (some d) = d.addr == c.addr

-- the cookie at its address has changed
unfoldable pub refreshed : Cookie → Slots → Slots
refreshed c [] = []
refreshed c (d ∷ list) =
    let rest = refreshed c list in if is_cookie c d then some c ∷ rest else d ∷ rest

-- `do { save = *ck_ptr; *(ck_ptr++) = swap; swap = save; } while (swap && swap != cookie);`
unfoldable pub swap_down : Cookie → Cookie → Slots → Option Slots
swap_down c swap [] = none
swap_down c swap (none ∷ list) = some (some swap ∷ list)
swap_down c swap (some d ∷ list) =
    let rest = swap_down c d list in
    if d.addr == c.addr then some (some swap ∷ list) else rest >>= λ r. some (some swap ∷ r)

unfoldable pub to_front : Cookie → Slots → Option Slots
to_front c [] = none
to_front c (d ∷ list) =
    let moved = swap_down c c (d ∷ list) in if is_cookie c d then some (d ∷ list) else moved

-- what `malloc` gives: the address of a new cookie, and whether there is room for a longer value
pub record Heap : Type 0 where
  pub cookie : Option ℕ
  pub value : Bool
  pub jar : Bool

-- what a header says of a cookie
pub record Setting : Type 0 where
  pub name : Bytes
  pub value : Bytes
  pub path : Option Bytes
  pub expires : ℤ

abbrev pub path_bytes : Option Bytes → Bytes
path_bytes none = []
path_bytes (some p) = p

-- the cookie found, with its buffer, and whether it was replaced; an expiry given is taken
abbrev pub renewed : Setting → Cookie → Cookie
renewed s c = if is_zero_ℤ s.expires then c else record c { expires = pos 0 }

abbrev pub too_short : Setting → Cookie → Bool
too_short s c = ltb c.value_max (length s.value)

abbrev pub roomy : Setting → Cookie → Cookie
roomy s c = if too_short s c then record c { value_max = length s.value } else c

abbrev pub filled : Setting → Cookie → Cookie
filled s c = record c {
  value = s.value;
  expires = if is_zero_ℤ c.expires then s.expires else c.expires;
}

abbrev pub at_front : Cookie → Bool → Slots → Option (Slots × Bool)
at_front c changed list = to_front c (refreshed c list) >>= λ l. some (l, changed)

abbrev pub insert : Heap → Setting → Slots → Bool → Option (Slots × Bool)
insert heap s list changed = elim (create_cookie heap.cookie s.name s.value (path_bytes s.path)) [
  | none ↦ some (list, changed)
  | some c ↦ at_front (filled s c) true list
]

abbrev pub update : Heap → Setting → Cookie → Slots → Bool → Option (Slots × Bool)
update heap s c list changed =
    if too_short s c && not heap.value
    then some (refreshed (renewed s c) list, changed)
    else at_front (filled s (roomy s (renewed s c))) (too_short s c || changed) list

abbrev pub store : Heap → Setting → Bool → Search → Bool → Option (Slots × Bool)
store heap s true (list, found, removed) changed = some (list, removed || changed)
store heap s false (list, none, removed) changed = insert heap s list (removed || changed)
store heap s false (list, some c, removed) changed = update heap s c list (removed || changed)

-- The block `if (jar)`, with `jar_changed`.
unfoldable pub set_slots : Heap → Setting → Bool → Slots → Bool → Option (Slots × Bool)
set_slots heap s remove list changed =
    search s.name s.path remove room list >>= λ r. store heap s remove r changed
