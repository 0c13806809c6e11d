-- ===== src/Cookie/Slots/Store.antt =====
-- The block `if (jar)` of `cookie_set` against a list that is cut at twenty cookies, the one that was
-- set last at its front.
use highwire.Common.{
  ℕ, zero, suc, ◌≤◌, Bool, true, false, ◌||◌, Option, none, some, List, [], ◌∷◌, ◌≡◌, refl, ap, inl,
  inr, arith, length, take, Option-cases, ◌∙◌,
}
use highwire.Common.Bytes.{Bytes}
use highwire.Cookie.{Cookie, room, stored_path}
use highwire.Cookie.Slots.{
  Heap, Setting, refreshed, to_front, set_slots, filled, insert, update, roomy, renewed, too_short,
  path_bytes,
}
use highwire.Cookie.Slots.Front.{IsNew, IsApart, refreshed-new, to_front-new, to_front-find}
use highwire.Cookie.Slots.Packed.{
  packed, find, without, has, IsComparable, search-remove, search-find, search-none,
}

-- the cookie that a setting makes, of the one it finds or else anew
abbrev pub set_cookie : ℕ → Setting → Option Cookie → Cookie
set_cookie addr s none = record {
  addr = addr;
  expires = s.expires;
  path = stored_path (path_bytes s.path);
  value_max = length s.value;
  value = s.value;
  name = s.name;
}
set_cookie addr s (some c) = filled s (roomy s (renewed s c))

-- A value that fits into its buffer does not count as a change.
abbrev pub set_changed : Setting → Option Cookie → Bool → Bool
set_changed s none changed = true
set_changed s (some c) changed = too_short s c || changed

packed-take : (n : ℕ) (cs : List Cookie) → packed n (take n cs) ≡ packed n cs
unfolding packed
packed-take zero cs = refl
packed-take (suc n) [] = refl
packed-take (suc n) (c ∷ cs) = ap (◌∷◌ (some c)) (packed-take n cs)

length-take : (n : ℕ) (cs : List Cookie) → length (take n cs) ≤ n
length-take zero cs = omega arith
length-take (suc n) [] = omega arith
length-take (suc n) (c ∷ cs) = omega (arith, length-take n cs)

IsNew-take : (a n : ℕ) (cs : List Cookie) → IsNew a cs → IsNew a (take n cs)
IsNew-take a zero cs h = tt
IsNew-take a (suc n) [] h = tt
IsNew-take a (suc n) (c ∷ cs) h = (h.0, IsNew-take a n cs h.1)

without-none :
    (name : Bytes) (path : Option Bytes) (cs : List Cookie)
    → find name path cs ≡ none
    → without name path cs ≡ cs
without-none name path [] f = refl
without-none name path (c ∷ cs) f = ground (arith, f, without-none name path cs)

pushed :
    (c : Cookie) (cs : List Cookie)
    → IsNew c.addr cs
    → to_front c (refreshed c (packed room (take 19 cs))) ≡ some (packed room (c ∷ cs))
unfolding packed
pushed c cs new =
    let new' = IsNew-take c.addr 19 cs new in
    rw (refreshed-new room c (take 19 cs) new') (
      to_front-new 19 c (take 19 cs) (length-take 19 cs) new'
      ∙ ap (λ l. some (some c ∷ l)) (packed-take 19 cs))

insert-packed :
    (heap : Heap) (addr : ℕ) (s : Setting) (cs : List Cookie) (changed : Bool)
    → heap.cookie ≡ some addr
    → IsNew addr cs
    → insert heap s (packed room (take 19 cs)) changed
      ≡ some (packed room (set_cookie addr s none ∷ cs), true)
insert-packed heap addr s cs changed hc new = rw (hc, pushed (set_cookie addr s none) cs new) refl

renewed-addr : (addr : ℕ) (s : Setting) (c : Cookie) → c.addr ≡ (set_cookie addr s (some c)).addr
renewed-addr addr s c = ground arith

update-packed :
    (heap : Heap) (addr : ℕ) (s : Setting) (c : Cookie) (cs : List Cookie) (changed : Bool)
    → heap.value ≡ true
    → find s.name s.path cs ≡ some c
    → IsApart cs
    → length cs ≤ room
    → update heap s c (packed room cs) changed
      ≡ some (
        packed room (set_cookie addr s (some c) ∷ without s.name s.path cs),
        too_short s c || changed,
      )
update-packed heap addr s c cs changed hv f apart l = ground (
  arith,
  hv,
  to_front-find s.name s.path room c (set_cookie addr s (some c)) cs f (renewed-addr addr s c) apart
      l,
)

-- With memory at hand, a setting that compares with no NULL path makes of the array for a list of
-- cookies the one for that list without its first cookie of the name and path, the cookie that
-- results before it, cut at twenty. The addresses of the cookies differ, and that of a new one.
pub set_slots-packed :
    (heap : Heap) (addr : ℕ) (s : Setting) (cs : List Cookie) (changed : Bool)
    → heap.cookie ≡ some addr
    → heap.value ≡ true
    → IsNew addr cs
    → IsApart cs
    → length cs ≤ room
    → IsComparable s.name s.path cs
    → set_slots heap s false (packed room cs) changed ≡ (
        let found = find s.name s.path cs in
        some (
          packed room (set_cookie addr s found ∷ without s.name s.path cs),
          set_changed s found changed,
        ))
unfolding set_slots
set_slots-packed heap addr s cs changed hc hv new apart l h =
    elim (Option-cases (find s.name s.path cs)) [
      | inl f ↦
          rw (search-none s.name s.path 19 cs l h f, f, without-none s.name s.path cs f)
            (insert-packed heap addr s cs changed hc new)
      | inr (c, f) ↦
          rw (search-find s.name s.path room c cs l h f, f)
            (update-packed heap addr s c cs changed hv f apart l)
    ]

-- A removal takes the first cookie of the name and path out, and nothing else, if it compares with no
-- NULL path.
pub set_slots_remove :
    (heap : Heap) (s : Setting) (cs : List Cookie) (changed : Bool)
    → length cs ≤ room
    → IsComparable s.name s.path cs
    → set_slots heap s true (packed room cs) changed
      ≡ some (packed room (without s.name s.path cs), has s.name s.path cs || changed)
unfolding set_slots
set_slots_remove heap s cs changed l h =
    let (x, e) = search-remove s.name s.path room cs l (omega arith) h in rw e refl
