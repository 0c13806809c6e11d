-- ===== src/Cookie/Collect/Best.antt =====
-- `cookie_Jar` over all jars: what it returns are the best of the cookies that may be sent.
use highwire.Common.{
  ℕ, zero, suc, ◌*◌, ◌≤◌, ◌<◌, false, Bool, ◌||◌, some, List, [], ◌∷◌, ◌++◌, ◌≡◌, refl, ap, ◌∙◌,
  inl, inr, arith, length, take, map, ltb, if◌then◌else◌, Bool-cases,
}
use highwire.Common.Every.{Every, length-take}
use highwire.Common.Int.{ℤ}
use highwire.Common.Bytes.{Bytes}
use highwire.Cookie.{Cookie, Jar, Place, refuses, path_len, room}
use highwire.Cookie.Collect.{is_match, collect_jars, cookie_jar}
use highwire.Cookie.Collect.Expired.{live, some_expired, under, add_all, IsRoomy, collect-packed}
use highwire.Cookie.Collect.Order.{place, IsDescending, add-place}
use highwire.Cookie.Slots.Packed.{packed}

-- one after the other, each behind those whose path is not shorter
abbrev pub place_all : List Cookie → List Cookie → List Cookie
place_all [] set = set
place_all (c ∷ cs) set = place_all cs (place c set)

Every-place :
    (n : ℕ) (c : Cookie) (set : List Cookie)
    → path_len c ≤ n
    → Every (λ e. path_len e ≤ n) set
    → Every (λ e. path_len e ≤ n) (place c set)
Every-place n c [] l h = (l, tt)
Every-place n c (d ∷ set) l h = elim (Bool-cases (ltb (path_len d) (path_len c))) [
  | inl less ↦ rw less (l, h)
  | inr more ↦ rw more (h.0, Every-place n c set l h.1)
]

Every-lower :
    (n m : ℕ) (set : List Cookie)
    → m ≤ n
    → Every (λ e. path_len e ≤ m) set
    → Every (λ e. path_len e ≤ n) set
Every-lower n m [] l h = tt
Every-lower n m (d ∷ set) l h = (omega (arith, h.0), Every-lower n m set l h.1)

place-IsDescending :
    (c : Cookie) (set : List Cookie) → IsDescending set → IsDescending (place c set)
place-IsDescending c [] h = (tt, tt)
place-IsDescending c (d ∷ set) h = elim (Bool-cases (ltb (path_len d) (path_len c))) [
  | inl less ↦
      let l : path_len d ≤ path_len c = ground (arith, less) in
      rw less ((l, Every-lower (path_len c) (path_len d) set l h.0), h)
  | inr more ↦
      rw more
        (Every-place (path_len d) c set (ground (arith, more)) h.0, place-IsDescending c set h.1)
]

Every-take : (P : Cookie → Type 0) (n : ℕ) (set : List Cookie) → Every P set → Every P (take n set)
Every-take P zero set h = tt
Every-take P (suc n) [] h = tt
Every-take P (suc n) (d ∷ set) h = (h.0, Every-take P n set h.1)

IsDescending-take : (n : ℕ) (set : List Cookie) → IsDescending set → IsDescending (take n set)
IsDescending-take zero set h = tt
IsDescending-take (suc n) [] h = tt
IsDescending-take (suc n) (d ∷ set) h =
    (Every-take (λ e. path_len e ≤ path_len d) n set h.0, IsDescending-take n set h.1)

place_all-IsDescending : (cs set : List Cookie) → IsDescending set → IsDescending (place_all cs set)
place_all-IsDescending [] set h = h
place_all-IsDescending (c ∷ cs) set h =
    place_all-IsDescending cs (place c set) (place-IsDescending c set h)

take-take : (n : ℕ) (c : Cookie) (set : List Cookie) → take n (c ∷ take n set) ≡ take n (c ∷ set)
take-take zero c set = refl
take-take (suc n) c [] = refl
take-take (suc n) c (d ∷ set) = ap (◌∷◌ c) (take-take n d set)

-- A cookie that is cut off would not come back.
take-place :
    (n : ℕ) (c : Cookie) (set : List Cookie) → take n (place c (take n set)) ≡ take n (place c set)
take-place zero c set = refl
take-place (suc n) c [] = refl
take-place (suc n) c (d ∷ set) = elim (Bool-cases (ltb (path_len d) (path_len c))) [
  | inl less ↦ rw less (ap (◌∷◌ c) (take-take n d set))
  | inr more ↦ rw more (ap (◌∷◌ d) (take-place n c set))
]

add_all-place_all :
    (cs set : List Cookie)
    → IsDescending set
    → add_all cs (take room set) ≡ take room (place_all cs set)
add_all-place_all [] set h = refl
add_all-place_all (c ∷ cs) set h =
    ap (add_all cs) (
      add-place c (take room set) (IsDescending-take room set h) (length-take room set)
      ∙ take-place room c set)
    ∙ add_all-place_all cs (place c set) (place-IsDescending c set h)

-- a jar as a list of cookies
pub record View : Type 0 where
  pub cookies : List Cookie
  pub host : ℕ
  pub host_name : Bytes
  pub domain : Bytes

abbrev pub jar_of : View → Jar
jar_of v = record {
  cookies = packed room v.cookies;
  host = v.host;
  host_name = v.host_name;
  domain = v.domain;
}

module _ (now : ℤ) (loc : Place) where
  abbrev pub fits : View → Bool
  fits v = is_match loc (jar_of v)

  -- the cookies that may be sent to the place, in the order of the jars
  abbrev pub sendable : List View → List Cookie
  sendable [] = []
  sendable (v ∷ vs) =
      let rest = sendable vs in if fits v then under loc.path (live now v.cookies) ++ rest else rest

  abbrev pub swept : List View → List View
  swept [] = []
  swept (v ∷ vs) =
      let rest = swept vs in
      if fits v then record v { cookies = live now v.cookies } ∷ rest else v ∷ rest

  abbrev pub sweeps : List View → Bool → Bool
  sweeps [] changed = changed
  sweeps (v ∷ vs) changed =
      sweeps vs (if fits v then some_expired now v.cookies || changed else changed)

  place_all-append :
      (xs ys set : List Cookie) → place_all (xs ++ ys) set ≡ place_all ys (place_all xs set)
  place_all-append [] ys set = refl
  place_all-append (x ∷ xs) ys set = place_all-append xs ys (place x set)

  IsRoomy-fuel : (cs : List Cookie) → IsRoomy now room cs → length cs < 2 * room
  IsRoomy-fuel cs r = omega (arith, r.0)

  collect_jars-best :
      (vs : List View) (set : List Cookie) (changed : Bool)
      → Every (λ v. IsRoomy now room v.cookies) vs
      → IsDescending set
      → collect_jars now loc.path loc (map jar_of vs) (take room set) changed
        ≡ some (map jar_of (swept vs), take room (place_all (sendable vs) set), sweeps vs changed)
  unfolding collect_jars
  collect_jars-best [] set changed r h = refl
  collect_jars-best (v ∷ vs) set changed r h = elim (Bool-cases (fits v)) [
    | inl hit ↦
        let sent = under loc.path (live now v.cookies) in
        let one =
          collect-packed now loc.path (2 * room) room v.cookies (take room set) changed
            (IsRoomy-fuel v.cookies r.0) r.0 in
        let all =
          collect_jars-best vs (place_all sent set) (some_expired now v.cookies || changed) r.1
            (place_all-IsDescending sent set h) in
        rw
          (
            collect_jars,
            hit,
            one,
            add_all-place_all sent set h,
            all,
            place_all-append sent (sendable vs) set,
          )
          refl
    | inr miss ↦ rw (collect_jars, miss, collect_jars-best vs set changed r.1 h) refl
  ]

  -- If every jar has a free place or nothing in it is expired, and the place does not refuse cookies,
  -- `cookie_Jar` comes to its end. It returns the first twenty of the cookies that may be sent, the longest
  -- paths first and in the order of the jars where they are equally long, and takes out of the jars
  -- that fit exactly the expired cookies.
  pub cookie_jar-best :
      (vs : List View) (changed : Bool)
      → refuses loc ≡ false
      → Every (λ v. IsRoomy now room v.cookies) vs
      → (cookie_jar now loc record { list = map jar_of vs; changed = changed }
          ≡ some (
            record { list = map jar_of (swept vs); changed = sweeps vs changed },
            take room (place_all (sendable vs) []),
          ))
        × IsDescending (take room (place_all (sendable vs) []))
  unfolding cookie_jar
  cookie_jar-best vs changed kind r = (
    rw (cookie_jar, kind, collect_jars-best vs [] changed r tt) refl,
    IsDescending-take room (place_all (sendable vs) [])
        (place_all-IsDescending (sendable vs) [] tt),
  )
