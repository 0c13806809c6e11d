-- ===== src/Cookie/Set/Domain.antt =====
-- The domains of `cookie_set` and `cookie_Jar`: letters of either case, and which hosts belong to one.
use mathlib.Core.Path.{subst}
use highwire.Common.{
  ℕ, suc, ◌-◌, ◌<◌, true, false, not, some, List, [], ◌∷◌, ◌≡◌, refl, ap, inl, inr, arith, length,
  drop, ◌==◌, Bool-cases,
}
use highwire.Common.Every.{Every, Every-drop, length-drop, span-all}
use highwire.Common.Bytes.{Bytes, is_upper, to_lower, same_nocase, strncmp, strcmp}
use Prim.Native.Nat.{Ordering}
use highwire.Cookie.{Jar, Place, lower_case, create_jar}
use highwire.Cookie.Set.{is_jar, find_jar, in_domain}
use highwire.Cookie.Slots.{Heap}
use highwire.Cookie.Collect.{is_match}

to_lower-not_upper : (c : ℕ) → is_upper (to_lower c) ≡ false
to_lower-not_upper c = ground arith

-- no letter of the upper case
abbrev pub IsLower : Bytes → Type 0
IsLower s = Every (λ c. is_upper c ≡ false) s

pub lower_case-IsLower : (s : Bytes) → IsLower (lower_case s)
lower_case-IsLower [] = tt
lower_case-IsLower (c ∷ s) = (to_lower-not_upper c, lower_case-IsLower s)

pub strncmp-eq : (s t : Bytes) → length s ≡ length t → strncmp s t (length t) ≡ Ordering.eq → s ≡ t
unfolding strncmp
strncmp-eq [] [] l h = refl
strncmp-eq [] (d ∷ t) l h = absurd (omega (arith, l))
strncmp-eq (c ∷ s) [] l h = absurd (omega (arith, l))
strncmp-eq (c ∷ s) (d ∷ t) l h = ground (arith, h, strncmp-eq s t (omega (arith, l)))

pub is_jar-eq :
    (loc : Place) (c : ℕ) (d : Bytes) (jar : Jar)
    → is_jar loc (c ∷ d) jar ≡ true
    → jar.domain ≡ c ∷ d
is_jar-eq loc c d jar h = strncmp-eq jar.domain (c ∷ d) (ground (arith, h)) (ground (arith, h))

-- A jar whose domain is in lower case is not found by another one.
is_jar-lower :
    (loc : Place) (d : Bytes) (jar : Jar)
    → IsLower jar.domain
    → (IsLower d → ⊥)
    → is_jar loc d jar ≡ false
is_jar-lower loc [] jar h k = absurd (k tt)
is_jar-lower loc (c ∷ d) jar h k = elim (Bool-cases (is_jar loc (c ∷ d) jar)) [
  | inl hit ↦ absurd (k (subst IsLower (is_jar-eq loc c d jar hit) h))
  | inr miss ↦ miss
]

none-is_jar :
    (loc : Place) (d : Bytes) (jars : List Jar)
    → Every (λ j. IsLower j.domain) jars
    → (IsLower d → ⊥)
    → Every (λ j. not (is_jar loc d j) ≡ true) jars
none-is_jar loc d [] h k = tt
none-is_jar loc d (j ∷ jars) h k =
    (ap not (is_jar-lower loc d j h.0 k), none-is_jar loc d jars h.1 k)

-- A domain with a letter of the upper case gets a new jar in front of the others each time, since those
-- of all jars are in lower case; there is memory for it, and the cookie is not removed.
pub find_jar_twice :
    (heap : Heap) (loc : Place) (d : Bytes) (jars : List Jar)
    → heap.jar ≡ true
    → Every (λ j. IsLower j.domain) jars
    → (IsLower d → ⊥)
    → find_jar heap loc d false jars ≡ some ([], create_jar loc.host loc.host_name d, jars)
unfolding find_jar
find_jar_twice heap loc d jars h low k =
    rw (find_jar, span-all (λ j. not (is_jar loc d j)) jars (none-is_jar loc d jars low k), h) refl

same_nocase-lower :
    (s t : Bytes)
    → IsLower s
    → length s ≡ length t
    → same_nocase s t (length t) ≡ true
    → strcmp s (lower_case t) ≡ Ordering.eq
unfolding same_nocase strcmp
same_nocase-lower [] [] h l e = refl
same_nocase-lower [] (d ∷ t) h l e = absurd (omega (arith, l))
same_nocase-lower (c ∷ s) [] h l e = absurd (omega (arith, l))
same_nocase-lower (c ∷ s) (d ∷ t) h l e =
    ground (arith, h.0, e, same_nocase-lower s t h.1 (omega (arith, l)))

length-lower_case : (s : Bytes) → length (lower_case s) ≡ length s
length-lower_case [] = refl
length-lower_case (c ∷ s) = ap suc (length-lower_case s)

-- A host in lower case to which `cookie_set` allows a domain gets the cookies of that domain's jar from
-- `cookie_Jar`.
pub in_domain-is_match :
    (loc : Place) (c : ℕ) (d : Bytes) (jar : Jar)
    → IsLower loc.host_name
    → in_domain loc.host_name (c ∷ d) ≡ true
    → jar.domain ≡ lower_case (c ∷ d)
    → is_match loc jar ≡ true
unfolding is_match
in_domain-is_match loc c d jar h e same =
    let host = loc.host_name in
    let l = length-lower_case d in
    elim (Bool-cases (length host == length d)) [
      | inl bare ↦
          let n : length host ≡ length d = ground (arith, bare) in
          let k : same_nocase host d (length d) ≡ true = ground (arith, bare, e) in
          rw (same, l) (ground (arith, bare, same_nocase-lower host d h n k))
      | inr longer ↦
          let more : suc (length d) < length host = ground (arith, longer, e) in
          let tail = drop (length host - suc (length d)) host in
          let n : length tail ≡ length (c ∷ d) =
            omega (arith, length-drop (length host - suc (length d)) host) in
          let k : same_nocase tail (c ∷ d) (length (c ∷ d)) ≡ true = ground (arith, longer, e) in
          let low = Every-drop (λ c. is_upper c ≡ false) (length host - suc (length d)) host h in
          rw (same, l) (ground (arith, longer, more, same_nocase-lower tail (c ∷ d) low n k))
    ]
