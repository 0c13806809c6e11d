-- ===== src/Cookie/Set/Safe.antt =====
-- Which jar `cookie_set` writes to.
use mathlib.Core.Path.{subst}
use mathlib.Core.Option.{some-injective, none-ne-some}
use highwire.Common.{
  Bool, true, false, not, ◌&&◌, none, some, List, [], ◌∷◌, ◌++◌, ◌≡◌, refl, sym, ◌∙◌, ◌⊎◌, inl, inr,
  arith, span, span-append, Bool-cases,
}
use highwire.Common.Every.{Every, span-rest}
use highwire.Common.Bytes.{Bytes}
use highwire.Cookie.{Jar, Place, lower_case, create_jar}
use highwire.Cookie.Slots.{Heap}
use highwire.Cookie.Set.{is_jar, find_jar, in_domain, Found, or_new, is_domain, check_domain}
use highwire.Cookie.Set.Domain.{IsLower, is_jar-eq, in_domain-is_match}
use highwire.Cookie.Collect.{is_match}

-- the domain's check gives up the domain, or keeps one that the host is in
check_domain-cases :
    (loc : Place) (d d' : Bytes)
    → check_domain loc d ≡ some d'
    → (d' ≡ []) ⊎ ((d' ≡ d) × (in_domain loc.host_name d ≡ true))
unfolding check_domain
check_domain-cases loc [] d' h = ground (arith, h)
check_domain-cases loc (c ∷ d) d' h = elim (Bool-cases (in_domain loc.host_name (c ∷ d))) [
  | inl inside ↦ elim (Bool-cases (is_domain (c ∷ d))) [
    | inl good ↦
        let e : check_domain loc (c ∷ d) ≡ some (c ∷ d) = rw (check_domain, good, inside) refl in
        inr (sym (some-injective (c ∷ d) d' (sym e ∙ h)), inside)
    | inr bad ↦
        let e : check_domain loc (c ∷ d) ≡ some [] = rw (check_domain, bad) refl in
        inl (sym (some-injective [] d' (sym e ∙ h)))
  ]
  | inr spoofed ↦ ground (arith, h, spoofed)
]

pub check_domain-allowed :
    (loc : Place) (d d' : Bytes)
    → check_domain loc d ≡ some d'
    → (d' ≡ []) ⊎ (in_domain loc.host_name d' ≡ true)
check_domain-allowed loc d d' h = elim (check_domain-cases loc d d' h) [
  | inl e ↦ inl e
  | inr (e, inside) ↦ inr (rw e inside)
]

lower_case-same : (s : Bytes) → IsLower s → lower_case s ≡ s
lower_case-same [] h = refl
lower_case-same (c ∷ s) h = ground (arith, h.0, lower_case-same s h.1)

-- The jar that is used is a jar of the list, with those before and behind it, or a new one before all.
abbrev pub IsFound : Place → Bytes → List Jar → Found → Type 0
IsFound loc d jars (front, jar, back) =
    ((jars ≡ front ++ jar ∷ back) × (is_jar loc d jar ≡ true))
    ⊎ ((front ≡ []) × (back ≡ jars) × (jar ≡ create_jar loc.host loc.host_name d))

or_new-IsFound :
    (heap : Heap) (loc : Place) (d : Bytes) (remove : Bool) (jars : List Jar)
    (s : List Jar × List Jar) (f : Found)
    → jars ≡ s.0 ++ s.1
    → ((j : Jar) (js : List Jar) → s.1 ≡ j ∷ js → not (is_jar loc d j) ≡ false)
    → or_new heap loc d remove jars s ≡ some f
    → IsFound loc d jars f
or_new-IsFound heap loc d remove jars (front, j ∷ back) f e k h =
    let hit : is_jar loc d j ≡ true = ground (arith, k j back refl) in
    subst (IsFound loc d jars) (some-injective _ _ h) (inl (e, hit))
or_new-IsFound heap loc d remove jars (front, []) f e k h =
    elim (Bool-cases (not remove && heap.jar)) [
      | inl new ↦
          let made : Found = ([], create_jar loc.host loc.host_name d, jars) in
          let e : or_new heap loc d remove jars (front, []) ≡ some made = rw new refl in
          subst (IsFound loc d jars) (some-injective made f (sym e ∙ h)) (inr (refl, refl, refl))
      | inr nothing ↦
          let e : or_new heap loc d remove jars (front, []) ≡ none = rw nothing refl in
          absurd (none-ne-some f (sym e ∙ h))
    ]

pub find_jar-IsFound :
    (heap : Heap) (loc : Place) (d : Bytes) (remove : Bool) (jars : List Jar) (f : Found)
    → find_jar heap loc d remove jars ≡ some f
    → IsFound loc d jars f
unfolding find_jar
find_jar-IsFound heap loc d remove jars f h =
    let p = λ (j : Jar). not (is_jar loc d j) in
    or_new-IsFound heap loc d remove jars (span p jars) f (sym (span-append p jars))
      (span-rest p jars) h

-- the domain's jar is in lower case, so that it is the one that `cookie_Jar` looks for
is_jar-is_match :
    (loc : Place) (d : Bytes) (jar : Jar)
    → IsLower loc.host_name
    → IsLower jar.domain
    → (d ≡ []) ⊎ (in_domain loc.host_name d ≡ true)
    → is_jar loc d jar ≡ true
    → is_match loc jar ≡ true
unfolding is_match
is_jar-is_match loc [] jar h low ok own = ground (arith, own)
is_jar-is_match loc (c ∷ d) jar h low (inl e) own = absurd (cc)
is_jar-is_match loc (c ∷ d) jar h low (inr ok) own =
    let e = is_jar-eq loc c d jar own in
    in_domain-is_match loc c d jar h ok (e ∙ sym (lower_case-same (c ∷ d) (subst IsLower e low)))

create_jar-is_match :
    (loc : Place) (d : Bytes)
    → IsLower loc.host_name
    → (d ≡ []) ⊎ (in_domain loc.host_name d ≡ true)
    → is_match loc (create_jar loc.host loc.host_name d) ≡ true
unfolding is_match
create_jar-is_match loc [] h ok = ground arith
create_jar-is_match loc (c ∷ d) h (inl e) = absurd (cc)
create_jar-is_match loc (c ∷ d) h (inr ok) =
    in_domain-is_match loc c d (create_jar loc.host loc.host_name (c ∷ d)) h ok refl

Every-middle :
    (front back : List Jar) (jar : Jar)
    → Every (λ j. IsLower j.domain) (front ++ jar ∷ back)
    → IsLower jar.domain
Every-middle [] back jar h = h.0
Every-middle (j ∷ front) back jar h = Every-middle front back jar h.1

pub found-is_match :
    (heap : Heap) (loc : Place) (d : Bytes) (remove : Bool) (jars : List Jar) (f : Found)
    → IsLower loc.host_name
    → Every (λ j. IsLower j.domain) jars
    → (d ≡ []) ⊎ (in_domain loc.host_name d ≡ true)
    → IsFound loc d jars f
    → is_match loc f.1 ≡ true
found-is_match heap loc d remove jars f h low ok (inr (a, b, e)) =
    rw e (create_jar-is_match loc d h ok)
found-is_match heap loc d remove jars f h low ok (inl (e, own)) =
    is_jar-is_match loc d f.1 h
      (Every-middle f.0 f.2 f.1 (subst (Every (λ j. IsLower j.domain)) e low)) ok own
