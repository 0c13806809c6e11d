-- ===== src/Cookie/Set/Own.antt =====
-- `cookie_set` changes one jar at most, and it is one that `cookie_Jar` looks for.
use mathlib.Core.Path.{subst}
use mathlib.Core.Option.{some-injective}
use highwire.Common.{
  suc, Bool, true, ◌||◌, Option, none, some, List, [], ◌∷◌, ◌++◌, ◌≡◌, refl, sym, ap, ◌∙◌, ◌⊎◌, inl,
  inr, length, Bool-cases, ◌>>=◌, bind-eq-some,
}
use highwire.Common.Every.{Every}
use highwire.Common.Int.{ℤ}
use highwire.Common.Bytes.{Bytes}
use highwire.Cookie.{Jar, Jars, Place, Slots, refuses}
use highwire.Cookie.Attributes.{Attributes, no_attributes, attributes, name_and_value, is_empty}
use highwire.Cookie.Slots.{Heap, Setting, set_slots}
use highwire.Cookie.Set.{
  find_jar, in_domain, Found, check_domain, check_path, set_in, set_unless_dropped, set_checked,
  set_pair, cookie_set,
}
use highwire.Cookie.Set.Safe.{IsFound, find_jar-IsFound, found-is_match, check_domain-allowed}
use highwire.Cookie.Set.Domain.{lower_case-IsLower, IsLower}
use highwire.Cookie.Collect.{is_match}

-- `jars'` is `jars` with one jar, which `cookie_Jar` looks for, given other cookies, or added in front.
pub record Written (loc : Place) (jars jars' : List Jar) : Type 0 where
  pub found : Found
  pub slots : Slots
  pub now : jars' ≡ found.0 ++ record (found.1) { cookies = slots } ∷ found.2
  pub was : (jars ≡ found.0 ++ found.1 ∷ found.2) ⊎ ((found.0 ≡ []) × (found.2 ≡ jars))
  pub matches : is_match loc found.1 ≡ true
  pub lower : Every (λ j. IsLower j.domain) jars'

Every-replaced :
    (front back : List Jar) (jar : Jar) (slots : Slots)
    → Every (λ j. IsLower j.domain) (front ++ jar ∷ back)
    → Every (λ j. IsLower j.domain) (front ++ record jar { cookies = slots } ∷ back)
Every-replaced [] back jar slots h = h
Every-replaced (j ∷ front) back jar slots h = (h.0, Every-replaced front back jar slots h.1)

found-IsLower :
    (loc : Place) (d : Bytes) (jars : List Jar) (f : Found) (slots : Slots)
    → Every (λ j. IsLower j.domain) jars
    → IsFound loc d jars f
    → Every (λ j. IsLower j.domain) (f.0 ++ record (f.1) { cookies = slots } ∷ f.2)
found-IsLower loc d jars f slots low (inl (e, own)) =
    Every-replaced f.0 f.2 f.1 slots (subst (Every (λ j. IsLower j.domain)) e low)
found-IsLower loc d jars f slots low (inr (a, b, c)) = rw (a, b, c) (lower_case-IsLower d, low)

set_in-Written :
    (heap : Heap) (loc : Place) (d : Bytes) (s : Setting) (remove : Bool) (jars jars' : Jars)
    (o : Option Found)
    → IsLower loc.host_name
    → Every (λ j. IsLower j.domain) jars.list
    → (d ≡ []) ⊎ (in_domain loc.host_name d ≡ true)
    → ((f : Found) → o ≡ some f → IsFound loc d jars.list f)
    → set_in heap s remove jars o ≡ some jars'
    → (jars' ≡ jars) ⊎ Written loc jars.list jars'.list
set_in-Written heap loc d s remove jars jars' none h low ok found e =
    inl (sym (some-injective jars jars' e))
set_in-Written heap loc d s remove jars jars' (some f) h low ok found e =
    let (r, done, end) =
      bind-eq-some (set_slots heap s remove f.1.cookies jars.changed)
        (λ r. some record { list = f.0 ++ record (f.1) { cookies = r.0 } ∷ f.2; changed = r.1 })
        e in
    let place = found f refl in
    let now : jars'.list ≡ f.0 ++ record (f.1) { cookies = r.0 } ∷ f.2 =
      ap Jars.list (sym (some-injective _ jars' end)) in
    inr record {
      found = f;
      slots = r.0;
      now = now;
      was = elim place [ inl (e, own) ↦ inl e | inr (a, b, c) ↦ inr (a, b) ];
      matches = found-is_match heap loc d remove jars.list f h low ok place;
      lower =
          subst (Every (λ j. IsLower j.domain)) (sym now)
            (found-IsLower loc d jars.list f r.0 low place);
    }

module _ (heap : Heap) (loc : Place) (jars jars' : Jars) where
  -- Nothing is changed, or one jar is.
  abbrev pub IsSafe : Type 0
  IsSafe = (jars' ≡ jars) ⊎ Written loc jars.list jars'.list

  unless_dropped-IsSafe :
      (pair : Bytes × Bytes) (a : Attributes) (domain : Option Bytes) (path : Option (Option Bytes))
      → IsLower loc.host_name
      → Every (λ j. IsLower j.domain) jars.list
      → ((d : Bytes) → domain ≡ some d → (d ≡ []) ⊎ (in_domain loc.host_name d ≡ true))
      → set_unless_dropped heap loc pair a jars domain path ≡ some jars'
      → IsSafe
  unless_dropped-IsSafe pair a none path h low ok e = inl (sym (some-injective jars jars' e))
  unless_dropped-IsSafe pair a (some d) none h low ok e = inl (sym (some-injective jars jars' e))
  unless_dropped-IsSafe (name, value) a (some d) (some p) h low ok e =
      set_in-Written heap loc d record { name = name; value = value; path = p; expires = a.expires }
        a.remove jars jars' (find_jar heap loc d a.remove jars.list) h low (ok d refl)
        (find_jar-IsFound heap loc d a.remove jars.list) e

  set_checked-IsSafe :
      (pair : Bytes × Bytes) (a : Attributes)
      → IsLower loc.host_name
      → Every (λ j. IsLower j.domain) jars.list
      → set_checked heap loc pair a jars ≡ some jars'
      → IsSafe
  unfolding set_checked
  set_checked-IsSafe pair a h low e =
      unless_dropped-IsSafe pair a (check_domain loc a.domain) (check_path loc a.path) h low
        (check_domain-allowed loc a.domain) e

  set_pair-IsSafe :
      (name value : Bytes) (a : Attributes)
      → IsLower loc.host_name
      → Every (λ j. IsLower j.domain) jars.list
      → set_pair heap loc (name, value) jars a ≡ some jars'
      → IsSafe
  set_pair-IsSafe name value a h low e = elim (Bool-cases (is_empty name || is_empty value)) [
    | inl drops ↦
        let k : set_pair heap loc (name, value) jars a ≡ some jars = rw drops refl in
        inl (some-injective jars' jars (sym e ∙ k))
    | inr full ↦
        let k : set_pair heap loc (name, value) jars a ≡ set_checked heap loc (name, value) a jars =
          rw full refl in
        set_checked-IsSafe (name, value) a h low (sym k ∙ e)
  ]

  -- If `cookie_set` comes to its end, it has changed nothing, or it has changed the cookies of one jar, or
  -- put a new jar in front; and this is a jar from which `cookie_Jar` sends cookies to the same place. The
  -- name of the host and the domains of the jars are in lower case, and the latter stay so.
  pub cookie_set-IsSafe :
      (date : Bytes → ℤ) (str : Bytes) (srvr_date tdiff : ℤ)
      → IsLower loc.host_name
      → Every (λ j. IsLower j.domain) jars.list
      → cookie_set date heap loc str srvr_date tdiff jars ≡ some jars'
      → IsSafe
  unfolding cookie_set
  cookie_set-IsSafe date str srvr_date tdiff h low e =
      let (name, value, rest) = name_and_value str in
      let read = attributes date srvr_date tdiff (suc (length rest)) rest no_attributes in
      let run = cookie_set date heap loc str srvr_date tdiff jars in
      elim (Bool-cases (refuses loc)) [
        | inl drops ↦
            let k : run ≡ some jars = rw (cookie_set, drops) refl in
            inl (some-injective jars' jars (sym e ∙ k))
        | inr takes ↦
            let k : run ≡ (read >>= set_pair heap loc (name, value) jars) =
              rw (cookie_set, takes) refl in
            let (a, done, end) =
              bind-eq-some read (set_pair heap loc (name, value) jars) (sym k ∙ e) in
            set_pair-IsSafe name value a h low end
      ]
