-- ===== src/Location/Domains/Missed.antt =====
-- `location_DBdomain` looks for the text behind the name, not for the name.
use highwire.Common.{
  ℕ, zero, suc, ◌≤◌, Bool, true, false, Option, none, some, List, [], ◌∷◌, ◌≡◌, refl, ap, ◌∙◌,
  arith, length, take, ltb,
}
use mathlib.Core.Option.{none-ne-some}
use highwire.Common.Every.{Every}
use highwire.Common.Bytes.{Bytes, head_byte}
use highwire.Common.Check.{same_bytes}
use highwire.Location.{Domain, Base, limit, read_name, is_name_byte, changed_flags}
use highwire.Location.Store.{store_equal, store}
use highwire.Location.Domains.{
  skip_dots, sets_flags, new_domain, is_entry, domain_store, with_domain, location_db_domain,
}

-- a name that begins as names do
abbrev pub IsNamed : Domain → Type 0
IsNamed d = is_name_byte (head_byte d.name) ≡ true

same_bytes-head :
    (s t : Bytes)
    → is_name_byte (head_byte s) ≡ false
    → is_name_byte (head_byte t) ≡ true
    → same_bytes s t ≡ false
unfolding same_bytes
same_bytes-head s [] h k = ground (arith, k)
same_bytes-head [] (d ∷ t) h k = refl
same_bytes-head (c ∷ s) (d ∷ t) h k = ground (arith, h, k)

head_byte-take :
    (n : ℕ) (s : Bytes)
    → is_name_byte (head_byte s) ≡ false
    → is_name_byte (head_byte (take n s)) ≡ false
head_byte-take zero s h = refl
head_byte-take (suc n) [] h = refl
head_byte-take (suc n) (c ∷ s) h = h

Every-missed :
    (rest : Bytes) (len : ℕ) (domains : List Domain)
    → is_name_byte (head_byte rest) ≡ false
    → Every IsNamed domains
    → Every (λ d. is_entry rest len d ≡ false) domains
Every-missed rest len [] h k = tt
Every-missed rest len (d ∷ domains) h k = (
  same_bytes-head (take len rest) d.name (head_byte-take len rest h) k.0,
  Every-missed rest len domains h k.1,
)

module _ {A : Type 0} (key : A → Bytes) (test : A → Bool) (len : ℕ) (touch : A → A) where
  store_equal-none :
      (list : List A)
      → Every (λ e. test e ≡ false) list
      → store_equal key test len touch none list ≡ (list, none)
  unfolding store_equal
  store_equal-none [] h = refl
  store_equal-none (e ∷ list) h = ground (arith, h.0, store_equal-none list h.1)

  store-none :
      (list : List A)
      → Every (λ e. test e ≡ false) list
      → store key test len touch none list ≡ (list, none)
  unfolding store
  store-none [] h = refl
  store-none (e ∷ list) h = ground (arith, h.0, store-none list h.1, store_equal-none (e ∷ list) h)

  store_equal-length :
      (x : A) (list : List A)
      → Every (λ e. test e ≡ false) list
      → length (store_equal key test len touch (some x) list).0 ≡ suc (length list)
  unfolding store_equal
  store_equal-length x [] h = refl
  store_equal-length x (e ∷ list) h = ground (arith, h.0, store_equal-length x list h.1)

  store-length :
      (x : A) (list : List A)
      → Every (λ e. test e ≡ false) list
      → length (store key test len touch (some x) list).0 ≡ suc (length list)
  unfolding store
  store-length x [] h = refl
  store-length x (e ∷ list) h =
      ground (arith, h.0, store-length x list h.1, store_equal-length x (e ∷ list) h)

  store_equal-new :
      (x : A) (list : List A)
      → Every (λ e. test e ≡ false) list
      → (store_equal key test len touch (some x) list).1 ≡ some x
  unfolding store_equal
  store_equal-new x [] h = refl
  store_equal-new x (e ∷ list) h = ground (arith, h.0, store_equal-new x list h.1)

  store-new :
      (x : A) (list : List A)
      → Every (λ e. test e ≡ false) list
      → (store key test len touch (some x) list).1 ≡ some x
  unfolding store
  store-new x [] h = refl
  store-new x (e ∷ list) h =
      ground (arith, h.0, store-new x list h.1, store_equal-new x (e ∷ list) h)

with_domain-domains :
    (base : Base) (p : List Domain × Option Domain) (d : Domain)
    → p.1 ≡ some d
    → (with_domain base p).0.domains ≡ p.0
with_domain-domains base (domains, none) d e = absurd (none-ne-some d e)
with_domain-domains base (domains, some f) d e = refl

-- what `location_DBdomain` reads: the name, and the text behind it
abbrev pub read_domain : ℕ → Bytes → Bytes × Bytes
read_domain max_len s = let (m, t) = skip_dots max_len s in read_name (limit m) t

module _ (s : Bytes) (max_len flags : ℕ) (base : Base) where
  abbrev name_read : Bytes
  name_read = (read_domain max_len s).0

  abbrev behind_read : Bytes
  behind_read = (read_domain max_len s).1

  -- no stored domain is the text behind the name
  abbrev AllMissed : Type 0
  AllMissed = Every (λ d. is_entry behind_read (length name_read) d ≡ false) base.domains

  db_domain-store :
      2 ≤ length name_read
      → location_db_domain true s max_len flags base
        ≡ with_domain base (domain_store true flags name_read behind_read base.domains)
  unfolding location_db_domain
  db_domain-store l =
      let long : ltb (length name_read) 2 ≡ false = ground (arith, l) in
      rw (location_db_domain, long) refl

  db_domain-asked :
      2 ≤ length name_read
      → flags ≡ 0
      → AllMissed
      → location_db_domain true s max_len flags base ≡ (base, 0, none)
  db_domain-asked l asks misses =
      let touch = λ (d : Domain). record d { flags = changed_flags flags d.flags } in
      let none_new : new_domain true flags name_read ≡ none = rw asks refl in
      db_domain-store l
      ∙ ap
          (λ o. with_domain base (
            store (λ (d : Domain). d.name) (is_entry behind_read (length name_read))
              (length name_read) touch o base.domains))
          none_new
      ∙ ap (with_domain base) (
          store-none (λ (d : Domain). d.name) (is_entry behind_read (length name_read))
            (length name_read) touch base.domains misses)

  db_domain-again :
      2 ≤ length name_read
      → sets_flags flags ≡ true
      → AllMissed
      → length (location_db_domain true s max_len flags base).0.domains ≡ suc (length base.domains)
  db_domain-again l wanted misses =
      let touch = λ (d : Domain). record d { flags = changed_flags flags d.flags } in
      let x : Domain = record { flags = changed_flags flags 0; name = name_read } in
      let new : new_domain true flags name_read ≡ some x = rw wanted refl in
      let put = λ (o : Option Domain).
        store (λ (d : Domain). d.name) (is_entry behind_read (length name_read)) (length name_read)
          touch o base.domains in
      let last =
        store-new (λ (d : Domain). d.name) (is_entry behind_read (length name_read))
          (length name_read) touch x base.domains misses in
      ap (λ r. length r.0.domains) (db_domain-store l ∙ ap (λ o. with_domain base (put o)) new)
      ∙ ap length (with_domain-domains base (put (some x)) x last)
      ∙ store-length (λ (d : Domain). d.name) (is_entry behind_read (length name_read))
          (length name_read) touch x base.domains misses

-- If a name of two bytes at least is read to its end, no stored domain is found: flags of 0, which only
-- ask, give NULL whatever is stored, and flags to set give a new entry each time, whatever the name. The
-- stored names begin as names do, and there is memory.
pub location_db_domain_missed :
    (s : Bytes) (max_len flags : ℕ) (base : Base)
    → 2 ≤ length (read_domain max_len s).0
    → is_name_byte (head_byte (read_domain max_len s).1) ≡ false
    → Every IsNamed base.domains
    → sets_flags flags ≡ true
    → (location_db_domain true s max_len 0 base ≡ (base, 0, none))
      × (length (location_db_domain true s max_len flags base).0.domains
          ≡ suc (length base.domains))
location_db_domain_missed s max_len flags base l h k wanted =
    let (name, rest) = read_domain max_len s in
    let misses = Every-missed rest (length name) base.domains h k in
    (
      db_domain-asked s max_len 0 base l refl misses,
      db_domain-again s max_len flags base l wanted misses,
    )
