-- ===== src/Location/Store/Kept.antt =====
-- The entries of the lists in the order of the lengths by their names: a name stays, and is found.
use highwire.Common.{
  ℕ, ◌≤◌, true, Option, none, some, List, [], ◌∷◌, ◌≡◌, refl, ap, sym, ◌⊎◌, inl, inr, arith, length,
  ltb, Bool-cases,
}
use highwire.Common.Every.{Every}
use highwire.Common.Bytes.{Bytes}
use highwire.Common.Check.{same_bytes, same_bytes_iff}
use highwire.Location.Store.{inserted, store_equal, store}
use highwire.Location.Store.Interned.{IsAscending}

-- the name is one of the names
abbrev pub Has : Bytes → List Bytes → Type 0
Has n [] = ⊥
Has n (m ∷ ms) = (m ≡ n) ⊎ Has n ms

module _ {A : Type 0} (key : A → Bytes) where
  abbrev pub names : List A → List Bytes
  names [] = []
  names (e ∷ list) = key e ∷ names list

  same-key : (n : Bytes) (e : A) → same_bytes n (key e) ≡ true → key e ≡ n
  same-key n e h = sym ((same_bytes_iff n (key e)).0 h)

  module _ (n : Bytes) (new : Option A) where
    abbrev put_equal : List A → List A × Option A
    put_equal list = store_equal key (λ e. same_bytes n (key e)) (length n) (λ e. e) new list

    abbrev put : List A → List A × Option A
    put list = store key (λ e. same_bytes n (key e)) (length n) (λ e. e) new list

    inserted-keeps :
        (m : Bytes) (o : Option A) (list : List A)
        → Has m (names list)
        → Has m (names (inserted key (λ e. same_bytes n (key e)) (length n) (λ e. e) new o list).0)
    inserted-keeps m none list h = h
    inserted-keeps m (some x) list h = inr h

    equal-keeps :
        (m : Bytes) (list : List A) → Has m (names list) → Has m (names (put_equal list).0)
    unfolding store_equal
    equal-keeps m [] h = absurd h
    equal-keeps m (e ∷ list) h = elim (Bool-cases (ltb (length n) (length (key e)))) [
      | inl longer ↦ rw longer (inserted-keeps m new (e ∷ list) h)
      | inr equal ↦ elim (Bool-cases (same_bytes n (key e))) [
        | inl same ↦ rw (equal, same) h
        | inr other ↦
            rw (equal, other) (elim h [ inl k ↦ inl k | inr k ↦ inr (equal-keeps m list k) ])
      ]
    ]

    -- A name that is in the list stays in it.
    pub store-keeps : (m : Bytes) (list : List A) → Has m (names list) → Has m (names (put list).0)
    unfolding store
    store-keeps m [] h = absurd h
    store-keeps m (e ∷ list) h = elim (Bool-cases (ltb (length (key e)) (length n))) [
      | inl shorter ↦ rw shorter (elim h [ inl k ↦ inl k | inr k ↦ inr (store-keeps m list k) ])
      | inr not_shorter ↦ rw not_shorter (equal-keeps m (e ∷ list) h)
    ]

    bound :
        (k : ℕ) (list : List A)
        → Every (λ f. k ≤ length (key f)) list
        → Has n (names list)
        → k ≤ length n
    bound k [] a h = absurd h
    bound k (e ∷ list) a h = elim h [
      | inl same ↦ rw (sym same) a.0
      | inr later ↦ bound k list a.1 later
    ]

    equal-finds :
        (list : List A)
        → IsAscending key list
        → Has n (names list)
        → (e : A) × (put_equal list ≡ (list, some e)) × (key e ≡ n)
    unfolding store_equal
    equal-finds [] a h = absurd h
    equal-finds (e ∷ list) a h = elim (Bool-cases (ltb (length n) (length (key e)))) [
      | inl longer ↦
          let l = bound (length (key e)) (e ∷ list) (omega arith, a.0) h in
          absurd (ground (arith, l, longer))
      | inr equal ↦ elim (Bool-cases (same_bytes n (key e))) [
        | inl same ↦ (e, rw (equal, same) refl, same-key n e same)
        | inr other ↦ elim h [
          | inl k ↦ absurd (ground (arith, (same_bytes_iff n (key e)).1 (sym k), other))
          | inr k ↦
              let (f, found, named) = equal-finds list a.1 k in
              (f, rw (equal, other, found) refl, named)
        ]
      ]
    ]

    -- A name that is in the list is found, and the list is left as it is.
    pub store-finds :
        (list : List A)
        → IsAscending key list
        → Has n (names list)
        → (e : A) × (put list ≡ (list, some e)) × (key e ≡ n)
    unfolding store
    store-finds [] a h = absurd h
    store-finds (e ∷ list) a h = elim (Bool-cases (ltb (length (key e)) (length n))) [
      | inl shorter ↦ elim h [
        | inl k ↦
            let l : length (key e) ≡ length n = ap length k in absurd (ground (arith, l, shorter))
        | inr k ↦
            let (f, found, named) = store-finds list a.1 k in (f, rw (shorter, found) refl, named)
      ]
      | inr not_shorter ↦
          let (f, found, named) = equal-finds (e ∷ list) a h in (f, rw not_shorter found, named)
    ]

  module _ (n : Bytes) (x : A) (named : key x ≡ n) where
    equal-puts : (list : List A) → Has n (names (put_equal n (some x) list).0)
    unfolding store_equal
    equal-puts [] = inl named
    equal-puts (e ∷ list) = elim (Bool-cases (ltb (length n) (length (key e)))) [
      | inl longer ↦ rw longer (inl named)
      | inr equal ↦ elim (Bool-cases (same_bytes n (key e))) [
        | inl same ↦ rw (equal, same) (inl (same-key n e same))
        | inr other ↦ rw (equal, other) (inr (equal-puts list))
      ]
    ]

    -- With an entry to put, the name is in the list then.
    pub store-puts : (list : List A) → Has n (names (put n (some x) list).0)
    unfolding store
    store-puts [] = inl named
    store-puts (e ∷ list) = elim (Bool-cases (ltb (length (key e)) (length n))) [
      | inl shorter ↦ rw shorter (inr (store-puts list))
      | inr not_shorter ↦ rw not_shorter (equal-puts (e ∷ list))
    ]

  equal-none : (n : Bytes) (list : List A) → (put_equal n none list).0 ≡ list
  unfolding store_equal
  equal-none n [] = refl
  equal-none n (e ∷ list) = ground (arith, equal-none n list)

  -- Without an entry to put, the list stays.
  pub store-none : (n : Bytes) (list : List A) → (put n none list).0 ≡ list
  unfolding store
  store-none n [] = refl
  store-none n (e ∷ list) = ground (arith, store-none n list, equal-none n (e ∷ list))
