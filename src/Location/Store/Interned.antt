-- ===== src/Location/Store/Interned.antt =====
-- The lists in the order of the lengths: what `store` keeps, and what it finds again.
use highwire.Common.{
  ℕ, ◌≤◌, Bool, Option, some, List, [], ◌∷◌, inl, inr, arith, length, ltb, Bool-cases,
}
use highwire.Common.Every.{Every}
use highwire.Common.Bytes.{Bytes}
use highwire.Location.Store.{store_equal, store}

module _ {A : Type 0} (key : A → Bytes) where
  -- the lengths ascend
  abbrev pub IsAscending : List A → Type 0
  IsAscending [] = Unit
  IsAscending (e ∷ list) = Every (λ f. length (key e) ≤ length (key f)) list × IsAscending list

  Every-from :
      (n m : ℕ) (list : List A)
      → n ≤ m
      → Every (λ f. m ≤ length (key f)) list
      → Every (λ f. n ≤ length (key f)) list
  Every-from n m [] l h = tt
  Every-from n m (e ∷ list) l h = (omega (arith, h.0), Every-from n m list l h.1)

  module _ (test : A → Bool) (x : A) where
    -- entries that are not shorter than the new one
    abbrev NotShorter : List A → Type 0
    NotShorter list = Every (λ f. length (key x) ≤ length (key f)) list

    abbrev put_equal : List A → List A × Option A
    put_equal list = store_equal key test (length (key x)) (λ e. e) (some x) list

    abbrev pub put : List A → List A × Option A
    put list = store key test (length (key x)) (λ e. e) (some x) list

    Every-equal :
        (n : ℕ) (list : List A)
        → n ≤ length (key x)
        → Every (λ f. n ≤ length (key f)) list
        → Every (λ f. n ≤ length (key f)) (put_equal list).0
    unfolding store_equal
    Every-equal n [] l h = (l, tt)
    Every-equal n (e ∷ list) l h = elim (Bool-cases (ltb (length (key x)) (length (key e)))) [
      | inl longer ↦ rw (store_equal, longer) (l, h)
      | inr equal ↦ elim (Bool-cases (test e)) [
        | inl same ↦ rw (store_equal, equal, same) h
        | inr other ↦ rw (store_equal, equal, other) (h.0, Every-equal n list l h.1)
      ]
    ]

    Every-store :
        (n : ℕ) (list : List A)
        → n ≤ length (key x)
        → Every (λ f. n ≤ length (key f)) list
        → Every (λ f. n ≤ length (key f)) (put list).0
    unfolding store
    Every-store n [] l h = (l, tt)
    Every-store n (e ∷ list) l h = elim (Bool-cases (ltb (length (key e)) (length (key x)))) [
      | inl shorter ↦ rw (store, shorter) (h.0, Every-store n list l h.1)
      | inr not_shorter ↦ rw (store, not_shorter) (Every-equal n (e ∷ list) l h)
    ]

    equal-IsAscending :
        (list : List A) → NotShorter list → IsAscending list → IsAscending (put_equal list).0
    unfolding store_equal
    equal-IsAscending [] n h = (tt, tt)
    equal-IsAscending (e ∷ list) n h = elim (Bool-cases (ltb (length (key x)) (length (key e)))) [
      | inl longer ↦ rw (store_equal, longer) (n, h)
      | inr equal ↦ elim (Bool-cases (test e)) [
        | inl same ↦ rw (store_equal, equal, same) h
        | inr other ↦
            let l : length (key e) ≤ length (key x) = ground (arith, equal) in
            rw (store_equal, equal, other)
              (Every-equal (length (key e)) list l h.0, equal-IsAscending list n.1 h.1)
      ]
    ]

    -- The lengths still ascend.
    pub store-IsAscending : (list : List A) → IsAscending list → IsAscending (put list).0
    unfolding store
    store-IsAscending [] h = (tt, tt)
    store-IsAscending (e ∷ list) h = elim (Bool-cases (ltb (length (key e)) (length (key x)))) [
      | inl shorter ↦
          let l : length (key e) ≤ length (key x) = ground (arith, shorter) in
          rw (store, shorter) (Every-store (length (key e)) list l h.0, store-IsAscending list h.1)
      | inr not_shorter ↦
          let l : length (key x) ≤ length (key e) = ground (arith, not_shorter) in
          rw (store, not_shorter)
            (equal-IsAscending (e ∷ list)
              (l, Every-from (length (key x)) (length (key e)) list l h.0) h)
    ]
