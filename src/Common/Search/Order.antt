-- ===== src/Common/Search/Order.antt =====
-- The orders of the tables: that of numbers, and that of `strcmp`.
use Prim.Native.Nat.{compare, Ordering}
use mathlib.Core.Path.{◌≡◌, refl}
use mathlib.Core.List.{[], ◌∷◌}
use native.Mathlib.Omega.{arith}
use highwire.Common.Bytes.{Bytes, strcmp, strncmp}
use highwire.Common.Lists.{length, drop}

-- A three-way comparison that is a strict total order.
pub record IsOrder {ℓ} {K : Type ℓ} (cmp : K → K → Ordering) : Type ℓ where
  pub same : (a : K) → cmp a a ≡ Ordering.eq
  pub equal : (a b : K) → cmp a b ≡ Ordering.eq → a ≡ b
  pub flip : (a b : K) → cmp a b ≡ Ordering.lt → cmp b a ≡ Ordering.gt
  pub chain : (a b c : K) → cmp a b ≡ Ordering.lt → cmp b c ≡ Ordering.lt → cmp a c ≡ Ordering.lt

pub compare-IsOrder : IsOrder compare
compare-IsOrder = record {
  same = λ a. ground arith;
  equal = λ a b h. ground arith;
  flip = λ a b h. ground arith;
  chain = λ a b c h k. ground arith;
}

strcmp_same : (s : Bytes) → strcmp s s ≡ Ordering.eq
unfolding strcmp
strcmp_same [] = refl
strcmp_same (c ∷ s) = ground (arith, strcmp_same s)

pub strcmp_equal : (s t : Bytes) → strcmp s t ≡ Ordering.eq → s ≡ t
unfolding strcmp
strcmp_equal [] [] h = refl
strcmp_equal [] (d ∷ t) h = cc
strcmp_equal (c ∷ s) [] h = cc
strcmp_equal (c ∷ s) (d ∷ t) h = ground (arith, strcmp_equal s t)

strcmp_flip : (s t : Bytes) → strcmp s t ≡ Ordering.lt → strcmp t s ≡ Ordering.gt
unfolding strcmp
strcmp_flip [] [] h = cc
strcmp_flip [] (d ∷ t) h = refl
strcmp_flip (c ∷ s) [] h = cc
strcmp_flip (c ∷ s) (d ∷ t) h = ground (arith, strcmp_flip s t)

strcmp_chain :
    (s t u : Bytes) → strcmp s t ≡ Ordering.lt → strcmp t u ≡ Ordering.lt → strcmp s u ≡ Ordering.lt
unfolding strcmp
strcmp_chain [] [] u h k = cc
strcmp_chain [] (d ∷ t) [] h k = cc
strcmp_chain [] (d ∷ t) (e ∷ u) h k = refl
strcmp_chain (c ∷ s) [] u h k = cc
strcmp_chain (c ∷ s) (d ∷ t) [] h k = cc
strcmp_chain (c ∷ s) (d ∷ t) (e ∷ u) h k = ground (arith, strcmp_chain s t u)

pub strcmp-IsOrder : IsOrder strcmp
strcmp-IsOrder = record {
  same = strcmp_same;
  equal = strcmp_equal;
  flip = strcmp_flip;
  chain = strcmp_chain;
}

-- A scanner compares the `n` bytes of its word by `strncmp`, and then asks whether the name ends
-- there: `d = strncmp (buf, name, n); if (d > 0) .. else if (d || name[n]) .. else ..`.
unfoldable pub word_order : Bytes → Bytes → Ordering
unfolding strncmp
word_order word name = elim (strncmp word name (length word)) [
  | Ordering.gt ↦ Ordering.gt
  | Ordering.lt ↦ Ordering.lt
  | Ordering.eq ↦ elim (drop (length word) name) [ [] ↦ Ordering.eq | c ∷ more ↦ Ordering.lt ]
]

-- That test orders the word and the name as `strcmp` does.
pub word_order-eq-strcmp : (word name : Bytes) → word_order word name ≡ strcmp word name
unfolding word_order strcmp
word_order-eq-strcmp [] [] = refl
word_order-eq-strcmp [] (d ∷ t) = refl
word_order-eq-strcmp (c ∷ s) [] = refl
word_order-eq-strcmp (c ∷ s) (d ∷ t) = ground (arith, word_order-eq-strcmp s t)
