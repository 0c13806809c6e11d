-- ===== src/Common/Search/Table.antt =====
-- In an ascending table the binary search finds what a walk over the table finds.
use Prim.Native.Nat.{ℕ, zero, suc, ◌<◌, Ordering}
use mathlib.Core.Path.{◌≡◌, refl, sym}
use mathlib.Core.Logic.{◌⊎◌, inl, inr}
use mathlib.Core.Bool.{Bool, true, false, ◌&&◌}
use mathlib.Core.List.{List, [], ◌∷◌}
use mathlib.Core.Option.{Option, none, some}
use native.Mathlib.Omega.{arith}
use highwire.Common.Compare.{Bool-cases, Option-cases}
use highwire.Common.Lists.{length, get_or}
use highwire.Common.Search.{chop, chop_sound, chop_complete, IsMonotone}
use highwire.Common.Search.Order.{IsOrder}

abbrev is_lt : Ordering → Bool
is_lt Ordering.lt = true
is_lt _ = false

abbrev is_eq : Ordering → Bool
is_eq Ordering.eq = true
is_eq _ = false

-- The entries of a table are pairs of a key and a value; `d` is read past its end.
module _ {ℓ} {K V : Type ℓ} where
  -- every key is below the next one
  unfoldable pub ascending : (K → K → Ordering) → List (K × V) → Bool
  ascending cmp [] = true
  ascending cmp (e ∷ []) = true
  ascending cmp (e ∷ f ∷ tab) = is_lt (cmp e.0 f.0) && ascending cmp (f ∷ tab)

  -- the walk: the value behind the first key that is equal
  unfoldable pub find : (K → K → Ordering) → K → List (K × V) → Option V
  find cmp key [] = none
  find cmp key (e ∷ tab) = elim (cmp key e.0) [ Ordering.eq ↦ some e.1 | _ ↦ find cmp key tab ]

  -- the binary search
  unfoldable pub search_table : (K → K → Ordering) → K × V → K → List (K × V) → Option V
  unfolding chop
  search_table cmp d key tab =
      elim (chop (λ i. cmp key (get_or tab i d).0) (length tab) 0 (length tab)) [
        | none ↦ none
        | some k ↦ some (get_or tab k d).1
      ]

module _ {ℓ} {K V : Type ℓ} (cmp : K → K → Ordering) (ord : IsOrder cmp) (d : K × V) where
  ascending-head :
      (e : K × V) (tab : List (K × V)) (j : ℕ)
      → ascending cmp (e ∷ tab) ≡ true
      → j < length tab
      → cmp e.0 (get_or tab j d).0 ≡ Ordering.lt
  unfolding ascending
  ascending-head e [] j h l = absurd (omega arith)
  ascending-head e (f ∷ tab) zero h l = ground arith
  ascending-head e (f ∷ tab) (suc j) h l =
      ground (arith, ascending-head f tab j, ord.chain e.0 f.0 (get_or tab j d).0)

  ascending-get_or :
      (tab : List (K × V)) (i j : ℕ)
      → ascending cmp tab ≡ true
      → i < j
      → j < length tab
      → cmp (get_or tab i d).0 (get_or tab j d).0 ≡ Ordering.lt
  unfolding ascending
  ascending-get_or [] i j h l m = absurd (omega arith)
  ascending-get_or (e ∷ tab) i zero h l m = absurd (omega arith)
  ascending-get_or (e ∷ tab) zero (suc j) h l m = ascending-head e tab j h (omega arith)
  ascending-get_or (e ∷ []) (suc i) (suc j) h l m = absurd (omega arith)
  ascending-get_or (e ∷ f ∷ tab) (suc i) (suc j) h l m =
      ascending-get_or (f ∷ tab) i j (ground arith) (omega arith) (omega arith)

  order-IsMonotone :
      (key : K) (tab : List (K × V))
      → ascending cmp tab ≡ true
      → IsMonotone (λ i. cmp key (get_or tab i d).0) (length tab)
  order-IsMonotone key tab h = record {
    up = λ i j l m e.
        rw (ord.equal key (get_or tab j d).0 e)
          (ord.flip (get_or tab i d).0 (get_or tab j d).0 (ascending-get_or tab i j h l m));
    down = λ i j l m e. rw (ord.equal key (get_or tab i d).0 e) (ascending-get_or tab i j h l m);
  }

  -- what the walk tells: the entry that it found, or that there is none
  find-cases :
      (key : K) (tab : List (K × V))
      → ((k : ℕ) × (k < length tab)
          × (cmp key (get_or tab k d).0 ≡ Ordering.eq)
          × (find cmp key tab ≡ some (get_or tab k d).1))
        ⊎ ((find cmp key tab ≡ none)
            × ((k : ℕ) → k < length tab → cmp key (get_or tab k d).0 ≡ Ordering.eq → ⊥))
  unfolding find
  find-cases key [] = inr (refl, λ k l e. omega arith)
  find-cases key (e ∷ tab) = elim (Bool-cases (is_eq (cmp key e.0))) [
    | inl same ↦ inl (0, omega arith, ground arith, ground arith)
    | inr differ ↦ elim (find-cases key tab) [
      | inl (k, l, same, found) ↦ inl (suc k, omega arith, same, ground arith)
      | inr (missed, differs) ↦ inr (ground arith, λ k. none_at k differs differ)
    ]
  ]
    where
      none_at :
          (k : ℕ)
          → ((k : ℕ) → k < length tab → cmp key (get_or tab k d).0 ≡ Ordering.eq → ⊥)
          → is_eq (cmp key e.0) ≡ false
          → k < length (e ∷ tab)
          → cmp key (get_or (e ∷ tab) k d).0 ≡ Ordering.eq
          → ⊥
      none_at zero differs differ l same = ground arith
      none_at (suc k) differs differ l same = differs k (omega arith) same

  -- For every key, on a table that is not empty.
  pub search_table-eq-find :
      (key : K) (tab : List (K × V))
      → ascending cmp tab ≡ true
      → 0 < length tab
      → search_table cmp d key tab ≡ find cmp key tab
  unfolding search_table
  search_table-eq-find key tab h p = elim (find-cases key tab) [
    | inl (k, l, same, found) ↦
        let m = order-IsMonotone key tab h in
        let hit : chop order n 0 n ≡ some k =
          chop_complete order n n 0 n k m (omega arith) (omega arith) (omega arith) l same in
        rw (hit, search_table) (sym found)
    | inr (missed, differs) ↦ elim (Option-cases (chop order n 0 n)) [
      | inl miss ↦ rw (miss, search_table) (sym missed)
      | inr (k, hit) ↦ let s = chop_sound order n 0 n k p hit in absurd (differs k s.1 s.0)
    ]
  ]
    where
      n : ℕ
      n = length tab

      order : ℕ → Ordering
      order i = cmp key (get_or tab i d).0
