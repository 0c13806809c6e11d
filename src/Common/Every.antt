-- ===== src/Common/Every.antt =====
-- Lists all of whose elements have a property, and facts on their fronts and ends.
use mathlib.Core.List.{List, [], ◌∷◌, ◌++◌, reverse, reverse-cons}
use mathlib.Core.Path.{◌≡◌, refl, sym, ap, ◌∙◌, subst}
use mathlib.Core.Logic.{◌⊎◌, inl, inr}
use mathlib.Core.Bool.{Bool, true, false}
use Prim.Native.Nat.{ℕ, zero, suc, ◌-◌, ◌≤◌}
use native.Mathlib.Omega.{arith}
use highwire.Common.Lists.{length, length-append, take, drop, span}

module _ {ℓ} {A : Type ℓ} where
  abbrev pub Every : (A → Type 0) → List A → Type 0
  Every P [] = Unit
  Every P (x ∷ xs) = P x × Every P xs

  pub Every-append :
      (P : A → Type 0) (xs ys : List A) → Every P xs → Every P ys → Every P (xs ++ ys)
  Every-append P [] ys h k = k
  Every-append P (x ∷ xs) ys h k = (h.0, Every-append P xs ys h.1 k)

  pub Every-reverse : (P : A → Type 0) (xs : List A) → Every P xs → Every P (reverse xs)
  Every-reverse P [] h = h
  Every-reverse P (x ∷ xs) h =
      subst (Every P) (sym (reverse-cons x xs))
        (Every-append P (reverse xs) (x ∷ []) (Every-reverse P xs h.1) (h.0, tt))

  -- a list is empty or has a last element
  pub last-cases : (xs : List A) → (xs ≡ []) ⊎ ((x : A) × (front : List A) × (xs ≡ front ++ x ∷ []))
  last-cases [] = inl refl
  last-cases (x ∷ xs) = elim (last-cases xs) [
    | inl e ↦ inr (x, [], ap (◌∷◌ x) e)
    | inr (y, front, e) ↦ inr (y, x ∷ front, ap (◌∷◌ x) e)
  ]

  pub length-reverse : (xs : List A) → length (reverse xs) ≡ length xs
  length-reverse [] = refl
  length-reverse (x ∷ xs) =
      ap length (reverse-cons x xs)
      ∙ omega (arith, length-append (reverse xs) (x ∷ []), length-reverse xs)

  pub take-all : (n : ℕ) (xs : List A) → length xs ≤ n → take n xs ≡ xs
  take-all zero [] l = refl
  take-all zero (x ∷ xs) l = absurd (omega arith)
  take-all (suc n) [] l = refl
  take-all (suc n) (x ∷ xs) l = ap (◌∷◌ x) (take-all n xs (omega arith))

  pub take-append : (n : ℕ) (xs ys : List A) → length xs ≡ n → take n (xs ++ ys) ≡ xs
  take-append zero [] ys l = refl
  take-append zero (x ∷ xs) ys l = absurd (omega (arith, l))
  take-append (suc n) [] ys l = absurd (omega (arith, l))
  take-append (suc n) (x ∷ xs) ys l = ap (◌∷◌ x) (take-append n xs ys (omega arith))

  pub length-take : (n : ℕ) (xs : List A) → length (take n xs) ≤ n
  length-take zero xs = omega arith
  length-take (suc n) [] = omega arith
  length-take (suc n) (x ∷ xs) = omega (arith, length-take n xs)

  pub Every-drop : (P : A → Type 0) (n : ℕ) (xs : List A) → Every P xs → Every P (drop n xs)
  Every-drop P zero xs h = h
  Every-drop P (suc n) [] h = tt
  Every-drop P (suc n) (x ∷ xs) h = Every-drop P n xs h.1

  pub length-drop : (n : ℕ) (xs : List A) → length (drop n xs) ≡ length xs - n
  length-drop zero xs = omega arith
  length-drop (suc n) [] = omega arith
  length-drop (suc n) (x ∷ xs) = omega (arith, length-drop n xs)

  -- where the test holds of all
  pub span-all : (p : A → Bool) (xs : List A) → Every (λ x. p x ≡ true) xs → span p xs ≡ (xs, [])
  unfolding span
  span-all p [] h = refl
  span-all p (x ∷ xs) h = rw (h.0, span-all p xs h.1) refl

  -- where the test holds of a front and not of what follows
  pub span-stop :
      (p : A → Bool) (xs : List A) (y : A) (ys : List A)
      → Every (λ x. p x ≡ true) xs
      → p y ≡ false
      → span p (xs ++ y ∷ ys) ≡ (xs, y ∷ ys)
  unfolding span
  span-stop p [] y ys h e = rw e refl
  span-stop p (x ∷ xs) y ys h e = rw (h.0, span-stop p xs y ys h.1 e) refl

  -- what stops the test
  pub span-rest :
      (p : A → Bool) (xs : List A) (y : A) (ys : List A) → (span p xs).1 ≡ y ∷ ys → p y ≡ false
  unfolding span
  span-rest p [] y ys e = cc
  span-rest p (x ∷ xs) y ys e = ground (arith, e, span-rest p xs y ys)
