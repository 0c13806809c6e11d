-- ===== src/Cookie/Collect/Expired.antt =====
-- The loop of `cookie_Jar` over one jar: what it takes out of a jar and what it collects.
use highwire.Common.{
  ℕ, zero, suc, ◌≤◌, ◌<◌, Bool, true, false, ◌||◌, some, List, [], ◌∷◌, ◌≡◌, refl, ◌⊎◌, inl, inr,
  arith, length, if◌then◌else◌, Bool-cases,
}
use highwire.Common.Int.{ℤ}
use highwire.Common.Bytes.{Bytes}
use highwire.Cookie.{Cookie}
use highwire.Cookie.Collect.{is_expired, is_under, add, collect}
use highwire.Cookie.Slots.Packed.{packed, destroy_cookie-packed}

abbrev pub live : ℤ → List Cookie → List Cookie
live now [] = []
live now (c ∷ cs) = let rest = live now cs in if is_expired now c then rest else c ∷ rest

abbrev pub some_expired : ℤ → List Cookie → Bool
some_expired now [] = false
some_expired now (c ∷ cs) = is_expired now c || some_expired now cs

abbrev pub under : Bytes → List Cookie → List Cookie
under path [] = []
under path (c ∷ cs) = let rest = under path cs in if is_under path c then c ∷ rest else rest

abbrev pub add_all : List Cookie → List Cookie → List Cookie
add_all [] set = set
add_all (c ∷ cs) set = add_all cs (add c set)

-- a place is free, or no cookie is taken out
abbrev pub IsRoomy : ℤ → ℕ → List Cookie → Type 0
IsRoomy now n cs = (length cs ≤ n) × ((length cs < n) ⊎ (some_expired now cs ≡ false))

IsRoomy-dead :
    (now : ℤ) (n : ℕ) (c : Cookie) (cs : List Cookie)
    → is_expired now c ≡ true
    → IsRoomy now n (c ∷ cs)
    → suc (length cs) < n
IsRoomy-dead now n c cs dead (l, inl s) = s
IsRoomy-dead now n c cs dead (l, inr e) = ground (arith, dead, e)

IsRoomy-removed :
    (now : ℤ) (n : ℕ) (c : Cookie) (cs : List Cookie) → suc (length cs) < n → IsRoomy now n cs
IsRoomy-removed now n c cs l = (omega arith, inl (omega arith))

IsRoomy-behind :
    (now : ℤ) (n : ℕ) (c : Cookie) (cs : List Cookie)
    → is_expired now c ≡ false
    → IsRoomy now (suc n) (c ∷ cs)
    → IsRoomy now n cs
IsRoomy-behind now n c cs lives (l, inl s) = (omega arith, inl (omega arith))
IsRoomy-behind now n c cs lives (l, inr e) = (omega arith, inr (ground (arith, lives, e)))

-- the loop's result from a place with `n` places left
abbrev Collects : ℤ → Bytes → ℕ → ℕ → List Cookie → List Cookie → Bool → Type 0
Collects now path fuel n cs set changed =
    collect now path fuel n (packed n cs) set changed
    ≡ some (
      packed n (live now cs),
      add_all (under path (live now cs)) set,
      some_expired now cs || changed,
    )

Collects-live :
    (now : ℤ) (path : Bytes) (fuel n : ℕ) (c : Cookie) (cs set : List Cookie) (changed : Bool)
    → is_expired now c ≡ false
    → length cs ≤ n
    → ((s : List Cookie) → Collects now path fuel n cs s changed)
    → Collects now path (suc fuel) (suc n) (c ∷ cs) set changed
unfolding collect packed
Collects-live now path fuel zero c [] set changed lives l ends =
    elim (Bool-cases (is_under path c)) [
      | inl stands ↦ rw (lives, stands) refl
      | inr other ↦ rw (lives, other) refl
    ]
Collects-live now path fuel zero c (d ∷ cs) set changed lives l ends = absurd (omega arith)
Collects-live now path fuel (suc n) c cs set changed lives l ends =
    elim (Bool-cases (is_under path c)) [
      | inl stands ↦ ground (arith, lives, stands, ends (add c set))
      | inr other ↦ ground (arith, lives, other, ends set)
    ]

-- From a place with `n` places left, the loop ends with fuel for the cookies there. It takes out the
-- expired cookies and collects those of the others that stand for the path.
pub collect-packed :
    (now : ℤ) (path : Bytes) (fuel n : ℕ) (cs set : List Cookie) (changed : Bool)
    → length cs < fuel
    → IsRoomy now n cs
    → Collects now path fuel n cs set changed
unfolding collect packed
collect-packed now path zero n cs set changed f r = absurd (omega arith)
collect-packed now path (suc fuel) zero [] set changed f r = refl
collect-packed now path (suc fuel) zero (c ∷ cs) set changed f r = absurd (omega (arith, r.0))
collect-packed now path (suc fuel) (suc n) [] set changed f r = refl
collect-packed now path (suc fuel) (suc n) (c ∷ cs) set changed f r =
    elim (Bool-cases (is_expired now c)) [
      | inl dead ↦
          let l = IsRoomy-dead now (suc n) c cs dead r in
          ground (
            arith,
            dead,
            destroy_cookie-packed (suc n) n c cs (omega arith) (omega arith),
            collect-packed now path fuel (suc n) cs set true (omega arith)
                (IsRoomy-removed now (suc n) c cs l),
          )
      | inr lives ↦
          let r' = IsRoomy-behind now n c cs lives r in
          Collects-live now path fuel n c cs set changed lives r'.0
            (λ s. collect-packed now path fuel n cs s changed (omega arith) r')
    ]
