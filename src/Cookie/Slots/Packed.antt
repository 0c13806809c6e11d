-- ===== src/Cookie/Slots/Packed.antt =====
-- The array of a jar as a list of cookies: `destroy_cookie` and `search` on it.
use highwire.Common.{
  ℕ, zero, suc, ◌≤◌, Bool, true, false, Option, none, some, List, [], ◌∷◌, ◌≡◌, refl, ap, inl, inr,
  arith, length, take, if◌then◌else◌, Bool-cases,
}
use highwire.Common.Bytes.{Bytes}
use highwire.Cookie.{Cookie, Slots, destroy_cookie}
use highwire.Cookie.Slots.{is_same, search}

-- the array of `n` places that holds the cookies, as many as fit
unfoldable pub packed : ℕ → List Cookie → Slots
packed zero cs = []
packed (suc n) [] = none ∷ packed n []
packed (suc n) (c ∷ cs) = some c ∷ packed n cs

destroy_cookie-empty : (n k : ℕ) → k ≤ n → destroy_cookie (packed n []) k ≡ packed n []
unfolding destroy_cookie packed
destroy_cookie-empty zero k l = refl
destroy_cookie-empty (suc zero) zero l = refl
destroy_cookie-empty (suc zero) (suc zero) l = refl
destroy_cookie-empty (suc zero) (suc (suc k)) l = absurd (omega arith)
destroy_cookie-empty (suc (suc n)) zero l = refl
destroy_cookie-empty (suc (suc n)) (suc zero) l = refl
destroy_cookie-empty (suc (suc n)) (suc (suc k)) l =
    ap (◌∷◌ none) (destroy_cookie-empty (suc n) (suc k) (omega arith))

-- A cookie is taken out if the count reaches from it to the last cookie.
pub destroy_cookie-packed :
    (n k : ℕ) (c : Cookie) (cs : List Cookie)
    → suc (length cs) ≤ k
    → k ≤ n
    → destroy_cookie (packed n (c ∷ cs)) k ≡ packed n cs
unfolding destroy_cookie packed
destroy_cookie-packed zero k c cs h l = absurd (omega arith)
destroy_cookie-packed (suc n) zero c cs h l = absurd (omega arith)
destroy_cookie-packed (suc zero) (suc zero) c [] h l = refl
destroy_cookie-packed (suc (suc n)) (suc zero) c [] h l = refl
destroy_cookie-packed (suc n) (suc zero) c (d ∷ cs) h l = absurd (omega arith)
destroy_cookie-packed (suc zero) (suc (suc k)) c cs h l = absurd (omega arith)
destroy_cookie-packed (suc (suc n)) (suc (suc k)) c [] h l =
    ap (◌∷◌ none) (destroy_cookie-empty (suc n) (suc k) (omega arith))
destroy_cookie-packed (suc (suc n)) (suc (suc k)) c (d ∷ cs) h l =
    ap (◌∷◌ (some d)) (destroy_cookie-packed (suc n) (suc k) d cs (omega arith) (omega arith))

module _ (name : Bytes) (path : Option Bytes) where
  unfoldable pub picks : Cookie → Bool
  picks c = elim (is_same name path c) [ none ↦ false | some b ↦ b ]

  -- no comparison follows a NULL
  abbrev pub IsComparable : List Cookie → Type 0
  IsComparable [] = Unit
  IsComparable (c ∷ cs) = (is_same name path c ≡ some (picks c)) × IsComparable cs

  -- the first cookie of that name and path
  abbrev pub find : List Cookie → Option Cookie
  find [] = none
  find (c ∷ cs) = let rest = find cs in if picks c then some c else rest

  abbrev pub without : List Cookie → List Cookie
  without [] = []
  without (c ∷ cs) = let rest = without cs in if picks c then cs else c ∷ rest

  abbrev pub has : List Cookie → Bool
  has cs = elim (find cs) [ none ↦ false | some c ↦ true ]

  pub search-remove :
      (n : ℕ) (cs : List Cookie)
      → length cs ≤ n
      → 1 ≤ n
      → IsComparable cs
      → (x : Option Cookie) × (search name path true n (packed n cs)
          ≡ some (packed n (without cs), x, has cs))
  unfolding search packed
  search-remove zero cs l p h = absurd (omega arith)
  search-remove (suc n) [] l p h = (none, refl)
  search-remove (suc zero) (c ∷ d ∷ cs) l p h = absurd (omega arith)
  search-remove (suc zero) (c ∷ []) l p h = elim (Bool-cases (picks c)) [
    | inl hit ↦ (none, ground (arith, h.0, hit, destroy_cookie-packed 1 1 c [] l l))
    | inr miss ↦ (some c, ground (arith, h.0, miss))
  ]
  search-remove (suc (suc n)) (c ∷ cs) l p h = elim (Bool-cases (picks c)) [
    | inl hit ↦
        let e = destroy_cookie-packed (suc (suc n)) (suc (suc n)) c cs l (omega arith) in
        (none, ground (arith, h.0, hit, e))
    | inr miss ↦
        let (x, e) = search-remove (suc n) cs (omega arith) (omega arith) h.1 in
        (x, ground (arith, h.0, miss, e))
  ]

  pub search-find :
      (n : ℕ) (c : Cookie) (cs : List Cookie)
      → length cs ≤ n
      → IsComparable cs
      → find cs ≡ some c
      → search name path false n (packed n cs) ≡ some (packed n cs, some c, false)
  unfolding search packed
  search-find n c [] l h f = cc
  search-find zero c (d ∷ cs) l h f = absurd (omega arith)
  search-find (suc zero) c (d ∷ []) l h f = ground (arith, h.0, f)
  search-find (suc zero) c (d ∷ x ∷ cs) l h f = absurd (omega arith)
  search-find (suc (suc n)) c (d ∷ cs) l h f =
      ground (arith, h.0, f, search-find (suc n) c cs (omega arith) h.1)

  -- The last place is made free if the array is full.
  pub search-none :
      (n : ℕ) (cs : List Cookie)
      → length cs ≤ suc n
      → IsComparable cs
      → find cs ≡ none
      → search name path false (suc n) (packed (suc n) cs)
        ≡ some (packed (suc n) (take n cs), none, false)
  unfolding search packed destroy_cookie
  search-none zero [] l h f = refl
  search-none (suc n) [] l h f = refl
  search-none zero (d ∷ []) l h f = ground (arith, h.0, f)
  search-none zero (d ∷ x ∷ cs) l h f = absurd (omega arith)
  search-none (suc n) (d ∷ cs) l h f = ground (arith, h.0, f, search-none n cs (omega arith) h.1)
