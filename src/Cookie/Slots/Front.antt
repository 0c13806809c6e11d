-- ===== src/Cookie/Slots/Front.antt =====
-- `refreshed`, `swap_down` and `to_front` on the array of a list of cookies.
use mathlib.Core.Path.{subst}
use highwire.Common.{
  ℕ, zero, suc, ◌≤◌, true, Option, some, List, [], ◌∷◌, ◌≡◌, ◌≢◌, refl, inl, inr, arith, length,
  Bool-cases, ◌∙◌,
}
use highwire.Common.Bytes.{Bytes}
use highwire.Cookie.{Cookie}
use highwire.Cookie.Slots.{refreshed, swap_down, to_front}
use highwire.Cookie.Slots.Packed.{packed, picks, find, without}

-- no cookie has this address
abbrev pub IsNew : ℕ → List Cookie → Type 0
IsNew a [] = Unit
IsNew a (c ∷ cs) = (c.addr ≢ a) × IsNew a cs

abbrev pub IsApart : List Cookie → Type 0
IsApart [] = Unit
IsApart (c ∷ cs) = IsNew c.addr cs × IsApart cs

pub refreshed-new :
    (n : ℕ) (c : Cookie) (cs : List Cookie)
    → IsNew c.addr cs
    → refreshed c (packed n cs) ≡ packed n cs
unfolding refreshed packed
refreshed-new zero c cs h = refl
refreshed-new (suc n) c [] h = ground (arith, refreshed-new n c [] h)
refreshed-new (suc n) c (d ∷ cs) h = ground (arith, refreshed-new n c cs h.1)

-- A new cookie pushes the others down, and the last one out of a full array.
swap_down-new :
    (n : ℕ) (c swap : Cookie) (cs : List Cookie)
    → length cs ≤ n
    → IsNew c.addr cs
    → swap_down c swap (packed (suc n) cs) ≡ some (packed (suc n) (swap ∷ cs))
unfolding swap_down packed
swap_down-new n c swap [] l h = refl
swap_down-new zero c swap (d ∷ cs) l h = absurd (omega arith)
swap_down-new (suc n) c swap (d ∷ cs) l h = ground (arith, swap_down-new n c d cs (omega arith) h.1)

pub to_front-new :
    (n : ℕ) (c : Cookie) (cs : List Cookie)
    → length cs ≤ n
    → IsNew c.addr cs
    → to_front c (packed (suc n) cs) ≡ some (packed (suc n) (c ∷ cs))
unfolding to_front packed
to_front-new n c [] l h = ground (arith, swap_down-new n c c [] l h)
to_front-new n c (d ∷ cs) l h = ground (arith, swap_down-new n c c (d ∷ cs) l h)

module _ (name : Bytes) (path : Option Bytes) where
  find-apart :
      (a : ℕ) (c : Cookie) (cs : List Cookie) → IsNew a cs → find name path cs ≡ some c → c.addr ≢ a
  find-apart a c [] h f = cc
  find-apart a c (d ∷ cs) h f = ground (arith, find-apart a c cs h.1)

  find-first :
      (c x : Cookie) (cs : List Cookie)
      → picks name path x ≡ true
      → find name path (x ∷ cs) ≡ some c
      → x.addr ≡ c.addr
  find-first c x cs hit f = ground (arith, hit, f)

  refreshed-first :
      (n : ℕ) (c' x : Cookie) (cs : List Cookie)
      → x.addr ≡ c'.addr
      → IsNew x.addr cs
      → refreshed c' (packed (suc n) (x ∷ cs)) ≡ some c' ∷ packed n cs
  unfolding refreshed packed
  refreshed-first n c' x cs e h =
      ground (arith, e, refreshed-new n c' cs (subst (λ a. IsNew a cs) e h))

  -- The cookie that was found leaves its place to those above it.
  swap_down-find :
      (n : ℕ) (c c' swap : Cookie) (cs : List Cookie)
      → find name path cs ≡ some c
      → c.addr ≡ c'.addr
      → IsApart cs
      → length cs ≤ n
      → swap_down c' swap (refreshed c' (packed n cs))
        ≡ some (packed n (swap ∷ without name path cs))
  unfolding swap_down refreshed packed
  swap_down-find n c c' swap [] f e d l = cc
  swap_down-find zero c c' swap (x ∷ cs) f e d l = absurd (omega arith)
  swap_down-find (suc n) c c' swap (x ∷ cs) f e d l = elim (Bool-cases (picks name path x)) [
    | inl hit ↦ ground (arith, hit, refreshed-first n c' x cs (find-first c x cs hit f ∙ e) d.0)
    | inr miss ↦
        ground (arith, e, miss, find-apart x.addr c cs d.0, swap_down-find n c c' x cs, d.1)
  ]

  pub to_front-find :
      (n : ℕ) (c c' : Cookie) (cs : List Cookie)
      → find name path cs ≡ some c
      → c.addr ≡ c'.addr
      → IsApart cs
      → length cs ≤ n
      → to_front c' (refreshed c' (packed n cs)) ≡ some (packed n (c' ∷ without name path cs))
  unfolding to_front refreshed packed
  to_front-find n c c' [] f e d l = cc
  to_front-find zero c c' (x ∷ cs) f e d l = absurd (omega arith)
  to_front-find (suc n) c c' (x ∷ cs) f e d l = elim (Bool-cases (picks name path x)) [
    | inl hit ↦ ground (arith, hit, refreshed-first n c' x cs (find-first c x cs hit f ∙ e) d.0)
    | inr miss ↦ ground (
      arith,
      e,
      miss,
      find-apart x.addr c cs d.0,
      swap_down-find (suc n) c c' c' (x ∷ cs) f e d l,
    )
  ]
