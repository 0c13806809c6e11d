-- ===== src/Cookie/Collect/Lost.antt =====
-- A full jar whose first cookie is expired: `cookie_Jar` counts one place too few.
use mathlib.Core.Path.{subst}
use highwire.Common.{
  ℕ, zero, suc, ◌*◌, ◌<◌, Bool, true, false, none, some, List, [], ◌∷◌, ◌++◌, ◌≡◌, refl, ap, inl,
  inr, arith, length, Bool-cases,
}
use highwire.Common.Int.{ℤ}
use highwire.Common.Bytes.{Bytes}
use highwire.Cookie.{Cookie, Slots, room, destroy_cookie}
use highwire.Cookie.Collect.{is_expired, is_under, add, collect}
use highwire.Cookie.Collect.Expired.{some_expired, under, add_all}
use highwire.Cookie.Slots.Packed.{packed}

-- the array of the cookies, a NULL, and one more cookie
abbrev pub cut : List Cookie → Cookie → Slots
cut cs last = packed (length cs) cs ++ none ∷ some last ∷ []

destroy_cookie-short :
    (c last : Cookie) (cs : List Cookie)
    → destroy_cookie (packed (suc (suc (length cs))) (c ∷ cs ++ last ∷ [])) (suc (length cs))
      ≡ cut cs last
unfolding destroy_cookie packed
destroy_cookie-short c last [] = refl
destroy_cookie-short c last (d ∷ cs) = ap (◌∷◌ (some d)) (destroy_cookie-short d last cs)

collect-cut :
    (now : ℤ) (path : Bytes) (fuel : ℕ) (last : Cookie) (cs set : List Cookie) (changed : Bool)
    → some_expired now cs ≡ false
    → length cs < fuel
    → collect now path fuel (suc (suc (length cs))) (cut cs last) set changed
      ≡ some (cut cs last, add_all (under path cs) set, changed)
unfolding collect packed
collect-cut now path zero last cs set changed h l = absurd (omega arith)
collect-cut now path (suc fuel) last [] set changed h l = refl
collect-cut now path (suc fuel) last (c ∷ cs) set changed h l =
    elim (Bool-cases (is_under path c)) [
      | inl stands ↦
          ground (arith, h, stands, collect-cut now path fuel last cs (add c set) changed)
      | inr other ↦ ground (arith, h, other, collect-cut now path fuel last cs set changed)
    ]

collect-short :
    (now : ℤ) (path : Bytes) (fuel : ℕ) (c last : Cookie) (cs set : List Cookie) (changed : Bool)
    → is_expired now c ≡ true
    → some_expired now cs ≡ false
    → length cs < fuel
    → collect now path
        (suc fuel)
        (suc (suc (length cs)))
        (packed (suc (suc (length cs))) (c ∷ cs ++ last ∷ []))
        set
        changed
      ≡ some (cut cs last, add_all (under path cs) set, true)
unfolding collect packed
collect-short now path fuel c last cs set changed dead h l =
    ground
      (arith, dead, destroy_cookie-short c last cs, collect-cut now path fuel last cs set true h l)

-- In a jar of twenty cookies of which the first is expired, it is taken out, but the last cookie stays
-- in its place behind a NULL: it is not collected.
pub collect_loses :
    (now : ℤ) (path : Bytes) (c last : Cookie) (cs set : List Cookie) (changed : Bool)
    → length cs ≡ 18
    → is_expired now c ≡ true
    → some_expired now cs ≡ false
    → collect now path (2 * room) room (packed room (c ∷ cs ++ last ∷ [])) set changed
      ≡ some (cut cs last, add_all (under path cs) set, true)
collect_loses now path c last cs set changed l dead h =
    subst
      (λ n.
        collect now path (2 * room) (suc (suc n)) (packed (suc (suc n)) (c ∷ cs ++ last ∷ [])) set
          changed
        ≡ some (cut cs last, add_all (under path cs) set, true))
      l (collect-short now path 39 c last cs set changed dead h (omega (arith, l)))
