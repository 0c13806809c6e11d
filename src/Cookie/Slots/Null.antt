-- ===== src/Cookie/Slots/Null.antt =====
-- The comparison of paths in `cookie_set` where a cookie was stored without one.
use highwire.Common.{
  ℕ, zero, suc, ◌<◌, Bool, true, false, none, some, List, [], ◌∷◌, ◌++◌, ◌≡◌, refl, arith, length,
}
use highwire.Common.Every.{Every}
use highwire.Common.Bytes.{Bytes}
use highwire.Cookie.{Cookie, room}
use highwire.Cookie.Slots.{Heap, Setting, is_same, same_name, same_path, search, set_slots}
use highwire.Cookie.Slots.Packed.{packed}

search_null :
    (name p : Bytes) (remove : Bool) (n : ℕ) (front : List Cookie) (c : Cookie) (back : List Cookie)
    → length front < n
    → Every (λ d. same_name name d ≡ false) front
    → same_name name c ≡ true
    → c.path ≡ none
    → search name (some p) remove n (packed n (front ++ c ∷ back)) ≡ none
unfolding search packed is_same same_path
search_null name p remove zero front c back l h k e = absurd (omega arith)
search_null name p remove (suc n) [] c back l h k e = rw (k, e) refl
search_null name p remove (suc zero) (d ∷ front) c back l h k e = absurd (omega arith)
search_null name p remove (suc (suc n)) (d ∷ front) c back l h k e =
    ground (arith, h.0, search_null name p remove (suc n) front c back (omega arith) h.1 k e)

-- If the first cookie of the name in a jar stands for the root of the server, any setting of that name
-- with another path, be it a removal or not, follows the NULL that is stored for the root.
pub set_slots_null :
    (heap : Heap) (s : Setting) (p : Bytes) (remove changed : Bool) (front : List Cookie)
    (c : Cookie) (back : List Cookie)
    → s.path ≡ some p
    → length front < room
    → Every (λ d. same_name s.name d ≡ false) front
    → same_name s.name c ≡ true
    → c.path ≡ none
    → set_slots heap s remove (packed room (front ++ c ∷ back)) changed ≡ none
unfolding set_slots
set_slots_null heap s p remove changed front c back e l h k root =
    rw (e, search_null s.name p remove room front c back l h k root) refl
