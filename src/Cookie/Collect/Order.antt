-- ===== src/Cookie/Collect/Order.antt =====
-- The set of `cookie_Jar`: the cookies of the longest paths first.
use mathlib.Core.Path.{subst}
use mathlib.Core.List.{
  reverse, append_assoc, append-nil, reverse-append, reverse-cons, reverse-reverse,
}
use highwire.Common.{
  ℕ, suc, ◌≤◌, ◌<◌, List, [], ◌∷◌, ◌++◌, ◌≡◌, refl, sym, ap, ◌∙◌, inl, inr, arith, length,
  length-append, take, ltb, if◌then◌else◌, Bool-cases,
}
use highwire.Common.Every.{Every, Every-reverse, last-cases, length-reverse, take-all, take-append}
use highwire.Cookie.{Cookie, path_len, room}
use highwire.Cookie.Collect.{before_shorter, add_last_first, add}

-- behind all cookies whose path is not shorter
abbrev pub place : Cookie → List Cookie → List Cookie
place c [] = c ∷ []
place c (d ∷ set) =
    let rest = place c set in if ltb (path_len d) (path_len c) then c ∷ d ∷ set else d ∷ rest

abbrev IsLong : ℕ → Cookie → Type 0
IsLong n d = n ≤ path_len d

abbrev IsShort : ℕ → Cookie → Type 0
IsShort n d = path_len d < n

-- no path is longer than one before it
abbrev pub IsDescending : List Cookie → Type 0
IsDescending [] = Unit
IsDescending (d ∷ set) = Every (λ e. path_len e ≤ path_len d) set × IsDescending set

Every-IsShort :
    (n m : ℕ) (set : List Cookie) → m < n → Every (λ e. path_len e ≤ m) set → Every (IsShort n) set
Every-IsShort n m [] l h = tt
Every-IsShort n m (d ∷ set) l h = (omega (arith, h.0), Every-IsShort n m set l h.1)

-- the place in a set that descends
record Split (c : Cookie) (set : List Cookie) : Type 0 where
  front : List Cookie
  back : List Cookie
  splits : set ≡ front ++ back
  placed : place c set ≡ front ++ c ∷ back
  long : Every (IsLong (path_len c)) front
  short : Every (IsShort (path_len c)) back

Split-exists : (c : Cookie) (set : List Cookie) → IsDescending set → Split c set
Split-exists c [] h = record {
  front = [];
  back = [];
  splits = refl;
  placed = refl;
  long = tt;
  short = tt;
}
Split-exists c (d ∷ set) h = elim (Bool-cases (ltb (path_len d) (path_len c))) [
  | inl less ↦ record {
    front = [];
    back = d ∷ set;
    splits = refl;
    placed = rw less refl;
    long = tt;
    short = (
      ground (arith, less),
      Every-IsShort (path_len c) (path_len d) set (ground (arith, less)) h.0,
    );
  }
  | inr more ↦
      let s = Split-exists c set h.1 in
      record {
        front = d ∷ s.front;
        back = s.back;
        splits = ap (◌∷◌ d) s.splits;
        placed = rw more (ap (◌∷◌ d) s.placed);
        long = (ground (arith, more), s.long);
        short = s.short;
      }
]

before_shorter-append :
    (c : Cookie) (xs ys : List Cookie)
    → Every (IsShort (path_len c)) xs
    → Every (IsLong (path_len c)) ys
    → before_shorter c (xs ++ ys) ≡ xs ++ c ∷ ys
unfolding before_shorter
before_shorter-append c [] [] h k = refl
before_shorter-append c [] (d ∷ ys) h k = ground (arith, k.0)
before_shorter-append c (d ∷ xs) ys h k = ground (arith, h.0, before_shorter-append c xs ys h.1 k)

reverse-middle :
    (xs : List Cookie) (c : Cookie) (ys : List Cookie)
    → reverse (reverse ys ++ c ∷ reverse xs) ≡ xs ++ c ∷ ys
reverse-middle xs c ys =
    reverse-append (reverse ys) (c ∷ reverse xs)
    ∙ rw (reverse-cons, reverse-reverse xs, reverse-reverse ys) (append_assoc xs (c ∷ []) ys)

reverse-last : (xs : List Cookie) (d : Cookie) → reverse (xs ++ d ∷ []) ≡ d ∷ reverse xs
reverse-last xs d = reverse-append xs (d ∷ [])

before_shorter-reverse :
    (c : Cookie) (front back : List Cookie)
    → Every (IsLong (path_len c)) front
    → Every (IsShort (path_len c)) back
    → reverse (before_shorter c (reverse (front ++ back))) ≡ front ++ c ∷ back
before_shorter-reverse c front back h k =
    ap (λ r. reverse (before_shorter c r)) (reverse-append front back)
    ∙ ap reverse (
        before_shorter-append c (reverse back) (reverse front)
          (Every-reverse (IsShort (path_len c)) back k)
          (Every-reverse (IsLong (path_len c)) front h))
    ∙ reverse-middle front c back

module _ (c d : Cookie) (r : List Cookie) where
  add_last_first-full :
      length (d ∷ r) ≡ room → path_len c ≤ path_len d → add_last_first c (d ∷ r) ≡ d ∷ r
  add_last_first-full l h = ground arith

  add_last_first-over :
      length (d ∷ r) ≡ room
      → path_len d < path_len c
      → add_last_first c (d ∷ r) ≡ before_shorter c r
  add_last_first-over l h = ground arith

  add_last_first-free : length (d ∷ r) < room → add_last_first c (d ∷ r) ≡ before_shorter c (d ∷ r)
  add_last_first-free l = ground arith

add_last_first-short :
    (c : Cookie) (r : List Cookie) → length r < room → add_last_first c r ≡ before_shorter c r
unfolding before_shorter
add_last_first-short c [] l = refl
add_last_first-short c (d ∷ r) l = add_last_first-free c d r l

-- A full set stays if the path of its last cookie is not shorter.
add-long :
    (c : Cookie) (front : List Cookie)
    → Every (IsLong (path_len c)) front
    → length front ≡ room
    → add c front ≡ front
unfolding add
add-long c front h l = elim (last-cases front) [
  | inl e ↦ absurd (omega (arith, l ∙ refl, ap length e))
  | inr (d, f, e) ↦
      let r = ap reverse e ∙ reverse-last f d in
      let n = sym (ap length r) ∙ length-reverse front ∙ l in
      let long =
        subst (Every (IsLong (path_len c))) r (Every-reverse (IsLong (path_len c)) front h) in
      ap (λ r. reverse (add_last_first c r)) r
      ∙ ap reverse (add_last_first-full c d (reverse f) n long.0)
      ∙ ap reverse (sym r)
      ∙ reverse-reverse front
]

-- Else its last cookie leaves it.
add-short :
    (c d : Cookie) (front back : List Cookie)
    → Every (IsLong (path_len c)) front
    → Every (IsShort (path_len c)) back
    → path_len d < path_len c
    → length ((front ++ back) ++ d ∷ []) ≡ room
    → add c ((front ++ back) ++ d ∷ []) ≡ front ++ c ∷ back
unfolding add
add-short c d front back h k less l =
    let r = reverse-last (front ++ back) d in
    let n = sym (ap length r) ∙ length-reverse ((front ++ back) ++ d ∷ []) ∙ l in
    ap (λ r. reverse (add_last_first c r)) r
    ∙ ap reverse (add_last_first-over c d (reverse (front ++ back)) n less)
    ∙ before_shorter-reverse c front back h k

length-place : (c : Cookie) (set : List Cookie) → length (place c set) ≡ suc (length set)
length-place c [] = refl
length-place c (d ∷ set) = ground (arith, length-place c set)

Every-last :
    (P : Cookie → Type 0) (d : Cookie) (xs : List Cookie)
    → Every P (xs ++ d ∷ [])
    → P d × Every P xs
Every-last P d [] h = (h.0, tt)
Every-last P d (x ∷ xs) h = let (p, q) = Every-last P d xs h.1 in (p, (h.0, q))

-- a full set that ends with long paths
add-full_long :
    (c : Cookie) (set : List Cookie) (s : Split c set)
    → length set ≡ room
    → s.back ≡ []
    → add c set ≡ take room (place c set)
add-full_long c set s n e =
    let same = s.splits ∙ ap (◌++◌ s.front) e ∙ append-nil s.front in
    let l = sym (ap length same) ∙ n in
    ap (add c) same
    ∙ add-long c s.front s.long l
    ∙ sym (take-append room s.front (c ∷ []) l)
    ∙ ap (take room) (sym (s.placed ∙ ap (λ b. s.front ++ c ∷ b) e))

-- a full set that ends with a shorter path
add-full_short :
    (c : Cookie) (set : List Cookie) (s : Split c set) (d : Cookie) (b : List Cookie)
    → length set ≡ room
    → s.back ≡ b ++ d ∷ []
    → add c set ≡ take room (place c set)
add-full_short c set s d b n e =
    let same = s.splits ∙ ap (◌++◌ s.front) e ∙ sym (append_assoc s.front b (d ∷ [])) in
    let (less, short) =
      Every-last (IsShort (path_len c)) d b (subst (Every (IsShort (path_len c))) e s.short) in
    let placed =
      s.placed ∙ ap (λ b. s.front ++ c ∷ b) e ∙ sym (append_assoc s.front (c ∷ b) (d ∷ [])) in
    let l = length-append (s.front ++ c ∷ b) (d ∷ []) in
    ap (add c) same
    ∙ add-short c d s.front b s.long short less (sym (ap length same) ∙ n)
    ∙ sym (
        take-append room (s.front ++ c ∷ b) (d ∷ [])
          (omega (arith, l, ap length placed, length-place c set, n)))
    ∙ ap (take room) (sym placed)

add-full :
    (c : Cookie) (set : List Cookie)
    → Split c set
    → length set ≡ room
    → add c set ≡ take room (place c set)
add-full c set s n = elim (last-cases s.back) [
  | inl e ↦ add-full_long c set s n e
  | inr (d, b, e) ↦ add-full_short c set s d b n e
]

-- `add` puts the cookie into a set that descends, behind all cookies whose path is not shorter, and
-- keeps the first twenty.
pub add-place :
    (c : Cookie) (set : List Cookie)
    → IsDescending set
    → length set ≤ room
    → add c set ≡ take room (place c set)
unfolding add
add-place c set h l = elim (Bool-cases (ltb (length set) room)) [
  | inl free ↦
      let s = Split-exists c set h in
      ap reverse (add_last_first-short c (reverse set) (ground (arith, length-reverse set, free)))
      ∙ ap (λ r. reverse (before_shorter c (reverse r))) s.splits
      ∙ before_shorter-reverse c s.front s.back s.long s.short
      ∙ sym s.placed
      ∙ sym (take-all room (place c set) (ground (arith, length-place c set, free)))
  | inr full ↦ add-full c set (Split-exists c set h) (ground (arith, full))
]
