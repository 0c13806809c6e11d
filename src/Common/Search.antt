-- ===== src/Common/Search.antt =====
-- The binary search that the scanners and the encoders repeat over their tables,
--   do { i = (end + beg) /2; d = compare (key, tab[i]); if (d > 0) beg = i +1;
--        else if (d < 0) end = i -1; else return i; } while (beg <= end);
-- with `stop` for `end + 1`, so that it is no negative number. `order i` is the sign of `d`.
pub mod Table
pub mod Order
use Prim.Native.Nat.{ℕ, zero, suc, ◌+◌, ◌-◌, ◌/◌, ◌≤◌, ◌<◌, Ordering}
use mathlib.Core.Path.{◌≡◌, refl}
use mathlib.Core.Option.{Option, none, some}
use native.Mathlib.Omega.{arith}
use highwire.Common.Compare.{ltb, if◌then◌else◌}

abbrev pub middle : ℕ → ℕ → ℕ
middle beg stop = (stop - 1 + beg) / 2

unfoldable pub chop : (ℕ → Ordering) → ℕ → ℕ → ℕ → Option ℕ
chop order zero beg stop = none
chop order (suc fuel) beg stop =
    let i = middle beg stop in
    let above = chop order fuel (i + 1) stop in
    let below = chop order fuel beg i in
    elim (order i) [
      | Ordering.gt ↦ if ltb (i + 1) stop then above else none
      | Ordering.lt ↦ if ltb beg i then below else none
      | Ordering.eq ↦ some i
    ]

-- `order` belongs to an ascending table: it is `gt` up to a place, and `lt` behind it.
pub record IsMonotone (order : ℕ → Ordering) (n : ℕ) : Type 0 where
  pub up : (i j : ℕ) → i < j → j < n → order j ≡ Ordering.eq → order i ≡ Ordering.gt
  pub down : (i j : ℕ) → i < j → j < n → order i ≡ Ordering.eq → order j ≡ Ordering.lt

-- What the search returns is a match inside the range.
pub chop_sound :
    (order : ℕ → Ordering) (fuel beg stop k : ℕ)
    → beg < stop
    → chop order fuel beg stop ≡ some k
    → (order k ≡ Ordering.eq) × (k < stop)
unfolding chop
chop_sound order zero beg stop k r h = cc
chop_sound order (suc fuel) beg stop k r h = ground (
  arith,
  chop_sound order fuel (middle beg stop + 1) stop k,
  chop_sound order fuel beg (middle beg stop) k,
)

-- A match inside the range is found, with fuel for the range's size.
pub chop_complete :
    (order : ℕ → Ordering) (n fuel beg stop k : ℕ)
    → IsMonotone order n
    → stop ≤ n
    → stop ≤ beg + fuel
    → beg ≤ k
    → k < stop
    → order k ≡ Ordering.eq
    → chop order fuel beg stop ≡ some k
unfolding chop
chop_complete order n zero beg stop k m s f b e h = absurd (omega arith)
chop_complete order n (suc fuel) beg stop k m s f b e h =
    let i = middle beg stop in
    ground (
      arith,
      m.up i k,
      m.down i k,
      m.up k i,
      m.down k i,
      chop_complete order n fuel (i + 1) stop k m s,
      chop_complete order n fuel beg i k m,
    )
