-- ===== src/Http/Jars.antt =====
-- The loop over the header's lines with `cookie_set` for the cookies: what both keep.
use highwire.Common.{
  Bool, false, Option, none, some, List, [], ◌∷◌, ◌≡◌, sym, inl, inr, drop, ◌>>=◌, bind-eq-some,
}
use mathlib.Core.Path.{subst}
use mathlib.Core.Option.{some-injective}
use highwire.Common.Every.{Every}
use highwire.Common.Int.{ℤ}
use highwire.Common.Bytes.{Bytes}
use highwire.Cookie.{Jars, Place}
use highwire.Cookie.Slots.{Heap}
use highwire.Cookie.Set.{cookie_set}
use highwire.Cookie.Set.Domain.{IsLower}
use highwire.Cookie.Set.Own.{IsSafe, cookie_set-IsSafe}
use highwire.Http.Fields.{Header, header_lines}
use highwire.Http.Fields.Exclusive.{IsExclusive, header_lines-Kept}

-- the domains of the jars are in lower case
abbrev pub IsTidy : Jars → Type 0
IsTidy jars = Every (λ j. IsLower j.domain) jars.list

IsSafe-IsTidy :
    (heap : Heap) (loc : Place) (jars jars' : Jars)
    → IsTidy jars
    → IsSafe heap loc jars jars'
    → IsTidy jars'
IsSafe-IsTidy heap loc jars jars' h (inl e) = subst IsTidy (sym e) h
IsSafe-IsTidy heap loc jars jars' h (inr w) = w.lower

-- the jars, and what `malloc` gives in the calls to come
abbrev pub State : Type 0
State = Jars × List Heap

-- behind the end of the list `malloc` fails
abbrev no_memory : Heap
no_memory = record { cookie = none; value = false; jar = false }

abbrev pub next_heap : List Heap → Heap
next_heap [] = no_memory
next_heap (heap ∷ heaps) = heap

-- `cookie_set` with the memory of this call
abbrev pub set_next : (Bytes → ℤ) → Place → Bytes → ℤ → ℤ → State → Option State
set_next cookie_date loc s d shift (jars, heaps) =
    cookie_set cookie_date (next_heap heaps) loc s d shift jars >>= λ j. some (j, drop 1 heaps)

set_next-IsTidy :
    (cookie_date : Bytes → ℤ) (loc : Place) (s : Bytes) (d shift : ℤ) (r t : State)
    → IsLower loc.host_name
    → IsTidy r.0
    → set_next cookie_date loc s d shift r ≡ some t
    → IsTidy t.0
set_next-IsTidy cookie_date loc s d shift (jars, heaps) t low h e =
    let heap = next_heap heaps in
    let (j, set, end) =
      bind-eq-some (cookie_set cookie_date heap loc s d shift jars) (λ j. some (j, drop 1 heaps))
        e in
    subst (λ (t : State). IsTidy t.0) (some-injective (j, drop 1 heaps) t end)
      (IsSafe-IsTidy heap loc jars j h
        (cookie_set-IsSafe heap loc jars j cookie_date s d shift low h set))

-- If the loop comes to its end without a fault, with `cookie_set` for the lines that set cookies and with
-- whatever memory each call gets, it gives the header no realm and redirection at once, and the
-- domains of the jars stay in lower case, as the name of the host is.
pub header_lines-IsTidy :
    (date : Bytes → Option ℤ) (cookie_date : Bytes → ℤ) (allow : Bool) (loc : Place)
    (lines : List Bytes) (hdr : Header) (jars : Jars) (heaps : List Heap)
    (t : (Header × State) × Option (List Bytes))
    → IsLower loc.host_name
    → IsExclusive hdr
    → IsTidy jars
    → header_lines date allow (set_next cookie_date loc) lines (hdr, (jars, heaps)) ≡ some t
    → IsExclusive (t.0.0) × IsTidy (t.0.1.0)
header_lines-IsTidy date cookie_date allow loc lines hdr jars heaps t low h k e =
    header_lines-Kept date allow (set_next cookie_date loc) (λ (r : State). IsTidy r.0)
      (λ s d shift r r' tidy set. set_next-IsTidy cookie_date loc s d shift r r' low tidy set) lines
      (hdr, (jars, heaps)) t h k e
