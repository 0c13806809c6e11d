-- ===== src/Location/Store.antt =====
-- The two loops of `host_store`, `dir_store` and `location_DBdomain` over a list in the order of the
-- lengths, and the entry that is put into it. `test` is the comparison of an entry of the length `len`,
-- `touch` what happens to the entry that is found, `new` the new entry if there is memory and one is wanted.
pub mod Interned
pub mod Kept
use highwire.Common.{
  ℕ, Bool, true, false, Option, none, some, List, [], ◌∷◌, length, if◌then◌else◌, ltb,
}
use highwire.Common.Bytes.{Bytes}

module _ {A : Type 0} (key : A → Bytes) (test : A → Bool) (len : ℕ) (touch : A → A)
    (new : Option A) where
  -- the list and the entry, or NULL
  abbrev pub Stored : Type 0
  Stored = List A × Option A

  abbrev pub inserted : Option A → List A → Stored
  inserted none list = (list, none)
  inserted (some x) list = (x ∷ list, some x)

  abbrev pub behind : A → Stored → Stored
  behind e (list, found) = (e ∷ list, found)

  -- entries that are not shorter
  unfoldable pub store_equal : List A → Stored
  store_equal [] = inserted new []
  store_equal (e ∷ list) =
      let later = behind e (store_equal list) in
      if ltb len (length (key e))
      then inserted new (e ∷ list)
      else if test e
      then (touch e ∷ list, some (touch e))
      else later

  unfoldable pub store : List A → Stored
  store [] = inserted new []
  store (e ∷ list) =
      let later = behind e (store list) in
      if ltb (length (key e)) len then later else store_equal (e ∷ list)
