-- ===== src/Location/Paths.antt =====
-- src/Location.c: `path_check` and `location_DBpath`. A path is the text up to its NUL. `none` is a NULL
-- that is followed.
use highwire.Common.{
  ℕ, Bool, true, false, ◌&&◌, ◌||◌, Option, none, some, List, [], ◌∷◌, length, ◌==◌, if◌then◌else◌,
  leb,
}
use highwire.Common.Bytes.{Bytes}
use Prim.Native.Nat.{bit_or}
use highwire.Location.{PathEntry, Base}

abbrev pub begins_with : Bytes → Bytes → Bool
begins_with [] s = true
begins_with (c ∷ t) [] = false
begins_with (c ∷ t) (d ∷ s) = c == d && begins_with t s

-- `strstr`
abbrev pub contains : Bytes → Bytes → Bool
contains [] t = begins_with t []
contains (c ∷ s) t = begins_with t (c ∷ s) || contains s t

abbrev pub check_from : Bytes → ℕ → List PathEntry → ℕ
check_from dir flags [] = flags
check_from dir flags (e ∷ paths) =
    check_from dir
      (if leb (length e.name) (length dir) && contains dir e.name
        then bit_or flags e.flags
        else flags)
      paths

-- the flags for a directory
unfoldable pub path_check : Bytes → List PathEntry → ℕ
path_check dir paths = if leb 4 (length dir) then check_from dir 0 paths else 0

-- without memory, or for a path of less than four bytes, `ent` is NULL
unfoldable pub location_db_path : Bool → Bytes → ℕ → Base → Option (Base × Option Bytes)
location_db_path memory [] flags base = some (base, none)
location_db_path memory (c ∷ s) flags base =
    if leb 4 (length (c ∷ s)) && memory
    then some
        (record base { paths = record { flags = flags; name = c ∷ s } ∷ base.paths }, some (c ∷ s))
    else none
