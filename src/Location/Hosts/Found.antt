-- ===== src/Location/Hosts/Found.antt =====
-- A host of src/Location.c that is stored, through the calls that follow.
use mathlib.Core.Option.{some-injective, none-ne-some}
use highwire.Common.{
  ℕ, Bool, true, false, Option, none, some, [], ◌∷◌, ◌≡◌, refl, ap, sym, inl, inr, ltb, leb, length,
  ◌&&◌, if◌then◌else◌, Bool-cases,
}
use highwire.Common.Bytes.{Bytes}
use highwire.Common.Check.{same_bytes}
use highwire.Location.{Host, Base, PathEntry, limit, read_name}
use highwire.Location.Hosts.{new_host, host_store, host_entry, location_db_host}
use highwire.Location.Hosts.Kept.{
  IsOrdered, IsStored, entry-IsStored, flags-IsStored, domain-IsStored,
}
use highwire.Location.Domains.{location_db_domain, domain_store, skip_dots}
use highwire.Location.Paths.{location_db_path}
use highwire.Location.Store.Interned.{store-IsAscending}
use highwire.Location.Store.Kept.{store-puts, store-finds}

-- one call of the database, which changes it; a call that follows NULL has no step
pub data Step : Base → Base → Type 0 where
  entry :
      (address : Bytes → ℕ) (memory resolve : Bool) (max_len : ℕ) (s : Bytes) (base : Base)
      → Step base (host_entry address memory resolve max_len s base).1
  db_host :
      (address : Bytes → ℕ) (memory : Bool) (s : Bytes) (max_len flags : ℕ) (base : Base)
      → Step base (location_db_host address memory s max_len flags base).0
  db_domain :
      (memory : Bool) (s : Bytes) (max_len flags : ℕ) (base : Base)
      → Step base (location_db_domain memory s max_len flags base).0
  db_path :
      (memory : Bool) (s : Bytes) (flags : ℕ) (base : Base) (r : Base × Option Bytes)
      → location_db_path memory s flags base ≡ some r
      → Step base r.0

-- any calls, one after the other
pub data Later (base : Base) : Base → Type 0 where
  now : Later base base
  next : {base' base'' : Base} → Later base base' → Step base' base'' → Later base base''

some-if : {A : Type 0} (b : Bool) (q r : A) → (if b then some q else none) ≡ some r → q ≡ r
some-if true q r e = some-injective q r e
some-if false q r e = absurd (none-ne-some r e)

path-hosts :
    (memory : Bool) (s : Bytes) (flags : ℕ) (base : Base) (r : Base × Option Bytes)
    → location_db_path memory s flags base ≡ some r
    → r.0.hosts ≡ base.hosts
unfolding location_db_path
path-hosts memory [] flags base r e =
    ap (λ (q : Base × Option Bytes). q.0.hosts) (sym (some-injective (base, none) r e))
path-hosts memory (c ∷ s) flags base r e =
    let entry : PathEntry = record { flags = flags; name = c ∷ s } in
    let q : Base × Option Bytes = (record base { paths = entry ∷ base.paths }, some (c ∷ s)) in
    ap (λ (q : Base × Option Bytes). q.0.hosts)
      (sym (some-if (leb 4 (length (c ∷ s)) && memory) q r e))

Step-IsStored :
    {base base' : Base} (name : Bytes)
    → Step base base'
    → IsStored name base.hosts
    → IsStored name base'.hosts
unfolding location_db_host location_db_domain
Step-IsStored name (entry address memory resolve max_len s base) h =
    entry-IsStored name address memory resolve max_len s base h
Step-IsStored name (db_host address memory s max_len flags base) h =
    let (rest, base', found) = host_entry address memory false max_len s base in
    flags-IsStored name flags base' found
      (entry-IsStored name address memory false max_len s base h)
Step-IsStored name (db_domain memory s max_len flags base) h =
    let (max_len', s') = skip_dots max_len s in
    let (n, rest) = read_name (limit max_len') s' in
    elim (Bool-cases (ltb (length n) 2)) [
      | inl short ↦ rw short h
      | inr long ↦
          rw long (domain-IsStored name base (domain_store memory flags n rest base.domains) h)
    ]
Step-IsStored name (db_path memory s flags base r e) h = rw (path-hosts memory s flags base r e) h

Later-IsStored :
    {base base' : Base} (name : Bytes)
    → Later base base'
    → IsStored name base.hosts
    → IsStored name base'.hosts
Later-IsStored name now h = h
Later-IsStored name (next l s) h = Step-IsStored name s (Later-IsStored name l h)

-- With memory for it, a host that is stored is found from then on: after whatever calls of `host_entry`,
-- `location_DBhost`, `location_DBdomain` and `location_DBpath`, a search for its name gives an entry of
-- this name and leaves the list as it is, with or without memory, and the lengths of the names ascend,
-- as they did before.
pub host_store_found :
    (name : Bytes) (base base' : Base) (memory : Bool)
    → IsOrdered base.hosts
    → Later (record base { hosts = (host_store true name base).0 }) base'
    → ((h : Host) × (host_store memory name base' ≡ (base'.hosts, some h)) × (h.name ≡ name))
      × IsOrdered base'.hosts
host_store_found name base base' memory o later =
    let x = new_host name base.domains in
    let stored : IsStored name (host_store true name base).0 = (
      store-IsAscending (λ (h : Host). h.name) (λ (h : Host). same_bytes name h.name) x base.hosts
          o,
      store-puts (λ (h : Host). h.name) name x refl base.hosts,
    ) in
    let (a, has) = Later-IsStored name later stored in
    (
      store-finds (λ (h : Host). h.name) name
          (if memory then some (new_host name base'.domains) else none) base'.hosts a has,
      a,
    )
