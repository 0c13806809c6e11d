-- ===== src/Location/Hosts/Kept.antt =====
-- What the calls of the database of src/Location.c keep of the list of hosts: the order of the lengths and
-- the names that are there.
use highwire.Common.{
  ℕ, ◌≤◌, inl, inr, ◌&&◌, Bool, true, false, Option, none, some, List, [], ◌∷◌, ◌≡◌, refl, sym, ap,
  length, ltb, ◌==◌, ◌||◌, Bool-cases,
}
use mathlib.Core.Path.{subst}
use highwire.Common.Every.{Every}
use highwire.Common.Bytes.{Bytes, codes, is_empty}
use highwire.Common.Check.{same_bytes, same_bytes_iff}
use highwire.Location.{Host, Domain, Base, limit, read_name, changed_flags}
use highwire.Location.Hosts.{
  ends_with_domain, new_host, host_store, replaced, resolved, host_entry, with_flags,
}
use highwire.Location.Domains.{spread_longer, spread_behind, spread_equal, spread, with_domain}
use highwire.Location.Store.Interned.{IsAscending, store-IsAscending}
use highwire.Location.Store.Kept.{Has, names, store-keeps, store-none}

abbrev pub host_names : List Host → List Bytes
host_names = names (λ (h : Host). h.name)

abbrev pub IsOrdered : List Host → Type 0
IsOrdered hosts = IsAscending (λ (h : Host). h.name) hosts

-- the names and their order depend on the names only
abbrev IsLine : List Bytes → Type 0
IsLine = IsAscending (λ n. n)

Every-names :
    (k : ℕ) (hosts : List Host)
    → Every (λ (h : Host). k ≤ length h.name) hosts
    → Every (λ n. k ≤ length n) (host_names hosts)
Every-names k [] a = tt
Every-names k (h ∷ hosts) a = (a.0, Every-names k hosts a.1)

names-Every :
    (k : ℕ) (hosts : List Host)
    → Every (λ n. k ≤ length n) (host_names hosts)
    → Every (λ (h : Host). k ≤ length h.name) hosts
names-Every k [] a = tt
names-Every k (h ∷ hosts) a = (a.0, names-Every k hosts a.1)

IsOrdered-IsLine : (hosts : List Host) → IsOrdered hosts → IsLine (host_names hosts)
IsOrdered-IsLine [] a = tt
IsOrdered-IsLine (h ∷ hosts) a = (Every-names (length h.name) hosts a.0, IsOrdered-IsLine hosts a.1)

IsLine-IsOrdered : (hosts : List Host) → IsLine (host_names hosts) → IsOrdered hosts
IsLine-IsOrdered [] a = tt
IsLine-IsOrdered (h ∷ hosts) a = (names-Every (length h.name) hosts a.0, IsLine-IsOrdered hosts a.1)

-- the order holds, and a host of the name is there
abbrev pub IsStored : Bytes → List Host → Type 0
IsStored name hosts = IsOrdered hosts × Has name (host_names hosts)

renamed-IsStored :
    (name : Bytes) (hosts hosts' : List Host)
    → host_names hosts' ≡ host_names hosts
    → IsStored name hosts
    → IsStored name hosts'
renamed-IsStored name hosts hosts' e (a, h) = (
  IsLine-IsOrdered hosts' (subst IsLine (sym e) (IsOrdered-IsLine hosts a)),
  subst (Has name) (sym e) h,
)

names-replaced : (g : Host) (hosts : List Host) → host_names (replaced g hosts) ≡ host_names hosts
names-replaced g [] = refl
names-replaced g (h ∷ hosts) = elim (Bool-cases (same_bytes h.name g.name)) [
  | inl same ↦
      rw same (ap (λ n. n ∷ host_names hosts) (sym ((same_bytes_iff h.name g.name).0 same)))
  | inr other ↦ rw other (ap (◌∷◌ h.name) (names-replaced g hosts))
]

names-longer :
    (d : Domain) (hosts : List Host) → host_names (spread_longer d hosts) ≡ host_names hosts
names-longer d [] = refl
names-longer d (h ∷ hosts) = elim (Bool-cases (ends_with_domain h.name d.name)) [
  | inl under ↦ rw under (ap (◌∷◌ h.name) (names-longer d hosts))
  | inr other ↦ rw other (ap (◌∷◌ h.name) (names-longer d hosts))
]

names-behind :
    (d : Domain) (hosts : List Host) → host_names (spread_behind d hosts) ≡ host_names hosts
names-behind d [] = refl
names-behind d (h ∷ hosts) = elim (Bool-cases (length h.name == length d.name)) [
  | inl equal ↦ rw equal (ap (◌∷◌ h.name) (names-behind d hosts))
  | inr longer ↦ rw longer (names-longer d (h ∷ hosts))
]

names-equal :
    (d : Domain) (hosts : List Host) → host_names (spread_equal d hosts) ≡ host_names hosts
names-equal d [] = refl
names-equal d (h ∷ hosts) = elim (Bool-cases (length h.name == length d.name)) [
  | inl equal ↦ elim (Bool-cases (same_bytes h.name d.name)) [
    | inl same ↦ rw (equal, same) (ap (◌∷◌ h.name) (names-behind d hosts))
    | inr other ↦ rw (equal, other) (ap (◌∷◌ h.name) (names-equal d hosts))
  ]
  | inr longer ↦ rw longer (names-longer d (h ∷ hosts))
]

names-spread : (d : Domain) (hosts : List Host) → host_names (spread d hosts) ≡ host_names hosts
unfolding spread
names-spread d [] = refl
names-spread d (h ∷ hosts) = elim (Bool-cases (ltb (length h.name) (length d.name))) [
  | inl shorter ↦ rw shorter (ap (◌∷◌ h.name) (names-spread d hosts))
  | inr not_shorter ↦ rw not_shorter (names-equal d (h ∷ hosts))
]

names-resolved :
    (address : Bytes → ℕ) (resolve : Bool) (r : List Host × Option Host)
    → host_names (resolved address resolve r).0 ≡ host_names r.0
names-resolved address resolve (hosts, none) = refl
names-resolved address resolve (hosts, some h) = elim (Bool-cases (h.ip == 0 && resolve)) [
  | inl asked ↦ rw asked (names-replaced (record h { ip = address h.name }) hosts)
  | inr known ↦ rw known refl
]

pub store-IsStored :
    (name n : Bytes) (memory : Bool) (base : Base)
    → IsStored name base.hosts
    → IsStored name (host_store memory n base).0
store-IsStored name n true base (a, h) =
    let x = new_host n base.domains in
    (
      store-IsAscending (λ (h : Host). h.name) (λ (h : Host). same_bytes n h.name) x base.hosts a,
      store-keeps (λ (h : Host). h.name) n (some x) name base.hosts h,
    )
store-IsStored name n false base h =
    subst (IsStored name) (sym (store-none (λ (h : Host). h.name) n base.hosts)) h

pub entry-IsStored :
    (name : Bytes) (address : Bytes → ℕ) (memory resolve : Bool) (max_len : ℕ) (s : Bytes)
    (base : Base)
    → IsStored name base.hosts
    → IsStored name (host_entry address memory resolve max_len s base).1.hosts
unfolding host_entry
entry-IsStored name address memory resolve max_len s base h =
    let n = (read_name (limit max_len) s).0 in
    elim (Bool-cases (is_empty n || same_bytes n (codes "localhost"))) [
      | inl local ↦ rw local h
      | inr host ↦ rw host (
          renamed-IsStored name (host_store memory n base).0
            (resolved address resolve (host_store memory n base)).0
            (names-resolved address resolve (host_store memory n base))
            (store-IsStored name n memory base h))
    ]

pub flags-IsStored :
    (name : Bytes) (flags : ℕ) (base : Base) (o : Option Host)
    → IsStored name base.hosts
    → IsStored name (with_flags flags base o).0.hosts
flags-IsStored name flags base none h = h
flags-IsStored name flags base (some g) h =
    let g' = record g { flags = changed_flags flags g.flags } in
    renamed-IsStored name base.hosts (replaced g' base.hosts) (names-replaced g' base.hosts) h

pub domain-IsStored :
    (name : Bytes) (base : Base) (r : List Domain × Option Domain)
    → IsStored name base.hosts
    → IsStored name (with_domain base r).0.hosts
domain-IsStored name base (domains, none) h = h
domain-IsStored name base (domains, some d) h =
    renamed-IsStored name base.hosts (spread d base.hosts) (names-spread d base.hosts) h
