-- ===== src/Location/Hosts.antt =====
-- src/Location.c: `host_store`, `host_entry` and `location_DBhost`. `resolve` is `inet_host_addr`, which
-- gives the address of a name.
pub mod Kept
pub mod Found
use highwire.Common.{
  ℕ, zero, suc, ◌+◌, ◌-◌, Bool, true, false, not, ◌&&◌, ◌||◌, Option, none, some, List, [], ◌∷◌,
  length, drop, ◌==◌, if◌then◌else◌, ltb,
}
use highwire.Common.Bytes.{Bytes, codes, head_byte, is_empty}
use highwire.Common.Check.{same_bytes}
use Prim.Native.Nat.{bit_or}
use highwire.Location.{Host, Domain, Base, limit, read_name, changed_flags}
use highwire.Location.Store.{Stored, store}

-- the name ends with a dot and the domain
abbrev pub ends_with_domain : Bytes → Bytes → Bool
ends_with_domain name d =
    let tail = drop (length name - length d - 1) name in
    head_byte tail == b'.' && same_bytes (drop 1 tail) d

abbrev pub equal_flags : Bytes → ℕ → List Domain → ℕ
equal_flags name flags [] = flags
equal_flags name flags (d ∷ domains) =
    let later = equal_flags name flags domains in
    if length d.name == length name
    then if same_bytes name d.name then bit_or flags d.flags else later
    else flags

-- "set host flags from domain entries"
unfoldable pub domain_flags : Bytes → ℕ → List Domain → ℕ
domain_flags name flags [] = flags
domain_flags name flags (d ∷ domains) =
    let later =
      domain_flags name (if ends_with_domain name d.name then bit_or flags d.flags else flags)
        domains in
    if ltb (length d.name) (length name) then later else equal_flags name flags (d ∷ domains)

abbrev pub new_host : Bytes → List Domain → Host
new_host name domains = record {
  reffs = 0;
  idx_tag = 0;
  ip = 0;
  flags = domain_flags name 0 domains;
  name = name;
}

-- `memory` is whether `malloc` gives some.
abbrev pub host_store : Bool → Bytes → Base → List Host × Option Host
host_store memory name base =
    store (λ (h : Host). h.name) (λ (h : Host). same_bytes name h.name) (length name) (λ h. h)
      (if memory then some (new_host name base.domains) else none) base.hosts

-- an entry has changed
abbrev pub replaced : Host → List Host → List Host
replaced h [] = []
replaced h (g ∷ hosts) =
    let rest = replaced h hosts in if same_bytes g.name h.name then h ∷ hosts else g ∷ rest

abbrev pub resolved : (Bytes → ℕ) → Bool → List Host × Option Host → List Host × Option Host
resolved address resolve (hosts, none) = (hosts, none)
resolved address resolve (hosts, some h) =
    let g = record h { ip = address h.name } in
    if h.ip == 0 && resolve then (replaced g hosts, some g) else (hosts, some h)

-- the place behind the name, the base, and the entry; NULL is the local host
unfoldable pub host_entry :
    (Bytes → ℕ) → Bool → Bool → ℕ → Bytes → Base → Bytes × Base × Option Host
host_entry address memory resolve max_len s base =
    let (name, rest) = read_name (limit max_len) s in
    let (hosts, h) = resolved address resolve (host_store memory name base) in
    if is_empty name || same_bytes name (codes "localhost")
    then (rest, base, none)
    else (rest, record base { hosts = hosts }, h)

abbrev pub with_flags : ℕ → Base → Option Host → Base × ℕ × Option Bytes
with_flags flags base none = (base, 0, none)
with_flags flags base (some h) =
    let g = record h { flags = changed_flags flags h.flags } in
    (record base { hosts = replaced g base.hosts }, g.flags, some g.name)

-- the base, the flags and the name
unfoldable pub location_db_host :
    (Bytes → ℕ) → Bool → Bytes → ℕ → ℕ → Base → Base × ℕ × Option Bytes
location_db_host address memory name len flags base =
    let (rest, base', h) = host_entry address memory false len name base in with_flags flags base' h
