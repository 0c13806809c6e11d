-- ===== src/Location/Domains.antt =====
-- src/Location.c: `location_DBdomain`.
pub mod Missed
use highwire.Common.{
  ℕ, zero, suc, ◌+◌, ◌-◌, Bool, true, false, not, ◌&&◌, ◌||◌, Option, none, some, List, [], ◌∷◌,
  length, take, ◌==◌, if◌then◌else◌, ltb, leb,
}
use highwire.Common.Bytes.{Bytes}
use highwire.Common.Check.{same_bytes}
use highwire.Location.{Host, Domain, Base, limit, read_name, changed_flags}
use highwire.Location.Store.{Stored, store}
use highwire.Location.Hosts.{ends_with_domain}

-- `while (*name == '.' && max_len != 1)`: max_len and the place
unfoldable pub skip_dots : ℕ → Bytes → ℕ × Bytes
skip_dots max_len [] = (max_len, [])
skip_dots max_len (c ∷ s) =
    let later = skip_dots (max_len - 1) s in
    if c == b'.' && not (max_len == 1) then later else (max_len, c ∷ s)

abbrev pub flagged : ℕ → Host → Host
flagged flags h = record h { flags = flags }

-- hosts that are longer than the domain
abbrev pub spread_longer : Domain → List Host → List Host
spread_longer d [] = []
spread_longer d (h ∷ hosts) =
    (if ends_with_domain h.name d.name then flagged d.flags h else h) ∷ spread_longer d hosts

-- behind the host of that name
abbrev pub spread_behind : Domain → List Host → List Host
spread_behind d [] = []
spread_behind d (h ∷ hosts) =
    let later = spread_behind d hosts in
    if length h.name == length d.name then h ∷ later else spread_longer d (h ∷ hosts)

abbrev pub spread_equal : Domain → List Host → List Host
spread_equal d [] = []
spread_equal d (h ∷ hosts) =
    let later = spread_equal d hosts in
    if length h.name == length d.name
    then if same_bytes h.name d.name then flagged d.flags h ∷ spread_behind d hosts else h ∷ later
    else spread_longer d (h ∷ hosts)

-- "update domain flags to matching host entries"
unfoldable pub spread : Domain → List Host → List Host
spread d [] = []
spread d (h ∷ hosts) =
    let later = spread d hosts in
    if ltb (length h.name) (length d.name) then h ∷ later else spread_equal d (h ∷ hosts)

abbrev pub with_domain : Base → List Domain × Option Domain → Base × ℕ × Option Bytes
with_domain base (domains, none) = (base, 0, none)
with_domain base (domains, some d) =
    (record base { domains = domains; hosts = spread d base.hosts }, d.flags, some d.name)

-- `(long)*p_flags > 0l`
abbrev pub sets_flags : ℕ → Bool
sets_flags flags = ltb 0 flags && ltb flags 0x80000000

abbrev pub new_domain : Bool → ℕ → Bytes → Option Domain
new_domain memory flags name =
    if sets_flags flags && memory
    then some record { flags = changed_flags flags 0; name = name }
    else none

-- `memcmp (name, ent->Name, len)`, where `name` is the place behind the name that was read
abbrev pub is_entry : Bytes → ℕ → Domain → Bool
is_entry rest len d = same_bytes (take len rest) d.name

abbrev pub domain_store : Bool → ℕ → Bytes → Bytes → List Domain → List Domain × Option Domain
domain_store memory flags name rest domains =
    store (λ (d : Domain). d.name) (is_entry rest (length name)) (length name)
      (λ d. record d { flags = changed_flags flags d.flags }) (new_domain memory flags name) domains

-- the base, the flags and the name
unfoldable pub location_db_domain : Bool → Bytes → ℕ → ℕ → Base → Base × ℕ × Option Bytes
location_db_domain memory s max_len flags base =
    let (max_len', s') = skip_dots max_len s in
    let (name, rest) = read_name (limit max_len') s' in
    let stored = with_domain base (domain_store memory flags name rest base.domains) in
    if ltb (length name) 2 then (base, 0, none) else stored
