-- ===== src/Location/Tests.antt =====
-- Runs of the database of locations, and its theorems at concrete names.
use Prim.Native.String.{String}
use highwire.Common.{false, ℕ, true, none, some, [], ◌∷◌, ◌≡◌, refl, arith, length}
use highwire.Common.Bytes.{codes}
use highwire.Common.Check.{same_bytes}
use highwire.Location.{Host, Base, read_name, location_port, prot_https}
use highwire.Location.Store.{store, store_equal}
use highwire.Location.Hosts.{host_store, host_entry, domain_flags, location_db_host}
use highwire.Location.Hosts.Kept.{IsOrdered, host_names}
use highwire.Location.Hosts.Found.{Later, now, next, entry, db_host, db_domain, host_store_found}
use highwire.Location.Domains.{location_db_domain, skip_dots, spread}
use highwire.Location.Domains.Missed.{location_db_domain_missed}
use highwire.Location.Paths.{location_db_path}

abbrev host : String → ℕ → Host
host name flags = record { reffs = 0; idx_tag = 0; ip = 0; flags = flags; name = codes name }

abbrev base : Base
base = record {
  hosts = host "a.org" 0 ∷ host "www.b.net" 0 ∷ [];
  domains = record { flags = 4; name = codes "b.net" } ∷ [];
  paths = [];
}

-- the flags of the domain come with a new host
entry_flags :
    host_store true (codes "ftp.b.net") base
    ≡ (host "a.org" 0 ∷ host "www.b.net" 0 ∷ host "ftp.b.net" 4 ∷ [], some (host "ftp.b.net" 4))
unfolding store store_equal domain_flags same_bytes
entry_flags = refl

entry_read : host_entry (λ s. 7) true true 0 (codes "A.Org/x") base ≡ (
  codes "/x",
  record base { hosts = record (host "a.org" 0) { ip = 7 } ∷ host "www.b.net" 0 ∷ [] },
  some (record (host "a.org" 0) { ip = 7 }),
)
unfolding host_entry read_name store store_equal same_bytes domain_flags
entry_read = refl

abbrev stored : Base
stored = record base { hosts = (host_store true (codes "c.de") base).0 }

-- a shorter host is looked up, the flags of the host change, and a domain gives flags to hosts
abbrev one : Base
one = (host_entry (λ s. 7) true true 0 (codes "x.y/") stored).1

abbrev two : Base
two = (location_db_host (λ s. 7) true (codes "C.de") 0 4 one).0

abbrev three : Base
three = (location_db_domain true (codes ".de ") 0 8 two).0

calls : Later stored three
calls =
    next
      (next (next now (entry (λ s. 7) true true 0 (codes "x.y/") stored))
        (db_host (λ s. 7) true (codes "C.de") 0 4 one))
      (db_domain true (codes ".de ") 0 8 two)

host_store_found_example :
    ((h : Host) × (host_store false (codes "c.de") three ≡ (three.hosts, some h))
      × (h.name ≡ codes "c.de"))
    × IsOrdered three.hosts
host_store_found_example =
    host_store_found (codes "c.de") base three false ((omega arith, tt), (tt, tt)) calls

-- the calls did change the base
names_three :
    host_names three.hosts ≡ codes "x.y" ∷ codes "c.de" ∷ codes "a.org" ∷ codes "www.b.net" ∷ []
unfolding host_entry location_db_host location_db_domain read_name skip_dots store store_equal
    same_bytes spread domain_flags
names_three = refl

location_db_domain_missed_example :
    (location_db_domain true (codes "b.net") 0 0 base ≡ (base, 0, none))
    × (length (location_db_domain true (codes "b.net") 0 4 base).0.domains ≡ 2)
unfolding skip_dots read_name
location_db_domain_missed_example =
    location_db_domain_missed (codes "b.net") 0 4 base (omega arith) refl (refl, tt) refl

short_path : location_db_path true (codes "/a/") 4 base ≡ none
unfolding location_db_path
short_path = refl

named_port : location_port prot_https 443 ≡ 0
unfolding location_port
named_port = refl
