-- ===== src/Location.antt =====
-- src/Location.c: the hosts, the domains and the paths that are kept with their flags. Store is the
-- search that the lists share, Hosts `host_entry` and `location_DBhost`, Domains `location_DBdomain`,
-- Paths `location_DBpath`. A list is in the order of `Next`, an entry is known by its name; the
-- length of an entry is that of its name. What `malloc` gives is a parameter.
pub mod Store
pub mod Hosts
pub mod Domains
pub mod Paths
mod Tests
use highwire.Common.{
  ℕ, zero, suc, ◌+◌, Bool, true, false, not, ◌&&◌, ◌||◌, List, [], ◌∷◌, ◌==◌, if◌then◌else◌, leb,
  ltb,
}
use highwire.Common.Bytes.{Bytes, is_alpha, is_digit, to_lower}
use Prim.Native.Nat.{bit_and, bit_or, bit_xor}

pub record Host : Type 0 where
  pub reffs : ℕ
  pub idx_tag : ℕ
  pub ip : ℕ
  pub flags : ℕ
  pub name : Bytes

pub record Domain : Type 0 where
  pub flags : ℕ
  pub name : Bytes

pub record PathEntry : Type 0 where
  pub flags : ℕ
  pub name : Bytes

-- host_base, domain_base and path_base
pub record Base : Type 0 where
  pub hosts : List Host
  pub domains : List Domain
  pub paths : List PathEntry

-- the capacity of `buf`, which is 258, less the NUL
abbrev pub limit : ℕ → ℕ
limit max_len = if max_len == 0 || leb 258 max_len then 257 else max_len

abbrev pub is_name_byte : ℕ → Bool
is_name_byte c = is_alpha c || is_digit c || c == b'.' || c == b'-'

-- `buf` and the place behind the name
unfoldable pub read_name : ℕ → Bytes → Bytes × Bytes
read_name zero s = ([], s)
read_name (suc n) [] = ([], [])
read_name (suc n) (c ∷ s) =
    let (buf, rest) = read_name n s in
    if is_name_byte c then (to_lower c ∷ buf, rest) else ([], c ∷ s)

-- the bit 0x80000000 clears the others of `flags`
unfoldable pub changed_flags : ℕ → ℕ → ℕ
changed_flags flags old =
    if leb 0x80000000 flags then bit_xor old (bit_and old flags) else bit_or old flags

-- PROT_Invalid is not modelled as a location.
pub data Proto : Type 0 where
  prot_file prot_dir prot_about prot_mailto prot_pop prot_http prot_https prot_ftp : Proto

abbrev pub unless_default : ℕ → ℕ → ℕ
unless_default dflt port = if port == dflt then 0 else port

unfoldable pub location_port : Proto → ℕ → ℕ
location_port prot_http port = unless_default 80 port
location_port prot_https port = unless_default 443 port
location_port prot_ftp port = unless_default 21 port
location_port prot_pop port = unless_default 110 port
location_port proto port = 0
