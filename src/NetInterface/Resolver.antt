-- ===== src/NetInterface/Resolver.antt =====
-- The resolver's part of 010/net_interface/net_interface.cpp, and 010/main.cpp: what getaddrinfo and
-- gethostbyname give of a name, and what is printed of it.
use auxiliary_tool.Common.{
  codes, ℕ, suc, ◌++◌, Bool, Option, none, some, List, [], ◌∷◌, Bytes, ℤ, pos, minus_one,
  if◌then◌else◌,
}
use auxiliary_tool.Resources.{Heap, address_list, and_release}
use auxiliary_tool.NetInterface.{Family, packet, inet, inet6, other}

-- The length that name_info gives to getnameinfo: its second test is of the constant AF_INET6,
-- which is never 0.
unfoldable pub addrlen : Family → ℕ
addrlen inet = 16
addrlen packet = 28
addrlen inet6 = 28
addrlen (other n) = 28

-- A call of getnameinfo, by the family and the length.
abbrev pub Lookup : Type 0
Lookup = Family → ℕ → Option (Bytes × Bytes)

-- What name_info prints: the host and the service, or nothing but an error's text.
unfoldable pub name_info : Lookup → Family → Option (Bytes × Bytes)
name_info lookup family = lookup family (addrlen family)

-- An entry of getaddrinfo: its canonical name, which is NULL where no hints ask for it, and what
-- inet_ntoa makes of the four bytes in which an IPv4 address stands, whatever the family.
pub record Entry : Type 0 where
  pub family : Family
  pub canonname : Option Bytes
  pub dotted : Bytes

-- The lines of addrinfo. NULL is printed with "%s".
pub data InfoLine : Type 0 where
  resolver_error : InfoLine
  family_line : Family → InfoLine
  canon_line : Option Bytes → InfoLine
  dotted_line : Bytes → InfoLine
  name_line : Option (Bytes × Bytes) → InfoLine

unfoldable pub entry_lines : Lookup → Entry → List InfoLine
entry_lines lookup e =
    family_line e.family
    ∷ canon_line e.canonname
    ∷ dotted_line e.dotted
    ∷ name_line (name_info lookup e.family)
    ∷ []

unfoldable pub all_entries : Lookup → List Entry → List InfoLine
all_entries lookup [] = []
all_entries lookup (e ∷ es) = entry_lines lookup e ++ all_entries lookup es

-- The result is `none` where getaddrinfo fails, and then NULL is freed.
unfoldable pub addrinfo : Lookup → Option (List Entry) → Heap → ℤ × List InfoLine × Option Heap
addrinfo lookup none h = (pos 0, resolver_error ∷ [], some h)
addrinfo lookup (some entries) h =
    (pos 0, all_entries lookup entries, and_release address_list (some (address_list ∷ h)))

-- A struct hostent, with the test of its address type.
pub record Host : Type 0 where
  pub name : Bytes
  pub aliases : List Bytes
  pub is_inet : Bool
  pub addresses : List Bytes

-- The lines of addrinfo_obsolete, with the index of an alias or an address.
pub data HostLine : Type 0 where
  host_line : Bytes → HostLine
  alias_line : ℕ → Bytes → HostLine
  type_line : Bytes → HostLine
  address_line : ℕ → Bytes → HostLine

-- `for (int i=0; …[i]; i++)`
unfoldable pub numbered : (ℕ → Bytes → HostLine) → ℕ → List Bytes → List HostLine
numbered line i [] = []
numbered line i (s ∷ ss) = line i s ∷ numbered line (suc i) ss

-- The host is `none` where gethostbyname fails.
unfoldable pub addrinfo_obsolete : Option Host → ℤ × List HostLine
addrinfo_obsolete none = (minus_one, [])
addrinfo_obsolete (some host) = (
  pos 0,
  (host_line host.name ∷ numbered alias_line 0 host.aliases)
      ++ (type_line (if host.is_inet then codes "AF_INET" else codes "AF_INET6")
          ∷ numbered address_line 0 host.addresses),
)

-- main of 010/main.cpp: the quit flag is set before the loop, which does not wait.
unfoldable pub main : Lookup → Option (List Entry) → Heap → ℤ × List InfoLine × Option Heap
main lookup entries h = let (_, lines, h') = addrinfo lookup entries h in (pos 0, lines, h')
