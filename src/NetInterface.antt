-- ===== src/NetInterface.antt =====
-- 010/net_interface/net_interface.cpp: the local address that reaches a peer, and the lists of the
-- interfaces. The sockets are given by their results; what is held is a heap. A printed line is a
-- constructor; what get_ifaddr and if_nameindex_demo print on stderr is left out.
pub mod Release
pub mod Resolver
mod Tests
use auxiliary_tool.Common.{
  codes, ℕ, zero, suc, ◌++◌, Bool, true, false, not, ◌||◌, Option, none, some, List, [], ◌∷◌, Bytes,
  ℤ, pos, negsuc, minus_one, ◌==◌, if◌then◌else◌,
}
use auxiliary_tool.Resources.{Heap, socket_fd, address_list, and_release}

pub data Family : Type 0 where
  packet inet inet6 : Family
  other : ℕ → Family

-- strstr(peer, c) for a text c of one byte
unfoldable pub has_byte : ℕ → Bytes → Bool
has_byte b [] = false
has_byte b (c ∷ s) = c == b || has_byte b s

-- The family of the socket address that get_sockaddr fills in.
unfoldable pub family_of : Bytes → Option Family
family_of peer =
    if has_byte b':' peer then some inet6 else if has_byte b'.' peer then some inet else none

-- `scope` is what if_nametoindex gives, where the caller names an interface.
pub record SocketCalls : Type 0 where
  pub scope : Option ℕ
  pub parses : Bool  -- whether inet_pton reads the peer
  pub socket_ok : Bool
  pub connect_ok : Bool
  pub getsockname_ok : Bool
  pub local_ip : Family → Bytes  -- what inet_ntop gives of the local address

pub data SocketLine : Type 0 where
  scope_line : ℕ → SocketLine
  parse_error not_supported socket_error connect_error getsockname_error : SocketLine
  local_line : Bytes → SocketLine

-- The index is looked up and printed for an IPv6 address only.
unfoldable pub scope_lines : Family → SocketCalls → List SocketLine
scope_lines inet6 c = elim c.scope [ none ↦ [] | some index ↦ scope_line index ∷ [] ]
scope_lines _ c = []

-- The lines of filling in the address of the peer. Where inet_pton fails, the address stays 0.
unfoldable pub peer_lines : Family → SocketCalls → List SocketLine
peer_lines family c = scope_lines family c ++ (if c.parses then [] else parse_error ∷ [])

-- What is returned, what is printed, and what is held at the end: the socket is not closed.
unfoldable pub get_sockaddr : SocketCalls → Bytes → Heap → ℤ × List SocketLine × Heap
get_sockaddr c peer h = elim (family_of peer) [
  | none ↦ (minus_one, not_supported ∷ [], h)
  | some family ↦
      let lines = peer_lines family c in
      let opened = socket_fd ∷ h in
      if not c.socket_ok
      then (minus_one, lines ++ (socket_error ∷ []), h)
      else if not c.connect_ok
      then (minus_one, lines ++ (connect_error ∷ []), opened)
      else if not c.getsockname_ok
      then (minus_one, lines ++ (getsockname_error ∷ []), opened)
      else (pos 0, lines ++ (local_line (c.local_ip family) ∷ []), opened)
]

-- An entry of getifaddrs. `family` is `none` where ifa_addr is NULL, `host` where getnameinfo
-- fails, and `stats` where ifa_data is NULL.
pub record Interface : Type 0 where
  pub name : Bytes
  pub family : Option Family
  pub ipaddr : Bytes
  pub host : Option Bytes
  pub stats : Option (ℕ × ℕ × ℕ × ℕ)

-- What is printed of an interface: its name and family, its address in both ways, or its counters.
pub data Line : Type 0 where
  heading : Bytes → Family → Line
  address : Bytes → Line
  host_name : Bytes → Line
  name_failed : Line
  counters : ℕ × ℕ × ℕ × ℕ → Line

-- One round of the loop: its lines, and whether it goes on.
unfoldable pub show_address : Interface → List Line × Bool
show_address i = elim i.host [
  | none ↦ (address i.ipaddr ∷ name_failed ∷ [], false)
  | some host ↦ (address i.ipaddr ∷ host_name host ∷ [], true)
]

unfoldable pub show_counters : Interface → List Line
show_counters i = elim i.stats [ none ↦ [] | some stats ↦ counters stats ∷ [] ]

unfoldable pub show_family : Family → Interface → List Line × Bool
show_family packet i = (show_counters i, true)
show_family inet i = show_address i
show_family inet6 i = show_address i
show_family (other n) i = ([], true)

unfoldable pub show_interface : Interface → List Line × Bool
show_interface i = elim i.family [
  | none ↦ ([], true)
  | some family ↦
      let (lines, goes_on) = show_family family i in (heading i.name family ∷ lines, goes_on)
]

-- The loop over the list, and whether it comes to the end.
unfoldable pub show_all : List Interface → List Line × Bool
show_all [] = ([], true)
show_all (i ∷ is) =
    let (rest, ended) = show_all is in
    let (lines, goes_on) = show_interface i in
    if goes_on then (lines ++ rest, ended) else (lines, false)

-- The list is `none` where getifaddrs fails.
unfoldable pub get_ifaddr : Option (List Interface) → Heap → ℤ × List Line × Option Heap
get_ifaddr none h = (minus_one, [], some h)
get_ifaddr (some is) h =
    let (lines, ended) = show_all is in
    (if ended then pos 0 else minus_one, lines, and_release address_list (some (address_list ∷ h)))

-- The list of if_nameindex ends at an entry of index 0 with no name.
unfoldable pub named_indices : List (ℕ × Option Bytes) → List (ℕ × Option Bytes)
named_indices [] = []
named_indices ((zero, none) ∷ entries) = []
named_indices ((suc n, none) ∷ entries) = (suc n, none) ∷ named_indices entries
named_indices ((n, some name) ∷ entries) = (n, some name) ∷ named_indices entries

unfoldable pub if_nameindex_demo :
    Option (List (ℕ × Option Bytes)) → Heap → ℤ × List (ℕ × Option Bytes) × Option Heap
if_nameindex_demo none h = (minus_one, [], some h)
if_nameindex_demo (some entries) h =
    (pos 0, named_indices entries, and_release address_list (some (address_list ∷ h)))
