-- ===== src/NetInterface/Tests.antt =====
-- Runs of 010.
use auxiliary_tool.Common.{
  ◌≡◌, refl, true, false, none, some, [], ◌∷◌, codes, pos, minus_one, inl, arith, ◌==◌,
  if◌then◌else◌,
}
use auxiliary_tool.Resources.{content, socket_fd, release, and_release}
use auxiliary_tool.NetInterface.{
  inet, inet6, packet, SocketCalls, Interface, heading, address, host_name, name_failed, counters,
  has_byte, family_of, get_ifaddr, show_interface, show_family, show_address, show_counters,
  if_nameindex_demo, named_indices, scope_line, connect_error, get_sockaddr, scope_lines,
  peer_lines,
}
use auxiliary_tool.NetInterface.Resolver.{
  name_info, all_entries, entry_lines, addrlen, addrinfo, family_line, canon_line, dotted_line,
  name_line,
}
use auxiliary_tool.NetInterface.Release.{get_ifaddr-ends, get_ifaddr-Stops}

abbrev lo : Interface
lo = record {
  name = codes "lo";
  family = some inet;
  ipaddr = codes "127.0.0.1";
  host = some (codes "127.0.0.1");
  stats = none;
}

abbrev nameless : Interface
nameless = record lo { host = none }

abbrev link : Interface
link = record lo { family = some packet; stats = some (1, 2, 3, 4) }

abbrev refused : SocketCalls
refused = record {
  scope = some 2;
  parses = true;
  socket_ok = true;
  connect_ok = false;
  getsockname_ok = true;
  local_ip = λ family. codes "127.0.0.1";
}

mixed_is_inet6 : family_of (codes "::1.2") ≡ some inet6
unfolding family_of has_byte
mixed_is_inet6 = refl

indices :
    if_nameindex_demo (some ((1, some (codes "lo")) ∷ (0, none) ∷ [])) []
    ≡ (pos 0, (1, some (codes "lo")) ∷ [], some [])
unfolding if_nameindex_demo named_indices and_release release
indices = refl

refused_scope :
    get_sockaddr refused (codes "::1") []
    ≡ (minus_one, scope_line 2 ∷ connect_error ∷ [], socket_fd ∷ [])
unfolding get_sockaddr peer_lines scope_lines family_of has_byte
refused_scope = refl

-- The length for a link address is that of an IPv6 address.
link_length :
    addrinfo
      (λ family n. if n == 28 then some (codes "h", codes "0") else none)
      (some (record { family = packet; canonname = none; dotted = codes "0.0.0.0" } ∷ []))
      []
    ≡ (
      pos 0,
      family_line packet
          ∷ canon_line none
          ∷ dotted_line (codes "0.0.0.0")
          ∷ name_line (some (codes "h", codes "0"))
          ∷ [],
      some [],
    )
unfolding addrinfo all_entries entry_lines name_info addrlen and_release release
link_length = refl

get_ifaddr-ends_example : get_ifaddr (some (link ∷ lo ∷ [])) (content ∷ []) ≡ (
  pos 0,
  heading (codes "lo") packet
      ∷ counters (1, 2, 3, 4)
      ∷ heading (codes "lo") inet
      ∷ address (codes "127.0.0.1")
      ∷ host_name (codes "127.0.0.1")
      ∷ [],
  some (content ∷ []),
)
unfolding show_interface show_family show_address show_counters
get_ifaddr-ends_example =
    get_ifaddr-ends (link ∷ lo ∷ []) (content ∷ [])
      ((λ stop. ground (arith, stop)), ((λ stop. ground (arith, stop)), tt))

get_ifaddr-Stops_example : get_ifaddr (some (link ∷ nameless ∷ lo ∷ [])) [] ≡ (
  minus_one,
  heading (codes "lo") packet
      ∷ counters (1, 2, 3, 4)
      ∷ heading (codes "lo") inet
      ∷ address (codes "127.0.0.1")
      ∷ name_failed
      ∷ [],
  some [],
)
unfolding show_interface show_family show_address show_counters
get_ifaddr-Stops_example =
    get_ifaddr-Stops (link ∷ []) (lo ∷ []) nameless [] ((λ stop. ground (arith, stop)), tt)
      (refl, inl refl)
