-- ===== src/Solicit/Tests.antt =====
-- A solicitation, and the types of its filter.
use auxiliary_tool.Common.{◌≡◌, refl, false, true, none, some, [], ◌∷◌, pos}
use auxiliary_tool.Resources.{socket_fd}
use auxiliary_tool.Solicit.{filled, Options, Replies, router_solicitation, main}

-- A new raw socket: it lets everything through.
abbrev new_socket : Options
new_socket = record {
  icmp_filter = filled 32 0;
  dont_route = 0;
  multicast_hops = 1;
  unicast_hops = 64;
  recv_hop_limit = 0;
}

abbrev all_done : Replies
all_done = record {
  socket_ok = true;
  filter_ok = true;
  dont_route_ok = true;
  multicast_ok = true;
  unicast_ok = true;
  recv_hop_limit_ok = true;
  pton_ok = true;
  send_ok = true;
}

no_argument : main none all_done new_socket [] ≡ (pos 0, none, [])
unfolding main
no_argument = refl

no_socket : main (some 2) (record all_done { socket_ok = false }) new_socket [] ≡ (pos 0, none, [])
unfolding main router_solicitation
no_socket = refl

-- Nothing is sent, and the result is 0 all the same.
not_sent :
    router_solicitation (record all_done { send_ok = false }) new_socket 2 []
    ≡ (pos 0, none, socket_fd ∷ [])
unfolding router_solicitation
not_sent = refl

-- The option of the hop limit was refused, and a message of type 135 is asked about.
abbrev hops_refused : Replies
hops_refused = record all_done { multicast_ok = false }
