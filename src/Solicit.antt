-- ===== src/Solicit.antt =====
-- 012/main.cpp: router_solicitation, which asks the routers of a link to advertise themselves. Where
-- the socket can be opened the program does not look at the results of its other calls.
pub mod Filter
mod Tests
use auxiliary_tool.Common.{
  ℕ, zero, suc, ◌+◌, ◌/◌, ◌%◌, ◌^◌, Bool, true, false, not, Option, none, some, List, [], ◌∷◌,
  Bytes, codes, ℤ, pos, minus_one, ltb, ◌==◌, if◌then◌else◌, take,
}
use auxiliary_tool.Resources.{Heap, socket_fd}

-- memset over an array of `n` bytes
unfoldable pub filled : ℕ → ℕ → Bytes
filled zero b = []
filled (suc n) b = b ∷ filled n b

-- s[i] = b
unfoldable pub set_at : ℕ → ℕ → Bytes → Bytes
set_at i b [] = []
set_at zero b (c ∷ s) = b ∷ s
set_at (suc i) b (c ∷ s) = c ∷ set_at i b s

-- The options that are set on the socket.
pub record Options : Type 0 where
  pub icmp_filter : Bytes
  pub dont_route : ℕ
  pub multicast_hops : ℕ
  pub unicast_hops : ℕ
  pub recv_hop_limit : ℕ

abbrev pub icmp : Bytes
icmp = set_at 16 0xbf (filled 32 0xff)

abbrev pub rt_sol : Bytes
rt_sol = set_at 0 133 (filled 32 0)

-- What the calls say: each is done, or fails and changes nothing.
pub record Replies : Type 0 where
  pub socket_ok : Bool
  pub filter_ok : Bool
  pub dont_route_ok : Bool
  pub multicast_ok : Bool
  pub unicast_ok : Bool
  pub recv_hop_limit_ok : Bool
  pub pton_ok : Bool
  pub send_ok : Bool

-- The options behind the calls of setsockopt, over those of a new socket.
unfoldable pub options : Replies → Options → Options
options r initial = record {
  icmp_filter = if r.filter_ok then icmp else initial.icmp_filter;
  dont_route = if r.dont_route_ok then 1 else initial.dont_route;
  multicast_hops = if r.multicast_ok then 255 else initial.multicast_hops;
  unicast_hops = if r.unicast_ok then 255 else initial.unicast_hops;
  recv_hop_limit = if r.recv_hop_limit_ok then 1 else initial.recv_hop_limit;
}

-- What sendto sends, with the options of the socket at that time. The address is `none` where
-- inet_pton has not set it.
pub record Sent : Type 0 where
  pub address : Option Bytes
  pub scope_id : ℕ
  pub packet : Bytes
  pub with_options : Options

-- `initial` is what a new socket has, and `scope_id` what if_nametoindex gives for the interface.
unfoldable pub router_solicitation : Replies → Options → ℕ → Heap → ℤ × Option Sent × Heap
unfolding options
router_solicitation r initial scope_id h = if not r.socket_ok then (minus_one, none, h) else (
  pos 0,
  if r.send_ok
      then some record {
        address = if r.pton_ok then some (codes "ff02::2") else none;
        scope_id = scope_id;
        packet = take 8 rt_sol;
        with_options = options r initial;
      }
      else none,
  socket_fd ∷ h,
)

-- main, with an argument or not: g_debug_quit is set before the loop, which does not wait.
unfoldable pub main : Option ℕ → Replies → Options → Heap → ℤ × Option Sent × Heap
main none r initial h = (pos 0, none, h)
main (some scope_id) r initial h =
    let (_, sent, h') = router_solicitation r initial scope_id h in (pos 0, sent, h')
