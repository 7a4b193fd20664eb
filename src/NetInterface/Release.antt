-- ===== src/NetInterface/Release.antt =====
-- What the functions of 010 print and hold.
use auxiliary_tool.Common.{
  ◌≡◌, ◌≢◌, ◌⊎◌, inl, inr, refl, sym, ap, true, false, ◌&&◌, not, none, some, List, [], ◌∷◌, ◌++◌,
  append-nil, Option-cases, Bytes, pos, minus_one, if◌then◌else◌, arith, All,
}
use auxiliary_tool.Resources.{Heap, socket_fd, release, and_release}
use auxiliary_tool.NetInterface.{
  Family, packet, inet, inet6, other, family_of, SocketCalls, get_sockaddr, Interface, Line,
  show_address, show_family, show_interface, show_all, get_ifaddr, peer_lines, connect_error,
  getsockname_error, local_line,
}

-- An entry stops the loop where it has an IP address whose name getnameinfo does not give.
abbrev pub Stops : Interface → Type 0
Stops i = (i.host ≡ none) × ((i.family ≡ some inet) ⊎ (i.family ≡ some inet6))

abbrev pub all_lines : List Interface → List Line
all_lines [] = []
all_lines (i ∷ is) = (show_interface i).0 ++ all_lines is

show_address-goes_on : (i : Interface) → i.host ≢ none → (show_address i).1 ≡ true
unfolding show_address
show_address-goes_on i h = elim (Option-cases i.host) [
  | inl e ↦ absurd (h e)
  | inr (host, e) ↦ rw (e, show_address)
]

show_family-goes_on :
    (family : Family) (i : Interface)
    → (i.family ≡ some family)
    → (Stops i → ⊥)
    → (show_family family i).1 ≡ true
unfolding show_family
show_family-goes_on packet i e h = refl
show_family-goes_on inet i e h = show_address-goes_on i (λ none_given. h (none_given, inl e))
show_family-goes_on inet6 i e h = show_address-goes_on i (λ none_given. h (none_given, inr e))
show_family-goes_on (other n) i e h = refl

show_interface-goes_on : (i : Interface) → (Stops i → ⊥) → (show_interface i).1 ≡ true
unfolding show_interface
show_interface-goes_on i h = elim (Option-cases i.family) [
  | inl e ↦ rw (e, show_interface)
  | inr (family, e) ↦ rw (e, show_interface) (show_family-goes_on family i e h)
]

show_interface-Stops : (i : Interface) → Stops i → (show_interface i).1 ≡ false
unfolding show_interface show_family show_address
show_interface-Stops i (host, inl family) = rw (family, show_interface) (rw (host, show_address))
show_interface-Stops i (host, inr family) = rw (family, show_interface) (rw (host, show_address))

show_all-ends :
    (is : List Interface) → All (λ i. (Stops i → ⊥)) is → show_all is ≡ (all_lines is, true)
unfolding show_all
show_all-ends [] h = refl
show_all-ends (i ∷ is) (hi, h) = rw (show_all-ends is h, show_interface-goes_on i hi)

show_all-Stops :
    (before after : List Interface) (i : Interface)
    → All (λ j. (Stops j → ⊥)) before
    → Stops i
    → show_all (before ++ (i ∷ after)) ≡ (all_lines (before ++ (i ∷ [])), false)
unfolding show_all
show_all-Stops [] after i h stop =
    rw (show_interface-Stops i stop) (ap (λ l. (l, false)) (sym (append-nil _)))
show_all-Stops (j ∷ before) after i (hj, h) stop =
    rw (show_all-Stops before after i h stop, show_interface-goes_on j hj)

-- If getnameinfo gives a name for every IP address in the list, get_ifaddr prints the lines of
-- every entry in order, frees the list, and returns 0.
pub get_ifaddr-ends :
    (is : List Interface) (h : Heap)
    → All (λ i. Stops i → ⊥) is
    → get_ifaddr (some is) h ≡ (pos 0, all_lines is, some h)
unfolding get_ifaddr and_release release
get_ifaddr-ends is h goes = rw (show_all-ends is goes, get_ifaddr)

-- At the first IP address for which getnameinfo fails, get_ifaddr has printed the lines of the
-- entries before it and its own, and none of those behind it; it frees the list and returns -1.
pub get_ifaddr-Stops :
    (before after : List Interface) (i : Interface) (h : Heap)
    → All (λ j. Stops j → ⊥) before
    → Stops i
    → get_ifaddr (some (before ++ (i ∷ after))) h
      ≡ (minus_one, all_lines (before ++ (i ∷ [])), some h)
unfolding get_ifaddr and_release release
get_ifaddr-Stops before after i h goes stop =
    rw (show_all-Stops before after i goes stop, get_ifaddr)

-- Once its socket is open, get_sockaddr ends with that socket still open, whichever later call
-- fails. It returns 0 only if none does, and then the last line that it prints is the local address.
pub get_sockaddr-holds :
    (c : SocketCalls) (peer : Bytes) (family : Family) (h : Heap)
    → family_of peer ≡ some family
    → c.socket_ok ≡ true
    → get_sockaddr c peer h ≡ (
      if c.connect_ok && c.getsockname_ok then pos 0 else minus_one,
      peer_lines family c
          ++ ((if not c.connect_ok
                then connect_error
                else if not c.getsockname_ok
                then getsockname_error
                else local_line (c.local_ip family))
              ∷ []),
      socket_fd ∷ h,
    )
unfolding get_sockaddr
get_sockaddr-holds c peer family h e ok =
    rw (e, get_sockaddr) (rw (ok, get_sockaddr) (ground arith))
