-- ===== src/Net/Address/Raw.antt =====
-- Addresses of src/net.c from their bits, and ports that are out of range.
use lua_conmanorg.Net.Address.{
  SockAddr, ip, ip6, unix, other, Resolver, number, net_toproto, has_ports, is_proto, net_toport,
  inet_setport, with_port, set_port, finish, netlua_address, netlua_addressraw, address_of,
  addrbits,
}
use lua_conmanorg.Prelude.{
  ℕ, ◌≤◌, ◌<◌, leb, ◌≡◌, refl, le→leb, [], false, List, length, some, pos, negsuc, ok, stop,
  assertion, arith,
}

-- The families that have ports.
abbrev pub HasPort : SockAddr → Type 0
HasPort (ip addr port) = (length addr ≡ 4) × (port ≤ 65535)
HasPort (ip6 addr port) = (length addr ≡ 16) × (port ≤ 65535)
HasPort _ = ⊥

abbrev pub address_bytes : SockAddr → List ℕ
address_bytes (ip addr port) = addr
address_bytes (ip6 addr port) = addr
address_bytes _ = []

abbrev pub port_number : SockAddr → ℕ
port_number (ip addr port) = port
port_number (ip6 addr port) = port
port_number _ = 0

-- The bits of an address and its port make the address again, by `addressraw` for TCP.
pub addressraw-addrbits :
    (resolver : Resolver) (rest : List ℕ) (a : SockAddr)
    → HasPort a
    → (addrbits rest a ≡ ok (address_bytes a))
      × (netlua_addressraw resolver
            (address_bytes a)
            (number (pos 6))
            (number (pos (port_number a)))
          ≡ ok (some a, 0))
unfolding addrbits netlua_addressraw finish net_toproto set_port has_ports is_proto net_toport
    inet_setport with_port
addressraw-addrbits resolver rest (ip addr port) h =
    (refl, rw h.0 (rw (le→leb port 65535 h.1) refl))
addressraw-addrbits resolver rest (ip6 addr port) h =
    (refl, rw h.0 (rw (le→leb port 65535 h.1) refl))
addressraw-addrbits resolver rest (unix path) h = elim h [ ]
addressraw-addrbits resolver rest (other f) h = elim h [ ]

-- Where the text is an address, the protocol is TCP and the port is a number, `address` gives the
-- address where the number is at most 65535, and otherwise fails an assertion, as it does for every
-- number less than 0.
address-port :
    (resolver : Resolver) (host four : List ℕ) (n : ℕ)
    → resolver.pton host ≡ some four
    → (n ≤ 65535
        → netlua_address resolver host (number (pos 6)) (number (pos n)) ≡ ok (some (ip four n), 0))
      × (65535 < n
          → netlua_address resolver host (number (pos 6)) (number (pos n)) ≡ stop assertion)
      × (netlua_address resolver host (number (pos 6)) (number (negsuc n)) ≡ stop assertion)
unfolding netlua_address address_of finish net_toproto set_port has_ports is_proto net_toport
    inet_setport with_port
address-port resolver host four n e = (
  λ h. rw e (rw (le→leb n 65535 h) refl),
  λ h. (let too_big : leb n 65535 ≡ false = ground arith in rw e (rw too_big refl)),
  rw e refl,
)
