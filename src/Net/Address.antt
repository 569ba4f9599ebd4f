-- ===== src/Net/Address.antt =====
-- The addresses of src/net.c.
pub mod Order
pub mod Raw
use Prim.Native.Nat.{compare, Ordering}
use lua_conmanorg.Prelude.{
  ℕ, zero, suc, ◌+◌, ◌*◌, ◌/◌, ◌%◌, ltb, leb, ◌==◌, ◌||◌, ◌&&◌, not, Bool, true, false,
  if◌then◌else◌, List, [], ◌∷◌, ◌++◌, Option, none, some, take, length, codes, same_string, decimal,
  ℤ, pos, negsuc, Stop, Outcome, ok, stop, lua_error, undefined, assertion, assert, ◌>>=◌, ◌>>◌,
}

-- `sockaddr_all__t`, by its family, which is AF_INET, AF_INET6, AF_UNIX, or another one; a port is a
-- number of the host.
pub data SockAddr : Type 0 where
  ip : List ℕ → ℕ → SockAddr
  ip6 : List ℕ → ℕ → SockAddr
  unix : List ℕ → SockAddr
  other : ℕ → SockAddr

unfoldable pub family : SockAddr → ℕ
family (ip addr port) = 2
family (ip6 addr port) = 10
family (unix path) = 1
family (other f) = f

-- `Inet_address` and `Inet_addrlen`: the bytes, whose number the second one gives.
unfoldable pub inet_address : SockAddr → Outcome (List ℕ)
inet_address (ip addr port) = ok addr
inet_address (ip6 addr port) = ok addr
inet_address (unix path) = ok path
inet_address (other f) = stop assertion

unfoldable pub inet_addrlen : SockAddr → Outcome ℕ
inet_addrlen (ip addr port) = ok 4
inet_addrlen (ip6 addr port) = ok 16
inet_addrlen (unix path) = ok (length path)
inet_addrlen (other f) = stop assertion

unfoldable pub inet_port : SockAddr → Outcome ℕ
inet_port (ip addr port) = ok port
inet_port (ip6 addr port) = ok port
inet_port (unix path) = ok 0
inet_port (other f) = stop assertion

unfoldable pub with_port : SockAddr → ℕ → Outcome SockAddr
with_port (ip addr old) port = ok (ip addr port)
with_port (ip6 addr old) port = ok (ip6 addr port)
with_port (unix path) port = stop assertion
with_port (other f) port = stop assertion

unfoldable pub inet_setport : SockAddr → ℤ → Outcome SockAddr
inet_setport addr (negsuc n) = stop assertion
inet_setport addr (pos port) = assert (leb port 65535) >> with_port addr port

-- memcmp() of the first `n` bytes; the sign of a result is an ordering.
unfoldable pub memcmp : ℕ → List ℕ → List ℕ → Ordering
memcmp zero a b = Ordering.eq
memcmp (suc n) [] b = Ordering.eq
memcmp (suc n) (x ∷ a) [] = Ordering.eq
memcmp (suc n) (x ∷ a) (y ∷ b) =
    let rest = memcmp n a b in
    elim (compare x y) as (λ _. Ordering) [
      | Ordering.lt ↦ Ordering.lt
      | Ordering.gt ↦ Ordering.gt
      | Ordering.eq ↦ rest
    ]

-- The first comparison that is not 0.
unfoldable pub or_then : Ordering → Ordering → Ordering
or_then Ordering.lt next = Ordering.lt
or_then Ordering.gt next = Ordering.gt
or_then Ordering.eq next = next

unfoldable pub comp_parts : Ordering → ℕ → ℕ → List ℕ → List ℕ → ℕ → ℕ → Ordering
comp_parts families la lb pa pb porta portb = or_then families (
    or_then (memcmp (if ltb la lb then la else lb) pa pb)
      (or_then (compare la lb) (compare porta portb)))

-- Addresses of different families are not looked at further.
unfoldable pub comp_same : SockAddr → SockAddr → Outcome Ordering
comp_same a b = inet_addrlen a >>= λ la. inet_addrlen b >>= λ lb. inet_address a >>= λ pa.
    inet_address b >>= λ pb. inet_port a >>= λ porta.
    inet_port b >>= λ portb. ok (comp_parts Ordering.eq la lb pa pb porta portb)

unfoldable pub inet_comp : SockAddr → SockAddr → Outcome Ordering
inet_comp a b = elim (compare (family a) (family b)) as (λ _. Outcome Ordering) [
  | Ordering.lt ↦ ok Ordering.lt
  | Ordering.gt ↦ ok Ordering.gt
  | Ordering.eq ↦ comp_same a b
]

abbrev is_eq : Ordering → Bool
is_eq Ordering.eq = true
is_eq Ordering.lt = false
is_eq Ordering.gt = false

abbrev is_lt : Ordering → Bool
is_lt Ordering.lt = true
is_lt Ordering.eq = false
is_lt Ordering.gt = false

unfoldable pub addrlua___eq : SockAddr → SockAddr → Outcome Bool
addrlua___eq a b = inet_comp a b >>= λ o. ok (is_eq o)

unfoldable pub addrlua___lt : SockAddr → SockAddr → Outcome Bool
addrlua___lt a b = inet_comp a b >>= λ o. ok (is_lt o)

unfoldable pub addrlua___le : SockAddr → SockAddr → Outcome Bool
addrlua___le a b = inet_comp a b >>= λ o. ok (is_lt o || is_eq o)

-- What the module asks of the C library: inet_pton() for the two families, inet_ntop(), and the tables
-- of protocols and services, which find a number in the order of the network or nothing.
pub record Resolver : Type 0 where
  pub pton : List ℕ → Option (List ℕ)
  pub pton6 : List ℕ → Option (List ℕ)
  pub ntop : List ℕ → List ℕ
  pub protocol : List ℕ → Option ℕ
  pub service : List ℕ → List ℕ → Option ℕ

-- The Lua values that name a protocol or a port: an integer, a string that is no number, or another
-- value.
pub data Named : Type 0 where
  number : ℤ → Named
  name : List ℕ → Named
  no_name : Named

pub data Field : Type 0 where
  text : List ℕ → Field
  integer : ℕ → Field
  display : Field
  nil : Field

unfoldable pub is_proto : ℕ → ℤ → Bool
is_proto n (pos p) = p == n
is_proto n (negsuc p) = false

-- IPPROTO_TCP, IPPROTO_UDP and IPPROTO_SCTP have ports.
unfoldable pub has_ports : ℤ → Bool
has_ports p = is_proto 6 p || is_proto 17 p || is_proto 132 p

unfoldable pub tproto : ℤ → Outcome (List ℕ)
tproto p =
    if is_proto 6 p
    then ok (codes "tcp")
    else if is_proto 17 p
    then ok (codes "udp")
    else if is_proto 132 p
    then ok (codes "sctp")
    else stop assertion

-- ntohs().
unfoldable pub port_of : Option ℕ → Outcome ℤ
port_of none = stop undefined
port_of (some n) = ok (pos (n % 256 * 256 + n / 256 % 256))

-- For a name that is not in the table, the result that is read was not written.
unfoldable pub protocol_of : Option ℕ → Outcome ℤ
protocol_of none = stop undefined
protocol_of (some p) = ok (pos p)

-- The fields of an address; `rest` is what stands behind a path in its array, which is all given.
unfoldable pub addrbits : List ℕ → SockAddr → Outcome (List ℕ)
addrbits rest (ip addr port) = ok addr
addrbits rest (ip6 addr port) = ok addr
addrbits rest (unix path) = ok (path ++ rest)
addrbits rest (other f) = stop assertion

unfoldable pub family_name : SockAddr → Outcome (List ℕ)
family_name (ip addr port) = ok (codes "ip")
family_name (ip6 addr port) = ok (codes "ip6")
family_name (unix path) = ok (codes "unix")
family_name (other f) = stop assertion

module _ (resolver : Resolver) where
  unfoldable pub net_toproto : Named → Outcome ℤ
  net_toproto (number n) = ok n
  net_toproto (name proto) = protocol_of (resolver.protocol proto)
  net_toproto no_name = ok (pos 0)

  unfoldable pub net_toport : Named → ℤ → Outcome ℤ
  net_toport (number n) proto = ok n
  net_toport (name serv) proto = tproto proto >>= λ t. port_of (resolver.service serv t)
  net_toport no_name proto = ok (pos 0)

  -- The port of an address: that of the protocol, or else the protocol itself.
  unfoldable pub set_port : SockAddr → ℤ → Named → Outcome SockAddr
  set_port addr proto port =
      if has_ports proto
      then (net_toport port proto >>= λ n. inet_setport addr n)
      else inet_setport addr proto

  unfoldable pub finish : SockAddr → Named → Named → Outcome (Option SockAddr × ℕ)
  finish addr proto port = net_toproto proto >>= λ p. set_port addr p port >>= λ a. ok (some a, 0)

  -- The path has room for 107 characters.
  unfoldable pub address_of :
      Option (List ℕ) → Option (List ℕ) → List ℕ → Named → Named → Outcome (Option SockAddr × ℕ)
  address_of (some four) sixteen host proto port = finish (ip four 0) proto port
  address_of none (some sixteen) host proto port = finish (ip6 sixteen 0) proto port
  address_of none none host proto port =
      if ltb 107 (length host) then ok (none, 22) else ok (some (unix host), 0)

  unfoldable pub netlua_address : List ℕ → Named → Named → Outcome (Option SockAddr × ℕ)
  netlua_address host proto port =
      address_of (resolver.pton host) (resolver.pton6 host) host proto port

  unfoldable pub netlua_addressraw : List ℕ → Named → Named → Outcome (Option SockAddr × ℕ)
  netlua_addressraw bin proto port =
      if length bin == 4
      then finish (ip bin 0) proto port
      else if length bin == 16
      then finish (ip6 bin 0) proto port
      else ok (none, 22)

  unfoldable pub inet_addr : SockAddr → Outcome (List ℕ)
  inet_addr (ip addr port) = ok (resolver.ntop addr)
  inet_addr (ip6 addr port) = ok (resolver.ntop addr)
  inet_addr (unix path) = ok path
  inet_addr (other f) = stop assertion

  abbrev in_brackets : List ℕ → List ℕ
  in_brackets s = b'[' ∷ s ++ codes "]"

  abbrev with_number : List ℕ → ℕ → List ℕ
  with_number s port = s ++ (b':' ∷ decimal (pos port))

  unfoldable pub addrmeta_display : SockAddr → ℕ → Outcome (List ℕ)
  addrmeta_display (ip addr port) defport =
      ok (if port == defport then resolver.ntop addr else with_number (resolver.ntop addr) port)
  addrmeta_display (ip6 addr port) defport = ok (
      if port == defport
      then in_brackets (resolver.ntop addr)
      else with_number (in_brackets (resolver.ntop addr)) port)
  addrmeta_display (unix path) defport = ok path
  addrmeta_display (other f) defport = stop assertion

  unfoldable pub addrlua___tostring : SockAddr → List ℕ
  addrlua___tostring (ip addr port) = with_number (resolver.ntop addr) port
  addrlua___tostring (ip6 addr port) = with_number (in_brackets (resolver.ntop addr)) port
  addrlua___tostring (unix path) = path
  addrlua___tostring (other f) = with_number (codes "unknown") f

  unfoldable pub daddr : SockAddr → Outcome (List ℕ)
  daddr (ip addr port) = ok (resolver.ntop addr)
  daddr (ip6 addr port) = ok (in_brackets (resolver.ntop addr))
  daddr (unix path) = ok path
  daddr (other f) = stop assertion

  unfoldable pub addrlua___index : List ℕ → SockAddr → List ℕ → Outcome Field
  addrlua___index rest addr sidx =
      if same_string sidx (codes "addr")
      then (inet_addr addr >>= λ p. ok (text p))
      else if same_string sidx (codes "daddr")
      then (daddr addr >>= λ p. ok (text p))
      else if same_string sidx (codes "addrbits")
      then (addrbits rest addr >>= λ p. ok (text p))
      else if same_string sidx (codes "port")
      then (inet_port addr >>= λ n. ok (integer n))
      else if same_string sidx (codes "family")
      then (family_name addr >>= λ p. ok (text p))
      else if same_string sidx (codes "display")
      then ok display
      else ok nil
