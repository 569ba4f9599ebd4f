-- ===== src/Net/Address/Order.antt =====
-- The comparison of addresses in src/net.c is an order.
use Prim.Native.Nat.{compare, Ordering}
use lua_conmanorg.Bsearch.{strcmp}
use lua_conmanorg.Bsearch.Order.{strcmp_refl, strcmp→eq, strcmp_turn, strcmp_flip, strcmp_trans}
use lua_conmanorg.Net.Address.{
  SockAddr, ip, ip6, unix, other, family, inet_address, inet_addrlen, inet_port, memcmp, or_then,
  comp_parts, comp_same, inet_comp,
}
use lua_conmanorg.Prelude.{
  ℕ, ltb, ◌≡◌, refl, sym, ap, ap₂, ◌∙◌, if◌then◌else◌, List, [], ◌∷◌, length, ok, ok_inj, arith,
}

-- An address of a family that the module makes, with as many bytes as the family has.
abbrev pub Sized : SockAddr → Type 0
Sized (ip addr port) = length addr ≡ 4
Sized (ip6 addr port) = length addr ≡ 16
Sized (unix path) = Unit {0}
Sized (other f) = ⊥

shorter : ℕ → ℕ → ℕ
shorter la lb = if ltb la lb then la else lb

-- The bytes that both have and then the lengths are the order of strings.
memcmp-strcmp :
    (a b : List ℕ)
    → or_then (memcmp (shorter (length a) (length b)) a b) (compare (length a) (length b))
      ≡ strcmp a b
unfolding or_then memcmp strcmp shorter
memcmp-strcmp [] [] = ground arith
memcmp-strcmp [] (y ∷ b) = ground arith
memcmp-strcmp (x ∷ a) [] = ground arith
memcmp-strcmp (x ∷ a) (y ∷ b) = ground (arith, memcmp-strcmp a b)

-- The order by the family, the bytes and the port.
bytes : SockAddr → List ℕ
bytes (ip addr port) = addr
bytes (ip6 addr port) = addr
bytes (unix path) = path
bytes (other f) = []

port_of : SockAddr → ℕ
port_of (ip addr port) = port
port_of (ip6 addr port) = port
port_of (unix path) = 0
port_of (other f) = 0

pub address_order : SockAddr → SockAddr → Ordering
unfolding bytes port_of
address_order a b =
    or_then (compare (family a) (family b))
      (or_then (strcmp (bytes a) (bytes b)) (compare (port_of a) (port_of b)))

or_then_assoc : (a b c : Ordering) → or_then a (or_then b c) ≡ or_then (or_then a b) c
unfolding or_then
or_then_assoc Ordering.lt b c = refl
or_then_assoc Ordering.eq b c = refl
or_then_assoc Ordering.gt b c = refl

parts-order :
    (la lb : ℕ) (pa pb : List ℕ) (porta portb : ℕ)
    → length pa ≡ la
    → length pb ≡ lb
    → comp_parts Ordering.eq la lb pa pb porta portb ≡ or_then (strcmp pa pb) (compare porta portb)
unfolding comp_parts shorter or_then
parts-order la lb pa pb porta portb e f =
    or_then_assoc (memcmp (shorter la lb) pa pb) (compare la lb) (compare porta portb)
    ∙ ap (λ o. or_then o (compare porta portb))
        (ap₂ (λ l m. or_then (memcmp (shorter l m) pa pb) (compare l m)) (sym e) (sym f)
          ∙ memcmp-strcmp pa pb)

comp-order : (a b : SockAddr) → Sized a → Sized b → inet_comp a b ≡ ok (address_order a b)
unfolding inet_comp comp_same address_order family inet_addrlen inet_address inet_port or_then bytes
    port_of
comp-order (ip a p) (ip b q) h k = ap ok (parts-order 4 4 a b p q h k)
comp-order (ip a p) (ip6 b q) h k = refl
comp-order (ip a p) (unix b) h k = refl
comp-order (ip6 a p) (ip b q) h k = refl
comp-order (ip6 a p) (ip6 b q) h k = ap ok (parts-order 16 16 a b p q h k)
comp-order (ip6 a p) (unix b) h k = refl
comp-order (unix a) (ip b q) h k = refl
comp-order (unix a) (ip6 b q) h k = refl
comp-order (unix a) (unix b) h k = ap ok (parts-order (length a) (length b) a b 0 0 refl refl)
comp-order (other f) b h k = absurd h
comp-order (ip a p) (other f) h k = absurd k
comp-order (ip6 a p) (other f) h k = absurd k
comp-order (unix a) (other f) h k = absurd k

order_refl : (a : SockAddr) → address_order a a ≡ Ordering.eq
unfolding address_order or_then
order_refl a = ground (arith, strcmp_refl (bytes a))

strcmp_same : (s t : List ℕ) → strcmp s t ≡ Ordering.eq → strcmp t s ≡ Ordering.eq
strcmp_same s t e = ap (λ r. strcmp r s) (sym (strcmp→eq s t e)) ∙ strcmp_refl s

order-turn : (a b : SockAddr) → address_order a b ≡ Ordering.lt → address_order b a ≡ Ordering.gt
unfolding address_order or_then
order-turn a b e = ground (arith, strcmp_turn (bytes a) (bytes b), strcmp_same (bytes a) (bytes b))

order-flip : (a b : SockAddr) → address_order a b ≡ Ordering.gt → address_order b a ≡ Ordering.lt
unfolding address_order or_then
order-flip a b e = ground (arith, strcmp_flip (bytes a) (bytes b), strcmp_same (bytes a) (bytes b))

-- Both strings may be replaced by an equal one.
strcmp_left : (s t u : List ℕ) → strcmp s t ≡ Ordering.eq → strcmp s u ≡ strcmp t u
strcmp_left s t u e = ap (λ r. strcmp r u) (strcmp→eq s t e)

strcmp_right : (s t u : List ℕ) → strcmp t u ≡ Ordering.eq → strcmp s u ≡ strcmp s t
strcmp_right s t u e = ap (strcmp s) (sym (strcmp→eq t u e))

order_trans :
    (a b c : SockAddr)
    → address_order a b ≡ Ordering.lt
    → address_order b c ≡ Ordering.lt
    → address_order a c ≡ Ordering.lt
unfolding address_order or_then
order_trans a b c e f = ground (
  arith,
  strcmp_trans (bytes a) (bytes b) (bytes c),
  strcmp_left (bytes a) (bytes b) (bytes c),
  strcmp_right (bytes a) (bytes b) (bytes c),
)

order→eq : (a b : SockAddr) → Sized a → Sized b → address_order a b ≡ Ordering.eq → a ≡ b
unfolding address_order or_then family bytes port_of
order→eq (ip a p) (ip b q) h k e = ground (arith, strcmp→eq a b)
order→eq (ip6 a p) (ip6 b q) h k e = ground (arith, strcmp→eq a b)
order→eq (unix a) (unix b) h k e = ground (arith, strcmp→eq a b)
order→eq (ip a p) (ip6 b q) h k e = cc
order→eq (ip a p) (unix b) h k e = cc
order→eq (ip6 a p) (ip b q) h k e = cc
order→eq (ip6 a p) (unix b) h k e = cc
order→eq (unix a) (ip b q) h k e = cc
order→eq (unix a) (ip6 b q) h k e = cc
order→eq (other f) b h k e = absurd h
order→eq (ip a p) (other f) h k e = absurd k
order→eq (ip6 a p) (other f) h k e = absurd k
order→eq (unix a) (other f) h k e = absurd k

-- Addresses of the families that the module makes are ordered: a comparison of any two of them fails
-- no assertion and is the order by the family, then the bytes of the address, then the port; it gives 0
-- for equal addresses and for no others, so that `==` is equality; the sign turns around with the
-- addresses; and `<` is transitive.
pub comp-IsOrder :
    (a b c : SockAddr)
    → Sized a
    → Sized b
    → Sized c
    → (inet_comp a b ≡ ok (address_order a b))
      × (inet_comp a a ≡ ok Ordering.eq)
      × (inet_comp a b ≡ ok Ordering.eq → a ≡ b)
      × (inet_comp a b ≡ ok Ordering.lt → inet_comp b a ≡ ok Ordering.gt)
      × (inet_comp a b ≡ ok Ordering.gt → inet_comp b a ≡ ok Ordering.lt)
      × (inet_comp a b ≡ ok Ordering.lt
          → inet_comp b c ≡ ok Ordering.lt
          → inet_comp a c ≡ ok Ordering.lt)
comp-IsOrder a b c h k l =
    let order = comp-order a b h k in
    let sign : (o : Ordering) → inet_comp a b ≡ ok o → address_order a b ≡ o =
      λ o e. ok_inj (sym order ∙ e) in
    (
      order,
      comp-order a a h h ∙ ap ok (order_refl a),
      λ e. order→eq a b h k (sign _ e),
      λ e. comp-order b a k h ∙ ap ok (order-turn a b (sign _ e)),
      λ e. comp-order b a k h ∙ ap ok (order-flip a b (sign _ e)),
      λ e f.
          comp-order a c h l
          ∙ ap ok (order_trans a b c (sign _ e) (ok_inj (sym (comp-order b c k l) ∙ f))),
    )
