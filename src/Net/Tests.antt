-- ===== src/Net/Tests.antt =====
-- The theorems about src/net.c at examples.
use lua_conmanorg.Bsearch.{first_equal, strcmp, is_partitioned, bsearch_by}
use Prim.Native.Nat.{Ordering}
use lua_conmanorg.Net.Address.{
  SockAddr, ip, unix, Resolver, number, addrbits, inet_comp, netlua_addressraw,
}
use lua_conmanorg.Net.Address.Order.{address_order, comp-IsOrder}
use lua_conmanorg.Net.Address.Raw.{addressraw-addrbits}
use lua_conmanorg.Net.Options.{
  write_as, write_found, find_option, Socket, Assigned, set_int, socklua___index,
  socklua___newindex,
}
use lua_conmanorg.Prelude.{
  ℕ, ◌≡◌, refl, true, List, [], ◌∷◌, none, some, codes, pos, ok, stop, undefined, arith,
}

abbrev four : List ℕ
four = 127 ∷ 0 ∷ 0 ∷ 1 ∷ []

abbrev a : SockAddr
a = ip four 25

abbrev b : SockAddr
b = ip four 80

abbrev c : SockAddr
c = unix (codes "/tmp/s")

comp-IsOrder_example :
    (inet_comp a b ≡ ok (address_order a b))
    × (inet_comp a a ≡ ok Ordering.eq)
    × (inet_comp a b ≡ ok Ordering.eq → a ≡ b)
    × (inet_comp a b ≡ ok Ordering.lt → inet_comp b a ≡ ok Ordering.gt)
    × (inet_comp a b ≡ ok Ordering.gt → inet_comp b a ≡ ok Ordering.lt)
    × (inet_comp a b ≡ ok Ordering.lt
        → inet_comp b c ≡ ok Ordering.lt
        → inet_comp a c ≡ ok Ordering.lt)
comp-IsOrder_example = comp-IsOrder a b c refl refl tt

abbrev resolver : Resolver
resolver = record {
  pton = λ host. some four;
  pton6 = λ host. none;
  ntop = λ addr. codes "127.0.0.1";
  protocol = λ name. some 6;
  service = λ name proto. some 6400;
}

addressraw-addrbits_example :
    (addrbits [] a ≡ ok four)
    × (netlua_addressraw resolver four (number (pos 6)) (number (pos 25)) ≡ ok (some a, 0))
addressraw-addrbits_example = addressraw-addrbits resolver [] a (refl, omega arith)

abbrev sock : Socket
sock = record {
  int_option = λ level option. some (pos 1);
  linger_option = λ level option. none;
  time_option = λ level option. none;
  fcntl = λ command. some 0;
  ioctl = λ command. none;
}

abbrev on : Assigned
on = record {
  as_boolean = true;
  as_integer = pos 1;
  as_linger = (true, pos 1);
  as_time = (pos 1, pos 0);
}

flag_run : socklua___newindex sock (codes "keepalive") on ≡ ok (set_int 1 9 (pos 1))
unfolding socklua___newindex find_option bsearch_by is_partitioned strcmp write_found first_equal
    write_as
flag_run = refl

-- `quickack` stands behind the place where bsearch() may look for it.
quickack_run : socklua___index sock (codes "quickack") ≡ stop undefined
unfolding socklua___index find_option bsearch_by is_partitioned strcmp
quickack_run = refl
