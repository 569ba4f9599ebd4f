-- ===== src/Net/Options.antt =====
-- The options of sockets in src/net.c, with the numbers of Linux. What getsockopt(), ioctl() and
-- fcntl() say is a parameter, and what is written is a value.
use Prim.Native.String.{String}
use lua_conmanorg.Bsearch.{bsearch_by}
use lua_conmanorg.Prelude.{
  ℕ, ◌-◌, ltb, ◌==◌, not, Bool, true, false, if◌then◌else◌, List, [], ◌∷◌, Option, none, some,
  codes, bit_and, bit_or, ℤ, pos, negsuc, Outcome, ok, stop, assertion, ◌>>=◌,
}

pub data Sopt : Type 0 where
  sopt_flag : Sopt
  sopt_int : Sopt
  sopt_linger : Sopt
  sopt_timeval : Sopt
  sopt_fcntl : Sopt
  sopt_ioctl : Sopt

-- `struct sockoptions`.
pub record SockOptions : Type 0 where
  pub name : List ℕ
  pub level : ℕ
  pub setlevel : ℕ
  pub option : ℕ
  pub type : Sopt
  pub get : Bool
  pub settable : Bool

abbrev option_row : String → ℕ → ℕ → ℕ → Sopt → Bool → SockOptions
option_row name level setlevel option type settable = record {
  name = codes name;
  level = level;
  setlevel = setlevel;
  option = option;
  type = type;
  get = true;
  settable = settable;
}

abbrev pub m_sockoptions : List SockOptions
m_sockoptions =
    option_row "broadcast" 1 0 6 sopt_flag true
    ∷ option_row "closeexec" 1 2 1 sopt_fcntl true
    ∷ option_row "debug" 1 0 1 sopt_flag true
    ∷ option_row "dontroute" 1 0 5 sopt_flag true
    ∷ option_row "error" 1 0 4 sopt_int false
    ∷ option_row "keepalive" 1 0 9 sopt_flag true
    ∷ option_row "linger" 1 0 13 sopt_linger true
    ∷ option_row "maxsegment" 6 0 2 sopt_int true
    ∷ option_row "nodelay" 6 0 1 sopt_flag true
    ∷ option_row "quickack" 6 0 12 sopt_flag true
    ∷ option_row "nonblock" 3 4 2048 sopt_fcntl true
    ∷ option_row "oobinline" 1 0 10 sopt_flag true
    ∷ option_row "recvbuffer" 1 0 8 sopt_int true
    ∷ option_row "recvlow" 1 0 18 sopt_int true
    ∷ option_row "recvqueue" 0x541b 0 0 sopt_ioctl false
    ∷ option_row "recvtimeout" 1 0 20 sopt_int true
    ∷ option_row "reuseaddr" 1 0 2 sopt_flag true
    ∷ option_row "reuseport" 1 0 15 sopt_flag true
    ∷ option_row "sendbuffer" 1 0 7 sopt_int true
    ∷ option_row "sendlow" 1 0 19 sopt_int true
    ∷ option_row "sendqueue" 0x5411 0 0 sopt_ioctl false
    ∷ option_row "sendtimeout" 1 0 21 sopt_int true
    ∷ option_row "type" 1 0 3 sopt_int false
    ∷ []

abbrev name_of : SockOptions → List ℕ
name_of o = o.name

-- `sopt_compare` is strcmp() of the key and the name.
unfoldable pub find_option : List ℕ → Outcome (Option SockOptions)
find_option key = bsearch_by name_of key m_sockoptions

-- What the system says of a socket: an option's value, or nothing where the call fails.
pub record Socket : Type 0 where
  pub int_option : ℕ → ℕ → Option ℤ
  pub linger_option : ℕ → ℕ → Option (Bool × ℤ)
  pub time_option : ℕ → ℕ → Option (ℤ × ℤ)
  pub fcntl : ℕ → Option ℕ
  pub ioctl : ℕ → Option ℤ

-- The Lua value that is read: `time` is seconds and microseconds of one number; `method` is what the
-- metatable has under the key.
pub data Read : Type 0 where
  nil : Read
  boolean : Bool → Read
  integer : ℤ → Read
  linger : Bool → ℤ → Read
  time : ℤ × ℤ → Read
  method : List ℕ → Read

abbrev is_zero : ℤ → Bool
is_zero (pos n) = n == 0
is_zero (negsuc n) = false

unfoldable pub flag_read : Option ℤ → Read
flag_read none = boolean false
flag_read (some n) = boolean (not (is_zero n))

unfoldable pub int_read : Option ℤ → Read
int_read none = integer (negsuc 0)
int_read (some n) = integer n

unfoldable pub linger_read : Option (Bool × ℤ) → Read
linger_read none = nil
linger_read (some (on, n)) = linger on n

unfoldable pub time_read : Option (ℤ × ℤ) → Read
time_read none = integer (negsuc 0)
time_read (some t) = time t

unfoldable pub fcntl_read : ℕ → Option ℕ → Read
fcntl_read option none = boolean false
fcntl_read option (some n) = boolean (bit_and n option == option)

unfoldable pub ioctl_read : Option ℤ → Read
ioctl_read none = nil
ioctl_read (some n) = integer n

unfoldable pub read_as : Socket → SockOptions → Sopt → Read
read_as sock o sopt_flag = flag_read (sock.int_option o.level o.option)
read_as sock o sopt_int = int_read (sock.int_option o.level o.option)
read_as sock o sopt_linger = linger_read (sock.linger_option o.level o.option)
read_as sock o sopt_timeval = time_read (sock.time_option o.level o.option)
read_as sock o sopt_fcntl = fcntl_read o.option (sock.fcntl o.level)
read_as sock o sopt_ioctl = ioctl_read (sock.ioctl o.level)

unfoldable pub read_found : Socket → List ℕ → Option SockOptions → Read
read_found sock key none = method key
read_found sock key (some o) = if not o.get then nil else read_as sock o o.type

unfoldable pub socklua___index : Socket → List ℕ → Outcome Read
socklua___index sock tkey = find_option tkey >>= λ o. ok (read_found sock tkey o)

-- The Lua value that is assigned, as C reads it: as a truth value, as an integer, as the fields `on`
-- and `linger` of a table, and as seconds and microseconds.
pub record Assigned : Type 0 where
  pub as_boolean : Bool
  pub as_integer : ℤ
  pub as_linger : Bool × ℤ
  pub as_time : ℤ × ℤ

-- The call that changes the socket, or a line in the log, or nothing.
pub data Write : Type 0 where
  nothing : Write
  set_int : ℕ → ℕ → ℤ → Write
  set_linger : ℕ → ℕ → Bool × ℤ → Write
  set_time : ℕ → ℕ → ℤ × ℤ → Write
  set_fcntl : ℕ → ℕ → Write
  log : Write

-- `ivalue & ~option`, where `option` is one bit.
unfoldable pub with_flag : Bool → ℕ → ℕ → ℕ
with_flag true ivalue option = bit_or ivalue option
with_flag false ivalue option = ivalue - bit_and ivalue option

unfoldable pub fcntl_write : SockOptions → Bool → Option ℕ → Write
fcntl_write o on none = log
fcntl_write o on (some ivalue) =
    if ltb 0 ivalue then set_fcntl o.setlevel (with_flag on ivalue o.option) else log

abbrev truth : Bool → ℤ
truth true = pos 1
truth false = pos 0

-- Where the option is read by ioctl() the code fails an assertion; none of these can be set.
unfoldable pub write_as : Socket → SockOptions → Assigned → Sopt → Outcome Write
write_as sock o v sopt_flag = ok (set_int o.level o.option (truth v.as_boolean))
write_as sock o v sopt_int = ok (set_int o.level o.option v.as_integer)
write_as sock o v sopt_linger = ok (set_linger o.level o.option v.as_linger)
write_as sock o v sopt_timeval = ok (set_time o.level o.option v.as_time)
write_as sock o v sopt_fcntl = ok (fcntl_write o v.as_boolean (sock.fcntl o.level))
write_as sock o v sopt_ioctl = stop assertion

unfoldable pub write_found : Socket → Assigned → Option SockOptions → Outcome Write
write_found sock v none = ok nothing
write_found sock v (some o) = if not o.settable then ok nothing else write_as sock o v o.type

unfoldable pub socklua___newindex : Socket → List ℕ → Assigned → Outcome Write
socklua___newindex sock tkey v = find_option tkey >>= write_found sock v
