-- ===== src/Lib.antt =====
-- lua-conmanorg: the modules of org.conman that are written in C, for Lua 5.1 and later.
--
-- Each C file under src/ is a Lua module of its own; the modules call Lua, the C library and the
-- system, and not each other. Modelled here:
--
--   * Base64 models src/base64.c. Object is base64__s with its constructor b64lua; Encoder is
--     b64meta_encode; Readout is Ib64_readout and Ib64_readout4; Decoder is b64meta_decode.
--     RoundTrip, Canonical, Encoder.Rendering, Encoder.Lines and Decoder.Termination are about them.
--   * StrCore models src/strcore.c. Glyphs is charsmatch with its table of classes; Wrap is remshy
--     and strcore_wrapt; SafeText is C0, UTF8, strcore_safeascii and strcore_safeutf8; Metaphone is
--     strcore_metaphone with the array that it works on.
--   * Crc models crc32 of src/crc.c, with the bit-by-bit definition of the checksum in Crc.Bitwise.
--   * Lfsr models lfsr and lfsrnext of src/lfsr.c.
--   * Env models luaopen_org_conman_env of src/env.c, with what getenv promises in Env.Getenv.
--   * Arithmetic models math_idiv of src/math.c; its module Seed is math_randomseed, over the files as a
--     store and the devices as arguments.
--   * Idn models add_segment, idn_encode and idn_decode of src/idn.c; libidn is the record Libidn.
--   * Pollset models the four versions of src/pollset.c. Events is the conversion of flags for poll();
--     Poll is the set on poll(), with its growth, its changes, the wait and the iterator; Epoll is
--     the set on epoll, with the kernel's set behind it as a parameter and what its manual page
--     says as the hypothesis Documented; Kqueue is the set on kqueue, with the kernel's queue as the
--     record Kqueue; Select is the set on select(), whose answer is an argument.
--   * Bsearch states what the C standard says of bsearch(), with which src/signal.c, src/syslog.c and
--     src/net.c look for names in their tables: nothing is defined where the table does not ascend
--     around the key.
--   * Signal models src/signal.c. Names is the tables of signals and flags; Sets is the sets of signals;
--     Info is codetostr and slua_pushinfo; Handlers is m_handlers with the signal handlers, catch,
--     caught, ignore, default and luasigbackend, over the Lua functions as a parameter; Masks is
--     allow, block, mask, pending, suspend and raise; Ansi is the version for ANSI C.
--   * Syslog models src/syslog.c, with what is asked of the system as a list.
--   * Fsys models parts of src/fsys.c: Modes is fsysL_pushperm, fsysL_pushmode, fsysL_checkmode and
--     fsys_umask; Paths is basename, dirname, extension, filename and _safename; Directory is the
--     iterator over a directory.
--   * Net models parts of src/net.c: Address is sockaddr_all__t with Inet_comp and the other functions
--     on it, address, addressraw and the texts of an address, over the C library's tables as the
--     record Resolver; Options is m_sockoptions with socklua___index and socklua___newindex.
--   * Process models parts of src/process.c: Exec is proclua_exec with proc_growenvp and the arrays it
--     makes; Limits is limit_valid_suffix with the metatables of the hard and the soft limits; Child is
--     wait and proc_pushstatus; Affinity is getaffinity and setaffinity on Linux.
--   * Bin2c models build/bin2c.c, which writes files as C arrays: process, compress_data over zlib, and
--     the loop of main over the files.
--   * Prelude has the shared names: tests and lists over the native numbers, signed integers, the laws
--     of the bit operations and of the Galois step, and Outcome, the result of a call that may raise
--     a Lua error, fail an assertion, or do what C leaves undefined.
--
-- A string is the list of its bytes, and a machine integer is a natural number below 2 ^ w with the
-- wrap-around written out. A C string ends where its list ends. State is passed along: a generator,
-- a set of descriptors or a codec is a record, and a call gives the new record. What a call reads from
-- the system (a limit, /dev/urandom, the result of poll(), the memory behind an array) is an argument.
--
-- Loops that do not follow the structure of a list take fuel, and a run that is cut off ends in
-- out_of_fuel. The fuel given is the length of the text, or one more, for base 64, for safe text and
-- for the labels of a domain name, where each round takes a byte at least; and (length + 2) ^ 2 rounds
-- for wrapping, where a round takes a byte or ends a line, and a line that ends may give back bytes
-- that were read after the place where it is broken. The Galois steps of Crc and Lfsr, and all other
-- loops, follow the structure of their data.
--
-- The hook of src/signal.c runs until no signal is noted, and takes fuel; two rounds are enough where
-- the Lua functions change nothing in the module. A loop over a directory takes one round more than
-- the directory has entries.
--
-- Not modelled: the comparisons of src/strcore.c, math_div and math_seed of src/math.c, the calls of src/fsys.c that
-- only call the system, and its globs; the calls of src/net.c that make sockets, send and receive; the
-- calls of src/process.c that only call the system, and its times; and the modules that are mostly
-- calls of the system or of another library: clock, errno, hash, iconv, magic, ptscore, sys, tcc and
-- tls.
pub mod Prelude
pub mod Base64
pub mod StrCore
pub mod Crc
pub mod Lfsr
pub mod Env
pub mod Arithmetic
pub mod Idn
pub mod Pollset
pub mod Bsearch
pub mod Signal
pub mod Syslog
pub mod Fsys
pub mod Net
pub mod Process
pub mod Bin2c
