-- ===== src/Fsys/Modes.antt =====
-- The modes of src/fsys.c, as bits and as text, with the bits of <sys/stat.h>.
pub mod RoundTrip
use lua_conmanorg.Prelude.{
  ℕ, ◌/◌, ◌%◌, ◌-◌, leb, ◌==◌, not, Bool, true, false, if◌then◌else◌, List, [], ◌∷◌, Option, none,
  some, length, get_or, drop, codes, bit_and, bit_or,
}

abbrev perm : ℕ → ℕ → ℕ → ℕ
perm mode bit c = if bit_and mode bit == 0 then b'-' else c

unfoldable pub fsys_l_pushperm : ℕ → List ℕ
fsys_l_pushperm mode =
    perm mode 0x800 b'u'
    ∷ perm mode 0x400 b'g'
    ∷ perm mode 0x200 b's'
    ∷ perm mode 0x100 b'r'
    ∷ perm mode 0x080 b'w'
    ∷ perm mode 0x040 b'x'
    ∷ perm mode 0x020 b'r'
    ∷ perm mode 0x010 b'w'
    ∷ perm mode 0x008 b'x'
    ∷ perm mode 0x004 b'r'
    ∷ perm mode 0x002 b'w'
    ∷ perm mode 0x001 b'x'
    ∷ []

-- The type of a file, by the bits of S_IFMT.
unfoldable pub file_type : ℕ → List ℕ
file_type mode =
    let fmt = bit_and mode 0xf000 in
    if fmt == 0x8000
    then codes "file"
    else if fmt == 0x4000
    then codes "dir"
    else if fmt == 0x2000
    then codes "chardev"
    else if fmt == 0x6000
    then codes "blockdev"
    else if fmt == 0x1000
    then codes "pipe"
    else if fmt == 0xa000
    then codes "link"
    else if fmt == 0xc000
    then codes "socket"
    else codes "?"

pub record Mode : Type 0 where
  pub perms : List ℕ
  pub setuid : Bool
  pub getgid : Bool
  pub sticky : Bool
  pub type : List ℕ

unfoldable pub fsys_l_pushmode : ℕ → Mode
fsys_l_pushmode mode = record {
  perms = fsys_l_pushperm mode;
  setuid = not (bit_and mode 0x800 == 0);
  getgid = not (bit_and mode 0x400 == 0);
  sticky = not (bit_and mode 0x200 == 0);
  type = file_type mode;
}

abbrev bits_if : List ℕ → ℕ → ℕ → ℕ → ℕ
bits_if txt i c bits = if get_or txt i 0 == c then bits else 0

-- Three letters are for all.
unfoldable pub three : List ℕ → ℕ
three txt =
    bit_or (bit_or (bits_if txt 0 b'r' 0x124) (bits_if txt 1 b'w' 0x092)) (bits_if txt 2 b'x' 0x049)

unfoldable pub special : List ℕ → ℕ
special txt =
    bit_or (bit_or (bits_if txt 0 b'u' 0x800) (bits_if txt 1 b'g' 0x400)) (bits_if txt 2 b's' 0x200)

unfoldable pub nine : ℕ → List ℕ → ℕ
nine mode txt =
    let user =
      bit_or (bit_or (bit_or mode (bits_if txt 0 b'r' 0x100)) (bits_if txt 1 b'w' 0x080))
        (bits_if txt 2 b'x' 0x040) in
    let group =
      bit_or (bit_or (bit_or user (bits_if txt 3 b'r' 0x020)) (bits_if txt 4 b'w' 0x010))
        (bits_if txt 5 b'x' 0x008) in
    bit_or (bit_or (bit_or group (bits_if txt 6 b'r' 0x004)) (bits_if txt 7 b'w' 0x002))
      (bits_if txt 8 b'x' 0x001)

-- Letters behind the ninth, or behind the twelfth, are not read.
unfoldable pub fsys_l_checkmode : Option (List ℕ) → ℕ → ℕ
fsys_l_checkmode none def = def
fsys_l_checkmode (some txt) def =
    if length txt == 3
    then three txt
    else if length txt == 12
    then nine (special txt) (drop 3 txt)
    else if leb 9 (length txt)
    then nine 0 txt
    else 0

-- umask() takes the bits that are not wanted and gives those before; a mode has 12 bits here, so `~`
-- is the difference from all of them.
unfoldable pub fsys_umask : (ℕ → ℕ) → Option (List ℕ) → List ℕ
fsys_umask umask txt =
    fsys_l_pushperm (bit_and (0xfff - umask (0xfff - fsys_l_checkmode txt 0x1ff)) 0x1ff)
