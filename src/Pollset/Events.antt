-- ===== src/Pollset/Events.antt =====
-- The events of src/pollset.c as flags and as bits, in the version for poll().
use lua_conmanorg.Prelude.{
  or_assoc, ℕ, ◌≡◌, refl, ap, ◌∙◌, Bool, true, false, not, ◌||◌, ◌==◌, if◌then◌else◌, List, [], ◌∷◌,
  bit_and, bit_or, arith,
}

-- The bits of <poll.h>, of which the code needs that they are different.
abbrev pub pollin : ℕ
pollin = 0x01

abbrev pub pollpri : ℕ
pollpri = 0x02

abbrev pub pollout : ℕ
pollout = 0x04

abbrev pub pollerr : ℕ
pollerr = 0x08

abbrev pub pollhup : ℕ
pollhup = 0x10

abbrev pub pollnval : ℕ
pollnval = 0x20

unfoldable pub flag : ℕ → ℕ → ℕ
flag events c =
    if c == b'r'
    then bit_or events pollin
    else if c == b'w'
    then bit_or events pollout
    else if c == b'p'
    then bit_or events pollpri
    else events

unfoldable pub toevents_loop : ℕ → List ℕ → ℕ
toevents_loop events [] = events
toevents_loop events (c ∷ flags) = toevents_loop (flag events c) flags

unfoldable pub pollset_toevents : List ℕ → ℕ
pollset_toevents flags = toevents_loop 0 flags

-- The fields of the table that Lua gets.
pub record Report : Type 0 where
  pub read : Bool
  pub write : Bool
  pub priority : Bool
  pub error : Bool
  pub hangup : Bool
  pub invalid : Bool

unfoldable pub pollset_pushevents : ℕ → Report
pollset_pushevents events = record {
  read = not (bit_and events pollin == 0);
  write = not (bit_and events pollout == 0);
  priority = not (bit_and events pollpri == 0);
  error = not (bit_and events pollerr == 0);
  hangup = not (bit_and events pollhup == 0);
  invalid = not (bit_and events pollnval == 0);
}

unfoldable pub contains : ℕ → List ℕ → Bool
contains x [] = false
contains x (c ∷ flags) = (c == x) || contains x flags

-- The bits by their flags.
unfoldable bits : Bool → Bool → Bool → ℕ
bits false false false = 0
bits true false false = 1
bits false false true = 2
bits true false true = 3
bits false true false = 4
bits true true false = 5
bits false true true = 6
bits true true true = 7

flag-bits :
    (r w p : Bool) (c : ℕ)
    → flag (bits r w p) c ≡ bits (r || (c == b'r')) (w || (c == b'w')) (p || (c == b'p'))
unfolding flag bits
flag-bits false false false c = ground arith
flag-bits true false false c = ground arith
flag-bits false false true c = ground arith
flag-bits true false true c = ground arith
flag-bits false true false c = ground arith
flag-bits true true false c = ground arith
flag-bits false true true c = ground arith
flag-bits true true true c = ground arith

loop_bits :
    (r w p : Bool) (flags : List ℕ)
    → toevents_loop (bits r w p) flags
      ≡ bits (r || contains b'r' flags) (w || contains b'w' flags) (p || contains b'p' flags)
unfolding toevents_loop contains
loop_bits r w p [] = or_nothing r w p
  where
    or_nothing : (r w p : Bool) → bits r w p ≡ bits (r || false) (w || false) (p || false)
    or_nothing false false false = refl
    or_nothing true false false = refl
    or_nothing false false true = refl
    or_nothing true false true = refl
    or_nothing false true false = refl
    or_nothing true true false = refl
    or_nothing false true true = refl
    or_nothing true true true = refl
loop_bits r w p (c ∷ flags) =
    ap (λ e. toevents_loop e flags) (flag-bits r w p c)
    ∙ loop_bits (r || (c == b'r')) (w || (c == b'w')) (p || (c == b'p')) flags
    ∙ rw (or_assoc r (c == b'r') (contains b'r' flags)) (
        rw (or_assoc w (c == b'w') (contains b'w' flags))
          (rw (or_assoc p (c == b'p') (contains b'p' flags)) refl))

reported :
    (r w p : Bool)
    → pollset_pushevents (bits r w p)
      ≡ record { read = r; write = w; priority = p; error = false; hangup = false; invalid = false }
unfolding pollset_pushevents bits
reported false false false = refl
reported true false false = refl
reported false false true = refl
reported true false true = refl
reported false true false = refl
reported true true false = refl
reported false true true = refl
reported true true true = refl

-- The events that are asked for by a string of flags, as the table for Lua shows them: reading,
-- writing and priority for `r`, `w` and `p`, in any order and number, among any other characters.
pushevents-toevents :
    (flags : List ℕ)
    → pollset_pushevents (pollset_toevents flags) ≡ record {
      read = contains b'r' flags;
      write = contains b'w' flags;
      priority = contains b'p' flags;
      error = false;
      hangup = false;
      invalid = false;
    }
unfolding pollset_toevents bits
pushevents-toevents flags =
    ap pollset_pushevents (loop_bits false false false flags)
    ∙ reported (contains b'r' flags) (contains b'w' flags) (contains b'p' flags)
