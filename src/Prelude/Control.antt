-- ===== src/Prelude/Control.antt =====
-- How a call from Lua into C ends.
use Prim.Native.Nat.{ℕ}
use Prim.Native.String.{String}
use mathlib.Core.Bool.{Bool, true, false}
use mathlib.Core.List.{List}
use mathlib.Core.Path.{◌≡◌, ap}

-- `lua_error` is `luaL_error` with its format and the characters that fill it in; `assertion` is
-- a failed `assert`; `undefined` is a use of a variable that has no value, where C says nothing;
-- `out_of_fuel` is no end in C, but a loop of the model that was cut off.
pub data Stop : Type 0 where
  lua_error : String → List ℕ → Stop
  assertion : Stop
  undefined : Stop
  out_of_fuel : Stop

pub data Outcome {ℓ} (A : Type ℓ) : Type ℓ where
  ok : A → Outcome A
  stop : Stop → Outcome A

infixl 5 ◌>>=◌ ◌>>◌
abbrev pub ◌>>=◌ {ℓ κ} : {A : Type ℓ} {B : Type κ} → Outcome A → (A → Outcome B) → Outcome B
ok a >>= f = f a
stop s >>= f = stop s

abbrev pub ◌>>◌ {ℓ} : {B : Type ℓ} → Outcome (Unit {0}) → Outcome B → Outcome B
m >> k = m >>= λ _. k

abbrev pub assert : Bool → Outcome (Unit {0})
assert true = ok tt
assert false = stop assertion

from_ok {ℓ} : {A : Type ℓ} → A → Outcome A → A
from_ok other (ok a) = a
from_ok other (stop s) = other

pub ok_inj {ℓ} : {A : Type ℓ} {a b : A} → ok a ≡ ok b → a ≡ b
unfolding from_ok
ok_inj {a = a} e = ap (from_ok a) e
