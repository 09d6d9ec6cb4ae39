-- ===== src/Base/Outcome.antt =====
-- How a call ends. `kassert` and `kpanic` halt the machine and never return, so nothing of the
-- state is read after them; an access outside an array is undefined in C.
use Prim.Native.Nat.{ℕ, ◌<◌}
use mathlib.Core.Path.{◌≡◌}
use mathlib.Core.Bool.{Bool, true, false}
use mathlib.Core.Option.{Option, none, some}
use mathlib.Core.List.{List}
use native.Mathlib.Omega.{arith}
use drastic.Base.Tests.{ltb, if◌then◌else◌}
use drastic.Base.Lists.{length, get_elem?, get_or, set, get_elem?-eq-get_or}

-- The messages of the `kpanic` calls that are modelled.
pub data Panic : Type 0 where
  gdt_limit : Panic
  page_mapping : Panic
  invalid_physical_page_free : Panic
  rsdp_checksum : Panic
  xsdp_checksum : Panic
  rsdt_checksum : Panic
  apic_disabled : Panic
  interrupt_handler_called : Panic

-- Why a call does not return.
pub data Stop : Type 0 where
  assertion_failed : Stop
  kpanic : Panic → Stop
  out_of_bounds : Stop
  bad_pointer : Stop
  out_of_fuel : Stop
  bad_argument : Stop
  signed_overflow : Stop

pub data Result {ℓ} (A : Type ℓ) : Type ℓ where
  ok : A → Result A
  stop : Stop → Result A

infixl 5 ◌>>=◌ ◌>>◌
abbrev pub ◌>>=◌ {ℓ κ} : {A : Type ℓ} {B : Type κ} → Result A → (A → Result B) → Result B
ok a >>= f = f a
stop s >>= f = stop s

abbrev pub ◌>>◌ {ℓ} : {B : Type ℓ} → Result (Unit {0}) → Result B → Result B
m >> k = m >>= λ _. k

abbrev pub kassert : Bool → Result (Unit {0})
kassert true = ok tt
kassert false = stop assertion_failed

module _ {ℓ} {A : Type ℓ} where
  -- What a read of an array entry hands on.
  abbrev pub checked : Option A → Result A
  checked none = stop out_of_bounds
  checked (some a) = ok a

  abbrev pub read : List A → ℕ → Result A
  read xs i = checked (get_elem? xs i)

  abbrev pub write : List A → ℕ → A → Result (List A)
  write xs i v = if ltb i (length xs) then ok (set xs i v) else stop out_of_bounds

module _ {ℓ} {A : Type ℓ} where
  pub read-eq-ok : (xs : List A) (i : ℕ) (d : A) → i < length xs → read xs i ≡ ok (get_or xs i d)
  read-eq-ok xs i d h = rw (get_elem?-eq-get_or xs i d h)

  pub write-eq-ok : (xs : List A) (i : ℕ) (v : A) → i < length xs → write xs i v ≡ ok (set xs i v)
  write-eq-ok xs i v h = ground arith
