-- ===== src/Prelude/Outcome.antt =====
-- What a run of kernel code comes to. `panic` is a failed ASSERT or a PANIC (kernel/debug.h, which
-- stops the machine), `fault` a read or write outside the memory that the model knows,
-- `out_of_fuel` a loop that was given too few rounds.
use mathlib.Core.Path.{◌≡◌, refl}
use mathlib.Core.Bool.{Bool, true, false}

pub data Run {ℓ} (A : Type ℓ) : Type ℓ where
  ok : A → Run A
  panic : Run A
  fault : Run A
  out_of_fuel : Run A

infixl 5 ◌>>=◌ ◌>>◌
abbrev pub ◌>>=◌ {ℓ κ} : {A : Type ℓ} {B : Type κ} → Run A → (A → Run B) → Run B
ok a >>= k = k a
panic >>= k = panic
fault >>= k = fault
out_of_fuel >>= k = out_of_fuel

abbrev pub ◌>>◌ {ℓ} : {B : Type ℓ} → Run (Unit {0}) → Run B → Run B
m >> k = m >>= λ _. k

-- ASSERT(condition)
abbrev pub assert : Bool → Run (Unit {0})
assert true = ok tt
assert false = panic

pub ok-injective {ℓ} : {A : Type ℓ} {a b : A} → ◌≡◌ {A = Run A} (ok a) (ok b) → a ≡ b
ok-injective h = cc

-- Inversion of a chain that succeeds.
pub >>=-eq-ok {ℓ κ} :
    {A : Type ℓ} {B : Type κ} (m : Run A) (k : A → Run B) {b : B}
    → (m >>= k) ≡ ok b
    → (a : A) × (m ≡ ok a) × (k a ≡ ok b)
>>=-eq-ok (ok a) k h = (a, refl, h)
>>=-eq-ok panic k h = cc
>>=-eq-ok fault k h = cc
>>=-eq-ok out_of_fuel k h = cc
