-- ===== src/Base/Outcomes.antt =====
-- kernel/src/errors.rs, and what a call of the kernel can come to: a value, an error number, a
-- panic (`panic!`, `todo!`, a failed `ZX_ASSERT!`, an index out of bounds), or no end within the
-- fuel that a loop of the model is given.

use mathlib.Core.Bool.{Bool, true, false}
use mathlib.Core.Path.{◌≡◌, refl}

pub data ErrNo : Type 0 where
  success not_found not_supported no_resources already_exists invalid_args : ErrNo
  no_dev no_mem bad_align out_of_range lack_buf no_dtb bad_dtb bad_state bad_range : ErrNo

pub data Outcome {ℓ} (A : Type ℓ) : Type ℓ where
  ok : A → Outcome A
  err : ErrNo → Outcome A
  panic : Outcome A
  out_of_fuel : Outcome A

infixl 5 ◌>>=◌ ◌>>◌
abbrev pub ◌>>=◌ {ℓ κ} : {A : Type ℓ} {B : Type κ} → Outcome A → (A → Outcome B) → Outcome B
ok a >>= f = f a
err e >>= f = err e
panic >>= f = panic
out_of_fuel >>= f = out_of_fuel

abbrev pub ◌>>◌ {ℓ} : {B : Type ℓ} → Outcome (Unit {0}) → Outcome B → Outcome B
m >> k = m >>= λ _. k

-- `ZX_ASSERT!(b)`.
abbrev pub zx_assert : Bool → Outcome (Unit {0})
zx_assert true = ok tt
zx_assert false = panic

pub >>=-cong {ℓ κ} :
    {A : Type ℓ} {B : Type κ} (m : Outcome A) {g h : A → Outcome B}
    → ((u : A) → g u ≡ h u)
    → (m >>= g) ≡ (m >>= h)
>>=-cong (ok a) e = e a
>>=-cong (err a) e = refl
>>=-cong panic e = refl
>>=-cong out_of_fuel e = refl

pub >>=-ok {ℓ} : {A : Type ℓ} (m : Outcome A) → (m >>= (λ u. ok u)) ≡ m
>>=-ok (ok a) = refl
>>=-ok (err a) = refl
>>=-ok panic = refl
>>=-ok out_of_fuel = refl
