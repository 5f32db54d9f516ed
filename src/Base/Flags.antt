-- ===== src/Base/Flags.antt =====
-- Flags and fields in a word: words that agree on their low bits, a single bit, a multiple of a page.
use Prim.Native.Nat.{ℕ, zero, suc, ◌+◌, ◌*◌, ◌/◌, ◌%◌, ◌^◌, ◌≤◌, ◌<◌, bit_and, bit_or}
use mathlib.Core.Path.{◌≡◌, refl, ap, ◌∙◌}
use native.Mathlib.Omega.{arith}
use native.Mathlib.Nat.{pow-suc}
use score.Base.Bits.{bit, bit_and_step, bit_or_step, bit_and_mask, mod-two-pow-suc}

-- Words with the same low `k` bits have the same remainder.
pub mod-bit : (k a b : ℕ) → ((i : ℕ) → i < k → bit a i ≡ bit b i) → a % 2 ^ k ≡ b % 2 ^ k
unfolding bit
mod-bit zero a b h = omega arith
mod-bit (suc k) a b h =
    let rest = mod-bit k (a / 2) (b / 2) (λ i u. h (suc i) (omega (arith, u))) in
    omega (arith, rest, h 0 (omega arith), mod-two-pow-suc a k, mod-two-pow-suc b k)

-- `|` of two multiples of `2 ^ k` is one.
pub bit_or-mod : (k a b : ℕ) → a % 2 ^ k ≡ 0 → b % 2 ^ k ≡ 0 → bit_or a b % 2 ^ k ≡ 0
bit_or-mod zero a b h g = omega arith
bit_or-mod (suc k) a b h g =
    let ha : a / 2 % 2 ^ k ≡ 0 = omega (arith, h, mod-two-pow-suc a k) in
    let hb : b / 2 % 2 ^ k ≡ 0 = omega (arith, g, mod-two-pow-suc b k) in
    let half : bit_or a b / 2 ≡ bit_or (a / 2) (b / 2) = omega (arith, bit_or_step a b) in
    let rest = ap (λ (t : ℕ). t % 2 ^ k) half ∙ bit_or-mod k (a / 2) (b / 2) ha hb in
    omega (
      arith,
      rest,
      mod-two-pow-suc a k,
      mod-two-pow-suc b k,
      mod-two-pow-suc (bit_or a b) k,
      bit_or_step a b,
    )

-- The word with bit `k` alone.
pub bit_and-one_bit : (k a : ℕ) → bit_and a (2 ^ k) ≡ bit a k * 2 ^ k
unfolding bit
bit_and-one_bit zero a = bit_and_mask 1 a ∙ omega arith
bit_and-one_bit (suc k) a =
    let h : 2 ^ suc k / 2 ≡ 2 ^ k = omega (arith, pow-suc 2 k) in
    let e : bit_and (a / 2) (2 ^ suc k / 2) ≡ bit (a / 2) k * 2 ^ k =
      ap (bit_and (a / 2)) h ∙ bit_and-one_bit k (a / 2) in
    omega (
      arith,
      bit_and_step a (2 ^ suc k),
      e,
      pow-suc 2 k,
      ap (λ (t : ℕ). bit (a / 2) k * t) (pow-suc 2 k),
    )

pub bit-small : (k a : ℕ) → a < 2 ^ k → bit a k ≡ 0
unfolding bit
bit-small zero a h = omega (arith, h)
bit-small (suc k) a h = bit-small k (a / 2) (omega (arith, h, pow-suc 2 k))

pub bit_or_comm : (a b : ℕ) → bit_or a b ≡ bit_or b a
bit_or_comm a b = under (a + b) a b (omega arith)
  where
    under : (bound x y : ℕ) → x + y ≤ bound → bit_or x y ≡ bit_or y x
    under bound zero zero u = refl
    under zero (suc x) y u = absurd (omega arith)
    under zero zero (suc y) u = absurd (omega arith)
    under (suc bound) (suc x) y u = omega (
      arith,
      bit_or_step (suc x) y,
      bit_or_step y (suc x),
      under bound (suc x / 2) (y / 2) (omega (arith, u)),
    )
    under (suc bound) zero (suc y) u = omega (
      arith,
      bit_or_step 0 (suc y),
      bit_or_step (suc y) 0,
      under bound 0 (suc y / 2) (omega (arith, u)),
    )
