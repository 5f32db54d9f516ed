-- ===== src/Base/Bits.antt =====
-- Bit operations read digit by digit, at every width. `bit a i` is bit `i` of `a`, 0 or 1; `&` and
-- `|` act on it as `min` and `max`, and a mask of `k` low or high ones is a remainder by `2 ^ k`.
use Prim.Native.Nat.{
  ℕ, zero, suc, ◌+◌, ◌-◌, ◌*◌, ◌/◌, ◌%◌, ◌^◌, ◌≤◌, ◌<◌, min, max, bit_and, bit_or, bitwise, digits,
  bit_and-bitwise, bit_or-bitwise,
}
use mathlib.Core.Path.{◌≡◌, refl, sym, ap, ◌∙◌}
use native.Mathlib.Omega.{arith}
use native.Mathlib.Nat.{
  div-add-mod, div-div-eq-div-mul, mul_assoc, pow-suc, one-le-pow, le_refl, suc-mul, mod-eq_of_lt,
  div-lt_iff_lt-mul,
}

-- The recursion of the library on the halves of a word stops at 0, so fuel beyond the word is idle.
idle_fuel :
    (end : ℕ → ℕ) (op : ℕ → ℕ → ℕ) (x y i j : ℕ)
    → x ≤ i
    → x ≤ j
    → digits end op i x y ≡ digits end op j x y
idle_fuel end op zero y zero zero u v = refl
idle_fuel end op zero y zero (suc j) u v = refl
idle_fuel end op zero y (suc i) zero u v = refl
idle_fuel end op zero y (suc i) (suc j) u v = refl
idle_fuel end op (suc x) y zero j u v = absurd (omega arith)
idle_fuel end op (suc x) y (suc i) zero u v = absurd (omega arith)
idle_fuel end op (suc x) y (suc i) (suc j) u v =
    let halves = idle_fuel end op (suc x / 2) (y / 2) i j (omega (arith, u)) (omega (arith, v)) in
    ap (λ (t : ℕ). t * 2 + op (suc x % 2) (y % 2)) halves

-- One step of `&` and of `|` on a word that is not 0: the halves, and the lowest digits.
halve :
    (end : ℕ → ℕ) (op : ℕ → ℕ → ℕ) (x y : ℕ)
    → bitwise end op (suc x) y ≡ op (suc x % 2) (y % 2) + 2 * bitwise end op (suc x / 2) (y / 2)
halve end op x y =
    let idle = idle_fuel end op (suc x / 2) (y / 2) x (suc x / 2) (omega arith) (omega arith) in
    omega (arith, idle)

pub bit_and_step : (x y : ℕ) → bit_and x y ≡ bit_and (x / 2) (y / 2) * 2 + min (x % 2) (y % 2)
bit_and_step zero y = rw (bit_and-bitwise 0 y, bit_and-bitwise 0 (y / 2)) (omega arith)
bit_and_step (suc x) y =
    rw (bit_and-bitwise (suc x) y, bit_and-bitwise (suc x / 2) (y / 2))
      (omega (arith, halve (λ t. 0) min x y))

pub bit_or_step : (x y : ℕ) → bit_or x y ≡ bit_or (x / 2) (y / 2) * 2 + max (x % 2) (y % 2)
bit_or_step zero y = rw (bit_or-bitwise 0 y, bit_or-bitwise 0 (y / 2)) (omega arith)
bit_or_step (suc x) y =
    rw (bit_or-bitwise (suc x) y, bit_or-bitwise (suc x / 2) (y / 2))
      (omega (arith, halve (λ t. t) max x y))

-- Bit `i` of `a`.
unfoldable pub bit : ℕ → ℕ → ℕ
bit a zero = a % 2
bit a (suc i) = bit (a / 2) i

pub bit-le : (a i : ℕ) → bit a i ≤ 1
unfolding bit
bit-le a zero = omega arith
bit-le a (suc i) = bit-le (a / 2) i

pub bit-bit_and : (a b i : ℕ) → bit (bit_and a b) i ≡ min (bit a i) (bit b i)
unfolding bit
bit-bit_and a b zero = omega (arith, bit_and_step a b)
bit-bit_and a b (suc i) =
    let e : bit_and a b / 2 ≡ bit_and (a / 2) (b / 2) = omega (arith, bit_and_step a b) in
    rw e (bit-bit_and (a / 2) (b / 2) i)

pub bit-bit_or : (a b i : ℕ) → bit (bit_or a b) i ≡ max (bit a i) (bit b i)
unfolding bit
bit-bit_or a b zero = omega (arith, bit_or_step a b)
bit-bit_or a b (suc i) =
    let e : bit_or a b / 2 ≡ bit_or (a / 2) (b / 2) = omega (arith, bit_or_step a b) in
    rw e (bit-bit_or (a / 2) (b / 2) i)

pub bit_or-lt : (n a b : ℕ) → a < 2 ^ n → b < 2 ^ n → bit_or a b < 2 ^ n
bit_or-lt zero zero zero h k = ground (arith, bit_or-bitwise 0 0)
bit_or-lt zero (suc a) b h k = absurd (omega arith)
bit_or-lt zero a (suc b) h k = absurd (omega arith)
bit_or-lt (suc n) a b h k = omega (
  arith,
  bit_or_step a b,
  pow-suc 2 n,
  bit_or-lt n (a / 2) (b / 2) (omega (arith, pow-suc 2 n)) (omega (arith, pow-suc 2 n)),
)

bit_or-zero : (a : ℕ) → bit_or a 0 ≡ a
bit_or-zero a = under a a (le_refl a)
  where
    under : (bound x : ℕ) → x ≤ bound → bit_or x 0 ≡ x
    under bound zero u = omega (arith, bit_or-bitwise 0 0)
    under zero (suc x) u = absurd (omega arith)
    under (suc bound) (suc x) u =
        let rest = under bound (suc x / 2) (omega (arith, u)) in
        omega (arith, rest, bit_or_step (suc x) 0)

shift_once : (x n : ℕ) → 2 * (x * 2 ^ n) ≡ x * 2 ^ suc n
shift_once x n = omega (arith, ap (λ (p : ℕ). x * p) (pow-suc 2 n))

-- Fields that do not overlap.
pub bit_or-fields : (k x c : ℕ) → c < 2 ^ k → bit_or (x * 2 ^ k) c ≡ x * 2 ^ k + c
bit_or-fields zero x c h =
    let e : x * 2 ^ 0 ≡ x = omega arith in
    let d : c ≡ 0 = omega (arith, h) in rw (e, d) (bit_or-zero x ∙ omega arith)
bit_or-fields (suc k) x c h =
    let e : x * 2 ^ suc k / 2 ≡ x * 2 ^ k = omega (arith, shift_once x k) in
    let half =
      ap (λ (t : ℕ). bit_or t (c / 2)) e
      ∙ bit_or-fields k x (c / 2) (omega (arith, h, pow-suc 2 k)) in
    omega (arith, bit_or_step (x * 2 ^ suc k) c, half, shift_once x k)

pub bit-zero : (i : ℕ) → bit 0 i ≡ 0
unfolding bit
bit-zero zero = refl
bit-zero (suc i) = bit-zero i

pub pow_pos : (k : ℕ) → 1 ≤ 2 ^ k
pow_pos k = one-le-pow k 2 (omega arith)

pub two-pow-add : (j k : ℕ) → 2 ^ (j + k) ≡ 2 ^ j * 2 ^ k
two-pow-add j zero = let e : j + 0 ≡ j = omega arith in rw e (omega arith)
two-pow-add j (suc k) =
    let e : j + suc k ≡ suc (j + k) = omega arith in
    rw e
      (omega (arith, pow-suc 2 (j + k), two-pow-add j k, ap (λ (t : ℕ). 2 ^ j * t) (pow-suc 2 k)))

pub bit_and-zero : (a : ℕ) → bit_and a 0 ≡ 0
bit_and-zero a = under a a (le_refl a)
  where
    under : (bound x : ℕ) → x ≤ bound → bit_and x 0 ≡ 0
    under bound zero u = refl
    under zero (suc x) u = absurd (omega arith)
    under (suc bound) (suc x) u =
        let rest = under bound (suc x / 2) (omega (arith, u)) in
        omega (arith, rest, bit_and_step (suc x) 0)

pub mod-two-pow-suc : (a k : ℕ) → a % 2 ^ suc k ≡ 2 * (a / 2 % 2 ^ k) + a % 2
mod-two-pow-suc a k =
    let q = a / 2 / 2 ^ k in
    let twice : 2 * 2 ^ k ≡ 2 ^ suc k = omega (arith, pow-suc 2 k) in
    let quotient : q ≡ a / 2 ^ suc k =
      div-div-eq-div-mul a 2 (2 ^ k) ∙ ap (λ (t : ℕ). a / t) twice in
    let product : 2 ^ suc k * (a / 2 ^ suc k) ≡ 2 * (2 ^ k * q) =
      (λ i. sym twice i * sym quotient i) ∙ mul_assoc 2 (2 ^ k) q in
    omega (arith, div-add-mod a (2 ^ suc k), div-add-mod (a / 2) (2 ^ k), product)

-- A mask of `k` low ones is the remainder by `2 ^ k`: one digit less of the mask is one halving of the
-- word and of the modulus.
pub bit_and_mask : (k a : ℕ) → bit_and a (2 ^ k - 1) ≡ a % 2 ^ k
bit_and_mask zero a = rw bit_and-zero (omega arith)
bit_and_mask (suc k) a =
    let p = pow_pos k in
    let ones : (2 ^ suc k - 1) / 2 ≡ 2 ^ k - 1 = omega (arith, pow-suc 2 k, p) in
    let odd : (2 ^ suc k - 1) % 2 ≡ 1 = omega (arith, pow-suc 2 k, p) in
    let halves = ap (bit_and (a / 2)) ones ∙ bit_and_mask k (a / 2) in
    omega (arith, bit_and_step a (2 ^ suc k - 1), odd, halves, mod-two-pow-suc a k)

pub bit_and-mul :
    (k a m r : ℕ) → r < 2 ^ k → bit_and (a * 2 ^ k + r) (m * 2 ^ k) ≡ bit_and a m * 2 ^ k
bit_and-mul zero a m r h =
    let e : a * 2 ^ 0 + r ≡ a = omega arith in
    let d : m * 2 ^ 0 ≡ m = omega arith in rw (e, d) (omega arith)
bit_and-mul (suc k) a m r h =
    let e : (a * 2 ^ suc k + r) / 2 ≡ a * 2 ^ k + r / 2 = omega (arith, shift_once a k) in
    let d : m * 2 ^ suc k / 2 ≡ m * 2 ^ k = omega (arith, shift_once m k) in
    let s = bit_and_step (a * 2 ^ suc k + r) (m * 2 ^ suc k) in
    let ih = bit_and-mul k a m (r / 2) (omega (arith, pow-suc 2 k)) in
    omega (
      arith,
      s
          ∙ ap (λ (t : ℕ). t * 2 + min ((a * 2 ^ suc k + r) % 2) (m * 2 ^ suc k % 2))
              ((λ i. bit_and (e i) (d i)) ∙ ih),
      shift_once (bit_and a m) k,
      shift_once m k,
    )

pub sub_one-mul : (a b : ℕ) → 1 ≤ a → (a - 1) * b ≡ a * b - b
sub_one-mul zero b h = absurd (omega arith)
sub_one-mul (suc a) b h = let e : suc a - 1 ≡ a = omega arith in rw e (omega (arith, suc-mul a b))

-- A mask with `k` low zeros and `j` ones above them rounds down to a multiple of `2 ^ k`.
pub bit_and_high_mask :
    (k j a : ℕ) → a < 2 ^ (j + k) → bit_and a (2 ^ (j + k) - 2 ^ k) ≡ a - a % 2 ^ k
bit_and_high_mask k j a h =
    let p = pow_pos k in
    let e : a ≡ a / 2 ^ k * 2 ^ k + a % 2 ^ k = grind arith in
    let d : 2 ^ (j + k) - 2 ^ k ≡ (2 ^ j - 1) * 2 ^ k =
      omega (arith, two-pow-add j k, sub_one-mul (2 ^ j) (2 ^ k) (pow_pos j)) in
    let low : a % 2 ^ k < 2 ^ k = grind arith in
    let t : bit_and a (2 ^ (j + k) - 2 ^ k) ≡ bit_and (a / 2 ^ k) (2 ^ j - 1) * 2 ^ k =
      (λ i. bit_and (e i) (d i)) ∙ bit_and-mul k (a / 2 ^ k) (2 ^ j - 1) (a % 2 ^ k) low in
    let small : a / 2 ^ k < 2 ^ j = (div-lt_iff_lt-mul p).1 (omega (arith, h, two-pow-add j k)) in
    omega (arith, t, ap (λ (x : ℕ). x * 2 ^ k) (bit_and_mask j (a / 2 ^ k) ∙ mod-eq_of_lt small), e)
