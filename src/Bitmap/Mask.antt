-- ===== src/Bitmap/Mask.antt =====
-- The masks of bitmap.rs, bit by bit.
use Prim.Native.Nat.{bit_and, bit_and-bitwise}
use native.Mathlib.Nat.{pow-suc, pow-le-pow_right, div-eq_of_lt-le, le_refl}
use score.Base.{
  ℕ, zero, suc, ◌+◌, ◌-◌, ◌*◌, ◌/◌, ◌%◌, ◌^◌, ◌≤◌, ◌<◌, ◌≡◌, sym, ◌∙◌, ap, true, ◌&&◌, arith, ltb,
  leb, if◌then◌else◌,
}
use score.Base.Word.{usize_max, usize_mod, wnot, wshl, wshr}
use score.Base.Bits.{bit, bit-zero, bit-bit_and, bit_and_step, pow_pos, two-pow-add, sub_one-mul}
use score.Bitmap.{get_mask, bitmap_unit_bits}

-- The ones from bit `o` up to bit `j`.
pub bit-ones : (j o k : ℕ) → o ≤ j → bit (2 ^ j - 2 ^ o) k ≡ (if leb o k && ltb k j then 1 else 0)
unfolding bit
bit-ones zero zero k h = bit-zero k ∙ ground arith
bit-ones zero (suc o) k h = absurd (omega arith)
bit-ones (suc j) zero zero h =
    let e : (2 ^ suc j - 2 ^ 0) % 2 ≡ 1 = omega (arith, pow-suc 2 j, pow_pos j) in e ∙ ground arith
bit-ones (suc j) zero (suc k) h =
    let e : (2 ^ suc j - 2 ^ 0) / 2 ≡ 2 ^ j - 2 ^ 0 = omega (arith, pow-suc 2 j, pow_pos j) in
    ap (λ (t : ℕ). bit t k) e ∙ bit-ones j zero k (omega arith) ∙ ground arith
bit-ones (suc j) (suc o) zero h =
    let e : (2 ^ suc j - 2 ^ suc o) % 2 ≡ 0 = omega (arith, pow-suc 2 j, pow-suc 2 o) in
    e ∙ ground arith
bit-ones (suc j) (suc o) (suc k) h =
    let e : (2 ^ suc j - 2 ^ suc o) / 2 ≡ 2 ^ j - 2 ^ o = omega (arith, pow-suc 2 j, pow-suc 2 o) in
    ap (λ (t : ℕ). bit t k) e ∙ bit-ones j o k (omega arith) ∙ ground arith

-- `!` flips every bit of a word.
pub bit-not : (j m k : ℕ) → m < 2 ^ j → k < j → bit (2 ^ j - 1 - m) k ≡ 1 - bit m k
unfolding bit
bit-not zero m k h l = absurd (omega arith)
bit-not (suc j) m zero h l = omega (arith, pow-suc 2 j)
bit-not (suc j) m (suc k) h l =
    let e : (2 ^ suc j - 1 - m) / 2 ≡ 2 ^ j - 1 - m / 2 = omega (arith, pow-suc 2 j) in
    ap (λ (t : ℕ). bit t k) e ∙ bit-not j (m / 2) k (omega (arith, pow-suc 2 j)) (omega arith)

pub bit-wnot : (m k : ℕ) → m < usize_mod → k < 64 → bit (wnot m) k ≡ 1 - bit m k
bit-wnot m k h l = bit-not 64 m k h l

pub bit_and-le : (a b : ℕ) → bit_and a b ≤ a
bit_and-le a b = below a a b (le_refl a)
  where
    below : (n a b : ℕ) → a ≤ n → bit_and a b ≤ a
    below n zero b h = omega (arith, bit_and-bitwise 0 b)
    below zero (suc a) b h = absurd (omega arith)
    below (suc n) (suc a) b h =
        omega (arith, bit_and_step (suc a) b, below n (suc a / 2) (b / 2) (omega arith))

-- A number with no bit set is 0.
pub bits_zero : (j m : ℕ) → m < 2 ^ j → ((k : ℕ) → k < j → bit m k ≡ 0) → m ≡ 0
unfolding bit
bits_zero zero m h z = omega arith
bits_zero (suc j) m h z = omega (
  arith,
  z 0 (omega arith),
  bits_zero j (m / 2) (omega (arith, pow-suc 2 j)) (λ k l. z (suc k) (omega arith)),
)

-- Shifting 64 ones right.
ones_shift : (s j : ℕ) → j + s ≡ 64 → usize_max / 2 ^ s ≡ 2 ^ j - 2 ^ 0
ones_shift s j h =
    let w : 2 ^ j * 2 ^ s ≡ usize_mod = sym (two-pow-add j s) ∙ ap (λ (t : ℕ). 2 ^ t) h in
    let q = pow_pos j in
    let p = pow_pos s in
    let d = sub_one-mul (2 ^ j) (2 ^ s) q in
    let e : 2 ^ j - 1 + 1 ≡ 2 ^ j = omega (arith, q) in
    div-eq_of_lt-le {k = 2 ^ j - 1} (2 ^ s) (omega (arith, d, w, p)) (rw e (omega (arith, w)))

module _ (off max : ℕ) (order : off < max) (one_word : max ≤ 64) where
  low_ones : wshl usize_max (off % bitmap_unit_bits) ≡ 2 ^ 64 - 2 ^ off
  unfolding wshl
  low_ones =
      let e : off % 512 % 64 ≡ off = omega (arith, order, one_word) in
      let b : 2 ^ off ≤ 2 ^ 63 =
        pow-le-pow_right (omega arith) {i = off} {j = 63} (omega (arith, order, one_word)) in
      rw e (omega (arith, pow_pos off, b))

  high_ones :
      wshr usize_max ((bitmap_unit_bits - max % bitmap_unit_bits) % bitmap_unit_bits)
      ≡ 2 ^ max - 2 ^ 0
  unfolding wshr
  high_ones = ones_shift ((512 - max % 512) % 512 % 64) max (omega (arith, order, one_word))

  -- Within the first word the mask has exactly the bits from `off` up to `max`, and is a word.
  pub get_mask-bit :
      (k : ℕ)
      → k < 64
      → bit (get_mask true true off max) k ≡ (if leb off k && ltb k max then 1 else 0)
  unfolding get_mask
  get_mask-bit k h =
      rw
        (
          low_ones,
          high_ones,
          bit-bit_and,
          bit-bit_and,
          bit-ones 64 off k (omega (arith, order, one_word)),
          bit-ones max 0 k (omega arith),
        )
        (let u : bit usize_max k ≡ 1 = bit-ones 64 0 k (omega arith) ∙ ground arith in
          rw u (ground arith))

  pub get_mask-lt : get_mask true true off max < usize_mod
  unfolding get_mask
  get_mask-lt =
      let l =
        bit_and-le (bit_and usize_max (wshl usize_max (off % bitmap_unit_bits)))
          (wshr usize_max ((bitmap_unit_bits - max % bitmap_unit_bits) % bitmap_unit_bits)) in
      let m = bit_and-le usize_max (wshl usize_max (off % bitmap_unit_bits)) in omega (arith, l, m)
