-- ===== src/Base/Highest.antt =====
-- The highest one of a word, which `leading_zeros` finds.
use native.Mathlib.Nat.{pow-suc}
use score.Base.{
  ℕ, zero, suc, ◌/◌, ◌^◌, ◌<◌, ◌≤◌, ◌≡◌, ◌≢◌, refl, ap, ◌==◌, if◌then◌else◌, arith, inl, inr,
  Bool-cases,
}
use score.Base.Bits.{bit, bit-zero}

-- The number of digits of a word in base two, with fuel for its halvings.
unfoldable pub bit_length : ℕ → ℕ → ℕ
bit_length zero a = 0
bit_length (suc n) a = let rest = bit_length n (a / 2) in if a == 0 then 0 else suc rest

bit_length-zero : (n : ℕ) → bit_length n 0 ≡ 0
unfolding bit_length
bit_length-zero zero = refl
bit_length-zero (suc n) = refl

above_one : (a k : ℕ) → a ≡ 1 → 0 < k → bit a k ≡ 0
unfolding bit
above_one a zero e h = absurd (omega arith)
above_one a (suc k) e h = let f : a / 2 ≡ 0 = omega arith in rw f (bit-zero k)

above_half : (a h : ℕ) → ((k : ℕ) → h < k → bit (a / 2) k ≡ 0) → (k : ℕ) → suc h < k → bit a k ≡ 0
unfolding bit
above_half a h f zero l = absurd (omega arith)
above_half a h f (suc k) l = f k (omega arith)

-- The highest one of a number below `2 ^ n`.
pub bit_length_lem :
    (n a : ℕ)
    → a < 2 ^ n
    → a ≢ 0
    → (h : ℕ) × (bit_length n a ≡ suc h) × (h < n) × (bit a h ≡ 1) × ((k : ℕ) → h < k → bit a k ≡ 0)
unfolding bit_length bit
bit_length_lem zero a l z = absurd (z (omega arith))
bit_length_lem (suc n) a l z = elim (Bool-cases (a / 2 == 0)) [
  | inl e ↦
      let o : a ≡ 1 = ground arith in
      let f : a / 2 ≡ 0 = omega arith in
      (
        0,
        ground (arith, bit_length-zero n, ap (bit_length n) f),
        omega arith,
        ground arith,
        λ k. above_one a k o,
      )
  | inr e ↦
      let (h, f, g, i, j) = bit_length_lem n (a / 2) (omega (arith, pow-suc 2 n)) (ground arith) in
      (suc h, ground (arith, f), omega (arith, g), i, above_half a h j)
]

-- The powers of two around a number.
pub bit_length-bounds :
    (n a : ℕ)
    → a < 2 ^ n
    → a ≢ 0
    → (h : ℕ) × (bit_length n a ≡ suc h) × (h < n) × (2 ^ h ≤ a) × (a < 2 ^ suc h)
unfolding bit_length
bit_length-bounds zero a l z = absurd (z (omega arith))
bit_length-bounds (suc n) a l z = elim (Bool-cases (a / 2 == 0)) [
  | inl e ↦
      let o : a ≡ 1 = ground arith in
      let f : a / 2 ≡ 0 = omega arith in
      (
        0,
        ground (arith, bit_length-zero n, ap (bit_length n) f),
        omega arith,
        omega (arith, o),
        omega (arith, o),
      )
  | inr e ↦
      let (h, f, g, i, j) =
        bit_length-bounds n (a / 2) (omega (arith, pow-suc 2 n)) (ground arith) in
      (
        suc h,
        ground (arith, f),
        omega (arith, g),
        omega (arith, i, pow-suc 2 h),
        omega (arith, j, pow-suc 2 (suc h)),
      )
]
