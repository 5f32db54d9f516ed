-- ===== src/Cmpct/MarkBits.antt =====
-- The writes to the bits of the free lists.
use Prim.Native.Nat.{bit_and, bit_or}
use native.Mathlib.Nat.{pow-suc, pow-le-pow_right}
use score.Base.{
  ℕ, suc, ◌-◌, ◌/◌, ◌%◌, ◌^◌, ◌<◌, ◌≡◌, refl, ap, ◌∙◌, inl, inr, false, arith, leb, ◌==◌,
  if◌then◌else◌, Bool-cases, Outcome, ok,
}
use score.Base.Bits.{bit, bit-le, bit-bit_and, bit-bit_or, bit_or-lt}
use score.Bitmap.Mask.{bit-ones, bit-not, bit_and-le}
use score.Cmpct.{set_free_list_bit, clear_free_list_bit, number_of_buckets, bucket_words}
use score.Cmpct.FreeBits.{flag}

-- A word with one bit.
one_bit : (p k : ℕ) → bit (2 ^ p) k ≡ (if k == p then 1 else 0)
one_bit p k =
    let e : 2 ^ p ≡ 2 ^ suc p - 2 ^ p = omega (arith, pow-suc 2 p) in
    ap (λ (t : ℕ). bit t k) e ∙ bit-ones (suc p) p k (omega arith) ∙ ground arith

one_bit-lt : (r : ℕ) → 2 ^ (31 - r) < 2 ^ 32
one_bit-lt r =
    omega (arith, pow-le-pow_right {n = 2} (omega arith) {i = 31 - r} {j = 31} (omega arith))

module _ (bits : ℕ → ℕ) (words : (j : ℕ) → bits j < 2 ^ 32) (index : ℕ)
    (small : index < number_of_buckets) where
  -- The bits with that of `index` as given and the others as before, and still in words of 32 bits.
  abbrev pub Marks : ℕ → Outcome (ℕ → ℕ) → Type 0
  Marks v o =
      (c : ℕ → ℕ) × (o ≡ ok c)
      × ((j : ℕ) → c j < 2 ^ 32)
      × ((k : ℕ) → flag c k ≡ (if k == index then v else flag bits k))

  set-bit :
      (w k : ℕ)
      → k < 32
      → bit (bit_or w (2 ^ (31 - index % 32))) (31 - k)
        ≡ (if k == index % 32 then 1 else bit w (31 - k))
  set-bit w k h =
      bit-bit_or w (2 ^ (31 - index % 32)) (31 - k)
      ∙ ground (arith, one_bit (31 - index % 32) (31 - k), bit-le w (31 - k))

  clear-bit :
      (w k : ℕ)
      → k < 32
      → bit (bit_and w (2 ^ 32 - 1 - 2 ^ (31 - index % 32))) (31 - k)
        ≡ (if k == index % 32 then 0 else bit w (31 - k))
  clear-bit w k h =
      bit-bit_and w (2 ^ 32 - 1 - 2 ^ (31 - index % 32)) (31 - k)
      ∙ ground (
        arith,
        bit-not 32 (2 ^ (31 - index % 32)) (31 - k) (one_bit-lt (index % 32)) (omega arith),
        one_bit (31 - index % 32) (31 - k),
        bit-le w (31 - k),
      )

  -- A write to the word of `index` that acts on its bit only.
  marks :
      (f : ℕ → ℕ) (v : ℕ)
      → ((w k : ℕ) → k < 32 → bit (f w) (31 - k) ≡ (if k == index % 32 then v else bit w (31 - k)))
      → (k : ℕ)
      → flag (λ j. if j == index / 32 then f (bits j) else bits j) k
        ≡ (if k == index then v else flag bits k)
  marks f v h k = elim (Bool-cases (k / 32 == index / 32)) [
    | inl e ↦ let s = h (bits (k / 32)) (k % 32) (omega arith) in rw (e, s) (ground arith)
    | inr e ↦ rw e (ground arith)
  ]

  -- `set_free_list_bit` and `clear_free_list_bit` write the bit of their bucket and no other.
  pub set_clear_free_list_bit-Marks :
      Marks 1 (set_free_list_bit index bits) × Marks 0 (clear_free_list_bit index bits)
  unfolding set_free_list_bit clear_free_list_bit
  set_clear_free_list_bit-Marks =
      let i : leb bucket_words (index / 32) ≡ false = ground arith in
      (
        (
          λ j. if j == index / 32 then bit_or (bits j) (2 ^ (31 - index % 32)) else bits j,
          rw i refl,
          λ j. ground (
            arith,
            words j,
            bit_or-lt 32 (bits j) (2 ^ (31 - index % 32)) (words j) (one_bit-lt (index % 32)),
          ),
          marks (λ w. bit_or w (2 ^ (31 - index % 32))) 1 set-bit,
        ),
        (
          λ j.
              if j == index / 32
              then bit_and (bits j) (2 ^ 32 - 1 - 2 ^ (31 - index % 32))
              else bits j,
          rw i refl,
          λ j. ground (arith, words j, bit_and-le (bits j) (2 ^ 32 - 1 - 2 ^ (31 - index % 32))),
          marks (λ w. bit_and w (2 ^ 32 - 1 - 2 ^ (31 - index % 32))) 0 clear-bit,
        ),
      )
