-- ===== src/Cmpct/Buckets.antt =====
-- The buckets of a size: a block that is freed to the bucket that an allocation starts at, or to a
-- later one, is large enough for the allocation.

use native.Mathlib.Nat.{suc-mul, mul-le-mul_right}
use score.Base.{
  Outcome, ℕ, suc, ◌+◌, ◌-◌, ◌*◌, ◌/◌, ◌%◌, ◌^◌, ◌≤◌, ◌<◌, ◌≡◌, refl, sym, ap, ◌∙◌, inl, inr, true,
  arith, leb, Bool-cases, leb→le, ok,
}
use score.Base.Word.{wsub}
use score.Base.Bits.{two-pow-add}
use score.Align.{roundup, roundup_lem, IsPower}
use score.Cmpct.Rows.{Row, size-Row, helper-Row, next_size, later_size}
use score.Cmpct.{
  size_to_index_helper, size_to_index_allocating, size_to_index_freeing, heap_max_alloc_size,
  number_of_buckets,
}

-- The least block sizes above 128 go to bucket 15 or later, smaller ones to one before.
freeing_large :
    (b : ℕ) (v : Row b) → 128 < b → b < 2 ^ 21 → size_to_index_freeing b ≡ ok (8 * v.r + v.q - 25)
unfolding size_to_index_freeing
freeing_large b v l u =
    let e : wsub b 0 ≡ b = omega (arith, u) in
    rw (helper-Row b 0 0 b v e l (omega arith)) (ap ok (omega (arith, v.low)))

freeing_small : (b : ℕ) → 8 ≤ b → b ≤ 128 → size_to_index_freeing b ≡ ok (b / 8 - 1)
unfolding size_to_index_freeing size_to_index_helper
freeing_small b l u = let e : leb b 128 ≡ true = ground arith in rw e (ap ok (omega (arith, l, u)))

-- The whole of both cases.
pub freeing_bound :
    (b : ℕ)
    → 8 ≤ b
    → b < 2 ^ 21
    → (bucket : ℕ) × (size_to_index_freeing b ≡ ok bucket) × (bucket < number_of_buckets)
freeing_bound b l u = elim (Bool-cases (leb b 128)) [
  | inl e ↦ (b / 8 - 1, freeing_small b l (leb→le b 128 e), omega (arith, leb→le b 128 e))
  | inr e ↦
      let h : 128 < b = ground arith in
      let v = size-Row b (omega arith) u in
      (8 * v.r + v.q - 25, freeing_large b v h u, omega (arith, v.high, v.at_most))
]

-- What a bucket of a freed block says of its size.
freed_small :
    (rounded b bucket : ℕ)
    → 8 ≤ b
    → b < 2 ^ 21
    → size_to_index_freeing b ≡ ok bucket
    → rounded % 8 ≡ 0
    → rounded ≤ 128
    → rounded / 8 - 1 ≤ bucket
    → rounded ≤ b
freed_small rounded b bucket l u e m h k = elim (Bool-cases (leb b 128)) [
  | inl f ↦
      let g : ok bucket ≡ ok (b / 8 - 1) = sym e ∙ freeing_small b l (leb→le b 128 f) in
      let i : bucket ≡ b / 8 - 1 = cc in omega (arith, i, m, k, l)
  | inr f ↦ ground (arith, h)
]

freed_large :
    (a : ℕ) (w : Row a) (b bucket : ℕ)
    → 8 ≤ b
    → b < 2 ^ 21
    → size_to_index_freeing b ≡ ok bucket
    → 8 * w.r + w.q - 24 ≤ bucket
    → suc w.q * 2 ^ w.r ≤ b
freed_large a w b bucket l u e k = elim (Bool-cases (leb b 128)) [
  | inl f ↦
      let s = leb→le b 128 f in
      let g : ok bucket ≡ ok (b / 8 - 1) = sym e ∙ freeing_small b l s in
      let i : bucket ≡ b / 8 - 1 = cc in absurd (omega (arith, i, k, s, w.low, w.at_least))
  | inr f ↦
      let h : 128 < b = ground arith in
      let v = size-Row b (omega (arith, h)) u in
      let g : ok bucket ≡ ok (8 * v.r + v.q - 25) = sym e ∙ freeing_large b v h u in
      let i : bucket ≡ 8 * v.r + v.q - 25 = cc in
      later_size a b w v (omega (arith, i, k, w.low, w.at_least, v.low, v.at_least))
]

small_size : (s : ℕ) → 8 ≤ s → s ≤ 128 → size_to_index_helper s 8 1 ≡ ok (s / 8 - 1, s)
unfolding size_to_index_helper
small_size s l u =
    let e : leb s 128 ≡ true = ground arith in
    let d : wsub (s / 8) 1 ≡ s / 8 - 1 = omega (arith, l, u) in rw (e, d) refl

large_size :
    (s a : ℕ) (w : Row a)
    → 128 < s
    → wsub s 8 ≡ a
    → size_to_index_helper s 8 1 ≡ ok (8 * w.r + w.q - 24, suc w.q * 2 ^ w.r)
large_size s a w h e =
    let f : 8 * w.r + w.q + 1 - 8 - 17 ≡ 8 * w.r + w.q - 24 = omega (arith, w.low) in
    helper-Row s 8 1 a w e h (omega arith) ∙ rw (f, next_size a w) refl

multiple : (x r : ℕ) → 4 ≤ r → x * 2 ^ r ≡ 16 * (x * 2 ^ (r - 4))
multiple x r h =
    let e : 2 ^ r ≡ 16 * 2 ^ (r - 4) =
      ap (λ (t : ℕ). 2 ^ t) (omega (arith, h)) ∙ two-pow-add 4 (r - 4) in
    omega (arith, ap (λ (t : ℕ). x * t) e)

eight-IsPower : IsPower 8
eight-IsPower = record { k = 3; j = 61; width = refl; power = refl; fits = omega arith }

-- The bucket and the size that an allocation is given: room for the size, and for every block of a
-- bucket from there on.
abbrev pub Serves : ℕ → ℕ → ℕ → Type 0
Serves size bucket rounded =
    (size ≤ rounded)
    × (8 * rounded ≤ 9 * size + 64)
    × ((b bucket' : ℕ)
        → 8 ≤ b
        → b < 2 ^ 21
        → size_to_index_freeing b ≡ ok bucket'
        → bucket ≤ bucket'
        → rounded ≤ b)

-- For every size that the heap allocates, `size_to_index_allocating` returns a bucket and a size with
-- room for it that is at most an eighth, and 8 bytes, larger; and every free block of the bucket, or of a
-- later one, has at least that size.
pub allocating-Serves :
    (size : ℕ)
    → 1 ≤ size
    → size ≤ heap_max_alloc_size
    → (bucket rounded : ℕ) × (size_to_index_allocating size ≡ ok (bucket, rounded))
      × Serves size bucket rounded
unfolding size_to_index_allocating
allocating-Serves size l u =
    let s = roundup size 8 in
    let (m, above, near) = roundup_lem size 8 eight-IsPower (omega (arith, u)) in
    elim (Bool-cases (leb s 128)) [
      | inl e ↦
          let h = leb→le s 128 e in
          (
            s / 8 - 1,
            s,
            small_size s (omega (arith, m, l, above)) h,
            (above, omega (arith, near), λ b bucket i j f k. freed_small s b bucket i j f m h k),
          )
      | inr e ↦
          let h : 128 < s = ground arith in
          let a = s - 8 in
          let w = size-Row a (omega (arith, m, h)) (omega (arith, near, u)) in
          let step = mul-le-mul_right {m = 8} {n = w.q} (2 ^ w.r) w.at_least in
          let next = suc-mul w.q (2 ^ w.r) in
          (
            8 * w.r + w.q - 24,
            suc w.q * 2 ^ w.r,
            large_size s a w h (omega (arith, h, near, u)),
            (
              omega (arith, above, m, w.above, multiple (suc w.q) w.r w.low),
              omega (arith, step, next, w.below, near),
              λ b bucket i j f k. freed_large a w b bucket i j f k,
            ),
          )
    ]

-- Sizes above 8 are given at least 16 bytes.
pub allocating-ge :
    (size bucket rounded : ℕ)
    → 9 ≤ size
    → size ≤ heap_max_alloc_size
    → size_to_index_allocating size ≡ ok (bucket, rounded)
    → 16 ≤ rounded
unfolding size_to_index_allocating
allocating-ge size bucket rounded l u e = elim (Bool-cases (leb (roundup size 8) 128)) [
  | inl f ↦
      let s = roundup size 8 in
      let (m, above, near) = roundup_lem size 8 eight-IsPower (omega (arith, u)) in
      let g : ◌≡◌ {A = Outcome (ℕ × ℕ)} (ok (bucket, rounded)) (ok (s / 8 - 1, s)) =
        sym e ∙ small_size s (omega (arith, above, l)) (leb→le s 128 f) in
      let is : rounded ≡ s = cc in omega (arith, is, m, above, l)
  | inr f ↦
      let (m, above, near) = roundup_lem size 8 eight-IsPower (omega (arith, u)) in
      let (b, r, g, serves) = allocating-Serves size (omega (arith, l)) u in
      let same : ◌≡◌ {A = Outcome (ℕ × ℕ)} (ok (bucket, rounded)) (ok (b, r)) = sym e ∙ g in
      let is : rounded ≡ r = cc in
      let big : 128 < roundup size 8 = ground arith in omega (arith, is, serves.0, near, big)
]
