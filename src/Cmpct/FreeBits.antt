-- ===== src/Cmpct/FreeBits.antt =====
-- The bits of the free lists: one for each bucket, and the search for the first that is set.
use Prim.Native.Nat.{bit_and}
use native.Mathlib.Nat.{pow-suc, pow-le-pow_right}
use score.Base.{
  ℕ, zero, suc, ◌+◌, ◌-◌, ◌*◌, ◌/◌, ◌%◌, ◌^◌, ◌≤◌, ◌<◌, ◌≡◌, ◌≢◌, refl, ap, ◌∙◌, ◌⊎◌, inl, inr,
  Bool, true, false, arith, ltb, leb, ◌==◌, ==_iff, if◌then◌else◌, Bool-cases, lt→ltb, ltb→lt,
  ltb→le, Outcome, ok, err, not_found, min,
}
use score.Base.Bits.{bit, bit-le, bit-zero, bit-bit_and, pow_pos}
use score.Base.Highest.{bit_length_lem}
use score.Bitmap.Mask.{bit-ones, bit_and-le}
use score.Align.{roundup, roundup_lem, IsPower}
use score.Cmpct.{find_nonempty_word, find_nonempty_bucket, number_of_buckets, bucket_words}

-- The bit of a bucket.
abbrev pub flag : (ℕ → ℕ) → ℕ → ℕ
flag bits b = bit (bits (b / 32)) (31 - b % 32)

-- The first bucket from `from` on and below `to` whose bit is set, or that there is none.
abbrev pub First : (ℕ → ℕ) → ℕ → ℕ → Outcome ℕ → Type 0
First bits from to o =
    ((b : ℕ) × (o ≡ ok b)
      × (from ≤ b)
      × (b < to)
      × (flag bits b ≡ 1)
      × ((k : ℕ) → from ≤ k → k < b → flag bits k ≡ 0))
    ⊎ ((o ≡ err not_found) × ((k : ℕ) → from ≤ k → k < to → flag bits k ≡ 0))

module _ (bits : ℕ → ℕ) (words : (j : ℕ) → bits j < 2 ^ 32) where
  -- The buckets of word `i`.
  flag-word : (i k : ℕ) → i * 32 ≤ k → k < (i + 1) * 32 → flag bits k ≡ bit (bits i) (31 - k % 32)
  flag-word i k l u =
      let e : k / 32 ≡ i = omega (arith, l, u) in ap (λ (t : ℕ). bit (bits t) (31 - k % 32)) e

  find_nonempty_word-First :
      (n i : ℕ) → First bits (i * 32) ((i + n) * 32) (find_nonempty_word n i bits)
  unfolding find_nonempty_word
  find_nonempty_word-First zero i = inr (refl, λ k l u. absurd (omega arith))
  find_nonempty_word-First (suc n) i = elim (Bool-cases (bits i == 0)) [
    | inl e ↦
        let z : bits i ≡ 0 = (==_iff (bits i) 0).0 e in
        let here : (k : ℕ) → i * 32 ≤ k → k < (i + 1) * 32 → flag bits k ≡ 0 = λ k l u.
          flag-word i k l u ∙ ap (λ (t : ℕ). bit t (31 - k % 32)) z ∙ bit-zero (31 - k % 32) in
        rw e (elim (find_nonempty_word-First n (i + 1)) [
          | inl (b, f, l, u, o, a) ↦ inl (
            b,
            f,
            omega (arith, l),
            omega (arith, u),
            o,
            λ k l' u'. elim (Bool-cases (ltb k ((i + 1) * 32))) [
              | inl g ↦ here k l' (ground arith)
              | inr g ↦ a k (ground arith) u'
            ],
          )
          | inr (f, a) ↦ inr (
            f,
            λ k l' u'. elim (Bool-cases (ltb k ((i + 1) * 32))) [
              | inl g ↦ here k l' (ground arith)
              | inr g ↦ a k (ground arith) (omega (arith, u'))
            ],
          )
        ])
    | inr e ↦
        let z : bits i ≢ 0 = λ f. absurd (ground arith) in
        let (h, len, lt, one, zeros) = bit_length_lem 32 (bits i) (words i) z in
        rw e (
          inl (
            i * 32 + (31 - h),
            ap ok (omega (arith, len, lt)),
            omega arith,
            omega arith,
            flag-word i (i * 32 + (31 - h)) (omega arith) (omega arith)
                ∙ ap (bit (bits i)) (omega (arith, lt))
                ∙ one,
            λ k l u.
                flag-word i k l (omega (arith, u)) ∙ zeros (31 - k % 32) (omega (arith, l, u, lt)),
          ))
  ]

thirty_two-IsPower : IsPower 32
thirty_two-IsPower = record { k = 5; j = 59; width = refl; power = refl; fits = omega arith }

-- The mask of the buckets of a word from `r` on.
low_mask-bit :
    (r k : ℕ) → r < 32 → bit ((2 ^ (31 - r) - 1) * 2 + 1) k ≡ (if ltb k (32 - r) then 1 else 0)
low_mask-bit r k h =
    let up : suc (31 - r) ≡ 32 - r = omega (arith, h) in
    let e : (2 ^ (31 - r) - 1) * 2 + 1 ≡ 2 ^ (32 - r) - 2 ^ 0 =
      omega (arith, pow-suc 2 (31 - r), pow_pos (31 - r), ap (λ (t : ℕ). 2 ^ t) up) in
    ap (λ (t : ℕ). bit t k) e ∙ bit-ones (32 - r) 0 k (omega arith) ∙ ground arith

low_mask-lt : (r : ℕ) → (2 ^ (31 - r) - 1) * 2 + 1 < 2 ^ 32
low_mask-lt r = omega (
  arith,
  pow_pos (31 - r),
  pow-le-pow_right {n = 2} (omega arith) {i = 31 - r} {j = 31} (omega arith),
)

-- The bits of a masked word.
both_one :
    (x y m : ℕ) (b : Bool)
    → x ≤ 1
    → y ≡ (if b then 1 else 0)
    → m ≡ min y x
    → m ≡ 1
    → (b ≡ true) × (x ≡ 1)
both_one x y m true l e f g = (refl, omega (arith, l, e, f, g))
both_one x y m false l e f g = absurd (omega (arith, e, f, g))

same_zero :
    (x y m : ℕ) (b : Bool)
    → x ≤ 1
    → y ≡ (if b then 1 else 0)
    → m ≡ min y x
    → m ≡ 0
    → b ≡ true
    → x ≡ 0
same_zero x y m true l e f g h = omega (arith, l, e, f, g)
same_zero x y m false l e f g h = absurd (cc)

module _ (bits : ℕ → ℕ) (words : (j : ℕ) → bits j < 2 ^ 32) (index : ℕ)
    (small : index < number_of_buckets) where
  abbrev mask : ℕ
  mask = (2 ^ (31 - index % 32) - 1) * 2 + 1

  abbrev word : ℕ
  word = bits (index / 32)

  masked-lt : bit_and mask word < 2 ^ 32
  masked-lt = omega (arith, bit_and-le mask word, low_mask-lt (index % 32))

  -- A bucket of the word, from the index on.
  abbrev Later : ℕ → Type 0
  Later k = (index ≤ k) × (k < (index / 32 + 1) * 32)

  masked_zero : (k : ℕ) → Later k → bit (bit_and mask word) (31 - k % 32) ≡ 0 → flag bits k ≡ 0
  masked_zero k (l, u) z =
      let p = 31 - k % 32 in
      flag-word bits words (index / 32) k (omega (arith, l)) u
      ∙ same_zero (bit word p) (bit mask p) (bit (bit_and mask word) p) (ltb p (32 - index % 32))
          (bit-le word p) (low_mask-bit (index % 32) p (omega arith)) (bit-bit_and mask word p) z
          (lt→ltb p (32 - index % 32) (omega (arith, l, u)))

  found_here :
      (h : ℕ)
      → h < 32
      → bit (bit_and mask word) h ≡ 1
      → ((k : ℕ) → h < k → bit (bit_and mask word) k ≡ 0)
      → First bits index number_of_buckets (ok (index - index % 32 + (31 - h)))
  found_here h lt one zeros =
      let (low, set) =
        both_one (bit word h) (bit mask h) (bit (bit_and mask word) h) (ltb h (32 - index % 32))
          (bit-le word h) (low_mask-bit (index % 32) h (omega arith)) (bit-bit_and mask word h)
          one in
      let b = index - index % 32 + (31 - h) in
      let hl : h < 32 - index % 32 = ltb→lt h (32 - index % 32) low in
      inl (
        b,
        refl,
        omega (arith, hl),
        omega (arith, small, lt),
        flag-word bits words (index / 32) b (omega arith) (omega (arith, lt))
            ∙ ap (bit word) (omega (arith, lt))
            ∙ set,
        λ k l u.
            masked_zero k (l, omega (arith, u)) (zeros (31 - k % 32) (omega (arith, l, u, lt))),
      )

  found_later :
      bit_and mask word ≡ 0
      → First bits index number_of_buckets (
          find_nonempty_word
            (number_of_buckets / 32 - roundup (index + 1) 32 / 32)
            (roundup (index + 1) 32 / 32)
            bits)
  found_later z =
      let (m, l, u) = roundup_lem (index + 1) 32 thirty_two-IsPower (omega (arith, small)) in
      let start : roundup (index + 1) 32 / 32 ≡ index / 32 + 1 = omega (arith, m, l, u) in
      let n = number_of_buckets / 32 - (index / 32 + 1) in
      let end : (index / 32 + 1 + n) * 32 ≡ number_of_buckets = omega (arith, small) in
      let here : (k : ℕ) → Later k → flag bits k ≡ 0 =
        λ k l. masked_zero k l (ap (λ (t : ℕ). bit t (31 - k % 32)) z ∙ bit-zero (31 - k % 32)) in
      rw start (elim (find_nonempty_word-First bits words n (index / 32 + 1)) [
        | inl (b, f, l, u, o, a) ↦ inl (
          b,
          f,
          omega (arith, l),
          omega (arith, u, end),
          o,
          λ k l' u'. elim (Bool-cases (ltb k ((index / 32 + 1) * 32))) [
            | inl g ↦ here k (l', ltb→lt _ _ g)
            | inr g ↦ a k (ltb→le _ _ g) u'
          ],
        )
        | inr (f, a) ↦ inr (
          f,
          λ k l' u'. elim (Bool-cases (ltb k ((index / 32 + 1) * 32))) [
            | inl g ↦ here k (l', ltb→lt _ _ g)
            | inr g ↦ a k (ltb→le _ _ g) (omega (arith, u', end))
          ],
        )
      ])

  -- `find_nonempty_bucket` finds the first bucket from the index on whose bit is set, and returns
  -- `NotFound` if there is none, if the words of the bits are words of 32 bits.
  pub find_nonempty_bucket-First :
      First bits index number_of_buckets (find_nonempty_bucket index bits)
  unfolding find_nonempty_bucket
  find_nonempty_bucket-First =
      let i : leb bucket_words (index / 32) ≡ false = ground arith in
      elim (Bool-cases (bit_and mask word == 0)) [
        | inl e ↦ rw (i, e) (found_later ((==_iff (bit_and mask word) 0).0 e))
        | inr e ↦
            let z : bit_and mask word ≢ 0 = λ f. absurd (ground arith) in
            let (h, len, lt, one, zeros) = bit_length_lem 32 (bit_and mask word) masked-lt z in
            let s : 32 - suc h ≡ 31 - h = omega (arith, lt) in
            rw (i, e, len, s) (found_here h lt one zeros)
      ]
