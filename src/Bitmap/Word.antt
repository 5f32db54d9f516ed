-- ===== src/Bitmap/Word.antt =====
-- The operations within the first word of the storage, where they do what they mean to but for the
-- index that `reverse_scan` reports.
use Prim.Native.Nat.{bit_and, bit_or}
use score.Base.{
  ℕ, suc, ◌+◌, ◌-◌, ◌/◌, ◌≤◌, ◌<◌, ◌≡◌, ◌≢◌, refl, ◌∙◌, ap, ◌⊎◌, inl, inr, min, Bool, true, false,
  not, ◌&&◌, ◌||◌, arith, ltb, leb, ◌==◌, if◌then◌else◌, Bool-cases, ==_iff, none, some, Outcome,
  ok,
}
use score.Base.Word.{usize_mod, wnot, wsub}
use score.Base.Bits.{bit, bit-le, bit-zero, bit-bit_and, bit-bit_or, bit_or-lt}
use score.Bitmap.{
  Bitmap, get_mask, mask_bits, write_words, set, clear, leading_zeros, reverse_scan_loop,
  reverse_scan, first_idx, last_idx,
}
use score.Base.Highest.{bit_length, bit_length_lem}
use score.Bitmap.Mask.{get_mask-bit, get_mask-lt, bit-wnot, bit_and-le}

-- The bit of the first word at `k`.
abbrev pub word_bit : Bitmap → ℕ → ℕ
word_bit b k = bit (b.storage_data 0) k

-- What a write leaves alone.
abbrev pub SameElsewhere : Bitmap → Bitmap → Type 0
SameElsewhere b c =
    (c.size ≡ b.size)
    × (c.storage_num ≡ b.storage_num)
    × ((i : ℕ) → i ≢ 0 → c.storage_data i ≡ b.storage_data i)

module _ (b : Bitmap) (bitoff bitmax : ℕ) (order : bitoff ≤ bitmax) (one_word : bitmax ≤ 64)
    (inside : bitmax ≤ b.size) where
  first_zero : first_idx bitoff ≡ 0
  first_zero = omega (arith, order, one_word)

  last_zero : bitoff < bitmax → last_idx bitmax ≡ 0
  last_zero less = omega (arith, one_word)

  not_above : (ltb bitmax bitoff || ltb b.size bitmax) ≡ false
  not_above = ground arith

  set-first_word :
      bitoff < bitmax
      → set bitoff bitmax b
        ≡ ok (record b {
          storage_data = λ j.
              if j == 0
              then bit_or (b.storage_data 0) (get_mask true true bitoff bitmax)
              else b.storage_data j;
        })
  unfolding set write_words
  set-first_word less =
      let e : (bitoff == bitmax) ≡ false = ground arith in
      rw (not_above, e, first_zero, last_zero less, set)

  clear-first_word :
      bitoff < bitmax
      → clear bitoff bitmax b
        ≡ ok (record b {
          storage_data = λ j.
              if j == 0
              then bit_and (b.storage_data 0) (wnot (get_mask true true bitoff bitmax))
              else b.storage_data j;
        })
  unfolding clear write_words
  clear-first_word less =
      let e : (bitoff == bitmax) ≡ false = ground arith in
      rw (not_above, e, first_zero, last_zero less, clear)

  -- What a write to the bits makes of the first word and of the others.
  abbrev pub Writes : ℕ → Outcome Bitmap → Type 0
  Writes v o =
      (c : Bitmap) × (o ≡ ok c)
      × ((k : ℕ)
          → k < 64
          → word_bit c k ≡ (if leb bitoff k && ltb k bitmax then v else word_bit b k))
      × SameElsewhere b c

  -- `set` and `clear` within the first word make the bits from `bitoff` up to `bitmax` ones, or zeros,
  -- and keep all other bits and words.
  pub set_clear-Writes : Writes 1 (set bitoff bitmax b) × Writes 0 (clear bitoff bitmax b)
  set_clear-Writes = elim (Bool-cases (bitoff == bitmax)) [
    | inl e ↦ (
      (b, unfold set in ground (arith, not_above), λ k h. ground arith, (refl, refl, λ i n. refl)),
      (
        b,
        unfold clear in ground (arith, not_above),
        λ k h. ground arith,
        (refl, refl, λ i n. refl),
      ),
    )
    | inr e ↦
        let less : bitoff < bitmax = ground arith in
        let mask = get_mask true true bitoff bitmax in
        let here = get_mask-bit bitoff bitmax less one_word in
        let small = get_mask-lt bitoff bitmax less one_word in
        (
          (
            _,
            set-first_word less,
            λ k h.
                bit-bit_or (b.storage_data 0) mask k
                ∙ ground (arith, here k h, bit-le (b.storage_data 0) k),
            (refl, refl, λ i n. ground arith),
          ),
          (
            _,
            clear-first_word less,
            λ k h.
                bit-bit_and (b.storage_data 0) (wnot mask) k
                ∙ ground (arith, here k h, bit-wnot mask k small h, bit-le (b.storage_data 0) k),
            (refl, refl, λ i n. ground arith),
          ),
        )
  ]

-- What `is_set` asks of a bit.
abbrev pub value : Bool → ℕ
value true = 1
value false = 0

-- The masked word has the bits in the range that differ from what is asked for.
mask_bits-bit :
    (w bitoff bitmax : ℕ) (is_set : Bool)
    → bitoff < bitmax
    → bitmax ≤ 64
    → w < usize_mod
    → (k : ℕ) → k < 64
    → bit (mask_bits w 0 bitoff bitmax is_set) k
      ≡ (if leb bitoff k && ltb k bitmax && not (bit w k == value is_set) then 1 else 0)
unfolding mask_bits
mask_bits-bit w bitoff bitmax true order one_word small k h =
    let mask = get_mask true true bitoff bitmax in
    let f : bitoff / 512 ≡ 0 = omega arith in
    let l : wsub bitmax 1 / 512 ≡ 0 = omega arith in
    let m = get_mask-lt bitoff bitmax order one_word in
    let o = bit_or-lt 64 (wnot mask) w (omega (arith, m)) small in
    rw (f, l)
      (bit-wnot (bit_or (wnot mask) w) k o h
        ∙ ground (
          arith,
          bit-bit_or (wnot mask) w k,
          bit-wnot mask k m h,
          get_mask-bit bitoff bitmax order one_word k h,
          bit-le w k,
        ))
mask_bits-bit w bitoff bitmax false order one_word small k h =
    let mask = get_mask true true bitoff bitmax in
    let f : bitoff / 512 ≡ 0 = omega arith in
    let l : wsub bitmax 1 / 512 ≡ 0 = omega arith in
    rw (f, l)
      (ground
        (arith, bit-bit_and mask w k, get_mask-bit bitoff bitmax order one_word k h, bit-le w k))

mask_bits-lt :
    (w bitoff bitmax : ℕ) (is_set : Bool)
    → bitoff < bitmax
    → bitmax ≤ 64
    → mask_bits w 0 bitoff bitmax is_set < usize_mod
unfolding mask_bits
mask_bits-lt w bitoff bitmax true order one_word = omega arith
mask_bits-lt w bitoff bitmax false order one_word =
    let f : bitoff / 512 ≡ 0 = omega arith in
    let l : wsub bitmax 1 / 512 ≡ 0 = omega arith in
    rw (f, l)
      (omega (
        arith,
        bit_and-le (get_mask true true bitoff bitmax) w,
        get_mask-lt bitoff bitmax order one_word,
      ))

leading_zeros-suc : (a h : ℕ) → bit_length 64 a ≡ suc h → h < 64 → leading_zeros a + 1 ≡ 64 - h
unfolding leading_zeros
leading_zeros-suc a h e l = omega (arith, e)

-- What a one, or a zero, in the masked word says of a bit `y` of the word.
one_differs :
    (x y o k m v : ℕ)
    → x ≡ (if leb o k && ltb k m && not (y == v) then 1 else 0)
    → x ≡ 1
    → (o ≤ k) × (k < m) × (y ≢ v)
one_differs x y o k m v e f = (ground arith, ground arith, ground arith)

zero_same :
    (x y o k m v : ℕ)
    → x ≡ (if leb o k && ltb k m && not (y == v) then 1 else 0)
    → x ≡ 0
    → o ≤ k
    → k < m
    → y ≡ v
zero_same x y o k m v e f i j = ground arith

module _ (b : Bitmap) (bitoff bitmax : ℕ) (is_set : Bool) (order : bitoff < bitmax)
    (one_word : bitmax ≤ 64) (inside : bitmax ≤ b.size) where
  abbrev masked : ℕ
  masked = mask_bits (b.storage_data 0) 0 bitoff bitmax is_set

  reverse_scan-first_word :
      reverse_scan bitoff bitmax is_set b
      ≡ (if not (masked == 0) then some (512 - (leading_zeros masked + 1)) else none)
  unfolding reverse_scan reverse_scan_loop
  reverse_scan-first_word =
      let f : bitoff / 512 ≡ 0 = omega (arith, order, one_word) in
      let l : wsub bitmax 1 / 512 ≡ 0 = omega (arith, order, one_word) in
      let m : min bitmax b.size ≡ bitmax = omega (arith, inside) in
      let g : leb bitmax bitoff ≡ false = ground (arith, order) in rw (m, g, f, l) refl

  pub reverse_scan-none : masked ≡ 0 → reverse_scan bitoff bitmax is_set b ≡ none
  reverse_scan-none z =
      let e : (masked == 0) ≡ true = ground (arith, z) in rw (reverse_scan-first_word, e) refl

  pub reverse_scan-some :
      (h : ℕ)
      → masked ≢ 0
      → bit_length 64 masked ≡ suc h
      → h < 64
      → reverse_scan bitoff bitmax is_set b ≡ some (448 + h)
  reverse_scan-some h n len lt =
      let e : (masked == 0) ≡ false = ground (arith, n) in
      rw (reverse_scan-first_word, e, leading_zeros-suc masked h len lt)
        (ap some (omega (arith, lt)))

-- Within the first word `reverse_scan` returns true exactly if all bits of the range are as asked for.
-- Otherwise it finds the highest one that is not, but the index that it writes is 448 above it.
pub reverse_scan_lem :
    (b : Bitmap) (bitoff bitmax : ℕ) (is_set : Bool)
    → bitoff < bitmax
    → bitmax ≤ 64
    → bitmax ≤ b.size
    → b.storage_data 0 < usize_mod
    → ((reverse_scan bitoff bitmax is_set b ≡ none)
        × ((k : ℕ) → bitoff ≤ k → k < bitmax → word_bit b k ≡ value is_set))
      ⊎ ((h : ℕ) × (reverse_scan bitoff bitmax is_set b ≡ some (448 + h))
          × (bitoff ≤ h)
          × (h < bitmax)
          × (word_bit b h ≢ value is_set)
          × ((k : ℕ) → h < k → k < bitmax → word_bit b k ≡ value is_set))
reverse_scan_lem b bitoff bitmax is_set order one_word inside small =
    let w = b.storage_data 0 in
    let v = value is_set in
    let m = mask_bits w 0 bitoff bitmax is_set in
    let each = mask_bits-bit w bitoff bitmax is_set order one_word small in
    elim (Bool-cases (m == 0)) [
      | inl e ↦
          let z : m ≡ 0 = (==_iff m 0).0 e in
          inl (
            reverse_scan-none b bitoff bitmax is_set order one_word inside z,
            λ k i j.
                zero_same (bit m k) (bit w k) bitoff k bitmax v
                  (each k (omega (arith, j, one_word))) (ap (λ (t : ℕ). bit t k) z ∙ bit-zero k) i
                  j,
          )
      | inr e ↦
          let n : m ≢ 0 = λ z. absurd (cc) in
          let (h, len, lt, one, zeros) =
            bit_length_lem 64 m (mask_bits-lt w bitoff bitmax is_set order one_word) n in
          let (low, high, differs) =
            one_differs (bit m h) (bit w h) bitoff h bitmax v (each h lt) one in
          inr (
            h,
            reverse_scan-some b bitoff bitmax is_set order one_word inside h n len lt,
            low,
            high,
            differs,
            λ k i j.
                zero_same (bit m k) (bit w k) bitoff k bitmax v
                  (each k (omega (arith, j, one_word))) (zeros k i) (omega (arith, low, i)) j,
          )
    ]
