-- ===== src/Cmpct/Rows.antt =====
-- The rows and columns of the buckets for sizes above 128.
use Prim.Native.Nat.{bit_and, bit_or}
use native.Mathlib.Nat.{
  pow-suc, pow-le-pow_right, div-add-mod, mod-lt, mul_comm, suc-mul, mul-le-mul_right,
  le-div_iff_mul-le, div-lt_iff_lt-mul,
}
use score.Base.{
  ℕ, suc, ◌+◌, ◌-◌, ◌*◌, ◌/◌, ◌%◌, ◌^◌, ◌≤◌, ◌<◌, ◌≡◌, refl, ap, ◌∙◌, inl, inr, true, false, arith,
  ltb, leb, ◌==◌, Bool-cases, lt→ltb, ok,
}
use score.Base.Word.{usize_mod, wadd, wsub, wshl, wshr}
use score.Base.Bits.{bit_and_mask, bit_or-fields, pow_pos, two-pow-add}
use score.Base.Highest.{bit_length, bit_length-bounds}
use score.Cmpct.{row_column, row_column_size, size_to_index_helper, number_of_buckets}

-- The row and the column of a size: `q` steps of `2 ^ r`, with 8 of them in a row.
pub record Row (a : ℕ) : Type 0 where
  pub r : ℕ
  pub q : ℕ
  pub low : 4 ≤ r
  pub high : r ≤ 17
  pub at_least : 8 ≤ q
  pub at_most : q < 16
  pub below : q * 2 ^ r ≤ a
  pub above : a < suc q * 2 ^ r
  pub digits : bit_length 64 a ≡ r + 4
  pub steps : a / 2 ^ r ≡ q

pub two_pow_le : (i j : ℕ) → i ≤ j → 2 ^ i ≤ 2 ^ j
two_pow_le i j h = pow-le-pow_right (omega arith) {i = i} {j = j} h

pub size-Row : (a : ℕ) → 128 ≤ a → a < 2 ^ 21 → Row a
size-Row a l u =
    let (h, len, lt, low, high) =
      bit_length-bounds 64 a (omega arith) (λ z. absurd (omega arith)) in
    let h7 : 7 ≤ h = elim (Bool-cases (leb 7 h)) [
      | inl e ↦ ground arith
      | inr e ↦ absurd (omega (arith, high, l, two_pow_le (suc h) 7 (ground arith)))
    ] in
    let h20 : h ≤ 20 = elim (Bool-cases (leb h 20)) [
      | inl e ↦ ground arith
      | inr e ↦ absurd (omega (arith, low, u, two_pow_le 21 h (ground arith)))
    ] in
    let r = h - 3 in
    let p = pow_pos r in
    let up : 2 ^ h ≡ 8 * 2 ^ r = ap (λ (t : ℕ). 2 ^ t) (omega (arith, h7)) ∙ two-pow-add 3 r in
    let v = div-add-mod a (2 ^ r) in
    let m = mod-lt a {m = 2 ^ r} p in
    let c = mul_comm (2 ^ r) (a / 2 ^ r) in
    record {
      r = r;
      q = a / 2 ^ r;
      low = omega (arith, h7);
      high = omega (arith, h20);
      at_least = (le-div_iff_mul-le p).1 (omega (arith, up, low));
      at_most = (div-lt_iff_lt-mul p).1 (omega (arith, up, high, pow-suc 2 h));
      below = omega (arith, v, c);
      above = omega (arith, v, c, m, suc-mul (a / 2 ^ r) (2 ^ r));
      digits = omega (arith, len, h7);
      steps = refl;
    }

-- The number of the row and the column.
pub row_column-cell : (a : ℕ) (w : Row a) (i : ℕ) → i ≤ 1 → row_column a i ≡ 8 * w.r + w.q + i - 8
unfolding row_column wshl wshr
row_column-cell a w i hi =
    let row : wsub (wsub 64 4) (64 - bit_length 64 a) ≡ w.r = omega (arith, w.digits, w.high) in
    let small : w.r % 64 ≡ w.r = omega (arith, w.high) in
    let column : bit_and (a / 2 ^ w.r) 7 ≡ w.q - 8 =
      bit_and_mask 3 (a / 2 ^ w.r) ∙ omega (arith, w.steps, w.at_least, w.at_most) in
    let shifted : w.r * 8 % usize_mod ≡ w.r * 2 ^ 3 = omega (arith, w.high) in
    let fields : bit_or (w.r * 8 % usize_mod) (w.q - 8) ≡ w.r * 8 + (w.q - 8) =
      ap (λ (t : ℕ). bit_or t (w.q - 8)) shifted
      ∙ bit_or-fields 3 w.r (w.q - 8) (omega (arith, w.at_most)) in
    rw (row, small, column, fields) (omega (arith, hi, w.high, w.at_least, w.at_most))

pub row_column_size-cell :
    (n : ℕ) → 32 ≤ n → n < 152 → row_column_size n ≡ (8 + n % 8) * 2 ^ (n / 8)
unfolding row_column_size wshl wshr
row_column_size-cell n l u =
    let column : bit_and n 7 ≡ n % 8 = bit_and_mask 3 n in
    let shift : n / 8 % 64 ≡ n / 8 = omega (arith, u) in
    let p = two_pow_le (n / 8) 18 (omega (arith, u)) in
    let top : (8 + n % 8) * 2 ^ (n / 8) ≤ 16 * 2 ^ (n / 8) =
      mul-le-mul_right (2 ^ (n / 8)) (omega arith) in
    rw (column, shift) (omega (arith, top, p))

-- What the helper returns for a size above 128.
pub helper-Row :
    (size adjust i a : ℕ) (w : Row a)
    → wsub size adjust ≡ a
    → 128 < size
    → i ≤ 1
    → size_to_index_helper size adjust i
      ≡ ok (8 * w.r + w.q + i - 8 - 17, row_column_size (8 * w.r + w.q + i - 8))
unfolding size_to_index_helper
helper-Row size adjust i a w e large hi =
    let n = 8 * w.r + w.q + i - 8 in
    let g : leb size 128 ≡ false = ground arith in
    let c : row_column a i ≡ n = row_column-cell a w i hi in
    let answer : wsub (wadd n 15) 32 ≡ n - 17 =
      omega (arith, w.low, w.high, w.at_least, w.at_most, hi) in
    let b : ltb (n - 17) number_of_buckets ≡ true =
      lt→ltb (n - 17) number_of_buckets (omega (arith, w.high, w.at_most, hi)) in
    rw (g, e, c, answer, b) refl

-- The size after the one of a row and column.
pub next_size : (a : ℕ) (w : Row a) → row_column_size (8 * w.r + w.q + 1 - 8) ≡ suc w.q * 2 ^ w.r
next_size a w =
    let n = 8 * w.r + w.q + 1 - 8 in
    row_column_size-cell n (omega (arith, w.low, w.at_least)) (omega (arith, w.high, w.at_most))
    ∙ elim (Bool-cases (w.q == 15)) [
      | inl e ↦
          let q : w.q ≡ 15 = ground arith in
          let m : n % 8 ≡ 0 = omega (arith, q) in
          let d : n / 8 ≡ suc w.r = omega (arith, q) in rw (m, d, q) (omega (arith, pow-suc 2 w.r))
      | inr e ↦
          let q : w.q < 15 = ground (arith, w.at_most) in
          let m : 8 + n % 8 ≡ suc w.q = omega (arith, q, w.at_least) in
          let d : n / 8 ≡ w.r = omega (arith, q, w.at_least) in rw (m, d)
    ]

-- A later row and column is that of a size above.
pub later_size :
    (a b : ℕ) (w : Row a) (v : Row b) → 8 * w.r + w.q < 8 * v.r + v.q → suc w.q * 2 ^ w.r ≤ b
later_size a b w v h = elim (Bool-cases (w.r == v.r)) [
  | inl e ↦
      let f : w.r ≡ v.r = ground arith in
      let g = mul-le-mul_right {m = suc w.q} {n = v.q} (2 ^ v.r) (omega (arith, f, h)) in
      rw f (omega (arith, g, v.below))
  | inr e ↦
      let f : suc w.r ≤ v.r = ground (arith, h, w.at_least, v.at_most) in
      let p = two_pow_le (suc w.r) v.r f in
      let g = mul-le-mul_right {m = suc w.q} {n = 16} (2 ^ w.r) (omega (arith, w.at_most)) in
      let k = mul-le-mul_right {m = 8} {n = v.q} (2 ^ v.r) v.at_least in
      omega (arith, p, g, k, v.below, pow-suc 2 w.r)
]
