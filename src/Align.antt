-- ===== src/Align.antt =====
-- kernel/src/align.rs: the rounding macros, with the bit operations that they expand to.
use Prim.Native.Nat.{bit_and}
use native.Mathlib.Nat.{
  mod-lt, mod-le, div-add-mod, mul-mod_right, mul-mod_left, mod-eq_of_lt, mod-add-mod, zero-add,
}
use score.Base.{
  ℕ, ◌+◌, ◌-◌, ◌*◌, ◌/◌, ◌%◌, ◌^◌, ◌≤◌, ◌<◌, ◌≡◌, refl, sym, ap, ◌∙◌, ◌↔◌, Bool, true, arith, ◌==◌,
}
use score.Base.Word.{usize_mod, wadd, wsub, wnot}
use score.Base.Bits.{two-pow-add, bit_and_mask, bit_and_high_mask, pow_pos}

unfoldable pub roundup : ℕ → ℕ → ℕ
roundup a b = bit_and (wadd a (wsub b 1)) (wnot (wsub b 1))

unfoldable pub rounddown : ℕ → ℕ → ℕ
rounddown a b = bit_and a (wnot (wsub b 1))

unfoldable pub is_aligned : ℕ → ℕ → Bool
is_aligned a b = bit_and a (wsub b 1) == 0

abbrev pub page_shift : ℕ
page_shift = 12

abbrev pub page_size : ℕ
page_size = 4096

unfoldable pub is_page_aligned : ℕ → Bool
unfolding is_aligned
is_page_aligned a = is_aligned a page_size

unfoldable pub roundup_page_size : ℕ → ℕ
unfolding roundup
roundup_page_size a = roundup a page_size

-- A power of two that is a `usize`.
pub record IsPower (b : ℕ) : Type 0 where
  pub k : ℕ
  pub j : ℕ
  pub width : j + k ≡ 64
  pub power : b ≡ 2 ^ k
  pub fits : b < usize_mod

pub page_size-IsPower : IsPower page_size
page_size-IsPower = record { k = 12; j = 52; width = refl; power = refl; fits = omega arith }

word_power : (b : ℕ) (p : IsPower b) → 2 ^ (p.j + p.k) ≡ usize_mod
word_power b p = ap (λ (t : ℕ). 2 ^ t) p.width

pub IsPower-pos : (b : ℕ) → IsPower b → 1 ≤ b
IsPower-pos b p = rw p.power (pow_pos p.k)

-- At a power of two the mask of the macros is a remainder.
and_not_low : (a b : ℕ) → IsPower b → a < usize_mod → bit_and a (wnot (wsub b 1)) ≡ a - a % b
and_not_low a b p h =
    let q = IsPower-pos b p in
    let e : wnot (wsub b 1) ≡ 2 ^ (p.j + p.k) - 2 ^ p.k =
      omega (arith, word_power b p, p.power, p.fits) in
    ap (bit_and a) e
    ∙ bit_and_high_mask p.k p.j a (omega (arith, word_power b p, h))
    ∙ ap (λ (t : ℕ). a - a % t) (sym p.power)

and_low : (a b : ℕ) → IsPower b → bit_and a (wsub b 1) ≡ a % b
and_low a b p =
    let q = IsPower-pos b p in
    let e : wsub b 1 ≡ 2 ^ p.k - 1 = omega (arith, p.power, p.fits) in
    ap (bit_and a) e ∙ bit_and_mask p.k a ∙ ap (λ (t : ℕ). a % t) (sym p.power)

pub sub-mod-mod : (a b : ℕ) → (a - a % b) % b ≡ 0
sub-mod-mod a b =
    let e : a - a % b ≡ b * (a / b) = omega (arith, div-add-mod a b) in
    rw e (mul-mod_right b (a / b))

-- `ROUNDDOWN!` to a power of two gives the greatest multiple of it that is not above.
pub rounddown_lem :
    (a b : ℕ)
    → IsPower b
    → a < usize_mod
    → (rounddown a b ≡ a - a % b)
      × (rounddown a b % b ≡ 0)
      × (rounddown a b ≤ a)
      × (a < rounddown a b + b)
unfolding rounddown
rounddown_lem a b p h =
    let e = and_not_low a b p h in
    let q = mod-lt a (IsPower-pos b p) in
    (e, rw e (sub-mod-mod a b), omega (arith, e), omega (arith, e, q, mod-le a b))

-- `ROUNDUP!` to a power of two gives the least multiple of it that is not below, where the sum does
-- not wrap.
pub roundup_lem :
    (a b : ℕ)
    → IsPower b
    → a + b ≤ usize_mod
    → (roundup a b % b ≡ 0) × (a ≤ roundup a b) × (roundup a b < a + b)
unfolding roundup
roundup_lem a b p h =
    let q = IsPower-pos b p in
    let s : wadd a (wsub b 1) ≡ a + (b - 1) = omega (arith, p.fits) in
    let e =
      ap (λ (t : ℕ). bit_and t (wnot (wsub b 1))) s ∙ and_not_low (a + (b - 1)) b p (omega arith) in
    let l = mod-lt (a + (b - 1)) q in
    (rw e (sub-mod-mod (a + (b - 1)) b), omega (arith, e, l), omega (arith, e, l))

-- Where the next multiple would be the top of memory, `ROUNDUP!` wraps to 0.
pub roundup_wraps : (a b : ℕ) → IsPower b → a < usize_mod → usize_mod < a + b → roundup a b ≡ 0
unfolding roundup
roundup_wraps a b p h k =
    let w = a + b - 1 - usize_mod in
    let s : wadd a (wsub b 1) ≡ w = omega (arith, p.fits) in
    let r : w % b ≡ w = mod-eq_of_lt (omega (arith, p.fits)) in
    let m = and_not_low w b p (omega (arith, p.fits)) in
    ap (λ (t : ℕ). bit_and t (wnot (wsub b 1))) s ∙ m ∙ omega (arith, r)

-- The top of memory is a multiple of every power.
pub top-multiple : (b : ℕ) → IsPower b → usize_mod % b ≡ 0
top-multiple b p =
    let e : usize_mod ≡ 2 ^ p.j * b =
      sym (word_power b p) ∙ two-pow-add p.j p.k ∙ ap (λ (t : ℕ). 2 ^ p.j * t) (sym p.power) in
    rw e (mul-mod_left (2 ^ p.j) b)

-- `IS_ALIGNED!` by a power of two tests divisibility.
pub is_aligned_lem : (a b : ℕ) → IsPower b → is_aligned a b ≡ (a % b == 0)
unfolding is_aligned
is_aligned_lem a b p = rw (and_low a b p)

-- Of the multiples of `b`, none but `a` itself is as near above `a`.
pub next_multiple : (a u b : ℕ) → a % b ≡ 0 → u % b ≡ 0 → a ≤ u → u < a + b → u ≡ a
next_multiple a u b z w h k =
    let r = u - a in
    let e : u ≡ a + r = omega arith in
    let f : (a + r) % b ≡ r % b = sym (mod-add-mod a b r) ∙ rw z (rw zero-add refl) in
    let g : r % b ≡ r = mod-eq_of_lt (omega arith) in
    let t : u % b ≡ r = ap (λ (x : ℕ). x % b) e ∙ f ∙ g in omega (arith, t)

-- The three macros agree, for an address that a multiple of the power can follow: the rounding macros
-- leave it alone exactly when it is aligned.
pub round_aligned :
    (a b : ℕ)
    → IsPower b
    → a + b ≤ usize_mod
    → ((is_aligned a b ≡ true) ↔ (rounddown a b ≡ a))
      × ((is_aligned a b ≡ true) ↔ (roundup a b ≡ a))
round_aligned a b p h =
    let q = IsPower-pos b p in
    let i = is_aligned_lem a b p in
    let d = rounddown_lem a b p (omega arith) in
    let u = roundup_lem a b p h in
    let l = mod-le a b in
    let up : a % b ≡ 0 → roundup a b ≡ a = λ z. next_multiple a (roundup a b) b z u.0 u.1 u.2 in
    (
      (λ t. ground (arith, i, d.0), λ t. ground (arith, i, d.0, d.1)),
      (λ t. up (ground (arith, i)), λ t. ground (arith, i, u.0)),
    )
