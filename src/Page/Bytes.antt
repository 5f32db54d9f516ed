-- ===== src/Page/Bytes.antt =====
-- kernel/src/page.rs: the flags that share a byte with the pin count.
use Prim.Native.Nat.{bit_and, bit_or}
use score.Base.{
  ℕ, suc, ◌+◌, ◌-◌, ◌*◌, ◌%◌, ◌^◌, ◌≤◌, ◌<◌, ◌≡◌, refl, sym, ap, ◌∙◌, ◌≢◌, ◌⊎◌, inl, inr, Bool,
  true, false, not, arith, ltb, ◌==◌, Bool-cases, if◌then◌else◌, ok, panic,
}
use score.Base.Bits.{bit, bit-le, bit-bit_and, bit-bit_or, bit_or-fields, pow_pos}
use score.Bitmap.Mask.{bit-ones, bit-not}
use native.Mathlib.Nat.{pow-suc}
use score.Base.Flags.{mod-bit, bit_and-one_bit, bit-small, bit_or_comm}
use score.Page.{
  VmPageObject, byte_not, cow_left_split, set_cow_left_split, cow_right_split, set_cow_right_split,
  always_need, set_always_need, get_pin_count, set_pin_count,
}

-- What bit `k` of the byte is after a setter was given `b`, and what the other bits are.
record Writes (k : ℕ) (b : Bool) (old new : ℕ) : Type 0 where
  here : bit new k ≡ (if b then 1 else 0)
  others : (i : ℕ) → i < 8 → i ≢ k → bit new i ≡ bit old i

bit-two_pow : (k i : ℕ) → bit (2 ^ k) i ≡ (if i == k then 1 else 0)
bit-two_pow k i =
    let e : 2 ^ suc k - 2 ^ k ≡ 2 ^ k = omega (arith, pow-suc 2 k) in
    let f = bit-ones (suc k) k i (omega arith) in ap (λ (t : ℕ). bit t i) (sym e) ∙ f ∙ ground arith

set_bit : (k p : ℕ) → k < 8 → Writes k true p (bit_or p (2 ^ k))
set_bit k p h = record {
  here = bit-bit_or p (2 ^ k) k ∙ ground (arith, bit-two_pow k k, bit-le p k);
  others = λ i u v. bit-bit_or p (2 ^ k) i ∙ ground (arith, bit-two_pow k i, bit-le p i);
}

clear_bit : (k p : ℕ) → k < 8 → 2 ^ k < 256 → Writes k false p (bit_and p (255 - 2 ^ k))
clear_bit k p h small =
    let flip = λ (i : ℕ) (u : i < 8). bit-not 8 (2 ^ k) i small u in
    record {
      here = bit-bit_and p (255 - 2 ^ k) k ∙ ground (arith, flip k h, bit-two_pow k k, bit-le p k);
      others = λ i u v.
          bit-bit_and p (255 - 2 ^ k) i ∙ ground (arith, flip i u, bit-two_pow k i, bit-le p i);
    }

flag : ℕ → ℕ → Bool
flag k p = not (bit_and p (2 ^ k) == 0)

flag-bit : (k p : ℕ) → flag k p ≡ (bit p k == 1)
unfolding flag
flag-bit k p = ground (arith, bit_and-one_bit k p, bit-le p k, pow_pos k)

module _ (k : ℕ) (b : Bool) (old new : ℕ) (w : Writes k b old new) where
  flag_here : flag k new ≡ b
  flag_here = flag-bit k new ∙ (λ i. w.here i == 1) ∙ ground arith

  flag_others : (j : ℕ) → j < 8 → j ≢ k → flag j new ≡ flag j old
  flag_others j h g = flag-bit j new ∙ (λ i. w.others j h g i == 1) ∙ sym (flag-bit j old)

  low_bits : 5 ≤ k → new % 32 ≡ old % 32
  low_bits h = mod-bit 5 new old (λ i u. w.others i (omega (arith, u)) (ground (arith, u, h)))

-- Each setter gives its flag the value and leaves the other two and the five bits of the pin count.
pub set_flags_lem :
    (o : VmPageObject) (b : Bool)
    → ((cow_left_split (set_cow_left_split b o) ≡ b)
        × (cow_right_split (set_cow_left_split b o) ≡ cow_right_split o)
        × (always_need (set_cow_left_split b o) ≡ always_need o)
        × (get_pin_count (set_cow_left_split b o) % 32 ≡ get_pin_count o % 32))
      × ((cow_left_split (set_cow_right_split b o) ≡ cow_left_split o)
          × (cow_right_split (set_cow_right_split b o) ≡ b)
          × (always_need (set_cow_right_split b o) ≡ always_need o)
          × (get_pin_count (set_cow_right_split b o) % 32 ≡ get_pin_count o % 32))
      × ((cow_left_split (set_always_need b o) ≡ cow_left_split o)
          × (cow_right_split (set_always_need b o) ≡ cow_right_split o)
          × (always_need (set_always_need b o) ≡ b)
          × (get_pin_count (set_always_need b o) % 32 ≡ get_pin_count o % 32))
unfolding flag byte_not cow_left_split set_cow_left_split cow_right_split set_cow_right_split
    always_need set_always_need get_pin_count
set_flags_lem o true =
    let p = o.pin_count in
    let left = set_bit 5 p (omega arith) in
    let right = set_bit 6 p (omega arith) in
    let always = set_bit 7 p (omega arith) in
    (
      (
        flag_here 5 true p (bit_or p (2 ^ 5)) left,
        flag_others 5 true p (bit_or p (2 ^ 5)) left 6 (omega arith) (ground arith),
        flag_others 5 true p (bit_or p (2 ^ 5)) left 7 (omega arith) (ground arith),
        low_bits 5 true p (bit_or p (2 ^ 5)) left (omega arith),
      ),
      (
        flag_others 6 true p (bit_or p (2 ^ 6)) right 5 (omega arith) (ground arith),
        flag_here 6 true p (bit_or p (2 ^ 6)) right,
        flag_others 6 true p (bit_or p (2 ^ 6)) right 7 (omega arith) (ground arith),
        low_bits 6 true p (bit_or p (2 ^ 6)) right (omega arith),
      ),
      (
        flag_others 7 true p (bit_or p (2 ^ 7)) always 5 (omega arith) (ground arith),
        flag_others 7 true p (bit_or p (2 ^ 7)) always 6 (omega arith) (ground arith),
        flag_here 7 true p (bit_or p (2 ^ 7)) always,
        low_bits 7 true p (bit_or p (2 ^ 7)) always (omega arith),
      ),
    )
set_flags_lem o false =
    let p = o.pin_count in
    let left = clear_bit 5 p (omega arith) (omega arith) in
    let right = clear_bit 6 p (omega arith) (omega arith) in
    let always = clear_bit 7 p (omega arith) (omega arith) in
    (
      (
        flag_here 5 false p (bit_and p (255 - 2 ^ 5)) left,
        flag_others 5 false p (bit_and p (255 - 2 ^ 5)) left 6 (omega arith) (ground arith),
        flag_others 5 false p (bit_and p (255 - 2 ^ 5)) left 7 (omega arith) (ground arith),
        low_bits 5 false p (bit_and p (255 - 2 ^ 5)) left (omega arith),
      ),
      (
        flag_others 6 false p (bit_and p (255 - 2 ^ 6)) right 5 (omega arith) (ground arith),
        flag_here 6 false p (bit_and p (255 - 2 ^ 6)) right,
        flag_others 6 false p (bit_and p (255 - 2 ^ 6)) right 7 (omega arith) (ground arith),
        low_bits 6 false p (bit_and p (255 - 2 ^ 6)) right (omega arith),
      ),
      (
        flag_others 7 false p (bit_and p (255 - 2 ^ 7)) always 5 (omega arith) (ground arith),
        flag_others 7 false p (bit_and p (255 - 2 ^ 7)) always 6 (omega arith) (ground arith),
        flag_here 7 false p (bit_and p (255 - 2 ^ 7)) always,
        low_bits 7 false p (bit_and p (255 - 2 ^ 7)) always (omega arith),
      ),
    )

bit_clear : (k count : ℕ) → count < 2 ^ k → flag k count ≡ false
bit_clear k count h = flag-bit k count ∙ ground (arith, bit-small k count h)

flag_counts : (x count : ℕ) → count ≤ 31 → bit_or count (x * 32) ≡ x * 32 + count
flag_counts x count h = bit_or_comm count (x * 32) ∙ bit_or-fields 5 x count (omega arith)

-- Given a count of at most 31, the setter of the pin count clears all three flags and the count reads
-- back, and each flag that is set afterwards is counted in; a greater count panics.
pub set_pin_count_lem :
    (count : ℕ) (o : VmPageObject)
    → (count ≤ 31
        × ((q : VmPageObject) × (set_pin_count count o ≡ ok q)
            × (get_pin_count q ≡ count)
            × (cow_left_split q ≡ false)
            × (cow_right_split q ≡ false)
            × (always_need q ≡ false)
            × (get_pin_count (set_cow_left_split true q) ≡ 32 + count)
            × (get_pin_count (set_cow_right_split true q) ≡ 64 + count)
            × (get_pin_count (set_always_need true q) ≡ 128 + count)))
      ⊎ (31 < count × (set_pin_count count o ≡ panic))
unfolding flag set_pin_count get_pin_count cow_left_split cow_right_split always_need
    set_cow_left_split set_cow_right_split set_always_need
set_pin_count_lem count o = elim (Bool-cases (ltb 31 count)) [
  | inl e ↦ inr (ground arith, rw e refl)
  | inr e ↦
      let small : count ≤ 31 = ground arith in
      inl (
        small,
        (
          record o { pin_count = count },
          rw e refl,
          refl,
          bit_clear 5 count (omega (arith, small)),
          bit_clear 6 count (omega (arith, small)),
          bit_clear 7 count (omega (arith, small)),
          flag_counts 1 count small,
          flag_counts 2 count small,
          flag_counts 4 count small,
        ),
      )
]
