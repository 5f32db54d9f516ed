-- ===== src/Range.antt =====
-- kernel/src/klib/range.rs.
use score.Base.{
  ℕ, ◌+◌, ◌≤◌, ◌<◌, ◌≡◌, ◌↔◌, ◌⊎◌, inl, inr, Bool, true, false, ◌||◌, arith, ltb, leb, ◌==◌,
  if◌then◌else◌, Bool-cases,
}
use score.Base.Word.{usize_mod, wadd, wsub}

unfoldable pub intersects : ℕ → ℕ → ℕ → ℕ → Bool
intersects offset1 len1 offset2 len2 =
    if (len1 == 0) || (len2 == 0)
    then false
    else if leb offset1 offset2
    then (if leb (wadd offset1 len1) offset2 then false else true)
    else if leb (wadd offset2 len2) offset1
    then false
    else true

unfoldable pub is_in_range : ℕ → ℕ → ℕ → ℕ → Bool
is_in_range offset len min max =
    let offset = wsub offset min in
    let max = wsub max min in
    if ltb (wadd offset len) offset
    then false
    else if ltb max offset
    then false
    else if ltb max (wadd offset len)
    then false
    else true

-- The address `x` lies in the range.
abbrev pub In : ℕ → ℕ → ℕ → Type 0
In x offset len = (offset ≤ x) × (x < offset + len)

-- Of two ranges that do not wrap, `intersects` tells exactly whether they have an address in common.
intersects-In :
    (o1 l1 o2 l2 : ℕ)
    → o1 + l1 < usize_mod
    → o2 + l2 < usize_mod
    → (intersects o1 l1 o2 l2 ≡ true) ↔ ((x : ℕ) × In x o1 l1 × In x o2 l2)
unfolding intersects
intersects-In o1 l1 o2 l2 h k = (λ e. meet e, λ (x, a, b). ground arith)
  where
    meet : intersects o1 l1 o2 l2 ≡ true → (x : ℕ) × In x o1 l1 × In x o2 l2
    meet e = elim (Bool-cases (leb o1 o2)) [
      | inl f ↦ (o2, ground arith, ground arith)
      | inr f ↦ (o1, ground arith, ground arith)
    ]

-- For a range that starts within the bounds, `is_in_range` tells exactly whether it ends within them,
-- also where the end of the range wraps.
pub is_in_range_lem :
    (offset len min max : ℕ)
    → min ≤ offset
    → offset ≤ max
    → max < usize_mod
    → len < usize_mod
    → (is_in_range offset len min max ≡ true) ↔ (offset + len ≤ max)
unfolding is_in_range
is_in_range_lem offset len min max h k l m = (λ e. ground arith, λ e. ground arith)

-- What a hit and a miss of `intersects` say of the ends.
pub intersects_hit :
    (o1 l1 o2 l2 : ℕ)
    → o1 + l1 < usize_mod
    → o2 + l2 < usize_mod
    → intersects o1 l1 o2 l2 ≡ true
    → (o2 < o1 + l1) × (o1 < o2 + l2) × (0 < l1) × (0 < l2)
unfolding intersects
intersects_hit o1 l1 o2 l2 h k e = ground arith

pub intersects_miss :
    (o1 l1 o2 l2 : ℕ)
    → o1 + l1 < usize_mod
    → o2 + l2 < usize_mod
    → 0 < l1
    → 0 < l2
    → intersects o1 l1 o2 l2 ≡ false
    → (o1 + l1 ≤ o2) ⊎ (o2 + l2 ≤ o1)
unfolding intersects
intersects_miss o1 l1 o2 l2 h k p q e = ground arith

pub intersects_apart :
    (o1 l1 o2 l2 : ℕ)
    → o1 + l1 < usize_mod
    → o2 + l2 < usize_mod
    → o2 + l2 ≤ o1
    → intersects o1 l1 o2 l2 ≡ false
unfolding intersects
intersects_apart o1 l1 o2 l2 h k e = ground arith
