-- ===== src/Vmar/AllocSpot.antt =====
-- The place that `alloc_spot_locked` returns.
use native.Mathlib.Nat.{pow-le-pow_right}
use score.Base.{
  ℕ, lt→ltb, ◌+◌, ◌-◌, ◌%◌, ◌^◌, ◌≤◌, ◌<◌, ◌≡◌, refl, ◌⊎◌, inl, inr, true, arith, ltb, ◌&&◌,
  Outcome, ok, panic,
}
use Prim.Native.Nat.{max}
use score.Base.Word.{usize_mod, wsub, wshl}
use score.Align.{is_aligned, is_aligned_lem, is_page_aligned, page_shift, IsPower}
use score.Vmar.{region, Regions, find_alloc_spot_in_gaps, get_alloc_spot, alloc_spot_locked}
use score.Vmar.Gaps.{InOrder, NoWrap, IsPlace, IsTaken}
use score.Vmar.Children.{gaps-Finds}

wshl-IsPower : (k : ℕ) → k < 64 → IsPower (wshl 1 k)
unfolding wshl
wshl-IsPower k h =
    let small : k % 64 ≡ k = omega (arith, h) in
    let fits : 2 ^ k ≤ 2 ^ 63 =
      pow-le-pow_right {n = 2} (omega arith) {i = k} {j = 63} (omega (arith, h)) in
    rw small (record {
      k = k;
      j = 64 - k;
      width = omega (arith, h);
      power = omega (arith, fits);
      fits = omega (arith, fits);
    })

-- The alignment that `alloc_spot_locked` uses.
abbrev pub align : ℕ → ℕ
align align_pow2 = wshl 1 (max align_pow2 page_shift)

-- A place that is taken, and lies below all other places below the limit, or a panic where there is
-- none below the limit.
abbrev pub Allocates : ℕ → ℕ → ℕ → ℕ → ℕ → Regions → Outcome ℕ → Type 0
Allocates s align_pow2 limit b size children o =
    ((spot : ℕ) × (o ≡ ok spot)
      × IsTaken s (align align_pow2) b size limit b children spot
      × ((q : ℕ) → IsPlace s (align align_pow2) b size b children q → q + s ≤ limit → spot ≤ q))
    ⊎ ((o ≡ panic)
        × ((q : ℕ) → IsPlace s (align align_pow2) b size b children q → q + s ≤ limit → ⊥))

-- In a region that ends at the top of memory or below, whose children lie in it in order and apart,
-- where its base and the ends of all children but the last round up below the top of memory, and that
-- of the last too if the region is at address 0: for a positive size in whole pages and an alignment
-- below 2 ^ 64, `alloc_spot_locked` returns an aligned place that is in the region and clear of all
-- children, that is not above any such place below the limit, and that is below the limit itself or
-- ends at the top of memory; or it panics, and there is no such place below the limit.
pub alloc_spot-least :
    (s align_pow2 limit b size flags : ℕ) (children : Regions)
    → align_pow2 < 64
    → 0 < s
    → is_page_aligned s ≡ true
    → limit < usize_mod
    → b < usize_mod
    → size < usize_mod
    → b + size ≤ usize_mod
    → InOrder b (b + size) children
    → NoWrap (align align_pow2) b b children
    → Allocates s align_pow2 limit b size children
        (alloc_spot_locked s align_pow2 limit (region b size flags children))
unfolding alloc_spot_locked get_alloc_spot find_alloc_spot_in_gaps
alloc_spot-least s align_pow2 limit b size flags children small some_size pages fits low word room o
      n =
    let w : IsPower (align align_pow2) =
      wshl-IsPower (max align_pow2 page_shift) (omega (arith, small)) in
    let positive : (ltb 0 s && is_page_aligned s) ≡ true = ground (arith, pages, some_size) in
    elim (gaps-Finds s (align align_pow2) limit b size w some_size fits room word b children o
      (omega arith) low n) [
        | inl (spot, e, (v, k), least) ↦
            let a : is_aligned spot (align align_pow2) ≡ true =
              ground (arith, is_aligned_lem spot (align align_pow2) w, v.aligned) in
            let z : ltb (spot + wsub s 1) usize_mod ≡ true =
              lt→ltb _ _ (omega (arith, v.inside, room, some_size)) in
            inl (spot, rw positive (rw e (rw a (rw z refl))), (v, k), least)
        | inr (e, nowhere) ↦ inr (rw positive (rw e refl), nowhere)
      ]
