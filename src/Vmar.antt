-- ===== src/Vmar.antt =====
-- kernel/src/vm/vmar.rs: regions of the address space, and the search for a free place in one.
pub mod Gaps
pub mod Children
pub mod AllocSpot
pub mod Tests
use Prim.Native.Nat.{max}
use score.Base.{
  ℕ, zero, suc, ◌+◌, ◌-◌, ◌^◌, Bool, true, false, not, ◌&&◌, ◌||◌, List, [], ◌∷◌, ltb, leb, ◌==◌,
  if◌then◌else◌, Outcome, ok, panic, ◌>>=◌, ◌>>◌, zx_assert, Option, none, some,
}
use score.Base.Word.{usize_mod, wadd, wsub, wshl}
use score.Align.{roundup, is_aligned, is_page_aligned, page_shift}

mutual
  pub data VmAddressRegion : Type 0 where
    region : ℕ → ℕ → ℕ → Regions → VmAddressRegion

  pub data Regions : Type 0 where
    nil : Regions
    cons : VmAddressRegion → Regions → Regions

abbrev pub base : VmAddressRegion → ℕ
base (region b s f c) = b

abbrev pub size : VmAddressRegion → ℕ
size (region b s f c) = s

unfoldable pub new : VmAddressRegion
new = region 0 0 0 nil

unfoldable pub init : ℕ → ℕ → ℕ → VmAddressRegion → VmAddressRegion
init b s f (region b' s' f' c) = region b s f c

unfoldable pub cover_range : VmAddressRegion → ℕ → ℕ → Bool
cover_range (region sb ss f c) b s =
    let offset = wsub b sb in leb sb b && (ltb offset ss && leb s (wsub ss offset))

-- Where `position` finds no region from `end` on, the child goes last.
unfoldable pub insert_before : ℕ → VmAddressRegion → Regions → Regions
insert_before end child nil = cons child nil
insert_before end child (cons r rs) =
    let rest = insert_before end child rs in
    if leb end (base r) then cons child (cons r rs) else cons r rest

unfoldable pub insert_child : VmAddressRegion → VmAddressRegion → Outcome VmAddressRegion
unfolding cover_range insert_before
insert_child child (region sb ss f c) = do
  zx_assert (cover_range (region sb ss f c) (base child) (size child))
  ok (region sb ss f (insert_before (wadd (base child) (size child)) child c))

-- The closure of `find_alloc_spot_in_gaps`: `none` is its true, to go on, and `some` the place found.
unfoldable pub try_gap : ℕ → ℕ → ℕ → ℕ → ℕ → Outcome (Option ℕ)
try_gap size align upper_limit gap_base gap_len = do
  zx_assert (is_aligned gap_base align)
  ok (if ltb gap_len size || ltb upper_limit (wadd gap_base size) then none else some gap_base)

-- The loop of `for_each_gap` with that closure, and the gap behind the last region.
unfoldable pub for_each_gap : ℕ → ℕ → ℕ → ℕ → ℕ → Regions → ℕ → Outcome (Option ℕ)
for_each_gap size align upper_limit parent_base parent_size nil prev_region_end =
    if ltb (wsub prev_region_end parent_base) parent_size
    then try_gap size align upper_limit prev_region_end
        (wsub parent_size (wsub prev_region_end parent_base))
    else ok none
for_each_gap s align upper_limit parent_base parent_size (cons child rest) prev_region_end = do
  found ←
      if ltb prev_region_end (base child)
      then try_gap s align upper_limit prev_region_end (wsub (base child) prev_region_end)
      else ok none
  elim found [
    | some spot ↦ ok (some spot)
    | none ↦ elim (leb usize_mod (base child + size child)) [
      | true ↦ ok none
      | false ↦
          for_each_gap s align upper_limit parent_base parent_size rest
            (roundup (wadd (base child) (size child)) align)
    ]
  ]

-- `none` is the pair with `found` false.
unfoldable pub find_alloc_spot_in_gaps : ℕ → ℕ → ℕ → ℕ → ℕ → VmAddressRegion → Outcome (Option ℕ)
unfolding for_each_gap
find_alloc_spot_in_gaps size align_pow2 parent_base parent_size upper_limit
      (region b s f children) =
    let align = wshl 1 align_pow2 in
    for_each_gap size align upper_limit parent_base parent_size children (roundup parent_base align)

unfoldable pub get_alloc_spot : ℕ → ℕ → ℕ → ℕ → ℕ → VmAddressRegion → Outcome ℕ
unfolding find_alloc_spot_in_gaps
get_alloc_spot align_pow2 size parent_base parent_size upper_limit r = do
  found ← find_alloc_spot_in_gaps size align_pow2 parent_base parent_size upper_limit r
  elim found [
    | none ↦ panic
    | some alloc_spot ↦ zx_assert (is_aligned alloc_spot (wshl 1 align_pow2)) >> ok alloc_spot
  ]

unfoldable pub alloc_spot_locked : ℕ → ℕ → ℕ → VmAddressRegion → Outcome ℕ
unfolding get_alloc_spot
alloc_spot_locked s align_pow2 upper_limit r = do
  zx_assert (ltb 0 s && is_page_aligned s)
  alloc_spot ← get_alloc_spot (max align_pow2 page_shift) s (base r) (size r) upper_limit r
  zx_assert (ltb (alloc_spot + wsub s 1) usize_mod)
  ok alloc_spot
