-- ===== src/Vmar/Tests.antt =====
-- Searches in the region of the kernel with its two children, and in small regions at the top.
use score.Base.{◌≡◌, refl, arith, true, inl, ok, panic}
use score.Base.Word.{usize_max, wshl}
use score.Align.{is_page_aligned, is_aligned, roundup}
use score.Vmar.{region, Regions, nil, cons, alloc_spot_locked, try_gap}
use score.Vmar.AllocSpot.{Allocates, alloc_spot-least}

-- As vm_init_preheap_vmars has them: the window of physical memory, and an image of 16 megabytes.
abbrev children : Regions
children =
    cons (region 0xffff_0000_0000_0000 0x80_0000_0000 0 nil)
      (cons (region 0xffff_ffff_0000_0000 0x100_0000 0 nil) nil)

pages : is_page_aligned 0x8000_0000 ≡ true
unfolding is_page_aligned is_aligned
pages = refl

-- The place of the heap, 2 gigabytes at a multiple of 2 megabytes, in the region that ends at the top
-- of memory.
alloc_spot-least_example :
    Allocates 0x8000_0000 21 usize_max 0xffff_0000_0000_0000 0x1_0000_0000_0000 children (
      alloc_spot_locked 0x8000_0000 21 usize_max
        (region 0xffff_0000_0000_0000 0x1_0000_0000_0000 0 children))
unfolding wshl
alloc_spot-least_example =
    alloc_spot-least 0x8000_0000 21 usize_max 0xffff_0000_0000_0000 0x1_0000_0000_0000 0 children
      (omega arith) (omega arith) pages (omega arith) (omega arith) (omega arith) (omega arith)
      (omega arith, (omega arith, omega arith))
      (omega arith, omega arith, (omega arith, omega arith, inl (omega arith)))

heap_base :
    alloc_spot_locked 0x8000_0000 21 usize_max
      (region 0xffff_0000_0000_0000 0x1_0000_0000_0000 0 children)
    ≡ ok 0xffff_0080_0000_0000
unfolding alloc_spot_locked is_page_aligned is_aligned wshl roundup try_gap
heap_base = refl

-- A child that ends at the top ends the search.
no_room :
    alloc_spot_locked 0x2000 12 usize_max (
      region 0xffff_ffff_ffff_0000 0x1_0000 0
        (cons (region 0xffff_ffff_ffff_1000 0xf000 0 nil) nil))
    ≡ panic
unfolding alloc_spot_locked is_page_aligned is_aligned wshl roundup try_gap
no_room = refl

-- A place that ends at the top is taken although the limit is below it.
above_limit :
    alloc_spot_locked 0x2000 12 0x1_0000 (region 0xffff_ffff_ffff_e000 0x2000 0 nil)
    ≡ ok 0xffff_ffff_ffff_e000
unfolding alloc_spot_locked is_page_aligned is_aligned wshl roundup try_gap
above_limit = refl

-- Where the end of a child rounds up to the top and another child follows, the place is at address 0.
place_outside :
    alloc_spot_locked 0x2000 21 usize_max (
      region 0xffff_ffff_ffe0_0000 0x20_0000 0 (
        cons
          (region 0xffff_ffff_ffe0_0000 0x10_0000 0 nil)
          (cons (region 0xffff_ffff_fff8_0000 0x1000 0 nil) nil)))
    ≡ ok 0
unfolding alloc_spot_locked is_page_aligned is_aligned wshl roundup try_gap
place_outside = refl
