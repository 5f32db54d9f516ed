-- ===== src/VirtualAlloc/Small.antt =====
-- What the last unit that `scan` leaves out means for a small heap.
use score.Base.{
  ℕ, suc, ◌≤◌, ◌<◌, ◌≡◌, refl, ap, ◌∙◌, true, false, ◌&&◌, ltb, leb, arith, ok, err, no_resources,
}
use score.Base.Word.{wadd, wmul, wsub, wshl}
use score.Align.{page_shift}
use score.Bitmap.Unit.{find_last_unit}
use score.VirtualAlloc.{
  VirtualAlloc, check_request, bitmap_alloc_range, bitmap_alloc, or_search_again, bitmap_pages,
}

-- The request is smaller than the alignment, or there is none.
abbrev pub Unaligned : ℕ → VirtualAlloc → Type 0
Unaligned num_pages v =
    (leb (wshl 1 (wsub v.align_log2 page_shift)) num_pages
      && ltb 1 (wshl 1 (wsub v.align_log2 page_shift)))
    ≡ false

module _ (fuel num_pages : ℕ) (v : VirtualAlloc) (some_pages : 0 < num_pages)
    (small : v.bitmap.size ≤ 512) (unaligned : Unaligned num_pages v) where
  range_fails :
      (start : ℕ)
      → start < v.bitmap.size
      → bitmap_alloc_range (suc fuel) num_pages start v.bitmap.size v ≡ (err no_resources, v)
  unfolding bitmap_alloc_range
  range_fails start less =
      let e : leb start v.bitmap.size ≡ true = ground arith in
      let p : ltb 0 num_pages ≡ true = ground arith in
      let c : check_request num_pages start v.bitmap.size v ≡ ok tt =
        unfold check_request in rw (e, p, unaligned) refl in
      let f =
        (find_last_unit v.bitmap fuel start v.bitmap.size (wadd num_pages (wmul v.alloc_guard 2))
          false less (omega (arith, small, less))).1 in
      rw (c, bitmap_alloc_range) (rw f refl)

  -- With a bitmap of at most 512 pages `bitmap_alloc` finds no run for any number of pages below the
  -- alignment, also where all of them are free, and changes nothing.
  pub bitmap_alloc_small :
      v.next_search_start < v.bitmap.size
      → bitmap_pages v < v.bitmap.size
      → bitmap_alloc (suc fuel) num_pages v ≡ (err no_resources, v)
  unfolding bitmap_alloc or_search_again
  bitmap_alloc_small h k =
      ap (or_search_again (suc fuel) num_pages) (range_fails v.next_search_start h)
      ∙ range_fails (bitmap_pages v) k
