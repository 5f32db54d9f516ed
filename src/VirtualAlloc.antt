-- ===== src/VirtualAlloc.antt =====
-- kernel/src/allocator.rs: the bitmap of `VirtualAlloc`, by which pages of the kernel heap are given out
-- and taken back. The mapping of the pages is not modelled.
pub mod Small
pub mod Tests
use score.Base.{
  ℕ, suc, ◌+◌, ◌*◌, ◌/◌, ◌-◌, Bool, true, false, not, ◌&&◌, Option, none, some, ltb, leb,
  if◌then◌else◌, Outcome, ok, err, panic, out_of_fuel, ◌>>=◌, ◌>>◌, zx_assert,
}
use score.Base.Word.{wadd, wsub, wmul, wshl}
use score.Align.{page_shift, page_size}
use score.Bitmap.{Bitmap, new, set, clear, scan, reverse_scan, find, bytes_per_usize}

pub record VirtualAlloc : Type 0 where
  pub alloc_guard : ℕ
  pub alloc_base : ℕ
  pub next_search_start : ℕ
  pub align_log2 : ℕ
  pub bitmap : Bitmap

unfoldable pub new_alloc : (ℕ → ℕ) → VirtualAlloc
new_alloc memory = record {
  alloc_guard = 0;
  alloc_base = 0;
  next_search_start = 0;
  align_log2 = 0;
  bitmap = new memory;
}

unfoldable pub bitmap_pages : VirtualAlloc → ℕ
bitmap_pages v = wmul v.bitmap.storage_num bytes_per_usize / page_size

-- The requests that the source leaves to be written (`todo!`) panic.
unfoldable pub check_request : ℕ → ℕ → ℕ → VirtualAlloc → Outcome (Unit {0})
check_request num_pages start end v = do
  zx_assert (leb start end)
  zx_assert (ltb 0 num_pages)
  zx_assert (
      not (
        leb (wshl 1 (wsub v.align_log2 page_shift)) num_pages
        && ltb 1 (wshl 1 (wsub v.align_log2 page_shift))))

-- The marks that follow a run that is found. An error of `set` keeps the new start of the search.
unfoldable pub take_run : ℕ → VirtualAlloc → ℕ → Outcome ℕ × VirtualAlloc
take_run num_pages v found =
    let alloc_start = wadd found v.alloc_guard in
    let moved : VirtualAlloc = record v { next_search_start = wadd alloc_start num_pages } in
    elim (set alloc_start (wadd alloc_start num_pages) v.bitmap) [
      | ok b ↦ (ok alloc_start, record moved { bitmap = b })
      | err e ↦ (err e, moved)
      | panic ↦ (panic, moved)
      | out_of_fuel ↦ (out_of_fuel, moved)
    ]

-- `fuel` is that of `find`.
unfoldable pub bitmap_alloc_range : ℕ → ℕ → ℕ → ℕ → VirtualAlloc → Outcome ℕ × VirtualAlloc
unfolding check_request take_run
bitmap_alloc_range fuel num_pages start end v =
    let find_pages = wadd num_pages (wmul v.alloc_guard 2) in
    elim (check_request num_pages start end v >> find fuel false start end find_pages v.bitmap) [
      | ok found ↦ take_run num_pages v found
      | err e ↦ (err e, v)
      | panic ↦ (panic, v)
      | out_of_fuel ↦ (out_of_fuel, v)
    ]

-- The second search, from the end of the bitmap's own pages, if the first one returned an error.
unfoldable pub or_search_again : ℕ → ℕ → Outcome ℕ × VirtualAlloc → Outcome ℕ × VirtualAlloc
or_search_again fuel num_pages (ok a, v) = (ok a, v)
or_search_again fuel num_pages (err e, v) =
    bitmap_alloc_range fuel num_pages (bitmap_pages v) v.bitmap.size v
or_search_again fuel num_pages (panic, v) = (panic, v)
or_search_again fuel num_pages (out_of_fuel, v) = (out_of_fuel, v)

unfoldable pub bitmap_alloc : ℕ → ℕ → VirtualAlloc → Outcome ℕ × VirtualAlloc
unfolding or_search_again
bitmap_alloc fuel num_pages v =
    or_search_again fuel num_pages
      (bitmap_alloc_range fuel num_pages v.next_search_start v.bitmap.size v)

-- Where the next search starts after the pages from `start` on are free.
unfoldable pub next_start : ℕ → VirtualAlloc → ℕ
next_start start v =
    if not (ltb start v.next_search_start)
    then v.next_search_start
    else if not (leb v.alloc_guard start)
    then start
    else elim (reverse_scan (start - v.alloc_guard) start false v.bitmap) [
      | none ↦ start - v.alloc_guard
      | some candidate ↦ wadd candidate 1
    ]

unfoldable pub bitmap_free : ℕ → ℕ → VirtualAlloc → Outcome VirtualAlloc
unfolding next_start bitmap_pages
bitmap_free start num_pages v = do
  zx_assert (leb (bitmap_pages v) start)
  zx_assert
      (elim (scan start (wadd start num_pages) true v.bitmap) [ none ↦ true | some i ↦ false ])
  b ← clear start (wadd start num_pages) v.bitmap
  let freed : VirtualAlloc = record v { bitmap = b }
  ok (record freed { next_search_start = next_start start freed })
