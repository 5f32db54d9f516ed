-- ===== src/BootReserve/Tests.antt =====
-- Runs of boot_reserve.rs on two reserved ranges.

use score.Base.{◌≡◌, refl, ok, List, [], ◌∷◌, arith}
use score.BootReserve.{BootReserveRange, range, boot_reserve_add_range, boot_reserve_range_search}
use score.Range.{intersects}
use score.BootReserve.Search.{Finds, search-Finds}

abbrev reserves : List BootReserveRange
reserves = range 100 20 ∷ range 200 50 ∷ []

search-Finds_example : Finds 50 200 30 reserves (boot_reserve_range_search 300 50 200 30 reserves)
search-Finds_example =
    search-Finds 50 200 30 reserves (omega arith) (ground arith) 300 (omega arith) (omega arith)

-- A length above that of the range gives a place that starts below the range.
search_too_long : boot_reserve_range_search 1000 100 10 50 [] ≡ ok (range 60 50)
unfolding boot_reserve_range_search
search_too_long = refl

-- A range that ends at the top of memory is added although it meets one.
add_at_top :
    boot_reserve_add_range 0xffff_ffff_ffff_f000 0x1000 (range 0xffff_ffff_ffff_f800 0x400 ∷ [])
    ≡ ok (range 0xffff_ffff_ffff_f800 0x400 ∷ range 0xffff_ffff_ffff_f000 0x1000 ∷ [])
unfolding boot_reserve_add_range intersects
add_at_top = refl
