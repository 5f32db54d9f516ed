-- ===== src/Bitmap/Unit.antt =====
-- `scan` leaves out the last unit of its range, and what `find` makes of that.
use score.Base.{
  ℕ, suc, ◌-◌, ◌≤◌, ◌<◌, ◌≡◌, min, Bool, false, not, arith, leb, none, err, no_resources,
}
use score.Bitmap.{Bitmap, first_idx, last_idx, scan, scan_loop, find, find_loop}

scan_last_unit :
    (b : Bitmap) (bitoff bitmax : ℕ) (is_set : Bool)
    → last_idx (min bitmax b.size) ≤ first_idx bitoff
    → scan bitoff bitmax is_set b ≡ none
unfolding scan
scan_last_unit b bitoff bitmax is_set h =
    let e : last_idx (min bitmax b.size) - first_idx bitoff ≡ 0 = omega (arith, h) in
    rw (e, scan) (unfold scan_loop in ground arith)

-- If the range ends in the unit in which it starts, `scan` returns true whatever the bits are, for
-- either value, and `find` finds no run at all, of either value and any length, also where every bit
-- is right; one round is enough.
pub find_last_unit :
    (b : Bitmap) (fuel bitoff bitmax run_len : ℕ) (is_set : Bool)
    → bitoff < bitmax
    → last_idx (min bitmax b.size) ≤ first_idx bitoff
    → (scan bitoff bitmax is_set b ≡ none)
      × (find (suc fuel) is_set bitoff bitmax run_len b ≡ err no_resources)
unfolding find find_loop
find_last_unit b fuel bitoff bitmax run_len is_set h k =
    let e : leb bitmax bitoff ≡ false = ground arith in
    (
      scan_last_unit b bitoff bitmax is_set k,
      rw (e, scan_last_unit b bitoff bitmax (not is_set) k, find, find_loop),
    )
