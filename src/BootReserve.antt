-- ===== src/BootReserve.antt =====
-- kernel/src/platform/riscv/boot_reserve.rs: the list of physical ranges reserved at boot.
pub mod Add
pub mod Search
pub mod Tests
use score.Base.{
  ℕ, zero, suc, ◌+◌, Bool, true, false, List, [], ◌∷◌, Option, none, some, ltb, ◌==◌, if◌then◌else◌,
  length, Outcome, ok, err, panic, out_of_fuel, ◌>>=◌, ◌>>◌, zx_assert, no_mem,
}
use score.Base.Word.{wadd, wsub}
use score.Range.{intersects}

abbrev pub max_reserves : ℕ
max_reserves = 64

pub record BootReserveRange : Type 0 where
  pub pa : ℕ
  pub len : ℕ

abbrev pub range : ℕ → ℕ → BootReserveRange
range pa len = record { pa = pa; len = len }

-- `Vec::insert`; the position is at most the length here.
abbrev pub insert_at {ℓ} : {A : Type ℓ} → ℕ → A → List A → List A
insert_at zero x xs = x ∷ xs
insert_at (suc i) x [] = x ∷ []
insert_at (suc i) x (y ∷ ys) = y ∷ insert_at i x ys

-- The `while` loop over the positions, from `i` on.
unfoldable pub find_slot : ℕ → ℕ → ℕ → ℕ → List BootReserveRange → Outcome ℕ
find_slot pa len end i [] = ok i
find_slot pa len end i (r ∷ rs) =
    let rest = find_slot pa len end (suc i) rs in
    if intersects r.pa r.len pa len then panic else if ltb end r.pa then ok i else rest

unfoldable pub boot_reserve_add_range :
    ℕ → ℕ → List BootReserveRange → Outcome (List BootReserveRange)
unfolding find_slot
boot_reserve_add_range pa len res =
    if length res == 63
    then panic
    else (let end = wsub (wadd pa len) 1 in
        do
          zx_assert (ltb pa end)
          i ← find_slot pa len end 0 res
          ok (insert_at i (range pa len) res))

unfoldable pub boot_reserve_init : ℕ → ℕ → List BootReserveRange → Outcome (List BootReserveRange)
unfolding boot_reserve_add_range
boot_reserve_init pa len res = boot_reserve_add_range pa len res

unfoldable pub upper_align : ℕ → ℕ → ℕ → ℕ
upper_align r_pa r_len alloc_len = wsub (wadd r_pa r_len) alloc_len

-- The `for` loop: the first range that the candidate meets.
unfoldable pub first_hit : ℕ → ℕ → List BootReserveRange → Option BootReserveRange
first_hit alloc_pa alloc_len [] = none
first_hit alloc_pa alloc_len (r ∷ rs) =
    if intersects r.pa r.len alloc_pa alloc_len then some r else first_hit alloc_pa alloc_len rs

-- The loop `'retry`, for at most so many rounds.
unfoldable pub retry : ℕ → ℕ → ℕ → ℕ → List BootReserveRange → Outcome BootReserveRange
unfolding first_hit
retry zero range_pa alloc_pa alloc_len res = out_of_fuel
retry (suc fuel) range_pa alloc_pa alloc_len res = elim (first_hit alloc_pa alloc_len res) [
  | none ↦ ok (range alloc_pa alloc_len)
  | some r ↦ elim (ltb (wsub r.pa alloc_len) range_pa) [
    | true ↦ err no_mem
    | false ↦ retry fuel range_pa (wsub r.pa alloc_len) alloc_len res
  ]
]

unfoldable pub boot_reserve_range_search :
    ℕ → ℕ → ℕ → ℕ → List BootReserveRange → Outcome BootReserveRange
unfolding retry upper_align
boot_reserve_range_search fuel range_pa range_len alloc_len res =
    retry fuel range_pa (upper_align range_pa range_len alloc_len) alloc_len res
