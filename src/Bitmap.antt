-- ===== src/Bitmap.antt =====
-- kernel/src/klib/bitmap.rs. The storage is the memory from the storage pointer on, read and written
-- in words of 64 bits with no check of bounds. `BITMAP_UNIT_BITS` is 64 * 8 as in the source, and a
-- shift takes its distance modulo 64, as in the release build that the Makefile makes.
pub mod Mask
pub mod Word
pub mod Unit
pub mod Tests
use Prim.Native.Nat.{bit_and, bit_or}
use score.Base.{
  ℕ, zero, suc, ◌+◌, ◌-◌, ◌*◌, ◌/◌, ◌%◌, ◌<◌, min, Bool, true, false, not, ◌||◌, ltb, leb, ◌==◌,
  if◌then◌else◌, Outcome, ok, err, out_of_fuel, invalid_args, no_resources, Option, none, some,
}
use score.Base.Highest.{bit_length}
use score.Base.Word.{usize_bits, usize_max, usize_mod, wadd, wsub, wnot, wshl, wshr}

pub record Bitmap : Type 0 where
  pub size : ℕ
  pub storage_num : ℕ
  pub storage_data : ℕ → ℕ

abbrev pub byte_bits : ℕ
byte_bits = 8

abbrev pub bytes_per_usize : ℕ
bytes_per_usize = 8

abbrev pub bitmap_unit_bits : ℕ
bitmap_unit_bits = 512

unfoldable pub new : (ℕ → ℕ) → Bitmap
new memory = record { size = 0; storage_num = 0; storage_data = memory }

-- `memory` holds the words from `base` on.
unfoldable pub storage_init : (ℕ → ℕ) → ℕ → Bitmap → Bitmap
storage_init memory size b = record b {
  storage_num = size / bytes_per_usize;
  storage_data = memory;
}

unfoldable pub init : ℕ → Bitmap → Bitmap
init size b = record b { size = size }

abbrev pub first_idx : ℕ → ℕ
first_idx bitoff = bitoff / bitmap_unit_bits

abbrev pub last_idx : ℕ → ℕ
last_idx bitmax = wsub bitmax 1 / bitmap_unit_bits

unfoldable pub get_mask : Bool → Bool → ℕ → ℕ → ℕ
unfolding wshl wshr
get_mask first last off max =
    let low =
      if first then bit_and usize_max (wshl usize_max (off % bitmap_unit_bits)) else usize_max in
    if last
    then bit_and low
        (wshr usize_max ((bitmap_unit_bits - max % bitmap_unit_bits) % bitmap_unit_bits))
    else low

unfoldable pub mask_bits : ℕ → ℕ → ℕ → ℕ → Bool → ℕ
unfolding get_mask
mask_bits word idx bitoff bitmax is_set =
    let mask = get_mask (idx == first_idx bitoff) (idx == last_idx bitmax) bitoff bitmax in
    if is_set then wnot (bit_or (wnot mask) word) else bit_and mask word

abbrev pub update : (ℕ → ℕ) → ℕ → ℕ → ℕ → ℕ
update f i v = λ j. if j == i then v else f j

-- The body of the loop over the words, and the loop, for `n` words from `i` on.
unfoldable pub write_words : (ℕ → ℕ → ℕ) → ℕ → ℕ → (ℕ → ℕ) → ℕ → ℕ
write_words f zero i words = words
write_words f (suc n) i words = write_words f n (i + 1) (update words i (f i (words i)))

unfoldable pub set : ℕ → ℕ → Bitmap → Outcome Bitmap
unfolding get_mask write_words
set bitoff bitmax b =
    if ltb bitmax bitoff || ltb b.size bitmax
    then err invalid_args
    else if bitoff == bitmax
    then ok b
    else (let first = first_idx bitoff in
        let last = last_idx bitmax in
        ok (record b {
          storage_data =
              write_words (λ i word. bit_or word (get_mask (i == first) (i == last) bitoff bitmax))
                (last + 1 - first) first b.storage_data;
        }))

unfoldable pub clear : ℕ → ℕ → Bitmap → Outcome Bitmap
unfolding get_mask write_words
clear bitoff bitmax b =
    if ltb bitmax bitoff || ltb b.size bitmax
    then err invalid_args
    else if bitoff == bitmax
    then ok b
    else (let first = first_idx bitoff in
        let last = last_idx bitmax in
        ok (record b {
          storage_data =
              write_words
                (λ i word. bit_and word (wnot (get_mask (i == first) (i == last) bitoff bitmax)))
                (last + 1 - first) first b.storage_data;
        }))

unfoldable pub leading_zeros : ℕ → ℕ
leading_zeros a = usize_bits - bit_length usize_bits a

unfoldable pub trailing_zeros_from : ℕ → ℕ → ℕ
trailing_zeros_from zero a = 0
trailing_zeros_from (suc n) a =
    let rest = trailing_zeros_from n (a / 2) in if a % 2 == 1 then 0 else suc rest

unfoldable pub trailing_zeros : ℕ → ℕ
unfolding trailing_zeros_from
trailing_zeros a = trailing_zeros_from usize_bits a

-- The scans return `none` where the source returns true, and `some` with the value written to `out`
-- where it returns false.
unfoldable pub scan_loop : ℕ → ℕ → ℕ → ℕ → Bool → (ℕ → ℕ) → Option ℕ
scan_loop zero i bitoff bitmax is_set words = none
scan_loop (suc n) i bitoff bitmax is_set words =
    let masked = mask_bits (words i) i bitoff bitmax is_set in
    let rest = scan_loop n (i + 1) bitoff bitmax is_set words in
    if not (masked == 0) then some (i * bitmap_unit_bits + trailing_zeros masked) else rest

unfoldable pub scan : ℕ → ℕ → Bool → Bitmap → Option ℕ
unfolding scan_loop
scan bitoff bitmax is_set b =
    let bitmax = min bitmax b.size in
    if leb bitmax bitoff
    then none
    else scan_loop (last_idx bitmax - first_idx bitoff) (first_idx bitoff) bitoff bitmax is_set
        b.storage_data

-- From word `i` down to the first one; `n` counts the words below `i` that are left.
unfoldable pub reverse_scan_loop : ℕ → ℕ → ℕ → ℕ → Bool → (ℕ → ℕ) → Option ℕ
reverse_scan_loop zero i bitoff bitmax is_set words =
    let masked = mask_bits (words i) i bitoff bitmax is_set in
    if not (masked == 0)
    then some ((i + 1) * bitmap_unit_bits - (leading_zeros masked + 1))
    else none
reverse_scan_loop (suc n) i bitoff bitmax is_set words =
    let masked = mask_bits (words i) i bitoff bitmax is_set in
    let rest = reverse_scan_loop n (i - 1) bitoff bitmax is_set words in
    if not (masked == 0)
    then some ((i + 1) * bitmap_unit_bits - (leading_zeros masked + 1))
    else rest

unfoldable pub reverse_scan : ℕ → ℕ → Bool → Bitmap → Option ℕ
unfolding reverse_scan_loop
reverse_scan bitoff bitmax is_set b =
    let bitmax = min bitmax b.size in
    if leb bitmax bitoff
    then none
    else reverse_scan_loop (last_idx bitmax - first_idx bitoff) (last_idx bitmax) bitoff bitmax
        is_set b.storage_data

-- The loop of `find`, for at most so many rounds.
unfoldable pub find_loop : ℕ → Bool → ℕ → ℕ → ℕ → Bitmap → Outcome ℕ
unfolding scan
find_loop zero is_set bitoff bitmax run_len b = out_of_fuel
find_loop (suc fuel) is_set bitoff bitmax run_len b = elim (scan bitoff bitmax (not is_set) b) [
  | none ↦ err no_resources
  | some start ↦ elim (ltb (wsub bitmax start) run_len) [
    | true ↦ err no_resources
    | false ↦ elim (scan start (wadd start run_len) is_set b) [
      | none ↦ ok start
      | some bitoff' ↦ find_loop fuel is_set bitoff' bitmax run_len b
    ]
  ]
]

unfoldable pub find : ℕ → Bool → ℕ → ℕ → ℕ → Bitmap → Outcome ℕ
unfolding find_loop
find fuel is_set bitoff bitmax run_len b =
    if leb bitmax bitoff then err invalid_args else find_loop fuel is_set bitoff bitmax run_len b
