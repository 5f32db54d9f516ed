-- ===== src/Cmpct.antt =====
-- kernel/src/klib/cmpctmalloc.rs: the buckets of the free lists and the bits that tell which of them
-- hold a block.
pub mod Rows
pub mod Buckets
pub mod FreeBits
pub mod MarkBits
pub mod Tests
use Prim.Native.Nat.{bit_and, bit_or}
use score.Base.{
  ℕ, zero, suc, ◌+◌, ◌-◌, ◌*◌, ◌/◌, ◌%◌, ◌^◌, ◌≤◌, ◌<◌, ◌≡◌, Bool, true, false, not, List, [], ◌∷◌,
  ltb, leb, ◌==◌, if◌then◌else◌, Outcome, ok, err, panic, ◌>>=◌, ◌>>◌, zx_assert, not_found, get_or,
}
use score.Base.Word.{usize_mod, wadd, wsub, wmul, wshl, wshr}
use score.Base.Highest.{bit_length}
use score.Align.{roundup}

abbrev pub heap_alloc_virtual_bits : ℕ
heap_alloc_virtual_bits = 21

abbrev pub number_of_buckets : ℕ
number_of_buckets = 1 + 15 + (heap_alloc_virtual_bits - 7) * 8

abbrev pub bucket_words : ℕ
bucket_words = (number_of_buckets + 31) / 32

abbrev pub size_of_header_t : ℕ
size_of_header_t = 16

abbrev pub size_of_free_t : ℕ
size_of_free_t = 32

abbrev pub heap_max_alloc_size : ℕ
heap_max_alloc_size = 2 ^ 20 - size_of_header_t

-- The row and column of a size that is not adjusted any more, eight columns in a row, and the size that
-- such a number stands for.
unfoldable pub row_column : ℕ → ℕ → ℕ
unfolding wshl wshr
row_column size increment =
    let row = wsub (wsub 64 4) (64 - bit_length 64 size) in
    let column = bit_and (wshr size row) 7 in wadd (bit_or (wshl row 3) column) increment

unfoldable pub row_column_size : ℕ → ℕ
unfolding wshl wshr
row_column_size row_column = wshl (8 + bit_and row_column 7) (wshr row_column 3)

-- `adjust` is the amount subtracted, 8 or 0: the source adds it as a signed number.
unfoldable pub size_to_index_helper : ℕ → ℕ → ℕ → Outcome (ℕ × ℕ)
size_to_index_helper size adjust increment =
    if leb size 128
    then ok (wsub (size / 8) 1, size)
    else (let cell = row_column (wsub size adjust) increment in
        let answer = wsub (wadd cell 15) 32 in
        do zx_assert (ltb answer number_of_buckets); ok (answer, row_column_size cell))

-- Round up to the next bucket when allocating, down when freeing.
unfoldable pub size_to_index_allocating : ℕ → Outcome (ℕ × ℕ)
unfolding size_to_index_helper roundup
size_to_index_allocating size = size_to_index_helper (roundup size 8) 8 1

unfoldable pub size_to_index_freeing : ℕ → Outcome ℕ
unfolding size_to_index_helper
size_to_index_freeing size = size_to_index_helper size 0 0 >>= λ (bucket, _). ok bucket

-- `free_list_bits`: one bit for each bucket, the highest of a word of 32 bits first. An
-- index past the array panics.
unfoldable pub set_free_list_bit : ℕ → (ℕ → ℕ) → Outcome (ℕ → ℕ)
set_free_list_bit index bits =
    if leb bucket_words (index / 32)
    then panic
    else ok (λ j. if j == index / 32 then bit_or (bits j) (2 ^ (31 - index % 32)) else bits j)

unfoldable pub clear_free_list_bit : ℕ → (ℕ → ℕ) → Outcome (ℕ → ℕ)
clear_free_list_bit index bits =
    if leb bucket_words (index / 32)
    then panic
    else ok (λ j.
      if j == index / 32 then bit_and (bits j) (2 ^ 32 - 1 - 2 ^ (31 - index % 32)) else bits j)

-- The loop over the words from `i` on, `n` of them.
unfoldable pub find_nonempty_word : ℕ → ℕ → (ℕ → ℕ) → Outcome ℕ
find_nonempty_word zero i bits = err not_found
find_nonempty_word (suc n) i bits =
    let rest = find_nonempty_word n (i + 1) bits in
    if not (bits i == 0) then ok (i * 32 + (32 - bit_length 32 (bits i))) else rest

-- An index past the words of the array panics.
unfoldable pub find_nonempty_bucket : ℕ → (ℕ → ℕ) → Outcome ℕ
unfolding find_nonempty_word roundup
find_nonempty_bucket index bits =
    if leb bucket_words (index / 32)
    then panic
    else (let mask = ((2 ^ (31 - index % 32) - 1) * 2 + 1) in
        let masked = bit_and mask (bits (index / 32)) in
        if not (masked == 0)
        then ok (index - index % 32 + (32 - bit_length 32 masked))
        else (let start = roundup (index + 1) 32 / 32 in
            find_nonempty_word (number_of_buckets / 32 - start) start bits))
