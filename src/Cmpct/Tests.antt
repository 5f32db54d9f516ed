-- ===== src/Cmpct/Tests.antt =====
-- Runs of the buckets and of the bits of the free lists.
use score.Base.{ℕ, ◌<◌, ◌≡◌, ◌^◌, arith, ok, ◌==◌, if◌then◌else◌}
use score.Cmpct.{
  size_to_index_allocating, set_free_list_bit, clear_free_list_bit, find_nonempty_bucket,
  number_of_buckets,
}
use score.Cmpct.Buckets.{Serves, allocating-Serves}
use score.Cmpct.FreeBits.{First, find_nonempty_bucket-First}
use score.Cmpct.MarkBits.{Marks, set_clear_free_list_bit-Marks}

allocating-Serves_example :
    (bucket rounded : ℕ) × (size_to_index_allocating 1000 ≡ ok (bucket, rounded))
    × Serves 1000 bucket rounded
allocating-Serves_example = allocating-Serves 1000 (omega arith) (omega arith)

-- Buckets 33 and 97 hold a block.
abbrev bits : ℕ → ℕ
bits j = if j == 1 then 2 ^ 30 else if j == 3 then 2 ^ 30 else 0

bits-lt : (j : ℕ) → bits j < 2 ^ 32
bits-lt j = ground arith

find_nonempty_bucket-First_example : First bits 40 number_of_buckets (find_nonempty_bucket 40 bits)
find_nonempty_bucket-First_example = find_nonempty_bucket-First bits bits-lt 40 (omega arith)

set_clear_free_list_bit-Marks_example :
    Marks bits bits-lt 40 (omega arith) 1 (set_free_list_bit 40 bits)
    × Marks bits bits-lt 40 (omega arith) 0 (clear_free_list_bit 40 bits)
set_clear_free_list_bit-Marks_example = set_clear_free_list_bit-Marks bits bits-lt 40 (omega arith)
