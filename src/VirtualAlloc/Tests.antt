-- ===== src/VirtualAlloc/Tests.antt =====
-- A heap of 512 pages of which the first is in use.
use score.Base.{refl, ◌==◌, if◌then◌else◌}
use score.Base.Word.{wshl}
use score.VirtualAlloc.{VirtualAlloc}
use score.VirtualAlloc.Small.{Unaligned}

abbrev heap : VirtualAlloc
heap = record {
  alloc_guard = 1;
  alloc_base = 0x8000_0000;
  next_search_start = 1;
  align_log2 = 21;
  bitmap = record { size = 512; storage_num = 512; storage_data = λ i. if i == 0 then 1 else 0 };
}

heap-Unaligned : Unaligned 4 heap
unfolding wshl
heap-Unaligned = refl
