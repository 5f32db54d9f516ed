-- ===== src/Bump.antt =====
-- kernel/src/allocator.rs: `BumpAllocator`, the allocator of the early stage. A layout is its size and
-- its alignment.
pub mod Live
pub mod Tests
use score.Base.{ℕ, ◌+◌, Bool, true, false, ltb, ◌==◌, if◌then◌else◌}
use score.Base.Word.{wadd, wsub}
use score.Align.{roundup}

pub record BumpAllocator : Type 0 where
  pub start : ℕ
  pub end : ℕ
  pub next : ℕ
  pub allocations : ℕ

unfoldable pub new : BumpAllocator
new = record { start = 0; end = 0; next = 0; allocations = 0 }

unfoldable pub init : ℕ → ℕ → BumpAllocator → BumpAllocator
init start size b = record b { start = start; end = wadd start size; next = start }

-- `ALIGN!`.
unfoldable pub align_up : ℕ → ℕ → ℕ
unfolding roundup
align_up a b = roundup a b

-- The pointer, null if there is no room.
unfoldable pub alloc : ℕ → ℕ → BumpAllocator → ℕ × BumpAllocator
alloc size align b =
    let start = align_up b.next align in
    let end = wadd start size in
    if ltb b.end end
    then (0, b)
    else (start, record b { next = end; allocations = wadd b.allocations 1 })

unfoldable pub dealloc : BumpAllocator → BumpAllocator
dealloc b =
    let left = wsub b.allocations 1 in
    if left == 0
    then record b { next = b.start; allocations = left }
    else record b { allocations = left }
