-- ===== src/Bump/Tests.antt =====
-- Two blocks of an early heap of a page at 4096.
use score.Base.{◌≡◌, refl, List, [], ◌∷◌, arith}
use score.Align.{IsPower}
use score.Bump.{BumpAllocator, new, init, alloc, dealloc}
use score.Bump.Live.{Block, IsLive, Allocates, init-IsLive, alloc-Allocates, dealloc-IsLive}

abbrev heap : BumpAllocator
heap = record { start = 4096; end = 8192; next = 4196; allocations = 2 }

abbrev live : List Block
live = (4128, 68) ∷ (4096, 24) ∷ []

heap-IsLive : IsLive heap live
heap-IsLive = record {
  count = refl;
  small = omega arith;
  from = omega arith;
  to = omega arith;
  within = ground arith;
  apart = ground arith;
}

eight : IsPower 8
eight = record { k = 3; j = 61; width = refl; power = refl; fits = omega arith }

init-IsLive_example : IsLive (init 4096 4096 new) []
init-IsLive_example = init-IsLive 4096 4096 new (unfold new in refl) (omega arith)

alloc-Allocates_example : Allocates heap live heap-IsLive 40 8 (alloc 40 8 heap)
alloc-Allocates_example =
    alloc-Allocates heap live heap-IsLive 40 8 eight (omega arith) (omega arith)

abbrev older : List Block
older = (4096, 24) ∷ []

dealloc-IsLive_example : IsLive (dealloc heap) older × (older ≡ [] → (dealloc heap).next ≡ 4096)
dealloc-IsLive_example = dealloc-IsLive heap [] (4128, 68) older heap-IsLive
