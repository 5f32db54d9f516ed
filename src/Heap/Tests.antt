-- ===== src/Heap/Tests.antt =====
-- An area is made, and a block of one is taken and given back.

use score.Base.{
  ◌≢◌, out_of_fuel, ℕ, ◌-◌, ◌%◌, ◌≤◌, ◌≡◌, ◌≢◌, refl, true, false, arith, List, [], ◌∷◌, ok,
}
use score.Heap.{Heap, add_to_heap, cmpct_alloc, cmpct_free}
use score.Heap.Lists.{IsFree, SameRest}
use score.Heap.Blocks.{IsArea}
use score.Heap.Carve.{taken}
use score.Heap.Free.{cmpct_free-IsArea, cmpct_free-cached}
use score.Heap.Serve.{cmpct_alloc-IsArea, cmpct_free-cmpct_alloc}
use score.Heap.Start.{add_to_heap-IsArea}
use score.Heap.Grow.{cmpct_alloc_ends}
use score.Heap.Example.{
  no_blocks, loops-IsFamily, bit-zero, empty_heap, aligned, outside, heap, one_block, pages, of_240,
  of_200, heap-IsFree, from_first, from_second, last_used, none_before, first_of,
}

add_to_heap-IsArea_example :
    (h' : Heap ℕ) × (qs' : ℕ → List ℕ) × (add_to_heap 4096 4096 empty_heap ≡ ok h')
    × IsFree h' qs'
    × IsArea h' qs' 4096 [] ((4064, true) ∷ []) 0
    × SameRest empty_heap h'
add_to_heap-IsArea_example =
    add_to_heap-IsArea empty_heap no_blocks 4096 4096
      record {
        lists = loops-IsFamily;
        words = λ j. omega arith;
        marks = λ i u. bit-zero (31 - i % 32);
        tagged = λ i u. tt;
      }
      aligned (ground arith) (omega arith) (omega arith) (omega arith) (omega arith)
      (λ x l v. outside x l)

cmpct_free-IsArea_example :
    (h' : Heap ℕ) × (qs' : ℕ → List ℕ) × (cmpct_free pages 4384 (heap true) ≡ ok h')
    × IsFree h' qs'
    × IsArea h' qs' 4096 [] ((304, true) ∷ (64, false) ∷ []) 0
    × (h'.remaining ≡ 304)
cmpct_free-IsArea_example =
    cmpct_free-IsArea pages (heap true) one_block 4096 ((256, true) ∷ []) 48 ((64, false) ∷ []) 0
      (heap-IsFree true) from_second refl

cmpct_free-cached_example :
    (h' : Heap ℕ) × (qs' : ℕ → List ℕ) × (cmpct_free pages 4384 (heap false) ≡ ok h')
    × IsFree h' qs'
    × (h'.cached_os_alloc ≡ 4096)
    × (h'.header 4096 ≡ record { left = 0; size = 336; flag = 0 })
    × (h'.remaining ≡ 0)
cmpct_free-cached_example =
    cmpct_free-cached pages (heap false) one_block 4096 ((256, true) ∷ []) 48 [] 0
      (heap-IsFree false) last_used refl refl refl

cmpct_alloc-IsArea_example :
    (h' : Heap ℕ) × (qs' : ℕ → List ℕ) × (cmpct_alloc pages 200 (heap true) ≡ ok (4128, h'))
    × IsFree h' qs'
    × IsArea h' qs' 4096 [] (taken 200 224 256 ((48, false) ∷ (64, false) ∷ [])) 0
    × SameRest (heap true) h'
    × (200 ≤ 208)
    × (224 ≤ 256)
cmpct_alloc-IsArea_example =
    cmpct_alloc-IsArea pages (heap true) one_block 4096 [] 256 ((48, false) ∷ (64, false) ∷ []) 0
      200 20 208 22 [] (heap-IsFree true) from_first (omega arith) (omega arith) of_200 of_240
      (omega arith) none_before first_of

cmpct_free-cmpct_alloc_example :
    (payload : ℕ) × (h1 h2 : Heap ℕ) × (qs2 : ℕ → List ℕ) × (cmpct_alloc pages 200 (heap true)
      ≡ ok (payload, h1))
    × (cmpct_free pages payload h1 ≡ ok h2)
    × IsFree h2 qs2
    × IsArea h2 qs2 4096 [] ((256, true) ∷ (48, false) ∷ (64, false) ∷ []) 0
    × (h2.remaining ≡ 256)
cmpct_free-cmpct_alloc_example =
    cmpct_free-cmpct_alloc pages (heap true) one_block 4096 [] 256 ((48, false) ∷ (64, false) ∷ [])
      0 200 20 208 22 [] (heap-IsFree true) from_first (omega arith) (omega arith) of_200 of_240
      (omega arith) none_before first_of refl refl refl

cmpct_alloc_ends_example : cmpct_alloc pages 1000 (heap true) ≢ out_of_fuel
cmpct_alloc_ends_example = cmpct_alloc_ends pages (λ n s x. cc) (λ a n s x. cc) 1000 (heap true)
