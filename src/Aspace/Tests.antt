-- ===== src/Aspace/Tests.antt =====
-- Mapping in empty tables, with an allocator that hands out the pages of a list.
use score.Base.{
  ℕ, ◌+◌, ◌-◌, ◌/◌, ◌≤◌, ◌≡◌, ◌≢◌, ◌⊎◌, refl, true, ◌==◌, arith, if◌then◌else◌, List, [], ◌∷◌,
  length, Outcome, ok, err, already_exists,
}
use score.Mmu.{PageAllocator, Mmu, map_pages, item_present}
use score.Base.Word.{wshr}
use score.Physmap.{paddr_to_physmap}
use score.Mmu.{level_shift}
use score.Mmu.Levels.{slot}
use score.Mmu.Tree.{Shape, IsTree, Spare}
use score.Aspace.{VmAspace, query, is_valid_vaddr}
use score.Aspace.Pages.{IsReady, top_bits, map_pages-query}
use score.Base.{◌&&◌, not_found}
use score.Base.Word.{wshl}
use score.Mmu.{vaddr_to_index, item_leaf, item_descend, map_page_table}
use score.Mmu.Tree.{below}
use score.Aspace.{query_loop}
use score.Aspace.Crossing.{map_page_table-query_loop}
use score.Aspace.Map.{InSpace, IsFrame, MapsAll, Stops, map-query}
use score.Aspace.{map, error}
use score.Base.{◌∷◌, All}

abbrev pages_of_list : PageAllocator (List ℕ)
pages_of_list = record {
  pmm_alloc_page = take_page;
  set_state = λ page state s. s;
  paddr = λ page s. page - 1;
  Gives = λ s xs. s ≡ xs;
  gives_next = λ s pa xs state e. (pa + 1, xs, rw e refl, ground arith, omega arith, refl);
}
  where
    take_page : List ℕ → Outcome ℕ × List ℕ
    take_page [] = (ok 0, [])
    take_page (pa ∷ xs) = (ok (pa + 1), xs)

abbrev root : ℕ
root = 8192

abbrev kernel : VmAspace
kernel = record { base = 0xffff_0000_0000_0000; size = 0x1_0000_0000_0000 - 4096 }

abbrev vaddr : ℕ
vaddr = 0xffff_8000_0000_3000

abbrev shape : Shape
shape = record { level = λ t. if t == root then 0 else 5; number = λ t. 127 }

abbrev spare_pages : List ℕ
spare_pages = 0x8000_0000 ∷ 0x8000_1000 ∷ 0x8000_2000 ∷ 0x8000_3000 ∷ []

abbrev empty : Mmu (List ℕ)
empty = record { tables = λ t i. 0; source = spare_pages }

empty-IsTree : IsTree shape empty.tables
unfolding IsTree item_present
empty-IsTree t i low present = absurd (ground arith)

spare_pages-Spare : Spare shape spare_pages
unfolding paddr_to_physmap
spare_pages-Spare = (
  omega arith,
  refl,
  omega arith,
  (ground arith, (ground arith, (ground arith, tt))),
  (
    omega arith,
    refl,
    omega arith,
    (ground arith, (ground arith, tt)),
    (omega arith, refl, omega arith, (ground arith, tt), (omega arith, refl, omega arith, tt, tt)),
  ),
)

empty-IsReady : IsReady pages_of_list root (top_bits vaddr) shape spare_pages empty
unfolding slot level_shift wshr
empty-IsReady = record {
  root_level = refl;
  root_number = refl;
  tree = empty-IsTree;
  gives = refl;
  spare = spare_pages-Spare;
}

vaddr-is_valid_vaddr : is_valid_vaddr kernel vaddr ≡ true
unfolding is_valid_vaddr
vaddr-is_valid_vaddr = refl

map_pages-query_example :
    ((m' : Mmu (List ℕ)) × (s' : Shape) × (rest : List ℕ) × (map_pages pages_of_list root vaddr
          0x9000_0000 4096 231 empty
        ≡ (ok 4096, m'))
      × (query kernel root vaddr m'.tables ≡ ok (0x9000_0000, 231))
      × ((u : ℕ)
          → u / 4096 ≢ vaddr / 4096
          → top_bits u ≡ top_bits vaddr
          → query kernel root u m'.tables ≡ query kernel root u empty.tables)
      × IsReady pages_of_list root (top_bits vaddr) s' rest m'
      × (length spare_pages ≤ length rest + 4))
    ⊎ ((was : ℕ × ℕ) × (map_pages pages_of_list root vaddr 0x9000_0000 4096 231 empty
          ≡ (err already_exists, empty))
        × (query kernel root vaddr empty.tables ≡ ok was))
map_pages-query_example =
    map_pages-query pages_of_list kernel root vaddr 0x9000_0000 231 shape spare_pages empty refl
      refl (omega arith) (omega arith) refl refl vaddr-is_valid_vaddr empty-IsReady (omega arith)

vaddr-InSpace : InSpace kernel 127 vaddr 1
unfolding is_valid_vaddr slot level_shift wshr
vaddr-InSpace i h = let first : i ≡ 0 = omega (arith, h) in rw first (refl, refl)

frames : All IsFrame (0x9000_0000 ∷ [])
frames = ((refl, omega arith), tt)

IsReady-at_127 : IsReady pages_of_list root 127 shape spare_pages empty
IsReady-at_127 = record {
  root_level = refl;
  root_number = refl;
  tree = empty-IsTree;
  gives = refl;
  spare = spare_pages-Spare;
}

map-query_example :
    ((m' : Mmu (List ℕ)) × (map pages_of_list root kernel vaddr (0x9000_0000 ∷ []) 1 24 error empty
        ≡ (ok 1, m'))
      × MapsAll pages_of_list kernel root 127 vaddr (0x9000_0000 ∷ []) empty m')
    ⊎ ((m' : Mmu (List ℕ)) × (map pages_of_list root kernel vaddr
            (0x9000_0000 ∷ [])
            1
            24
            error
            empty
          ≡ (err already_exists, m'))
        × Stops pages_of_list kernel root 127 vaddr (0x9000_0000 ∷ []) empty)
map-query_example =
    map-query pages_of_list kernel root 127 vaddr 24 (0x9000_0000 ∷ []) shape spare_pages empty refl
      (omega arith) vaddr-InSpace vaddr-is_valid_vaddr frames refl IsReady-at_127 (omega arith)

-- Two pages across the end of a block of 2 MiB, at addresses 0x1ff000 and 0x200000.
-- Item 0 of the table names a table at physical address 0x80000000.
abbrev one_table : Mmu (List ℕ)
one_table = record {
  tables = λ t i. if (t == 100) && (i == 0) then 0x2000_0001 else 0;
  source = [];
}

map_page_table-query_loop_example :
    ((m' : Mmu (List ℕ)) × (map_page_table pages_of_list 2 0x1f_f000 0x9000_0000 8192 231 3 100
          one_table
        ≡ (ok 8192, m'))
      × (query_loop 2 (0x1f_f000 + 4096 - 0x20_0000) 3 100 m'.tables ≡ ok (0x9000_0000 + 4096, 231))
      × (query_loop 2 (0x1f_f000 + 4096) 3 100 m'.tables ≡ err not_found))
unfolding vaddr_to_index level_shift item_present item_leaf item_descend below wshr wshl
    paddr_to_physmap
map_page_table-query_loop_example =
    map_page_table-query_loop pages_of_list 0x1f_f000 0x9000_0000 231 refl refl (omega arith)
      (omega arith) (omega arith) refl refl refl 100 one_table refl refl (ground arith) refl refl
      refl
