-- ===== src/Mmu.antt =====
-- kernel/src/arch/riscv64/mmu.rs: the page tables after boot, for the five levels that the 48 bits of
-- the kernel's address space give. A table is a function from indexes to items; a pointer to a table
-- is its address. Pages for new tables come from an allocator.
pub mod Items
pub mod Levels
pub mod Tree
pub mod Grown
pub mod Grows
use Prim.Native.Nat.{bit_and, bit_or}
use score.Base.{
  ℕ, zero, suc, ◌+◌, ◌-◌, ◌*◌, ◌/◌, min, ◌≡◌, Bool, true, false, not, ◌&&◌, ◌||◌, List, ◌∷◌, ltb,
  ◌==◌, if◌then◌else◌, Outcome, ok, err, panic, out_of_fuel, no_mem, already_exists, invalid_args,
}
use score.Base.Word.{wadd, wshl, wshr, wnot}
use score.Align.{page_size, page_shift}
use score.Page.{mmu}
use score.Physmap.{paddr_to_physmap}

-- What a call that can fail part-way came to, and the state that it left.
unfoldable pub continue_with {ℓ κ μ} :
    {R : Type ℓ} {T : Type κ} {V : Type μ} → Outcome R × T → (R → T → Outcome V × T) → Outcome V × T
continue_with (ok a, t) f = f a t
continue_with (err e, t) f = (err e, t)
continue_with (panic, t) f = (panic, t)
continue_with (out_of_fuel, t) f = (out_of_fuel, t)

-- The allocator of pages, as far as mmu.rs calls it. `Gives s xs` says that from `s` on it hands out
-- the pages of the physical addresses `xs`, in this order.
pub record PageAllocator (S : Type 0) : Type 1 where
  pub pmm_alloc_page : S → Outcome ℕ × S
  pub set_state : ℕ → ℕ → S → S
  pub paddr : ℕ → S → ℕ
  pub Gives : S → List ℕ → Type 0
  pub gives_next :
      (s : S) (pa : ℕ) (xs : List ℕ) (state : ℕ)
      → Gives s (pa ∷ xs)
      → ((page : ℕ) × (next : S) × (pmm_alloc_page s ≡ (ok page, next))
          × ((page == 0) ≡ false)
          × (paddr page (set_state page state next) ≡ pa)
          × Gives (set_state page state next) xs)

abbrev pub page_table_entries : ℕ
page_table_entries = 512

abbrev pub page_pfn_shift : ℕ
page_pfn_shift = 10

abbrev pub page_present : ℕ
page_present = 1

-- Read, write and execute.
abbrev pub page_leaf : ℕ
page_leaf = 14

abbrev pub page_table : ℕ
page_table = page_present

abbrev pub page_kernel : ℕ
page_kernel = 231

abbrev pub leaf_max_shift : ℕ
leaf_max_shift = 30

abbrev pub mmu_levels : ℕ
mmu_levels = 5

abbrev pub PageTable : Type 0
PageTable = ℕ → ℕ

abbrev pub Tables : Type 0
Tables = ℕ → PageTable

unfoldable pub mk_item : ℕ → ℕ → ℕ → ℕ → Tables → Tables
mk_item table index pfn prot ts =
    let item = bit_or (wshl pfn page_pfn_shift) prot in
    λ t i. if (t == table) && (i == index) then item else ts t i

unfoldable pub item_present : PageTable → ℕ → Bool
item_present table index = bit_and (table index) page_present == page_present

unfoldable pub item_leaf : PageTable → ℕ → Bool
unfolding item_present
item_leaf table index = item_present table index && not (bit_and (table index) page_leaf == 0)

unfoldable pub item_descend : PageTable → ℕ → ℕ
item_descend table index = wshl (wshr (table index) page_pfn_shift) page_shift

unfoldable pub level_shift : ℕ → ℕ
level_shift level = (mmu_levels - level) * (page_shift - 3) + 3

unfoldable pub level_size : ℕ → ℕ
unfolding level_shift
level_size level = wshl 1 (level_shift level)

unfoldable pub level_mask : ℕ → ℕ
unfolding level_size
level_mask level = wnot (level_size level - 1)

unfoldable pub pa_to_pfn : ℕ → ℕ
pa_to_pfn pa = wshr pa page_shift

unfoldable pub pfn_to_pa : ℕ → ℕ
pfn_to_pa pfn = wshl pfn page_shift

unfoldable pub pte_to_pfn : ℕ → ℕ
pte_to_pfn pte = wshr pte page_pfn_shift

unfoldable pub pte_to_prot : ℕ → ℕ
pte_to_prot pte = bit_and pte (wshl 1 page_pfn_shift - 1)

unfoldable pub vaddr_to_index : ℕ → ℕ → ℕ
unfolding level_shift
vaddr_to_index addr level = bit_and (wshr addr (level_shift level)) (page_table_entries - 1)

unfoldable pub aligned_in_level : ℕ → ℕ → Bool
unfolding level_mask
aligned_in_level addr level = bit_and addr (wnot (level_mask level)) == 0

-- Every item of the table at `va` is cleared.
unfoldable pub arch_zero_page : ℕ → Tables → Tables
arch_zero_page va ts = λ t i. if t == va then 0 else ts t i

pub record Mmu (S : Type 0) : Type 0 where
  pub tables : Tables
  pub source : S

module _ {S : Type 0} (A : PageAllocator S) where
  unfoldable pub cache_alloc_page : S → Outcome ℕ × S
  unfolding continue_with
  cache_alloc_page s =
      continue_with (A.pmm_alloc_page s)
        (λ page next. if page == 0 then (err no_mem, next) else (ok page, next))

  unfoldable pub alloc_page_table : S → Outcome ℕ × S
  unfolding continue_with
  alloc_page_table s =
      continue_with (cache_alloc_page s)
        (λ page next. (ok (A.paddr page (A.set_state page mmu next)), A.set_state page mmu next))

  -- The table below the item: the one that the item names, or a new one.
  unfoldable pub new_table : ℕ → ℕ → Mmu S → Outcome ℕ × Mmu S
  unfolding continue_with
  new_table table index m =
      let (allocated, source) = alloc_page_table m.source in
      continue_with (allocated, record m { source = source })
        (λ pa m'.
          let pt_vaddr = paddr_to_physmap pa in
          let zeroed = arch_zero_page pt_vaddr m'.tables in
          (
            ok pt_vaddr,
            record m' { tables = mk_item table index (pa_to_pfn pa) page_table zeroed },
          ))

  unfoldable pub next_table : ℕ → ℕ → Mmu S → Outcome ℕ × Mmu S
  next_table table index m =
      if item_present (m.tables table) index
      then (if item_leaf (m.tables table) index
          then (err already_exists, m)
          else (ok (paddr_to_physmap (item_descend (m.tables table) index)), m))
      else new_table table index m

  abbrev pub MapTable : Type 0
  MapTable = ℕ → ℕ → ℕ → ℕ → ℕ → ℕ → Mmu S → Outcome ℕ × Mmu S

  -- One round of the loop of `map_page_table`; `lower` is its call one level down.
  unfoldable pub map_chunk : MapTable → ℕ → ℕ → ℕ → ℕ → ℕ → ℕ → Mmu S → Outcome ℕ × Mmu S
  unfolding continue_with
  map_chunk lower vaddr paddr chunk_size prot level table m =
      let index = vaddr_to_index vaddr level in
      if not (bit_and (bit_or vaddr paddr) (wnot (level_mask level)) == 0)
        || not (chunk_size == level_size level)
        || ltb leaf_max_shift (level_shift level)
      then continue_with (next_table table index m)
          (λ next_pt m'. lower vaddr paddr chunk_size prot (level + 1) next_pt m')
      else (if item_present (m.tables table) index then (err already_exists, m) else (
        ok chunk_size,
        record m { tables = mk_item table index (pa_to_pfn paddr) prot m.tables },
      ))

  unfoldable pub map_chunks : MapTable → ℕ → ℕ → ℕ → ℕ → ℕ → ℕ → ℕ → ℕ → Mmu S → Outcome ℕ × Mmu S
  unfolding continue_with
  map_chunks lower zero vaddr paddr size prot level table mapped_size m =
      if size == 0 then (ok mapped_size, m) else (out_of_fuel, m)
  map_chunks lower (suc rounds) vaddr paddr size prot level table mapped_size m =
      let chunk_size = min size (level_size level) in
      if size == 0
      then (ok mapped_size, m)
      else continue_with (map_chunk lower vaddr paddr chunk_size prot level table m) (λ mapped m'.
        map_chunks lower rounds (wadd vaddr chunk_size) (wadd paddr chunk_size) (size - chunk_size)
          prot level table (wadd mapped_size chunk_size) m')

  -- The fuel is the number of levels left; a round of the loop takes a page at least.
  unfoldable pub map_page_table : ℕ → MapTable
  unfolding map_chunks
  map_page_table zero vaddr paddr size prot level table m = (out_of_fuel, m)
  map_page_table (suc levels) vaddr paddr size prot level table m =
      if not (bit_and (bit_or (bit_or vaddr paddr) size) (page_size - 1) == 0)
      then (err invalid_args, m)
      else map_chunks (map_page_table levels) (size / page_size) vaddr paddr size prot level table 0
          m

  unfoldable pub map_pages : ℕ → ℕ → ℕ → ℕ → ℕ → Mmu S → Outcome ℕ × Mmu S
  map_pages swapper_pgd vaddr paddr size prot m =
      map_page_table mmu_levels vaddr paddr size prot 0 swapper_pgd m
