-- ===== src/Aspace/Crossing.antt =====
-- kernel/src/arch/riscv64/mmu.rs: a range that goes past the end of a table of the last level.
use score.Base.{
  ℕ, suc, ◌+◌, ◌-◌, ◌/◌, ◌%◌, ◌<◌, ◌≡◌, ◌≢◌, refl, sym, ap, ◌∙◌, true, false, not, ltb, ◌&&◌, ◌==◌,
  arith, ok, err, not_found,
}
use Prim.Native.Nat.{bit_and, bit_or}
use score.Base.Word.{usize_mod, wnot, wadd, wshl, wshr}
use score.Base.Bits.{bit_and_mask}
use score.Base.Flags.{bit_or-mod}
use score.Mmu.{
  PageAllocator, Mmu, Tables, MapTable, continue_with, vaddr_to_index, level_shift, level_size,
  level_mask, item_present, item_leaf, mk_item, pa_to_pfn, next_table, map_page_table, map_chunk,
  map_chunks,
}
use score.Mmu.Items.{item, item_present-item, item_leaf-item, pfn_to_pa-item, pte_to_prot-item}
use score.Mmu.Levels.{any, map_chunk-last, level_size_last}
use score.Mmu.Tree.{below, next_table-below}
use score.Mmu.Grown.{mk_item_here, same_item}
use score.Aspace.{query_loop}
use score.Aspace.Steps.{query_loop-leaf, query_loop-below, query_loop-absent, same_below}

module _ {S : Type 0} (A : PageAllocator S) (v p prot : ℕ) (hv : v % 4096 ≡ 0) (hp : p % 4096 ≡ 0)
    (small : p + 4096 < usize_mod) (high : v + 4096 < usize_mod) (flags : prot < 1024)
    (present : prot % 2 ≡ 1) (leaf : (prot % 16 == 1) ≡ false) (end : v / 4096 % 512 ≡ 511) where
  no_wrap_v : wadd v 4096 ≡ v + 4096
  no_wrap_v = omega (arith, high)

  no_wrap_p : wadd p 4096 ≡ p + 4096
  no_wrap_p = omega (arith, small)

  first_index : vaddr_to_index v 4 ≡ 511
  unfolding vaddr_to_index level_shift wshr
  first_index = bit_and_mask 9 (v / 4096) ∙ end

  second_index : vaddr_to_index (v + 4096) 4 ≡ 0
  unfolding vaddr_to_index level_shift wshr
  second_index = bit_and_mask 9 ((v + 4096) / 4096) ∙ omega (arith, end)

  aligned_args : bit_and (bit_or (bit_or v p) 8192) 4095 ≡ 0
  aligned_args =
      bit_and_mask 12 (bit_or (bit_or v p) 8192)
      ∙ bit_or-mod 12 (bit_or v p) 8192 (bit_or-mod 12 v p hv hp) refl

  pub unrolled :
      (levels level table : ℕ) (m : Mmu S)
      → map_page_table A (suc levels) v p 8192 prot level table m
        ≡ map_chunks A (map_page_table A levels) 2 v p 8192 prot level table 0 m
  unfolding map_page_table
  unrolled levels level table m = rw aligned_args refl

  pub across :
      (lower : MapTable A) (table next : ℕ) (m : Mmu S)
      → next_table A table (vaddr_to_index v 3) m ≡ (ok next, m)
      → map_chunks A lower 2 v p 8192 prot 3 table 0 m
        ≡ continue_with (lower v p 8192 prot 4 next m) (λ _ m'. (ok 8192, m'))
  unfolding map_chunks map_chunk continue_with level_size level_shift wshl
  across lower table next m at =
      let below_block =
        any (not (bit_and (bit_or v p) (wnot (level_mask 3)) == 0)) true (ltb 30 30) refl in
      rw (below_block, at) refl

  module _ (table : ℕ) (m : Mmu S) (e : item_present (m.tables table) 511 ≡ false)
      (f : item_present (m.tables table) 0 ≡ false) where
    pub once : Mmu S
    once = record m { tables = mk_item table 511 (pa_to_pfn p) prot m.tables }

    pub twice : Mmu S
    twice = record m {
      tables =
          mk_item table 0 (pa_to_pfn (p + 4096)) prot
            (mk_item table 511 (pa_to_pfn p) prot m.tables);
    }

    still_absent : item_present (once.tables table) 0 ≡ false
    unfolding once mk_item
    still_absent =
        let other : ((table == table) && (0 == 511)) ≡ false = ground arith in
        (same_item (once.tables table) (m.tables table) 0 (rw other refl)).0 ∙ f

    pub two_rounds : map_page_table A 1 v p 8192 prot 4 table m ≡ (ok 8192, twice)
    unfolding map_page_table map_chunks continue_with once twice
    two_rounds =
        let lower = map_page_table A 0 in
        let first = map_chunk-last A v p prot hv hp lower table m in
        let second =
          map_chunk-last A (v + 4096) (p + 4096) prot (omega (arith, hv)) (omega (arith, hp)) lower
            table once in
        rw
          (
            aligned_args, level_size_last, first, first_index, e, no_wrap_v, no_wrap_p, second,
            second_index, still_absent,
          )
          refl

    pub twice_here : twice.tables table 0 ≡ item (p + 4096) prot
    unfolding twice
    twice_here =
        mk_item_here table 0 (p + 4096) prot (mk_item table 511 (pa_to_pfn p) prot m.tables)

    pub twice_other : (t i : ℕ) → t ≢ table → twice.tables t i ≡ m.tables t i
    unfolding twice mk_item
    twice_other t i ne = let other : (t == table) ≡ false = ground (arith, ne) in rw other refl

same_block :
    (v : ℕ) → v / 4096 % 512 ≡ 511 → vaddr_to_index (v + 4096 - 0x20_0000) 3 ≡ vaddr_to_index v 3
unfolding vaddr_to_index level_shift wshr
same_block v end =
    let e : (v + 4096 - 0x20_0000) / 2097152 ≡ v / 2097152 = omega (arith, end) in rw e refl

first_of_block : (v : ℕ) → v / 4096 % 512 ≡ 511 → vaddr_to_index (v + 4096 - 0x20_0000) 4 ≡ 0
unfolding vaddr_to_index level_shift wshr
first_of_block v end = bit_and_mask 9 ((v + 4096 - 0x20_0000) / 4096) ∙ omega (arith, end)

module _ (v p prot : ℕ) (hp : p % 4096 ≡ 0) (small : p + 4096 < usize_mod) (flags : prot < 1024)
    (present : prot % 2 ≡ 1) (leaf : (prot % 16 == 1) ≡ false) (end : v / 4096 % 512 ≡ 511) where
  found_below :
      (table next : ℕ) (old new : Tables)
      → item_present (old table) (vaddr_to_index v 3) ≡ true
      → item_leaf (old table) (vaddr_to_index v 3) ≡ false
      → below old table (vaddr_to_index v 3) ≡ next
      → ((i : ℕ) → new table i ≡ old table i)
      → new next 0 ≡ item (p + 4096) prot
      → query_loop 2 (v + 4096 - 0x20_0000) 3 table new ≡ ok (p + 4096, prot)
  found_below table next old new e noleaf names kept here =
      let u = v + 4096 - 0x20_0000 in
      let block = same_block v end in
      let first = first_of_block v end in
      let sames =
        same_item (new table) (old table) (vaddr_to_index v 3) (kept (vaddr_to_index v 3)) in
      let at = (λ k. new next (first k)) ∙ here in
      let fits : p + 4096 < usize_mod = small in
      let aligned : (p + 4096) % 4096 ≡ 0 = omega (arith, hp) in
      let there =
        item_present-item (p + 4096) prot fits flags (new next) (vaddr_to_index u 4) at
        ∙ ground (arith, present) in
      let isleaf =
        item_leaf-item (p + 4096) prot fits flags (new next) (vaddr_to_index u 4) at present
        ∙ rw leaf refl in
      query_loop-below 1 u 3 table new (ap (item_present (new table)) block ∙ sames.0 ∙ e)
        (ap (item_leaf (new table)) block ∙ sames.1 ∙ noleaf)
      ∙ ap (λ (t : ℕ). query_loop 1 u 4 t new)
          (ap (below new table) block
            ∙ same_below new old table (vaddr_to_index v 3) (kept (vaddr_to_index v 3))
            ∙ names)
      ∙ query_loop-leaf 0 u 4 next new there isleaf
      ∙ (λ k. ok (
        pfn_to_pa-item (p + 4096) prot fits flags (new next) (vaddr_to_index u 4) at aligned k,
        pte_to_prot-item (p + 4096) prot fits flags (new next) (vaddr_to_index u 4) at k,
      ))

-- Map two pages in one call at level 3 where the first is the last page of a block of 2 MiB, for
-- aligned addresses that do not wrap and flags as of a leaf. If the item of the block names a
-- table other than its own, with items 511 and 0 absent, and the block after has no item, then the call
-- returns 8192; but the second page is found 2 MiB below its address, at the first page of the same block,
-- and a query of its own address finds nothing.
pub map_page_table-query_loop :
    {S : Type 0} (A : PageAllocator S) (v p prot : ℕ)
    → v % 4096 ≡ 0
    → p % 4096 ≡ 0
    → p + 4096 < usize_mod
    → v + 4096 < usize_mod
    → prot < 1024
    → prot % 2 ≡ 1
    → (prot % 16 == 1) ≡ false
    → v / 4096 % 512 ≡ 511
    → (table : ℕ) (m : Mmu S) → item_present (m.tables table) (vaddr_to_index v 3) ≡ true
    → item_leaf (m.tables table) (vaddr_to_index v 3) ≡ false
    → below m.tables table (vaddr_to_index v 3) ≢ table
    → item_present (m.tables (below m.tables table (vaddr_to_index v 3))) 511 ≡ false
    → item_present (m.tables (below m.tables table (vaddr_to_index v 3))) 0 ≡ false
    → item_present (m.tables table) (vaddr_to_index (v + 4096) 3) ≡ false
    → ((m' : Mmu S) × (map_page_table A 2 v p 8192 prot 3 table m ≡ (ok 8192, m'))
        × (query_loop 2 (v + 4096 - 0x20_0000) 3 table m'.tables ≡ ok (p + 4096, prot))
        × (query_loop 2 (v + 4096) 3 table m'.tables ≡ err not_found))
unfolding continue_with
map_page_table-query_loop A v p prot hv hp small high flags present leaf end table m e noleaf ne gap
      gap' none_after =
    let next = below m.tables table (vaddr_to_index v 3) in
    let m' = twice A v p prot hv hp small high flags present leaf end next m gap gap' in
    let index = vaddr_to_index v 3 in
    let step = unrolled A v p prot hv hp small high flags present leaf end 1 3 table m in
    let over =
      across A v p prot hv hp small high flags present leaf end (map_page_table A 1) table next m
        (next_table-below A table index m e noleaf) in
    let rounds = two_rounds A v p prot hv hp small high flags present leaf end next m gap gap' in
    let kept = λ (i : ℕ).
      twice_other A v p prot hv hp small high flags present leaf end next m gap gap' table i
        (λ q. ne (sym q)) in
    let here = twice_here A v p prot hv hp small high flags present leaf end next m gap gap' in
    (
      m',
      step ∙ over ∙ rw rounds refl,
      found_below v p prot hp small flags present leaf end table next m.tables m'.tables e noleaf
          refl kept here,
      query_loop-absent 1 (v + 4096) 3 table m'.tables (
          (same_item (m'.tables table) (m.tables table) (vaddr_to_index (v + 4096) 3)
            (kept (vaddr_to_index (v + 4096) 3))).0
          ∙ none_after),
    )
