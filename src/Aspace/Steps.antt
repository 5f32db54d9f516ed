-- ===== src/Aspace/Steps.antt =====
-- kernel/src/arch/riscv64/mmu.rs and aspace.rs: one level of map_page_table for a page, and of a query.
use score.Base.{
  ℕ, suc, ◌+◌, ◌/◌, ◌%◌, ◌<◌, ◌≤◌, ◌≡◌, ◌⊎◌, inl, inr, refl, ap, ◌∙◌, true, false, ◌==◌, arith,
  Bool-cases, List, length, ok, err, already_exists, not_found,
}
use score.Base.Word.{usize_mod}
use score.Physmap.{paddr_to_physmap}
use score.Mmu.{
  PageAllocator, Mmu, Tables, continue_with, vaddr_to_index, item_present, item_leaf, item_descend,
  mk_item, pa_to_pfn, next_table, map_page_table, pfn_to_pa, pte_to_pfn, pte_to_prot,
}
use score.Mmu.Items.{item_present-item, item_leaf-item, pfn_to_pa-item, pte_to_prot-item}
use score.Mmu.Levels.{map_chunk-last, map_chunk-above, map_page_table-page, slot}
use score.Mmu.Tree.{Shape, IsTree, Spare, below}
use score.Mmu.Grown.{mk_item_here, same_item, IsTree-mk_item, IsTree-last}
use score.Mmu.Grows.{same, added, Grows, Grows-trans, Grows-leaf}
use score.Aspace.{query_loop}

-- One level of the walk.
pub query_loop-absent :
    (levels v level table : ℕ) (tables : Tables)
    → item_present (tables table) (vaddr_to_index v level) ≡ false
    → query_loop (suc levels) v level table tables ≡ err not_found
unfolding query_loop
query_loop-absent levels v level table tables e = rw e refl

pub query_loop-leaf :
    (levels v level table : ℕ) (tables : Tables)
    → item_present (tables table) (vaddr_to_index v level) ≡ true
    → item_leaf (tables table) (vaddr_to_index v level) ≡ true
    → query_loop (suc levels) v level table tables
      ≡ ok (
        pfn_to_pa (pte_to_pfn (tables table (vaddr_to_index v level))),
        pte_to_prot (tables table (vaddr_to_index v level)),
      )
unfolding query_loop
query_loop-leaf levels v level table tables e f = rw (e, f) refl

pub query_loop-below :
    (levels v level table : ℕ) (tables : Tables)
    → item_present (tables table) (vaddr_to_index v level) ≡ true
    → item_leaf (tables table) (vaddr_to_index v level) ≡ false
    → query_loop (suc levels) v level table tables
      ≡ query_loop levels v (level + 1) (below tables table (vaddr_to_index v level)) tables
unfolding query_loop below item_descend pfn_to_pa pte_to_pfn
query_loop-below levels v level table tables e f = rw (e, f) refl

pub same_below : (new old : Tables) (t i : ℕ) → new t i ≡ old t i → below new t i ≡ below old t i
unfolding below
same_below new old t i e = ap paddr_to_physmap (same_item (new t) (old t) i e).2

module _ {S : Type 0} (A : PageAllocator S) (v p prot : ℕ) where
  -- The page is mapped: the state after, its shape, and what the allocator gives from there on.
  pub record Maps (levels level table : ℕ) (s : Shape) (xs : List ℕ) (m : Mmu S) : Type 0 where
    pub after : Mmu S
    pub shape : Shape
    pub rest : List ℕ
    pub ran : map_page_table A levels v p 4096 prot level table m ≡ (ok 4096, after)
    pub tree : IsTree shape after.tables
    pub gives : A.Gives after.source rest
    pub spare : Spare shape rest
    pub cost : length xs + level ≤ length rest + 4
    pub grows : Grows v s shape m.tables after.tables
    pub found : query_loop levels v level table after.tables ≡ ok (p, prot)

  -- The page was mapped before: nothing changes.
  pub record Refuses (levels level table : ℕ) (m : Mmu S) : Type 0 where
    pub ran : map_page_table A levels v p 4096 prot level table m ≡ (err already_exists, m)
    pub was : ℕ × ℕ
    pub found : query_loop levels v level table m.tables ≡ ok was

  module _ (hv : v % 4096 ≡ 0) (hp : p % 4096 ≡ 0) (small : p < usize_mod) (flags : prot < 1024)
      (present : prot % 2 ≡ 1) (leaf : (prot % 16 == 1) ≡ false) where
    pub last_level :
        (table : ℕ) (s : Shape) (xs : List ℕ) (m : Mmu S)
        → s.level table ≡ 4
        → s.number table ≡ slot v 4 / 512
        → IsTree s m.tables
        → A.Gives m.source xs
        → Spare s xs
        → Maps 1 4 table s xs m ⊎ Refuses 1 4 table m
    unfolding continue_with
    last_level table s xs m last number tree gives spare =
        let step = map_page_table-page A v p prot hv hp 0 4 table m (omega arith) in
        let chunk = map_chunk-last A v p prot hv hp (map_page_table A 0) table m in
        elim (Bool-cases (item_present (m.tables table) (vaddr_to_index v 4))) [
          | inl e ↦ inr (record {
            ran = step ∙ rw (chunk, e) refl;
            was = (
              pfn_to_pa (pte_to_pfn (m.tables table (vaddr_to_index v 4))),
              pte_to_prot (m.tables table (vaddr_to_index v 4)),
            );
            found =
                query_loop-leaf 0 v 4 table m.tables e
                  (IsTree-last s m.tables table (vaddr_to_index v 4) tree last e);
          })
          | inr e ↦
              let index = vaddr_to_index v 4 in
              let tables = mk_item table index (pa_to_pfn p) prot m.tables in
              let here = mk_item_here table index p prot m.tables in
              let there : item_present (tables table) index ≡ true =
                item_present-item p prot small flags (tables table) index here
                ∙ ground (arith, present) in
              let isleaf : item_leaf (tables table) index ≡ true =
                item_leaf-item p prot small flags (tables table) index here present
                ∙ rw leaf refl in
              inl (record {
                after = record m { tables = tables };
                shape = s;
                rest = xs;
                ran = step ∙ rw (chunk, e) refl;
                tree = IsTree-mk_item s m.tables table index p prot isleaf tree;
                gives = gives;
                spare = spare;
                cost = omega arith;
                grows = Grows-leaf v prot s m.tables table p last number e isleaf;
                found = query_loop-leaf 0 v 4 table tables there isleaf ∙ (λ k. ok (
                  pfn_to_pa-item p prot small flags (tables table) index here hp k,
                  pte_to_prot-item p prot small flags (tables table) index here k,
                ));
              })
        ]

    -- One level above, from what the call below came to.
    pub above_level :
        (levels level table next : ℕ) (s s' : Shape) (xs ys : List ℕ) (m m' : Mmu S)
        → level < 4
        → next_table A table (vaddr_to_index v level) m ≡ (ok next, m')
        → s'.level table ≤ 4
        → item_present (m'.tables table) (vaddr_to_index v level) ≡ true
        → item_leaf (m'.tables table) (vaddr_to_index v level) ≡ false
        → below m'.tables table (vaddr_to_index v level) ≡ next
        → Grows v s s' m.tables m'.tables
        → length xs ≤ suc (length ys)
        → Maps levels (level + 1) next s' ys m'
        → Maps (suc levels) level table s xs m
    unfolding continue_with
    above_level levels level table next s s' xs ys m m' low at low' e f names grows fewer r =
        let index = vaddr_to_index v level in
        let kept : r.after.tables table index ≡ m'.tables table index =
          elim (r.grows.entry table index (omega (arith, r.grows.extends.level table low', low'))) [
            | same _ q ↦ q
            | added (inl new) on ↦ absurd (omega (arith, new, low'))
            | added (inr gap) on ↦ absurd (ground arith)
          ] in
        let sames = same_item (r.after.tables table) (m'.tables table) index kept in
        record {
          after = r.after;
          shape = r.shape;
          rest = r.rest;
          ran =
              map_page_table-page A v p prot hv hp levels level table m (omega (arith, low))
              ∙ rw
                  (
                    map_chunk-above A v p prot hv hp (map_page_table A levels) level table m low,
                    at,
                    r.ran,
                  )
                  refl;
          tree = r.tree;
          gives = r.gives;
          spare = r.spare;
          cost = omega (arith, r.cost, fewer);
          grows = Grows-trans v s s' r.shape m.tables m'.tables r.after.tables grows r.grows;
          found =
              query_loop-below levels v level table r.after.tables (sames.0 ∙ e) (sames.1 ∙ f)
              ∙ ap (λ (t : ℕ). query_loop levels v (level + 1) t r.after.tables)
                  (same_below (r.after.tables) m'.tables table index kept ∙ names)
              ∙ r.found;
        }
