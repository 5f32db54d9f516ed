-- ===== src/Aspace/Mapped.antt =====
-- kernel/src/arch/riscv64/mmu.rs and aspace.rs: a page that map_pages maps is what a query finds.
use score.Base.{
  ℕ, zero, suc, ◌+◌, ◌*◌, ◌/◌, ◌%◌, ◌<◌, ◌≤◌, ◌≡◌, ◌≢◌, ◌⊎◌, inl, inr, refl, sym, ap, ◌∙◌, true,
  false, ◌==◌, arith, Bool-cases, List, [], ◌∷◌, length, ErrNo, ok, err,
}
use score.Base.Word.{usize_mod}
use score.Physmap.{paddr_to_physmap}
use score.Mmu.{
  PageAllocator, Mmu, continue_with, vaddr_to_index, item_present, map_page_table, pfn_to_pa,
  pte_to_pfn, pte_to_prot,
}
use score.Mmu.Levels.{map_chunk-above, map_page_table-page, slot, number_below}
use score.Mmu.Tree.{
  Shape, IsTree, Spare, Spare-use_table, below, grown, use_table, next_table-new, next_table-leaf,
  next_table-below,
}
use score.Mmu.Grown.{
  grown_shape, grown_shape_self, grown_here, grown_cleared, grown_shape-other, absent, IsTree-grown,
  new_item, apart,
}
use score.Mmu.Grows.{Grows-refl, Grows-grown}
use score.Aspace.Steps.{
  Maps, Refuses, query_loop-absent, query_loop-leaf, query_loop-below, last_level, above_level,
}

ok_is_not_err : {R : Type 0} {a : R} {e : ErrNo} → ok a ≢ err e
ok_is_not_err h = ground arith

module _ {S : Type 0} (A : PageAllocator S) (v p prot : ℕ) (hv : v % 4096 ≡ 0) (hp : p % 4096 ≡ 0)
    (small : p < usize_mod) (flags : prot < 1024) (present : prot % 2 ≡ 1)
    (leaf : (prot % 16 == 1) ≡ false) where
  -- What the call one level down needs, and what it comes to.
  unfoldable pub Below : ℕ → ℕ → Type 0
  Below levels level =
      (table : ℕ) (s : Shape) (xs : List ℕ) (m : Mmu S)
      → s.level table ≡ level
      → s.number table ≡ slot v level / 512
      → IsTree s m.tables
      → A.Gives m.source xs
      → Spare s xs
      → 4 ≤ level + length xs
      → Maps A v p prot levels level table s xs m ⊎ Refuses A v p prot levels level table m

  through_table :
      (levels level table : ℕ) (s : Shape) (xs : List ℕ) (m : Mmu S)
      → level < 4
      → Below (suc levels) (level + 1)
      → s.level table ≡ level
      → s.number table ≡ slot v level / 512
      → IsTree s m.tables
      → A.Gives m.source xs
      → Spare s xs
      → 4 ≤ level + length xs
      → item_present (m.tables table) (vaddr_to_index v level) ≡ true
      → Maps A v p prot (suc (suc levels)) level table s xs m
        ⊎ Refuses A v p prot (suc (suc levels)) level table m
  unfolding Below IsTree continue_with
  through_table levels level table s xs m low ih at number tree gives spare enough e =
      let index = vaddr_to_index v level in
      let next = below m.tables table index in
      let step =
        map_page_table-page A v p prot hv hp (suc levels) level table m (omega (arith, low)) in
      let chunk =
        map_chunk-above A v p prot hv hp (map_page_table A (suc levels)) level table m low in
      elim (tree table index (omega (arith, at, low)) e) [
        | inl f ↦ inr (record {
          ran = step ∙ rw (chunk, next_table-leaf A table index m f e) refl;
          was = (pfn_to_pa (pte_to_pfn (m.tables table index)), pte_to_prot (m.tables table index));
          found = query_loop-leaf (suc levels) v level table m.tables e f;
        })
        | inr (up, f, lv, num) ↦
            elim (ih next s xs m (omega (arith, lv, at))
              (num ∙ number_below v level (s.number table) low number) tree gives spare
              (omega (arith, enough))) [
                | inl r ↦ inl (
                    above_level A v p prot hv hp small flags present leaf (suc levels) level table
                      next s s xs xs m m low (next_table-below A table index m e f)
                      (omega (arith, at, low)) e f refl (Grows-refl v s m.tables) (omega arith) r)
                | inr r ↦ inr (record {
                  ran = step ∙ rw (chunk, next_table-below A table index m e f, r.ran) refl;
                  was = r.was;
                  found = query_loop-below (suc levels) v level table m.tables e f ∙ r.found;
                })
              ]
      ]

  through_new :
      (levels level table pa : ℕ) (s : Shape) (xs : List ℕ) (m : Mmu S)
      → level < 4
      → Below (suc levels) (level + 1)
      → s.level table ≡ level
      → s.number table ≡ slot v level / 512
      → IsTree s m.tables
      → A.Gives m.source (pa ∷ xs)
      → Spare s (pa ∷ xs)
      → 4 ≤ level + length (pa ∷ xs)
      → item_present (m.tables table) (vaddr_to_index v level) ≡ false
      → Maps A v p prot (suc (suc levels)) level table s (pa ∷ xs) m
  unfolding Below below grown_shape use_table
  through_new levels level table pa s xs m low ih at number tree gives
        (fit, aligned, unused, apart_from, spare) enough e =
      let index = vaddr_to_index v level in
      let next = paddr_to_physmap pa in
      let used : s.level table < 4 = omega (arith, at, low) in
      let (source, ran, gives') = next_table-new A table index pa xs m e gives in
      let m' : Mmu S = record { tables = grown table index pa m.tables; source = source } in
      let s' = grown_shape s table index pa in
      let self = grown_shape_self s m.tables table index pa fit aligned used unused in
      let grows = Grows-grown v s m.tables table pa level fit aligned at low unused number e in
      let away =
        apart s m.tables table index pa fit aligned used unused table (omega (arith, used)) in
      let kept = grown_shape-other s m.tables table index pa fit aligned used unused table away in
      let facts =
        new_item s m.tables table index pa fit aligned used unused (m'.tables table)
          (grown_here table index pa m.tables) in
      elim (ih next s' xs m' (omega (arith, self.0, at))
        (self.1 ∙ number_below v level (s.number table) low number)
        (IsTree-grown s m.tables table index pa fit aligned used unused tree) gives'
        (Spare-use_table pa (suc (s.level table)) (s.number table * 512 + index) s xs fit apart_from
          spare)
        (omega (arith, enough))) [
          | inl r ↦
              above_level A v p prot hv hp small flags present leaf (suc levels) level table next s
                s' (pa ∷ xs) xs m m' low ran (omega (arith, kept.0, used)) facts.0 facts.1 facts.2
                grows (omega arith) r
          | inr r ↦
              let blank =
                absent (m'.tables next) (vaddr_to_index v (level + 1))
                  (grown_cleared table index pa (vaddr_to_index v (level + 1)) m.tables away) in
              absurd (
                ok_is_not_err
                  (sym r.found ∙ query_loop-absent levels v (level + 1) next m'.tables blank))
        ]

  pub map_page_table_lem : (levels level : ℕ) → levels + level ≡ 5 → level ≤ 4 → Below levels level
  unfolding Below
  map_page_table_lem zero level sum low table s xs m at number tree gives spare enough =
      absurd (omega arith)
  map_page_table_lem (suc zero) level sum low table s xs m at number tree gives spare enough =
      let e : level ≡ 4 = omega (arith, sum) in
      rw e (
        last_level A v p prot hv hp small flags present leaf table s xs m (at ∙ e)
          (number ∙ ap (λ (l : ℕ). slot v l / 512) e) tree gives spare)
  map_page_table_lem (suc (suc levels)) level sum low table s xs m at number tree gives spare
        enough =
      let below4 : level < 4 = omega (arith, sum) in
      let ih =
        map_page_table_lem (suc levels) (level + 1) (omega (arith, sum)) (omega (arith, below4)) in
      elim (Bool-cases (item_present (m.tables table) (vaddr_to_index v level))) [
        | inl e ↦
            through_table levels level table s xs m below4 ih at number tree gives spare enough e
        | inr e ↦
            inl (some_page levels level table s xs m below4 ih at number tree gives spare enough e)
      ]
    where
      some_page :
          (levels level table : ℕ) (s : Shape) (xs : List ℕ) (m : Mmu S)
          → level < 4
          → Below (suc levels) (level + 1)
          → s.level table ≡ level
          → s.number table ≡ slot v level / 512
          → IsTree s m.tables
          → A.Gives m.source xs
          → Spare s xs
          → 4 ≤ level + length xs
          → item_present (m.tables table) (vaddr_to_index v level) ≡ false
          → Maps A v p prot (suc (suc levels)) level table s xs m
      some_page levels level table s [] m low ih at number tree gives spare enough e =
          absurd (omega (arith, enough))
      some_page levels level table s (pa ∷ xs) m low ih at number tree gives spare enough e =
          through_new levels level table pa s xs m low ih at number tree gives spare enough e
