-- ===== src/Aspace/Others.antt =====
-- kernel/src/arch/riscv64/mmu.rs and aspace.rs: what a query finds for the pages that map_pages does
-- not map.
use score.Base.{
  ℕ, zero, suc, ◌+◌, ◌*◌, ◌/◌, ◌<◌, ◌≤◌, ◌≡◌, ◌≢◌, inl, inr, sym, ap, ◌∙◌, true, arith, Bool-cases,
  Outcome, ok, err, not_found,
}
use score.Mmu.{Tables, vaddr_to_index, item_present, pfn_to_pa, pte_to_pfn, pte_to_prot}
use score.Mmu.Levels.{slot, slot_last, vaddr_to_index-slot, number_below}
use score.Mmu.Tree.{Shape, IsTree, below}
use score.Mmu.Grown.{same_item}
use score.Mmu.Grows.{same, added, Grows, OnPath}
use score.Aspace.{query_loop}
use score.Aspace.Steps.{query_loop-absent, query_loop-leaf, query_loop-below, same_below}

module _ (v u : ℕ) (s s' : Shape) (old new : Tables) (grows : Grows v s s' old new)
    (told : IsTree s old) (tnew : IsTree s' new) (differ : u / 4096 ≢ v / 4096) where
  -- An item on the path of both addresses is above the last level.
  meet :
      (level t : ℕ)
      → s'.level t ≡ level
      → s'.number t ≡ slot u level / 512
      → OnPath s s' new v t (vaddr_to_index u level)
      → level ≢ 4
  meet level t at number path last =
      let both : slot u level ≡ slot v level =
        sym (vaddr_to_index-slot u level)
        ∙ ap (λ (n : ℕ). n * 512 + vaddr_to_index u level) (sym number)
        ∙ path.place
        ∙ ap (slot v) at in
      differ (sym (slot_last u) ∙ ap (slot u) (sym last) ∙ both ∙ ap (slot v) last ∙ slot_last v)

  -- The walk of the other address in the new tables finds nothing.
  Blank : ℕ → ℕ → Type 0
  Blank levels level =
      (t : ℕ)
      → level ≤ 4
      → 5 ≤ s.level t
      → s'.level t ≡ level
      → s'.number t ≡ slot u level / 512
      → query_loop levels u level t new ≡ err not_found

  through_new :
      (levels level t : ℕ)
      → level ≤ 4
      → Blank levels (level + 1)
      → s'.level t ≡ level
      → s'.number t ≡ slot u level / 512
      → (item_present (new t) (vaddr_to_index u level) ≡ true
          → OnPath s s' new v t (vaddr_to_index u level))
      → query_loop (suc levels) u level t new ≡ err not_found
  unfolding Blank IsTree
  through_new levels level t low ih at number on =
      let index = vaddr_to_index u level in
      elim (Bool-cases (item_present (new t) index)) [
        | inr e ↦ query_loop-absent levels u level t new e
        | inl e ↦ elim ((on e).kind) [
          | inl (leaf, last) ↦ absurd (meet level t at number (on e) (sym at ∙ last))
          | inr (noleaf, unused) ↦ elim (tnew t index (omega (arith, at, low)) e) [
            | inl leaf ↦ absurd (ground arith)
            | inr (up, _, lv, num) ↦
                let up' : level < 4 = omega (arith, up, at) in
                query_loop-below levels u level t new e noleaf
                ∙ ih (below new t index) (omega (arith, up')) unused (omega (arith, lv, at))
                    (num ∙ number_below u level (s'.number t) up' number)
          ]
        ]
      ]

  new_walk : (levels level : ℕ) → levels + level ≡ 5 → Blank levels level
  unfolding Blank
  new_walk zero level sum t low fresh at number = absurd (omega arith)
  new_walk (suc levels) level sum t low fresh at number =
      through_new levels level t low (new_walk levels (level + 1) (omega (arith, sum))) at number
        (λ e. elim (grows.entry t (vaddr_to_index u level) (omega (arith, at, low))) [
          | same was q ↦ absurd (omega (arith, was, fresh))
          | added was on ↦ on e
        ])

  unfoldable pub Unchanged : ℕ → ℕ → Type 0
  Unchanged levels level =
      (t : ℕ)
      → level ≤ 4
      → s.level t ≡ level
      → s.number t ≡ slot u level / 512
      → query_loop levels u level t new ≡ query_loop levels u level t old

  through_old :
      (levels level t : ℕ)
      → level ≤ 4
      → Unchanged levels (level + 1)
      → s.level t ≡ level
      → s.number t ≡ slot u level / 512
      → new t (vaddr_to_index u level) ≡ old t (vaddr_to_index u level)
      → query_loop (suc levels) u level t new ≡ query_loop (suc levels) u level t old
  unfolding Unchanged IsTree
  through_old levels level t low ih at number q =
      let index = vaddr_to_index u level in
      let sames = same_item (new t) (old t) index q in
      elim (Bool-cases (item_present (old t) index)) [
        | inr e ↦
            query_loop-absent levels u level t new (sames.0 ∙ e)
            ∙ sym (query_loop-absent levels u level t old e)
        | inl e ↦ elim (told t index (omega (arith, at, low)) e) [
          | inl leaf ↦
              query_loop-leaf levels u level t new (sames.0 ∙ e) (sames.1 ∙ leaf)
              ∙ ap {B = Outcome (ℕ × ℕ)} (λ (x : ℕ). ok (pfn_to_pa (pte_to_pfn x), pte_to_prot x)) q
              ∙ sym (query_loop-leaf levels u level t old e leaf)
          | inr (up, noleaf, lv, num) ↦
              let up' : level < 4 = omega (arith, up, at) in
              query_loop-below levels u level t new (sames.0 ∙ e) (sames.1 ∙ noleaf)
              ∙ ap (λ (x : ℕ). query_loop levels u (level + 1) x new) (same_below new old t index q)
              ∙ ih (below old t index) (omega (arith, up')) (omega (arith, lv, at))
                  (num ∙ number_below u level (s.number t) up' number)
              ∙ sym (query_loop-below levels u level t old e noleaf)
        ]
      ]

  pub others : (levels level : ℕ) → levels + level ≡ 5 → Unchanged levels level
  unfolding Unchanged
  others zero level sum t low at number = absurd (omega arith)
  others (suc levels) level sum t low at number =
      let in_use : s.level t ≤ 4 = omega (arith, at, low) in
      let at' = grows.extends.level t in_use in
      elim (grows.entry t (vaddr_to_index u level) (omega (arith, at, low, at'))) [
        | same was q ↦
            through_old levels level t low (others levels (level + 1) (omega (arith, sum))) at
              number q
        | added (inl fresh) on ↦ absurd (omega (arith, fresh, at, low))
        | added (inr gap) on ↦
            through_new levels level t low (new_walk levels (level + 1) (omega (arith, sum)))
              (at' ∙ at) (grows.extends.number t in_use ∙ number) on
            ∙ sym (query_loop-absent levels u level t old gap)
      ]
