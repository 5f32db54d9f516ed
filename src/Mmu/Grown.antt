-- ===== src/Mmu/Grown.antt =====
-- kernel/src/arch/riscv64/mmu.rs: a new table, or a leaf, keeps the tables a tree.
use score.Base.{
  ℕ, suc, ◌+◌, ◌*◌, ◌%◌, ◌<◌, ◌≤◌, ◌≡◌, ◌≢◌, ◌⊎◌, inl, inr, refl, sym, ap, ◌∙◌, true, false, ◌&&◌,
  ◌==◌, arith, Bool-cases,
}
use score.Base.Word.{usize_mod}
use score.Physmap.{paddr_to_physmap}
use score.Mmu.{Tables, item_present, item_leaf, item_descend, mk_item, pa_to_pfn, arch_zero_page}
use score.Mmu.Items.{item, item_present-item, item_leaf-item, item_descend-item}
use score.Mmu.Tree.{IsTree, Shape, below, grown, use_table}

-- An item of the tables after: of the new table, the one that names it, or as before.
pub grown_cases :
    (table index pa : ℕ) (tables : Tables) (t i : ℕ)
    → table ≢ paddr_to_physmap pa
    → ((t ≡ paddr_to_physmap pa) × (grown table index pa tables t i ≡ 0))
      ⊎ (((t ≡ table) × (i ≡ index) × (grown table index pa tables t i ≡ item pa 1))
          ⊎ ((t ≢ paddr_to_physmap pa) × (grown table index pa tables t i ≡ tables t i)))
unfolding grown mk_item arch_zero_page item pa_to_pfn
grown_cases table index pa tables t i ne = elim (Bool-cases (t == table)) [
  | inl e ↦ elim (Bool-cases (i == index)) [
    | inl f ↦ inr (inl (ground arith, ground arith, rw (e, f) refl))
    | inr f ↦
        let other : (t == paddr_to_physmap pa) ≡ false = ground (arith, ne) in
        inr (inr (ground (arith, ne), rw (e, f, other) refl))
  ]
  | inr e ↦ elim (Bool-cases (t == paddr_to_physmap pa)) [
    | inl f ↦ inl (ground arith, rw (e, f) refl)
    | inr f ↦ inr (inr (ground arith, rw (e, f) refl))
  ]
]

-- An item of the tables after `mk_item`.
pub mk_item_cases :
    (table index p prot : ℕ) (tables : Tables) (t i : ℕ)
    → ((t ≡ table)
        × (i ≡ index)
        × (mk_item table index (pa_to_pfn p) prot tables t i ≡ item p prot))
      ⊎ (mk_item table index (pa_to_pfn p) prot tables t i ≡ tables t i)
unfolding mk_item item pa_to_pfn
mk_item_cases table index p prot tables t i = elim (Bool-cases ((t == table) && (i == index))) [
  | inl e ↦ inl (ground arith, ground arith, rw e refl)
  | inr e ↦ inr (rw e refl)
]

pub mk_item_here :
    (table index p prot : ℕ) (tables : Tables)
    → mk_item table index (pa_to_pfn p) prot tables table index ≡ item p prot
unfolding mk_item item pa_to_pfn
mk_item_here table index p prot tables =
    let e : ((table == table) && (index == index)) ≡ true = ground arith in rw e refl

pub grown_here :
    (table index pa : ℕ) (tables : Tables) → grown table index pa tables table index ≡ item pa 1
unfolding grown
grown_here table index pa tables =
    mk_item_here table index pa 1 (arch_zero_page (paddr_to_physmap pa) tables)

pub grown_cleared :
    (table index pa i : ℕ) (tables : Tables)
    → table ≢ paddr_to_physmap pa
    → grown table index pa tables (paddr_to_physmap pa) i ≡ 0
grown_cleared table index pa i tables ne =
    elim (grown_cases table index pa tables (paddr_to_physmap pa) i ne) [
      | inl (at, e) ↦ e
      | inr (inl (at, place, e)) ↦ absurd (ne (sym at))
      | inr (inr (differs, e)) ↦ absurd (differs refl)
    ]

-- What is read of an item hangs on its value alone.
pub same_item :
    (u v : ℕ → ℕ) (i : ℕ)
    → u i ≡ v i
    → (item_present u i ≡ item_present v i)
      × (item_leaf u i ≡ item_leaf v i)
      × (item_descend u i ≡ item_descend v i)
unfolding item_present item_leaf item_descend
same_item u v i e = (rw e refl, rw e refl, rw e refl)

pub absent : (u : ℕ → ℕ) (i : ℕ) → u i ≡ 0 → item_present u i ≡ false
unfolding item_present
absent u i e = rw e refl

unfoldable pub grown_shape : Shape → ℕ → ℕ → ℕ → Shape
unfolding use_table
grown_shape s table index pa =
    use_table (paddr_to_physmap pa) (suc (s.level table)) (s.number table * 512 + index) s

module _ (s : Shape) (tables : Tables) (table index pa : ℕ) (small : pa < usize_mod)
    (aligned : pa % 4096 ≡ 0) (used : s.level table < 4)
    (spare : 5 ≤ s.level (paddr_to_physmap pa)) where
  pub grown_shape-other :
      (x : ℕ)
      → x ≢ paddr_to_physmap pa
      → ((grown_shape s table index pa).level x ≡ s.level x)
        × ((grown_shape s table index pa).number x ≡ s.number x)
  unfolding grown_shape use_table
  grown_shape-other x ne =
      let e : (x == paddr_to_physmap pa) ≡ false = ground (arith, ne) in (rw e refl, rw e refl)

  pub grown_shape_self :
      ((grown_shape s table index pa).level (paddr_to_physmap pa) ≡ suc (s.level table))
      × ((grown_shape s table index pa).number (paddr_to_physmap pa) ≡ s.number table * 512 + index)
  unfolding grown_shape use_table
  grown_shape_self =
      let e : (paddr_to_physmap pa == paddr_to_physmap pa) ≡ true = ground arith in
      (rw e refl, rw e refl)

  pub apart : (t : ℕ) → s.level t ≤ 4 → t ≢ paddr_to_physmap pa
  apart t h e = absurd (omega (arith, ap s.level e, spare, h))

  -- What the item that names the new table says.
  pub new_item :
      (u : ℕ → ℕ)
      → u index ≡ item pa 1
      → (item_present u index ≡ true)
        × (item_leaf u index ≡ false)
        × (paddr_to_physmap (item_descend u index) ≡ paddr_to_physmap pa)
  new_item u e = (
    item_present-item pa 1 small (omega arith) u index e,
    item_leaf-item pa 1 small (omega arith) u index e refl,
    ap paddr_to_physmap (item_descend-item pa 1 small (omega arith) u index e aligned),
  )

  pub IsTree-grown :
      IsTree s tables → IsTree (grown_shape s table index pa) (grown table index pa tables)
  unfolding IsTree below
  IsTree-grown tree t i h present =
      elim (grown_cases table index pa tables t i (apart table (omega (arith, used)))) [
        | inl (at, cleared) ↦
            let no = absent (grown table index pa tables t) i cleared in absurd (ground arith)
        | inr (inl (at, place, e)) ↦
            rw (at, place)
              (inr (named ((λ k. grown table index pa tables (sym at k) (sym place k)) ∙ e)))
        | inr (inr (ne, e)) ↦
            let same = same_item (grown table index pa tables t) (tables t) i e in
            let there = grown_shape-other t ne in
            elim (tree t i (omega (arith, h, there.0)) (sym same.0 ∙ present)) [
              | inl leaf ↦ inl (same.1 ∙ leaf)
              | inr (up, noleaf, level, number) ↦
                  let other =
                    grown_shape-other (below tables t i)
                      (apart (below tables t i) (omega (arith, up, level))) in
                  inr (
                    omega (arith, up, there.0),
                    same.1 ∙ noleaf,
                    ap (λ (x : ℕ). (grown_shape s table index pa).level (paddr_to_physmap x)) same.2
                        ∙ other.0
                        ∙ level
                        ∙ ap suc (sym there.0),
                    ap (λ (x : ℕ). (grown_shape s table index pa).number (paddr_to_physmap x))
                          same.2
                        ∙ other.1
                        ∙ number
                        ∙ ap (λ (n : ℕ). n * 512 + i) (sym there.1),
                  )
            ]
      ]
    where
      named :
          grown table index pa tables table index ≡ item pa 1
          → ((grown_shape s table index pa).level table < 4)
            × (item_leaf (grown table index pa tables table) index ≡ false)
            × ((grown_shape s table index pa).level
                  (below (grown table index pa tables) table index)
                ≡ suc ((grown_shape s table index pa).level table))
            × ((grown_shape s table index pa).number
                  (below (grown table index pa tables) table index)
                ≡ (grown_shape s table index pa).number table * 512 + index)
      named e =
          let same = grown_shape-other table (apart table (omega (arith, used))) in
          let self = grown_shape_self in
          let facts = new_item (grown table index pa tables table) e in
          (
            omega (arith, same.0, used),
            facts.1,
            ap (grown_shape s table index pa).level facts.2 ∙ self.0 ∙ ap suc (sym same.0),
            ap (grown_shape s table index pa).number facts.2
                ∙ self.1
                ∙ ap (λ (n : ℕ). n * 512 + index) (sym same.1),
          )

pub IsTree-mk_item :
    (s : Shape) (tables : Tables) (table index p prot : ℕ)
    → item_leaf (mk_item table index (pa_to_pfn p) prot tables table) index ≡ true
    → IsTree s tables
    → IsTree s (mk_item table index (pa_to_pfn p) prot tables)
unfolding IsTree below
IsTree-mk_item s tables table index p prot leaf tree t i h present =
    elim (mk_item_cases table index p prot tables t i) [
      | inl (at, place, e) ↦ rw (at, place) (inl leaf)
      | inr e ↦
          let same = same_item (mk_item table index (pa_to_pfn p) prot tables t) (tables t) i e in
          elim (tree t i h (sym same.0 ∙ present)) [
            | inl old ↦ inl (same.1 ∙ old)
            | inr (up, noleaf, level, number) ↦ inr (
              up,
              same.1 ∙ noleaf,
              ap (λ (x : ℕ). s.level (paddr_to_physmap x)) same.2 ∙ level,
              ap (λ (x : ℕ). s.number (paddr_to_physmap x)) same.2 ∙ number,
            )
          ]
    ]

pub IsTree-last :
    (s : Shape) (tables : Tables) (t i : ℕ)
    → IsTree s tables
    → s.level t ≡ 4
    → item_present (tables t) i ≡ true
    → item_leaf (tables t) i ≡ true
unfolding IsTree
IsTree-last s tables t i tree last present = elim (tree t i (omega (arith, last)) present) [
  | inl leaf ↦ leaf
  | inr (up, noleaf, level, number) ↦ absurd (omega (arith, last, up))
]
