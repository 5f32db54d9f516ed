-- ===== src/Mmu/Tree.antt =====
-- kernel/src/arch/riscv64/mmu.rs: tables that form a tree. Each table in use has a level and the
-- number of the item that names it among all items of the level above; a table whose level is
-- above 4 is not in use.
use score.Base.{
  ℕ, suc, ◌+◌, ◌*◌, ◌%◌, ◌<◌, ◌≤◌, ◌≡◌, ◌≢◌, ◌⊎◌, inl, inr, refl, true, false, ◌==◌, arith,
  if◌then◌else◌, ok, err, already_exists, Bool-cases, List, [], ◌∷◌, All,
}
use score.Base.Word.{usize_mod}
use score.Physmap.{paddr_to_physmap}
use score.Mmu.{
  PageAllocator, Mmu, Tables, continue_with, cache_alloc_page, alloc_page_table, new_table,
  item_present, item_leaf, item_descend, mk_item, next_table, pa_to_pfn, arch_zero_page,
}

pub record Shape : Type 0 where
  pub level : ℕ → ℕ
  pub number : ℕ → ℕ

-- The table that an item names.
unfoldable pub below : Tables → ℕ → ℕ → ℕ
below tables t i = paddr_to_physmap (item_descend (tables t) i)

-- Every item that is present is a leaf, or names a table of the next level at its place.
unfoldable pub IsTree : Shape → Tables → Type 0
IsTree s tables =
    (t i : ℕ)
    → s.level t ≤ 4
    → item_present (tables t) i ≡ true
    → (item_leaf (tables t) i ≡ true)
      ⊎ ((s.level t < 4)
          × (item_leaf (tables t) i ≡ false)
          × (s.level (below tables t i) ≡ suc (s.level t))
          × (s.number (below tables t i) ≡ s.number t * 512 + i))

-- Pages for new tables: aligned, not in use, and no page twice.
abbrev pub Spare : Shape → List ℕ → Type 0
Spare s [] = Unit
Spare s (pa ∷ xs) =
    (pa < usize_mod)
    × (pa % 4096 ≡ 0)
    × (5 ≤ s.level (paddr_to_physmap pa))
    × All (λ q. pa ≢ q) xs
    × Spare s xs

-- The table `t` comes into use.
unfoldable pub use_table : ℕ → ℕ → ℕ → Shape → Shape
use_table t level number s = record {
  level = λ x. if x == t then level else s.level x;
  number = λ x. if x == t then number else s.number x;
}

paddr_to_physmap-inj :
    (p q : ℕ) → p < usize_mod → q < usize_mod → paddr_to_physmap p ≡ paddr_to_physmap q → p ≡ q
unfolding paddr_to_physmap
paddr_to_physmap-inj p q h g e = omega (arith, h, g, e)

pub Spare-use_table :
    (pa level number : ℕ) (s : Shape) (xs : List ℕ)
    → pa < usize_mod
    → All (λ q. pa ≢ q) xs
    → Spare s xs
    → Spare (use_table (paddr_to_physmap pa) level number s) xs
unfolding use_table
Spare-use_table pa level number s [] h ne sp = tt
Spare-use_table pa level number s (q ∷ xs) h ne sp =
    let other : (paddr_to_physmap q == paddr_to_physmap pa) ≡ false =
      elim (Bool-cases (paddr_to_physmap q == paddr_to_physmap pa)) [
        | inl e ↦ absurd (ne.0 (paddr_to_physmap-inj pa q h sp.0 (ground arith)))
        | inr e ↦ e
      ] in
    (sp.0, sp.1, rw other sp.2, sp.3, Spare-use_table pa level number s xs h ne.1 sp.4)

-- The tables after a new one is put at an item.
unfoldable pub grown : ℕ → ℕ → ℕ → Tables → Tables
grown table index pa tables =
    mk_item table index (pa_to_pfn pa) 1 (arch_zero_page (paddr_to_physmap pa) tables)

module _ {S : Type 0} (A : PageAllocator S) where
  -- Where there is no item, the first page of the allocator becomes the table below.
  pub next_table-new :
      (table index pa : ℕ) (xs : List ℕ) (m : Mmu S)
      → item_present (m.tables table) index ≡ false
      → A.Gives m.source (pa ∷ xs)
      → ((source : S) × (next_table A table index m ≡ (
        ok (paddr_to_physmap pa),
        record { tables = grown table index pa m.tables; source = source },
      ))
          × A.Gives source xs)
  unfolding next_table new_table alloc_page_table cache_alloc_page continue_with grown
  next_table-new table index pa xs m e g =
      let (page, next, ran, nonzero, at, gives) = A.gives_next m.source pa xs 5 g in
      (A.set_state page 5 next, rw (e, ran, nonzero, at) refl, gives)

  pub next_table-leaf :
      (table index : ℕ) (m : Mmu S)
      → item_leaf (m.tables table) index ≡ true
      → item_present (m.tables table) index ≡ true
      → next_table A table index m ≡ (err already_exists, m)
  unfolding next_table
  next_table-leaf table index m e f = rw (f, e) refl

  pub next_table-below :
      (table index : ℕ) (m : Mmu S)
      → item_present (m.tables table) index ≡ true
      → item_leaf (m.tables table) index ≡ false
      → next_table A table index m ≡ (ok (below m.tables table index), m)
  unfolding next_table below
  next_table-below table index m f e = rw (f, e) refl
