-- ===== src/Aspace/Pages.antt =====
-- kernel/src/arch/riscv64/mmu.rs and aspace.rs: map_pages of a page, and the queries before and after.
use score.Base.{
  ℕ, ◌+◌, ◌/◌, ◌%◌, ◌<◌, ◌≤◌, ◌≡◌, ◌≢◌, ◌⊎◌, inl, inr, refl, sym, ◌∙◌, true, false, ◌==◌, arith,
  List, length, ok, err, already_exists, Bool-cases,
}
use score.Base.Word.{usize_mod}
use score.Mmu.{PageAllocator, Mmu, Tables, map_pages}
use score.Mmu.Levels.{slot}
use score.Mmu.Tree.{Shape, IsTree, Spare}
use score.Aspace.{VmAspace, query, query_loop, is_valid_vaddr}
use score.Aspace.Mapped.{Below, map_page_table_lem}
use score.Aspace.Others.{Unchanged, others}

-- The root covers the addresses whose bits from 57 on are `top`; the tables under it form a tree, and
-- the allocator has the pages `xs`, all of them out of use.
pub record IsReady {S : Type 0} (A : PageAllocator S) (root top : ℕ) (s : Shape) (xs : List ℕ)
    (m : Mmu S) : Type 0 where
  pub root_level : s.level root ≡ 0
  pub root_number : s.number root ≡ top
  pub tree : IsTree s m.tables
  pub gives : A.Gives m.source xs
  pub spare : Spare s xs

-- The bits of an address above those that the tables read.
abbrev pub top_bits : ℕ → ℕ
top_bits u = slot u 0 / 512

query-walk :
    (a : VmAspace) (root u : ℕ) (tables : Tables)
    → is_valid_vaddr a u ≡ true
    → query a root u tables ≡ query_loop 5 u 0 root tables
unfolding query
query-walk a root u tables e = rw e refl

query-same :
    (a : VmAspace) (root u : ℕ) (old new : Tables)
    → query_loop 5 u 0 root new ≡ query_loop 5 u 0 root old
    → query a root u new ≡ query a root u old
unfolding query
query-same a root u old new e = elim (Bool-cases (is_valid_vaddr a u)) [
  | inl f ↦ rw (f, e) refl
  | inr f ↦ rw f refl
]

-- Map a page that the root covers, at an aligned address of the address space, for an aligned physical address below
-- 2 ^ 64 and flags below 1024 with the present bit and one of read, write and execute. If the tables
-- form a tree and the allocator has four pages left, either the call returns 4096, a query then finds the
-- physical address and the flags, every query of another page that the root covers is as before, the
-- tables form a tree again and at most four pages were taken; or it returns AlreadyExists, changes nothing, and a query found a mapping
-- before.
pub map_pages-query :
    {S : Type 0} (A : PageAllocator S) (a : VmAspace) (root v p prot : ℕ) (s : Shape) (xs : List ℕ)
    (m : Mmu S)
    → v % 4096 ≡ 0
    → p % 4096 ≡ 0
    → p < usize_mod
    → prot < 1024
    → prot % 2 ≡ 1
    → (prot % 16 == 1) ≡ false
    → is_valid_vaddr a v ≡ true
    → IsReady A root (top_bits v) s xs m
    → 4 ≤ length xs
    → ((m' : Mmu S) × (s' : Shape) × (rest : List ℕ) × (map_pages A root v p 4096 prot m
          ≡ (ok 4096, m'))
        × (query a root v m'.tables ≡ ok (p, prot))
        × ((u : ℕ)
            → u / 4096 ≢ v / 4096
            → top_bits u ≡ top_bits v
            → query a root u m'.tables ≡ query a root u m.tables)
        × IsReady A root (top_bits v) s' rest m'
        × (length xs ≤ length rest + 4))
      ⊎ ((was : ℕ × ℕ) × (map_pages A root v p 4096 prot m ≡ (err already_exists, m))
          × (query a root v m.tables ≡ ok was))
unfolding map_pages Below Unchanged
map_pages-query A a root v p prot s xs m hv hp small flags present leaf valid ready enough =
    elim (map_page_table_lem A v p prot hv hp small flags present leaf 5 0 refl (omega arith) root s
      xs m ready.root_level ready.root_number ready.tree ready.gives ready.spare
      (omega (arith, enough))) [
        | inl r ↦
            let low : s.level root ≤ 4 = omega (arith, ready.root_level) in
            inl (
              r.after,
              r.shape,
              r.rest,
              r.ran,
              query-walk a root v r.after.tables valid ∙ r.found,
              (λ u differ top. query-same a root u m.tables r.after.tables (
                  others v u s r.shape m.tables r.after.tables r.grows ready.tree r.tree differ 5 0
                    refl root (omega arith) ready.root_level (ready.root_number ∙ sym top))),
              record {
                root_level = r.grows.extends.level root low ∙ ready.root_level;
                root_number = r.grows.extends.number root low ∙ ready.root_number;
                tree = r.tree;
                gives = r.gives;
                spare = r.spare;
              },
              omega (arith, r.cost),
            )
        | inr r ↦ inr (r.was, r.ran, query-walk a root v m.tables valid ∙ r.found)
      ]
