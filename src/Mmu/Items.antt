-- ===== src/Mmu/Items.antt =====
-- kernel/src/arch/riscv64/mmu.rs: the fields of an item that `mk_item` writes.
use Prim.Native.Nat.{bit_and, bit_or}
use score.Base.{ℕ, ◌+◌, ◌-◌, ◌*◌, ◌/◌, ◌%◌, ◌^◌, ◌<◌, ◌≡◌, ap, ◌∙◌, true, not, ◌==◌, arith}
use score.Base.Word.{usize_mod, wshl, wshr}
use score.Base.Bits.{bit_and_step, bit_and_mask, bit_or-fields}
use score.Mmu.{PageTable, item_present, item_leaf, item_descend, pfn_to_pa, pte_to_pfn, pte_to_prot}

-- The item that `mk_item` writes for a physical address.
unfoldable pub item : ℕ → ℕ → ℕ
item pa prot = bit_or (wshl (wshr pa 12) 10) prot

pub item_lem : (pa prot : ℕ) → pa < usize_mod → prot < 1024 → item pa prot ≡ pa / 4096 * 1024 + prot
unfolding item wshl wshr
item_lem pa prot h g =
    let e : pa / 4096 * 1024 % usize_mod ≡ pa / 4096 * 2 ^ 10 = omega (arith, h) in
    rw e (bit_or-fields 10 (pa / 4096) prot g)

leaf_bits : (a : ℕ) → bit_and a 14 ≡ a % 16 - a % 2
leaf_bits a = omega (arith, bit_and_step a 14, bit_and_mask 3 (a / 2))

module _ (pa prot : ℕ) (small : pa < usize_mod) (flags : prot < 1024) (table : PageTable)
    (index : ℕ) (e : table index ≡ item pa prot) where
  value : table index ≡ pa / 4096 * 1024 + prot
  value = e ∙ item_lem pa prot small flags

  pub item_present-item : item_present table index ≡ (prot % 2 == 1)
  unfolding item_present
  item_present-item = ap (λ (t : ℕ). t == 1) (bit_and_mask 1 (table index) ∙ omega (arith, value))

  pub item_leaf-item : prot % 2 ≡ 1 → item_leaf table index ≡ not (prot % 16 == 1)
  unfolding item_leaf
  item_leaf-item h =
      let present : item_present table index ≡ true = item_present-item ∙ ground arith in
      let bits : bit_and (table index) 14 ≡ prot % 16 - prot % 2 =
        leaf_bits (table index) ∙ omega (arith, value) in
      rw (present, bits) (ground arith)

  pub item_descend-item : pa % 4096 ≡ 0 → item_descend table index ≡ pa
  unfolding item_descend wshl wshr
  item_descend-item h =
      let pfn : table index / 1024 ≡ pa / 4096 = omega (arith, value) in
      rw pfn (omega (arith, h, small))

  pub pfn_to_pa-item : pa % 4096 ≡ 0 → pfn_to_pa (pte_to_pfn (table index)) ≡ pa
  unfolding pfn_to_pa pte_to_pfn wshl wshr
  pfn_to_pa-item h =
      let pfn : table index / 1024 ≡ pa / 4096 = omega (arith, value) in
      rw pfn (omega (arith, h, small))

  pub pte_to_prot-item : pte_to_prot (table index) ≡ prot
  unfolding pte_to_prot wshl
  pte_to_prot-item = bit_and_mask 10 (table index) ∙ omega (arith, value, flags)
