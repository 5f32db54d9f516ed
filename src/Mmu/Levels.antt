-- ===== src/Mmu/Levels.antt =====
-- kernel/src/arch/riscv64/mmu.rs: what map_page_table does with one page, level by level.
use Prim.Native.Nat.{bit_and, bit_or}
use score.Base.{
  ℕ, zero, suc, ◌+◌, ◌*◌, ◌/◌, ◌%◌, ◌<◌, ◌≤◌, min, ◌≡◌, refl, sym, ap, ◌∙◌, Bool, true, false, not,
  ◌||◌, ◌==◌, arith, if◌then◌else◌, ok, err, already_exists, ltb, Bool-cases, inl, inr,
}
use score.Base.Word.{wshl, wshr, wnot}
use score.Base.Bits.{bit_and_mask}
use score.Base.Flags.{bit_or-mod}
use score.Mmu.{
  PageAllocator, Mmu, MapTable, continue_with, level_size, level_shift, level_mask, vaddr_to_index,
  item_present, mk_item, next_table, pa_to_pfn, map_chunk, map_chunks, map_page_table,
}

level_size-page : (level : ℕ) → level < 4 → 4096 < level_size level
unfolding level_size level_shift wshl
level_size-page zero h = omega arith
level_size-page (suc zero) h = omega arith
level_size-page (suc (suc zero)) h = omega arith
level_size-page (suc (suc (suc zero))) h = omega arith
level_size-page (suc (suc (suc (suc level)))) h = absurd (omega arith)

pub level_size_last : level_size 4 ≡ 4096
unfolding level_size level_shift wshl
level_size_last = refl

chunk_lem : (level : ℕ) → level ≤ 4 → min 4096 (level_size level) ≡ 4096
chunk_lem level h = elim (Bool-cases (ltb level 4)) [
  | inl e ↦ omega (arith, level_size-page level (ground arith))
  | inr e ↦ let last : level ≡ 4 = ground arith in rw last (omega (arith, level_size_last))
]

aligned : (v p : ℕ) → v % 4096 ≡ 0 → p % 4096 ≡ 0 → bit_and (bit_or v p) 4095 ≡ 0
aligned v p h g = bit_and_mask 12 (bit_or v p) ∙ bit_or-mod 12 v p h g

pub any : (a b c : Bool) → b ≡ true → (a || b || c) ≡ true
any true b c e = refl
any false b c e = rw e refl

module _ {S : Type 0} (A : PageAllocator S) (v p prot : ℕ) (hv : v % 4096 ≡ 0)
    (hp : p % 4096 ≡ 0) where
  -- At the last level, the item of the page, unless there is one.
  pub map_chunk-last :
      (lower : MapTable A) (table : ℕ) (m : Mmu S)
      → map_chunk A lower v p 4096 prot 4 table m ≡ (
          if item_present (m.tables table) (vaddr_to_index v 4) then (err already_exists, m) else (
            ok 4096,
            record m { tables = mk_item table (vaddr_to_index v 4) (pa_to_pfn p) prot m.tables },
          ))
  unfolding map_chunk level_size level_shift level_mask wshl
  map_chunk-last lower table m = rw (aligned v p hv hp) refl

  -- Above it, the call one level down.
  pub map_chunk-above :
      (lower : MapTable A) (level table : ℕ) (m : Mmu S)
      → level < 4
      → map_chunk A lower v p 4096 prot level table m
        ≡ continue_with
            (next_table A table (vaddr_to_index v level) m)
            (λ next m'. lower v p 4096 prot (level + 1) next m')
  unfolding map_chunk
  map_chunk-above lower level table m h =
      let other : (4096 == level_size level) ≡ false = ground (arith, level_size-page level h) in
      let shape = λ (a c : Bool). any a (not (4096 == level_size level)) c (rw other refl) in
      rw
        (shape (not (bit_and (bit_or v p) (wnot (level_mask level)) == 0))
          (ltb 30 (level_shift level)))
        refl

  -- A page takes one round.
  pub map_page_table-page :
      (levels level table : ℕ) (m : Mmu S)
      → level ≤ 4
      → map_page_table A (suc levels) v p 4096 prot level table m
        ≡ continue_with
            (map_chunk A (map_page_table A levels) v p 4096 prot level table m)
            (λ mapped m'. (ok 4096, m'))
  unfolding map_page_table map_chunks
  map_page_table-page levels level table m h =
      let ok_args : bit_and (bit_or (bit_or v p) 4096) 4095 ≡ 0 =
        bit_and_mask 12 (bit_or (bit_or v p) 4096)
        ∙ bit_or-mod 12 (bit_or v p) 4096 (bit_or-mod 12 v p hv hp) refl in
      let chunk : min 4096 (level_size level) ≡ 4096 = chunk_lem level h in rw (ok_args, chunk) refl

-- The number of the item that an address has among all items of its level.
unfoldable pub slot : ℕ → ℕ → ℕ
slot u level = wshr u (level_shift level)

pub slot-suc : (u level : ℕ) → level < 4 → slot u (suc level) / 512 ≡ slot u level
unfolding slot level_shift wshr
slot-suc u zero h = omega arith
slot-suc u (suc zero) h = omega arith
slot-suc u (suc (suc zero)) h = omega arith
slot-suc u (suc (suc (suc zero))) h = omega arith
slot-suc u (suc (suc (suc (suc level)))) h = absurd (omega arith)

pub slot_last : (u : ℕ) → slot u 4 ≡ u / 4096
unfolding slot level_shift wshr
slot_last u = refl

pub vaddr_to_index-slot :
    (u level : ℕ) → slot u level / 512 * 512 + vaddr_to_index u level ≡ slot u level
unfolding slot vaddr_to_index
vaddr_to_index-slot u level = omega (arith, bit_and_mask 9 (wshr u (level_shift level)))

-- The number of the table that the item of an address names.
pub number_below :
    (u level number : ℕ)
    → level < 4
    → number ≡ slot u level / 512
    → number * 512 + vaddr_to_index u level ≡ slot u (level + 1) / 512
number_below u level number low e =
    let next : level + 1 ≡ suc level = omega arith in
    ap (λ (n : ℕ). n * 512 + vaddr_to_index u level) e
    ∙ vaddr_to_index-slot u level
    ∙ sym (slot-suc u level low)
    ∙ ap (λ (l : ℕ). slot u l / 512) (sym next)
