-- ===== src/Aspace.antt =====
-- kernel/src/aspace.rs: the kernel's address space over the page tables; query_locked walks them. The
-- fuel is the number of levels; a walk that leaves the last level runs out of it.
pub mod Steps
pub mod Mapped
pub mod Others
pub mod Pages
pub mod Map
pub mod Crossing
pub mod Tests
use Prim.Native.Nat.{bit_and, bit_or}
use score.Base.{
  ℕ, zero, suc, ◌+◌, ◌-◌, ◌≤◌, Bool, true, false, not, ◌&&◌, leb, if◌then◌else◌, Outcome, ErrNo, ok,
  err, panic, already_exists, invalid_args, List, [], ◌∷◌, ◌==◌, ◌||◌, ◌>>=◌, ◌>>◌, zx_assert, ◌*◌,
  out_of_fuel, not_found, out_of_range,
}
use score.Base.Word.{wadd, wsub, wnot}
use score.Align.{page_size, is_page_aligned}
use score.Mmu.{
  PageAllocator, Mmu, continue_with, map_pages, page_kernel, Tables, vaddr_to_index, item_present,
  item_leaf, pte_to_pfn, pfn_to_pa, pte_to_prot, mmu_levels,
}
use score.Physmap.{paddr_to_physmap}

unfoldable pub query_loop : ℕ → ℕ → ℕ → ℕ → Tables → Outcome (ℕ × ℕ)
query_loop zero va level page_table tables = out_of_fuel
query_loop (suc fuel) va level page_table tables =
    let index = vaddr_to_index va level in
    let pte = tables page_table index in
    let pa = pfn_to_pa (pte_to_pfn pte) in
    let below = query_loop fuel va (level + 1) (paddr_to_physmap pa) tables in
    if item_present (tables page_table) index
    then (if item_leaf (tables page_table) index then ok (pa, pte_to_prot pte) else below)
    else err not_found

pub record VmAspace : Type 0 where
  pub base : ℕ
  pub size : ℕ

unfoldable pub is_valid_vaddr : VmAspace → ℕ → Bool
is_valid_vaddr a vaddr = leb a.base vaddr && leb vaddr (wsub (wadd a.base a.size) 1)

unfoldable pub query : VmAspace → ℕ → ℕ → Tables → Outcome (ℕ × ℕ)
query a swapper_pgd va tables =
    if not (is_valid_vaddr a va)
    then err out_of_range
    else query_loop mmu_levels va 0 swapper_pgd tables

abbrev pub perm_read : ℕ
perm_read = 8

abbrev pub perm_write : ℕ
perm_write = 16

abbrev pub perm_execute : ℕ
perm_execute = 32

pub data ExistingEntryAction : Type 0 where
  skip error : ExistingEntryAction

-- The first loop of `map`, over the first `count` addresses; to read past the last one panics.
unfoldable pub check_aligned : ℕ → List ℕ → Outcome (Unit {0})
check_aligned zero phys = ok tt
check_aligned (suc count) [] = panic
check_aligned (suc count) (paddr ∷ phys) =
    let rest = check_aligned count phys in
    zx_assert (is_page_aligned paddr)
    >> (if not (is_page_aligned paddr) then err invalid_args else rest)

-- What the second loop makes of the outcome of one page.
unfoldable pub existing : ExistingEntryAction → Outcome ℕ → Outcome (Unit {0})
existing action (ok mapped) = ok tt
existing skip (err already_exists) = ok tt
existing action (err e) = err e
existing action panic = panic
existing action out_of_fuel = out_of_fuel

module _ {S : Type 0} (A : PageAllocator S) (swapper_pgd : ℕ) where
  unfoldable pub map_each :
      ExistingEntryAction → ℕ → List ℕ → ℕ → Mmu S → Outcome (Unit {0}) × Mmu S
  unfolding continue_with existing
  map_each action zero phys v m = (ok tt, m)
  map_each action (suc count) [] v m = (panic, m)
  map_each action (suc count) (paddr ∷ phys) v m =
      continue_with (zx_assert (is_page_aligned paddr), m)
        (λ _ m.
          let (mapped, m') = map_pages A swapper_pgd v paddr page_size page_kernel m in
          continue_with (existing action mapped, m')
            (λ _ m'. map_each action count phys (wadd v page_size) m'))

  -- `VmAspace::map`.
  unfoldable pub map :
      VmAspace → ℕ → List ℕ → ℕ → ℕ → ExistingEntryAction → Mmu S → Outcome ℕ × Mmu S
  unfolding continue_with map_each
  map a vaddr phys count mmu_flags action m =
      if not (is_valid_vaddr a vaddr)
      then (err out_of_range, m)
      else continue_with (check_aligned count phys, m)
          (λ _ m.
            if bit_and mmu_flags perm_read == 0
            then (err invalid_args, m)
            else continue_with (zx_assert (is_page_aligned vaddr), m)
                (λ _ m.
                  if count == 0
                  then (ok 0, m)
                  else continue_with (map_each action count phys vaddr m) (λ _ m. (ok count, m))))

-- `mmu_prot_from_flags` of vm.rs, where the flags of a mapping of devices are 2.
unfoldable pub mmu_prot_from_flags : ℕ → Outcome ℕ
mmu_prot_from_flags mmu_flags =
    let readable = if not (bit_and mmu_flags perm_read == 0) then bit_or 0 2 else 0 in
    let writable =
      if not (bit_and mmu_flags perm_write == 0) then bit_or readable 4 else readable in
    if not (bit_and mmu_flags (wnot (bit_or (bit_or perm_read perm_write) 2)) == 0)
    then panic
    else ok writable

-- `VmAspace::protect`: `protect_pages` does nothing yet and succeeds.
unfoldable pub protect : VmAspace → ℕ → ℕ → ℕ → Outcome (Unit {0})
unfolding mmu_prot_from_flags is_valid_vaddr
protect a vaddr count mmu_flags =
    if not (is_valid_vaddr a vaddr)
    then err invalid_args
    else if not (is_page_aligned vaddr)
    then err invalid_args
    else if bit_and mmu_flags perm_read == 0
    then err invalid_args
    else if not (bit_and mmu_flags perm_execute == 0)
    then panic
    else mmu_prot_from_flags mmu_flags >>= λ prot. ok tt
