-- ===== src/Physmap.antt =====
-- kernel/src/defines.rs: the window of the kernel's address space in which physical memory is mapped,
-- at the addresses that kernel/src/config_generated.rs gives. The addresses of the kernel image come
-- from the linker and the boot code and are arguments.
use score.Base.{
  ℕ, ◌+◌, ◌-◌, ◌≤◌, ◌<◌, ◌≡◌, refl, ◌⊎◌, inl, inr, Bool, true, false, not, ◌&&◌, arith, ltb, leb,
  Bool-cases, Outcome, ok, panic, ◌>>◌, zx_assert,
}
use score.Base.Word.{usize_mod, wadd, wsub}

abbrev pub kernel_aspace_base : ℕ
kernel_aspace_base = 0xffff_0000_0000_0000

abbrev pub physmap_base : ℕ
physmap_base = kernel_aspace_base

abbrev pub physmap_size : ℕ
physmap_size = 0x80_0000_0000

abbrev pub physmap_base_phys : ℕ
physmap_base_phys = 0

unfoldable pub is_physmap_addr : ℕ → Bool
is_physmap_addr va = leb physmap_base va && ltb (wsub va physmap_base) physmap_size

unfoldable pub is_physmap_phys_addr : ℕ → Bool
is_physmap_phys_addr pa = ltb (wsub pa physmap_base_phys) physmap_size

unfoldable pub paddr_to_physmap : ℕ → ℕ
paddr_to_physmap pa = wadd (wsub pa physmap_base_phys) physmap_base

unfoldable pub physmap_to_paddr : ℕ → Outcome ℕ
physmap_to_paddr va = do
  zx_assert (is_physmap_addr va)
  ok (wadd (wsub va physmap_base) physmap_base_phys)

unfoldable pub kernel_va_to_pa : ℕ → ℕ → ℕ → Outcome ℕ
kernel_va_to_pa kernel_base_virt kernel_base_phys va = do
  zx_assert (not (is_physmap_addr va))
  ok (wadd (wsub va kernel_base_virt) kernel_base_phys)

-- A physical address that the window covers goes to an address in the window and back; and
-- `kernel_va_to_pa` refuses that address.
pub physmap_roundtrip :
    (pa : ℕ)
    → pa < usize_mod
    → is_physmap_phys_addr pa ≡ true
    → (is_physmap_addr (paddr_to_physmap pa) ≡ true)
      × (physmap_to_paddr (paddr_to_physmap pa) ≡ ok pa)
      × ((virt phys : ℕ) → kernel_va_to_pa virt phys (paddr_to_physmap pa) ≡ panic)
unfolding is_physmap_phys_addr paddr_to_physmap physmap_to_paddr kernel_va_to_pa
physmap_roundtrip pa h e =
    let small : pa < physmap_size = ground arith in
    let up : wadd (wsub pa physmap_base_phys) physmap_base ≡ physmap_base + pa =
      omega (arith, small) in
    let there : is_physmap_addr (physmap_base + pa) ≡ true =
      unfold is_physmap_addr in ground (arith, small) in
    let back : wadd (wsub (physmap_base + pa) physmap_base) physmap_base_phys ≡ pa =
      omega (arith, small) in
    (rw up there, rw (up, there, back) refl, λ virt phys. rw (up, there) refl)

in_window :
    (va : ℕ)
    → va < usize_mod
    → is_physmap_addr va ≡ true
    → (physmap_base ≤ va) × (va - physmap_base < physmap_size)
unfolding is_physmap_addr
in_window va h e = ground arith

-- An address in the window goes to the physical address that is mapped there; any other panics.
pub physmap_to_paddr_lem :
    (va : ℕ)
    → va < usize_mod
    → ((pa : ℕ) × (physmap_to_paddr va ≡ ok pa)
        × (is_physmap_phys_addr pa ≡ true)
        × (paddr_to_physmap pa ≡ va))
      ⊎ ((is_physmap_addr va ≡ false) × (physmap_to_paddr va ≡ panic))
unfolding physmap_to_paddr is_physmap_phys_addr paddr_to_physmap
physmap_to_paddr_lem va h = elim (Bool-cases (is_physmap_addr va)) [
  | inl e ↦
      let (low, high) : (physmap_base ≤ va) × (va - physmap_base < physmap_size) =
        in_window va h e in
      inl (
        wadd (wsub va physmap_base) physmap_base_phys,
        rw e refl,
        ground (arith, low, high),
        ground (arith, low, high),
      )
  | inr e ↦ inr (e, rw e refl)
]
