-- ===== src/Aspace/Map.antt =====
-- kernel/src/aspace.rs: VmAspace::map of several pages.
use Prim.Native.Nat.{bit_and}
use score.Base.{
  ℕ, zero, suc, ◌+◌, ◌*◌, ◌/◌, ◌%◌, ◌<◌, ◌≤◌, ◌≡◌, ◌≢◌, ◌⊎◌, inl, inr, refl, sym, ap, ◌∙◌, subst,
  true, false, ◌==◌, arith, List, [], ◌∷◌, some, get_elem?, All, length, Outcome, ok, err,
  already_exists,
}
use score.Base.Word.{usize_mod, wadd}
use score.Align.{is_page_aligned, is_aligned_lem, page_size-IsPower}
use score.Mmu.{PageAllocator, Mmu, continue_with, map_pages}
use score.Mmu.Tree.{Shape}
use score.Aspace.{VmAspace, error, query, is_valid_vaddr, existing, map_each, map, check_aligned}
use score.Aspace.Pages.{IsReady, top_bits, map_pages-query}

-- Each page of the range is an address of the space, under the items of the root.
abbrev pub InSpace : VmAspace → ℕ → ℕ → ℕ → Type 0
InSpace a top v count =
    (i : ℕ) → i < count → (is_valid_vaddr a (v + 4096 * i) ≡ true) × (top_bits (v + 4096 * i) ≡ top)

-- A page of physical memory.
abbrev pub IsFrame : ℕ → Type 0
IsFrame p = (p % 4096 ≡ 0) × (p < usize_mod)

module _ {S : Type 0} (A : PageAllocator S) (a : VmAspace) (root top : ℕ) where
  -- Every page of the list is mapped at its place; other pages are as before.
  pub record MapsAll (v : ℕ) (phys : List ℕ) (m : Mmu S) (m' : Mmu S) : Type 0 where
    pub shape : Shape
    pub rest : List ℕ
    pub ready : IsReady A root top shape rest m'
    pub found :
        (i p : ℕ) → get_elem? phys i ≡ some p → query a root (v + 4096 * i) m'.tables ≡ ok (p, 231)
    pub others :
        (u : ℕ)
        → (u / 4096 < v / 4096) ⊎ (v / 4096 + length phys ≤ u / 4096)
        → top_bits u ≡ top
        → query a root u m'.tables ≡ query a root u m.tables

  -- A page of the range was mapped before, and so the call stops.
  pub record Stops (v : ℕ) (phys : List ℕ) (m : Mmu S) : Type 0 where
    pub index : ℕ
    pub inside : index < length phys
    pub was : ℕ × ℕ
    pub found : query a root (v + 4096 * index) m.tables ≡ ok was

  Result : List ℕ → ℕ → Mmu S → Type 0
  Result phys v m =
      ((m' : Mmu S) × (map_each A root error (length phys) phys v m ≡ (ok tt, m'))
        × MapsAll v phys m m')
      ⊎ ((m' : Mmu S) × (map_each A root error (length phys) phys v m ≡ (err already_exists, m'))
          × Stops v phys m)

  aligned_page : (p : ℕ) → p % 4096 ≡ 0 → is_page_aligned p ≡ true
  unfolding is_page_aligned
  aligned_page p h = is_aligned_lem p 4096 page_size-IsPower ∙ ground (arith, h)

  pub MapsAll-nil :
      (v : ℕ) (s : Shape) (xs : List ℕ) (m : Mmu S) → IsReady A root top s xs m → MapsAll v [] m m
  MapsAll-nil v s xs m ready = record {
    shape = s;
    rest = xs;
    ready = ready;
    found = λ i p e. absurd (ground arith);
    others = λ u out t. refl;
  }

  -- The first page is mapped, and the rest of the range is as `r` says.
  map_each-cons :
      (p : ℕ) (phys : List ℕ) (v : ℕ) (m m' : Mmu S)
      → IsFrame p
      → v % 4096 ≡ 0
      → v + 4096 < usize_mod
      → InSpace a top v (suc (length phys))
      → map_pages A root v p 4096 231 m ≡ (ok 4096, m')
      → query a root v m'.tables ≡ ok (p, 231)
      → ((u : ℕ)
          → u / 4096 ≢ v / 4096
          → top_bits u ≡ top_bits v
          → query a root u m'.tables ≡ query a root u m.tables)
      → Result phys (v + 4096) m'
      → Result (p ∷ phys) v m
  unfolding Result map_each continue_with existing
  map_each-cons p phys v m m' frame hv fits space ran here kept r =
      let no_wrap : wadd v 4096 ≡ v + 4096 = omega (arith, fits) in
      let is_page = aligned_page p frame.0 in
      elim r [
        | inl (after, ran', all) ↦ inl (after, rw (is_page, ran, no_wrap) ran', join all)
        | inr (after, ran', stops) ↦ inr (after, rw (is_page, ran, no_wrap) ran', later stops)
      ]
    where
      shift : (i : ℕ) → v + 4096 * suc i ≡ v + 4096 + 4096 * i
      shift i = omega arith

      here_too : v + 4096 * 0 ≡ v
      here_too = omega arith

      top_here : top_bits v ≡ top
      top_here = ap top_bits (sym here_too) ∙ (space 0 (omega arith)).1

      join : {after : Mmu S} → MapsAll (v + 4096) phys m' after → MapsAll v (p ∷ phys) m after
      join {after} all = record {
        shape = all.shape;
        rest = all.rest;
        ready = all.ready;
        found = at;
        others = λ u out t.
            all.others u (ground (arith, out)) t ∙ kept u (ground (arith, out)) (t ∙ sym top_here);
      }
        where
          at :
              (i q : ℕ)
              → get_elem? (p ∷ phys) i ≡ some q
              → query a root (v + 4096 * i) after.tables ≡ ok (q, 231)
          at zero q e =
              ap (λ (x : ℕ). query a root x after.tables) here_too
              ∙ all.others v (inl (omega arith)) top_here
              ∙ here
              ∙ ap {B = Outcome (ℕ × ℕ)} (λ (x : ℕ). ok (x, 231)) (ground arith)
          at (suc i) q e = ap (λ (x : ℕ). query a root x after.tables) (shift i) ∙ all.found i q e

      later : Stops (v + 4096) phys m' → Stops v (p ∷ phys) m
      later stops = record {
        index = suc stops.index;
        inside = omega (arith, stops.inside);
        was = stops.was;
        found =
            sym (
              kept (v + 4096 * suc stops.index) (ground arith)
                ((space (suc stops.index) (omega (arith, stops.inside))).1 ∙ sym top_here))
            ∙ ap (λ (x : ℕ). query a root x m'.tables) (shift stops.index)
            ∙ stops.found;
      }

  map_each-stop :
      (p : ℕ) (phys : List ℕ) (v : ℕ) (m : Mmu S)
      → IsFrame p
      → map_pages A root v p 4096 231 m ≡ (err already_exists, m)
      → (was : ℕ × ℕ) → query a root v m.tables ≡ ok was
      → Result (p ∷ phys) v m
  unfolding Result map_each continue_with existing
  map_each-stop p phys v m frame ran was found =
      let is_page = aligned_page p frame.0 in
      let here : v + 4096 * 0 ≡ v = omega arith in
      inr (
        m,
        rw (is_page, ran) refl,
        record {
          index = 0;
          inside = omega arith;
          was = was;
          found = ap (λ (x : ℕ). query a root x m.tables) here ∙ found;
        },
      )

  first_top : (v n : ℕ) → InSpace a top v (suc n) → top_bits v ≡ top
  first_top v n space =
      let here : v + 4096 * 0 ≡ v = omega arith in
      ap top_bits (sym here) ∙ (space 0 (omega arith)).1

  first_valid : (v n : ℕ) → InSpace a top v (suc n) → is_valid_vaddr a v ≡ true
  first_valid v n space =
      let here : v + 4096 * 0 ≡ v = omega arith in
      ap (is_valid_vaddr a) (sym here) ∙ (space 0 (omega arith)).0

  tail_space : (v n : ℕ) → InSpace a top v (suc n) → InSpace a top (v + 4096) n
  tail_space v n space i h =
      let shift : v + 4096 + 4096 * i ≡ v + 4096 * suc i = omega arith in
      rw shift (space (suc i) (omega (arith, h)))

  map_each_lem :
      (phys : List ℕ) (v : ℕ) (s : Shape) (xs : List ℕ) (m : Mmu S)
      → v % 4096 ≡ 0
      → v + 4096 * length phys < usize_mod
      → InSpace a top v (length phys)
      → All IsFrame phys
      → IsReady A root top s xs m
      → 4 * length phys ≤ length xs
      → Result phys v m
  unfolding Result map_each
  map_each_lem [] v s xs m hv fits space frames ready enough =
      inl (m, refl, MapsAll-nil v s xs m ready)
  map_each_lem (p ∷ phys) v s xs m hv fits space frames ready enough =
      let top_here : top_bits v ≡ top = first_top v (length phys) space in
      let ready' = subst (λ (t : ℕ). IsReady A root t s xs m) (sym top_here) ready in
      let frame = frames.0 in
      elim (map_pages-query A a root v p 231 s xs m hv frame.0 frame.1 (omega arith) refl refl
        (first_valid v (length phys) space) ready' (omega (arith, enough))) [
          | inl (m', s', rest, ran, here, kept, after, cost) ↦
              map_each-cons p phys v m m' frame hv (omega (arith, fits)) space ran here kept (
                map_each_lem phys (v + 4096) s' rest m' (omega (arith, hv)) (omega (arith, fits))
                  (tail_space v (length phys) space) frames.1
                  (subst (λ (t : ℕ). IsReady A root t s' rest m') top_here after)
                  (omega (arith, enough, cost)))
          | inr (was, ran, found) ↦ map_each-stop p phys v m frame ran was found
        ]

  check_aligned_lem : (phys : List ℕ) → All IsFrame phys → check_aligned (length phys) phys ≡ ok tt
  unfolding check_aligned
  check_aligned_lem [] frames = refl
  check_aligned_lem (p ∷ phys) frames =
      rw (aligned_page p frames.0.0) (check_aligned_lem phys frames.1)

-- Map the pages of a list, one after another from an aligned address, where the range ends below
-- 2 ^ 64 and lies in the address space and under the root, the physical addresses are aligned and below
-- 2 ^ 64, the flags allow reading, the tables form a tree, the allocator has four pages for each page
-- of the list, and a page that is mapped already is an error. Either the call returns the number of pages,
-- a query of each page finds its physical address with the flags of the kernel, a query of any page outside of the range and
-- under the root is as before, and the tables form a tree again; or it returns AlreadyExists, and a query of some page of the range found a mapping
-- before.
pub map-query :
    {S : Type 0} (A : PageAllocator S) (a : VmAspace) (root top v flags : ℕ) (phys : List ℕ)
    (s : Shape) (xs : List ℕ) (m : Mmu S)
    → v % 4096 ≡ 0
    → v + 4096 * length phys < usize_mod
    → InSpace a top v (length phys)
    → is_valid_vaddr a v ≡ true
    → All IsFrame phys
    → (bit_and flags 8 == 0) ≡ false
    → IsReady A root top s xs m
    → 4 * length phys ≤ length xs
    → ((m' : Mmu S) × (map A root a v phys (length phys) flags error m ≡ (ok (length phys), m'))
        × MapsAll A a root top v phys m m')
      ⊎ ((m' : Mmu S) × (map A root a v phys (length phys) flags error m ≡ (err already_exists, m'))
          × Stops A a root top v phys m)
unfolding map map_each Result continue_with
map-query A a root top v flags [] s xs m hv fits space valid frames readable ready enough =
    let is_page = aligned_page A a root top v hv in
    let checked = check_aligned_lem A a root top [] tt in
    inl (m, rw (valid, checked, readable, is_page) refl, MapsAll-nil A a root top v s xs m ready)
map-query A a root top v flags (p ∷ phys) s xs m hv fits space valid frames readable ready enough =
    let is_page = aligned_page A a root top v hv in
    let checked = check_aligned_lem A a root top (p ∷ phys) frames in
    let nonempty : (length (p ∷ phys) == 0) ≡ false = ground arith in
    elim (map_each_lem A a root top (p ∷ phys) v s xs m hv fits space frames ready enough) [
      | inl (m', ran, all) ↦
          inl (m', rw (valid, checked, readable, is_page, nonempty, ran) refl, all)
      | inr (m', ran, stops) ↦
          inr (m', rw (valid, checked, readable, is_page, nonempty, ran) refl, stops)
    ]
