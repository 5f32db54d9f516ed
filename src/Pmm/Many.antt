-- ===== src/Pmm/Many.antt =====
-- kernel/src/pmm.rs: the loop of alloc_pages, which moves pages from the free list to a list of the
-- caller.
use score.Base.{
  ℕ, suc, zero, ◌<◌, ◌⊎◌, inl, inr, ◌≡◌, ◌≢◌, refl, sym, ap, ◌∙◌, subst, false, ◌==◌, arith, List,
  [], ◌∷◌, ◌++◌, length, All-imp, All-both, All-append, ok, err, panic, no_mem,
}
use mathlib.Core.List.{append-nil}
use score.Base.Word.{wsub}
use score.LinkedList.{Memory, pop_head, add_tail}
use score.LinkedList.Chain.{IsList, NotIn}
use score.LinkedList.Ops.{Apart, add_tail-IsList, pop_head-IsList}
use score.LinkedList.Frame.{IsList-frame, add_tail-keeps, pop_head-keeps, Apart-sym}
use score.Mmu.{continue_with}
use score.Page.{set_page}
use score.Pmm.{
  PmmNode, alloc_one, alloc_page, alloc_pages, alloc_loop, alloc_page_helper_locked, pop_free,
  write_state,
}
use score.Pmm.Free.{HasFree, alloc_page-HasFree, pop_head-first, Ready-others, write_state-other}

-- The caller's list holds `taken`, and has no node in common with the free list, which holds `xs`.
pub record Shares (n : PmmNode) (list : ℕ) (taken xs : List ℕ) : Type 0 where
  pub free : HasFree n xs
  pub own : IsList n.pages.nodes list taken
  pub apart : Apart (list ∷ taken) (n.free_list ∷ xs)

-- One page moves.
move : PmmNode → ℕ → ℕ → PmmNode
move n list x = record n {
  free_count = wsub n.free_count 1;
  pages =
      record (write_state x 1 (record n.pages { nodes = (pop_head n.free_list n.pages.nodes).1 })) {
        nodes = add_tail list x (pop_head n.free_list n.pages.nodes).1;
      };
}

module _ (n : PmmNode) (list x : ℕ) (taken xs : List ℕ) (h : Shares n list taken (x ∷ xs)) where
  popped : Memory
  popped = (pop_head n.free_list n.pages.nodes).1

  flipped : Apart (n.free_list ∷ x ∷ xs) (list ∷ taken)
  flipped = Apart-sym (list ∷ taken) (n.free_list ∷ x ∷ xs) h.apart

  own_after : IsList popped list taken
  unfolding popped
  own_after =
      IsList-frame n.pages.nodes popped list taken
        (All-imp {Q = λ a. popped a ≡ n.pages.nodes a}
          (λ a b. pop_head-keeps n.pages.nodes n.free_list x xs h.free.list a b) (list ∷ taken)
          h.apart)
        h.own

  -- The free list's own node and the other free pages are not the page.
  behind : NotIn x (n.free_list ∷ xs)
  behind = ((λ e. h.free.list.distinct.0.0 (sym e)), h.free.list.distinct.1.0)

  outside : NotIn x (list ∷ taken)
  outside = flipped.1.0

  nonzero : x ≢ 0
  nonzero = h.free.list.valid.1.0

  rest_after : IsList (add_tail list x popped) n.free_list xs
  unfolding popped
  rest_after =
      IsList-frame popped (add_tail list x popped) n.free_list xs
        (All-imp {Q = λ a. add_tail list x popped a ≡ popped a}
          (λ a b.
            add_tail-keeps popped list x taken own_after (λ e. outside.0 (sym e)) a
              (λ e. b.0 (sym e)) b.1)
          (n.free_list ∷ xs)
          (All-both (λ a. a ≢ x) (λ a. NotIn a (list ∷ taken)) (n.free_list ∷ xs) behind
            (flipped.0, flipped.1.1)))
        (pop_head-first n.pages.nodes n.free_list x xs h.free.list).1

  Shares-move : Shares (move n list x) list (taken ++ (x ∷ [])) xs
  unfolding move popped write_state set_page
  Shares-move = record {
    free = record {
      list = rest_after;
      ready =
          Ready-others n.pages (move n list x).pages x
            (write_state-other x 1 (record n.pages { nodes = popped })) xs h.free.list.distinct.1.0
            h.free.ready.1;
    };
    own = add_tail-IsList popped list x taken own_after outside nonzero;
    apart =
        All-append (λ z. NotIn z (n.free_list ∷ xs)) (list ∷ taken) (x ∷ [])
          (All-imp {Q = λ z. NotIn z (n.free_list ∷ xs)} (λ z b. (b.0, b.1.1)) (list ∷ taken)
            h.apart)
          (behind, tt);
  }

  -- The state after `alloc_page`.
  took : PmmNode
  took = record n {
    free_count = wsub n.free_count 1;
    pages = write_state x 1 (record n.pages { nodes = (pop_head n.free_list n.pages.nodes).1 });
  }

  alloc_page-took : alloc_page n ≡ ok (x, took)
  unfolding alloc_page alloc_page_helper_locked pop_free took
  alloc_page-took =
      let first = pop_head-first n.pages.nodes n.free_list x xs h.free.list in
      let present : (x == 0) ≡ false = ground (arith, nonzero) in
      rw (first.0, present, h.free.ready.0.1, h.free.ready.0.0) refl

  alloc_one_moves : alloc_one list n ≡ (ok tt, move n list x)
  unfolding alloc_one move took write_state set_page
  alloc_one_moves =
      let present : (x == 0) ≡ false = ground (arith, nonzero) in
      rw (alloc_page-took, alloc_one, present) refl

  step : (count : ℕ) → alloc_loop (suc count) list n ≡ alloc_loop count list (move n list x)
  unfolding alloc_loop alloc_page_helper_locked pop_free continue_with move pop_head write_state
      set_page
  step count =
      let first = pop_head-first n.pages.nodes n.free_list x xs h.free.list in
      let present : (x == 0) ≡ false = ground (arith, nonzero) in
      rw (first.0, present, h.free.ready.0.0, h.free.ready.0.1) refl

joined : (taken : List ℕ) (x : ℕ) (zs : List ℕ) → (taken ++ (x ∷ [])) ++ zs ≡ taken ++ (x ∷ zs)
joined [] x zs = refl
joined (y ∷ taken) x zs = ap (λ (t : List ℕ). y ∷ t) (joined taken x zs)

-- The loop takes the first pages, or all of them.
pub alloc_loop-Shares :
    (count list : ℕ) (n : PmmNode) (taken xs : List ℕ)
    → Shares n list taken xs
    → ((zs rest : List ℕ) × (n' : PmmNode) × (xs ≡ zs ++ rest)
        × (length zs ≡ count)
        × (alloc_loop count list n ≡ (ok tt, n'))
        × Shares n' list (taken ++ zs) rest)
      ⊎ ((n' : PmmNode) × (length xs < count)
          × (alloc_loop count list n ≡ (err no_mem, n'))
          × Shares n' list (taken ++ xs) [])
unfolding alloc_loop pop_free
alloc_loop-Shares zero list n taken xs h = inl (
  [],
  xs,
  n,
  refl,
  refl,
  refl,
  subst (λ (l : List ℕ). Shares n list l xs) (sym (append-nil taken)) h,
)
alloc_loop-Shares (suc count) list n taken [] h =
    elim (pop_head-IsList n.pages.nodes n.free_list [] h.free.list) [
      | inl (e, f) ↦ inr (
        n,
        omega arith,
        rw f refl,
        subst (λ (l : List ℕ). Shares n list l []) (sym (append-nil taken)) h,
      )
      | inr (x, ys, e, f, g) ↦ absurd (ground arith)
    ]
alloc_loop-Shares (suc count) list n taken (x ∷ xs) h =
    let at = step n list x taken xs h count in
    elim (alloc_loop-Shares count list (move n list x) (taken ++ (x ∷ [])) xs
      (Shares-move n list x taken xs h)) [
        | inl (zs, rest, n', e, l, ran, s) ↦ inl (
          x ∷ zs,
          rest,
          n',
          ap (λ (t : List ℕ). x ∷ t) e,
          ap suc l,
          at ∙ ran,
          subst (λ (t : List ℕ). Shares n' list t rest) (joined taken x zs) s,
        )
        | inr (n', few, ran, s) ↦ inr (
          n',
          omega (arith, few),
          at ∙ ran,
          subst (λ (t : List ℕ). Shares n' list t []) (joined taken x xs) s,
        )
      ]

-- Where the free list holds free pages that are not loaned, and the caller's list, not at address 0, has no node
-- in common with it: from enough pages alloc_pages takes the first `count`, in order, to the end of
-- the caller's list and leaves the others; from too few a call for a single page panics, and any other
-- call returns NoMem with all of them in the caller's list.
pub alloc_pages-Shares :
    (count list : ℕ) (n : PmmNode) (taken xs : List ℕ)
    → list ≢ 0
    → Shares n list taken xs
    → ((zs rest : List ℕ) × (n' : PmmNode) × (xs ≡ zs ++ rest)
        × (length zs ≡ count)
        × (alloc_pages count list n ≡ (ok tt, n'))
        × Shares n' list (taken ++ zs) rest)
      ⊎ ((n' : PmmNode) × (length xs < count)
          × (((count ≢ 1)
                × (alloc_pages count list n ≡ (err no_mem, n'))
                × Shares n' list (taken ++ xs) [])
              ⊎ ((count ≡ 1) × (alloc_pages count list n ≡ (panic, n')))))
unfolding alloc_pages alloc_one
alloc_pages-Shares zero list n taken xs nz h =
    let some : (list == 0) ≡ false = ground (arith, nz) in
    inl (
      [],
      xs,
      n,
      refl,
      refl,
      rw some refl,
      subst (λ (l : List ℕ). Shares n list l xs) (sym (append-nil taken)) h,
    )
alloc_pages-Shares (suc zero) list n taken [] nz h =
    let some : (list == 0) ≡ false = ground (arith, nz) in
    elim (alloc_page-HasFree n [] h.free) [
      | inl (e, f) ↦ inr (n, omega arith, inr (refl, rw (some, f, alloc_one) refl))
      | inr (x, ys, n', e, present, ran, t) ↦ absurd (ground arith)
    ]
alloc_pages-Shares (suc zero) list n taken (x ∷ xs) nz h =
    let some : (list == 0) ≡ false = ground (arith, nz) in
    inl (
      x ∷ [],
      xs,
      move n list x,
      refl,
      refl,
      rw some (alloc_one_moves n list x taken xs h),
      Shares-move n list x taken xs h,
    )
alloc_pages-Shares (suc (suc count)) list n taken xs nz h =
    let some : (list == 0) ≡ false = ground (arith, nz) in
    let many : (suc (suc count) == 0) ≡ false = ground arith in
    let more : (suc (suc count) == 1) ≡ false = ground arith in
    elim (alloc_loop-Shares (suc (suc count)) list n taken xs h) [
      | inl (zs, rest, n', e, l, ran, s) ↦ inl (zs, rest, n', e, l, rw (some, many, more) ran, s)
      | inr (n', few, ran, s) ↦
          inr (n', few, inl (λ e. absurd (omega (arith, e)), rw (some, many, more) ran, s))
    ]
