-- ===== src/Pmm/Source.antt =====
-- kernel/src/pmm.rs: the physical memory manager is an allocator of pages for page tables.
use score.Base.{
  ℕ, ◌≡◌, ◌≢◌, refl, ap, ◌∙◌, subst, false, ◌==◌, inl, inr, List, [], ◌∷◌, Outcome, ok, err, panic,
  out_of_fuel,
}
use score.Page.{VmPage, set_state, set_page}
use score.LinkedList.Chain.{NotIn}
use score.Mmu.{PageAllocator}
use score.Pmm.{PmmNode, alloc_page, write_state}
use score.Pmm.Free.{
  HasFree, Takes, alloc_page-HasFree, write_state-other, write_state-here, Ready-others,
}

-- `pmm_alloc_page`, with the state that a panic finds.
unfoldable pub pmm_alloc_page : PmmNode → Outcome ℕ × PmmNode
pmm_alloc_page n = elim (alloc_page n) [
  | ok (page, n') ↦ (ok page, n')
  | err e ↦ (err e, n)
  | panic ↦ (panic, n)
  | out_of_fuel ↦ (out_of_fuel, n)
]

-- The physical addresses of the pages `ps` are `xs`.
abbrev pub Frames : (ℕ → VmPage) → List ℕ → List ℕ → Type 0
Frames page [] [] = Unit
Frames page [] (x ∷ xs) = ⊥
Frames page (p ∷ ps) [] = ⊥
Frames page (p ∷ ps) (x ∷ xs) = ((page p).paddr ≡ x) × Frames page ps xs

-- The manager gives the pages of its free list, in order.
pub record GivesFree (n : PmmNode) (xs : List ℕ) : Type 0 where
  pub free : List ℕ
  pub has : HasFree n free
  pub frames : Frames n.pages.page free xs

Frames-others :
    (old new : ℕ → VmPage) (x : ℕ)
    → ((p : ℕ) → p ≢ x → new p ≡ old p)
    → (ps : List ℕ) (xs : List ℕ) → NotIn x ps
    → Frames old ps xs
    → Frames new ps xs
Frames-others old new x same [] [] d h = tt
Frames-others old new x same [] (y ∷ xs) d h = h
Frames-others old new x same (p ∷ ps) [] d h = h
Frames-others old new x same (p ∷ ps) (y ∷ xs) d h =
    (ap (λ (q : VmPage). q.paddr) (same p d.0) ∙ h.0, Frames-others old new x same ps xs d.1 h.1)

-- The state of a page that was taken is written, as a new table is.
unfoldable pub mark : ℕ → ℕ → PmmNode → PmmNode
unfolding write_state set_page
mark page state n = record n { pages = write_state page state n.pages }

GivesFree-mark :
    (n n' : PmmNode) (x state : ℕ) (ys xs : List ℕ)
    → Takes n x ys n'
    → Frames n.pages.page ys xs
    → GivesFree (mark x state n') xs
unfolding mark write_state set_page
GivesFree-mark n n' x state ys xs t frames =
    let marked = write_state-other x state n'.pages in
    record {
      free = ys;
      has = record {
        list = t.rest.list;
        ready =
            Ready-others n'.pages (write_state x state n'.pages) x marked ys t.gone t.rest.ready;
      };
      frames =
          Frames-others n.pages.page ((write_state x state n'.pages).page) x
            (λ p ne. marked p ne ∙ t.others p ne) ys xs t.gone frames;
    }

taken-paddr :
    (n n' : PmmNode) (x state : ℕ) (ys : List ℕ)
    → Takes n x ys n'
    → ((mark x state n').pages.page x).paddr ≡ (n.pages.page x).paddr
unfolding mark set_state
taken-paddr n n' x state ys t =
    ap (λ (q : VmPage). q.paddr) (write_state-here x state n'.pages ∙ ap (set_state state) t.state)

pub gives_next :
    (n : PmmNode) (pa : ℕ) (xs : List ℕ) (state : ℕ)
    → GivesFree n (pa ∷ xs)
    → ((page : ℕ) × (next : PmmNode) × (pmm_alloc_page n ≡ (ok page, next))
        × ((page == 0) ≡ false)
        × (((mark page state next).pages.page page).paddr ≡ pa)
        × GivesFree (mark page state next) xs)
unfolding pmm_alloc_page
gives_next n pa xs state g = elim (alloc_page-HasFree n g.free g.has) [
  | inl (e, f) ↦ absurd (subst (λ (l : List ℕ). Frames n.pages.page l (pa ∷ xs)) e g.frames)
  | inr (x, ys, n', e, present, ran, t) ↦
      let frames = subst (λ (l : List ℕ). Frames n.pages.page l (pa ∷ xs)) e g.frames in
      (
        x,
        n',
        rw (ran, pmm_alloc_page) refl,
        present,
        taken-paddr n n' x state ys t ∙ frames.0,
        GivesFree-mark n n' x state ys xs t frames.1,
      )
]

-- The manager, as the page tables use it.
abbrev pub pmm_pages : PageAllocator PmmNode
pmm_pages = record {
  pmm_alloc_page = pmm_alloc_page;
  set_state = mark;
  paddr = λ page n. (n.pages.page page).paddr;
  Gives = GivesFree;
  gives_next = gives_next;
}
