-- ===== src/Pmm/Free.antt =====
-- kernel/src/pmm.rs: the free list and the pages that are taken from it.
use score.Base.{
  ℕ, ◌≡◌, ◌≢◌, ◌⊎◌, inl, inr, refl, sym, ap, ◌∙◌, true, false, ◌==◌, arith, List, [], ◌∷◌, All,
  get_or, subst, ok, panic,
}
use score.Base.Word.{wsub}
use score.LinkedList.{Memory, pop_head}
use score.LinkedList.Chain.{IsList, NotIn}
use score.LinkedList.Ops.{pop_head-IsList}
use score.Page.{VmPage, Pages, is_free, is_loaned, set_state, set_page}
use score.Pmm.{PmmNode, alloc_page, alloc_page_helper_locked, pop_free, write_state}

-- A page that can be handed out.
abbrev pub Ready : VmPage → Type 0
Ready p = (is_free p ≡ true) × (is_loaned p ≡ false)

-- The free list holds the pages `xs`, all of them free and none loaned.
pub record HasFree (n : PmmNode) (xs : List ℕ) : Type 0 where
  pub list : IsList n.pages.nodes n.free_list xs
  pub ready : All (λ x. Ready (n.pages.page x)) xs

-- A page in state ALLOC after it was taken.
pub record Takes (n : PmmNode) (x : ℕ) (ys : List ℕ) (n' : PmmNode) : Type 0 where
  pub rest : HasFree n' ys
  pub gone : NotIn x ys
  pub state : n'.pages.page x ≡ set_state 1 (n.pages.page x)
  pub others : (p : ℕ) → p ≢ x → n'.pages.page p ≡ n.pages.page p
  pub count : n'.free_count ≡ wsub n.free_count 1

pub write_state-here :
    (x state : ℕ) (ps : Pages) → (write_state x state ps).page x ≡ set_state state (ps.page x)
unfolding write_state set_page
write_state-here x state ps = let e : (x == x) ≡ true = ground arith in rw e refl

pub write_state-other :
    (x state : ℕ) (ps : Pages) (p : ℕ) → p ≢ x → (write_state x state ps).page p ≡ ps.page p
unfolding write_state set_page
write_state-other x state ps p ne = let e : (p == x) ≡ false = ground (arith, ne) in rw e refl

pub Ready-others :
    (old new : Pages) (x : ℕ)
    → ((p : ℕ) → p ≢ x → new.page p ≡ old.page p)
    → (xs : List ℕ) → NotIn x xs
    → All (λ y. Ready (old.page y)) xs
    → All (λ y. Ready (new.page y)) xs
Ready-others old new x same [] d h = tt
Ready-others old new x same (y ∷ xs) d h =
    (subst Ready (sym (same y d.0)) h.0, Ready-others old new x same xs d.1 h.1)

tail : List ℕ → List ℕ
tail [] = []
tail (x ∷ xs) = xs

-- The first element of a list that is not empty.
pub pop_head-first :
    (m : Memory) (r x : ℕ) (xs : List ℕ)
    → IsList m r (x ∷ xs)
    → ((pop_head r m).0 ≡ x) × IsList (pop_head r m).1 r xs
unfolding tail
pop_head-first m r x xs h = elim (pop_head-IsList m r (x ∷ xs) h) [
  | inl (e, f) ↦ absurd (ground arith)
  | inr (y, ys, e, f, g) ↦ (
    f ∙ sym (ap (λ (l : List ℕ). get_or l 0 0) e),
    subst (IsList (pop_head r m).1 r) (sym (ap tail e)) g,
  )
]

-- Where the free list holds free pages that are not loaned: if it is empty, alloc_page panics; if not,
-- alloc_page returns the first page, in state ALLOC, keeps the others, leaves the rest in the list, and counts
-- one page less.
pub alloc_page-HasFree :
    (n : PmmNode) (xs : List ℕ)
    → HasFree n xs
    → ((xs ≡ []) × (alloc_page n ≡ panic))
      ⊎ ((x : ℕ) × (ys : List ℕ) × (n' : PmmNode) × (xs ≡ x ∷ ys)
          × ((x == 0) ≡ false)
          × (alloc_page n ≡ ok (x, n'))
          × Takes n x ys n')
unfolding alloc_page alloc_page_helper_locked pop_free write_state set_page
alloc_page-HasFree n [] h = elim (pop_head-IsList n.pages.nodes n.free_list [] h.list) [
  | inl (e, f) ↦ inl (refl, rw f refl)
  | inr (x, ys, e, f, g) ↦ absurd (ground arith)
]
alloc_page-HasFree n (x ∷ xs) h =
    let popped = pop_head-first n.pages.nodes n.free_list x xs h.list in
    let present : (x == 0) ≡ false = ground (arith, h.list.valid.1.0) in
    let free = h.ready.0.0 in
    let own = h.ready.0.1 in
    let nodes = (pop_head n.free_list n.pages.nodes).1 in
    let n' : PmmNode = record n {
      free_count = wsub n.free_count 1;
      pages = write_state x 1 (record n.pages { nodes = nodes });
    } in
    let other = write_state-other x 1 (record n.pages { nodes = nodes }) in
    inr (
      x,
      xs,
      n',
      refl,
      present,
      rw (popped.0, present, own, free) refl,
      record {
        rest = record {
          list = popped.1;
          ready = Ready-others n.pages n'.pages x other xs h.list.distinct.1.0 h.ready.1;
        };
        gone = h.list.distinct.1.0;
        state = write_state-here x 1 (record n.pages { nodes = nodes });
        others = other;
        count = refl;
      },
    )
