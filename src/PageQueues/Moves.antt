-- ===== src/PageQueues/Moves.antt =====
-- kernel/src/vm/page_queues.rs: a page enters the anonymous queue, and moves to the wired one.
use score.Base.{
  ℕ, ◌%◌, ◌<◌, ◌≤◌, ◌≡◌, ◌≢◌, refl, ap, ◌∙◌, subst, true, false, ltb, ◌==◌, arith, List, ◌∷◌, ◌++◌,
  All-at, All-back, ok,
}
use score.LinkedList.{is_in_list}
use score.LinkedList.Chain.{IsList, Links-split}
use score.LinkedList.Frame.{Links-next}
use score.Page.{
  VmPageObject, get_state, is_free, get_object, set_object, get_page_offset, set_page_offset,
  set_page,
}
use score.Page.Owner.{set_object-get_object}
use score.PageQueues.{
  PageQueues, enqueue, dequeue, write_object, set_anonymous, set_queue_backlink_locked,
  move_to_wired, move_to_queue_locked,
}
use score.PageQueues.Lists.{IsQueues, enqueue-IsQueues, dequeue-IsQueues}
use score.LinkedList.Family.{Outside, put, delete-Outside}

write_object-IsQueues :
    (p : ℕ) (o : VmPageObject) (s : PageQueues) (qs : ℕ → List ℕ)
    → IsQueues s qs
    → IsQueues (write_object p o s) qs
unfolding write_object set_page
write_object-IsQueues p o s qs h = record { lists = h.lists; count = h.count }

written :
    (p : ℕ) (o : VmPageObject) (s : PageQueues) → ((write_object p o s).pages.page p).object ≡ o
unfolding write_object set_page
written p o s = let e : (p == p) ≡ true = ground arith in rw e refl

set_anonymous_runs :
    (failures p object offset : ℕ) (s : PageQueues) (q : VmPageObject)
    → set_object failures object (s.pages.page p).object ≡ ok q
    → q.page_queue ≡ 0
    → (s.pages.page p).state ≡ 2
    → (s.pages.nodes p).next ≡ 0
    → get_object (s.pages.page p).object ≡ 0
    → (s.pages.page p).object.page_offset_priv ≡ 0
    → set_anonymous failures p object offset s
      ≡ ok (enqueue 1 p (write_object p (record (set_page_offset offset q) { page_queue = 1 }) s))
unfolding set_anonymous set_queue_backlink_locked get_state is_free is_in_list get_page_offset
    set_page_offset
set_anonymous_runs failures p object offset s q ran kept state next none zero_offset =
    rw (state, next, none, ran, zero_offset, kept) refl

-- A page in state OBJECT with no object, offset 0 and no queue, that is not in a list and in no queue,
-- goes to the anonymous queue for an object that is not 0 and has an even address: set_anonymous returns, the
-- page is the head of that queue, names the object, the offset and the queue, and the lists and the counts
-- agree as before.
pub set_anonymous-IsQueues :
    (failures p object offset : ℕ) (s : PageQueues) (qs : ℕ → List ℕ)
    → IsQueues s qs
    → Outside 14 s.queue qs p
    → p ≢ 0
    → (s.pages.page p).state ≡ 2
    → (s.pages.nodes p).next ≡ 0
    → get_object (s.pages.page p).object ≡ 0
    → (s.pages.page p).object.page_offset_priv ≡ 0
    → (s.pages.page p).object.page_queue ≡ 0
    → object ≢ 0
    → object % 2 ≡ 0
    → ((s' : PageQueues) × (set_anonymous failures p object offset s ≡ ok s')
        × IsQueues s' (put 1 (p ∷ qs 1) qs)
        × (get_object (s'.pages.page p).object ≡ object)
        × (get_page_offset (s'.pages.page p).object ≡ offset)
        × ((s'.pages.page p).object.page_queue ≡ 1))
unfolding set_anonymous set_queue_backlink_locked get_state is_free is_in_list get_object
    get_page_offset set_page_offset enqueue Outside write_object set_page
set_anonymous-IsQueues failures p object offset s qs h out nz state next none zero_offset no_queue
      some even =
    let (q, ran, is, get, owned, cleared, zero_panics) =
      set_object-get_object failures object (s.pages.page p).object some even in
    let o : VmPageObject = record (set_page_offset offset q) { page_queue = 1 } in
    let s1 = write_object p o s in
    let kept : q.page_queue ≡ 0 = ap (λ (x : VmPageObject). x.page_queue) is ∙ no_queue in
    (
      enqueue 1 p s1,
      set_anonymous_runs failures p object offset s q ran kept state next none zero_offset,
      enqueue-IsQueues s1 qs 1 p (write_object-IsQueues p o s qs h) (omega arith) out nz,
      ap get_object (written p o s) ∙ get,
      ap get_page_offset (written p o s),
      ap (λ (x : VmPageObject). x.page_queue) (written p o s),
    )

-- A page in state OBJECT with an object, whose queue is one of 1 to 13 and whose queue has it, moves to the
-- wired queue: move_to_wired returns, the page leaves its queue, is the head of the wired queue and names it, and the
-- lists and the counts agree as before.
pub move_to_wired-IsQueues :
    (p : ℕ) (s : PageQueues) (qs : ℕ → List ℕ) (xs ys : List ℕ) (old : ℕ)
    → IsQueues s qs
    → (s.pages.page p).object.page_queue ≡ old
    → 1 ≤ old
    → old < 14
    → qs old ≡ xs ++ (p ∷ ys)
    → (s.pages.page p).state ≡ 2
    → get_object (s.pages.page p).object ≢ 0
    → ((s' : PageQueues) × (move_to_wired p s ≡ ok s')
        × IsQueues s' (put 2 (p ∷ put old (xs ++ ys) qs 2) (put old (xs ++ ys) qs))
        × ((s'.pages.page p).object.page_queue ≡ 2))
unfolding move_to_wired move_to_queue_locked get_state is_free is_in_list enqueue dequeue
    write_object set_page
move_to_wired-IsQueues p s qs xs ys old h at positive low has state some =
    let o : VmPageObject = record (s.pages.page p).object { page_queue = 2 } in
    let s1 = write_object p o s in
    let h1 = write_object-IsQueues p o s qs h in
    let s2 = dequeue old p s1 in
    let h2 = dequeue-IsQueues s1 qs old p xs ys h1 low has in
    let out = delete-Outside 14 s1.pages.nodes s1.queue qs old p xs ys h1.lists low has in
    let list = subst (IsList s.pages.nodes (s.queue old)) has (h.lists.list old low) in
    let nz = All-at (λ x. x ≢ 0) xs p ys list.valid.1 in
    let split = Links-split s.pages.nodes (s.queue old) xs p ys (s.queue old) list.links in
    let linked : ((s.pages.nodes p).next == 0) ≡ false = ground (
      arith,
      Links-next s.pages.nodes p ys (s.queue old) split.1 0 list.valid.0
          (All-back (λ x. x ≢ 0) xs (p ∷ ys) list.valid.1).1,
    ) in
    let has_object : (get_object (s.pages.page p).object == 0) ≡ false = ground (arith, some) in
    let from : (old == 0) ≡ false = ground (arith, positive) in
    let bound : ltb old 14 ≡ true = ground (arith, low) in
    (
      enqueue 2 p s2,
      rw (state, linked, has_object, at, from, bound) refl,
      enqueue-IsQueues s2 (put old (xs ++ ys) qs) 2 p h2 (omega arith) out nz,
      ap (λ (x : VmPageObject). x.page_queue) (written p o s),
    )
