-- ===== src/PageQueues/Lists.antt =====
-- kernel/src/vm/page_queues.rs: the lists of the queues under the moves of a page.
use score.Base.{
  ℕ, ◌%◌, ◌<◌, ◌≤◌, ◌≡◌, ◌≢◌, ap, ◌∙◌, inl, inr, ◌==◌, arith, if◌then◌else◌, Bool-cases, List, ◌∷◌,
  ◌++◌, length,
}
use score.Base.Word.{usize_mod, wadd, wsub}
use score.LinkedList.Family.{
  IsFamily, Outside, put, put-here, put-other, add_head-IsFamily, delete-IsFamily, length-remove,
}
use score.PageQueues.{PageQueues, enqueue, dequeue}

-- The queues hold the lists `qs`, which have no node in common, and all but queue 0 count their pages.
pub record IsQueues (s : PageQueues) (qs : ℕ → List ℕ) : Type 0 where
  pub lists : IsFamily 14 s.pages.nodes s.queue qs
  pub count : (i : ℕ) → 1 ≤ i → i < 14 → s.counts i ≡ length (qs i) % usize_mod

-- The counts, with that of one list changed to the length of the new list.
recount :
    (qs : ℕ → List ℕ) (q : ℕ) (l : List ℕ) (counts : ℕ → ℕ) (v i : ℕ)
    → counts i ≡ length (qs i) % usize_mod
    → (i ≡ q → v ≡ length l % usize_mod)
    → (if i == q then v else counts i) ≡ length (put q l qs i) % usize_mod
recount qs q l counts v i old new = elim (Bool-cases (i == q)) [
  | inl e ↦ rw (e, put-here q l qs i e) (new (ground arith))
  | inr e ↦ rw (e, put-other q l qs i e) old
]

-- A page that is in no queue and not at address 0 becomes the head of a queue.
pub enqueue-IsQueues :
    (s : PageQueues) (qs : ℕ → List ℕ) (q p : ℕ)
    → IsQueues s qs
    → q < 14
    → Outside 14 s.queue qs p
    → p ≢ 0
    → IsQueues (enqueue q p s) (put q (p ∷ qs q) qs)
unfolding enqueue
enqueue-IsQueues s qs q p h low out nz = record {
  lists = add_head-IsFamily 14 s.pages.nodes s.queue qs q p h.lists low out nz;
  count = λ i u v.
      recount qs q (p ∷ qs q) s.counts (wadd (s.counts q) 1) i (h.count i u v)
        λ e. let old = h.count q (omega (arith, u, e)) low in omega (arith, old);
}

-- A page leaves the queue that has it.
pub dequeue-IsQueues :
    (s : PageQueues) (qs : ℕ → List ℕ) (q p : ℕ) (xs ys : List ℕ)
    → IsQueues s qs
    → q < 14
    → qs q ≡ xs ++ (p ∷ ys)
    → IsQueues (dequeue q p s) (put q (xs ++ ys) qs)
unfolding dequeue
dequeue-IsQueues s qs q p xs ys h low has = record {
  lists = delete-IsFamily 14 s.pages.nodes s.queue qs q p xs ys h.lists low has;
  count = λ i u v. recount qs q (xs ++ ys) s.counts (wsub (s.counts q) 1) i (h.count i u v) λ e.
      let old =
        h.count q (omega (arith, u, e)) low ∙ ap (λ (t : List ℕ). length t % usize_mod) has in
      omega (arith, old, length-remove xs p ys);
}
