-- ===== src/PageQueues/Tests.antt =====
-- Empty queues, and a page that enters and moves.
use score.Base.{ℕ, ◌+◌, ◌≡◌, refl, arith, false, ◌==◌, if◌then◌else◌, List, [], ◌∷◌, ◌++◌, ok}
use score.Page.{get_object, get_page_offset}
use score.PageQueues.{PageQueues, enqueue, set_anonymous, move_to_wired}
use score.LinkedList.Family.{Outside, put}
use score.PageQueues.Lists.{IsQueues, enqueue-IsQueues}
use score.PageQueues.Moves.{set_anonymous-IsQueues, move_to_wired-IsQueues}

-- Queue `i` has its node at 100 + i; the page at 80 has the object `owner` and the queue `queue`.
abbrev with_page : ℕ → ℕ → PageQueues
with_page owner queue = record {
  pages = record {
    nodes = λ a. if a == 80 then record { next = 0; prev = 0 } else record { next = a; prev = a };
    page = λ a. record {
      paddr = 4096;
      object = record {
        object_or_stack_owner = owner;
        page_offset_priv = 0;
        page_queue = queue;
        pin_count = 0;
        dirty_state = 0;
      };
      state = 2;
      loaned_state = 0;
    };
  };
  queue = λ i. 100 + i;
  counts = λ i. 0;
}

abbrev no_pages : ℕ → List ℕ
no_pages i = []

with_page-IsQueues : (owner queue : ℕ) → IsQueues (with_page owner queue) no_pages
with_page-IsQueues owner queue = record {
  lists = record {
    list = λ i u.
        let other : (100 + i == 80) ≡ false = ground arith in
        record {
          links = (rw other refl, rw other refl);
          distinct = (tt, tt);
          valid = (ground arith, tt);
        };
    apart = λ i j u v ne. ((ground (arith, ne), tt), tt);
  };
  count = λ i u v. refl;
}

with_page-Outside : (owner queue : ℕ) → Outside 14 (λ i. 100 + i) no_pages 80
unfolding Outside
with_page-Outside owner queue i u = (ground arith, tt)

set_anonymous-IsQueues_example :
    ((s' : PageQueues) × (set_anonymous 1 80 8192 12288 (with_page 0 0) ≡ ok s')
      × IsQueues s' (put 1 (80 ∷ []) no_pages)
      × (get_object (s'.pages.page 80).object ≡ 8192)
      × (get_page_offset (s'.pages.page 80).object ≡ 12288)
      × ((s'.pages.page 80).object.page_queue ≡ 1))
unfolding get_object
set_anonymous-IsQueues_example =
    set_anonymous-IsQueues 1 80 8192 12288 (with_page 0 0) no_pages (with_page-IsQueues 0 0)
      (with_page-Outside 0 0) (ground arith) refl refl refl refl refl (ground arith) refl

abbrev queued : PageQueues
queued = enqueue 1 80 (with_page 8192 1)

abbrev one_queued : ℕ → List ℕ
one_queued = put 1 (80 ∷ []) no_pages

queued-IsQueues : IsQueues queued one_queued
queued-IsQueues =
    enqueue-IsQueues (with_page 8192 1) no_pages 1 80 (with_page-IsQueues 8192 1) (omega arith)
      (with_page-Outside 8192 1) (ground arith)

move_to_wired-IsQueues_example :
    ((s' : PageQueues) × (move_to_wired 80 queued ≡ ok s')
      × IsQueues s' (put 2 (80 ∷ put 1 ([] ++ []) one_queued 2) (put 1 ([] ++ []) one_queued))
      × ((s'.pages.page 80).object.page_queue ≡ 2))
unfolding get_object put enqueue
move_to_wired-IsQueues_example =
    move_to_wired-IsQueues 80 queued one_queued [] [] 1 queued-IsQueues refl (omega arith)
      (omega arith) refl refl (ground arith)
