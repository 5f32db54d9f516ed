-- ===== src/PageQueues.antt =====
-- kernel/src/vm/page_queues.rs: the queues of pages that belong to objects. The lists are those of
-- LinkedList: queue `i` has its own node at `queue i`. The locks are held by one thread during a call.
pub mod Lists
pub mod Moves
pub mod Tests
use score.Base.{
  ℕ, ◌+◌, ◌%◌, Bool, true, false, not, ltb, ◌==◌, if◌then◌else◌, Outcome, ok, panic, ◌>>=◌, ◌>>◌,
  zx_assert,
}
use score.Base.Word.{wadd, wsub}
use score.LinkedList.{add_head, delete_from_list, is_in_list}
use score.Page.{
  VmPage, VmPageObject, Pages, object_state, get_state, is_free, get_object, set_object,
  get_page_offset, set_page_offset, set_page,
}

abbrev pub queue_none : ℕ
queue_none = 0

abbrev pub queue_anonymous : ℕ
queue_anonymous = 1

abbrev pub queue_wired : ℕ
queue_wired = 2

abbrev pub num_queues : ℕ
num_queues = 14

pub record PageQueues : Type 0 where
  pub pages : Pages
  pub queue : ℕ → ℕ
  pub counts : ℕ → ℕ

-- The page becomes the head of a queue, which counts it.
unfoldable pub enqueue : ℕ → ℕ → PageQueues → PageQueues
enqueue q page s = record s {
  pages = record s.pages { nodes = add_head (s.queue q) page s.pages.nodes };
  counts = λ i. if i == q then wadd (s.counts q) 1 else s.counts i;
}

-- The page leaves the list that it is in, and the queue that had it counts it no more.
unfoldable pub dequeue : ℕ → ℕ → PageQueues → PageQueues
dequeue q page s = record s {
  pages = record s.pages { nodes = delete_from_list page s.pages.nodes };
  counts = λ i. if i == q then wsub (s.counts q) 1 else s.counts i;
}

-- A write of the object of a page.
unfoldable pub write_object : ℕ → VmPageObject → PageQueues → PageQueues
write_object page object s = record s {
  pages = set_page page (record (s.pages.page page) { object = object }) s.pages;
}

-- `failures` is how often the exchange in `set_object` fails. An index beyond the queues panics.
unfoldable pub set_queue_backlink_locked : ℕ → ℕ → ℕ → ℕ → ℕ → PageQueues → Outcome PageQueues
set_queue_backlink_locked failures page object page_offset queue s = do
  zx_assert (get_state (s.pages.page page) == object_state)
  zx_assert (not (is_free (s.pages.page page)))
  zx_assert (not (is_in_list page s.pages.nodes))
  zx_assert (get_object (s.pages.page page).object == 0)
  zx_assert (get_page_offset (s.pages.page page).object == 0)
  o ← set_object failures object (s.pages.page page).object
  zx_assert ((set_page_offset page_offset o).page_queue == queue_none)
  zx_assert (ltb queue num_queues)
  ok (
      enqueue queue page
        (write_object page (record (set_page_offset page_offset o) { page_queue = queue % 256 }) s))

unfoldable pub set_anonymous : ℕ → ℕ → ℕ → ℕ → PageQueues → Outcome PageQueues
set_anonymous failures page object page_offset s =
    set_queue_backlink_locked failures page object page_offset queue_anonymous s

unfoldable pub move_to_queue_locked : ℕ → ℕ → PageQueues → Outcome PageQueues
move_to_queue_locked page queue s = do
  zx_assert (get_state (s.pages.page page) == object_state)
  zx_assert (not (is_free (s.pages.page page)))
  zx_assert (is_in_list page s.pages.nodes)
  zx_assert (not (get_object (s.pages.page page).object == 0))
  zx_assert (not ((s.pages.page page).object.page_queue == queue_none))
  zx_assert (ltb queue num_queues)
  zx_assert (ltb (s.pages.page page).object.page_queue num_queues)
  ok (
      enqueue queue page (
        dequeue (s.pages.page page).object.page_queue page
          (write_object page (record (s.pages.page page).object { page_queue = queue % 256 }) s)))

unfoldable pub move_to_wired : ℕ → PageQueues → Outcome PageQueues
move_to_wired page s = move_to_queue_locked page queue_wired s
