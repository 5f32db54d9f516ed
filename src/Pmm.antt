-- ===== src/Pmm.antt =====
-- kernel/src/pmm.rs: the physical memory manager. The array of page headers of an arena gives the
-- address of each header; headers and queue nodes are those of Page, and the free list is a list of
-- LinkedList whose own node is at `free_list`. The name and the flags of an arena are left out, and the
-- locks, which one thread holds during a call.
pub mod Free
pub mod Many
pub mod Source
pub mod Tests
use score.Base.{
  ℕ, zero, suc, ◌+◌, ◌-◌, ◌*◌, ◌/◌, ◌≤◌, Bool, true, false, not, ◌&&◌, List, [], ◌∷◌, ltb, leb,
  ◌==◌, if◌then◌else◌, Outcome, ok, err, panic, out_of_fuel, ◌>>=◌, ◌>>◌, zx_assert, no_mem,
}
use score.Base.Word.{wadd, wsub, wmul}
use score.Align.{page_size, page_shift}
use score.LinkedList.{Memory, pop_head, splice, add_tail}
use score.Mmu.{continue_with}
use score.Page.{VmPage, Pages, alloc_state, is_free, is_loaned, set_page, set_state, init_page}

pub record PageArray : Type 0 where
  pub start : ℕ
  pub len : ℕ
  pub obj_size : ℕ

-- `PageArray::get_page`: null if the header would lie behind the array.
unfoldable pub get_page : ℕ → PageArray → ℕ
get_page index a =
    let ptr = wadd (wmul index a.obj_size) a.start in
    if leb (wadd a.start a.len) ptr then 0 else ptr

-- `PageArray::init_page` and `set_page_state`, by index.
unfoldable pub init_array_page : ℕ → ℕ → PageArray → Pages → Outcome Pages
init_array_page index paddr a ps =
    let page = get_page index a in if page == 0 then err no_mem else ok (init_page page paddr ps)

-- A write of the state of the page at an address.
unfoldable pub write_state : ℕ → ℕ → Pages → Pages
write_state page state ps = set_page page (set_state state (ps.page page)) ps

unfoldable pub set_page_state : ℕ → ℕ → PageArray → Pages → Outcome Pages
set_page_state index state a ps =
    let page = get_page index a in if page == 0 then err no_mem else ok (write_state page state ps)

pub record PmmArena : Type 0 where
  pub base : ℕ
  pub size : ℕ
  pub page_array : PageArray

unfoldable pub address_in_arena : ℕ → PmmArena → Bool
address_in_arena pa a = leb a.base pa && leb pa (wsub (wadd a.base a.size) 1)

unfoldable pub find_specific : ℕ → PmmArena → Outcome ℕ
unfolding address_in_arena
find_specific pa a =
    let index = wsub pa a.base / page_size in
    if not (address_in_arena pa a)
    then ok 0
    else zx_assert (ltb index (a.size / page_size)) >> ok (get_page index a.page_array)

pub record PmmNode : Type 0 where
  pub arenas : List PmmArena
  pub free_count : ℕ
  pub free_list : ℕ
  pub pages : Pages

unfoldable pub arena_page : ℕ → List PmmArena → ℕ
arena_page pa [] = 0
arena_page pa (a ∷ arenas) =
    let rest = arena_page pa arenas in
    if not (address_in_arena pa a) then rest else get_page (wsub pa a.base / page_size) a.page_array

unfoldable pub paddr_to_page : ℕ → PmmNode → ℕ
paddr_to_page pa n = arena_page pa n.arenas

-- `add_free_pages`: the pages of the list at `list` go to the end of the free list.
unfoldable pub add_free_pages : ℕ → ℕ → PmmNode → PmmNode
add_free_pages list count n = record n {
  free_count = wadd n.free_count count;
  pages = record n.pages { nodes = splice n.free_list list n.pages.nodes };
}

unfoldable pub alloc_page_helper_locked : ℕ → PmmNode → Outcome PmmNode
alloc_page_helper_locked page n = do
  zx_assert (is_free (n.pages.page page))
  if is_loaned (n.pages.page page)
      then panic
      else ok (record n { pages = write_state page alloc_state n.pages })

-- The head of the free list, unlinked.
unfoldable pub pop_free : PmmNode → ℕ × PmmNode
pop_free n =
    let (page, nodes) = pop_head n.free_list n.pages.nodes in
    (page, record n { pages = record n.pages { nodes = nodes } })

-- `alloc_page`: where the free list is empty, the code reads the page at the null address; that
-- panics here.
unfoldable pub alloc_page : PmmNode → Outcome (ℕ × PmmNode)
unfolding pop_free
alloc_page n =
    let (page, n') = pop_free n in
    if page == 0
    then panic
    else (zx_assert (not (is_loaned (n'.pages.page page)))
        >> (alloc_page_helper_locked page n' >>= λ n''.
            ok (page, record n'' { free_count = wsub n''.free_count 1 })))

-- The loop of `alloc_pages`: pages that were taken before the free list is empty stay in the list.
unfoldable pub alloc_loop : ℕ → ℕ → PmmNode → Outcome (Unit {0}) × PmmNode
alloc_loop zero list n = (ok tt, n)
alloc_loop (suc count) list n =
    let (page, n') = pop_free n in
    if page == 0
    then (err no_mem, n')
    else continue_with (alloc_page_helper_locked page n', n')
        (λ n'' _. alloc_loop count list (record n'' {
          free_count = wsub n''.free_count 1;
          pages = record n''.pages { nodes = add_tail list page n''.pages.nodes };
        }))

-- A single page, through `alloc_page`.
unfoldable pub alloc_one : ℕ → PmmNode → Outcome (Unit {0}) × PmmNode
alloc_one list n = elim (alloc_page n) [
  | ok (page, n') ↦ if page == 0 then (err no_mem, n') else (
    ok tt,
    record n' { pages = record n'.pages { nodes = add_tail list page n'.pages.nodes } },
  )
  | err e ↦ (err e, n)
  | panic ↦ (panic, n)
  | out_of_fuel ↦ (out_of_fuel, n)
]

unfoldable pub alloc_pages : ℕ → ℕ → PmmNode → Outcome (Unit {0}) × PmmNode
alloc_pages count list n =
    if list == 0
    then (panic, n)
    else if count == 0
    then (ok tt, n)
    else if count == 1
    then alloc_one list n
    else alloc_loop count list n

-- `pmm_alloc_contiguous`: more than one page, or a page with an alignment of its own, is `todo!`.
unfoldable pub pmm_alloc_contiguous : ℕ → ℕ → ℕ → PmmNode → Outcome (Unit {0}) × PmmNode
pmm_alloc_contiguous count alignment_log2 list n =
    if (count == 1) && leb alignment_log2 page_shift then alloc_one list n else (panic, n)
