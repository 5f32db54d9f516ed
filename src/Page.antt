-- ===== src/Page.antt =====
-- kernel/src/page.rs and vm_page_state.rs: the header of a physical page and the record of the object
-- that owns it. Bytes are numbers below 256. The queue node of a page is the node at the address of
-- the page, in the memory of links.
pub mod Bytes
pub mod Owner
pub mod Tests
use Prim.Native.Nat.{bit_and, bit_or}
use score.Base.{
  ℕ, zero, suc, ◌-◌, Bool, true, false, not, ltb, leb, ◌==◌, if◌then◌else◌, Outcome, ok, panic,
  ◌>>=◌, ◌>>◌, zx_assert,
}
use score.LinkedList.{Memory, init_node}

abbrev pub free : ℕ
free = 0

abbrev pub alloc_state : ℕ
alloc_state = 1

abbrev pub object_state : ℕ
object_state = 2

abbrev pub wired : ℕ
wired = 3

abbrev pub mmu : ℕ
mmu = 5

abbrev pub loaned_state_is_loaned : ℕ
loaned_state_is_loaned = 1

pub record VmPageObject : Type 0 where
  pub object_or_stack_owner : ℕ
  pub page_offset_priv : ℕ
  pub page_queue : ℕ
  pub pin_count : ℕ
  pub dirty_state : ℕ

abbrev pub max_pin_count : ℕ
max_pin_count = 31

abbrev pub left_split : ℕ
left_split = 32

abbrev pub right_split : ℕ
right_split = 64

abbrev pub always_need_bit : ℕ
always_need_bit = 128

abbrev pub dirty_state_untracked : ℕ
dirty_state_untracked = 0

abbrev pub dirty_state_num_states : ℕ
dirty_state_num_states = 4

abbrev pub is_stack_owner_flag : ℕ
is_stack_owner_flag = 1

unfoldable pub new_object : VmPageObject
new_object = record {
  object_or_stack_owner = 0;
  page_offset_priv = 0;
  page_queue = 0;
  pin_count = 0;
  dirty_state = dirty_state_untracked;
}

unfoldable pub is_stack_owned : VmPageObject → Bool
is_stack_owned o = not (bit_and o.object_or_stack_owner is_stack_owner_flag == 0)

unfoldable pub get_object : VmPageObject → ℕ
get_object o =
    let value = o.object_or_stack_owner in
    if not (bit_and value is_stack_owner_flag == 0) then 0 else value

-- `compare_exchange_weak` may fail without a reason; `failures` is how often it does before it
-- stores. No other thread writes the word meanwhile.
unfoldable pub exchange_loop : ℕ → ℕ → VmPageObject → Outcome VmPageObject
exchange_loop zero obj o = do
  zx_assert (not (bit_and o.object_or_stack_owner is_stack_owner_flag == 0))
  ok (record o { object_or_stack_owner = obj })
exchange_loop (suc failures) obj o = do
  zx_assert (not (bit_and o.object_or_stack_owner is_stack_owner_flag == 0))
  exchange_loop failures obj o

unfoldable pub clear_stack_owner_internal : ℕ → ℕ → VmPageObject → Outcome VmPageObject
unfolding is_stack_owned exchange_loop
clear_stack_owner_internal failures obj o = do
  zx_assert (is_stack_owned o)
  exchange_loop failures obj o

unfoldable pub clear_stack_owner : ℕ → VmPageObject → Outcome VmPageObject
unfolding clear_stack_owner_internal
clear_stack_owner failures o = clear_stack_owner_internal failures 0 o

unfoldable pub set_object : ℕ → ℕ → VmPageObject → Outcome VmPageObject
unfolding is_stack_owned clear_stack_owner_internal
set_object failures obj o = do
  zx_assert (not (obj == 0))
  if is_stack_owned o
      then clear_stack_owner_internal failures obj o
      else ok (record o { object_or_stack_owner = obj })

unfoldable pub get_page_offset : VmPageObject → ℕ
get_page_offset o = o.page_offset_priv

unfoldable pub set_page_offset : ℕ → VmPageObject → VmPageObject
set_page_offset page_offset o = record o { page_offset_priv = page_offset }

unfoldable pub get_pin_count : VmPageObject → ℕ
get_pin_count o = o.pin_count

unfoldable pub set_pin_count : ℕ → VmPageObject → Outcome VmPageObject
set_pin_count count o =
    if ltb max_pin_count count then panic else ok (record o { pin_count = count })

-- `!` of a byte.
unfoldable pub byte_not : ℕ → ℕ
byte_not a = 255 - a

unfoldable pub cow_left_split : VmPageObject → Bool
cow_left_split o = not (bit_and o.pin_count left_split == 0)

unfoldable pub set_cow_left_split : Bool → VmPageObject → VmPageObject
unfolding byte_not
set_cow_left_split true o = record o { pin_count = bit_or o.pin_count left_split }
set_cow_left_split false o = record o { pin_count = bit_and o.pin_count (byte_not left_split) }

unfoldable pub cow_right_split : VmPageObject → Bool
cow_right_split o = not (bit_and o.pin_count right_split == 0)

unfoldable pub set_cow_right_split : Bool → VmPageObject → VmPageObject
unfolding byte_not
set_cow_right_split true o = record o { pin_count = bit_or o.pin_count right_split }
set_cow_right_split false o = record o { pin_count = bit_and o.pin_count (byte_not right_split) }

unfoldable pub always_need : VmPageObject → Bool
always_need o = not (bit_and o.pin_count always_need_bit == 0)

unfoldable pub set_always_need : Bool → VmPageObject → VmPageObject
unfolding byte_not
set_always_need true o = record o { pin_count = bit_or o.pin_count always_need_bit }
set_always_need false o = record o { pin_count = bit_and o.pin_count (byte_not always_need_bit) }

unfoldable pub get_dirty_state : VmPageObject → ℕ
get_dirty_state o = o.dirty_state

unfoldable pub set_dirty_state : ℕ → VmPageObject → Outcome VmPageObject
set_dirty_state dirty o =
    if leb dirty_state_num_states dirty then panic else ok (record o { dirty_state = dirty })

pub record VmPage : Type 0 where
  pub paddr : ℕ
  pub object : VmPageObject
  pub state : ℕ
  pub loaned_state : ℕ

-- The headers of all pages, by address, and their queue nodes.
pub record Pages : Type 0 where
  pub nodes : Memory
  pub page : ℕ → VmPage

unfoldable pub set_page : ℕ → VmPage → Pages → Pages
set_page a p ps = record ps { page = λ x. if x == a then p else ps.page x }

-- `vm_page::init` of the page at `a`: the object is left as it is.
unfoldable pub init_page : ℕ → ℕ → Pages → Pages
unfolding set_page init_node
init_page a paddr ps =
    let p = record (ps.page a) { paddr = paddr; state = free; loaned_state = 0 } in
    set_page a p (record ps { nodes = init_node a ps.nodes })

unfoldable pub get_state : VmPage → ℕ
get_state p = p.state

unfoldable pub set_state : ℕ → VmPage → VmPage
set_state new_state p = record p { state = new_state }

unfoldable pub is_free : VmPage → Bool
unfolding get_state
is_free p = get_state p == free

unfoldable pub is_loaned : VmPage → Bool
is_loaned p = bit_and p.loaned_state loaned_state_is_loaned == loaned_state_is_loaned
