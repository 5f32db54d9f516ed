-- ===== src/LinkedList.antt =====
-- kernel/src/klib/list.rs: the intrusive doubly linked list. Memory gives the links of the node at
-- every address and 0 is null; an element is named by the address of its node (`from_node` and
-- `into_node` only add a constant), a list by the address of its own node, `ref_node`.
pub mod Chain
pub mod Ops
pub mod Walk
pub mod Frame
pub mod Family
pub mod Tests
use score.Base.{
  ℕ, zero, suc, ◌+◌, Bool, List, [], ◌∷◌, Option, none, some, ◌||◌, not, ◌==◌, if◌then◌else◌,
  Outcome, ok, panic, out_of_fuel,
}

pub record ListNode : Type 0 where
  pub next : ℕ
  pub prev : ℕ

abbrev pub Memory : Type 0
Memory = ℕ → ListNode

unfoldable pub set_next : ℕ → ℕ → Memory → Memory
set_next a v m = λ x. if x == a then record { next = v; prev = (m x).prev } else m x

unfoldable pub set_prev : ℕ → ℕ → Memory → Memory
set_prev a v m = λ x. if x == a then record { next = (m x).next; prev = v } else m x

-- `ListNode::init`.
unfoldable pub init_node : ℕ → Memory → Memory
unfolding set_next set_prev
init_node n m = set_prev n 0 (set_next n 0 m)

unfoldable pub is_in_list : ℕ → Memory → Bool
is_in_list n m = not ((m n).next == 0)

unfoldable pub delete_from_list : ℕ → Memory → Memory
unfolding set_next set_prev
delete_from_list n m =
    if ((m n).prev == 0) || ((m n).next == 0)
    then m
    else (let m1 = set_prev (m n).next (m n).prev m in
        let m2 = set_next (m1 n).prev (m1 n).next m1 in set_prev n 0 (set_next n 0 m2))

-- `List::init`.
unfoldable pub init : ℕ → Memory → Memory
unfolding set_next set_prev
init r m = set_prev r r (set_next r r m)

unfoldable pub empty : ℕ → Memory → Bool
empty r m = (m r).next == r

unfoldable pub head : ℕ → Memory → ℕ
head r m = (m r).next

unfoldable pub tail : ℕ → Memory → ℕ
tail r m = (m r).prev

unfoldable pub add_head : ℕ → ℕ → Memory → Memory
unfolding set_next set_prev
add_head r n m =
    let m1 = set_next n (m r).next m in
    let m2 = set_prev n r m1 in let m3 = set_prev (m2 r).next n m2 in set_next r n m3

unfoldable pub add_tail : ℕ → ℕ → Memory → Memory
unfolding set_next set_prev
add_tail r n m =
    let m1 = set_prev n (m r).prev m in
    let m2 = set_next n r m1 in let m3 = set_next (m2 r).prev n m2 in set_prev r n m3

-- Null for an empty list, else the head, unlinked.
unfoldable pub pop_head : ℕ → Memory → ℕ × Memory
unfolding delete_from_list
pop_head r m = if (m r).next == r then (0, m) else ((m r).next, delete_from_list (m r).next m)

unfoldable pub splice : ℕ → ℕ → Memory → Memory
unfolding init set_next set_prev
splice r o m =
    if (m o).prev == o
    then m
    else (let m1 = set_prev (m o).next (m r).prev m in
        let m2 = set_next (m1 o).prev r m1 in
        let m3 = set_next (m2 r).prev (m2 o).next m2 in
        let m4 = set_prev r (m3 o).prev m3 in init o m4)

-- The loop of `_len`, from a node on.
unfoldable pub len_loop : ℕ → ℕ → ℕ → ℕ → Memory → Outcome ℕ
len_loop zero r x n m = out_of_fuel
len_loop (suc fuel) r x n m =
    let rest = len_loop fuel r (m x).next (n + 1) m in if x == r then ok n else rest

unfoldable pub len : ℕ → ℕ → Memory → Outcome ℕ
unfolding len_loop
len fuel r m = if (m r).next == 0 then panic else len_loop fuel r (m r).next 0 m

-- `Iter` and `IterMut`: the cursor starts at the first node, and `next` moves it before it reads it.
unfoldable pub iter_next : ℕ → ℕ → Memory → Option (ℕ × ℕ)
iter_next r cursor m = if cursor == r then none else some ((m cursor).next, (m cursor).next)

-- What a `for` loop over `iter` visits, in so many rounds at most.
unfoldable pub iter_loop : ℕ → ℕ → ℕ → Memory → List ℕ
unfolding iter_next
iter_loop zero r cursor m = []
iter_loop (suc fuel) r cursor m = elim (iter_next r cursor m) [
  | none ↦ []
  | some (item, cursor') ↦ item ∷ iter_loop fuel r cursor' m
]

unfoldable pub iter : ℕ → ℕ → Memory → List ℕ
unfolding iter_loop
iter fuel r m = iter_loop fuel r (m r).next m
