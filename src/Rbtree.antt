-- ===== src/Rbtree.antt =====
-- kernel/src/klib/rbtree.rs, with `usize` keys as in its one use (vm/vm_page_list.rs). A `NodePtr`
-- is a place in the tree: the subtree under it and the path of parents above it, so that following
-- `parent` is taking the last step of the path back. A null pointer is `leaf` or `top`.
pub mod Entries
pub mod Lookup
pub mod Balance
pub mod Height
pub mod Cursor
pub mod Tests
use score.Base.{ℕ, ◌+◌, Bool, true, false, Option, none, some, ltb, leb, if◌then◌else◌}

pub data Color : Type 0 where
  red black : Color

pub data Tree {ℓ} (V : Type ℓ) : Type ℓ where
  leaf : Tree V
  node : Color → Tree V → ℕ → V → Tree V → Tree V

-- The parents of a place, nearest first: in `left_of` the place is the left child, and the step
-- holds the parent's colour, key, value and right child.
pub data Parents {ℓ} (V : Type ℓ) : Type ℓ where
  top : Parents V
  left_of : Color → ℕ → V → Tree V → Parents V → Parents V
  right_of : Color → Tree V → ℕ → V → Parents V → Parents V

-- The nodes above a place and below it are one tree.
unfoldable pub zip {ℓ} : {V : Type ℓ} → Tree V → Parents V → Tree V
zip t top = t
zip t (left_of c k v r p) = zip (node c t k v r) p
zip t (right_of c l k v p) = zip (node c l k v t) p

abbrev pub is_red_color {ℓ} : {V : Type ℓ} → Tree V → Bool
is_red_color leaf = false
is_red_color (node red l k v r) = true
is_red_color (node black l k v r) = false

abbrev pub set_black_color {ℓ} : {V : Type ℓ} → Tree V → Tree V
set_black_color leaf = leaf
set_black_color (node c l k v r) = node black l k v r

-- With no child to lift, the link to the rotated node becomes null.
unfoldable pub left_rotate {ℓ} : {V : Type ℓ} → Tree V → Tree V
left_rotate leaf = leaf
left_rotate (node c l k v leaf) = leaf
left_rotate (node c l k v (node d m j w r)) = node d (node c l k v m) j w r

unfoldable pub right_rotate {ℓ} : {V : Type ℓ} → Tree V → Tree V
right_rotate leaf = leaf
right_rotate (node c leaf k v r) = leaf
right_rotate (node c (node d l j w m) k v r) = node d l j w (node c m k v r)

-- `insert_fixup` at the place of `node`, up to the last line, which blackens the root. Each clause
-- with two parents is one round of the loop: a red uncle moves the place two steps up, and a black
-- one ends the loop after the rotations. A red parent with no parent takes the `else` branch.
unfoldable pub insert_fixup {ℓ} : {V : Type ℓ} → Tree V → Parents V → Tree V
unfolding zip left_rotate right_rotate
insert_fixup t top = t
insert_fixup t (left_of black k v r p) = zip (node black t k v r) p
insert_fixup t (right_of black l k v p) = zip (node black l k v t) p
insert_fixup t (left_of red k v r top) = set_black_color (right_rotate (node red t k v r))
insert_fixup t (right_of red l k v top) = set_black_color (node red l k v t)
insert_fixup t (left_of red k v r (left_of c j w uncle p)) = elim (is_red_color uncle) [
  | true ↦ insert_fixup (node red (node black t k v r) j w (set_black_color uncle)) p
  | false ↦ zip (right_rotate (node red (set_black_color (node red t k v r)) j w uncle)) p
]
insert_fixup t (right_of red l k v (left_of c j w uncle p)) = elim (is_red_color uncle) [
  | true ↦ insert_fixup (node red (node black l k v t) j w (set_black_color uncle)) p
  | false ↦
      zip (right_rotate (node red (set_black_color (left_rotate (node red l k v t))) j w uncle)) p
]
insert_fixup t (left_of red k v r (right_of c uncle j w p)) = elim (is_red_color uncle) [
  | true ↦ insert_fixup (node red (set_black_color uncle) j w (node black t k v r)) p
  | false ↦
      zip (left_rotate (node red uncle j w (set_black_color (right_rotate (node red t k v r))))) p
]
insert_fixup t (right_of red l k v (right_of c uncle j w p)) = elim (is_red_color uncle) [
  | true ↦ insert_fixup (node red (set_black_color uncle) j w (node black l k v t)) p
  | false ↦ zip (left_rotate (node red uncle j w (set_black_color (node red l k v t)))) p
]

-- The search of `insert` for the null link that takes the new node: an equal key goes right.
unfoldable pub descend {ℓ} : {V : Type ℓ} → ℕ → Tree V → Parents V → Parents V
descend q leaf p = p
descend q (node c l k v r) p = elim (ltb q k) [
  | true ↦ descend q l (left_of c k v r p)
  | false ↦ descend q r (right_of c l k v p)
]

-- `len` counts without the wrap at 2 ^ 64, which no tree in memory reaches.
pub record RbTree {ℓ} (V : Type ℓ) : Type ℓ where
  pub root : Tree V
  pub len : ℕ

unfoldable pub new {ℓ} : {V : Type ℓ} → RbTree V
new = record { root = leaf; len = 0 }

unfoldable pub insert {ℓ} : {V : Type ℓ} → ℕ → V → RbTree V → RbTree V
unfolding insert_fixup descend
insert q w m = record {
  root = set_black_color (insert_fixup (node red leaf q w leaf) (descend q m.root top));
  len = m.len + 1;
}

-- `find_node`, read for its value as `get` and `get_mut` do.
unfoldable pub find_node {ℓ} : {V : Type ℓ} → ℕ → Tree V → Option V
find_node q leaf = none
find_node q (node c l k v r) = elim (ltb q k) [
  | true ↦ find_node q l
  | false ↦ elim (ltb k q) [ true ↦ find_node q r | false ↦ some v ]
]

unfoldable pub get {ℓ} : {V : Type ℓ} → ℕ → RbTree V → Option V
unfolding find_node
get q m = find_node q m.root

-- A write through the reference that `get_mut` returns.
unfoldable pub set_node {ℓ} : {V : Type ℓ} → ℕ → V → Tree V → Tree V
set_node q w leaf = leaf
set_node q w (node c l k v r) = elim (ltb q k) [
  | true ↦ node c (set_node q w l) k v r
  | false ↦ elim (ltb k q) [ true ↦ node c l k v (set_node q w r) | false ↦ node c l k w r ]
]

unfoldable pub get_mut_set {ℓ} : {V : Type ℓ} → ℕ → V → RbTree V → RbTree V
unfolding set_node
get_mut_set q w m = record m { root = set_node q w m.root }

abbrev pub is_some {ℓ} : {A : Type ℓ} → Option A → Bool
is_some none = false
is_some (some a) = true

unfoldable pub contains_key {ℓ} : {V : Type ℓ} → ℕ → RbTree V → Bool
unfolding find_node
contains_key q m = is_some (find_node q m.root)

-- `IterMut`: a null cursor is `none`; a cursor on a node is the subtree's parts and its path.
pub record Place {ℓ} (V : Type ℓ) : Type ℓ where
  pub color : Color
  pub left : Tree V
  pub key : ℕ
  pub value : V
  pub right : Tree V
  pub path : Parents V

abbrev pub place {ℓ} : {V : Type ℓ} → Color → Tree V → ℕ → V → Tree V → Parents V → Place V
place c l k v r p = record { color = c; left = l; key = k; value = v; right = r; path = p }

-- `min_node` of the non-null node whose parts are given.
unfoldable pub min_node {ℓ} : {V : Type ℓ} → Color → Tree V → ℕ → V → Tree V → Parents V → Place V
min_node c leaf k v r p = place c leaf k v r p
min_node c (node d ll j w lr) k v r p = min_node d ll j w lr (left_of c k v r p)

unfoldable pub first_child {ℓ} : {V : Type ℓ} → Tree V → Option (Place V)
unfolding min_node
first_child leaf = none
first_child (node c l k v r) = some (min_node c l k v r top)

-- The loop of `NodePtr::next`: up to the first parent of which the place is in the left child.
unfoldable pub climb {ℓ} : {V : Type ℓ} → Tree V → Parents V → Option (Place V)
climb t top = none
climb t (left_of c k v r p) = some (place c t k v r p)
climb t (right_of c l k v p) = climb (node c l k v t) p

next_from {ℓ} : {V : Type ℓ} → Tree V → Place V → Option (Place V)
unfolding climb min_node
next_from leaf c = climb (node c.color c.left c.key c.value leaf) c.path
next_from (node d l j w r) c =
    some (min_node d l j w r (right_of c.color c.left c.key c.value c.path))

unfoldable pub next {ℓ} : {V : Type ℓ} → Place V → Option (Place V)
unfolding next_from
next c = next_from c.right c

-- The loop of `bound`: the last node at which it turned left is the one found.
unfoldable pub bound {ℓ} :
    {V : Type ℓ} → Bool → ℕ → Tree V → Parents V → Option (Place V) → Option (Place V)
bound strict q leaf p found = found
bound strict q (node c l k v r) p found = elim (if strict then leb k q else ltb k q) [
  | true ↦ bound strict q r (right_of c l k v p) found
  | false ↦ bound strict q l (left_of c k v r p) (some (place c l k v r p))
]

unfoldable pub lower_bound {ℓ} : {V : Type ℓ} → ℕ → RbTree V → Option (Place V)
unfolding bound
lower_bound q m = bound false q m.root top none

unfoldable pub upper_bound {ℓ} : {V : Type ℓ} → ℕ → RbTree V → Option (Place V)
unfolding bound
upper_bound q m = bound true q m.root top none
