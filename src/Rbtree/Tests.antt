-- ===== src/Rbtree/Tests.antt =====
-- Runs of rbtree.rs on a tree of three keys.
use score.Base.{
  ℕ, ◌+◌, ◌/◌, ◌^◌, ◌≤◌, ◌≡◌, refl, false, some, List, [], ◌∷◌, arith, ◌==◌, if◌then◌else◌,
}
use score.Rbtree.{
  red, black, Tree, leaf, node, is_red_color, first_child, find_node, RbTree, insert, get,
  contains_key, lower_bound, upper_bound,
}
use score.Rbtree.Entries.{to_list, Sorted, insert_entry, to_list-insert, beyond}
use score.Rbtree.Balance.{IsRedBlack, insert-IsRedBlack}
use score.Rbtree.Height.{insert_all, height, insert_all-height}
use score.Rbtree.Lookup.{IsRising, get-insert}
use score.Rbtree.Cursor.{collect, iter-visits_all, at_least, bound-visits}

abbrev tree : Tree ℕ
tree = node black (node red leaf 10 1 leaf) 20 2 (node red leaf 30 3 leaf)

abbrev three : RbTree ℕ
three = record { root = tree; len = 3 }

abbrev entries : List (ℕ × ℕ)
entries = (10, 1) ∷ (20, 2) ∷ (30, 3) ∷ []

tree-entries : to_list tree ≡ entries
unfolding to_list
tree-entries = refl

tree-Sorted : Sorted (to_list tree)
tree-Sorted = rw tree-entries (ground arith)

tree-IsRising : IsRising (to_list tree)
tree-IsRising = rw tree-entries (ground arith)

tree-IsRedBlack : IsRedBlack tree
tree-IsRedBlack = ground arith

to_list-insert_example :
    (to_list (insert 25 7 three).root ≡ insert_entry 25 7 (to_list tree))
    × ((insert 25 7 three).len ≡ 4)
to_list-insert_example = to_list-insert 25 7 three tree-Sorted

insert-IsRedBlack_example :
    IsRedBlack (insert 25 7 three).root × (is_red_color (insert 25 7 three).root ≡ false)
insert-IsRedBlack_example = insert-IsRedBlack 25 7 three tree-IsRedBlack refl

-- Seven keys in falling order, where the tree must turn.
abbrev seven : List (ℕ × ℕ)
seven = (1, 1) ∷ (2, 2) ∷ (3, 3) ∷ (4, 4) ∷ (5, 5) ∷ (6, 6) ∷ (7, 7) ∷ []

insert_all-height_example :
    ((insert_all seven).len ≡ 7)
    × (2 ^ (height (insert_all seven).root / 2) ≤ (insert_all seven).len + 1)
insert_all-height_example = insert_all-height seven

get-insert_example :
    (get 30 (insert 25 7 three) ≡ (if 30 == 25 then some 7 else get 30 three))
    × IsRising (to_list (insert 25 7 three).root)
get-insert_example = get-insert 25 30 7 three tree-IsRising (unfold contains_key find_node in refl)

iter-visits_all_example : collect 3 (first_child tree) ≡ to_list tree
iter-visits_all_example = iter-visits_all 3 tree (unfold to_list in omega arith)

bound-visits_example :
    (collect 3 (lower_bound 15 three) ≡ at_least 15 (to_list tree))
    × (collect 3 (upper_bound 15 three) ≡ beyond 15 (to_list tree))
bound-visits_example = bound-visits 3 15 three tree-Sorted (unfold to_list in omega arith)
