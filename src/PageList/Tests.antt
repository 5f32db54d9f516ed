-- ===== src/PageList/Tests.antt =====
-- Runs of vm_page_list.rs: on a list with no node, and on one with two.
use score.Base.{
  replicate, ℕ, List, [], ◌∷◌, Outcome, refl, arith, ◌≤◌, ◌≡◌, ◌⊎◌, ok, err, out_of_range,
}
use score.Rbtree.{node, leaf, black, red, new, get, find_node}
use score.Rbtree.Entries.{to_list}
use score.PageList.InRange.{for_every_page_in_range-visit_nodes}
use score.PageList.Walk.{visit_nodes}
use score.PageList.{
  VmPageListNode, is_empty, for_every_page_in_range, VmPageList, offset_to_node_offset,
  offset_to_node_index, lookup_or_allocate, max_size,
}
use score.PageList.Slots.{IsPageList, IsSlot, lookup_or_allocate-IsSlot}

abbrev no_pages : VmPageList
no_pages = record { list = new; list_skew = 0 }

no_pages-IsPageList : IsPageList no_pages
unfolding new to_list get find_node
no_pages-IsPageList = record { rising = tt; full = λ key pln h. absurd (cc) }

lookup_or_allocate-IsSlot_example :
    ((max_size ≤ offset_to_node_offset 70000 0)
      × (lookup_or_allocate 70000 no_pages ≡ err out_of_range))
    ⊎ ((m : VmPageList) × (lookup_or_allocate 70000 no_pages
          ≡ ok (m, offset_to_node_offset 70000 0, offset_to_node_index 70000 0))
        × IsSlot (offset_to_node_offset 70000 0) (offset_to_node_index 70000 0) no_pages m)
lookup_or_allocate-IsSlot_example = lookup_or_allocate-IsSlot 70000 no_pages no_pages-IsPageList

-- Pages at offsets 12288, 65536 and 77824.
abbrev first_node : VmPageListNode
first_node = record { obj_offset = 0; pages = 0 ∷ 0 ∷ 0 ∷ 8192 ∷ replicate 12 0 }

abbrev second_node : VmPageListNode
second_node = record { obj_offset = 65536; pages = 16384 ∷ 0 ∷ 0 ∷ 20480 ∷ replicate 12 0 }

abbrev three_pages : VmPageList
three_pages = record {
  list = record {
    root = node black leaf 0 first_node (node red leaf 65536 second_node leaf);
    len = 2;
  };
  list_skew = 0;
}

abbrev note : ℕ → ℕ → List (ℕ × ℕ) → Outcome (List (ℕ × ℕ))
note raw offset seen = ok ((raw, offset) ∷ seen)

-- The range from 8192 to 73728 has the first two of the pages.
visit_two :
    visit_nodes note 0 8192 73728 ((0, first_node) ∷ (65536, second_node) ∷ []) []
    ≡ ok ((16384, 65536) ∷ (8192, 12288) ∷ [])
unfolding visit_nodes is_empty
visit_two = refl

for_every_page_in_range-visit_nodes_example :
    for_every_page_in_range note 8192 73728 three_pages []
    ≡ visit_nodes note 0 8192 73728 ((0, first_node) ∷ (65536, second_node) ∷ []) []
unfolding to_list
for_every_page_in_range-visit_nodes_example =
    for_every_page_in_range-visit_nodes note 8192 73728 three_pages [] ((omega arith, tt), (tt, tt))
      ((refl, refl, omega arith, omega arith), ((refl, refl, omega arith, omega arith), tt))
      (omega arith)
