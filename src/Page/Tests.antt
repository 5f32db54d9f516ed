-- ===== src/Page/Tests.antt =====
-- A page with an object, and one with a stack owner.
use score.Base.{◌+◌, ◌%◌, ◌≤◌, ◌<◌, ◌⊎◌, ◌≡◌, refl, arith, true, false, ok, panic}
use score.Page.{
  VmPageObject, get_object, is_stack_owned, set_object, clear_stack_owner, cow_left_split,
  set_cow_left_split, cow_right_split, set_cow_right_split, always_need, set_always_need,
  get_pin_count, set_pin_count,
}
use score.Page.Bytes.{set_flags_lem, set_pin_count_lem}
use score.Page.Owner.{set_object-get_object}

abbrev stack_page : VmPageObject
stack_page = record {
  object_or_stack_owner = 4097;
  page_offset_priv = 0;
  page_queue = 0;
  pin_count = 0;
  dirty_state = 0;
}

set_object-get_object_example :
    ((q : VmPageObject) × (set_object 2 8192 stack_page ≡ ok q)
      × (q ≡ record stack_page { object_or_stack_owner = 8192 })
      × (get_object q ≡ 8192)
      × (is_stack_owned q ≡ false)
      × (clear_stack_owner 2 q ≡ panic)
      × (set_object 2 0 q ≡ panic))
set_object-get_object_example = set_object-get_object 2 8192 stack_page (ground arith) refl

set_flags_lem_example :
    ((cow_left_split (set_cow_left_split true stack_page) ≡ true)
      × (cow_right_split (set_cow_left_split true stack_page) ≡ cow_right_split stack_page)
      × (always_need (set_cow_left_split true stack_page) ≡ always_need stack_page)
      × (get_pin_count (set_cow_left_split true stack_page) % 32 ≡ get_pin_count stack_page % 32))
    × ((cow_left_split (set_cow_right_split true stack_page) ≡ cow_left_split stack_page)
        × (cow_right_split (set_cow_right_split true stack_page) ≡ true)
        × (always_need (set_cow_right_split true stack_page) ≡ always_need stack_page)
        × (get_pin_count (set_cow_right_split true stack_page) % 32
            ≡ get_pin_count stack_page % 32))
    × ((cow_left_split (set_always_need true stack_page) ≡ cow_left_split stack_page)
        × (cow_right_split (set_always_need true stack_page) ≡ cow_right_split stack_page)
        × (always_need (set_always_need true stack_page) ≡ true)
        × (get_pin_count (set_always_need true stack_page) % 32 ≡ get_pin_count stack_page % 32))
set_flags_lem_example = set_flags_lem stack_page true

set_pin_count_lem_example :
    (3 ≤ 31
      × ((q : VmPageObject) × (set_pin_count 3 stack_page ≡ ok q)
          × (get_pin_count q ≡ 3)
          × (cow_left_split q ≡ false)
          × (cow_right_split q ≡ false)
          × (always_need q ≡ false)
          × (get_pin_count (set_cow_left_split true q) ≡ 32 + 3)
          × (get_pin_count (set_cow_right_split true q) ≡ 64 + 3)
          × (get_pin_count (set_always_need true q) ≡ 128 + 3)))
    ⊎ (31 < 3 × (set_pin_count 3 stack_page ≡ panic))
set_pin_count_lem_example = set_pin_count_lem 3 stack_page
