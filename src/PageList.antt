-- ===== src/PageList.antt =====
-- kernel/src/vm/vm_page_list.rs: the pages of an object, in nodes of sixteen in a red-black tree.
pub mod Slots
pub mod Walk
pub mod Nodes
pub mod InRange
pub mod Tests
use Prim.Native.Nat.{bit_and, bit_or}
use score.Base.{
  ℕ, ◌+◌, ◌*◌, ◌-◌, zero, suc, ◌/◌, ◌%◌, Bool, true, false, not, ◌&&◌, ◌||◌, List, Option, none,
  some, ltb, leb, ◌==◌, if◌then◌else◌, get_or, replicate, Outcome, ok, err, panic, ◌>>=◌, ◌>>◌,
  zx_assert, out_of_range, out_of_fuel, get_elem?, min, length,
}
use score.Base.{set as set_elem}
use score.Base.Word.{usize_max, wadd, wsub}
use score.Align.{rounddown, page_size, page_shift}
use score.Rbtree.Entries.{to_list}
use score.Rbtree.{RbTree, Place, lower_bound, next, get, insert, contains_key, get_mut_set}

-- The kinds of an entry, in its low two bits; an entry is named by `raw`.
abbrev pub page_type : ℕ
page_type = 0

abbrev pub zero_marker_type : ℕ
zero_marker_type = 1

abbrev pub reference_type : ℕ
reference_type = 2

unfoldable pub get_type : ℕ → ℕ
get_type raw = bit_and raw 3

unfoldable pub is_empty : ℕ → Bool
is_empty raw = raw == page_type

unfoldable pub is_page : ℕ → Bool
unfolding is_empty get_type
is_page raw = not (is_empty raw) && (get_type raw == page_type)

unfoldable pub is_marker : ℕ → Bool
unfolding get_type
is_marker raw = get_type raw == zero_marker_type

unfoldable pub is_reference : ℕ → Bool
unfolding get_type
is_reference raw = get_type raw == reference_type

unfoldable pub as_page : ℕ → Outcome ℕ
as_page raw = do
  zx_assert (not (raw == 0))
  zx_assert (bit_and raw 3 == 0)
  ok (bit_or raw page_type)

-- `set` of a page; anything else is not supported.
unfoldable pub set_entry : ℕ → Outcome ℕ
unfolding is_page
set_entry raw =
    if is_page raw then zx_assert (bit_and raw 3 == 0) >> ok (bit_or raw page_type) else panic

abbrev pub fan_out : ℕ
fan_out = 16

pub record VmPageListNode : Type 0 where
  pub obj_offset : ℕ
  pub pages : List ℕ

unfoldable pub new_node : ℕ → VmPageListNode
new_node obj_offset = record { obj_offset = obj_offset; pages = replicate fan_out page_type }

pub record VmPageList : Type 0 where
  pub list : RbTree VmPageListNode
  pub list_skew : ℕ

abbrev pub max_size : ℕ
max_size = rounddown usize_max (2 * fan_out * page_size)

unfoldable pub offset_to_node_offset : ℕ → ℕ → ℕ
unfolding rounddown
offset_to_node_offset offset skew = rounddown (wadd offset skew) (page_size * fan_out)

unfoldable pub offset_to_node_index : ℕ → ℕ → ℕ
offset_to_node_index offset skew = wadd offset skew / page_size % fan_out

-- The node that `lookup_or_allocate` makes if there is none.
unfoldable pub allocate : ℕ → RbTree VmPageListNode → RbTree VmPageListNode
unfolding new_node
allocate node_offset list =
    if contains_key node_offset list then list else insert node_offset (new_node node_offset) list

-- The reference that is returned is named by the node's key and the index in the node.
unfoldable pub lookup_or_allocate : ℕ → VmPageList → Outcome (VmPageList × ℕ × ℕ)
unfolding allocate
lookup_or_allocate offset l =
    let node_offset = offset_to_node_offset offset l.list_skew in
    let index = offset_to_node_index offset l.list_skew in
    if leb max_size node_offset
    then err out_of_range
    else (let list = allocate node_offset l.list in
        elim (get node_offset list) [
          | some pln ↦
              zx_assert (ltb index fan_out) >> ok (record l { list = list }, node_offset, index)
          | none ↦ panic
        ])

-- A write through that reference.
unfoldable pub write_entry : ℕ → ℕ → ℕ → VmPageList → VmPageList
write_entry key index raw l = elim (get key l.list) [
  | none ↦ l
  | some pln ↦ record l {
    list = get_mut_set key (record pln { pages = set_elem pln.pages index raw }) l.list;
  }
]

unfoldable pub end_offset : VmPageListNode → ℕ
end_offset pln = wadd pln.obj_offset (fan_out * page_size)

-- The walks call a function with an entry and its offset; it changes a state of its own, `T`.
module _ {ℓ} {T : Type ℓ} (per_page_func : ℕ → ℕ → T → Outcome T) (skew : ℕ) where
  -- The loop over the indices from `i` on, `n` of them.
  unfoldable pub visit_pages : List ℕ → ℕ → ℕ → ℕ → T → Outcome T
  unfolding is_empty
  visit_pages pages offset i zero t = ok t
  visit_pages pages offset i (suc n) t = elim (get_elem? pages i) [
    | none ↦ panic
    | some raw ↦
        (if is_empty raw
          then ok t
          else per_page_func raw (wsub (wadd offset (i * page_size)) skew) t)
        >>= λ u. visit_pages pages offset (suc i) n u
  ]

  unfoldable pub node_range : VmPageListNode → ℕ → ℕ → T → Outcome T
  node_range pln start_offset end t =
      zx_assert (leb start_offset end)
      >> (zx_assert (leb pln.obj_offset start_offset)
          >> (zx_assert (leb end (end_offset pln))
              >> (let start = (start_offset - pln.obj_offset) / page_size in
                  let stop = (end - pln.obj_offset) / page_size in
                  visit_pages pln.pages pln.obj_offset start (stop - start) t)))

  unfoldable pub for_every_page : VmPageListNode → T → Outcome T
  for_every_page pln t = node_range pln pln.obj_offset (end_offset pln) t

  -- The nodes from the cursor on: the loop over the full ones, then the last.
  unfoldable pub full_nodes : ℕ → ℕ → ℕ → Place VmPageListNode → T → Outcome T
  full_nodes start end zero c t = out_of_fuel
  full_nodes start end (suc n) c t =
      if ltb (end_offset c.value) end
      then (zx_assert (leb start c.value.obj_offset)
          >> (for_every_page c.value t >>= λ u. elim (next c) [
            | none ↦ ok u
            | some d ↦ full_nodes start end n d u
          ]))
      else (if ltb c.value.obj_offset end
          then (zx_assert (leb end (end_offset c.value))
              >> node_range c.value c.value.obj_offset end t)
          else ok t)

unfoldable pub for_every_page_in_range {ℓ} :
    {T : Type ℓ} → (ℕ → ℕ → T → Outcome T) → ℕ → ℕ → VmPageList → T → Outcome T
for_every_page_in_range per_page_func start_offset end l t =
    let skew = l.list_skew in
    let start = wadd start_offset skew in
    let stop = wadd end skew in
    let rounds = length (to_list l.list.root) in
    elim (lower_bound (rounddown start (fan_out * page_size)) l.list) [
      | none ↦ ok t
      | some c ↦
          if ltb c.value.obj_offset start
          then (node_range per_page_func skew c.value start (min stop (end_offset c.value)) t
              >>= λ u. elim (next c) [
                | none ↦ ok u
                | some d ↦ full_nodes per_page_func skew start stop rounds d u
              ])
          else full_nodes per_page_func skew start stop rounds c t
    ]
