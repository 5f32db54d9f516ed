-- ===== src/PageList/Slots.antt =====
-- What a page list holds at every slot, and how `lookup_or_allocate` and a write through its reference
-- change it.
use score.Base.{
  ℕ, zero, suc, ◌≢◌, ◌+◌, ◌%◌, ◌<◌, ◌≤◌, ◌≡◌, refl, ap, ◌∙◌, inl, inr, Bool, true, false, ◌&&◌,
  Option, none, some, arith, leb, ◌==◌, ==_iff, if◌then◌else◌, Bool-cases, Option-cases, get_or,
  length, replicate, ◌*◌, ◌⊎◌, lt→ltb, ltb→lt, leb→le, get_or-set_self, get_or-set_ne, ok, err,
  out_of_range, ltb,
}
use score.Base.{set as set_elem}
use score.Base.Word.{wadd, usize_mod}
use score.Align.{rounddown_lem, page_size, IsPower}
use score.Rbtree.{RbTree, get, insert, contains_key, get_mut_set, is_some}
use score.Rbtree.Entries.{to_list}
use score.Rbtree.Lookup.{IsRising, get-insert, get-get_mut_set}
use score.PageList.{
  VmPageListNode, new_node, VmPageList, offset_to_node_offset, offset_to_node_index, allocate,
  lookup_or_allocate, write_entry, max_size, fan_out,
}

-- The entry at an index of the node of a key; 0, which is the empty entry, where there is no node.
abbrev pub entry_of : Option VmPageListNode → ℕ → ℕ
entry_of none index = 0
entry_of (some pln) index = get_or pln.pages index 0

abbrev pub entry_at : ℕ → ℕ → VmPageList → ℕ
entry_at key index l = entry_of (get key l.list) index

-- The nodes stand in the order of their keys, and each has its sixteen entries.
pub record IsPageList (l : VmPageList) : Type 0 where
  pub rising : IsRising (to_list l.list.root)
  pub full :
      (key : ℕ) (pln : VmPageListNode) → get key l.list ≡ some pln → length pln.pages ≡ fan_out

get_or-replicate : (n index : ℕ) → get_or (replicate {A = ℕ} n 0) index 0 ≡ 0
get_or-replicate zero index = refl
get_or-replicate (suc n) zero = refl
get_or-replicate (suc n) (suc index) = get_or-replicate n index

length-replicate : (n : ℕ) → length (replicate {A = ℕ} n 0) ≡ n
length-replicate zero = refl
length-replicate (suc n) = ap suc (length-replicate n)

contains-get : (key : ℕ) (t : RbTree VmPageListNode) → contains_key key t ≡ is_some (get key t)
unfolding contains_key get
contains-get key t = refl

not_contained :
    (key : ℕ) (t : RbTree VmPageListNode) → contains_key key t ≡ false → get key t ≡ none
not_contained key t h = elim (Option-cases (get key t)) [
  | inl e ↦ e
  | inr (a, e) ↦ absurd (ground (arith, contains-get key t))
]

contained :
    (key : ℕ) (t : RbTree VmPageListNode)
    → contains_key key t ≡ true
    → (n : VmPageListNode) × (get key t ≡ some n)
contained key t h = elim (Option-cases (get key t)) [
  | inl e ↦ absurd (ground (arith, contains-get key t))
  | inr x ↦ x
]

-- The tree with the node of the key, made if it was not there.
record Allocated (key : ℕ) (t u : RbTree VmPageListNode) : Type 0 where
  rising : IsRising (to_list u.root)
  there : (n : VmPageListNode) × (get key u ≡ some n)
  same : (j index : ℕ) → entry_of (get j u) index ≡ entry_of (get j t) index
  full :
      ((j : ℕ) (n : VmPageListNode) → get j t ≡ some n → length n.pages ≡ fan_out)
      → (j : ℕ) (n : VmPageListNode) → get j u ≡ some n
      → length n.pages ≡ fan_out

allocate-Allocated :
    (key : ℕ) (t : RbTree VmPageListNode)
    → IsRising (to_list t.root)
    → Allocated key t (allocate key t)
unfolding allocate
allocate-Allocated key t r = elim (Bool-cases (contains_key key t)) [
  | inl e ↦
      rw e (record { rising = r; there = contained key t e; same = λ j index. refl; full = λ f. f })
  | inr e ↦
      let none_before = not_contained key t e in
      let new : (j : ℕ)
          → get j (insert key (new_node key) t)
            ≡ (if j == key then some (new_node key) else get j t) =
        λ j. (get-insert key j (new_node key) t r e).0 in
      rw e (record {
        rising = (get-insert key key (new_node key) t r e).1;
        there = (new_node key, ground (arith, new key));
        same = λ j index. elim (Bool-cases (j == key)) [
          | inl f ↦
              let g : j ≡ key = (==_iff j key).0 f in
              rw (new j, f, g, none_before) (unfold new_node in get_or-replicate fan_out index)
          | inr f ↦ rw (new j, f) refl
        ];
        full = λ f j n h. elim (Bool-cases (j == key)) [
          | inl g ↦
              let k : new_node key ≡ n = ground (arith, new j) in
              rw (← k) (unfold new_node in length-replicate fan_out)
          | inr g ↦ f j n (ground (arith, new j))
        ];
      })
]

-- A write through the reference.
write-entry :
    (key index raw j i : ℕ) (l : VmPageList) (n : VmPageListNode)
    → get key l.list ≡ some n
    → index < length n.pages
    → entry_at j i (write_entry key index raw l)
      ≡ (if j == key && i == index then raw else entry_at j i l)
unfolding write_entry
write-entry key index raw j i l n h less =
    let pln : VmPageListNode = record n { pages = set_elem n.pages index raw } in
    let c : contains_key key l.list ≡ true = contains-get key l.list ∙ ap is_some h in
    let g : get j (get_mut_set key pln l.list) ≡ (if j == key then some pln else get j l.list) =
      get-get_mut_set key j pln l.list
      ∙ ap (λ (b : Bool). if j == key then (if b then some pln else none) else get j l.list) c in
    rw (h, write_entry)
      (elim (Bool-cases (j == key)) [
        | inl e ↦
            let f : j ≡ key = (==_iff j key).0 e in
            elim (Bool-cases (i == index)) [
              | inl d ↦
                  let q : i ≡ index = (==_iff i index).0 d in
                  rw (g, e, d, q) (get_or-set_self n.pages index raw 0 less)
              | inr d ↦
                  let q : index ≢ i = λ w. absurd (ground arith) in
                  rw (g, e, d, f, h) (get_or-set_ne n.pages index i raw 0 q)
            ]
        | inr e ↦ rw (g, e) refl
      ])

-- The reference to a slot of the list: it holds what the list held there, and a write through it
-- changes that slot only.
pub record IsSlot (key index : ℕ) (l m : VmPageList) : Type 0 where
  pub list : IsPageList m
  pub same : (j i : ℕ) → entry_at j i m ≡ entry_at j i l
  pub write :
      (raw j i : ℕ)
      → entry_at j i (write_entry key index raw m)
        ≡ (if j == key && i == index then raw else entry_at j i l)

-- `lookup_or_allocate` reports an offset whose node would lie too high; for every other it returns a
-- reference to the slot of the offset in a list that holds the same entries at all slots, and a write
-- through the reference changes the entry of that slot and of no other.
pub lookup_or_allocate-IsSlot :
    (offset : ℕ) (l : VmPageList)
    → IsPageList l
    → ((max_size ≤ offset_to_node_offset offset l.list_skew)
        × (lookup_or_allocate offset l ≡ err out_of_range))
      ⊎ ((m : VmPageList) × (lookup_or_allocate offset l
            ≡ ok (
              m,
              offset_to_node_offset offset l.list_skew,
              offset_to_node_index offset l.list_skew,
            ))
          × IsSlot
              (offset_to_node_offset offset l.list_skew)
              (offset_to_node_index offset l.list_skew)
              l
              m)
unfolding lookup_or_allocate
lookup_or_allocate-IsSlot offset l v =
    let key = offset_to_node_offset offset l.list_skew in
    let index = offset_to_node_index offset l.list_skew in
    let a = allocate-Allocated key l.list v.rising in
    let m : VmPageList = record l { list = allocate key l.list } in
    let small : ltb index fan_out ≡ true =
      unfold offset_to_node_index in lt→ltb _ _ (omega arith) in
    elim (Bool-cases (leb max_size key)) [
      | inl e ↦ inl (leb→le _ _ e, rw e refl)
      | inr e ↦
          let less : index < length a.there.0.pages =
            omega (arith, ltb→lt _ _ small, a.full v.full key a.there.0 a.there.1) in
          inr (
            m,
            rw e (rw a.there.1 (rw small refl)),
            record {
              list = record { rising = a.rising; full = a.full v.full };
              same = a.same;
              write = λ raw j i.
                  write-entry key index raw j i m a.there.0 a.there.1 less
                  ∙ ap (λ (x : ℕ). if j == key && i == index then raw else x) (a.same j i);
            },
          )
    ]

pub node-IsPower : IsPower (page_size * fan_out)
node-IsPower = record { k = 16; j = 48; width = refl; power = refl; fits = omega arith }

-- The key of the node and the index in it are those of the page of the offset, where the sum with the
-- skew does not wrap: sixteen pages to a node, in order.
pub slot-offset :
    (offset skew : ℕ)
    → offset + skew < usize_mod
    → (offset_to_node_offset offset skew
          + offset_to_node_index offset skew * page_size
          + (offset + skew) % page_size
        ≡ offset + skew)
      × (offset_to_node_offset offset skew % (page_size * fan_out) ≡ 0)
      × (offset_to_node_index offset skew < fan_out)
unfolding offset_to_node_offset offset_to_node_index
slot-offset offset skew h =
    let (e, m, l, u) =
      rounddown_lem (wadd offset skew) (page_size * fan_out) node-IsPower (omega arith) in
    (omega (arith, e, h), m, omega arith)
