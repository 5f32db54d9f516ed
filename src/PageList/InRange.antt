-- ===== src/PageList/InRange.antt =====
-- vm_page_list.rs: `for_every_page_in_range`, from the search for the first node on.
use score.Base.{
  >>=-cong, ℕ, ◌+◌, ◌*◌, ◌%◌, ◌<◌, ◌≤◌, ◌≡◌, refl, ap, ◌∙◌, sym, inl, inr, ◌⊎◌, List, [], ◌∷◌,
  subst, Option, none, some, arith, ltb, if◌then◌else◌, Bool-cases, length, All, All-imp, ltb→lt,
  ltb→le, Outcome, ok, ◌>>=◌, min,
}
use score.Base.Word.{wadd}
use score.Align.{page_size, rounddown, rounddown_lem}
use score.PageList.Slots.{node-IsPower}
use score.Rbtree.{Place, next, lower_bound}
use score.Rbtree.Cursor.{entries_from, at_least, bound-entries_from}
use score.Rbtree.Entries.{to_list}
use score.Rbtree.Lookup.{IsRising, IsRising-Sorted}
use score.PageList.Walk.{visit_slots, visit_nodes, node_range-visit_slots}
use score.PageList.{
  VmPageListNode, VmPageList, fan_out, end_offset, node_range, full_nodes, for_every_page_in_range,
}
use score.PageList.Nodes.{
  IsNode, behind, next-rest, next-Above, full_nodes-visit_nodes, nodes_below,
}

module _ (q : ℕ) where
  at_least-All :
      (P : ℕ × VmPageListNode → Type 0) (xs : List (ℕ × VmPageListNode))
      → All P xs
      → All P (at_least q xs)
  unfolding at_least
  at_least-All P [] h = tt
  at_least-All P ((k, pln) ∷ xs) h = elim (Bool-cases (ltb k q)) [
    | inl e ↦ rw e (at_least-All P xs h.1)
    | inr e ↦ rw e h
  ]

  at_least-low : (xs : List (ℕ × VmPageListNode)) → IsRising xs → All (λ e. q ≤ e.0) (at_least q xs)
  unfolding at_least
  at_least-low [] r = tt
  at_least-low ((k, pln) ∷ xs) r = elim (Bool-cases (ltb k q)) [
    | inl e ↦ rw e (at_least-low xs r.1)
    | inr e ↦ let g = ltb→le k q e in rw e (g, All-imp (λ x h. omega (arith, h, g)) xs r.0)
  ]

  at_least-IsRising :
      (xs : List (ℕ × VmPageListNode))
      → IsRising xs
      → IsRising (at_least q xs) × (length (at_least q xs) ≤ length xs)
  unfolding at_least
  at_least-IsRising [] r = (tt, omega arith)
  at_least-IsRising ((k, pln) ∷ xs) r = elim (Bool-cases (ltb k q)) [
    | inl e ↦ let (a, b) = at_least-IsRising xs r.1 in rw e (a, omega (arith, b))
    | inr e ↦ rw e (r, omega arith)
  ]

module _ {ℓ} {T : Type ℓ} (f : ℕ → ℕ → T → Outcome T) (skew start end : ℕ) where
  -- From the node that the search finds.
  walk-visit_nodes :
      (n q : ℕ) (o : Option (Place VmPageListNode)) (t : T)
      → length (entries_from o) ≤ n
      → All IsNode (entries_from o)
      → IsRising (entries_from o)
      → All (λ e. q ≤ e.0) (entries_from o)
      → q % (fan_out * page_size) ≡ 0
      → start < q + fan_out * page_size
      → start ≤ end
      → elim o [
        | none ↦ ok t
        | some c ↦
            if ltb c.value.obj_offset start
            then (node_range f skew c.value start (min end (end_offset c.value)) t >>= λ u.
                elim (next c) [ none ↦ ok u | some d ↦ full_nodes f skew start end n d u ])
            else full_nodes f skew start end n c t
      ]
        ≡ visit_nodes f skew start end (entries_from o) t
  unfolding visit_nodes
  walk-visit_nodes n q none t le ns r low a s h = refl
  walk-visit_nodes n q (some c) t le ns r low a s h =
      let (o, len, fit, m) = ns.0 in
      let w : end_offset c.value ≡ c.key + fan_out * page_size =
        unfold end_offset in omega (arith, o, fit) in
      elim (Bool-cases (ltb c.value.obj_offset start)) [
        | inl e ↦
            let p = ltb→lt c.value.obj_offset start e in
            let y : c.key ≡ q = omega (arith, low.0, o, p, m, a, s) in
            let k = next-Above n start c (omega (arith, le)) ns r (omega (arith, s, y)) in
            let last : (min end (c.key + fan_out * page_size) ≡ end)
                ⊎ ((min end (c.key + fan_out * page_size)
                      ≡ c.value.obj_offset + fan_out * page_size)
                    × (min end (c.key + fan_out * page_size) ≤ end)) =
              elim (Bool-cases (ltb (c.key + fan_out * page_size) end)) [
                | inl x ↦ let g = ltb→lt _ _ x in inr (omega (arith, g, o), omega arith)
                | inr x ↦ let g = ltb→le _ _ x in inl (omega (arith, g))
              ] in
            let v : min end (end_offset c.value) ≡ min end (c.key + fan_out * page_size) =
              ap (min end) w in
            rw (e, v)
              (rw
                (node_range-visit_slots f skew start end c.value start
                    (min end (c.key + fan_out * page_size)) t len (omega (arith, o, fit))
                    (omega (arith, p)) (omega (arith, s, y)) (omega (arith, o)) (inl refl) last
                  ∙ ap (λ (x : ℕ). visit_slots f skew start end c.value.pages x t) o)
                (rw (next-rest c) (
                  >>=-cong (visit_slots f skew start end c.value.pages c.key t)
                    (λ u. full_nodes-visit_nodes f skew start end n (next c) u k.0 k.1 k.2 k.3))))
        | inr e ↦
            let g = ltb→le c.value.obj_offset start e in
            let b = behind c.key c.value _ ns.0 ns.1 r.0 in
            let l : start ≤ c.key = omega (arith, g, o) in
            rw e (
              full_nodes-visit_nodes f skew start end n (some c) t le ns r
                (l, All-imp (λ x k. omega (arith, k, l)) _ b))
      ]

-- In a list whose nodes stand in the order of their keys, each with its sixteen entries and at a
-- multiple of their size, for a range that does not end before it starts: the walk over the range
-- comes to what the calls for all slots of the list in order come to, where a slot is passed over that
-- is empty, or whose page ends at the start of the range or before, or after the end of it. The first
-- call that fails ends both.
pub for_every_page_in_range-visit_nodes {ℓ} :
    {T : Type ℓ} (f : ℕ → ℕ → T → Outcome T) (start end : ℕ) (l : VmPageList) (t : T)
    → IsRising (to_list l.list.root)
    → All IsNode (to_list l.list.root)
    → wadd start l.list_skew ≤ wadd end l.list_skew
    → for_every_page_in_range f start end l t
      ≡ visit_nodes f l.list_skew
          (wadd start l.list_skew)
          (wadd end l.list_skew)
          (to_list l.list.root)
          t
unfolding for_every_page_in_range
for_every_page_in_range-visit_nodes f start end l t r ns h =
    let first = wadd start l.list_skew in
    let last = wadd end l.list_skew in
    let xs = to_list l.list.root in
    let q = rounddown first (fan_out * page_size) in
    let (z, m, low, high) = rounddown_lem first (fan_out * page_size) node-IsPower (omega arith) in
    let e : at_least q xs ≡ entries_from (lower_bound q l.list) =
      sym (bound-entries_from q l.list (IsRising-Sorted xs r)).0 in
    let g = at_least-IsRising q xs r in
    walk-visit_nodes f l.list_skew first last (length xs) q (lower_bound q l.list) t
      (subst (λ ys. length ys ≤ length xs) e g.1)
      (subst (All IsNode) e (at_least-All q IsNode xs ns)) (subst IsRising e g.0)
      (subst (All (λ x. q ≤ x.0)) e (at_least-low q xs r)) m high h
    ∙ ap (λ ys. visit_nodes f l.list_skew first last ys t) (sym e)
    ∙ sym (nodes_below f l.list_skew first last q xs t ns m low)
