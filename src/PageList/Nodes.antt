-- ===== src/PageList/Nodes.antt =====
-- vm_page_list.rs: the walk from node to node of `for_every_page_in_range`.
use score.Base.{
  >>=-cong, >>=-ok, ℕ, zero, suc, ◌+◌, ◌*◌, ◌%◌, ◌<◌, ◌≤◌, ◌≡◌, refl, ap, ◌∙◌, sym, inl, inr, true,
  List, [], ◌∷◌, ◌++◌, subst, Option, none, some, arith, ltb, leb, Bool-cases, length, All, All-imp,
  ltb→lt, ltb→le, le→leb, Outcome, ok,
}
use score.Base.Word.{wadd, usize_mod}
use score.Align.{page_size}
use score.Rbtree.{Place, next}
use score.Rbtree.Cursor.{entries_from, next-entries, at_least}
use score.Rbtree.Entries.{to_list, after}
use score.Rbtree.Lookup.{IsRising}
use score.PageList.Walk.{visit_slots, visit_nodes, slots_outside, node_range-visit_slots}
use score.PageList.{VmPageListNode, fan_out, end_offset, node_range, for_every_page, full_nodes}

-- A node whose place is its key, with all its slots, that ends below the top.
abbrev pub IsNode : ℕ × VmPageListNode → Type 0
IsNode (k, pln) =
    (pln.obj_offset ≡ k)
    × (length pln.pages ≡ fan_out)
    × (k + fan_out * page_size < usize_mod)
    × (k % (fan_out * page_size) ≡ 0)

-- The nodes behind one start at its end or later.
pub behind :
    (k : ℕ) (pln : VmPageListNode) (xs : List (ℕ × VmPageListNode))
    → IsNode (k, pln)
    → All IsNode xs
    → All (λ e. k < e.0) xs
    → All (λ e. k + fan_out * page_size ≤ e.0) xs
behind k pln [] n ns r = tt
behind k pln ((j, q) ∷ xs) n ns r = (omega (arith, n.3, ns.0.3, r.0), behind k pln xs n ns.1 r.1)

pub next-rest : (c : Place VmPageListNode) → to_list c.right ++ after c.path ≡ entries_from (next c)
next-rest c = ap (λ xs. elim xs [ [] ↦ [] | x ∷ ys ↦ ys ]) (next-entries c)

-- What `full_nodes` needs of the nodes behind the cursor.
pub next-Above :
    (n start : ℕ) (c : Place VmPageListNode)
    → length (entries_from (some c)) ≤ suc n
    → All IsNode (entries_from (some c))
    → IsRising (entries_from (some c))
    → start ≤ c.key + fan_out * page_size
    → (length (entries_from (next c)) ≤ n)
      × All IsNode (entries_from (next c))
      × IsRising (entries_from (next c))
      × All (λ e. start ≤ e.0) (entries_from (next c))
next-Above n start c le ns r low =
    subst (λ xs. (length xs ≤ n) × All IsNode xs × IsRising xs × All (λ e. start ≤ e.0) xs)
      (next-rest c)
      (
        omega arith,
        ns.1,
        r.1,
        All-imp (λ x k. omega (arith, k, low)) _ (behind c.key c.value _ ns.0 ns.1 r.0),
      )

module _ {ℓ} {T : Type ℓ} (f : ℕ → ℕ → T → Outcome T) (skew start end : ℕ) where
  nodes_above :
      (xs : List (ℕ × VmPageListNode)) (t : T)
      → All (λ e. end ≤ e.0) xs
      → visit_nodes f skew start end xs t ≡ ok t
  unfolding visit_nodes
  nodes_above [] t h = refl
  nodes_above ((k, pln) ∷ xs) t h =
      rw (slots_outside f skew start end pln.pages k t (inl (omega (arith, h.0))))
        (nodes_above xs t h.1)

  pub nodes_below :
      (q : ℕ) (xs : List (ℕ × VmPageListNode)) (t : T)
      → All IsNode xs
      → q % (fan_out * page_size) ≡ 0
      → q ≤ start
      → visit_nodes f skew start end xs t ≡ visit_nodes f skew start end (at_least q xs) t
  unfolding visit_nodes at_least
  nodes_below q [] t h a le = refl
  nodes_below q ((k, pln) ∷ xs) t h a le = elim (Bool-cases (ltb k q)) [
    | inl e ↦
        rw
          (slots_outside f skew start end pln.pages k t
            (inr (omega (arith, ltb→lt k q e, h.0.1, h.0.3, a, le))))
          (rw e (nodes_below q xs t h.1 a le))
    | inr e ↦ rw e refl
  ]

  for_every_page-visit_slots :
      (k : ℕ) (pln : VmPageListNode) (t : T)
      → IsNode (k, pln)
      → start ≤ k
      → k + fan_out * page_size ≤ end
      → for_every_page f skew pln t ≡ visit_slots f skew start end pln.pages k t
  unfolding for_every_page end_offset
  for_every_page-visit_slots k pln t (o, len, fit, a) low high =
      let w : wadd pln.obj_offset (fan_out * page_size) ≡ pln.obj_offset + fan_out * page_size =
        omega (arith, o, fit) in
      ap (λ (x : ℕ). node_range f skew pln pln.obj_offset x t) w
      ∙ (node_range-visit_slots f skew start end pln pln.obj_offset
          (pln.obj_offset + fan_out * page_size) t len (omega arith) (omega arith) (omega arith)
          (omega arith) (inr (refl, omega arith)) (inr (refl, omega arith)))
      ∙ ap (λ (x : ℕ). visit_slots f skew start end pln.pages x t) o

  -- From nodes at `start` or behind it, the loop and the last node are the walk over all slots.
  pub full_nodes-visit_nodes :
      (n : ℕ) (o : Option (Place VmPageListNode)) (t : T)
      → length (entries_from o) ≤ n
      → All IsNode (entries_from o)
      → IsRising (entries_from o)
      → All (λ e. start ≤ e.0) (entries_from o)
      → elim o [ none ↦ ok t | some c ↦ full_nodes f skew start end n c t ]
        ≡ visit_nodes f skew start end (entries_from o) t
  unfolding full_nodes visit_nodes
  full_nodes-visit_nodes n none t le ns r low = refl
  full_nodes-visit_nodes zero (some c) t le ns r low = absurd (omega arith)
  full_nodes-visit_nodes (suc n) (some c) t le ns r low =
      let (o, len, fit, a) = ns.0 in
      let w : end_offset c.value ≡ c.key + fan_out * page_size =
        unfold end_offset in omega (arith, o, fit) in
      let b = behind c.key c.value _ ns.0 ns.1 r.0 in
      elim (Bool-cases (ltb (end_offset c.value) end)) [
        | inl e ↦
            let s : leb start c.value.obj_offset ≡ true = le→leb _ _ (omega (arith, o, low.0)) in
            let g = ltb→lt (end_offset c.value) end e in
            rw (e, s)
              (rw (for_every_page-visit_slots c.key c.value t ns.0 low.0 (omega (arith, w, g))) (
                rw (next-rest c) (
                  >>=-cong (visit_slots f skew start end c.value.pages c.key t) (λ u.
                    let k = next-Above n start c le ns r (omega (arith, low.0)) in
                    full_nodes-visit_nodes n (next c) u k.0 k.1 k.2 k.3))))
        | inr e ↦ elim (Bool-cases (ltb c.value.obj_offset end)) [
          | inl d ↦
              let h = ltb→le (end_offset c.value) end e in
              let s : leb end (end_offset c.value) ≡ true = le→leb _ _ h in
              let p = ltb→lt c.value.obj_offset end d in
              rw (e, d, s)
                (node_range-visit_slots f skew start end c.value c.value.obj_offset end t len
                    (omega (arith, o, fit)) (omega arith) (omega (arith, p))
                    (omega (arith, h, w, o)) (inr (refl, omega (arith, o, low.0))) (inl refl)
                  ∙ ap (λ (x : ℕ). visit_slots f skew start end c.value.pages x t) o
                  ∙ sym (>>=-ok (visit_slots f skew start end c.value.pages c.key t))
                  ∙ >>=-cong (visit_slots f skew start end c.value.pages c.key t)
                      (λ u. sym (nodes_above _ u (All-imp (λ x k. omega (arith, k, h, w)) _ b))))
          | inr d ↦
              let h = ltb→le c.value.obj_offset end d in
              let g : end ≤ c.key = omega (arith, h, o) in
              rw (e, d)
                (sym (
                  nodes_above (entries_from (some c)) t
                    (g, All-imp (λ x k. omega (arith, k, g)) _ b)))
        ]
      ]
