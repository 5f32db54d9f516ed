-- ===== src/PageList/Walk.antt =====
-- vm_page_list.rs: the walk over the pages of a range, against one over all slots of the list.
use score.Base.{
  >>=-cong, ℕ, zero, suc, ◌+◌, ◌*◌, ◌-◌, ◌/◌, ◌%◌, ◌<◌, ◌≤◌, ◌≡◌, refl, ap, ◌∙◌, sym, inl, inr, ◌⊎◌,
  true, false, not, ◌&&◌, List, [], ◌∷◌, arith, ltb, leb, if◌then◌else◌, Bool-cases, Option-cases,
  length, lt→ltb, le→leb, Outcome, ok, ◌>>=◌, get_elem?,
}
use score.Base.Word.{wadd, wsub, usize_mod}
use score.Align.{page_size}
use score.PageList.{VmPageListNode, fan_out, is_empty, end_offset, visit_pages, node_range}

module _ {ℓ} {T : Type ℓ} (f : ℕ → ℕ → T → Outcome T) (skew start end : ℕ) where
  -- A call for an entry that is not empty and whose page ends after `start` and not after `end`.
  unfoldable pub visit : ℕ → ℕ → T → Outcome T
  visit raw offset t =
      if ltb start (offset + page_size) && (leb (offset + page_size) end && not (is_empty raw))
      then f raw (wsub offset skew) t
      else ok t

  -- All slots of a node, and those of a list of nodes, in order.
  unfoldable pub visit_slots : List ℕ → ℕ → T → Outcome T
  unfolding visit
  visit_slots [] offset t = ok t
  visit_slots (raw ∷ rs) offset t =
      visit raw offset t >>= λ u. visit_slots rs (offset + page_size) u

  unfoldable pub visit_nodes : List (ℕ × VmPageListNode) → T → Outcome T
  unfolding visit_slots
  visit_nodes [] t = ok t
  visit_nodes ((k, pln) ∷ xs) t = visit_slots pln.pages k t >>= λ u. visit_nodes xs u

  pub slots_outside :
      (rs : List ℕ) (offset : ℕ) (t : T)
      → (end < offset + page_size) ⊎ (offset + length rs * page_size ≤ start)
      → visit_slots rs offset t ≡ ok t
  unfolding visit_slots visit
  slots_outside [] offset t h = refl
  slots_outside (raw ∷ rs) offset t (inl h) =
      ground (arith, slots_outside rs (offset + page_size) t (inl (omega (arith, h))))
  slots_outside (raw ∷ rs) offset t (inr h) =
      ground (arith, slots_outside rs (offset + page_size) t (inr (omega (arith, h))))

  visit_pages-shift :
      (r : ℕ) (rs : List ℕ) (offset i n : ℕ) (t : T)
      → visit_pages f skew (r ∷ rs) offset (suc i) n t
        ≡ visit_pages f skew rs (offset + page_size) i n t
  unfolding visit_pages
  visit_pages-shift r rs offset i zero t = refl
  visit_pages-shift r rs offset i (suc n) t = elim (Option-cases (get_elem? rs i)) [
    | inl e ↦ rw (e, visit_pages) refl
    | inr (raw, e) ↦
        let o : wadd offset (suc i * page_size) ≡ wadd (offset + page_size) (i * page_size) =
          ap (λ (x : ℕ). x % usize_mod) (omega arith) in
        rw (e, visit_pages, o)
          (>>=-cong
            (if is_empty raw
              then ok t
              else f raw (wsub (wadd (offset + page_size) (i * page_size)) skew) t)
            (λ u. visit_pages-shift r rs offset (suc i) n u))
  ]

  -- The loop over `n` indices from 0.
  visit_pages-front :
      (rs : List ℕ) (offset n : ℕ) (t : T)
      → offset + length rs * page_size < usize_mod
      → n ≤ length rs
      → start < offset + page_size
      → offset + n * page_size ≤ end
      → (n ≡ length rs) ⊎ (end < offset + suc n * page_size)
      → visit_pages f skew rs offset 0 n t ≡ visit_slots rs offset t
  unfolding visit_pages visit_slots visit
  visit_pages-front [] offset zero t fit le s e (inl d) = refl
  visit_pages-front (raw ∷ rs) offset zero t fit le s e (inl d) = absurd (omega (arith, d))
  visit_pages-front rs offset zero t fit le s e (inr d) =
      sym (slots_outside rs offset t (inl (omega (arith, d))))
  visit_pages-front [] offset (suc n) t fit le s e d = absurd (omega arith)
  visit_pages-front (raw ∷ rs) offset (suc n) t fit le s e d =
      let o : wadd offset (0 * page_size) ≡ offset = omega arith in
      let a : ltb start (offset + page_size) ≡ true = lt→ltb _ _ s in
      let b : leb (offset + page_size) end ≡ true = le→leb _ _ (omega arith) in
      let rest : (u : T)
          → visit_pages f skew (raw ∷ rs) offset 1 n u ≡ visit_slots rs (offset + page_size) u =
        λ u.
          visit_pages-shift raw rs offset 0 n u
          ∙ visit_pages-front rs (offset + page_size) n u (omega arith) (omega arith) (omega arith)
              (omega arith)
              (elim d [ inl x ↦ inl (omega (arith, x)) | inr x ↦ inr (omega (arith, x)) ]) in
      elim (Bool-cases (is_empty raw)) [
        | inl x ↦ rw (x, a, b) (>>=-cong (ok t) rest)
        | inr x ↦ rw (x, o, a, b) (>>=-cong (f raw (wsub offset skew) t) rest)
      ]

  -- The loop over `n` indices from the first whose page ends after `start`.
  visit_pages-range :
      (rs : List ℕ) (offset i n : ℕ) (t : T)
      → offset + length rs * page_size < usize_mod
      → i + n ≤ length rs
      → (i ≡ 0) ⊎ (offset + i * page_size ≤ start)
      → start < offset + suc i * page_size
      → offset + (i + n) * page_size ≤ end
      → (i + n ≡ length rs) ⊎ (end < offset + suc (i + n) * page_size)
      → visit_pages f skew rs offset i n t ≡ visit_slots rs offset t
  unfolding visit_slots visit
  visit_pages-range rs offset zero n t fit le low s e d =
      visit_pages-front rs offset n t fit (omega arith) (omega arith) (omega arith)
        (elim d [ inl x ↦ inl (omega (arith, x)) | inr x ↦ inr (omega (arith, x)) ])
  visit_pages-range [] offset (suc i) n t fit le low s e d = absurd (omega arith)
  visit_pages-range (raw ∷ rs) offset (suc i) n t fit le low s e d =
      let l : offset + suc i * page_size ≤ start = elim low [
        | inl x ↦ absurd (omega (arith, x))
        | inr x ↦ x
      ] in
      let a : ltb start (offset + page_size) ≡ false = ground (arith, l) in
      visit_pages-shift raw rs offset i n t
      ∙ rw a (
          visit_pages-range rs (offset + page_size) i n t (omega arith) (omega arith)
            (inr (omega (arith, l))) (omega arith) (omega arith)
            (elim d [ inl x ↦ inl (omega (arith, x)) | inr x ↦ inr (omega (arith, x)) ]))

  node_range-visits :
      (pln : VmPageListNode) (first last : ℕ) (t : T)
      → length pln.pages ≡ fan_out
      → pln.obj_offset + fan_out * page_size < usize_mod
      → pln.obj_offset ≤ first
      → first ≤ last
      → last ≤ pln.obj_offset + fan_out * page_size
      → node_range f skew pln first last t
        ≡ visit_pages f skew pln.pages pln.obj_offset
            ((first - pln.obj_offset) / page_size)
            ((last - pln.obj_offset) / page_size - (first - pln.obj_offset) / page_size)
            t
  unfolding node_range end_offset
  node_range-visits pln first last t len fit low le high =
      let a : leb first last ≡ true = le→leb _ _ le in
      let b : leb pln.obj_offset first ≡ true = le→leb _ _ low in
      let c : leb last (wadd pln.obj_offset (fan_out * page_size)) ≡ true =
        le→leb _ _ (omega arith) in
      rw (a, b, c) refl

  -- The part of a node that the code visits is that of the range, where the code's first offset is
  -- `start`, or the node's own behind it, and its last is `end`, or the node's end before it.
  pub node_range-visit_slots :
      (pln : VmPageListNode) (first last : ℕ) (t : T)
      → length pln.pages ≡ fan_out
      → pln.obj_offset + fan_out * page_size < usize_mod
      → pln.obj_offset ≤ first
      → first ≤ last
      → last ≤ pln.obj_offset + fan_out * page_size
      → (first ≡ start) ⊎ ((first ≡ pln.obj_offset) × (start ≤ first))
      → (last ≡ end) ⊎ ((last ≡ pln.obj_offset + fan_out * page_size) × (last ≤ end))
      → node_range f skew pln first last t ≡ visit_slots pln.pages pln.obj_offset t
  node_range-visit_slots pln first last t len fit low le high s e =
      node_range-visits pln first last t len fit low le high
      ∙ (let i = (first - pln.obj_offset) / page_size in
          let n = (last - pln.obj_offset) / page_size - i in
          let d : (i + n ≡ length pln.pages) ⊎ (end < pln.obj_offset + suc (i + n) * page_size) =
            elim e [ inl x ↦ inr (omega (arith, x)) | inr x ↦ inl (omega (arith, x.0)) ] in
          let h : pln.obj_offset + (i + n) * page_size ≤ end = elim e [
            | inl x ↦ omega (arith, x)
            | inr x ↦ omega (arith, x.0, x.1)
          ] in
          let g : (i ≡ 0) ⊎ (pln.obj_offset + i * page_size ≤ start) = elim s [
            | inl x ↦ inr (omega (arith, x))
            | inr x ↦ inl (omega (arith, x.0))
          ] in
          let b : start < pln.obj_offset + suc i * page_size = elim s [
            | inl x ↦ omega (arith, x)
            | inr x ↦ omega (arith, x.0, x.1)
          ] in
          visit_pages-range pln.pages pln.obj_offset i n t (omega arith) (omega arith) g b h d)
