-- ===== src/Vmar/Children.antt =====
-- The search of `for_each_gap` from child to child.
use score.Base.{
  ℕ, ◌+◌, ◌-◌, ◌≤◌, ◌<◌, ◌≡◌, refl, sym, subst, ap, inl, inr, Bool, true, false, arith, ltb, leb,
  if◌then◌else◌, Bool-cases, ltb→lt, ltb→le, leb→le, Outcome, ok, ◌>>=◌, Option, none, some,
}
use score.Base.Word.{usize_mod, wadd, wsub}
use score.Align.{roundup, roundup_lem, IsPower, roundup_wraps}
use score.Vmar.{VmAddressRegion, Regions, nil, cons, base, size, try_gap, for_each_gap}
use score.Vmar.Gaps.{
  InOrder, InOrder-le, InOrder-Free, NoWrap, IsPlace, Finds, try_gap-cases, from_next, IsNext,
  gap_behind, gap_wrapped,
}

module _ (s align limit parent_base parent_size : ℕ) (p : IsPower align) (some_size : 0 < s)
    (fits : limit < usize_mod) (room : parent_base + parent_size ≤ usize_mod)
    (word : parent_size < usize_mod) where
  -- What is left of the search behind the first child.
  abbrev behind_child : VmAddressRegion → Regions → Bool → Outcome (Option ℕ)
  behind_child c rs true = ok none
  behind_child c rs false =
      for_each_gap s align limit parent_base parent_size rs (roundup (wadd (base c) (size c)) align)

  -- The search goes on behind the first child if there is no place in front of it.
  gaps-next :
      (next : ℕ) (c : VmAddressRegion) (rs : Regions)
      → (if ltb next (base c) then try_gap s align limit next (wsub (base c) next) else ok none)
        ≡ ok none
      → for_each_gap s align limit parent_base parent_size (cons c rs) next
        ≡ behind_child c rs (leb usize_mod (base c + size c))
  unfolding for_each_gap
  gaps-next next c rs h =
      ap
        (λ (r : Outcome (Option ℕ)). r >>= λ found. elim found [
          | some spot ↦ ok (some spot)
          | none ↦ behind_child c rs (leb usize_mod (base c + size c))
        ])
        h

  gaps-found :
      (next spot : ℕ) (c : VmAddressRegion) (rs : Regions)
      → (if ltb next (base c) then try_gap s align limit next (wsub (base c) next) else ok none)
        ≡ ok (some spot)
      → for_each_gap s align limit parent_base parent_size (cons c rs) next ≡ ok (some spot)
  unfolding for_each_gap
  gaps-found next spot c rs h =
      ap
        (λ (r : Outcome (Option ℕ)). r >>= λ found. elim found [
          | some spot ↦ ok (some spot)
          | none ↦ elim (leb usize_mod (base c + size c)) [
            | true ↦ ok none
            | false ↦
                for_each_gap s align limit parent_base parent_size rs
                  (roundup (wadd (base c) (size c)) align)
          ]
        ])
        h

  -- What a search behind the first child says, where no place is in front of that child.
  carry :
      (from : ℕ) (c : VmAddressRegion) (rs : Regions) (o : Outcome (Option ℕ))
      → from ≤ base c
      → ((q : ℕ)
          → IsPlace s align parent_base parent_size from (cons c rs) q
          → q + s ≤ limit
          → q + s ≤ base c
          → ⊥)
      → Finds s align parent_base parent_size limit (base c + size c) rs o
      → Finds s align parent_base parent_size limit from (cons c rs) o
  carry from c rs o h none_before (inl (spot, e, (v, a), least)) = inl (
    spot,
    e,
    (
      record {
        aligned = v.aligned;
        behind = omega (arith, h, v.behind);
        inside = v.inside;
        free = (inr v.behind, v.free);
      },
      a,
    ),
    λ q w b. elim w.free.0 [
      | inl f ↦ absurd (none_before q w b f)
      | inr f ↦
          least q (record { aligned = w.aligned; behind = f; inside = w.inside; free = w.free.1 }) b
    ],
  )
  carry from c rs o h none_before (inr (e, nowhere)) = inr (
    e,
    λ q w b. elim w.free.0 [
      | inl f ↦ none_before q w b f
      | inr f ↦
          nowhere q (record { aligned = w.aligned; behind = f; inside = w.inside; free = w.free.1 })
            b
    ],
  )

  -- The search in front of the first child, and behind it where `rest` says what it comes to there.
  gaps-cons :
      (from next : ℕ) (c : VmAddressRegion) (rs : Regions)
      → InOrder from (parent_base + parent_size) (cons c rs)
      → IsNext s align limit parent_base parent_size p some_size fits room word from next
      → base c < usize_mod
      → Finds s align parent_base parent_size limit
          (base c + size c)
          rs
          (behind_child c rs (leb usize_mod (base c + size c)))
      → Finds s align parent_base parent_size limit from
          (cons c rs)
          (for_each_gap s align limit parent_base parent_size (cons c rs) next)
  gaps-cons from next c rs o (m, l, u) small rest =
      let e = base c + size c in
      let top = InOrder-le e (parent_base + parent_size) rs o.1 in
      let later : (if ltb next (base c)
              then try_gap s align limit next (wsub (base c) next)
              else ok none)
            ≡ ok none
          → ((q : ℕ)
              → IsPlace s align parent_base parent_size from (cons c rs) q
              → q + s ≤ limit
              → q + s ≤ base c
              → ⊥)
          → Finds s align parent_base parent_size limit from (cons c rs)
              (for_each_gap s align limit parent_base parent_size (cons c rs) next) =
        λ h none_before.
          subst (Finds s align parent_base parent_size limit from (cons c rs))
            (sym (gaps-next next c rs h)) (carry from c rs _ o.0 none_before rest) in
      elim (Bool-cases (ltb next (base c))) [
        | inl t ↦
            let f = ltb→lt next (base c) t in
            let len : wsub (base c) next ≡ base c - next = omega (arith, f, small) in
            elim (try_gap-cases s align limit parent_base parent_size p some_size fits room word
              next (base c - next) (omega (arith, f, top, room)) m) [
                | inl (g, h, k) ↦ inl (
                  next,
                  gaps-found next next c rs (rw (t, len) g),
                  (
                    record {
                      aligned = m;
                      behind = l;
                      inside = omega (arith, h, f, top);
                      free = (
                        inl (omega (arith, h, f)),
                        InOrder-Free e (parent_base + parent_size) next s rs o.1
                            (omega (arith, h, f)),
                      );
                    },
                    k,
                  ),
                  λ q v j.
                      from_next s align limit parent_base parent_size p some_size fits room word
                        from next q m u v.aligned v.behind,
                )
                | inr (g, h) ↦ later (rw (t, len) g) (λ q v j k. omega (
                  arith,
                  h,
                  k,
                  f,
                  j,
                  from_next s align limit parent_base parent_size p some_size fits room word from
                      next q m u v.aligned v.behind,
                ))
              ]
        | inr t ↦
            let f = ltb→le next (base c) t in
            later (rw t refl) (λ q v j k. omega (
              arith,
              k,
              f,
              some_size,
              from_next s align limit parent_base parent_size p some_size fits room word from next q
                  m u v.aligned v.behind,
            ))
      ]

  pub gaps-Finds :
      (from : ℕ) (rs : Regions)
      → InOrder from (parent_base + parent_size) rs
      → parent_base ≤ from
      → from < usize_mod
      → NoWrap align parent_base from rs
      → Finds s align parent_base parent_size limit from rs
          (for_each_gap s align limit parent_base parent_size rs (roundup from align))
  gaps-Finds from nil o b low n = elim (Bool-cases (leb (from + align) usize_mod)) [
    | inl e ↦
        let up = roundup_lem from align p (leb→le _ _ e) in
        gap_behind s align limit parent_base parent_size p some_size fits room word from
          (roundup from align) o b up (omega (arith, up.2, leb→le _ _ e))
    | inr e ↦
        let over : usize_mod < from + align = ground arith in
        let positive : 0 < parent_base = elim n [
          | inl x ↦ x
          | inr x ↦ absurd (omega (arith, x, over))
        ] in
        subst
          (λ (x : ℕ).
            Finds s align parent_base parent_size limit from nil
              (for_each_gap s align limit parent_base parent_size nil x))
          (sym (roundup_wraps from align p low over))
          (gap_wrapped s align limit parent_base parent_size p some_size fits room word from
            positive low over)
  ]
  gaps-Finds from (cons c rs) o b low n =
      let e = base c + size c in
      let top = InOrder-le e (parent_base + parent_size) rs o.1 in
      gaps-cons from (roundup from align) c rs o (roundup_lem from align p n.0) n.1
        (elim (Bool-cases (leb usize_mod e)) [
          | inl w ↦
              let f = leb→le usize_mod e w in
              rw w (inr (refl, λ q v j. omega (arith, v.behind, v.inside, f, room, some_size)))
          | inr w ↦
              let f : e < usize_mod = ground arith in
              let sum : wadd (base c) (size c) ≡ e = omega (arith, f) in
              rw (w, sum) (gaps-Finds e rs o.1 (omega (arith, b, o.0)) f n.2)
        ])
