-- ===== src/Vmar/Gaps.antt =====
-- The places that `for_each_gap` looks for, and the gap behind the last child.

use score.Base.{
  ℕ, ◌+◌, ◌-◌, ◌%◌, ◌≤◌, ◌<◌, ◌≡◌, refl, ◌⊎◌, inl, inr, true, false, arith, ltb, leb, Bool-cases,
  ltb→lt, ltb→le, le→ltb, leb→le, Outcome, ok, Option, none, some,
}
use score.Base.Word.{usize_mod, wadd, wsub}
use score.Align.{is_aligned, is_aligned_lem, IsPower, next_multiple, top-multiple}
use score.Vmar.{Regions, nil, cons, base, size, try_gap, for_each_gap}

-- The children lie in order from `from` on, without a common address, and end at `end` at most.
abbrev pub InOrder : ℕ → ℕ → Regions → Type 0
InOrder from end nil = from ≤ end
InOrder from end (cons r rs) = (from ≤ base r) × InOrder (base r + size r) end rs

-- `len` bytes at `spot` meet none of the regions.
abbrev pub Free : ℕ → ℕ → Regions → Type 0
Free spot len nil = Unit
Free spot len (cons r rs) = ((spot + len ≤ base r) ⊎ (base r + size r ≤ spot)) × Free spot len rs

pub InOrder-le : (from end : ℕ) (rs : Regions) → InOrder from end rs → from ≤ end
InOrder-le from end nil h = h
InOrder-le from end (cons r rs) h = omega (arith, h.0, InOrder-le (base r + size r) end rs h.1)

pub InOrder-Free :
    (from end spot len : ℕ) (rs : Regions)
    → InOrder from end rs
    → spot + len ≤ from
    → Free spot len rs
InOrder-Free from end spot len nil o h = tt
InOrder-Free from end spot len (cons r rs) o h =
    let g : spot + len ≤ base r = omega (arith, o.0, h) in
    (inl g, InOrder-Free (base r + size r) end spot len rs o.1 (omega (arith, g)))

-- The bases of the children are addresses, and the base of the parent and the ends of the children
-- round up below the top of memory; behind the last child this is so, or the parent is not at address 0.
abbrev pub NoWrap : ℕ → ℕ → ℕ → Regions → Type 0
NoWrap align parent_base from nil = (0 < parent_base) ⊎ (from + align ≤ usize_mod)
NoWrap align parent_base from (cons c rs) =
    (from + align ≤ usize_mod)
    × (base c < usize_mod)
    × NoWrap align parent_base (base c + size c) rs

module _ (s align parent_base parent_size : ℕ) where
  -- An aligned place for `s` bytes, from `from` on and within the region, that meets none of the
  -- children.
  pub record IsPlace (from : ℕ) (rs : Regions) (spot : ℕ) : Type 0 where
    pub aligned : spot % align ≡ 0
    pub behind : from ≤ spot
    pub inside : spot + s ≤ parent_base + parent_size
    pub free : Free spot s rs

  -- A place that is below the limit, or ends at the top of memory, where the sum that is compared with
  -- the limit wraps to 0.
  abbrev pub IsTaken : ℕ → ℕ → Regions → ℕ → Type 0
  IsTaken limit from rs spot = IsPlace from rs spot × ((spot + s ≤ limit) ⊎ (spot + s ≡ usize_mod))

  -- A place that is not above any that is below the limit, or that there is none below the limit.
  abbrev pub Finds : ℕ → ℕ → Regions → Outcome (Option ℕ) → Type 0
  Finds limit from rs o =
      ((spot : ℕ) × (o ≡ ok (some spot))
        × IsTaken limit from rs spot
        × ((q : ℕ) → IsPlace from rs q → q + s ≤ limit → spot ≤ q))
      ⊎ ((o ≡ ok none) × ((q : ℕ) → IsPlace from rs q → q + s ≤ limit → ⊥))

module _ (s align limit parent_base parent_size : ℕ) (p : IsPower align) (some_size : 0 < s)
    (fits : limit < usize_mod) (room : parent_base + parent_size ≤ usize_mod)
    (word : parent_size < usize_mod) where
  pub try_gap-cases :
      (g l : ℕ)
      → g + l ≤ usize_mod
      → g % align ≡ 0
      → ((try_gap s align limit g l ≡ ok (some g))
          × (s ≤ l)
          × ((g + s ≤ limit) ⊎ (g + s ≡ usize_mod)))
        ⊎ ((try_gap s align limit g l ≡ ok none) × ((l < s) ⊎ (limit < g + s)))
  unfolding try_gap
  try_gap-cases g l h m =
      let a : is_aligned g align ≡ true = ground (arith, is_aligned_lem g align p) in
      rw a (elim (Bool-cases (ltb l s)) [
        | inl e ↦ rw e (inr (refl, inl (ltb→lt l s e)))
        | inr e ↦
            let f = ltb→le l s e in
            rw e (elim (Bool-cases (ltb limit (wadd g s))) [
              | inl d ↦
                  let u = ltb→lt limit (wadd g s) d in
                  rw d (inr (refl, inr (omega (arith, u, f, h))))
              | inr d ↦
                  let u = ltb→le limit (wadd g s) d in
                  let a : (g + s ≤ limit) ⊎ (g + s ≡ usize_mod) =
                    elim (Bool-cases (ltb (g + s) usize_mod)) [
                      | inl k ↦ inl (omega (arith, u, ltb→lt _ _ k))
                      | inr k ↦ inr (omega (arith, f, h, ltb→le _ _ k))
                    ] in
                  rw d (inl (refl, f, a))
            ])
      ])

  -- The places from `from` on are from the next multiple on.
  pub from_next :
      (from next q : ℕ)
      → next % align ≡ 0
      → next < from + align
      → q % align ≡ 0
      → from ≤ q
      → next ≤ q
  from_next from next q m u n l = elim (Bool-cases (leb next q)) [
    | inl e ↦ leb→le next q e
    | inr e ↦
        let h : q < next = ground arith in
        omega (arith, next_multiple q next align n m (omega (arith, h)) (omega (arith, u, l)))
  ]

  -- The search goes on at the next multiple from `from` on.
  abbrev pub IsNext : ℕ → ℕ → Type 0
  IsNext from next = (next % align ≡ 0) × (from ≤ next) × (next < from + align)

  pub gap_behind :
      (from next : ℕ)
      → from ≤ parent_base + parent_size
      → parent_base ≤ from
      → IsNext from next
      → next < usize_mod
      → Finds s align parent_base parent_size limit from nil
          (for_each_gap s align limit parent_base parent_size nil next)
  unfolding for_each_gap
  gap_behind from next o b (m, l, u) low =
      let d : wsub next parent_base ≡ next - parent_base = omega (arith, o, b, l, low) in
      rw d (elim (Bool-cases (ltb (next - parent_base) parent_size)) [
        | inl e ↦
            let f = ltb→lt _ _ e in
            let len : wsub parent_size (next - parent_base) ≡ parent_base + parent_size - next =
              omega (arith, f, b, l, room, o, u, low, some_size) in
            rw (e, len)
              (elim (try_gap-cases next (parent_base + parent_size - next)
                (omega (arith, f, b, l, room)) m) [
                  | inl (t, h, k) ↦ inl (
                    next,
                    t,
                    (
                      record {
                        aligned = m;
                        behind = l;
                        inside = omega (arith, h, f, b, l);
                        free = tt;
                      },
                      k,
                    ),
                    λ q v j. from_next from next q m u v.aligned v.behind,
                  )
                  | inr (t, h) ↦ inr (
                    t,
                    λ q v j. omega (
                      arith,
                      h,
                      v.inside,
                      j,
                      f,
                      b,
                      l,
                      from_next from next q m u v.aligned v.behind,
                    ),
                  )
                ])
        | inr e ↦
            let f = ltb→le _ _ e in
            rw e (
              inr (
                refl,
                λ q v j.
                    let n = from_next from next q m u v.aligned v.behind in
                    omega (arith, n, v.inside, f, some_size, b, l),
              ))
      ])

  -- Where the next multiple is the top of memory there is no place, and no gap is tried.
  pub gap_wrapped :
      (from : ℕ)
      → 0 < parent_base
      → from < usize_mod
      → usize_mod < from + align
      → Finds s align parent_base parent_size limit from nil
          (for_each_gap s align limit parent_base parent_size nil 0)
  unfolding for_each_gap
  gap_wrapped from positive low u =
      let e : ltb (wsub 0 parent_base) parent_size ≡ false = le→ltb _ _ (omega arith) in
      rw e (
        inr (
          refl,
          λ q v j.
              let n = from_next from usize_mod q (top-multiple align p) u v.aligned v.behind in
              omega (arith, n, v.inside, some_size, room),
        ))
