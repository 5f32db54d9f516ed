-- ===== src/BootReserve/Search.antt =====
-- `boot_reserve_range_search` finds the highest free place, or tells that there is none.
use score.Base.{
  ℕ, zero, suc, ◌+◌, ◌-◌, ◌≤◌, ◌<◌, ◌≡◌, ◌⊎◌, inl, inr, true, false, List, [], ◌∷◌, none, some,
  arith, ltb, ltb→lt, ltb→le, Bool-cases, Option-cases, All, Outcome, ok, err, no_mem,
}
use score.Base.Word.{usize_mod, wsub}
use score.Range.{intersects, intersects_hit, intersects_miss}
use score.BootReserve.{
  BootReserveRange, range, upper_align, first_hit, retry, boot_reserve_range_search,
}

-- The reserved ranges end below the top of memory, and the place under each is an address.
abbrev pub Fit : ℕ → BootReserveRange → Type 0
Fit alloc_len r = (r.pa + r.len < usize_mod) × (alloc_len ≤ r.pa)

module _ (range_pa range_len alloc_len : ℕ) (res : List BootReserveRange) where
  -- `alloc_len` bytes at `q` lie in the range and meet no reserved range.
  pub record IsFree (q : ℕ) : Type 0 where
    pub above : range_pa ≤ q
    pub below : q + alloc_len ≤ range_pa + range_len
    pub clear : All (λ (r : BootReserveRange). intersects r.pa r.len q alloc_len ≡ false) res

  -- The highest free place, or that there is none.
  abbrev pub Finds : Outcome BootReserveRange → Type 0
  Finds o =
      ((q : ℕ) × (o ≡ ok (range q alloc_len)) × IsFree q × ((p : ℕ) → IsFree p → p ≤ q))
      ⊎ ((o ≡ err no_mem) × ((p : ℕ) → IsFree p → ⊥))

first_hit-none :
    (a l : ℕ) (rs : List BootReserveRange)
    → first_hit a l rs ≡ none
    → All (λ (r : BootReserveRange). intersects r.pa r.len a l ≡ false) rs
unfolding first_hit
first_hit-none a l [] e = tt
first_hit-none a l (r ∷ rs) e = ground (arith, first_hit-none a l rs)

-- A hit is a range of the list.
first_hit-some :
    (a l : ℕ) (rs : List BootReserveRange) (h : BootReserveRange)
    → All (Fit l) rs
    → first_hit a l rs ≡ some h
    → (intersects h.pa h.len a l ≡ true)
      × Fit l h
      × ((q : ℕ)
          → All (λ (r : BootReserveRange). intersects r.pa r.len q l ≡ false) rs
          → intersects h.pa h.len q l ≡ false)
unfolding first_hit
first_hit-some a l [] h f e = absurd (cc)
first_hit-some a l (r ∷ rs) h f e = elim (Bool-cases (intersects r.pa r.len a l)) [
  | inl hit ↦ let s : r ≡ h = ground arith in rw (← s) (hit, f.0, λ q c. c.0)
  | inr miss ↦ let (i, j, k) = first_hit-some a l rs h f.1 (ground arith) in (i, j, λ q c. k q c.1)
]

module _ (range_pa range_len alloc_len : ℕ) (res : List BootReserveRange)
    (fits : range_pa + range_len < usize_mod) (reserved : All (Fit alloc_len) res) where
  retry-Finds :
      (fuel a : ℕ)
      → a < fuel
      → range_pa ≤ a
      → a + alloc_len ≤ range_pa + range_len
      → ((p : ℕ) → IsFree range_pa range_len alloc_len res p → p ≤ a)
      → Finds range_pa range_len alloc_len res (retry fuel range_pa a alloc_len res)
  unfolding retry
  retry-Finds zero a f l u m = absurd (omega arith)
  retry-Finds (suc fuel) a f l u m = elim (Option-cases (first_hit a alloc_len res)) [
    | inl e ↦ inl (
      a,
      rw (e, retry),
      record { above = l; below = u; clear = first_hit-none a alloc_len res e },
      m,
    )
    | inr (r, e) ↦
        let (hit, fit, same) = first_hit-some a alloc_len res r reserved e in
        let h = intersects_hit r.pa r.len a alloc_len fit.0 (omega arith) hit in
        let d : wsub r.pa alloc_len ≡ r.pa - alloc_len = omega arith in
        let lower : (p : ℕ) → IsFree range_pa range_len alloc_len res p → p ≤ wsub r.pa alloc_len =
          λ p v. omega (
            arith,
            m p v,
            v.below,
            fits,
            d,
            h,
            intersects_miss r.pa r.len p alloc_len fit.0 (omega (arith, v.below, fits)) h.2 h.3
                (same p v.clear),
          ) in
        elim (Bool-cases (ltb (wsub r.pa alloc_len) range_pa)) [
          | inl low ↦
              inr (rw (e, low, retry), λ p v. omega (arith, lower p v, v.above, ltb→lt _ _ low))
          | inr high ↦
              rw (e, high, retry)
                (retry-Finds fuel (wsub r.pa alloc_len) (omega arith) (ltb→le _ _ high)
                  (omega arith) lower)
        ]
  ]

  -- For a length that is not above that of the range, where the range and the reserved ranges end below
  -- the top of memory and each reserved range has `alloc_len` bytes below it:
  -- `boot_reserve_range_search` returns the highest place of `alloc_len` bytes in the range that meets
  -- no reserved range, and `NoMem` if there is none. As many rounds as the highest address tried, and
  -- one, are enough.
  pub search-Finds :
      (fuel : ℕ)
      → alloc_len ≤ range_len
      → range_pa + range_len - alloc_len < fuel
      → Finds range_pa range_len alloc_len res
          (boot_reserve_range_search fuel range_pa range_len alloc_len res)
  unfolding boot_reserve_range_search
  search-Finds fuel h k =
      retry-Finds fuel (upper_align range_pa range_len alloc_len)
        (unfold upper_align in omega arith) (unfold upper_align in omega arith)
        (unfold upper_align in omega arith) (λ p v. unfold upper_align in omega (arith, v.below))
