-- ===== src/Heap/Alloc.antt =====
-- kernel/src/klib/cmpctmalloc.rs: `cmpct_alloc` from a bucket that holds a block.
use score.Base.{
  ℕ, ◌+◌, ◌-◌, ◌%◌, ◌^◌, ◌≤◌, ◌<◌, ◌≡◌, ◌≢◌, refl, sym, ap, ◌∙◌, subst, inl, inr, true, false, ◌==◌,
  ltb, arith, List, [], ◌∷◌, ok, Bool-cases, ltb→lt, ==_iff,
}
use score.Base.Word.{usize_mod, wadd, wsub}
use score.LinkedList.{empty, head}
use score.LinkedList.Chain.{IsList}
use score.LinkedList.Family.{Outside, put}
use score.Cmpct.{number_of_buckets, size_to_index_freeing, find_nonempty_bucket}
use score.Cmpct.Buckets.{freeing_bound}
use score.Cmpct.FreeBits.{find_nonempty_bucket-First}
use score.Heap.{
  Heap, Header, write, set_left, set_size, carve, take_block, unlink_free, create_allocation_header,
}
use score.Heap.Lists.{IsFree, SameRest, SameRest-header, SameRest-trans, has, create_free_area_lem}
use score.Heap.Relabel.{
  set_left-at, set_left-other, set_left-IsFree, set_size-other, set_size-at, untagged-IsFree,
}
use score.Heap.Blocks.{Block, place, before, IsArea, write-other, write-at, place-total}
use score.Heap.Unlink.{Unlinks, Unlinks-at, known_bucket}
use score.Heap.Carve.{splits, carve_whole, carve_split, whole-IsArea, split-IsArea}

-- The search finds the bucket if the lists before it are empty.
pub finds :
    {S : Type 0} (h : Heap S) (qs : ℕ → List ℕ) (start bucket n : ℕ) (xs : List ℕ)
    → IsFree h qs
    → bucket < number_of_buckets
    → start ≤ bucket
    → ((i : ℕ) → start ≤ i → i < bucket → qs i ≡ [])
    → qs bucket ≡ n ∷ xs
    → find_nonempty_bucket start h.free_list_bits ≡ ok bucket
finds h qs start bucket n xs free low from none some =
    let set = free.marks bucket low ∙ ap has some in
    let search =
      find_nonempty_bucket-First h.free_list_bits free.words start (omega (arith, low, from)) in
    elim search [
      | inl (b, e, above, small, one, zeros) ↦ elim (Bool-cases (ltb b bucket)) [
        | inl f ↦
            let u = ltb→lt b bucket f in
            let z = free.marks b small ∙ ap has (none b above u) in
            absurd (omega (arith, sym one ∙ z))
        | inr f ↦ elim (Bool-cases (b == bucket)) [
          | inl g ↦ e ∙ ap ok ((==_iff b bucket).0 g)
          | inr g ↦ let z = zeros bucket from (ground arith) in absurd (omega (arith, sym set ∙ z))
        ]
      ]
      | inr (e, zeros) ↦ absurd (omega (arith, sym set ∙ zeros bucket from low))
    ]

module _ {S : Type 0} (h : Heap S) (a left wanted rounded bucket n : ℕ) where
  take_runs :
      (h2 : Heap S)
      → empty (h.free_lists bucket) h.nodes ≡ false
      → head (h.free_lists bucket) h.nodes ≡ a + 16
      → a ≢ 0
      → a + 16 < usize_mod
      → carve wanted rounded bucket a h ≡ ok h2
      → (h2.header a).size ≡ n
      → (h2.header a).left ≡ left
      → n < 2 ^ 32
      → take_block wanted rounded bucket h
        ≡ ok (
          a + 16,
          record h2 { header = write a (record { left = left; size = n; flag = 0 }) h2.header },
        )
  unfolding take_block create_allocation_header
  take_runs h2 some first nz fits ran s l small =
      let block : wsub (a + 16) 16 ≡ a = omega (arith, fits) in
      let not_null : (a == 0) ≡ false = ground (arith, nz) in
      let self : wadd a 0 ≡ a = omega (arith, fits) in
      let payload : wadd a 16 ≡ a + 16 = omega (arith, fits) in
      let width : n % 2 ^ 32 ≡ n = omega (arith, small) in
      rw (some, first, block, not_null, ran, s, l, self, payload, width) refl

module _ {S : Type 0} (h h1 : Heap S) (qs qs1 : ℕ → List ℕ) (base : ℕ) (pre post : List Block)
    (size rest wanted rounded bucket : ℕ) (xs : List ℕ) (free : IsFree h qs)
    (area : IsArea h qs base pre ((size, true) ∷ post) rest)
    (u : Unlinks h qs (place base pre) size h1 qs1)
    (index : size_to_index_freeing (size - 16) ≡ ok bucket) (low : bucket < number_of_buckets)
    (first : qs bucket ≡ (place base pre + 16) ∷ xs) where
  list : IsList h.nodes (h.free_lists bucket) ((place base pre + 16) ∷ xs)
  list = subst (IsList h.nodes (h.free_lists bucket)) first (free.lists.list bucket low)

  some : empty (h.free_lists bucket) h.nodes ≡ false
  unfolding empty
  some =
      let e : (h.nodes (h.free_lists bucket)).next ≡ place base pre + 16 = list.links.0 in
      rw e (ground (arith, list.distinct.0.0))

  ran : unlink_free (place base pre) bucket h ≡ ok h1
  ran =
      let c = area.ahead.0 in
      let payload : wsub size 16 ≡ size - 16 = omega (arith, c.large, area.in_place.bounded) in
      sym (
        known_bucket h (place base pre) bucket (
          ap (λ (t : ℕ). size_to_index_freeing (wsub t 16)) c.size_is
          ∙ ap size_to_index_freeing payload
          ∙ index))
      ∙ u.ran

  abbrev pub Takes : List Block → Type 0
  Takes blocks =
      (h' : Heap S) × (qs' : ℕ → List ℕ) × (take_block wanted rounded bucket h
        ≡ ok (place base pre + 16, h'))
      × IsFree h' qs'
      × IsArea h' qs' base pre blocks rest
      × SameRest h h'

  pub take_whole :
      rounded ≤ size → splits wanted rounded size ≡ false → Takes ((size, false) ∷ post)
  unfolding head
  take_whole fits no_split =
      let q = area.in_place in
      let a = place base pre in
      let at = place-total base pre in
      let c = area.ahead.0 in
      let block : Header = record { left = before base pre; size = size; flag = 0 } in
      let h2 : Heap S = record h1 { header = write a block h1.header } in
      let same : SameRest h1 h2 = record {
        free_lists = refl;
        size = refl;
        cached_os_alloc = refl;
        source = refl;
      } in
      let now = Unlinks-at u in
      (
        h2,
        qs1,
        take_runs h a (before base pre) wanted rounded bucket size h1 some list.links.0
            (ground (arith, at)) (omega (arith, q.fits, at))
            (carve_whole h a wanted rounded bucket size h1 c.size_is fits (omega (arith, q.bounded))
              no_split ran)
            (ap (λ (k : Header). k.size) now ∙ c.size_is)
            (ap (λ (k : Header). k.left) now ∙ c.left_is) (omega (arith, q.bounded)),
        untagged-IsFree h1 qs1 a block (ap (λ (k : Header). k.flag) now) u.free,
        whole-IsArea h h1 h2 qs qs1 qs1 base pre post size rest area u same refl refl refl,
        SameRest-trans u.same same,
      )

  -- The node of the rest is in no list yet.
  rest-Outside :
      (r : ℕ) → 32 ≤ r → r < size → Outside 128 h1.free_lists qs1 (place base pre + r + 16)
  unfolding Outside
  rest-Outside r large fits i t =
      let q = area.in_place in
      let at = place-total base pre in
      let x = place base pre + r + 16 in
      let c = area.ahead.0 in
      (
        subst (λ (f : ℕ → ℕ). f i ≢ x) (sym u.same.free_lists)
            (q.apart i t x (omega (arith, at)) (omega (arith, at, fits))),
        u.clears x i (c.clean x i (omega (arith, large)) (omega (arith, fits)) t),
      )

  pub take_split :
      32 ≤ rounded
      → rounded ≤ size
      → splits wanted rounded size ≡ true
      → 32 ≤ size - rounded
      → Takes ((rounded, false) ∷ (size - rounded, true) ∷ post)
  unfolding head set_size
  take_split cut fits split left_over =
      let q = area.in_place in
      let a = place base pre in
      let at = place-total base pre in
      let c = area.ahead.0 in
      let lo = size - rounded in
      let next = a + rounded in
      let end = a + size in
      let (bucket2, index2, low2) =
        freeing_bound (lo - 16) (omega (arith, left_over)) (omega (arith, q.bounded)) in
      let (h2, ran2, free2, header, more, same2) =
        create_free_area_lem h1 qs1 next a lo bucket2 u.free index2 low2
          (rest-Outside rounded cut (omega (arith, left_over))) (omega (arith, q.fits, at, fits))
          left_over (omega (arith, q.bounded)) in
      let rest_block : Header = record { left = a; size = lo; flag = 1 } in
      let m2 = h2.header in
      let m3 = set_left end next m2 in
      let m4 = set_size a rounded m3 in
      let block : Header = record { left = before base pre; size = rounded; flag = 0 } in
      let second = λ (x : ℕ) (ne : x ≢ next).
        ap (λ (k : ℕ → Header). k x) header ∙ write-other next rest_block h1.header x ne in
      let at_a : m2 a ≡ record (h.header a) { flag = 0 } =
        second a (omega (arith, cut)) ∙ Unlinks-at u in
      let at_a3 : m3 a ≡ record (h.header a) { flag = 0 } =
        set_left-other end next m2 a (omega (arith, fits, cut)) ∙ at_a in
      let at_a4 : m4 a ≡ record (m3 a) { size = rounded } = set_size-at a rounded m3 in
      let top =
        λ (x : ℕ) (ne : x ≢ a). write-other a block m4 x ne ∙ set_size-other a rounded m3 x ne in
      let outer = λ (x : ℕ) (ne : x ≢ a) (nf : x ≢ end) (ng : x ≢ next).
        top x ne ∙ set_left-other end next m2 x nf ∙ second x ng in
      let h3 : Heap S = record h2 { header = m4 } in
      let h4 : Heap S = record h2 { header = write a block m4 } in
      let qs2 = put bucket2 ((next + 16) ∷ qs1 bucket2) qs1 in
      let same : SameRest h1 h4 = SameRest-header (write a block m4) same2 in
      let untagged3 = ap (λ (k : Header). k.flag) at_a3 in
      let free3 =
        untagged-IsFree (record h2 { header = m3 }) qs2 a (record (m3 a) { size = rounded })
          untagged3 (set_left-IsFree h2 qs2 end next free2) in
      (
        h4,
        qs2,
        take_runs h a (before base pre) wanted rounded bucket rounded h3 some list.links.0
            (ground (arith, at)) (omega (arith, q.fits, at))
            (carve_split h a wanted rounded bucket size h1 h2 c.size_is fits
              (omega (arith, q.bounded)) (omega (arith, q.fits, at)) split ran ran2
              (ap (λ (k : Header). k.size) at_a3 ∙ c.size_is))
            (ap (λ (k : Header). k.size) at_a4)
            (ap (λ (k : Header). k.left) at_a4 ∙ ap (λ (k : Header). k.left) at_a3 ∙ c.left_is)
            (omega (arith, q.bounded, fits)),
        untagged-IsFree h3 qs2 a block (ap (λ (k : Header). k.flag) at_a4 ∙ untagged3) free3,
        split-IsArea h h1 h4 qs qs1 qs2 base pre post size rest area u same rounded bucket2 low2 cut
            left_over index2
            (λ x v. outer x (omega (arith, v)) (omega (arith, v)) (omega (arith, v)))
            (write-at a block m4)
            (top next (omega (arith, cut))
              ∙ set_left-other end next m2 next (omega (arith, left_over))
              ∙ ap (λ (k : ℕ → Header). k next) header
              ∙ write-at next rest_block h1.header)
            (top end (omega (arith, fits, cut))
              ∙ set_left-at end next m2
              ∙ ap (λ (k : Header). record k { left = next })
                  (second end (omega (arith, left_over))))
            (λ x v. outer x (omega (arith, v)) (omega (arith, v)) (omega (arith, v, fits))) more
            refl,
        SameRest-trans u.same same,
      )
