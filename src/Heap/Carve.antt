-- ===== src/Heap/Carve.antt =====
-- kernel/src/klib/cmpctmalloc.rs: a block is taken from its list, whole or with its rest as a new block.
use score.Base.{
  ℕ, ◌+◌, ◌-◌, ◌%◌, ◌/◌, ◌^◌, ◌≤◌, ◌<◌, ◌≡◌, ◌≢◌, refl, sym, ap, ◌∙◌, subst, Bool, true, false,
  ◌&&◌, ltb, leb, arith, List, ◌∷◌, ok, if◌then◌else◌,
}
use score.Base.Word.{usize_mod, wadd, wsub}
use score.LinkedList.Chain.{NotIn}
use score.LinkedList.Family.{put}
use score.Cmpct.{size_to_index_freeing}
use score.Heap.{
  Heap, Header, write, set_left, set_size, right_header, carve, unlink_free, create_free_area,
}
use score.Heap.Lists.{SameRest}
use score.Heap.Blocks.{
  Block, total, place, before, Listed, After, IsArea, Before-frame, After-frame, After-relink,
  write-other, write-at, place-total,
}
use score.Heap.Gaps.{InPlace-same, In-put_front, In-put_new, NotIn-put_front}
use score.Heap.Unlink.{Unlinks, Unlinks-other}

-- What is taken of a free block of `size` bytes, for a request of `wanted` bytes that is rounded up to
-- `rounded` with its header, and what stands behind.
abbrev pub splits : ℕ → ℕ → ℕ → Bool
splits wanted rounded size = leb 32 (size - rounded) && ltb (wanted / 64) (size - rounded)

abbrev pub taken : ℕ → ℕ → ℕ → List Block → List Block
taken wanted rounded size post =
    if splits wanted rounded size
    then (rounded, false) ∷ (size - rounded, true) ∷ post
    else (size, false) ∷ post

module _ {S : Type 0} (h : Heap S) (a wanted rounded bucket size : ℕ) where
  pub carve_whole :
      (h1 : Heap S)
      → (h.header a).size ≡ size
      → rounded ≤ size
      → size < 2 ^ 32
      → splits wanted rounded size ≡ false
      → unlink_free a bucket h ≡ ok h1
      → carve wanted rounded bucket a h ≡ ok h1
  unfolding carve
  carve_whole h1 s fits small no_split ran =
      let rest : wsub size rounded ≡ size - rounded = omega (arith, fits, small) in
      rw (s, rest, no_split, ran) refl

  pub carve_split :
      (h1 h2 : Heap S)
      → (h.header a).size ≡ size
      → rounded ≤ size
      → size < 2 ^ 32
      → a + size < usize_mod
      → splits wanted rounded size ≡ true
      → unlink_free a bucket h ≡ ok h1
      → create_free_area (a + rounded) a (size - rounded) h1 ≡ ok h2
      → (set_left (a + size) (a + rounded) h2.header a).size ≡ size
      → carve wanted rounded bucket a h
        ≡ ok (record h2 {
          header = set_size a rounded (set_left (a + size) (a + rounded) h2.header);
        })
  unfolding carve right_header
  carve_split h1 h2 s fits small word split ran ran' kept =
      let rest : wsub size rounded ≡ size - rounded = omega (arith, fits, small) in
      let right : wadd a size ≡ a + size = omega (arith, word) in
      let free : wadd a rounded ≡ a + rounded = omega (arith, word, fits) in
      let left_over : (size + 2 ^ 32 - (size - rounded) % 2 ^ 32) % 2 ^ 32 ≡ rounded =
        omega (arith, fits, small) in
      rw (s, rest, split, right, ran, free, ran', kept, left_over) refl

-- The taken block is in place, in use: the headers are `m'`.
module _ {S : Type 0} (h h1 h' : Heap S) (qs qs1 qs' : ℕ → List ℕ) (base : ℕ)
    (pre post : List Block) (size rest : ℕ) (area : IsArea h qs base pre ((size, true) ∷ post) rest)
    (u : Unlinks h qs (place base pre) size h1 qs1) (same : SameRest h1 h') where
  pub whole-IsArea :
      h'.header
        ≡ write
            (place base pre)
            (record { left = before base pre; size = size; flag = 0 })
            h1.header
      → h'.remaining ≡ h1.remaining
      → qs' ≡ qs1
      → IsArea h' qs' base pre ((size, false) ∷ post) rest
  whole-IsArea header remaining lists =
      let q = area.in_place in
      let a = place base pre in
      let at = place-total base pre in
      let c = area.ahead.0 in
      let large = c.large in
      let block : Header = record { left = before base pre; size = size; flag = 0 } in
      let moved = λ (x : ℕ) (ne : x ≢ a).
        ap (λ (k : ℕ → Header). k x) header
        ∙ write-other a block h1.header x ne
        ∙ Unlinks-other u x ne in
      let here = ap (λ (k : ℕ → Header). k a) header ∙ write-at a block h1.header in
      subst (λ (t : ℕ → List ℕ). IsArea h' t base pre ((size, false) ∷ post) rest) (sym lists)
        record {
          in_place =
              InPlace-same h h' base (total pre + (size + total post))
                (total pre + (size + total post)) (moved base (omega (arith, at)))
                (same.free_lists ∙ u.same.free_lists) refl q;
          behind =
              Before-frame h.header h'.header qs qs1 base pre (λ x v. moved x (omega (arith, v)))
                (λ x n v. u.keeps x n (omega (arith, v))) (λ x i _ _ k. u.clears x i k) area.behind;
          ahead = (
            record {
              left_is = ap (λ (k : Header). k.left) here;
              size_is = ap (λ (k : Header). k.size) here;
              flag_is = ap (λ (k : Header). k.flag) here;
              large = large;
              listed = λ e. cc;
              clean = λ x i v w t. u.clears x i (c.clean x i v w t);
            },
            After-frame h.header h'.header qs qs1 a (a + size) post
                (λ x v. moved x (omega (arith, v, large)))
                (λ x n v. u.keeps x n (omega (arith, v, large))) (λ x i _ _ k. u.clears x i k)
                area.ahead.1,
          );
          counted = remaining ∙ u.remaining ∙ omega (arith, area.counted);
          word = omega (arith, area.word, area.counted, remaining, u.remaining);
        }

  -- The block is cut behind `r` bytes.
  module _ (r bucket : ℕ) (low : bucket < 128) (cut : 32 ≤ r) (left_over : 32 ≤ size - r)
      (index : size_to_index_freeing (size - r - 16) ≡ ok bucket) where
    pub split-IsArea :
        ((x : ℕ) → x < place base pre → h'.header x ≡ h1.header x)
        → h'.header (place base pre) ≡ record { left = before base pre; size = r; flag = 0 }
        → h'.header (place base pre + r)
          ≡ record { left = place base pre; size = size - r; flag = 1 }
        → h'.header (place base pre + size)
          ≡ record (h1.header (place base pre + size)) { left = place base pre + r }
        → ((x : ℕ) → place base pre + size < x → h'.header x ≡ h1.header x)
        → h'.remaining ≡ wadd h1.remaining (size - r)
        → qs' ≡ put bucket ((place base pre + r + 16) ∷ qs1 bucket) qs1
        → IsArea h' qs' base pre ((r, false) ∷ (size - r, true) ∷ post) rest
    split-IsArea below here next end above remaining lists =
        let q = area.in_place in
        let a = place base pre in
        let at = place-total base pre in
        let c = area.ahead.0 in
        let node = a + r + 16 in
        let nodes = put bucket (node ∷ qs1 bucket) qs1 in
        let keeps = λ (x n : ℕ) (ne : x ≢ a) (l : Listed qs (x + 16) n).
          let (i, v, f, w) = u.keeps x n ne l in
          let result : Listed nodes (x + 16) n =
            (i, v, f, In-put_front qs1 bucket node i (x + 16) w) in
          result in
        let clears = λ (x i : ℕ) (ne : x ≢ node) (k : NotIn x (qs i)).
          NotIn-put_front qs1 bucket node x i ne (u.clears x i k) in
        let after =
          After-relink h.header h'.header qs nodes a (a + r) (a + size) post
            (end
              ∙ ap (λ (k : Header). record k { left = a + r })
                  (Unlinks-other u (a + size) (omega (arith, left_over))))
            (λ x v. above x v ∙ Unlinks-other u x (omega (arith, v)))
            (λ x n v. keeps x n (omega (arith, v, left_over)))
            (λ x i v _ k. clears x i (omega (arith, v, left_over)) k) area.ahead.1 in
        subst (λ (t : ℕ → List ℕ). IsArea h' t base pre ((r, false) ∷ (size - r, true) ∷ post) rest)
          (sym lists)
          record {
            in_place =
                InPlace-same h h' base (total pre + (size + total post))
                  (total pre + (r + (size - r + total post)))
                  (below base (omega (arith, at)) ∙ Unlinks-other u base (omega (arith, at)))
                  (same.free_lists ∙ u.same.free_lists) (omega (arith, left_over)) q;
            behind =
                Before-frame h.header h'.header qs nodes base pre
                  (λ x v. below x v ∙ Unlinks-other u x (omega (arith, v)))
                  (λ x n v. keeps x n (omega (arith, v)))
                  (λ x i v _ k. clears x i (omega (arith, v)) k) area.behind;
            ahead = (
              record {
                left_is = ap (λ (k : Header). k.left) here;
                size_is = ap (λ (k : Header). k.size) here;
                flag_is = ap (λ (k : Header). k.flag) here;
                large = cut;
                listed = λ e. cc;
                clean = λ x i v w t.
                    clears x i (omega (arith, w)) (c.clean x i v (omega (arith, w, left_over)) t);
              },
              (
                record {
                  left_is = ap (λ (k : Header). k.left) next;
                  size_is = ap (λ (k : Header). k.size) next;
                  flag_is = ap (λ (k : Header). k.flag) next;
                  large = left_over;
                  listed = λ e. (bucket, low, index, In-put_new qs1 bucket node);
                  clean = λ x i v w t.
                      clears x i (omega (arith, v))
                        (c.clean x i (omega (arith, v)) (omega (arith, w, left_over)) t);
                },
                subst (λ (t : ℕ). After h'.header nodes (a + r) t post) (omega (arith, left_over))
                    after,
              ),
            );
            counted = remaining ∙ omega (arith, u.remaining, area.counted, area.word, left_over);
            word = omega (arith, area.word, area.counted, remaining, u.remaining, left_over);
          }
