-- ===== src/Heap.antt =====
-- kernel/src/klib/cmpctmalloc.rs: the heap, with the headers of its blocks in memory. A block is
-- named by the address of its header, and its `queue_node` lies 16 bytes higher. `header` gives what
-- stands at every address that is read as a `header_t`, `nodes` the links at every node.
pub mod Lists
pub mod Removal
pub mod Relabel
pub mod Blocks
pub mod Gaps
pub mod Unlink
pub mod Paths
pub mod Joins
pub mod Merges
pub mod Free
pub mod Carve
pub mod Alloc
pub mod Serve
pub mod Start
pub mod Grow
pub mod Example
pub mod Tests
use Prim.Native.Nat.{bit_and}
use score.Base.{
  ℕ, zero, suc, ◌+◌, ◌-◌, ◌*◌, ◌/◌, ◌%◌, ◌^◌, min, max, Bool, true, false, not, ◌&&◌, ◌||◌, ltb,
  leb, ◌==◌, if◌then◌else◌, Option, none, some, Outcome, ok, err, panic, out_of_fuel, ◌>>=◌, ◌>>◌,
  zx_assert,
}
use score.Base.Word.{wadd, wsub, wnot}
use score.Align.{page_size, roundup, is_page_aligned}
use score.LinkedList.{ListNode, Memory, init_node, init, add_head, delete_from_list, empty, head}
use score.Mmu.{continue_with}
use score.Cmpct.{
  number_of_buckets, size_of_header_t, size_of_free_t, heap_max_alloc_size, heap_alloc_virtual_bits,
  size_to_index_allocating, size_to_index_freeing, set_free_list_bit, clear_free_list_bit,
  find_nonempty_bucket,
}

abbrev pub heap_grow_over_head : ℕ
heap_grow_over_head = size_of_header_t * 2

abbrev pub heap_usable_grow_size : ℕ
heap_usable_grow_size = 256 * 1024 - heap_grow_over_head

abbrev pub heap_large_alloc_bytes : ℕ
heap_large_alloc_bytes = 2 ^ heap_alloc_virtual_bits - heap_grow_over_head

-- `size` and `flag` are 32 bits wide.
pub record Header : Type 0 where
  pub left : ℕ
  pub size : ℕ
  pub flag : ℕ

-- What the heap asks of the allocator of its pages, `VirtualAlloc`.
pub record PageSource (S : Type 0) : Type 0 where
  pub alloc_pages : ℕ → S → Outcome ℕ × S
  pub free_pages : ℕ → ℕ → S → Outcome (Unit {0}) × S

-- `free_lists` gives the address of the own node of each list.
pub record Heap (S : Type 0) : Type 0 where
  pub size : ℕ
  pub remaining : ℕ
  pub cached_os_alloc : ℕ
  pub free_lists : ℕ → ℕ
  pub free_list_bits : ℕ → ℕ
  pub header : ℕ → Header
  pub nodes : Memory
  pub source : S

-- A write of the header at an address.
unfoldable pub write : ℕ → Header → (ℕ → Header) → ℕ → Header
write a new m x = if x == a then new else m x

unfoldable pub set_left : ℕ → ℕ → (ℕ → Header) → ℕ → Header
unfolding write
set_left a v m = write a (record (m a) { left = v }) m

unfoldable pub set_size : ℕ → ℕ → (ℕ → Header) → ℕ → Header
unfolding write
set_size a v m = write a (record (m a) { size = v }) m

unfoldable pub is_tagged_as_free : ℕ → (ℕ → Header) → Bool
is_tagged_as_free a m = if a == 0 then false else not (bit_and (m a).flag 1 == 0)

unfoldable pub right_header : ℕ → (ℕ → Header) → ℕ
right_header a m = wadd a (m a).size

unfoldable pub is_start_of_os_allocation : ℕ → (ℕ → Header) → Bool
is_start_of_os_allocation a m = (m a).left == 0

unfoldable pub is_end_of_os_allocation : ℕ → (ℕ → Header) → Bool
is_end_of_os_allocation a m = (m a).size == 0

module _ {S : Type 0} where
  -- The payload and the heap with the header written.
  unfoldable pub create_allocation_header : ℕ → ℕ → ℕ → ℕ → Heap S → ℕ × Heap S
  unfolding write
  create_allocation_header va offset size left h = (
    wadd (wadd va offset) size_of_header_t,
    record h {
      header =
          write (wadd va offset) (record { left = left; size = size % 2 ^ 32; flag = 0 }) h.header;
    },
  )

  unfoldable pub create_free_area : ℕ → ℕ → ℕ → Heap S → Outcome (Heap S)
  unfolding write
  create_free_area area left size h = do
    let node = wadd area size_of_header_t
    bucket ← size_to_index_freeing (wsub size size_of_header_t)
    bits ← set_free_list_bit bucket h.free_list_bits
    ok (record h {
      remaining = wadd h.remaining size;
      free_list_bits = bits;
      header = write area (record { left = left; size = size % 2 ^ 32; flag = 1 }) h.header;
      nodes = add_head (h.free_lists bucket) node (init_node node h.nodes);
    })

  unfoldable pub unlink_free : ℕ → ℕ → Heap S → Outcome (Heap S)
  unfolding write
  unlink_free a bucket h = do
    zx_assert (leb (h.header a).size h.remaining)
    let nodes = delete_from_list (wadd a size_of_header_t) h.nodes
    let unlinked : Heap S = record h {
      remaining = wsub h.remaining (h.header a).size;
      header = write a (record (h.header a) { flag = 0 }) h.header;
      nodes = nodes;
    }
    zx_assert (ltb bucket number_of_buckets)
    bits ←
        if empty (h.free_lists bucket) nodes
        then clear_free_list_bit bucket h.free_list_bits
        else ok h.free_list_bits
    ok (record unlinked { free_list_bits = bits })

  unfoldable pub unlink_free_unknown_bucket : ℕ → Heap S → Outcome (Heap S)
  unfolding unlink_free
  unlink_free_unknown_bucket a h =
      size_to_index_freeing (wsub (h.header a).size size_of_header_t) >>= λ bucket.
      unlink_free a bucket h

  unfoldable pub add_to_heap : ℕ → ℕ → Heap S → Outcome (Heap S)
  unfolding create_allocation_header
  add_to_heap area size h =
      let (free_area, h1) = create_allocation_header area 0 size_of_header_t 0 h in
      create_free_area free_area area (wsub size (2 * size_of_header_t)) h1 >>= λ h2.
      let right = wsub (wadd area size) size_of_header_t in
      ok (create_allocation_header right 0 0 free_area h2).1

  -- The rest of a block behind the part that is taken becomes a free block, unless it is too small.
  unfoldable pub carve : ℕ → ℕ → ℕ → ℕ → Heap S → Outcome (Heap S)
  carve size rounded_up bucket head h =
      let left_over = wsub (h.header head).size rounded_up in
      if leb size_of_free_t left_over && ltb (size / 64) left_over
      then (do
        let right = right_header head h.header
        h1 ← unlink_free head bucket h
        let free = wadd head rounded_up
        h2 ← create_free_area free head left_over h1
        let m = set_left right free h2.header
        ok (record h2 {
          header = set_size head (((m head).size + 2 ^ 32 - left_over % 2 ^ 32) % 2 ^ 32) m;
        }))
      else unlink_free head bucket h

  -- The first block of the bucket is taken: the end of `cmpct_alloc`.
  unfoldable pub take_block : ℕ → ℕ → ℕ → Heap S → Outcome (ℕ × Heap S)
  unfolding create_allocation_header
  take_block size rounded_up bucket h = do
    zx_assert (not (empty (h.free_lists bucket) h.nodes))
    let block = wsub (head (h.free_lists bucket) h.nodes) size_of_header_t
    zx_assert (not (block == 0))
    h' ← carve size rounded_up bucket block h
    ok (create_allocation_header block 0 (h'.header block).size (h'.header block).left h')

  -- The end of `heap_grow`.
  unfoldable pub add_area : ℕ → ℕ → Heap S → Outcome (Unit {0}) × Heap S
  unfolding add_to_heap
  add_area area size h = elim (add_to_heap area size h) [
    | ok h' ↦ (ok tt, h')
    | err e ↦ (err e, h)
    | panic ↦ (panic, h)
    | out_of_fuel ↦ (out_of_fuel, h)
  ]

module _ {S : Type 0} (p : PageSource S) where
  unfoldable pub heap_page_alloc : ℕ → Heap S → Outcome ℕ × Heap S
  heap_page_alloc pages h =
      if ltb 0 pages
      then (let (allocated, source) = p.alloc_pages pages h.source in
          (allocated, record h { source = source }))
      else (panic, h)

  unfoldable pub heap_page_free : ℕ → ℕ → Heap S → Outcome (Unit {0}) × Heap S
  heap_page_free va pages h =
      if is_page_aligned va && ltb 0 pages
      then (let (freed, source) = p.free_pages va pages h.source in
          (freed, record h { source = source }))
      else (panic, h)

  unfoldable pub free_to_os : ℕ → ℕ → Heap S → Outcome (Unit {0}) × Heap S
  unfolding heap_page_free continue_with
  free_to_os va size h =
      if is_page_aligned va && is_page_aligned size
      then continue_with (heap_page_free va (size / page_size) h)
          (λ _ h'. (ok tt, record h' { size = wsub h'.size size }))
      else (panic, h)

  unfoldable pub possibly_free_to_os : ℕ → ℕ → Heap S → Outcome (Heap S)
  unfolding free_to_os write
  possibly_free_to_os left_sentinel total_size h =
      if h.cached_os_alloc == 0
      then ok (record h {
        cached_os_alloc = left_sentinel;
        header =
            write left_sentinel (record { left = 0; size = total_size % 2 ^ 32; flag = 0 })
              h.header;
      })
      else (let (freed, h') = free_to_os left_sentinel total_size h in freed >> ok h')

  unfoldable pub free_memory : ℕ → ℕ → ℕ → Heap S → Outcome (Heap S)
  unfolding possibly_free_to_os create_free_area
  free_memory va left size h =
      if is_page_aligned left
        && is_start_of_os_allocation left h.header
        && is_end_of_os_allocation (wadd va size) h.header
      then (do
        zx_assert ((h.header left).size == size_of_header_t)
        possibly_free_to_os left (wadd size (2 * size_of_header_t)) h)
      else create_free_area va left size h

  -- The block on the left is free: coalesce with it, and with the one on the right if that is free.
  unfoldable pub free_with_left : ℕ → ℕ → ℕ → Heap S → Outcome (Heap S)
  free_with_left header left size h = unlink_free_unknown_bucket left h >>= λ h1.
      let left_left = (h1.header left).left in
      let right = right_header header h1.header in
      if is_tagged_as_free right h1.header
      then unlink_free_unknown_bucket right h1 >>= (λ h2.
        let right_right = right_header right h2.header in
        let h3 : Heap S = record h2 { header = set_left right_right left h2.header } in
        free_memory left left_left (wadd (wadd (h3.header left).size size) (h3.header right).size)
          h3)
      else (let h2 : Heap S = record h1 { header = set_left right left h1.header } in
          free_memory left left_left (wadd (h2.header left).size size) h2)

  unfoldable pub free_without_left : ℕ → ℕ → ℕ → Heap S → Outcome (Heap S)
  free_without_left header left size h =
      let right = right_header header h.header in
      if is_tagged_as_free right h.header
      then (let right_right = right_header right h.header in
          unlink_free_unknown_bucket right h >>= λ h1.
          let h2 : Heap S = record h1 { header = set_left right_right header h1.header } in
          free_memory header left (wadd size (h2.header right).size) h2)
      else free_memory header left size h

  unfoldable pub cmpct_free_internal : ℕ → Heap S → Outcome (Heap S)
  unfolding free_with_left free_without_left
  cmpct_free_internal header h = do
    zx_assert (not (is_tagged_as_free header h.header))
    zx_assert (ltb size_of_header_t (h.header header).size)
    let size = (h.header header).size
    let left = (h.header header).left
    if not (left == 0) && is_tagged_as_free left h.header
        then free_with_left header left size h
        else free_without_left header left size h

  unfoldable pub cmpct_free : ℕ → Heap S → Outcome (Heap S)
  unfolding cmpct_free_internal
  cmpct_free payload h =
      if payload == 0 then ok h else elim (cmpct_free_internal (wsub payload size_of_header_t) h) [
        | ok h' ↦ ok h'
        | err _ ↦ panic
        | panic ↦ panic
        | out_of_fuel ↦ out_of_fuel
      ]

  -- The pages for `size` bytes, from the cached allocation if that is large enough: the address, or
  -- 0 for none, and the size. A cached allocation that is too small goes back.
  unfoldable pub take_cached : ℕ → Heap S → Outcome (ℕ × ℕ) × Heap S
  unfolding free_to_os continue_with
  take_cached size h =
      let area = h.cached_os_alloc in
      let cached = (h.header area).size in
      if area == 0
      then (ok (0, size), h)
      else if leb size cached
      then if is_page_aligned area && is_page_aligned cached
        then (ok (area, cached), record h { cached_os_alloc = 0 })
        else (panic, h)
      else continue_with (free_to_os area cached h)
          (λ _ h'. (ok (0, size), record h' { cached_os_alloc = 0 }))

  unfoldable pub heap_grow : ℕ → Heap S → Outcome (Unit {0}) × Heap S
  unfolding take_cached heap_page_alloc add_area continue_with
  heap_grow requested h =
      if leb requested heap_large_alloc_bytes
      then continue_with (take_cached (roundup (wadd requested heap_grow_over_head) page_size) h)
          (λ taken h1.
            if taken.0 == 0
            then continue_with (heap_page_alloc (taken.1 / page_size) h1)
                (λ area h2. add_area area taken.1 (record h2 { size = wadd h2.size taken.1 }))
            else add_area taken.0 taken.1 h1)
      else (panic, h)

  -- The loop that asks for less until the heap grows. `false` means that it did not.
  unfoldable pub grow_loop : ℕ → ℕ → ℕ → Heap S → Outcome (Bool × Heap S)
  grow_loop zero growby rounded_up h = out_of_fuel
  grow_loop (suc fuel) growby rounded_up h =
      let (grown, h') = heap_grow growby h in
      elim grown [
        | ok _ ↦ ok (true, h')
        | err _ ↦ elim (leb growby rounded_up) [
          | true ↦ ok (false, h')
          | false ↦ grow_loop fuel (max (growby / 2) rounded_up) rounded_up h'
        ]
        | panic ↦ panic
        | out_of_fuel ↦ out_of_fuel
      ]

  -- The bucket, after the heap has grown, or that there is none. The rounds of the loop are at most
  -- the first amount and one.
  unfoldable pub grow_for : ℕ → ℕ → Heap S → Outcome (Option ℕ × Heap S)
  unfolding grow_loop
  grow_for start_bucket rounded_up h = do
    let growby =
        min heap_large_alloc_bytes (max (h.size / 8) (max heap_usable_grow_size rounded_up))
    zx_assert (leb rounded_up growby)
    (grown, h') ← grow_loop (suc growby) growby rounded_up h
    if grown
        then elim (find_nonempty_bucket start_bucket h'.free_list_bits) [
          | ok bucket ↦ ok (some bucket, h')
          | err _ ↦ panic
          | panic ↦ panic
          | out_of_fuel ↦ out_of_fuel
        ]
        else ok (none, h')

  unfoldable pub bucket_for : ℕ → ℕ → Heap S → Outcome (Option ℕ × Heap S)
  unfolding grow_for
  bucket_for start_bucket rounded_up h = elim (find_nonempty_bucket start_bucket h.free_list_bits) [
    | ok bucket ↦ ok (some bucket, h)
    | err _ ↦ grow_for start_bucket rounded_up h
    | panic ↦ panic
    | out_of_fuel ↦ out_of_fuel
  ]

  -- Null if the size is 0 or too large, or if the heap cannot grow.
  unfoldable pub cmpct_alloc : ℕ → Heap S → Outcome (ℕ × Heap S)
  cmpct_alloc size h = if (size == 0) || ltb heap_max_alloc_size size then ok (0, h) else (do
    (start_bucket, rounded) ← size_to_index_allocating size
    let rounded_up = wadd rounded size_of_header_t
    (found, h') ← bucket_for start_bucket rounded_up h
    elim found [ none ↦ ok (0, h') | some bucket ↦ take_block size rounded_up bucket h' ])

  -- The part of a block in front of an aligned payload goes back: the end of `cmpct_memalign`.
  unfoldable pub split_for_align : ℕ → ℕ → Heap S → Outcome (ℕ × Heap S)
  unfolding create_allocation_header cmpct_free
  split_for_align align unaligned h =
      let mask = wsub align 1 in
      let payload = bit_and (wadd (wadd unaligned size_of_free_t) mask) (wnot mask) in
      if unaligned == payload
      then ok (payload, h)
      else (let unaligned_header = wsub unaligned size_of_header_t in
          let header = wsub payload size_of_header_t in
          let left_over = wsub payload unaligned in
          let (_, h1) =
            create_allocation_header header 0 (wsub (h.header unaligned_header).size left_over)
              unaligned_header h in
          let right = right_header unaligned_header h1.header in
          let m =
            set_left right header (set_size unaligned_header (left_over % 2 ^ 32) h1.header) in
          cmpct_free unaligned (record h1 { header = m }) >>= λ h2. ok (payload, h2))

  unfoldable pub cmpct_memalign : ℕ → ℕ → Heap S → Outcome (ℕ × Heap S)
  unfolding cmpct_alloc split_for_align
  cmpct_memalign align size h =
      if size == 0 then ok (0, h) else if ltb align 8 then cmpct_alloc size h else (do
        (unaligned, h') ← cmpct_alloc (wadd (wadd size align) size_of_free_t) h
        if unaligned == 0 then ok (0, h') else split_for_align align unaligned h')

  -- The lists of the new heap, from number `i` on, `n` of them.
  unfoldable pub init_lists : ℕ → ℕ → (ℕ → ℕ) → Memory → Memory
  init_lists zero i free_lists m = m
  init_lists (suc n) i free_lists m = init_lists n (i + 1) free_lists (init (free_lists i) m)

  -- A heap in memory as it is, whose lists have their own nodes at `free_lists`.
  unfoldable pub cmpct_init : (ℕ → ℕ) → (ℕ → Header) → Memory → S → Outcome (Unit {0}) × Heap S
  unfolding init_lists heap_grow
  cmpct_init free_lists header nodes source = heap_grow heap_usable_grow_size (record {
    size = 0;
    remaining = 0;
    cached_os_alloc = 0;
    free_lists = free_lists;
    free_list_bits = λ _. 0;
    header = header;
    nodes = init_lists number_of_buckets 0 free_lists nodes;
    source = source;
  })
