-- ===== src/Heap/Example.antt =====
-- A heap with one area at 4096: a free block of 256 bytes, one of 48 bytes in use and, for `third`, one
-- of 64 bytes in use. The lists have their own nodes at 100 and on.
use Prim.Native.Nat.{bit_or}
use score.Base.{
  ℕ, zero, suc, ◌+◌, ◌-◌, ◌%◌, ◌^◌, ◌≤◌, ◌<◌, ◌≡◌, ◌≢◌, refl, sym, ap, ◌∙◌, inl, inr, Bool, true,
  false, ◌==◌, arith, if◌then◌else◌, Bool-cases, List, [], ◌∷◌, All, Outcome, ok, err, panic,
  no_mem,
}
use score.Base.Bits.{bit}
use score.Base.Word.{wshl, wshr}
use score.Base.Highest.{bit_length}
use score.Align.{is_page_aligned}
use score.LinkedList.{Memory, add_head}
use score.LinkedList.Chain.{NotIn}
use score.LinkedList.Family.{IsFamily, Outside, put, put-here, put-other, add_head-IsFamily}
use score.Cmpct.{
  size_to_index_allocating, size_to_index_freeing, set_free_list_bit, row_column, row_column_size,
}
use score.Cmpct.FreeBits.{flag}
use score.Cmpct.MarkBits.{set_clear_free_list_bit-Marks}
use score.Heap.{Heap, Header, PageSource}
use score.Heap.Lists.{IsFree, IsTagged, has}
use score.Heap.Blocks.{IsArea, IsBlock, InPlace, Listed}

abbrev pub loops : Memory
loops x = record { next = x; prev = x }

abbrev pub roots : ℕ → ℕ
roots i = 100 + i

abbrev pub no_blocks : ℕ → List ℕ
no_blocks i = []

pub loops-IsFamily : IsFamily 128 loops roots no_blocks
loops-IsFamily = record {
  list = λ i u. record { links = (refl, refl); distinct = (tt, tt); valid = (ground arith, tt) };
  apart = λ i j u v ne. ((ground (arith, ne), tt), tt);
}

pub bit-zero : (k : ℕ) → bit 0 k ≡ 0
unfolding bit
bit-zero zero = refl
bit-zero (suc k) = bit-zero k

abbrev pub empty_heap : Heap ℕ
empty_heap = record {
  size = 4096;
  remaining = 0;
  cached_os_alloc = 0;
  free_lists = roots;
  free_list_bits = λ j. 0;
  header = λ x. record { left = 0; size = 0; flag = 0 };
  nodes = loops;
  source = 0;
}

pub aligned : is_page_aligned 4096 ≡ true
unfolding is_page_aligned
aligned = refl

pub outside : (x : ℕ) → 4096 ≤ x → Outside 128 roots no_blocks x
unfolding Outside
outside x l i u = (ground (arith, l, u), tt)

abbrev pub nodes : Memory
nodes = add_head 122 4128 loops

abbrev pub bits : ℕ → ℕ
bits j = if j == 0 then bit_or 0 (2 ^ 9) else 0

abbrev pub headers : Bool → ℕ → Header
headers third x =
    if x == 4096
    then record { left = 0; size = 16; flag = 0 }
    else if x == 4112
    then record { left = 4096; size = 256; flag = 1 }
    else if x == 4368
    then record { left = 4112; size = 48; flag = 0 }
    else if x == 4416
    then record { left = 4368; size = if third then 64 else 0; flag = 0 }
    else record { left = 4416; size = 0; flag = 0 }

abbrev pub heap : Bool → Heap ℕ
heap third = record {
  size = 4096;
  remaining = 256;
  cached_os_alloc = 0;
  free_lists = roots;
  free_list_bits = bits;
  header = headers third;
  nodes = nodes;
  source = 0;
}

abbrev pub one_block : ℕ → List ℕ
one_block = put 22 (4128 ∷ []) no_blocks

abbrev pub pages : PageSource ℕ
pages = record { alloc_pages = λ n s. (err no_mem, s); free_pages = λ a n s. (panic, s) }

pub of_240 : size_to_index_freeing 240 ≡ ok 22
unfolding size_to_index_freeing row_column row_column_size wshl wshr bit_length
of_240 = refl

pub of_200 : size_to_index_allocating 200 ≡ ok (20, 208)
unfolding size_to_index_allocating row_column row_column_size wshl wshr bit_length
of_200 = refl

pub set_bits : set_free_list_bit 22 (λ j. 0) ≡ ok bits
unfolding set_free_list_bit
set_bits = refl

pub given : Outcome (ℕ → ℕ) → ℕ → ℕ
given (ok f) = f
given o = λ j. 0

pub bits-marks : (i : ℕ) → flag bits i ≡ (if i == 22 then 1 else 0)
unfolding given
bits-marks i =
    let ((c, ran, words, marks), _) =
      set_clear_free_list_bit-Marks (λ j. 0) (λ j. omega arith) 22 (omega arith) in
    let is : bits ≡ c = ap given (sym set_bits ∙ ran) in
    ap (λ (f : ℕ → ℕ). flag f i) is
    ∙ marks i
    ∙ ap (λ (t : ℕ). if i == 22 then 1 else t) (bit-zero (31 - i % 32))

pub one_block-has : (i : ℕ) → (if i == 22 then 1 else 0) ≡ has (one_block i)
one_block-has i = elim (Bool-cases (i == 22)) [
  | inl e ↦ rw (e, put-here 22 (4128 ∷ []) no_blocks i e) refl
  | inr e ↦ rw (e, put-other 22 (4128 ∷ []) no_blocks i e) refl
]

pub heap-IsTagged : (third : Bool) (i : ℕ) → All (IsTagged (headers third)) (one_block i)
heap-IsTagged third i = elim (Bool-cases (i == 22)) [
  | inl e ↦ rw (put-here 22 (4128 ∷ []) no_blocks i e) ((omega arith, refl), tt)
  | inr e ↦ rw (put-other 22 (4128 ∷ []) no_blocks i e) tt
]

pub heap-IsFree : (third : Bool) → IsFree (heap third) one_block
heap-IsFree third = record {
  lists =
      add_head-IsFamily 128 loops roots no_blocks 22 4128 loops-IsFamily (omega arith)
        (outside 4128 (omega arith)) (ground arith);
  words = λ j. ground arith;
  marks = λ i u. bits-marks i ∙ one_block-has i;
  tagged = λ i u. heap-IsTagged third i;
}

pub not_node : (x i : ℕ) → x ≢ 4128 → NotIn x (one_block i)
not_node x i ne = elim (Bool-cases (i == 22)) [
  | inl e ↦ rw (put-here 22 (4128 ∷ []) no_blocks i e) ((λ f. ne (sym f)), tt)
  | inr e ↦ rw (put-other 22 (4128 ∷ []) no_blocks i e) tt
]

pub listed : Listed one_block 4128 256
unfolding put
listed = (22, omega arith, of_240, inl refl)

pub free-IsBlock : (third : Bool) → IsBlock (headers third) one_block 4112 4096 (256, true)
free-IsBlock third = record {
  left_is = refl;
  size_is = refl;
  flag_is = refl;
  large = omega arith;
  listed = λ e. listed;
  clean = λ x i u v w. not_node x i (omega (arith, u));
}

pub used-IsBlock : (third : Bool) → IsBlock (headers third) one_block 4368 4112 (48, false)
used-IsBlock third = record {
  left_is = refl;
  size_is = refl;
  flag_is = refl;
  large = omega arith;
  listed = λ e. cc;
  clean = λ x i u v w. not_node x i (omega (arith, u));
}

pub third-IsBlock : IsBlock (headers true) one_block 4416 4368 (64, false)
third-IsBlock = record {
  left_is = refl;
  size_is = refl;
  flag_is = refl;
  large = omega arith;
  listed = λ e. cc;
  clean = λ x i u v w. not_node x i (omega (arith, u));
}

pub in_place : (third : Bool) (len : ℕ) → len ≤ 368 → InPlace (heap third) 4096 len
in_place third len u = record {
  aligned = aligned;
  some = ground arith;
  start = refl;
  size_is = refl;
  flag_is = refl;
  bounded = omega (arith, u);
  fits = omega (arith, u);
  apart = λ i low x l v. ground (arith, low, l);
}

-- Seen from the free block, and from the next one.
pub from_first :
    IsArea (heap true) one_block 4096 [] ((256, true) ∷ (48, false) ∷ (64, false) ∷ []) 0
from_first = record {
  in_place = in_place true 368 (omega arith);
  behind = tt;
  ahead = (free-IsBlock true, (used-IsBlock true, (third-IsBlock, (refl, refl, refl))));
  counted = refl;
  word = omega arith;
}

pub from_second :
    IsArea (heap true) one_block 4096 ((256, true) ∷ []) ((48, false) ∷ (64, false) ∷ []) 0
from_second = record {
  in_place = in_place true 368 (omega arith);
  behind = (free-IsBlock true, tt);
  ahead = (used-IsBlock true, (third-IsBlock, (refl, refl, refl)));
  counted = refl;
  word = omega arith;
}

pub last_used : IsArea (heap false) one_block 4096 ((256, true) ∷ []) ((48, false) ∷ []) 0
last_used = record {
  in_place = in_place false 304 (omega arith);
  behind = (free-IsBlock false, tt);
  ahead = (used-IsBlock false, (refl, refl, refl));
  counted = refl;
  word = omega arith;
}

pub none_before : (i : ℕ) → 20 ≤ i → i < 22 → one_block i ≡ []
none_before i l u = put-other 22 (4128 ∷ []) no_blocks i (ground (arith, u))

pub first_of : one_block 22 ≡ 4128 ∷ []
first_of = put-here 22 (4128 ∷ []) no_blocks 22 refl
