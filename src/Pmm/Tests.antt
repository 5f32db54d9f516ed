-- ===== src/Pmm/Tests.antt =====
-- A manager with one page on its free list.
use score.Base.{
  ◌≢◌, ◌++◌, ◌<◌, length, err, no_mem, ℕ, ◌≡◌, ◌⊎◌, refl, arith, false, ◌==◌, if◌then◌else◌, List,
  [], ◌∷◌, ok, panic,
}
use score.Page.{is_free, is_loaned, get_state, new_object}
use score.Pmm.{PmmNode, alloc_page}
use score.Pmm.{alloc_pages}
use score.Pmm.Many.{Shares, alloc_pages-Shares}
use score.Pmm.Free.{HasFree, Takes, alloc_page-HasFree}
use score.Pmm.Source.{GivesFree, pmm_alloc_page, mark, gives_next}

abbrev node : PmmNode
node = record {
  arenas = [];
  free_count = 1;
  free_list = 70;
  pages = record {
    nodes = λ a.
        if a == 70
        then record { next = 80; prev = 80 }
        else if a == 90
        then record { next = 90; prev = 90 }
        else record { next = 70; prev = 70 };
    page = λ a. record { paddr = 0x8000_0000; object = new_object; state = 0; loaned_state = 0 };
  };
}

abbrev one_page : List ℕ
one_page = 80 ∷ []

node-HasFree : HasFree node one_page
unfolding is_free is_loaned get_state
node-HasFree = record {
  list = record {
    links = (refl, refl, (refl, refl));
    distinct = ((ground arith, tt), (tt, tt));
    valid = (ground arith, (ground arith, tt));
  };
  ready = ((refl, refl), tt);
}

alloc_page-HasFree_example :
    ((one_page ≡ []) × (alloc_page node ≡ panic))
    ⊎ ((x : ℕ) × (ys : List ℕ) × (n' : PmmNode) × (one_page ≡ x ∷ ys)
        × ((x == 0) ≡ false)
        × (alloc_page node ≡ ok (x, n'))
        × Takes node x ys n')
alloc_page-HasFree_example = alloc_page-HasFree node one_page node-HasFree

node-GivesFree : GivesFree node (0x8000_0000 ∷ [])
node-GivesFree = record { free = one_page; has = node-HasFree; frames = (refl, tt) }

gives_next_example :
    ((page : ℕ) × (next : PmmNode) × (pmm_alloc_page node ≡ (ok page, next))
      × ((page == 0) ≡ false)
      × (((mark page 5 next).pages.page page).paddr ≡ 0x8000_0000)
      × GivesFree (mark page 5 next) [])
gives_next_example = gives_next node 0x8000_0000 [] 5 node-GivesFree

node-Shares : Shares node 90 [] one_page
node-Shares = record {
  free = node-HasFree;
  own = record { links = (refl, refl); distinct = (tt, tt); valid = (ground arith, tt) };
  apart = ((ground arith, (ground arith, tt)), tt);
}

alloc_pages-Shares_example :
    ((zs rest : List ℕ) × (n' : PmmNode) × (one_page ≡ zs ++ rest)
      × (length zs ≡ 2)
      × (alloc_pages 2 90 node ≡ (ok tt, n'))
      × Shares n' 90 ([] ++ zs) rest)
    ⊎ ((n' : PmmNode) × (length one_page < 2)
        × (((◌≢◌ {A = ℕ} 2 1)
              × (alloc_pages 2 90 node ≡ (err no_mem, n'))
              × Shares n' 90 ([] ++ one_page) [])
            ⊎ ((◌≡◌ {A = ℕ} 2 1) × (alloc_pages 2 90 node ≡ (panic, n')))))
alloc_pages-Shares_example = alloc_pages-Shares 2 90 node [] one_page (ground arith) node-Shares
