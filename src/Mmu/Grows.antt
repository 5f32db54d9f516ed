-- ===== src/Mmu/Grows.antt =====
-- kernel/src/arch/riscv64/mmu.rs: how the tables change while the page at `v` is being mapped. Items
-- that were present stay, and what is new lies on the path of `v`.
use score.Base.{
  ℕ, ◌+◌, ◌*◌, ◌/◌, ◌%◌, ◌<◌, ◌≤◌, ◌≡◌, ◌≢◌, ◌⊎◌, inl, inr, refl, sym, ap, ◌∙◌, true, false, arith,
  ltb, ltb→lt, Bool-cases,
}
use score.Base.Word.{usize_mod}
use score.Physmap.{paddr_to_physmap}
use score.Mmu.{Tables, vaddr_to_index, item_present, item_leaf, mk_item, pa_to_pfn}
use score.Mmu.Items.{item}
use score.Mmu.Levels.{slot, vaddr_to_index-slot}
use score.Mmu.Tree.{Shape, below, grown}
use score.Mmu.Grown.{
  grown_shape, grown_shape-other, grown_cases, mk_item_cases, same_item, absent, apart, new_item,
}

pub record Extends (s s' : Shape) : Type 0 where
  pub level : (t : ℕ) → s.level t ≤ 4 → s'.level t ≡ s.level t
  pub number : (t : ℕ) → s.level t ≤ 4 → s'.number t ≡ s.number t

-- A new item is on the path of `v`: a leaf of the last level, or the name of a new table.
pub record OnPath (s s' : Shape) (new : Tables) (v t i : ℕ) : Type 0 where
  pub place : s'.number t * 512 + i ≡ slot v (s'.level t)
  pub kind :
      ((item_leaf (new t) i ≡ true) × (s'.level t ≡ 4))
      ⊎ ((item_leaf (new t) i ≡ false) × (5 ≤ s.level (below new t i)))

pub data Entry (s s' : Shape) (old new : Tables) (v t i : ℕ) : Type 0 where
  same : s.level t ≤ 4 → new t i ≡ old t i → Entry s s' old new v t i
  added :
      ((5 ≤ s.level t) ⊎ (item_present (old t) i ≡ false))
      → (item_present (new t) i ≡ true → OnPath s s' new v t i)
      → Entry s s' old new v t i

pub record Grows (v : ℕ) (s s' : Shape) (old new : Tables) : Type 0 where
  pub extends : Extends s s'
  pub entry : (t i : ℕ) → s'.level t ≤ 4 → Entry s s' old new v t i

pub Grows-refl : (v : ℕ) (s : Shape) (old : Tables) → Grows v s s old old
Grows-refl v s old = record {
  extends = record { level = λ t h. refl; number = λ t h. refl };
  entry = λ t i h. same h refl;
}

still_new : (s s' : Shape) → Extends s s' → (t : ℕ) → 5 ≤ s'.level t → 5 ≤ s.level t
still_new s s' e t h = elim (Bool-cases (ltb (s.level t) 5)) [
  | inl f ↦ absurd (omega (arith, e.level t (ground arith), ltb→lt (s.level t) 5 f))
  | inr f ↦ ground arith
]

module _ (v : ℕ) (s1 s2 s3 : Shape) (m1 m2 m3 : Tables) (f : Grows v s1 s2 m1 m2)
    (g : Grows v s2 s3 m2 m3) where
  Extends-trans : Extends s1 s3
  Extends-trans = record {
    level = λ t h. let e = f.extends.level t h in g.extends.level t (omega (arith, e, h)) ∙ e;
    number =
        λ t h. g.extends.number t (omega (arith, f.extends.level t h, h)) ∙ f.extends.number t h;
  }

  kept_path :
      (t i : ℕ) → s2.level t ≤ 4 → m3 t i ≡ m2 t i → OnPath s1 s2 m2 v t i → OnPath s1 s3 m3 v t i
  unfolding below
  kept_path t i low e path =
      let sames = same_item (m3 t) (m2 t) i e in
      record {
        place =
            ap (λ (n : ℕ). n * 512 + i) (g.extends.number t low)
            ∙ path.place
            ∙ ap (slot v) (sym (g.extends.level t low));
        kind = elim path.kind [
          | inl (leaf, last) ↦ inl (sames.1 ∙ leaf, g.extends.level t low ∙ last)
          | inr (noleaf, fresh) ↦ inr (
            sames.1 ∙ noleaf,
            omega (arith, ap (λ (x : ℕ). s1.level (paddr_to_physmap x)) sames.2, fresh),
          )
        ];
      }

  later_path : (t i : ℕ) → OnPath s2 s3 m3 v t i → OnPath s1 s3 m3 v t i
  later_path t i path = record {
    place = path.place;
    kind = elim path.kind [
      | inl last ↦ inl last
      | inr (noleaf, fresh) ↦ inr (noleaf, still_new s1 s2 f.extends (below m3 t i) fresh)
    ];
  }

  was_new :
      (t i : ℕ)
      → (5 ≤ s2.level t) ⊎ (item_present (m2 t) i ≡ false)
      → (5 ≤ s1.level t) ⊎ (item_present (m1 t) i ≡ false)
  was_new t i (inl h) = inl (still_new s1 s2 f.extends t h)
  was_new t i (inr gap) = elim (Bool-cases (ltb (s2.level t) 5)) [
    | inl e ↦ elim (f.entry t i (omega (arith, ltb→lt (s2.level t) 5 e))) [
      | same low e' ↦ let sames = same_item (m2 t) (m1 t) i e' in inr (sym sames.0 ∙ gap)
      | added was on ↦ was
    ]
    | inr e ↦ inl (still_new s1 s2 f.extends t (ground arith))
  ]

  Entry-trans : (t i : ℕ) → s3.level t ≤ 4 → Entry s2 s3 m2 m3 v t i → Entry s1 s3 m1 m3 v t i
  Entry-trans t i h (same low e) = elim (f.entry t i low) [
    | same low' e' ↦ same low' (e ∙ e')
    | added was on ↦ added was (λ present.
        let sames = same_item (m3 t) (m2 t) i e in kept_path t i low e (on (sym sames.0 ∙ present)))
  ]
  Entry-trans t i h (added was on) =
      added (was_new t i was) (λ present. later_path t i (on present))

  pub Grows-trans : Grows v s1 s3 m1 m3
  Grows-trans = record {
    extends = Extends-trans;
    entry = λ t i h. Entry-trans t i h (g.entry t i h);
  }

-- The new table, and the item that names it.
pub Grows-grown :
    (v : ℕ) (s : Shape) (tables : Tables) (table pa level : ℕ)
    → pa < usize_mod
    → pa % 4096 ≡ 0
    → s.level table ≡ level
    → level < 4
    → 5 ≤ s.level (paddr_to_physmap pa)
    → s.number table ≡ slot v level / 512
    → item_present (tables table) (vaddr_to_index v level) ≡ false
    → Grows v s
        (grown_shape s table (vaddr_to_index v level) pa)
        tables
        (grown table (vaddr_to_index v level) pa tables)
unfolding below
Grows-grown v s tables table pa level small aligned is low spare number gap = record {
  extends = record {
    level = λ t h. (other t (away t h)).0;
    number = λ t h. (other t (away t h)).1;
  };
  entry = λ t i h.
      elim (grown_cases table index pa tables t i (away table (omega (arith, is, low)))) [
        | inl (at, cleared) ↦ added (inl (omega (arith, ap s.level at, spare))) (λ present.
            let bad = absent (grown table index pa tables t) i cleared in absurd (ground arith))
        | inr (inl (at, place, e)) ↦
            rw (at, place)
              (added (inr gap)
                (λ present. path ((λ k. grown table index pa tables (sym at k) (sym place k)) ∙ e)))
        | inr (inr (ne, e)) ↦ same (omega (arith, (other t ne).0, h)) e
      ];
}
  where
    used : s.level table < 4
    used = omega (arith, is, low)

    index : ℕ
    index = vaddr_to_index v level

    away : (t : ℕ) → s.level t ≤ 4 → t ≢ paddr_to_physmap pa
    away = apart s tables table index pa small aligned used spare

    other :
        (x : ℕ)
        → x ≢ paddr_to_physmap pa
        → ((grown_shape s table index pa).level x ≡ s.level x)
          × ((grown_shape s table index pa).number x ≡ s.number x)
    other = grown_shape-other s tables table index pa small aligned used spare

    path :
        grown table index pa tables table index ≡ item pa 1
        → OnPath s (grown_shape s table index pa) (grown table index pa tables) v table index
    path e =
        let kept = other table (away table (omega (arith, is, low))) in
        let facts =
          new_item s tables table index pa small aligned used spare
            (grown table index pa tables table) e in
        record {
          place =
              ap (λ (n : ℕ). n * 512 + index) (kept.1 ∙ number)
              ∙ vaddr_to_index-slot v level
              ∙ ap (slot v) (sym (kept.0 ∙ is));
          kind = inr (facts.1, omega (arith, ap s.level facts.2, spare));
        }

-- The leaf of the last level.
pub Grows-leaf :
    (v prot : ℕ) (s : Shape) (tables : Tables) (table p : ℕ)
    → s.level table ≡ 4
    → s.number table ≡ slot v 4 / 512
    → item_present (tables table) (vaddr_to_index v 4) ≡ false
    → item_leaf
        (mk_item table (vaddr_to_index v 4) (pa_to_pfn p) prot tables table)
        (vaddr_to_index v 4)
      ≡ true
    → Grows v s s tables (mk_item table (vaddr_to_index v 4) (pa_to_pfn p) prot tables)
Grows-leaf v prot s tables table p last number gap leaf = record {
  extends = record { level = λ t h. refl; number = λ t h. refl };
  entry = λ t i h. elim (mk_item_cases table (vaddr_to_index v 4) p prot tables t i) [
    | inl (at, place, e) ↦ rw (at, place) (added (inr gap) (λ present. path))
    | inr e ↦ same h e
  ];
}
  where
    path :
        OnPath s s
          (mk_item table (vaddr_to_index v 4) (pa_to_pfn p) prot tables)
          v
          table
          (vaddr_to_index v 4)
    path = record {
      place =
          ap (λ (n : ℕ). n * 512 + vaddr_to_index v 4) number
          ∙ vaddr_to_index-slot v 4
          ∙ ap (slot v) (sym last);
      kind = inl (leaf, last);
    }
