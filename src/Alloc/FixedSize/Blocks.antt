-- ===== src/Alloc/FixedSize/Blocks.antt =====
-- The calls of fixed_size_block.rs: which blocks the lists hold, and what each call hands out.
use nocciolo.Base.{
  ℕ, zero, suc, ◌+◌, ◌%◌, ◌^◌, ◌≤◌, ◌≡◌, ◌≢◌, ◌⊎◌, inl, inr, refl, ok, >>=-eq-ok, some, List, [],
  ◌∷◌, get_elem?, set, arith, All, Option-cases, set-set_back, get_elem?-set_self, get_elem?-lt,
  get_elem?-holds, unwrap,
}
use nocciolo.Alloc.Layouts.{Layout, IsLayout, null, from_size_align}
use nocciolo.Alloc.FixedSize.{
  Fallback, FixedSizeBlockAllocator, block_sizes, list_index, fallback_alloc, alloc_class, alloc,
  dealloc_class, dealloc,
}
use nocciolo.Alloc.FixedSize.Classes.{list_index-Positioned, class_suits, block_sizes-pow}

-- Each list holds non-null addresses that are multiples of its block size.
abbrev pub Stocked : List ℕ → List (List ℕ) → Type 0
Stocked [] [] = Unit
Stocked [] (xs ∷ xss) = ⊥
Stocked (b ∷ bs) [] = ⊥
Stocked (b ∷ bs) (xs ∷ xss) = All (λ p. (p % b ≡ 0) × (p ≢ null)) xs × Stocked bs xss

Stocked-get :
    (bs : List ℕ) (xss : List (List ℕ)) (i : ℕ) {b : ℕ}
    → Stocked bs xss
    → get_elem? bs i ≡ some b
    → (xs : List ℕ) × (get_elem? xss i ≡ some xs) × All (λ p. (p % b ≡ 0) × (p ≢ null)) xs
Stocked-get [] xss i s h = absurd (cc)
Stocked-get (b ∷ bs) [] i s h = absurd s
Stocked-get (c ∷ bs) (xs ∷ xss) zero {b} s h =
    let e : c ≡ b = ground arith in (xs, refl, rw e at s.0)
Stocked-get (c ∷ bs) (xs ∷ xss) (suc i) s h = Stocked-get bs xss i s.1 h

Stocked-set :
    (bs : List ℕ) (xss : List (List ℕ)) (i : ℕ) {b : ℕ} (ys : List ℕ)
    → Stocked bs xss
    → get_elem? bs i ≡ some b
    → All (λ p. (p % b ≡ 0) × (p ≢ null)) ys
    → Stocked bs (set xss i ys)
Stocked-set [] xss i ys s h a = absurd (cc)
Stocked-set (b ∷ bs) [] i ys s h a = absurd s
Stocked-set (c ∷ bs) (xs ∷ xss) zero {b} ys s h a = let e : b ≡ c = ground arith in (rw e at a, s.1)
Stocked-set (c ∷ bs) (xs ∷ xss) (suc i) ys s h a = (s.0, Stocked-set bs xss i ys s.1 h a)

-- A block size is a valid size and alignment.
class_layout :
    (i : ℕ) {b : ℕ}
    → get_elem? block_sizes i ≡ some b
    → from_size_align b b ≡ some (record { size = b; align = b })
unfolding from_size_align
class_layout i h =
    get_elem?-holds (λ b. from_size_align b b ≡ some (record { size = b; align = b })) block_sizes i
      h (refl, (refl, (refl, (refl, (refl, (refl, (refl, (refl, (refl, tt)))))))))

-- What the crate promises of its heap: a block that it hands out is aligned and not null.
abbrev pub IsAligning : Fallback → Type 0
IsAligning F =
    (h : F.Heap) (l : Layout) (p : ℕ)
    → IsLayout l
    → (F.allocate_first_fit h l).0 ≡ some p
    → (p % l.align ≡ 0) × (p ≢ null)

module _ (F : Fallback) where
  alloc_class-dealloc_class :
      (a : FixedSizeBlockAllocator F) (p i : ℕ) {a' : FixedSizeBlockAllocator F}
      → dealloc_class F a p i ≡ ok a'
      → alloc_class F a' i ≡ ok (p, a)
  unfolding alloc_class dealloc_class
  alloc_class-dealloc_class a p i {a'} h =
      let (next, e, h2) = >>=-eq-ok (unwrap (get_elem? a.list_heads i)) _ h in
      let (b, f, h3) = >>=-eq-ok (unwrap (get_elem? block_sizes i)) _ h2 in
      let got : get_elem? a.list_heads i ≡ some next = ground arith in
      ground (
        arith,
        get_elem?-lt a.list_heads i got,
        get_elem?-set_self a.list_heads i (p ∷ next),
        set-set_back a.list_heads i (p ∷ next) next,
      )

  -- A block that is given back is the next one that its class hands out, and the allocator is then
  -- as it was before.
  pub alloc-dealloc :
      (a : FixedSizeBlockAllocator F) (p : ℕ) (l m : Layout) (i : ℕ)
      {a' : FixedSizeBlockAllocator F}
      → list_index l ≡ some i
      → list_index m ≡ some i
      → dealloc F a p l ≡ ok a'
      → alloc F a' m ≡ ok (p, a)
  unfolding alloc dealloc
  alloc-dealloc a p l m i hl hm h =
      rw (hm, alloc) (alloc_class-dealloc_class a p i (rw (hl, dealloc) at h))

  -- What a call hands out: null, or a block that suits the layout; in either case the lists stay
  -- well stocked.
  abbrev pub Served : Layout → ℕ × FixedSizeBlockAllocator F → Type 0
  Served l r =
      Stocked block_sizes r.1.list_heads × ((r.0 ≡ null) ⊎ ((r.0 % l.align ≡ 0) × (r.0 ≢ null)))

  module _ (aligning : IsAligning F) where
    fallback_alloc-Served :
        (a : FixedSizeBlockAllocator F) (l : Layout)
        → Stocked block_sizes a.list_heads
        → IsLayout l
        → Served l (fallback_alloc F a l)
    unfolding fallback_alloc
    fallback_alloc-Served a l s v =
        elim (Option-cases (F.allocate_first_fit a.fallback_allocator l).0) [
          | inl e ↦ rw (e, fallback_alloc) (s, inl refl)
          | inr (p, e) ↦ rw (e, fallback_alloc) (s, inr (aligning a.fallback_allocator l p v e))
        ]

    class-IsLayout :
        (i : ℕ) {b : ℕ}
        → get_elem? block_sizes i ≡ some b
        → IsLayout (record { size = b; align = b })
    class-IsLayout i {b} e = record {
      log = i + 3;
      power = block_sizes-pow i e;
      fits = get_elem?-holds (λ c. c + c ≤ 2 ^ 63) block_sizes i e (omega arith);
    }

    class-Served :
        (a : FixedSizeBlockAllocator F) (l : Layout) (i b : ℕ) (head : List ℕ)
        → Stocked block_sizes a.list_heads
        → IsLayout l
        → list_index l ≡ some i
        → get_elem? block_sizes i ≡ some b
        → get_elem? a.list_heads i ≡ some head
        → All (λ p. (p % b ≡ 0) × (p ≢ null)) head
        → (r : ℕ × FixedSizeBlockAllocator F) × (alloc_class F a i ≡ ok r) × Served l r
    unfolding alloc_class
    class-Served a l i b [] s v h e got all =
        let r = fallback_alloc-Served a (record { size = b; align = b }) s (class-IsLayout i e) in
        (
          fallback_alloc F a (record { size = b; align = b }),
          rw (got, e, class_layout i e, alloc_class),
          (
            r.0,
            elim r.1 [
              | inl none_left ↦ inl none_left
              | inr suits ↦ inr ((class_suits l i b _ v h e suits.0).1, suits.1)
            ],
          ),
        )
    class-Served a l i b (p ∷ next) s v h e got all = (
      (p, record a { list_heads = set a.list_heads i next }),
      rw (got, alloc_class),
      (
        Stocked-set block_sizes a.list_heads i next s e all.1,
        inr ((class_suits l i b p v h e all.0.0).1, all.0.1),
      ),
    )

    -- With well-stocked lists, a fallback heap that aligns its blocks and a valid layout, alloc
    -- returns; the pointer is null, or not null and aligned for the layout; and the lists are well
    -- stocked again.
    pub alloc-Served :
        (a : FixedSizeBlockAllocator F) (l : Layout)
        → Stocked block_sizes a.list_heads
        → IsLayout l
        → (r : ℕ × FixedSizeBlockAllocator F) × (alloc F a l ≡ ok r) × Served l r
    unfolding alloc
    alloc-Served a l s v = elim (Option-cases (list_index l)) [
      | inl h ↦ (fallback_alloc F a l, rw (h, alloc), fallback_alloc-Served a l s v)
      | inr (i, h) ↦
          let place = rw h at (list_index-Positioned l) in
          let (b, e, big) = place.0 in
          let (head, got, all) = Stocked-get block_sizes a.list_heads i s e in
          let (r, k, served) = class-Served a l i b head s v h e got all in
          (r, rw (h, alloc) k, served)
    ]

  -- A block that is not null and, where its layout has a class, is a multiple of the block size of
  -- that class is taken back, and the lists stay well stocked.
  pub dealloc-Stocked :
      (a : FixedSizeBlockAllocator F) (p : ℕ) (l : Layout)
      → Stocked block_sizes a.list_heads
      → p ≢ null
      → ((i b : ℕ) → list_index l ≡ some i → get_elem? block_sizes i ≡ some b → p % b ≡ 0)
      → (a' : FixedSizeBlockAllocator F) × (dealloc F a p l ≡ ok a')
        × Stocked block_sizes a'.list_heads
  unfolding dealloc dealloc_class
  dealloc-Stocked a p l s placed aligned = elim (Option-cases (list_index l)) [
    | inl h ↦ (
      record a { fallback_allocator = F.deallocate a.fallback_allocator p l },
      rw (h, dealloc) (ground arith),
      s,
    )
    | inr (i, h) ↦
        let place = rw h at (list_index-Positioned l) in
        let (b, e, big) = place.0 in
        let (head, got, all) = Stocked-get block_sizes a.list_heads i s e in
        let room = get_elem?-holds (λ c. 8 ≤ c) block_sizes i e (omega arith) in
        (
          record a { list_heads = set a.list_heads i (p ∷ head) },
          rw (h, dealloc) (ground (arith, got, e, room)),
          Stocked-set block_sizes a.list_heads i (p ∷ head) s e ((aligned i b h e, placed), all),
        )
  ]
