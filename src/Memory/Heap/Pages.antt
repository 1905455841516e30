-- ===== src/Memory/Heap/Pages.antt =====
-- After `init_heap`, every page of the heap is mapped.
use nocciolo.Base.{
  ℕ, zero, suc, ◌+◌, ◌-◌, ◌*◌, ◌≤◌, ◌<◌, ◌≡◌, ◌≢◌, ◌⊎◌, inl, inr, refl, ap, ◌∙◌, true, ok, ◌>>=◌,
  Option, none, some, arith,
}
use nocciolo.Memory.X86.{X86, IsX86, IsPaging, pages_from}
use nocciolo.Memory.Frames.{BootInfoFrameAllocator, allocate_frame}
use nocciolo.Memory.Mapping.Loops.{HasLeft, allocate_frame-IsSupply}
use nocciolo.Alloc.FixedSize as FixedSize
use nocciolo.Memory.Heap.{
  heap_start, heap_size, Mapping, continue_with, map_frame, map_heap_pages, map_heap, initialized,
  init_heap,
}

-- A first page, and the pages after it.
shift_mapped :
    (f : ℕ → Option ℕ) (k page : ℕ)
    → (frame : ℕ) × (f page ≡ some frame)
    → ((j : ℕ) → j < k → (frame : ℕ) × (f (page + 4096 + j * 4096) ≡ some frame))
    → (j : ℕ) → j < suc k
    → (frame : ℕ) × (f (page + j * 4096) ≡ some frame)
shift_mapped f k page (frame, now) later zero lt = (frame, ap f (omega arith) ∙ now)
shift_mapped f k page now later (suc j) lt =
    let (frame, is) = later j (omega arith) in (frame, ap f (omega arith) ∙ is)

module _ (X : X86) (x : IsX86 X) (P : IsPaging X) where
  -- What a loop over `k` pages made of the tables.
  pub record HeapMapped (k n page : ℕ) (m : X.Mapper) (M : Mapping X) : Type 0 where
    pub done : M.done ≡ true
    pub left : HasLeft n M.frame_allocator
    pub inside :
        (j : ℕ) → j < k → (frame : ℕ) × (P.translate M.mapper (page + j * 4096) ≡ some frame)
    pub outside :
        (q : ℕ) → (q < page) ⊎ (page + k * 4096 ≤ q) → P.translate M.mapper q ≡ P.translate m q

  HeapMapped-suc :
      (k n page frame : ℕ) (m m1 : X.Mapper) (M : Mapping X)
      → P.translate m1 page ≡ some frame
      → ((q : ℕ) → q ≢ page → P.translate m1 q ≡ P.translate m q)
      → HeapMapped k n (page + 4096) m1 M
      → HeapMapped (suc k) n page m M
  HeapMapped-suc k n page frame m m1 M new old H = record {
    done = H.done;
    left = H.left;
    inside =
        shift_mapped (P.translate M.mapper) k page (frame, H.outside page (inl (omega arith)) ∙ new)
          H.inside;
    outside = λ q out.
        H.outside q (elim out [ inl low ↦ inl (omega arith) | inr high ↦ inr (omega arith) ])
        ∙ old q (λ e. elim out [ inl low ↦ omega arith | inr high ↦ omega arith ]);
  }

  map_heap_pages-maps :
      (k n page : ℕ) (m : X.Mapper) (a : BootInfoFrameAllocator)
      → HasLeft (k * 4 + n) a
      → ((j : ℕ) → j < k → P.translate m (page + j * 4096) ≡ none)
      → (M : Mapping X) × (map_heap_pages X (pages_from k page) m a ≡ ok M)
        × HeapMapped k n page m M
  unfolding map_heap_pages map_frame continue_with
  map_heap_pages-maps zero n page m a h fresh = (
    record { done = true; mapper = m; frame_allocator = a },
    refl,
    record {
      done = refl;
      left = record { valid = h.valid; room = omega (arith, h.room); left = omega (arith, h.left) };
      inside = λ j lt. absurd (omega arith);
      outside = λ q out. refl;
    },
  )
  map_heap_pages-maps (suc k) n page m a h fresh =
      let supply = allocate_frame-IsSupply X x in
      let enough : HasLeft (suc (3 + (k * 4 + n))) a = record {
        valid = h.valid;
        room = omega (arith, h.room);
        left = omega (arith, h.left);
      } in
      let (f, a1, yields, left1) = supply.yields (3 + (k * 4 + n)) a enough in
      let (m2, a2, call, left2, new, old) =
        P.map_to-new (allocate_frame X) HasLeft (k * 4 + n) m a1 page f supply left1
          (ap (P.translate m) (omega arith) ∙ fresh 0 (omega arith)) in
      let (M, run, H) = map_heap_pages-maps k n (page + 4096) m2 a2 left2 (λ j lt.
        old (page + 4096 + j * 4096) (λ e. omega (arith, e))
        ∙ ap (P.translate m) (omega arith)
        ∙ fresh (suc j) (omega arith)) in
      (M, rw (yields, call) run, HeapMapped-suc k n page f m m2 M new old H)

  pub map_heap-maps :
      (n : ℕ) (m : X.Mapper) (a : BootInfoFrameAllocator)
      → HasLeft (1024 + n) a
      → ((j : ℕ) → j < 256 → P.translate m (heap_start + j * 4096) ≡ none)
      → (M : Mapping X) × (map_heap X m a ≡ ok M) × HeapMapped 256 n heap_start m M
  unfolding map_heap
  map_heap-maps n m a h fresh =
      let above = x.virt_add-low heap_start heap_size (omega arith) in
      let first : X.page_containing heap_start ≡ heap_start = x.page_containing-low heap_start in
      let last = x.page_containing-low (heap_start + heap_size - 1) in
      let pages = x.range_inclusive-pages heap_start 255 refl in
      let (M, run, H) = map_heap_pages-maps 256 n heap_start m a h fresh in
      (M, rw (above, first, last, pages) run, H)

  -- With 1024 frames left and the pages of the heap free, setting up the heap returns: all 256 pages
  -- of the heap are mapped, and the global allocator has its range.
  pub init_heap-maps :
      (F : FixedSize.Fallback) (heap : FixedSize.FixedSizeBlockAllocator F) (n : ℕ) (m : X.Mapper)
      (a : BootInfoFrameAllocator)
      → HasLeft (1024 + n) a
      → ((j : ℕ) → j < 256 → P.translate m (heap_start + j * 4096) ≡ none)
      → (M : Mapping X) × (init_heap X F heap m a
          ≡ ok (FixedSize.init F heap heap_start heap_size, M))
        × HeapMapped 256 n heap_start m M
  unfolding init_heap initialized
  init_heap-maps F heap n m a h fresh =
      let (M, run, H) = map_heap-maps n m a h fresh in
      (
        M,
        ap (λ r. r >>= λ mapping. initialized X F heap mapping.done mapping) run
            ∙ ap (λ d. initialized X F heap d M) H.done,
        H,
      )
