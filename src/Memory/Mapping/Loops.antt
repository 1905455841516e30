-- ===== src/Memory/Mapping/Loops.antt =====
-- The loops of handler.rs: every page of the range is mapped to its frame, and no other page changes.
use nocciolo.Base.{
  ℕ, zero, suc, ◌+◌, ◌*◌, ◌%◌, ◌^◌, ◌≤◌, ◌<◌, ◌≡◌, ◌≢◌, ◌⊎◌, inl, inr, refl, ap, subst, ◌∙◌, ok,
  Option, none, some, arith, length, true, ltb, List, [], ◌∷◌, drop,
}
use nocciolo.Memory.X86.{X86, IsX86, IsSupply, IsPaging}
use nocciolo.Memory.Frames.{BootInfoFrameAllocator, allocate_frame, frame_addresses}
use nocciolo.Memory.Frames.Runs.{IsMemoryMap, remaining, first, allocate_frame-first}
use nocciolo.Memory.Mapping.{Paging, map_page, map_pages}

-- At least `n` usable frames are to come.
pub record HasLeft (n : ℕ) (a : BootInfoFrameAllocator) : Type 0 where
  pub valid : IsMemoryMap a.memory_regions
  pub room : a.next + n < 2 ^ 64
  pub left : n ≤ length (remaining a)

first-drop :
    (n i j : ℕ) (xs : List ℕ)
    → j ≡ suc i
    → suc n ≤ length (drop i xs)
    → ((f : ℕ) × (first (drop i xs) ≡ some f)) × (n ≤ length (drop j xs))
first-drop n zero j [] e h = absurd (omega arith)
first-drop n zero j (x ∷ xs) e h = ((x, refl), rw e (omega arith))
first-drop n (suc i) j [] e h = absurd (omega arith)
first-drop n (suc i) j (x ∷ xs) e h =
    let back = first-drop n i (suc i) xs refl h in (back.0, rw e back.1)

-- A first page, and the pages after it.
shift_inside :
    (f : ℕ → Option ℕ) (k ptr virt : ℕ)
    → f virt ≡ some ptr
    → ((j : ℕ) → j < k → f (virt + 4096 + j * 4096) ≡ some (ptr + 4096 + j * 4096))
    → (j : ℕ) → j < suc k
    → f (virt + j * 4096) ≡ some (ptr + j * 4096)
shift_inside f k ptr virt now later zero lt = ap f (omega arith) ∙ now ∙ ap some (omega arith)
shift_inside f k ptr virt now later (suc j) lt =
    ap f (omega arith) ∙ later j (omega arith) ∙ ap some (omega arith)

module _ (X : X86) (x : IsX86 X) where
  pub allocate_frame-IsSupply : IsSupply (allocate_frame X) HasLeft
  allocate_frame-IsSupply = record {
    fewer = λ n a h. record {
      valid = h.valid;
      room = omega (arith, h.room);
      left = omega (arith, h.left);
    };
    yields = λ n a h.
        let ((f, is), left) =
          first-drop n a.next (a.next + 1) (frame_addresses a.memory_regions) (omega arith)
            h.left in
        let call = allocate_frame-first X x a h.valid (omega (arith, h.room)) in
        (
          f,
          record a { next = a.next + 1 },
          call ∙ ap (λ o. ok (o, record a { next = a.next + 1 })) is,
          record { valid = h.valid; room = omega (arith, h.room); left = left },
        );
  }

  module _ (P : IsPaging X) where
    -- What a loop over `k` pages made of the tables.
    pub record Mapped (k n ptr virt : ℕ) (m : X.Mapper) (st st' : Paging X) : Type 0 where
      pub mapper : X.Mapper
      pub allocator : BootInfoFrameAllocator
      pub mapper_is : st'.mapper ≡ some mapper
      pub allocator_is : st'.frame_allocator ≡ some allocator
      pub next_page : st'.next_page ≡ st.next_page
      pub left : HasLeft n allocator
      pub inside : (j : ℕ) → j < k → P.translate mapper (virt + j * 4096) ≡ some (ptr + j * 4096)
      pub outside :
          (q : ℕ) → (q < virt) ⊎ (virt + k * 4096 ≤ q) → P.translate mapper q ≡ P.translate m q

    -- One round.
    map_page-Mapped :
        (k n ptr virt : ℕ) (st : Paging X) (m : X.Mapper) (a : BootInfoFrameAllocator)
        → st.mapper ≡ some m
        → st.frame_allocator ≡ some a
        → HasLeft (suc k * 3 + n) a
        → ptr % 4096 ≡ 0
        → virt % 4096 ≡ 0
        → P.translate m virt ≡ none
        → (st' : Paging X) × (m' : X.Mapper) × (a' : BootInfoFrameAllocator) × (map_page X ptr virt
              st
            ≡ ok st')
          × (st'.mapper ≡ some m')
          × (st'.frame_allocator ≡ some a')
          × (st'.next_page ≡ st.next_page)
          × HasLeft (k * 3 + n) a'
          × (P.translate m' virt ≡ some ptr)
          × ((q : ℕ) → q ≢ virt → P.translate m' q ≡ P.translate m q)
    unfolding map_page
    map_page-Mapped k n ptr virt st m a em ea h pa va fresh =
        let enough : HasLeft (3 + (k * 3 + n)) a = record {
          valid = h.valid;
          room = omega (arith, h.room);
          left = omega (arith, h.left);
        } in
        let page = x.page_from_start-aligned virt va in
        let frame : X.frame_containing ptr ≡ ptr = omega (arith, x.frame_containing-low ptr, pa) in
        let (m', a', call, left, new, old) =
          P.map_to-new (allocate_frame X) HasLeft (k * 3 + n) m a virt ptr allocate_frame-IsSupply
            enough fresh in
        (
          record st { mapper = some m'; frame_allocator = some a' },
          m',
          a',
          rw (page, em, ea, frame, call) refl,
          refl,
          refl,
          refl,
          left,
          new,
          old,
        )

    -- A round, and the rounds after it.
    Mapped-suc :
        (k n ptr virt : ℕ) (m m1 : X.Mapper) (st st1 st' : Paging X)
        → st1.next_page ≡ st.next_page
        → P.translate m1 virt ≡ some ptr
        → ((q : ℕ) → q ≢ virt → P.translate m1 q ≡ P.translate m q)
        → Mapped k n (ptr + 4096) (virt + 4096) m1 st1 st'
        → Mapped (suc k) n ptr virt m st st'
    Mapped-suc k n ptr virt m m1 st st1 st' same1 new1 old1 M = record {
      mapper = M.mapper;
      allocator = M.allocator;
      mapper_is = M.mapper_is;
      allocator_is = M.allocator_is;
      next_page = M.next_page ∙ same1;
      left = M.left;
      inside =
          shift_inside (P.translate M.mapper) k ptr virt (M.outside virt (inl (omega arith)) ∙ new1)
            M.inside;
      outside = λ q out.
          M.outside q (elim out [ inl low ↦ inl (omega arith) | inr high ↦ inr (omega arith) ])
          ∙ old1 q (λ e. elim out [ inl low ↦ omega arith | inr high ↦ omega arith ]);
    }

    pub map_pages-Mapped :
        (k n rounds ptr virt : ℕ) (st : Paging X) (m : X.Mapper) (a : BootInfoFrameAllocator)
        → k < rounds
        → st.mapper ≡ some m
        → st.frame_allocator ≡ some a
        → HasLeft (k * 3 + n) a
        → ptr % 4096 ≡ 0
        → virt % 4096 ≡ 0
        → ptr + k * 4096 < 2 ^ 52
        → virt + k * 4096 < 2 ^ 47
        → ((j : ℕ) → j < k → P.translate m (virt + j * 4096) ≡ none)
        → (st' : Paging X) × (map_pages X rounds ptr (ptr + k * 4096) virt st ≡ ok st')
          × Mapped k n ptr virt m st st'
    unfolding map_pages
    map_pages-Mapped k n zero ptr virt st m a fuel em ea h pa va pl vl fresh = absurd (omega arith)
    map_pages-Mapped zero n (suc rounds) ptr virt st m a fuel em ea h pa va pl vl fresh = (
      st,
      ground arith,
      record {
        mapper = m;
        allocator = a;
        mapper_is = em;
        allocator_is = ea;
        next_page = refl;
        left = record {
          valid = h.valid;
          room = omega (arith, h.room);
          left = omega (arith, h.left);
        };
        inside = λ j lt. absurd (omega arith);
        outside = λ q out. refl;
      },
    )
    map_pages-Mapped (suc k) n (suc rounds) ptr virt st m a fuel em ea h pa va pl vl fresh =
        let (st1, m1, a1, one, em1, ea1, same1, left1, new1, old1) =
          map_page-Mapped k n ptr virt st m a em ea h pa va
            (ap (P.translate m) (omega arith) ∙ fresh 0 (omega arith)) in
        let (st', more, M) =
          map_pages-Mapped k n rounds (ptr + 4096) (virt + 4096) st1 m1 a1 (omega arith) em1 ea1
            left1 (omega arith) (omega arith) (omega arith) (omega arith)
            (λ j lt.
              old1 (virt + 4096 + j * 4096) (λ e. omega (arith, e))
              ∙ subst (λ q. P.translate m q ≡ none) (omega arith) (fresh (suc j) (omega arith))) in
        let more' : map_pages X rounds (ptr + 4096) (ptr + suc k * 4096) (virt + 4096) st1
            ≡ ok st' =
          ap (λ e. map_pages X rounds (ptr + 4096) e (virt + 4096) st1) (omega arith) ∙ more in
        let below : ltb ptr (ptr + suc k * 4096) ≡ true = ground arith in
        let phys = x.phys_add-low ptr 4096 (omega arith) in
        let virts = x.virt_add-low virt 4096 (omega arith) in
        (
          st',
          rw (below, one, phys, virts) more',
          Mapped-suc k n ptr virt m m1 st st1 st' same1 new1 old1 M,
        )
