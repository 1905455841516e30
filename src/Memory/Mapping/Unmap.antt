-- ===== src/Memory/Mapping/Unmap.antt =====
-- A region that is mapped and unmapped again: the page tables are as they were.
use nocciolo.Base.{
  ℕ, zero, suc, ◌+◌, ◌-◌, ◌*◌, ◌/◌, ◌%◌, ◌^◌, ◌≤◌, ◌<◌, ◌≡◌, ◌≢◌, ◌⊎◌, inl, inr, refl, ap, sym, ◌∙◌,
  ok, ◌>>=◌, Option, none, some, arith, lt_or_le,
}
use nocciolo.Memory.X86.{X86, IsX86, IsPaging}
use nocciolo.Memory.Mapping.{
  Paging, PhysicalMapping, map_physical_region, unmap_pages, unmap_physical_region,
}
use nocciolo.Memory.Mapping.Region.{page_count, IsReady, Maps, map_physical_region-Maps}

-- A first page, and the pages after it.
shift_gone :
    (f : ℕ → Option ℕ) (k page : ℕ)
    → f page ≡ none
    → ((j : ℕ) → j < k → f (page + 4096 + j * 4096) ≡ none)
    → (j : ℕ) → j < suc k
    → f (page + j * 4096) ≡ none
shift_gone f k page now later zero lt = ap f (omega arith) ∙ now
shift_gone f k page now later (suc j) lt = ap f (omega arith) ∙ later j (omega arith)

-- A page is in a range, or before it, or after it.
page-cases :
    (q page k : ℕ)
    → q % 4096 ≡ 0
    → page % 4096 ≡ 0
    → ((j : ℕ) × (j < k) × (q ≡ page + j * 4096)) ⊎ ((q < page) ⊎ (page + k * 4096 ≤ q))
page-cases q page k a b = elim (lt_or_le q page) [
  | inl before ↦ inr (inl (omega arith))
  | inr from ↦ elim (lt_or_le q (page + k * 4096)) [
    | inl lt ↦ inl ((q - page) / 4096, omega arith, omega arith)
    | inr after ↦ inr (inr (omega arith))
  ]
]

module _ (X : X86) (x : IsX86 X) (P : IsPaging X) where
  -- What a loop over `k` pages took from the tables.
  pub record Unmapped (k page : ℕ) (m : X.Mapper) (st st' : Paging X) : Type 0 where
    pub mapper : X.Mapper
    pub mapper_is : st'.mapper ≡ some mapper
    pub allocator_is : st'.frame_allocator ≡ st.frame_allocator
    pub next_page : st'.next_page ≡ st.next_page
    pub inside : (j : ℕ) → j < k → P.translate mapper (page + j * 4096) ≡ none
    pub outside :
        (q : ℕ) → (q < page) ⊎ (page + k * 4096 ≤ q) → P.translate mapper q ≡ P.translate m q

  -- A first page, and the pages after it.
  Unmapped-suc :
      (k page : ℕ) (m m1 : X.Mapper) (st st1 st' : Paging X)
      → st1.frame_allocator ≡ st.frame_allocator
      → st1.next_page ≡ st.next_page
      → P.translate m1 page ≡ none
      → ((q : ℕ) → q ≢ page → P.translate m1 q ≡ P.translate m q)
      → Unmapped k (page + 4096) m1 st1 st'
      → Unmapped (suc k) page m st st'
  Unmapped-suc k page m m1 st st1 st' allocator same gone old M = record {
    mapper = M.mapper;
    mapper_is = M.mapper_is;
    allocator_is = M.allocator_is ∙ allocator;
    next_page = M.next_page ∙ same;
    inside =
        shift_gone (P.translate M.mapper) k page (M.outside page (inl (omega arith)) ∙ gone)
          M.inside;
    outside = λ q out.
        M.outside q (elim out [ inl low ↦ inl (omega arith) | inr high ↦ inr (omega arith) ])
        ∙ old q (λ e. elim out [ inl low ↦ omega arith | inr high ↦ omega arith ]);
  }

  pub unmap_pages-Unmapped :
      (k page offset : ℕ) (st : Paging X) (m : X.Mapper)
      → st.mapper ≡ some m
      → page % 4096 ≡ 0
      → offset < 4096
      → page + k * 4096 + 4096 < 2 ^ 47
      → ((j : ℕ) → j < k → (f : ℕ) × (P.translate m (page + j * 4096) ≡ some f))
      → (st' : Paging X) × (unmap_pages X k (page + offset) st ≡ ok st') × Unmapped k page m st st'
  unfolding unmap_pages
  unmap_pages-Unmapped zero page offset st m em pa po room there = (
    st,
    refl,
    record {
      mapper = m;
      mapper_is = em;
      allocator_is = refl;
      next_page = refl;
      inside = λ j lt. absurd (omega arith);
      outside = λ q out. refl;
    },
  )
  unmap_pages-Unmapped (suc k) page offset st m em pa po room there =
      let (f, is) = there 0 (omega arith) in
      let (m1, call, gone, old) = P.unmap-mapped m page f (ap (P.translate m) (omega arith) ∙ is) in
      let st1 = record st { mapper = some m1 } in
      let (st', more, M) =
        unmap_pages-Unmapped k (page + 4096) offset st1 m1 refl (omega arith) po (omega arith)
          (λ j lt.
            let (g, still) = there (suc j) (omega arith) in
            (
              g,
              old (page + 4096 + j * 4096) (λ e. omega (arith, e))
                  ∙ ap (P.translate m) (omega arith)
                  ∙ still,
            )) in
      let holds : X.page_containing (page + offset) ≡ page =
        omega (arith, x.page_containing-low (page + offset)) in
      let next : X.virt_add (page + offset) 4096 ≡ ok (page + 4096 + offset) =
        x.virt_add-low (page + offset) 4096 (omega arith) ∙ ap ok (omega arith) in
      (
        st',
        rw (em, holds, call, next) more,
        Unmapped-suc k page m m1 st st1 st' refl refl gone old M,
      )

  -- A region is unmapped after other work that left every page translating as it did, and only moved
  -- the page pointer on: the tables are as they were before the region.
  pub unmap_later :
      (limit address size n k : ℕ) (st st' st2 : Paging X) (m m2 : X.Mapper)
      (region : PhysicalMapping) (start : ℕ) (M : Maps X x P limit address size n st m region st')
      → IsReady X x P limit start st m
      → st.next_page + page_count address size * 4096 ≤ limit
      → limit + 4096 < 2 ^ 47
      → IsReady X x P limit k st2 m2
      → st'.next_page ≤ st2.next_page
      → ((q : ℕ) → q % 4096 ≡ 0 → P.translate m2 q ≡ P.translate M.mapper q)
      → (st3 : Paging X) × (m3 : X.Mapper) × (unmap_physical_region X region st2 ≡ ok st3)
        × IsReady X x P limit k st3 m3
        × (st3.next_page ≡ st2.next_page)
        × ((q : ℕ) → q % 4096 ≡ 0 → P.translate m3 q ≡ P.translate m q)
  unfolding unmap_physical_region
  unmap_later limit address size n k st st' st2 m m2 region start M r room bound r2 on same =
      let pages = page_count address size in
      let (st3, unmapped, U) =
        unmap_pages-Unmapped pages st.next_page (address % 4096) st2 m2 r2.mapper_is r.aligned
          (omega arith) (omega arith)
          (λ j lt. (_, same (st.next_page + j * 4096) (omega (arith, r.aligned)) ∙ M.pages j lt)) in
      let count : region.mapped_length / 4096 ≡ pages = omega (arith, M.mapped_length) in
      let canonical : X.virt_new region.virtual_start ≡ ok region.virtual_start =
        x.virt_new-low region.virtual_start (omega (arith, M.virtual_start)) in
      (
        st3,
        U.mapper,
        ap (λ o. o >>= λ v. unmap_pages X (region.mapped_length / 4096) v st2) canonical
            ∙ ap (λ c. unmap_pages X c region.virtual_start st2) count
            ∙ ap (λ v. unmap_pages X pages v st2) M.virtual_start
            ∙ unmapped,
        record {
          allocator = r2.allocator;
          mapper_is = U.mapper_is;
          allocator_is = U.allocator_is ∙ r2.allocator_is;
          left = r2.left;
          positive = omega (arith, U.next_page, r2.positive);
          aligned = omega (arith, U.next_page, r2.aligned);
          fresh = λ q after low.
              U.outside q (inr (omega (arith, U.next_page, M.next_page, on, after)))
              ∙ r2.fresh q (omega (arith, U.next_page)) low;
        },
        U.next_page,
        λ q page. elim (page-cases q st.next_page pages page r.aligned) [
          | inl (j, lt, e) ↦
              ap (P.translate U.mapper) e
              ∙ U.inside j lt
              ∙ sym (r.fresh q (omega arith) (omega arith))
          | inr out ↦ U.outside q out ∙ same q page ∙ M.others q out
        ],
      )

  -- With the statics set, frames left and the pages up to a limit free, a region of physical memory
  -- that is mapped and unmapped again leaves every page translating as before, and the statics
  -- ready for more.
  pub map_unmap :
      (limit address size n : ℕ) (st : Paging X) (m : X.Mapper)
      → 0 < size
      → address + size + 8192 ≤ 2 ^ 52
      → st.next_page + page_count address size * 4096 ≤ limit
      → limit + 4096 < 2 ^ 47
      → IsReady X x P limit (page_count address size * 3 + n) st m
      → (region : PhysicalMapping) × (st' : Paging X) × (st'' : Paging X) × (m'' : X.Mapper)
        × (map_physical_region X address size st ≡ ok (region, st'))
        × Maps X x P limit address size n st m region st'
        × (unmap_physical_region X region st' ≡ ok st'')
        × IsReady X x P limit n st'' m''
        × (st''.next_page ≡ st.next_page + page_count address size * 4096)
        × ((q : ℕ) → q % 4096 ≡ 0 → P.translate m'' q ≡ P.translate m q)
  map_unmap limit address size n st m some_bytes low room bound r =
      let (region, st', mapped, M) =
        map_physical_region-Maps X x P limit address size n st m some_bytes low room (omega arith)
          r in
      let (st'', m'', unmapped, ready, next, pages) =
        unmap_later limit address size n n st st' st' m M.mapper region
          (page_count address size * 3 + n) M r room bound M.ready (omega arith) (λ q page. refl) in
      (region, st', st'', m'', mapped, M, unmapped, ready, next ∙ M.next_page, pages)
