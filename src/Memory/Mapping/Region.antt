-- ===== src/Memory/Mapping/Region.antt =====
-- A region of physical memory, mapped and unmapped by handler.rs.
use nocciolo.Base.{
  ℕ, ◌+◌, ◌-◌, ◌*◌, ◌/◌, ◌%◌, ◌^◌, ◌≤◌, ◌<◌, ◌≡◌, ◌⊎◌, inr, refl, ap, ◌∙◌, ok, Option, none, some,
  arith, false, ◌==◌, mul_in, add_in, sub_in,
}
use nocciolo.Memory.X86.{X86, IsX86, IsPaging}
use nocciolo.Memory.Frames.{BootInfoFrameAllocator}
use nocciolo.Memory.Mapping.{
  Paging, PhysicalMapping, allocate_n, map_pages, do_map_region, map_physical_region,
}
use nocciolo.Memory.Mapping.Loops.{HasLeft, Mapped, map_pages-Mapped}

-- The pages that hold the `size` bytes from `address` on.
abbrev pub page_count : ℕ → ℕ → ℕ
page_count address size =
    ((address + size + 4095) / 4096 * 4096 - (address - address % 4096)) / 4096

page_count-bounds :
    (address size : ℕ)
    → 0 < size
    → (0 < page_count address size)
      × ((address + size + 4095) / 4096 * 4096
          ≡ address - address % 4096 + page_count address size * 4096)
page_count-bounds address size some_bytes = (omega arith, omega arith)

-- The byte at an offset of a frame.
abbrev pub within : Option ℕ → ℕ → Option ℕ
within (some frame) offset = some (frame + offset)
within none offset = none

module _ (X : X86) (x : IsX86 X) (P : IsPaging X) where
  -- Both statics are set, at least `n` frames are left, and no page from the page pointer on and
  -- below the limit is mapped.
  pub record IsReady (limit n : ℕ) (st : Paging X) (m : X.Mapper) : Type 0 where
    pub allocator : BootInfoFrameAllocator
    pub mapper_is : st.mapper ≡ some m
    pub allocator_is : st.frame_allocator ≡ some allocator
    pub left : HasLeft n allocator
    pub positive : 0 < st.next_page
    pub aligned : st.next_page % 4096 ≡ 0
    pub fresh : (q : ℕ) → st.next_page ≤ q → q < limit → P.translate m q ≡ none

  -- The address that a virtual address translates to.
  abbrev pub address_of : X.Mapper → ℕ → Option ℕ
  address_of m v = within (P.translate m (v - v % 4096)) (v % 4096)

  -- Every byte of the region is at its physical address, and the other pages are as they were.
  pub record Maps (limit address size n : ℕ) (st : Paging X) (m : X.Mapper)
      (region : PhysicalMapping) (st' : Paging X) : Type 0 where
    pub mapper : X.Mapper
    pub ready : IsReady limit n st' mapper
    pub physical_start : region.physical_start ≡ address
    pub region_length : region.region_length ≡ size
    pub mapped_length : region.mapped_length ≡ page_count address size * 4096
    pub virtual_start : region.virtual_start ≡ st.next_page + address % 4096
    pub next_page : st'.next_page ≡ st.next_page + page_count address size * 4096
    pub bytes :
        (j : ℕ) → j < size → address_of mapper (region.virtual_start + j) ≡ some (address + j)
    pub pages :
        (j : ℕ)
        → j < page_count address size
        → P.translate mapper (st.next_page + j * 4096) ≡ some (address - address % 4096 + j * 4096)
    pub others :
        (q : ℕ)
        → (q < st.next_page) ⊎ (st.next_page + page_count address size * 4096 ≤ q)
        → P.translate mapper q ≡ P.translate m q

  pub address_of-some :
      (m : X.Mapper) (v page frame : ℕ)
      → P.translate m page ≡ some frame
      → v - v % 4096 ≡ page
      → address_of m v ≡ some (frame + v % 4096)
  address_of-some m v page frame is e =
      ap (λ q. within (P.translate m q) (v % 4096)) e ∙ ap (λ f. within f (v % 4096)) is

  -- What the loop made of the tables, byte by byte.
  Mapped-Maps :
      (limit address size n : ℕ) (st st' : Paging X) (m : X.Mapper)
      → 0 < size
      → IsReady limit (page_count address size * 3 + n) st m
      → Mapped X x P
          (page_count address size)
          n
          (address - address % 4096)
          st.next_page
          m
          (record st { next_page = st.next_page + page_count address size * 4096 })
          st'
      → Maps limit address size n st m
          (record {
            physical_start = address;
            virtual_start = st.next_page + address % 4096;
            region_length = size;
            mapped_length = page_count address size * 4096;
          })
          st'
  Mapped-Maps limit address size n st st' m some_bytes r M =
      let (_, span) = page_count-bounds address size some_bytes in
      record {
        mapper = M.mapper;
        ready = record {
          allocator = M.allocator;
          mapper_is = M.mapper_is;
          allocator_is = M.allocator_is;
          left = M.left;
          positive = omega (arith, M.next_page, r.positive);
          aligned = omega (arith, M.next_page, r.aligned);
          fresh = λ q after low.
              M.outside q (inr (omega (arith, M.next_page)))
              ∙ r.fresh q (omega (arith, M.next_page)) low;
        };
        physical_start = refl;
        region_length = refl;
        mapped_length = refl;
        virtual_start = refl;
        next_page = M.next_page;
        bytes = λ j lt.
            let v = st.next_page + address % 4096 + j in
            let i = (address % 4096 + j) / 4096 in
            address_of-some M.mapper v (st.next_page + i * 4096)
              (address - address % 4096 + i * 4096) (M.inside i (omega arith))
              (omega (arith, r.aligned))
            ∙ ap some (omega (arith, r.aligned));
        pages = M.inside;
        others = M.outside;
      }

  -- With the statics set, frames left and the pages up to a limit free, mapping a region that is
  -- not empty returns; every byte of it is at its physical address, the other pages translate as
  -- before, and the statics are ready for more.
  pub map_physical_region-Maps :
      (limit address size n : ℕ) (st : Paging X) (m : X.Mapper)
      → 0 < size
      → address + size + 8192 ≤ 2 ^ 52
      → st.next_page + page_count address size * 4096 ≤ limit
      → limit < 2 ^ 47
      → IsReady limit (page_count address size * 3 + n) st m
      → (region : PhysicalMapping) × (st' : Paging X) × (map_physical_region X address size st
          ≡ ok (region, st'))
        × Maps limit address size n st m region st'
  unfolding map_physical_region allocate_n do_map_region
  map_physical_region-Maps limit address size n st m some_bytes low room bound r =
      let k = page_count address size in
      let start = address - address % 4096 in
      let end = (address + size + 4095) / 4096 * 4096 in
      let st1 = record st { next_page = st.next_page + k * 4096 } in
      let (some_pages, span) = page_count-bounds address size some_bytes in
      let (st', runs, M) =
        map_pages-Mapped X x P k n (k + 1) start st.next_page st1 m r.allocator (omega arith)
          r.mapper_is r.allocator_is r.left (omega arith) r.aligned (omega arith) (omega arith)
          (λ j lt. r.fresh (st.next_page + j * 4096) (omega arith) (omega arith)) in
      let runs' : map_pages X (k + 1) start end st.next_page st1 ≡ ok st' =
        ap (λ e. map_pages X (k + 1) start e st.next_page st1) span ∙ runs in
      let first = x.phys_new-low address (omega arith) in
      let down = x.phys_align_down-low address in
      let sum : add_in 64 address size ≡ ok (address + size) = ground arith in
      let last = x.phys_new-low (address + size) (omega arith) in
      let up = x.phys_align_up-low (address + size) (omega arith) in
      let gap = x.phys_sub-le end start (omega arith) in
      let nonzero : (k == 0) ≡ false = ground arith in
      let bytes : mul_in 64 k 4096 ≡ ok (k * 4096) = ground arith in
      let after = x.virt_add-low st.next_page (k * 4096) (omega arith) in
      let back : sub_in end start ≡ ok (k * 4096) = ground arith in
      let offset : add_in 64 st.next_page (address % 4096) ≡ ok (st.next_page + address % 4096) =
        ground arith in
      let nonnull : (st.next_page + address % 4096 == 0) ≡ false = ground (arith, r.positive) in
      (
        _,
        st',
        rw (first, down, sum, last, up, gap, nonzero, bytes, after, runs', back, offset, nonnull)
            refl,
        Mapped-Maps limit address size n st st' m some_bytes r M,
      )
