-- ===== src/Memory/Mapping.antt =====
-- kernel/src/device/acpi/handler.rs with kernel/src/allocator/page.rs: physical memory is mapped to
-- fresh virtual pages, and unmapped again. `LOG_ENABLED` is false.
pub mod Loops
pub mod Region
pub mod Unmap
use nocciolo.Base.{
  ℕ, zero, suc, ◌+◌, ◌-◌, ◌*◌, ◌/◌, ◌%◌, ◌≡◌, ◌==◌, ltb, not, Outcome, ok, panic, ◌>>=◌, ◌>>◌,
  assert, unwrap, add_in, sub_in, mul_in, if◌then◌else◌, Option, none, some,
}
use nocciolo.Memory.X86.{X86}
use nocciolo.Memory.Frames.{BootInfoFrameAllocator, allocate_frame}

-- `PageAllocatorImpl::new`.
abbrev pub first_page : ℕ
first_page = 0x1000000000

-- `PhysicalMapping`.
pub record PhysicalMapping : Type 0 where
  pub physical_start : ℕ
  pub virtual_start : ℕ
  pub region_length : ℕ
  pub mapped_length : ℕ

module _ (X : X86) where
  -- `PageAllocator::allocate_n`, on the address that the page allocator is at.
  pub allocate_n : ℕ → ℕ → Outcome (ℕ × ℕ)
  allocate_n addr n = do
    assert (not (n == 0))
    size ← mul_in 64 n 4096
    after ← X.virt_add addr size
    ok (addr, after)

  -- The three statics: `MAPPER`, `FRAME_ALLOCATOR` and the page allocator's.
  pub record Paging : Type 0 where
    pub mapper : Option X.Mapper
    pub frame_allocator : Option BootInfoFrameAllocator
    pub next_page : ℕ

  -- The body of the loop of `do_map_region`.
  pub map_page : ℕ → ℕ → Paging → Outcome Paging
  map_page ptr virt st = do
    page ← unwrap (X.page_from_start virt)
    mapper ← unwrap st.mapper
    allocator ← unwrap st.frame_allocator
    (mapped, allocator') ←
        X.map_to (allocate_frame X) mapper allocator page (X.frame_containing ptr)
    mapper' ← unwrap mapped
    ok (record st { mapper = some mapper'; frame_allocator = some allocator' })

  -- The loop of `do_map_region`, for at most `rounds` rounds.
  pub map_pages : ℕ → ℕ → ℕ → ℕ → Paging → Outcome Paging
  unfolding map_page
  map_pages zero ptr end virt st = panic
  map_pages (suc rounds) ptr end virt st =
      let later = (do
        st' ← map_page ptr virt st
        ptr' ← X.phys_add ptr 4096
        virt' ← X.virt_add virt 4096
        map_pages rounds ptr' end virt' st') in
      if ltb ptr end then later else ok st

  pub do_map_region : ℕ → ℕ → ℕ → Paging → Outcome Paging
  unfolding map_pages
  do_map_region start end virt_start st =
      map_pages ((end - start) / 4096 + 1) start end virt_start st

  pub map_physical_region : ℕ → ℕ → Paging → Outcome (PhysicalMapping × Paging)
  unfolding allocate_n do_map_region
  map_physical_region physical_address size st = do
    first ← X.phys_new physical_address
    let start = X.phys_align_down first
    sum ← add_in 64 physical_address size
    last ← X.phys_new sum
    end ← X.phys_align_up last
    span ← X.phys_sub end start
    (virt, next_page) ← allocate_n st.next_page (span / 4096)
    st' ← do_map_region start end virt (record st { next_page = next_page })
    mapped_length ← sub_in end start
    virt_ptr ← add_in 64 virt (physical_address % 4096)
    assert (not (virt_ptr == 0))
    ok (
      record {
        physical_start = physical_address;
        virtual_start = virt_ptr;
        region_length = size;
        mapped_length = mapped_length;
      },
      st',
    )

  -- The loop of `unmap_physical_region`, for `count` pages from `virt` on.
  pub unmap_pages : ℕ → ℕ → Paging → Outcome Paging
  unmap_pages zero virt st = ok st
  unmap_pages (suc count) virt st = do
    mapper ← unwrap st.mapper
    mapper' ← unwrap (X.unmap mapper (X.page_containing virt))
    virt' ← X.virt_add virt 4096
    unmap_pages count virt' (record st { mapper = some mapper' })

  pub unmap_physical_region : PhysicalMapping → Paging → Outcome Paging
  unfolding unmap_pages
  unmap_physical_region region st = do
    virt ← X.virt_new region.virtual_start
    unmap_pages (region.mapped_length / 4096) virt st
