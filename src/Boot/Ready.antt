-- ===== src/Boot/Ready.antt =====
-- From the boot loader's information, the kernel's heap is mapped and handed to the global allocator,
-- and regions can be mapped below it; and without timer interrupts the countdown does not end.
mod Examples
use nocciolo.Base.{
  ℕ, zero, suc, ◌+◌, ◌*◌, ◌^◌, ◌≤◌, ◌<◌, ◌≡◌, refl, ap, ◌∙◌, Outcome, ok, ◌>>=◌, Option, none, some,
  arith, ◌%◌, inl,
}
use nocciolo.Memory.X86.{X86, IsX86, IsPaging}
use nocciolo.Memory.Frames as Frames
use nocciolo.Memory.Mapping.Region.{IsReady}
use nocciolo.Alloc.FixedSize as FixedSize
use nocciolo.Memory.Mapping.Loops.{HasLeft}
use nocciolo.Memory.Heap.{heap_start, heap_size}
use nocciolo.Memory.Heap.Pages.{init_heap-maps}
use nocciolo.Timer as Timer
use nocciolo.Timer.Sleep.{sleep_never}
use nocciolo.Boot.{
  Machine, BootInfo, Kernel, active_level_4_table, init_mapper, init_frame_allocator, with_statics,
  init_heap, countdown,
}

module _ (M : Machine) (x : IsX86 M.x86) (P : IsPaging M.x86) where
  -- The new state: the global allocator has the heap, every page of it is mapped, regions can be mapped
  -- below it, and nothing but the heap, the page tables and the frame allocator changed.
  pub record Heaped (n : ℕ) (mapper : M.x86.Mapper) (old new : Kernel M) : Type 0 where
    pub tables : M.x86.Mapper
    pub frames : Frames.BootInfoFrameAllocator
    pub heap_is : new.heap ≡ FixedSize.init M.fallback old.heap heap_start heap_size
    pub pages :
        (j : ℕ) → j < 256 → (frame : ℕ) × (P.translate tables (heap_start + j * 4096) ≡ some frame)
    pub ready : IsReady M.x86 x P heap_start n new.paging tables
    pub paging_is :
        new.paging ≡ record old.paging { mapper = some tables; frame_allocator = some frames }
    pub others : new ≡ record old { heap = new.heap; paging = new.paging }

  -- From a boot information with an offset and a memory map with 1024 frames left, with the pointer
  -- of the page allocator above zero, at the start of a page and not above the heap, and page
  -- tables that are free from that pointer to the end of the heap, init_heap of the kernel returns:
  -- every page of the heap is mapped and the heap is handed to the global allocator, regions can be
  -- mapped below it, and nothing but the heap, the page tables and the frame allocator changed.
  pub init_heap-Heaped :
      (boot_info : BootInfo) (k : Kernel M) (n given offset : ℕ)
      → boot_info.physical_memory_offset ≡ some given
      → M.x86.virt_new given ≡ ok offset
      → offset + M.level_4_table_frame < 2 ^ 47
      → HasLeft (1024 + n) (Frames.init boot_info.memory_regions)
      → 0 < k.paging.next_page
      → k.paging.next_page % 4096 ≡ 0
      → k.paging.next_page ≤ heap_start
      → let mapper = M.offset_page_table (offset + M.level_4_table_frame) offset in
        ((q : ℕ)
          → k.paging.next_page ≤ q
          → q < heap_start + heap_size
          → P.translate mapper q ≡ none)
        → (k' : Kernel M) × (init_heap M boot_info k ≡ ok k') × Heaped n mapper k k'
  unfolding init_heap init_mapper active_level_4_table init_frame_allocator with_statics
  init_heap-Heaped boot_info k n given offset is valid low left positive aligned below fresh =
      let mapper = M.offset_page_table (offset + M.level_4_table_frame) offset in
      let table = x.virt_add-low offset M.level_4_table_frame low in
      let (mapping, run, H) =
        init_heap-maps M.x86 x P M.fallback k.heap n mapper (Frames.init boot_info.memory_regions)
          left (λ j lt. fresh (heap_start + j * 4096) (omega arith) (omega arith)) in
      (
        record k {
          heap = FixedSize.init M.fallback k.heap heap_start heap_size;
          paging = record k.paging {
            mapper = some mapping.mapper;
            frame_allocator = some mapping.frame_allocator;
          };
        },
        rw (is, valid, table, run) refl,
        record {
          tables = mapping.mapper;
          frames = mapping.frame_allocator;
          heap_is = refl;
          pages = H.inside;
          ready = record {
            allocator = mapping.frame_allocator;
            mapper_is = refl;
            allocator_is = refl;
            left = H.left;
            positive = positive;
            aligned = aligned;
            fresh = λ q from before. H.outside q (inl before) ∙ fresh q from (omega arith);
          };
          paging_is = refl;
          others = refl;
        },
      )

-- Where the uptime stands still, no sleep of the countdown ends.
pub countdown-waits :
    (n rounds : ℕ) (uptime : ℕ → ℕ)
    → ((i : ℕ) → uptime i ≡ uptime 0)
    → uptime 0 + 1000 < 2 ^ 64
    → countdown (suc n) rounds uptime ≡ ok none
unfolding countdown
countdown-waits n rounds uptime still fits =
    rw (sleep_never uptime 1000 (omega arith) fits still rounds) refl
