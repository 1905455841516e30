-- ===== src/Memory/Machine.antt =====
-- A machine whose page table is a function, with memory to give out and no page mapped: the laws of
-- the crate hold of it.
use nocciolo.Base.{
  ℕ, suc, ◌+◌, ◌-◌, ◌*◌, ◌/◌, ◌%◌, ◌≡◌, ◌≢◌, refl, ap, subst, ok, Option, none, some, arith, ◌==◌,
  if◌then◌else◌, true, false, List, [], ◌∷◌,
}
use nocciolo.Memory.X86.{X86, IsX86, IsPaging, pages_from}
use nocciolo.Memory.Frames.{
  MemoryRegion, BootInfoFrameAllocator, steps, step_by_page, frame_addresses,
}
use nocciolo.Memory.Frames.Runs.{IsMemoryMap}
use nocciolo.Memory.Mapping.{Paging}
use nocciolo.Memory.Mapping.Region.{IsReady}

-- A table with one entry changed.
abbrev pub update : (ℕ → Option ℕ) → ℕ → Option ℕ → ℕ → Option ℕ
update m page entry q = if q == page then entry else m q

abbrev pub machine : X86
machine = record {
  Mapper = ℕ → Option ℕ;
  phys_new = λ a. ok a;
  phys_align_down = λ a. a - a % 4096;
  phys_align_up = λ a. ok ((a + 4095) / 4096 * 4096);
  phys_add = λ a n. ok (a + n);
  phys_sub = λ a b. ok (a - b);
  virt_new = λ a. ok a;
  virt_add = λ a n. ok (a + n);
  frame_containing = λ a. a - a % 4096;
  page_containing = λ a. a - a % 4096;
  range_inclusive = λ a b. pages_from ((b - a) / 4096 + 1) a;
  page_from_start = λ a. if a % 4096 == 0 then some a else none;
  map_to = λ {A} alloc m a page frame. ok (some (update m page (some frame)), a);
  unmap = λ m page. some (update m page none);
}

range-count : (a count : ℕ) → (a + count * 4096 - a) / 4096 + 1 ≡ suc count
range-count a count = omega arith

pub machine-IsX86 : IsX86 machine
machine-IsX86 = record {
  phys_new-low = λ a h. refl;
  phys_align_down-low = λ a. refl;
  phys_align_up-low = λ a h. refl;
  phys_add-low = λ a n h. refl;
  phys_sub-le = λ a b h. refl;
  virt_new-low = λ a h. refl;
  virt_add-low = λ a n h. refl;
  frame_containing-low = λ a. refl;
  page_containing-low = λ a. refl;
  range_inclusive-pages = λ a count h. ap (λ n. pages_from n a) (range-count a count);
  page_from_start-aligned = λ a h. ground arith;
}

pub update-same :
    (m : ℕ → Option ℕ) (page : ℕ) (entry : Option ℕ) → update m page entry page ≡ entry
update-same m page entry = ground arith

pub update-other :
    (m : ℕ → Option ℕ) (page : ℕ) (entry : Option ℕ) (q : ℕ)
    → q ≢ page
    → update m page entry q ≡ m q
update-other m page entry q h = ground arith

abbrev pub machine-IsPaging : IsPaging machine
machine-IsPaging = record {
  translate = λ m page. m page;
  map_to-new = λ {A} alloc Left n m a page frame supply left new. (
    update m page (some frame),
    a,
    refl,
    supply.fewer n a (
        supply.fewer (suc n) a
          (supply.fewer (suc (suc n)) a (subst (λ k. Left k a) (omega arith) left))),
    update-same m page (some frame),
    update-other m page (some frame),
  );
  unmap-mapped = λ m page frame mapped.
      (update m page none, refl, update-same m page none, update-other m page none);
}

abbrev pub memory_map : List MemoryRegion
memory_map =
    record { start = 0; end = 0x1000; usable = false }
    ∷ record { start = 0x1000; end = 0x8000; usable = true }
    ∷ record { start = 0x9000; end = 0xA000; usable = true }
    ∷ []

pub memory_map-IsMemoryMap : IsMemoryMap memory_map
memory_map-IsMemoryMap = record { regions = ground arith; apart = ground arith }

abbrev pub boot_frames : BootInfoFrameAllocator
boot_frames = record { memory_regions = memory_map; next = 0 }

abbrev pub ready_state : Paging machine
ready_state = record {
  mapper = some (λ q. none);
  frame_allocator = some (boot_frames);
  next_page = 0x1000000000;
}

pub ready_state-IsReady :
    IsReady machine machine-IsX86 machine-IsPaging 0x444444440000 7 ready_state (λ q. none)
unfolding frame_addresses step_by_page steps
ready_state-IsReady = record {
  allocator = boot_frames;
  mapper_is = refl;
  allocator_is = refl;
  left = record { valid = memory_map-IsMemoryMap; room = omega arith; left = ground arith };
  positive = omega arith;
  aligned = refl;
  fresh = λ q h low. refl;
}
