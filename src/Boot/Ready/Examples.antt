-- ===== src/Boot/Ready/Examples.antt =====
-- The boot loader gives eight mebibytes and maps them at an offset.
use nocciolo.Base.{ℕ, ◌+◌, ◌≡◌, refl, ok, none, some, List, [], ◌∷◌, true, arith}
use nocciolo.Memory.Frames as Frames
use nocciolo.Memory.Frames.{MemoryRegion, frame_addresses, step_by_page, steps}
use nocciolo.Memory.Mapping.Loops.{HasLeft}
use nocciolo.Memory.Machine.{machine, machine-IsX86, machine-IsPaging}
use nocciolo.Memory.Heap.Examples.{range_heap}
use nocciolo.Alloc.FixedSize as FixedSize
use nocciolo.Vga.Writer.Examples.{small_screen}
use nocciolo.Aml.Regions.Processor.{cpu}
use nocciolo.Aml.Tables.Loading.Examples.{interpreter}
use nocciolo.Acpi.Examples.{acpi_crate, nothing}
use nocciolo.Interrupts.Examples.{memory, window}
use nocciolo.Pci.Config.{Mechanism}
use nocciolo.Boot.{Machine, BootInfo, Kernel, init_heap}
use nocciolo.Boot.Ready.{Heaped, init_heap-Heaped}

abbrev no_bus : Mechanism
no_bus = record {
  State = Unit {0};
  read_word = λ s a o. (0xffff, s);
  read_dword = λ s a o. (0xffffffff, s);
  write_word = λ s a o v. s;
}

abbrev pc : Machine
pc = record {
  x86 = machine;
  fallback = range_heap;
  interpreter = interpreter;
  cpu = cpu;
  acpi_crate = acpi_crate;
  madt_entries = λ madt. [];
  Devices = ℕ;
  memory = memory;
  window = window;
  mechanism = no_bus;
  level_4_table_frame = 0x1000;
  offset_page_table = λ table offset q. none;
  Elf = ℕ;
  minimal_parse = λ image. none;
}

abbrev regions : List MemoryRegion
regions = record { start = 0x100000; end = 0x900000; usable = true } ∷ []

abbrev boot_info : BootInfo
boot_info = record {
  framebuffer = none;
  physical_memory_offset = some 0x28000000000;
  memory_regions = regions;
  rsdp_addr = none;
  kernel_image = [];
}

regions-HasLeft : HasLeft (1024 + 7) (Frames.init regions)
unfolding Frames.init frame_addresses step_by_page steps
regions-HasLeft = record {
  valid = record { regions = ground arith; apart = ground arith };
  room = omega arith;
  left = omega arith;
}

abbrev before : Kernel pc
before = record {
  events = [];
  writer = small_screen;
  pit = [];
  heap = FixedSize.new range_heap;
  paging = record { mapper = none; frame_allocator = none; next_page = 0x1000000000 };
  acpi_data = nothing;
  msr = 0xFEE00900;
  instances = record { local = none; io = none };
  devices = 0;
  elf = none;
  mechanism = tt;
  info = [];
}

init_heap-Heaped_example :
    (k' : Kernel pc) × (init_heap pc boot_info before ≡ ok k')
    × Heaped pc machine-IsX86 machine-IsPaging 7 (λ q. none) before k'
init_heap-Heaped_example =
    init_heap-Heaped pc machine-IsX86 machine-IsPaging boot_info before 7 0x28000000000
      0x28000000000 refl refl (omega arith) regions-HasLeft (omega arith) refl (omega arith)
      (λ q from low. refl)
