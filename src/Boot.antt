-- ===== src/Boot.antt =====
-- kernel/src/main.rs: `init` and the countdown of `kernel_main`, over the parts that the other modules
-- model, with `init_mapper` and `init_frame_allocator` of kernel/src/memory.rs, `init` of
-- kernel/src/gdt.rs, kernel/src/device/mod.rs, kernel/src/meta/mod.rs and kernel/src/meta/symbols.rs.
pub mod Ready
pub mod Silence
use nocciolo.Base.{
  ℕ, zero, suc, ◌+◌, Outcome, ok, panic, ◌>>=◌, unwrap, Option, none, some, List, [], ◌∷◌,
}
use nocciolo.Memory.X86.{X86}
use nocciolo.Memory.Frames as Frames
use nocciolo.Memory.Frames.{MemoryRegion, BootInfoFrameAllocator}
use nocciolo.Memory.Mapping.{Paging}
use nocciolo.Memory.Heap as Heap
use nocciolo.Alloc.FixedSize as FixedSize
use nocciolo.Vga.Writer.{Writer, FrameBufferInfo, set_fb}
use nocciolo.Timer as Timer
use nocciolo.Aml.Regions.{Cpu}
use nocciolo.Aml.Tables.{Interpreter}
use nocciolo.Acpi as Acpi
use nocciolo.Acpi.{AcpiCrate, AcpiData}
use nocciolo.Apic.Local.{Memory}
use nocciolo.Apic.Io.Table.{Window}
use nocciolo.Apic.Setup.{MadtEntry}
use nocciolo.Apic.Init as Apic
use nocciolo.Apic.Init.{Instances}
use nocciolo.Pci.Config.{Mechanism}
use nocciolo.Pci.Config.Inventory as Inventory
use nocciolo.Pci.Config.Inventory.{InfoLine}

-- What stands outside of the kernel.
pub record Machine : Type 1 where
  pub x86 : X86
  pub fallback : FixedSize.Fallback
  pub interpreter : Interpreter
  pub cpu : Cpu x86
  pub acpi_crate : AcpiCrate interpreter x86 cpu.Ram
  pub madt_entries : acpi_crate.Madt → List MadtEntry
  pub Devices : Type 0
  pub memory : Memory Devices
  pub window : Window Devices
  pub mechanism : Mechanism
  -- `Cr3::read`, and `OffsetPageTable::new` on the table at an address.
  pub level_4_table_frame : ℕ
  pub offset_page_table : ℕ → ℕ → x86.Mapper
  -- `ElfBytes::minimal_parse`.
  pub Elf : Type 0
  pub minimal_parse : List ℕ → Option Elf

-- The parts of `BootInfo` that are read, the image of the kernel with its bytes.
pub record BootInfo : Type 0 where
  pub framebuffer : Option (List ℕ × FrameBufferInfo)
  pub physical_memory_offset : Option ℕ
  pub memory_regions : List MemoryRegion
  pub rsdp_addr : Option ℕ
  pub kernel_image : List ℕ

-- What is done to the processor and to the interrupt controllers of the crate `pic8259`.
pub data Event : Type 0 where
  load_gdt set_code_segment load_tss load_idt : Event
  initialize_pics disable_pics enable_interrupts : Event

module _ (M : Machine) where
  -- The statics, with what was done, the newest first.
  pub record Kernel : Type 0 where
    pub events : List Event
    pub writer : Writer
    pub pit : Timer.Writes
    pub heap : FixedSize.FixedSizeBlockAllocator M.fallback
    pub paging : Paging M.x86
    pub acpi_data : AcpiData M.interpreter M.x86 M.cpu M.acpi_crate
    pub msr : ℕ
    pub instances : Instances
    pub devices : M.Devices
    pub elf : Option M.Elf
    pub mechanism : M.mechanism.State
    pub info : List InfoLine

  pub set_framebuffer : Option (List ℕ × FrameBufferInfo) → Writer → Writer
  set_framebuffer none writer = writer
  set_framebuffer (some (buffer, info)) writer = set_fb writer buffer info

  pub gdt_init : List Event → List Event
  gdt_init events = load_tss ∷ set_code_segment ∷ load_gdt ∷ events

  pub init_idt : List Event → List Event
  init_idt events = load_idt ∷ events

  -- `active_level_4_table`: the address of the table.
  pub active_level_4_table : ℕ → Outcome ℕ
  active_level_4_table physical_memory_offset =
      M.x86.virt_add physical_memory_offset M.level_4_table_frame

  pub init_mapper : ℕ → Paging M.x86 → Outcome (Paging M.x86)
  unfolding active_level_4_table
  init_mapper physical_memory_offset st = do
    level_4_table ← active_level_4_table physical_memory_offset
    ok (record st { mapper = some (M.offset_page_table level_4_table physical_memory_offset) })

  pub init_frame_allocator : List MemoryRegion → Paging M.x86 → Paging M.x86
  init_frame_allocator memory_regions st = record st {
    frame_allocator = some (Frames.init memory_regions);
  }

  -- `with_mapper` and `with_frame_allocator`, around the allocator's `init_heap`.
  pub with_statics :
      Paging M.x86
      → FixedSize.FixedSizeBlockAllocator M.fallback
      → Outcome (FixedSize.FixedSizeBlockAllocator M.fallback × Paging M.x86)
  with_statics st heap = do
    mapper ← unwrap st.mapper
    frame_allocator ← unwrap st.frame_allocator
    (heap', mapping) ← Heap.init_heap M.x86 M.fallback heap mapper frame_allocator
    ok (
      heap',
      record st { mapper = some mapping.mapper; frame_allocator = some mapping.frame_allocator },
    )

  pub init_heap : BootInfo → Kernel → Outcome Kernel
  unfolding init_mapper init_frame_allocator with_statics
  init_heap boot_info k = do
    physical_memory_offset ← unwrap boot_info.physical_memory_offset
    phys_mem_offset ← M.x86.virt_new physical_memory_offset
    st ← init_mapper phys_mem_offset k.paging
    (heap, st') ← with_statics (init_frame_allocator boot_info.memory_regions st) k.heap
    ok (record k { heap = heap; paging = st' })

  pub acpi_init : BootInfo → M.cpu.Ram → Kernel → Outcome Kernel
  acpi_init boot_info ram k = do
    (acpi_data, st) ←
        Acpi.init M.interpreter M.x86 M.cpu M.acpi_crate boot_info.rsdp_addr k.acpi_data k.paging
          ram
    ok (record k { acpi_data = acpi_data; paging = st })

  -- The entries of the MADT, if it was found.
  pub entries_of : Option M.acpi_crate.Madt → Option (List MadtEntry)
  entries_of none = none
  entries_of (some madt) = some (M.madt_entries madt)

  -- `apic::init`. `ApicError` has no values, so the call returns `Ok` or panics.
  pub apic_init : Kernel → Outcome Kernel
  unfolding entries_of
  apic_init k = do
    (instances, msr, st, devices) ←
        Apic.init M.memory M.window M.x86 (entries_of k.acpi_data.madt) k.msr k.instances k.paging
          k.devices
    ok (record k { instances = instances; msr = msr; paging = st; devices = devices })

  -- `symbols::init`: the cell is set once, unless the image cannot be parsed.
  pub symbols_init : List ℕ → Option M.Elf → Option M.Elf
  symbols_init image (some elf) = some elf
  symbols_init image none = M.minimal_parse image

  pub meta_init : BootInfo → Kernel → Kernel
  unfolding symbols_init
  meta_init boot_info k = record k { elf = symbols_init boot_info.kernel_image k.elf }

  -- `device::init`, with the lines that it logs.
  pub device_init : Kernel → Kernel
  device_init k = record k { info = Inventory.init M.mechanism k.mechanism }

  -- Up to the timer.
  pub early_init : BootInfo → Kernel → Outcome Kernel
  unfolding set_framebuffer gdt_init init_idt
  early_init boot_info k = do
    let writer = set_framebuffer boot_info.framebuffer k.writer
    let events = initialize_pics ∷ init_idt (gdt_init k.events)
    pit ← Timer.init k.pit
    ok (record k { writer = writer; events = events; pit = pit })

  pub log_event : Event → Kernel → Kernel
  log_event event k = record k { events = event ∷ k.events }

  pub init : BootInfo → M.cpu.Ram → Kernel → Outcome Kernel
  unfolding early_init init_heap acpi_init apic_init log_event meta_init device_init
  init boot_info ram k = do
    k1 ← early_init boot_info k
    k2 ← init_heap boot_info k1
    k3 ← acpi_init boot_info ram k2
    k4 ← apic_init k3
    let k5 = log_event enable_interrupts (log_event disable_pics k4)
    ok (device_init (meta_init boot_info k5))

-- The countdown of `kernel_main`: so many sleeps of a second, each for at most `rounds` rounds, over the
-- reads of the uptime. The result is the number of reads, where all sleeps ended.
pub countdown : ℕ → ℕ → (ℕ → ℕ) → Outcome (Option ℕ)
countdown zero rounds uptime = ok (some 0)
countdown (suc n) rounds uptime = Timer.sleep rounds uptime 1000 >>= λ slept. elim slept [
  | none ↦ ok none
  | some reads ↦ countdown n rounds (λ i. uptime (i + reads)) >>= λ rest. elim rest [
    | none ↦ ok none
    | some more ↦ ok (some (more + reads))
  ]
]
