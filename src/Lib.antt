-- ===== src/Lib.antt =====
-- Nocciolo, an operating system kernel for x86-64 written in Rust: a model of its core and the
-- properties that make it correct.
--
-- The program's parts and the files that model them, with paths from the repository's root:
--
-- * The heap. kernel/src/allocator.rs and the three allocators under kernel/src/allocator:
--   Alloc/Align (`align_up`), Alloc/Layouts (the `Layout` of Rust's core library), Alloc/Bump
--   (bump.rs), Alloc/LinkedList (linked_list.rs) and Alloc/FixedSize (fixed_size_block.rs, which is
--   the kernel's global allocator). A state is a record of the struct's fields, an operation a
--   function that returns the next state. The list nodes that the allocators write into free memory
--   are owned references, one to the next, so a chain of them is a list: of regions with address and
--   size in the one allocator, of block addresses in the other.
--   Alloc/LinkedList/Histories runs the calls as steps of a relation.
-- * PCI. kernel/src/device/pci: Pci/Types and Pci/Names (types.rs), Pci/Config (config.rs: the
--   trait's methods over any mechanism, the local bus ports, and the enumeration of devices), and
--   Pci/Config/Inventory (mod.rs, and kernel/src/device/net/intel_8254x.rs).
-- * The screen. kernel/src/vga_text_buffer.rs: Vga/Color, Vga/Escape (`WriterState`) and Vga/Writer
--   (`Writer`). Logging is kernel/src/logging.rs, whose escape sequences the writer reads.
-- * Tasks. kernel/src/task: Task (executor.rs), with Task/Runs for whole runs, and Task/Simple
--   (simple_executor.rs and the counter of mod.rs). A task is known by its identifier; the map and
--   the cache are lists of identifiers. Task/Keyboard is keyboard.rs; Task/Keyboard/Interleaving cuts
--   `poll_next` into pieces, as steps of a relation in which the interrupt can come between any two;
--   Task/Keyboard/Print is its consumer.
-- * Memory. Memory/Frames is the frame allocator and Memory/Translate the page-table walk of
--   kernel/src/memory.rs; Memory/Mapping is kernel/src/allocator/page.rs with
--   kernel/src/device/acpi/handler.rs, which maps physical regions at the page allocator's pointer;
--   Memory/Heap is `init_heap` of kernel/src/allocator.rs, with its caller in kernel/src/main.rs.
--   Memory/X86 states what the crate `x86_64` does, and Memory/Machine is one machine that does it.
-- * ACPI. kernel/src/device/acpi/mod.rs: Acpi is its set-up, with rsdp.rs beside it; Aml/Regions and
--   Aml/Ports are the handler of AML code, which maps memory through Memory/Mapping; Aml/Requests runs
--   the interpreter's calls of it; Aml/Tables gives the tables to the interpreter, with the errors of
--   kernel/src/device/mod.rs; Power/Methods invokes methods of the firmware.
-- * Power. kernel/src/meta/system.rs: Power/Shutdown, over a state with the interpreter, the FADT and
--   a log of writes and invocations; Power/Shutdown/Recovery puts them in order.
-- * The timer. kernel/src/device/pit.rs: Timer, with the bytes of the counter in Timer/Counter and
--   the wait in Timer/Sleep.
-- * Symbols. kernel/src/meta/symbols.rs: Symbols.
-- * Interrupt controllers. kernel/src/interrupts/apic: Apic/Local (local.rs) and Apic/Io (io.rs),
--   with the accesses to the device in Apic/Io/Table. Apic/Setup finds the two in the MADT and maps
--   them through Memory/Mapping; Apic/Init is mod.rs.
-- * Interrupts. kernel/src/interrupts.rs: Interrupts has the statics with their locks, and the calls
--   that the handlers share (kernel/src/serial.rs among them); Interrupts/Handlers is the handlers, and
--   Interrupts/Handlers/Idt the descriptor table. Interrupts/Handlers/Uptime cuts `sleep` into the
--   pieces between which the timer interrupt can come.
-- * The boot. kernel/src/main.rs: Boot puts the set-up of the parts in order, with the statics in one
--   record; Boot/Silence follows an interrupt from the redirection table to the countdown.
-- * The launcher. os/src/main.rs: Launcher, with its command lines in Launcher/Commands, over a host
--   that is a parameter, in Launcher/System.
--
-- How the code is read. The kernel is built in Cargo's dev profile, with overflow checks and debug
-- assertions, on a 64-bit target; an operation that can panic returns an `Outcome` (Base/Panics).
-- A lock gives a call its state exclusively, so a call is a function of the state. Casts are
-- remainders by a power of two. Characters and bytes are numbers.
--
-- What stands outside is a parameter: the crate `linked_list_allocator` (`Fallback`), the crate
-- `noto_sans_mono_bitmap` (`Font`), the ports of the PCI host bridge (`IoPorts`), an implementation
-- of the configuration trait (`Mechanism`), volatile memory (`Memory`), the I/O APIC (`Window`),
-- the futures of the tasks (`Futures`), the crate `x86_64` (`X86`, `Tables`), the crates `acpi` and
-- `aml` (`Firmware`), the crate `elf` (`ElfBytes`), the queue and the waker cell of the keyboard
-- (`Primitives`), the decoder of its keys (`Decoder`, `Console`), the ports (`Ports`), the load and
-- store instructions (`Cpu`), the AML interpreter (`Interpreter`), the tables of the crate `acpi`
-- (`AcpiCrate`), the controllers of the crate `pic8259` (`Platform`), the machine at the boot
-- (`Machine`) and the host of the launcher (`Host`). What the theorems
-- rely on of them is in `IsAligning`, `IsMonospace`, `IsHostBridge`, `IsRegisterFile`, `Reads`,
-- `IsX86`, `IsPaging`, `IsSupply`, `IsFirmware`, `IsPrimitives`, `IsProgressing`, `IsCpu` and
-- `StoresEntries`.
-- Addresses that stay below 2 ^ 52 (physical) or 2 ^ 47 (virtual) are numbers there.
--
-- Fuel. The enumeration's loops run on fuel: 33 rounds for the 32 devices of a bus, 257 for the 256
-- buses, and 33 items for a loop over the enumeration, which has at most 32 items to yield; the
-- equation of the enumeration with its specification shows that these are enough. A run of the
-- executor takes a number of rounds and says whether it finished, since tasks that wake themselves
-- can go on without end; so does a run of the simple executor, and the wait of the timer takes a
-- number of reads, and so does each of the waits of the countdown at the boot. The loop that maps a
-- region runs on one round more than the range has pages, which the theorem on the mapping shows to
-- be enough. The loop over the redirection table counts down its entries. All other loops are
-- recursion on a list.
--
-- The bytes that the linked-list allocator skips in front of an aligned block belong to no region and
-- no block afterwards, as in the code.
--
-- Not modelled: the set-up of the serial port, the parsing of ACPI tables and AML and of the kernel's
-- image, and the build scripts, which are calls of crates. The formatting of log lines outside of
-- Logging is left open: a text is a list of its pieces. The locks are free whenever they are asked
-- for, but in Interrupts, where each lock is part of the state.
mod Base
pub mod Pci
pub mod Vga
pub mod Logging
pub mod Apic
pub mod Alloc
pub mod Task
pub mod Memory
pub mod Power
pub mod Timer
pub mod Symbols
pub mod Aml
pub mod Interrupts
pub mod Acpi
pub mod Launcher
pub mod Boot
