-- ===== src/Memory.antt =====
-- kernel/src/memory.rs, kernel/src/allocator/page.rs and kernel/src/device/acpi/handler.rs: physical
-- frames, virtual pages, and mapping one to the other.
pub mod X86
pub mod Frames
pub mod Mapping
pub mod Heap
pub mod Translate
pub mod Machine
mod Examples
