-- ===== src/Alloc.antt =====
-- kernel/src/allocator.rs and the allocators below it.
mod Examples
pub mod Align
pub mod Layouts
pub mod Ranges
pub mod Bump
pub mod LinkedList
pub mod FixedSize
