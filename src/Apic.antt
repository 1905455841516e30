-- ===== src/Apic.antt =====
-- kernel/src/interrupts/apic: the local APIC and the I/O APIC.
pub mod Io
pub mod Local
pub mod Setup
pub mod Init
