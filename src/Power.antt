-- ===== src/Power.antt =====
-- kernel/src/meta/system.rs, with the method calls of kernel/src/device/acpi/mod.rs: turning the
-- machine off, by a port of the hypervisor or through ACPI.
pub mod Firmware
pub mod Methods
pub mod Shutdown
