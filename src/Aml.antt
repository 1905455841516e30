-- ===== src/Aml.antt =====
-- kernel/src/device/acpi/mod.rs, `NoccioloAmlHandler`: what AML code reads and writes, in memory, on
-- ports and in the configuration space of PCI.
pub mod Regions
pub mod Requests
pub mod Ports
pub mod Tables
