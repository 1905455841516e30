-- ===== src/Pci.antt =====
-- kernel/src/device/pci: the PCI bus.
pub mod Types
pub mod Names
pub mod Config
