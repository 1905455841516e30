-- ===== src/Pci/Names.antt =====
-- kernel/src/device/pci/types.rs: the names that the enumeration prints for subclasses, vendors and
-- devices.
use nocciolo.Base.{
  ℕ, ◌==◌, ◌≤◌, ◌≡◌, arith, if◌then◌else◌, Option, none, some, List, [], ◌∷◌, String, Bool, true,
  false,
}
use nocciolo.Pci.Types.{PciClassCode}

-- The arms of a `match` on a number, in order; the last argument is what follows them.
arms : List (ℕ × Option String) → ℕ → Option String → Option String
arms [] v rest = rest
arms ((k, name) ∷ table) v rest = if v == k then name else arms table v rest

-- The arms of the source that name the class.
class_arms : PciClassCode → List (ℕ × Option String)
class_arms PciClassCode.unclassified = []
class_arms PciClassCode.mass_storage_controller =
    (0x0, some "SCSI Bus Controller")
    ∷ (0x1, some "IDE Controller")
    ∷ (0x2, some "Floppy Disk Controller")
    ∷ (0x3, some "IPI Bus Controller")
    ∷ (0x4, some "RAID Controller")
    ∷ (0x5, some "ATA Controller")
    ∷ (0x6, some "Serial ATA Controller")
    ∷ (0x7, some "Serial Attached SCSI Controller")
    ∷ (0x8, some "Non-Volatile Memory Controller")
    ∷ []
class_arms PciClassCode.network_controller =
    (0x0, some "Ethernet Controller")
    ∷ (0x1, some "Token Ring Controller")
    ∷ (0x2, some "FDDI Controller")
    ∷ (0x3, some "ATM Controller")
    ∷ (0x4, some "ISDN Controller")
    ∷ (0x5, some "WorldFlip Controller")
    ∷ (0x6, some "PICMG 2.14 Multi Computing Controller")
    ∷ (0x7, some "InfiniBand Controller")
    ∷ (0x8, some "Fabric Controller")
    ∷ []
class_arms PciClassCode.display_controller =
    (0x0, some "VGA Compatible Controller")
    ∷ (0x1, some "XGA Compatible Controller")
    ∷ (0x2, some "3D Controller (Not VGA Compatible)")
    ∷ []
class_arms PciClassCode.multimedia_controller =
    (0x0, some "Video Controller")
    ∷ (0x1, some "Audio Controller")
    ∷ (0x2, some "Computer Telephony Device")
    ∷ (0x3, some "Audio Device")
    ∷ []
class_arms PciClassCode.memory_controller =
    (0x0, some "RAM Controller") ∷ (0x1, some "Flash Controller") ∷ []
class_arms PciClassCode.bridge =
    (0x0, some "Host Bridge")
    ∷ (0x1, some "ISA Bridge")
    ∷ (0x2, some "EISA Bridge")
    ∷ (0x3, some "MCA Bridge")
    ∷ (0x4, some "PCI-to-PCI Bridge")
    ∷ (0x5, some "PCMCIA Bridge")
    ∷ (0x6, some "NuBus Bridge")
    ∷ (0x7, some "CardBus Bridge")
    ∷ (0x8, some "RACEway Bridge")
    ∷ (0x9, some "PCI-to-PCI Bridge (2)")
    ∷ (0xa, some "InfiniBand-to-PCI Bridge")
    ∷ []
class_arms PciClassCode.simple_communication_controller =
    (0x0, some "Serial Controller")
    ∷ (0x1, some "Parallel Controller")
    ∷ (0x2, some "Multiport Serial Controller")
    ∷ (0x3, some "Modem")
    ∷ (0x4, some "IEEE 488.1/2 (GPIB) Controller")
    ∷ (0x5, some "Smart Card Controller")
    ∷ []
class_arms PciClassCode.base_system_peripheral =
    (0x0, some "PIC")
    ∷ (0x1, some "DMA Controller")
    ∷ (0x2, some "Timer")
    ∷ (0x3, some "RTC Controller")
    ∷ (0x4, some "PCI Hot-Plug Controller")
    ∷ (0x5, some "SD Host Controller")
    ∷ (0x6, some "IOMMU")
    ∷ []
class_arms PciClassCode.input_device_controller =
    (0x0, some "Keyboard Controller")
    ∷ (0x1, some "Digitizer Pen")
    ∷ (0x2, some "Mouse Controller")
    ∷ (0x3, some "Scanner Controller")
    ∷ (0x4, some "Gameport Controller")
    ∷ []
class_arms PciClassCode.docking_station = (0x0, some "Generic") ∷ []
class_arms PciClassCode.processor =
    (0x0, some "i386")
    ∷ (0x1, some "i486")
    ∷ (0x2, some "Pentium")
    ∷ (0x3, some "Pentium Pro")
    ∷ (0x10, some "Alpha")
    ∷ (0x20, some "PowerPC")
    ∷ (0x30, some "MIPS")
    ∷ (0x40, some "Co-Processor")
    ∷ []
class_arms PciClassCode.serial_bus_controller =
    (0x0, some "FireWire (IEEE 1394)")
    ∷ (0x1, some "ACCESS Bus")
    ∷ (0x2, some "SSA")
    ∷ (0x3, some "USB Controller")
    ∷ (0x4, some "Fibre Channel")
    ∷ (0x5, some "SMBus")
    ∷ (0x6, some "InfiniBand")
    ∷ (0x7, some "IPMI Interface")
    ∷ (0x8, some "SERCOS Interface (IEC 61491)")
    ∷ (0x9, some "CANbus Controller")
    ∷ []
class_arms PciClassCode.wireless_controller =
    (0x0, some "iRDA Compatible")
    ∷ (0x1, some "Consumer IR")
    ∷ (0x10, some "RF")
    ∷ (0x11, some "Bluetooth")
    ∷ (0x12, some "Broadband")
    ∷ (0x20, some "Ethernet (802.1a)")
    ∷ (0x21, some "Ethernet (802.1b)")
    ∷ []
class_arms PciClassCode.intelligent_controller = (0x0, some "I2O") ∷ (0x80, none) ∷ []
class_arms PciClassCode.satellite_communication_controller =
    (0x0, some "TV Controller")
    ∷ (0x1, some "Audio Controller")
    ∷ (0x2, some "Video Controller")
    ∷ (0x3, some "Voice Controller")
    ∷ (0x4, some "Data Controller")
    ∷ (0x80, none)
    ∷ []
class_arms PciClassCode.encryption_controller =
    (0x0, some "Network and Computing Encrpytion/Decryption")
    ∷ (0x1, some "Entertainment Encryption/Decryption")
    ∷ []
class_arms PciClassCode.signal_processing_controller =
    (0x0, some "DPIO Modules")
    ∷ (0x1, some "Performance Counters")
    ∷ (0x10, some "Communication Synchronizer")
    ∷ (0x20, some "Signal Processing Management")
    ∷ []
class_arms PciClassCode.processing_accelerator = []
class_arms PciClassCode.non_essential_instrumentation = []
class_arms PciClassCode.coprocessor = []
class_arms PciClassCode.unassigned =
    (0x0, some "Non-VGA-Compatible") ∷ (0x1, some "VGA-Compatible") ∷ (0x80, none) ∷ []
class_arms (PciClassCode.reserved id) = []

-- The name of a subclass; after the arms of the class, 0x80 is "Other" and anything else has none.
pub subclass_name : PciClassCode → ℕ → Option String
unfolding class_arms arms
subclass_name class_code subclass =
    arms (class_arms class_code) subclass (arms ((0x80, some "Other") ∷ []) subclass none)

abbrev pub vendor_invalid : ℕ
vendor_invalid = 0xffff

abbrev pub vendor_bochs : ℕ
vendor_bochs = 0x1234

abbrev pub vendor_intel : ℕ
vendor_intel = 0x8086

pub vendor_name : ℕ → Option String
unfolding arms
vendor_name id =
    arms
      ((vendor_bochs, some "Bochs")
        ∷ (vendor_intel, some "Intel Corporation")
        ∷ (vendor_invalid, some "INVALID")
        ∷ [])
      id none

pub get_bochs : ℕ → Option String
unfolding arms
get_bochs id = arms ((0x1111, some "Graphics Adapter") ∷ []) id none

pub get_intel : ℕ → Option String
unfolding arms
get_intel id =
    arms
      ((0x1237, some "440FX - 82441FX PMC [Natoma]")
        ∷ (0x100e, some "82540EM Gigabit Ethernet Controller")
        ∷ (0x7000, some "Propolis Virtual PIIX3 ISA Controller")
        ∷ [])
      id none

pub device_name : ℕ → ℕ → Option String
unfolding get_bochs get_intel
device_name device vendor =
    if vendor == vendor_bochs
    then get_bochs device
    else if vendor == vendor_intel
    then get_intel device
    else none

-- Subclass 0x80 is "Other" in every class but three, which leave it without a name.
pub leaves_unnamed : PciClassCode → Bool
leaves_unnamed PciClassCode.unassigned = true
leaves_unnamed PciClassCode.intelligent_controller = true
leaves_unnamed PciClassCode.satellite_communication_controller = true
leaves_unnamed c = false

-- A subclass above 0x80 has no name, and 0x80 is "Other" except where the class leaves it out.
pub subclass_name-high :
    (c : PciClassCode) (v : ℕ)
    → 0x80 ≤ v
    → subclass_name c v
      ≡ (if v == 0x80 then (if leaves_unnamed c then none else some "Other") else none)
unfolding subclass_name leaves_unnamed
subclass_name-high PciClassCode.unclassified v h = ground arith
subclass_name-high c v h = ground arith
