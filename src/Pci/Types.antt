-- ===== src/Pci/Types.antt =====
-- kernel/src/device/pci/types.rs: addresses, base addresses, class codes and header types of PCI
-- devices. `u8` and `u16` values are numbers below 256 and 65536.
mod Examples
pub mod Laws
use nocciolo.Base.{ℕ, ◌*◌, ◌^◌, ◌==◌, bit_and, bit_or, Bool, if◌then◌else◌}

pub record PciAddress : Type 0 where
  pub segment : ℕ
  pub bus : ℕ
  pub device : ℕ
  pub function : ℕ

-- The value for the address port. Each `u8` is widened before it is shifted, so no shift drops bits.
pub create_local_bus_address : PciAddress → ℕ → Bool → ℕ
create_local_bus_address a offset enabled =
    bit_or
      (bit_or (bit_or (bit_or (a.bus * 2 ^ 16) (a.device * 2 ^ 11)) (a.function * 2 ^ 8))
        (bit_and offset 0xfc))
      (if enabled then 0x80000000 else 0)

pub data PciBaseAddressType : Type 0 where
  memory_space io_space : PciBaseAddressType

pub kind : ℕ → PciBaseAddressType
kind value = if bit_and value 1 == 1 then io_space else memory_space

pub actual_address : ℕ → ℕ
unfolding kind
actual_address value = elim (kind value) [
  | memory_space ↦ bit_and value 0xfff0
  | io_space ↦ bit_and value 0xfffffff0
]

pub data PciClassCode : Type 0 where
  unclassified : PciClassCode
  mass_storage_controller : PciClassCode
  network_controller : PciClassCode
  display_controller : PciClassCode
  multimedia_controller : PciClassCode
  memory_controller : PciClassCode
  bridge : PciClassCode
  simple_communication_controller : PciClassCode
  base_system_peripheral : PciClassCode
  input_device_controller : PciClassCode
  docking_station : PciClassCode
  processor : PciClassCode
  serial_bus_controller : PciClassCode
  wireless_controller : PciClassCode
  intelligent_controller : PciClassCode
  satellite_communication_controller : PciClassCode
  encryption_controller : PciClassCode
  signal_processing_controller : PciClassCode
  processing_accelerator : PciClassCode
  non_essential_instrumentation : PciClassCode
  coprocessor : PciClassCode
  unassigned : PciClassCode
  reserved : ℕ → PciClassCode

pub class_new : ℕ → PciClassCode
class_new id =
    if id == 0x0
    then unclassified
    else if id == 0x1
    then mass_storage_controller
    else if id == 0x2
    then network_controller
    else if id == 0x3
    then display_controller
    else if id == 0x4
    then multimedia_controller
    else if id == 0x5
    then memory_controller
    else if id == 0x6
    then bridge
    else if id == 0x7
    then simple_communication_controller
    else if id == 0x8
    then base_system_peripheral
    else if id == 0x9
    then input_device_controller
    else if id == 0xa
    then docking_station
    else if id == 0xb
    then processor
    else if id == 0xc
    then serial_bus_controller
    else if id == 0xd
    then wireless_controller
    else if id == 0xe
    then intelligent_controller
    else if id == 0xf
    then satellite_communication_controller
    else if id == 0x10
    then encryption_controller
    else if id == 0x11
    then signal_processing_controller
    else if id == 0x12
    then processing_accelerator
    else if id == 0x13
    then non_essential_instrumentation
    else if id == 0x40
    then coprocessor
    else if id == 0xff
    then unassigned
    else reserved id

pub class_value : PciClassCode → ℕ
class_value unclassified = 0x0
class_value mass_storage_controller = 0x1
class_value network_controller = 0x2
class_value display_controller = 0x3
class_value multimedia_controller = 0x4
class_value memory_controller = 0x5
class_value bridge = 0x6
class_value simple_communication_controller = 0x7
class_value base_system_peripheral = 0x8
class_value input_device_controller = 0x9
class_value docking_station = 0xa
class_value processor = 0xb
class_value serial_bus_controller = 0xc
class_value wireless_controller = 0xd
class_value intelligent_controller = 0xe
class_value satellite_communication_controller = 0xf
class_value encryption_controller = 0x10
class_value signal_processing_controller = 0x11
class_value processing_accelerator = 0x12
class_value non_essential_instrumentation = 0x13
class_value coprocessor = 0x40
class_value unassigned = 0xff
class_value (reserved id) = id

pub data PciHeaderType : Type 0 where
  normal pci_to_pci_bridge card_bus_bridge : PciHeaderType
  unknown : ℕ → PciHeaderType

pub header_type_new : ℕ → PciHeaderType
header_type_new id =
    if id == 0x0
    then normal
    else if id == 0x1
    then pci_to_pci_bridge
    else if id == 0x2
    then card_bus_bridge
    else unknown id

pub bar_count : PciHeaderType → ℕ
bar_count normal = 6
bar_count pci_to_pci_bridge = 2
bar_count card_bus_bridge = 0
bar_count (unknown id) = 0
