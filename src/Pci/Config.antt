-- ===== src/Pci/Config.antt =====
-- kernel/src/device/pci/config.rs: the configuration space, through the local bus ports and through
-- any mechanism of the trait, and the enumeration of devices.
--
-- The ports 0xCF8 and 0xCFC stand for hardware: they are a parameter, and so is the state behind them.
mod Examples
pub mod Ports
pub mod Enumeration
pub mod Inventory
use nocciolo.Base.{
  ℕ, zero, suc, ◌+◌, ◌*◌, ◌/◌, ◌%◌, ◌^◌, bit_and, bit_or, cast, ltb, ◌==◌, if◌then◌else◌, Bool,
  true, false, Option, none, some, List, [], ◌∷◌,
}
use nocciolo.Pci.Types.{
  PciAddress, create_local_bus_address, PciClassCode, class_new, PciHeaderType, header_type_new,
  bar_count,
}
use nocciolo.Pci.Names.{vendor_invalid}

-- The two 32-bit ports of `PciIOPorts`.
pub record IoPorts : Type 1 where
  pub State : Type 0
  pub write_address : State → ℕ → State
  pub read_data : State → ℕ × State
  pub write_data : State → ℕ → State

-- `PciLocalBusConfigurationSpace`.
module _ (P : IoPorts) where
  open P use {State, write_address, read_data, write_data}

  pub local_read_dword : State → PciAddress → ℕ → ℕ × State
  local_read_dword s addr offset =
      read_data (write_address s (create_local_bus_address addr offset true))

  pub local_read_word : State → PciAddress → ℕ → ℕ × State
  unfolding local_read_dword
  local_read_word s addr offset =
      let (value, s') = local_read_dword s addr offset in
      (cast 16 (bit_and (value / 2 ^ (bit_and offset 2 * 8)) 0xffff), s')

  pub local_write_word : State → PciAddress → ℕ → ℕ → State
  local_write_word s addr offset value =
      let selected = write_address s (create_local_bus_address addr offset false) in
      let (old, s') = read_data selected in
      write_data s' (
        if bit_and offset 2 == 0
        then bit_or value (bit_and old 0xffff0000)
        else bit_or (value * 2 ^ 16) (bit_and old 0xffff))

-- The trait `ConfigurationSpaceMechanism`: what an implementation gives, as functions of its state.
pub record Mechanism : Type 1 where
  pub State : Type 0
  pub read_word : State → PciAddress → ℕ → ℕ × State
  pub read_dword : State → PciAddress → ℕ → ℕ × State
  pub write_word : State → PciAddress → ℕ → ℕ → State

abbrev pub local_bus : IoPorts → Mechanism
local_bus P = record {
  State = P.State;
  read_word = local_read_word P;
  read_dword = local_read_dword P;
  write_word = local_write_word P;
}

-- The methods that the trait gives.
module _ (M : Mechanism) where
  open M use {State, read_word, read_dword, write_word}

  pub vendor_id : State → PciAddress → ℕ × State
  vendor_id s addr = read_word s addr 0x0

  pub device_id : State → PciAddress → ℕ × State
  device_id s addr = read_word s addr 0x2

  pub command : State → PciAddress → ℕ × State
  command s addr = read_word s addr 0x4

  pub write_command : State → PciAddress → ℕ → State
  write_command s addr value = write_word s addr 0x4 value

  pub status : State → PciAddress → ℕ × State
  status s addr = read_word s addr 0x6

  pub revision_id : State → PciAddress → ℕ × State
  revision_id s addr = let (w, s') = read_word s addr 0x8 in (bit_and w 0xff, s')

  pub prog_if : State → PciAddress → ℕ × State
  prog_if s addr = let (w, s') = read_word s addr 0x8 in (cast 8 (w / 2 ^ 8), s')

  pub subclass : State → PciAddress → ℕ × State
  subclass s addr = let (w, s') = read_word s addr 0xa in (bit_and w 0xff, s')

  pub class_code : State → PciAddress → PciClassCode × State
  class_code s addr = let (w, s') = read_word s addr 0xa in (class_new (cast 8 (w / 2 ^ 8)), s')

  pub enable_bus_mastering : State → PciAddress → State
  unfolding command write_command
  enable_bus_mastering s addr =
      let (c, s') = command s addr in write_command s' addr (bit_or c (2 ^ 2))

  pub header_type : State → PciAddress → PciHeaderType × State
  header_type s addr = let (w, s') = read_word s addr 0xe in (header_type_new (cast 8 w), s')

  pub base_address : State → PciAddress → ℕ → Option ℕ × State
  unfolding header_type
  base_address s addr idx =
      let (ty, s') = header_type s addr in
      if ltb idx (bar_count ty)
      then (let (v, s'') = read_dword s' addr (0x10 + cast 16 (idx * 4)) in (some v, s''))
      else (none, s')

  -- What the enumeration yields: an address, a vendor and a device.
  abbrev pub Item : Type 0
  Item = PciAddress × ℕ × ℕ

  -- The fields of `DeviceEnumerator`, with the state of the mechanism.
  pub record DeviceEnumerator : Type 0 where
    pub bus : ℕ
    pub device : ℕ
    pub state : State

  -- The inner loop of `next`: the devices from `device` on, with `fuel` rounds at most.
  scan_devices : ℕ → DeviceEnumerator → Option Item × DeviceEnumerator
  unfolding vendor_id device_id
  scan_devices zero e = (none, e)
  scan_devices (suc fuel) e =
      let addr : PciAddress = record {
        segment = 0;
        bus = cast 8 e.bus;
        device = e.device;
        function = 0;
      } in
      let (vendor, s) = vendor_id e.state addr in
      let (device, s') = device_id s addr in
      let more = scan_devices fuel (record e { device = e.device + 1; state = s }) in
      if ltb e.device 32
      then (if vendor == vendor_invalid
          then more
          else (some (addr, vendor, device), record e { device = e.device + 1; state = s' }))
      else (none, e)

  next_bus : DeviceEnumerator → DeviceEnumerator
  next_bus e = record e { bus = e.bus + 1 }

  -- The outer loop: the buses from `bus` on. A device that is found ends both loops.
  scan_buses : ℕ → DeviceEnumerator → Option Item × DeviceEnumerator
  scan_buses zero e = (none, e)
  scan_buses (suc fuel) e =
      let r = scan_devices 33 e in
      let more = scan_buses fuel (next_bus r.1) in
      if ltb e.bus 256 then (elim r.0 [ some item ↦ (some item, r.1) | none ↦ more ]) else (none, e)

  pub next : DeviceEnumerator → Option Item × DeviceEnumerator
  unfolding scan_buses scan_devices next_bus
  next e = scan_buses 257 e

  pub enumerate : State → DeviceEnumerator
  enumerate s = record { bus = 0; device = 0; state = s }

  -- A `for` loop over the enumeration, with `fuel` rounds at most: the items, in order.
  pub items : ℕ → DeviceEnumerator → List Item
  items zero e = []
  items (suc fuel) e =
      let r = next e in
      let more = items fuel r.1 in elim r.0 [ some item ↦ item ∷ more | none ↦ [] ]
