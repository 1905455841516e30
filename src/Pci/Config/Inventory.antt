-- ===== src/Pci/Config/Inventory.antt =====
-- kernel/src/device/pci/mod.rs, `init`: the devices that the enumeration yields are logged and
-- counted; and kernel/src/device/net/intel_8254x.rs, which sets one of them up.
pub mod Found
use nocciolo.Base.{
  ℕ, zero, suc, Outcome, ok, panic, ◌>>=◌, unwrap, Option, none, some, List, [], ◌∷◌, ◌++◌, length,
  String,
}
use nocciolo.Pci.Types.{PciAddress, PciClassCode}
use nocciolo.Pci.Names.{subclass_name, vendor_name, device_name}
use nocciolo.Pci.Config.{
  Mechanism, DeviceEnumerator, Item, class_code, subclass, next, enumerate, enable_bus_mastering,
  base_address,
}

-- A logged line, before it is formatted.
pub data InfoLine : Type 0 where
  device_line : ℕ → ℕ → PciAddress → InfoLine
  class_line : PciClassCode → ℕ → String → InfoLine
  name_line : String → String → InfoLine
  found_line : ℕ → InfoLine

-- `unwrap_or_default`.
pub or_default : Option String → String
or_default none = ""
or_default (some name) = name

pub name_lines : Option String → ℕ → ℕ → List InfoLine
unfolding or_default
name_lines none vendor_id device_id = []
name_lines (some vendor) vendor_id device_id =
    name_line vendor (or_default (device_name device_id vendor_id)) ∷ []

-- The lines of one device.
pub device_lines : PciAddress × ℕ × ℕ → PciClassCode → ℕ → List InfoLine
unfolding name_lines or_default
device_lines (addr, vendor_id, device_id) class sub =
    device_line vendor_id device_id addr
    ∷ class_line class sub (or_default (subclass_name class sub))
    ∷ name_lines (vendor_name vendor_id) vendor_id device_id

module _ (M : Mechanism) where
  -- What the body of the loop logs, with the state of the mechanism after its reads.
  pub log_device : Item M → M.State → List InfoLine × M.State
  unfolding device_lines
  log_device item s =
      let (class, s1) = class_code M s item.0 in
      let (sub, s2) = subclass M s1 item.0 in (device_lines item class sub, s2)

  -- The loop, with `fuel` rounds at most: the lines of each device.
  pub survey : ℕ → DeviceEnumerator M → List (List InfoLine)
  unfolding log_device
  survey zero e = []
  survey (suc fuel) e =
      let r = next M e in
      elim r.0 [
        | none ↦ []
        | some item ↦
            let (lines, s) = log_device item r.1.state in
            lines ∷ survey fuel (record r.1 { state = s })
      ]

  pub all_lines : List (List InfoLine) → List InfoLine
  all_lines [] = []
  all_lines (lines ∷ rest) = lines ++ all_lines rest

  pub init : M.State → List InfoLine
  unfolding survey all_lines
  init s =
      let devices = survey 33 (enumerate M s) in
      all_lines devices ++ (found_line (length devices) ∷ [])

  -- `Intel8254xDevice::initialize`, on the device's address: the base address is `expect`ed.
  pub initialize : PciAddress → M.State → Outcome (ℕ × M.State)
  initialize pci_addr s =
      let (bar0, s') = base_address M (enable_bus_mastering M s pci_addr) pci_addr 0 in
      unwrap bar0 >>= λ address. ok (address, s')
