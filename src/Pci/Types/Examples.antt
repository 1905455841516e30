-- ===== src/Pci/Types/Examples.antt =====
-- Addresses, base addresses and codes at concrete values.
use nocciolo.Base.{arith}
use nocciolo.Pci.Types.{PciAddress}
use nocciolo.Pci.Types.Laws.{IsPciAddress}

abbrev last_function : PciAddress
last_function = record { segment = 0; bus = 255; device = 31; function = 7 }

last_function-IsPciAddress : IsPciAddress last_function
last_function-IsPciAddress = record {
  bus = omega arith;
  device = omega arith;
  function = omega arith;
}
