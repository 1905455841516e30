-- ===== src/Pci/Config/Examples.antt =====
-- Runs on a host bridge that is a latch above a function, and on a bus with one device.
use nocciolo.Base.{
  ℕ, map, length, [], ◌∷◌, ◌++◌, ◌+◌, ◌-◌, ◌^◌, ◌≡◌, refl, ◌==◌, leb, if◌then◌else◌, arith,
}
use nocciolo.Pci.Types.{PciAddress}
use nocciolo.Pci.Types.Laws.{IsPciAddress}
use nocciolo.Pci.Config.{IoPorts, Mechanism, local_read_word, local_write_word}
use nocciolo.Pci.Config.Ports.{IsHostBridge, local_read_word-space, local_write_word-lost}
use nocciolo.Pci.Config.Inventory.{init, all_lines, found_line}
use nocciolo.Pci.Config.Inventory.Found.{described, init-devices}
use nocciolo.Pci.Config.Enumeration.{Space, Reads, devices_from}

abbrev bridge : IoPorts
bridge = record {
  State = ℕ × (ℕ → ℕ);
  write_address = λ s a. (a, s.1);
  read_data = λ s. (s.1 (s.0 - 2 ^ 31), s);
  write_data =
      λ s v. if leb (2 ^ 31) s.0 then (s.0, λ n. if n == s.0 - 2 ^ 31 then v else s.1 n) else s;
}

abbrev bridge-IsHostBridge : IsHostBridge bridge
bridge-IsHostBridge = record {
  latch = λ s. s.0;
  space = λ s. s.1;
  latch-write_address = λ s a. refl;
  space-write_address = λ s a. refl;
  read_data-space = λ s h. refl;
  latch-read_data = λ s. refl;
  space-read_data = λ s. refl;
  write_data-space = λ s v h. ground arith;
  write_data_disabled = λ s v h. ground arith;
}

abbrev blank : ℕ × (ℕ → ℕ)
blank = (0, λ n. 0x12378086)

abbrev network_card : PciAddress
network_card = record { segment = 0; bus = 0; device = 3; function = 0 }

network_card-IsPciAddress : IsPciAddress network_card
network_card-IsPciAddress = record {
  bus = omega arith;
  device = omega arith;
  function = omega arith;
}

local_read_word-space_example :
    ((local_read_word bridge blank network_card 0x2).0 ≡ 0x1237)
    × (bridge-IsHostBridge.space (local_read_word bridge blank network_card 0x2).1
        ≡ (λ n. 0x12378086))
local_read_word-space_example =
    local_read_word-space bridge bridge-IsHostBridge blank network_card 0x2
      network_card-IsPciAddress

local_write_word-lost_example :
    bridge-IsHostBridge.space (local_write_word bridge blank network_card 0x4 0x6)
    ≡ (λ n. 0x12378086)
local_write_word-lost_example =
    local_write_word-lost bridge bridge-IsHostBridge blank network_card 0x4 0x6
      network_card-IsPciAddress

abbrev one_card : Space
one_card = λ a o. if a.device == 3 then 0x8086 + o else 0xffff

abbrev card_bus : Mechanism
card_bus = record {
  State = Unit {0};
  read_word = λ s a o. (one_card a o, s);
  read_dword = λ s a o. (one_card a o, s);
  write_word = λ s a o v. s;
}

card_bus-Reads : Reads card_bus one_card
card_bus-Reads s a o = refl

init-devices_example :
    init card_bus tt
    ≡ all_lines card_bus (map (described one_card) (devices_from one_card 0 32 0))
      ++ (found_line (length (devices_from one_card 0 32 0)) ∷ [])
init-devices_example = init-devices card_bus one_card card_bus-Reads tt
