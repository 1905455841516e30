-- ===== src/Apic/Local/Examples.antt =====
-- Accesses to a local APIC that stands behind one memory cell.
use nocciolo.Base.{ℕ, arith}
use nocciolo.Apic.Local.{LocalApic, Memory, new_masked_timer, LocalVectorTableRegister}
use nocciolo.Apic.Local.Access.{IsMapped}

abbrev cell : Memory ℕ
cell = record { load = λ a s. (s, s); store = λ a v s. v }

abbrev registers : LocalApic
registers = record { virtual_start = 0x10900; mapped_length = 0x800 }

registers-IsMapped : IsMapped registers
registers-IsMapped = record { high = omega arith; long = omega arith; fits = omega arith }

abbrev timer : LocalVectorTableRegister
timer = record new_masked_timer { vector = 0x20 }
