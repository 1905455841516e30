-- ===== src/Apic/Io/Table/Examples.antt =====
-- A device whose registers all read zero but for what was written last.
use nocciolo.Base.{ℕ, ◌^◌, ◌%◌, ◌<◌, ◌≤◌, ◌≡◌, ◌==◌, refl, if◌then◌else◌, ok, arith, false}
use nocciolo.Apic.Io.{
  IoApicRedirectionEntry, fixed, logical, idle, high_active, edge_sensitive, masked,
  logical_set_of_processors, delivery_mode_of,
}
use nocciolo.Apic.Io.Table.{Window, IoApic, map_all_to_spurious_vectors}
use nocciolo.Apic.Io.Table.Mapped.{StoresEntries, HasMode, MappedFrom, low, map_all-MappedFrom}
use nocciolo.Apic.Io.Table.Registers.{IsRegisterFile}

abbrev pub device : Window (ℕ × (ℕ → ℕ))
device = record {
  select = λ n s. (n, s.1);
  read = λ s. (s.1 s.0 % 2 ^ 32, s);
  write = λ v s. (s.0, λ n. if n == s.0 then v else s.1 n);
}

abbrev pub device-IsRegisterFile : IsRegisterFile device
device-IsRegisterFile = record {
  selected = λ s. s.0;
  register = λ s n. s.1 n % 2 ^ 32;
  register-lt = λ s n. omega arith;
  selected-select = λ n s. refl;
  register-select = λ n s m. refl;
  read-register = λ s. refl;
  register-read = λ s m. refl;
  register-write = λ v s m h. ground arith;
}

abbrev pub zeros : ℕ × (ℕ → ℕ)
zeros = (0, λ n. 0)

abbrev pub io_apic : IoApic
io_apic = record { redirection_entry_count = 24 }

abbrev masked_entry : IoApicRedirectionEntry
masked_entry = record {
  vector = 0x27;
  delivery_mode = fixed;
  destination_mode = logical;
  delivery_status = idle;
  polarity = high_active;
  remote_irr = false;
  trigger_mode = edge_sensitive;
  mask = masked;
  destination = logical_set_of_processors 1;
}

pub device-StoresEntries : StoresEntries device device-IsRegisterFile
device-StoresEntries = record { stores = λ v s index at few. ground arith }

pub zeros-HasMode :
    (i : ℕ)
    → i < io_apic.redirection_entry_count
    → HasMode (low device device-IsRegisterFile device-StoresEntries zeros i)
unfolding delivery_mode_of
zeros-HasMode i inside = (fixed, refl)

pub few_entries : io_apic.redirection_entry_count ≤ 120
few_entries = omega arith

map_all-MappedFrom_example :
    (s' : ℕ × (ℕ → ℕ)) × (map_all_to_spurious_vectors device io_apic zeros ≡ ok s')
    × MappedFrom device device-IsRegisterFile device-StoresEntries io_apic few_entries 0 zeros s'
map_all-MappedFrom_example =
    map_all-MappedFrom device device-IsRegisterFile device-StoresEntries io_apic few_entries zeros
      zeros-HasMode
