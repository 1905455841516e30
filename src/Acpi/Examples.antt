-- ===== src/Acpi/Examples.antt =====
-- A machine whose BIOS has the tables.
use nocciolo.Base.{ℕ, ◌%◌, ◌≡◌, ok, refl, Option, none, some, [], ◌∷◌, arith}
use nocciolo.Memory.Mapping.{Paging, PhysicalMapping}
use nocciolo.Memory.Machine.{
  machine, machine-IsX86, machine-IsPaging, ready_state, ready_state-IsReady,
}
use nocciolo.Power.Firmware.{val, err}
use nocciolo.Aml.Regions.Processor.{cpu}
use nocciolo.Aml.Requests.{serve}
use nocciolo.Aml.Tables.{initialize_objects, in_region}
use nocciolo.Aml.Tables.Loading.Examples.{interpreter, dsdt, load_dsdt}
use nocciolo.Acpi.{
  AcpiCrate, AcpiData, init, find_rsdp, find_rsdp_on_bios, use_rsdp, use_valid, use_tables,
  fill_context, keep_fadt, keep_madt,
}
use nocciolo.Acpi.Refused.{init-refused}
use nocciolo.Memory.Mapping.Region.{IsReady}

abbrev pub rsdp : PhysicalMapping
rsdp = record {
  physical_start = 0xE0000;
  virtual_start = 0x1000000000;
  region_length = 36;
  mapped_length = 4096;
}

-- The FADT is there, and the MADT is not.
abbrev pub acpi_crate : AcpiCrate interpreter machine (ℕ → ℕ)
acpi_crate = record {
  rsdp_size = 36;
  search_for_on_bios = λ st ram. ok (val rsdp, st);
  validate = λ found st ram. val tt;
  AcpiTables = Unit;
  from_validated_rsdp = λ found st ram. ok (val tt, st);
  Fadt = ℕ;
  Madt = ℕ;
  find_fadt = λ tables st ram. ok (val 7, st);
  find_madt = λ tables st ram. ok (err tt, st);
  platform_info = λ tables st ram. ok st;
  PciConfigRegions = Unit;
  regions = λ tables st ram. ok (err tt, st);
  dsdt = λ tables. val dsdt;
  ssdts = λ tables. [];
  new_context = λ regions. [];
  drop_tables = λ tables st. ok st;
}

abbrev pub nothing : AcpiData interpreter machine cpu acpi_crate
nothing = record { madt = none; fadt = none; aml = none }

abbrev found : AcpiData interpreter machine cpu acpi_crate
found = record { madt = none; fadt = some 7; aml = some (5 ∷ 1 ∷ []) }

init_run :
    init interpreter machine cpu acpi_crate none nothing ready_state (λ a. a % 256)
    ≡ ok (found, load_dsdt.0)
unfolding init find_rsdp find_rsdp_on_bios use_rsdp use_valid use_tables fill_context keep_fadt
    keep_madt initialize_objects in_region serve
init_run = rw load_dsdt.1 refl

-- The same crate, with a checksum that is wrong.
abbrev refusing : AcpiCrate interpreter machine (ℕ → ℕ)
refusing = record acpi_crate { validate = λ found st ram. err tt }

init-refused_example :
    (st' : Paging machine) × (m' : ℕ → Option ℕ) × (init interpreter machine cpu refusing
        (some 0xE0000)
        (record { madt = none; fadt = none; aml = none })
        ready_state
        (λ a. a % 256)
      ≡ ok (record { madt = none; fadt = none; aml = none }, st'))
    × IsReady machine machine-IsX86 machine-IsPaging 0x444444440000 4 st' m'
    × ((q : ℕ) → q % 4096 ≡ 0 → m' q ≡ none)
init-refused_example =
    init-refused interpreter machine machine-IsX86 machine-IsPaging cpu refusing 0x444444440000
      0xE0000 4 (record { madt = none; fadt = none; aml = none }) ready_state (λ q. none)
      (λ a. a % 256) (omega arith) (omega arith) (omega arith) (omega arith) ready_state-IsReady
      (λ found st mapped. (tt, refl))
