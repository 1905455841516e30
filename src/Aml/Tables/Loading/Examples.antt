-- ===== src/Aml/Tables/Loading/Examples.antt =====
-- A table from which the interpreter keeps the first byte, and a byte of memory that its code reads.
use nocciolo.Base.{ℕ, ◌%◌, ◌≡◌, ◌==◌, if◌then◌else◌, ok, refl, List, [], ◌∷◌, none, inl, arith}
use nocciolo.Power.Firmware.{val, err}
use nocciolo.Memory.Mapping.{Paging}
use nocciolo.Memory.Machine.{
  machine, machine-IsX86, machine-IsPaging, ready_state, ready_state-IsReady,
}
use nocciolo.Aml.Regions.Contents.{Restored}
use nocciolo.Aml.Regions.Processor.{cpu, cpu-IsCpu}
use nocciolo.Aml.Requests.{finished, reads}
use nocciolo.Aml.Requests.Served.{Within, answered}
use nocciolo.Aml.Tables.{AmlTable, Interpreter, load_acpi, in_region}
use nocciolo.Aml.Tables.Loading.{Asks, fold_tables, fold_table, fold_next, load_acpi-contents}

-- A table that starts with a zero is in error.
abbrev pub interpreter : Interpreter
interpreter = record {
  AcpiError = Unit;
  AmlError = ℕ;
  AmlContext = List ℕ;
  parse_table = λ context size value.
      if value % 256 == 0
      then finished (err size, context)
      else reads 1 0x6005 (λ byte. finished (val tt, byte ∷ value % 256 ∷ context));
  initialize_objects = λ context. finished (val tt, context);
}

abbrev pub dsdt : AmlTable
dsdt = record { address = 0x3001; length = 36 }

dsdt-Asks :
    Asks interpreter machine machine-IsX86 machine-IsPaging cpu cpu-IsCpu 1
      (dsdt ∷ [])
      []
      (λ a. a % 256)
unfolding Asks Within cpu-IsCpu
dsdt-Asks = (((inl refl, refl, omega arith), λ value. tt), tt)

load_acpi-contents_example :
    (st' : Paging machine) × (load_acpi interpreter machine cpu
        (val dsdt)
        []
        []
        ready_state
        (λ a. a % 256)
      ≡ ok (record { result = val tt; context = 5 ∷ 1 ∷ []; paging = st'; memory = λ a. a % 256 }))
    × Restored machine machine-IsX86 machine-IsPaging cpu cpu-IsCpu 0x444444440000 1 (λ q. none) st'
unfolding fold_tables fold_table fold_next answered cpu-IsCpu in_region
load_acpi-contents_example =
    load_acpi-contents interpreter machine machine-IsX86 machine-IsPaging cpu cpu-IsCpu
      0x444444440000 1 1 dsdt [] [] ready_state (λ q. none) (λ a. a % 256)
      ((omega arith, omega arith), tt) dsdt-Asks (omega arith) (omega arith) ready_state-IsReady

pub load_dsdt :
    (st' : Paging machine) × (load_acpi interpreter machine cpu
        (val dsdt)
        []
        []
        ready_state
        (λ a. a % 256)
      ≡ ok (record { result = val tt; context = 5 ∷ 1 ∷ []; paging = st'; memory = λ a. a % 256 }))
unfolding fold_tables fold_table fold_next answered cpu-IsCpu in_region
load_dsdt =
    let (st', loads, restored) =
      load_acpi-contents interpreter machine machine-IsX86 machine-IsPaging cpu cpu-IsCpu
        0x444444440000 1 1 dsdt [] [] ready_state (λ q. none) (λ a. a % 256)
        ((omega arith, omega arith), tt) dsdt-Asks (omega arith) (omega arith)
        ready_state-IsReady in
    (st', loads)
