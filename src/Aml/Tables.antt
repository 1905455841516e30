-- ===== src/Aml/Tables.antt =====
-- kernel/src/device/acpi/mod.rs, `NoccioloAmlContext`, and kernel/src/device/mod.rs: the AML tables are
-- given to the interpreter, one after the other.
pub mod Loading
use nocciolo.Base.{ℕ, Outcome, ok, ◌>>=◌, Option, none, some, List, [], ◌∷◌, String}
use nocciolo.Memory.X86.{X86}
use nocciolo.Memory.Mapping.{Paging, map_physical_region, unmap_physical_region}
use nocciolo.Power.Firmware.{Result, val, err}
use nocciolo.Aml.Regions.{Cpu}
use nocciolo.Aml.Requests.{Requests, serve}

-- `AmlTable` of the crate `acpi`.
pub record AmlTable : Type 0 where
  pub address : ℕ
  pub length : ℕ

-- The interpreter of the crate `aml`, as a parameter: it is given so many bytes, the lowest first, and
-- calls the handler while it runs.
pub record Interpreter : Type 1 where
  pub AcpiError : Type 0
  pub AmlError : Type 0
  pub AmlContext : Type 0
  pub parse_table : AmlContext → ℕ → ℕ → Requests (Result (Unit {0}) AmlError × AmlContext)
  pub initialize_objects : AmlContext → Requests (Result (Unit {0}) AmlError × AmlContext)

module _ (I : Interpreter) where
  pub data DeviceErrorKind : Type 0 where
    acpi_kind : I.AcpiError → DeviceErrorKind
    aml_kind : I.AmlError → DeviceErrorKind

  pub record DeviceError : Type 0 where
    pub kind : DeviceErrorKind
    pub region : String

  pub with_region : DeviceError → String → DeviceError
  with_region this region = record this { region = region }

  pub acpi : I.AcpiError → DeviceError
  acpi error = record { kind = acpi_kind error; region = "(unknown)" }

  pub aml : I.AmlError → DeviceError
  aml error = record { kind = aml_kind error; region = "(unknown)" }

  -- `map_err` with the name of the step.
  unfoldable pub in_region : Result (Unit {0}) I.AmlError → String → Result (Unit {0}) DeviceError
  unfolding aml with_region
  in_region (val _) region = val tt
  in_region (err e) region = err (with_region (aml e) region)

  -- `tables.dsdt()`, with the error named.
  pub get_dsdt : Result AmlTable I.AcpiError → Result AmlTable DeviceError
  unfolding acpi with_region
  get_dsdt (val dsdt) = val dsdt
  get_dsdt (err e) = err (with_region (acpi e) "get dsdt")

  module _ (X : X86) (C : Cpu X) where
    -- What a step left: its result, the interpreter, the page tables and memory.
    pub record Loaded : Type 0 where
      pub result : Result (Unit {0}) DeviceError
      pub context : I.AmlContext
      pub paging : Paging X
      pub memory : C.Ram

    unfoldable pub initialize_objects : I.AmlContext → Paging X → C.Ram → Outcome Loaded
    unfolding in_region
    initialize_objects context st ram = do
      ((result, context'), st', ram') ← serve X C (I.initialize_objects context) st ram
      ok (record {
        result = in_region result "initialize_objects";
        context = context';
        paging = st';
        memory = ram';
      })

    -- The mapping is dropped, and so unmapped, when the interpreter is done.
    pub parse_table : AmlTable → I.AmlContext → Paging X → C.Ram → Outcome Loaded
    unfolding in_region
    parse_table table context st ram = do
      (mapping, st') ← map_physical_region X table.address table.length st
      let size = mapping.region_length
      let bytes = C.load st' size mapping.virtual_start ram
      ((result, context'), st'', ram') ← serve X C (I.parse_table context size bytes) st' ram
      st3 ← unmap_physical_region X mapping st''
      ok (record {
        result = in_region result "parse_table";
        context = context';
        paging = st3;
        memory = ram';
      })

    -- The rest of the tables, unless a table was in error.
    pub go_on :
        (I.AmlContext → Paging X → C.Ram → Outcome Loaded)
        → Result (Unit {0}) DeviceError
        → Loaded
        → Outcome Loaded
    go_on rest (err e) loaded = ok loaded
    go_on rest (val _) loaded = rest loaded.context loaded.paging loaded.memory

    -- The tables in turn, up to the first error.
    pub parse_tables : List AmlTable → I.AmlContext → Paging X → C.Ram → Outcome Loaded
    unfolding parse_table go_on
    parse_tables [] context st ram =
        ok (record { result = val tt; context = context; paging = st; memory = ram })
    parse_tables (table ∷ tables) context st ram =
        let rest : I.AmlContext → Paging X → C.Ram → Outcome Loaded =
          λ context' st' ram'. parse_tables tables context' st' ram' in
        parse_table table context st ram >>= λ loaded. go_on rest loaded.result loaded

    -- After `get_dsdt`: the DSDT, and then the SSDTs.
    pub load_from :
        Result AmlTable DeviceError
        → List AmlTable
        → I.AmlContext
        → Paging X
        → C.Ram
        → Outcome Loaded
    unfolding parse_tables
    load_from (err e) ssdts context st ram =
        ok (record { result = err e; context = context; paging = st; memory = ram })
    load_from (val dsdt) ssdts context st ram = parse_tables (dsdt ∷ ssdts) context st ram

    pub load_acpi :
        Result AmlTable I.AcpiError
        → List AmlTable
        → I.AmlContext
        → Paging X
        → C.Ram
        → Outcome Loaded
    unfolding get_dsdt load_from
    load_acpi dsdt ssdts context st ram = load_from (get_dsdt dsdt) ssdts context st ram
