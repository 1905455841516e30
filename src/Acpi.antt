-- ===== src/Acpi.antt =====
-- kernel/src/device/acpi/mod.rs (`init` and `NoccioloAmlContext::debug`) and
-- kernel/src/device/acpi/rsdp.rs: the tables are found, two of them kept, and the AML context filled.
pub mod Refused
pub mod Examples
use nocciolo.Base.{
  ℕ, Bool, true, false, if◌then◌else◌, Outcome, ok, panic, ◌>>=◌, Option, none, some, List, [], ◌∷◌,
  ◌++◌, map,
}
use nocciolo.Memory.X86.{X86}
use nocciolo.Memory.Mapping.{Paging, PhysicalMapping, map_physical_region, unmap_physical_region}
use nocciolo.Power.Firmware.{Result, val, err}
use nocciolo.Aml.Regions.{Cpu}
use nocciolo.Aml.Tables.{AmlTable, Interpreter, DeviceError, load_acpi, initialize_objects}

-- The crate `acpi`, as a parameter. What it maps through the handler changes the page tables.
pub record AcpiCrate (I : Interpreter) (X : X86) (Ram : Type 0) : Type 1 where
  -- `size_of::<Rsdp>()`.
  pub rsdp_size : ℕ
  pub search_for_on_bios : Paging X → Ram → Outcome (Result PhysicalMapping I.AcpiError × Paging X)
  pub validate : PhysicalMapping → Paging X → Ram → Result (Unit {0}) I.AcpiError
  pub AcpiTables : Type 0
  pub from_validated_rsdp :
      PhysicalMapping → Paging X → Ram → Outcome (Result AcpiTables I.AcpiError × Paging X)
  pub Fadt : Type 0
  pub Madt : Type 0
  pub find_fadt : AcpiTables → Paging X → Ram → Outcome (Result Fadt I.AcpiError × Paging X)
  pub find_madt : AcpiTables → Paging X → Ram → Outcome (Result Madt I.AcpiError × Paging X)
  pub platform_info : AcpiTables → Paging X → Ram → Outcome (Paging X)
  pub PciConfigRegions : Type 0
  pub regions :
      AcpiTables → Paging X → Ram → Outcome (Result PciConfigRegions I.AcpiError × Paging X)
  pub dsdt : AcpiTables → Result AmlTable I.AcpiError
  pub ssdts : AcpiTables → List AmlTable
  -- `AmlContext::new`, with the handler's field.
  pub new_context : Option PciConfigRegions → I.AmlContext
  -- The drop of the tables, which unmaps what they hold.
  pub drop_tables : AcpiTables → Paging X → Outcome (Paging X)

-- `Result::ok`, and whether there is a value.
abbrev pub value_of {ℓ κ} : {A : Type ℓ} {E : Type κ} → Result A E → Option A
value_of (val a) = some a
value_of (err e) = none

-- `expect`.
abbrev pub expect {ℓ κ} : {A : Type ℓ} {E : Type κ} → Result A E → Outcome A
expect (val a) = ok a
expect (err e) = panic

module _ (I : Interpreter) (X : X86) (C : Cpu X) (T : AcpiCrate I X C.Ram) where
  -- `AcpiData`, behind `ACPI_DATA`.
  pub record AcpiData : Type 0 where
    pub madt : Option T.Madt
    pub fadt : Option T.Fadt
    pub aml : Option I.AmlContext

  -- The error is printed.
  pub find_rsdp_on_bios : Paging X → C.Ram → Outcome (Option PhysicalMapping × Paging X)
  find_rsdp_on_bios st ram = do
    (bios_result, st') ← T.search_for_on_bios st ram
    ok (value_of bios_result, st')

  pub find_rsdp_on_uefi : ℕ → Paging X → Outcome (Option PhysicalMapping × Paging X)
  find_rsdp_on_uefi addr st = do
    (rsdp, st') ← map_physical_region X addr T.rsdp_size st
    ok (some rsdp, st')

  -- On the address that the boot loader found, if it found one.
  pub find_rsdp : Option ℕ → Paging X → C.Ram → Outcome (Option PhysicalMapping × Paging X)
  unfolding find_rsdp_on_bios find_rsdp_on_uefi
  find_rsdp (some addr) st ram = find_rsdp_on_uefi addr st
  find_rsdp none st ram = find_rsdp_on_bios st ram

  pub keep_fadt : Result T.Fadt I.AcpiError → AcpiData → AcpiData
  keep_fadt (val fadt) acpi_data = record acpi_data { fadt = some fadt }
  keep_fadt (err e) acpi_data = acpi_data

  pub keep_madt : Result T.Madt I.AcpiError → AcpiData → AcpiData
  keep_madt (val madt) acpi_data = record acpi_data { madt = some madt }
  keep_madt (err e) acpi_data = acpi_data

  -- The context, filled from the tables, with its objects initialized. What AML code left in memory is
  -- not read again here.
  pub fill_context :
      T.AcpiTables → I.AmlContext → Paging X → C.Ram → Outcome (I.AmlContext × Paging X)
  fill_context tables context st ram = do
    loaded ← load_acpi I X C (T.dsdt tables) (T.ssdts tables) context st ram
    _ ← expect loaded.result
    ready ← initialize_objects I X C loaded.context loaded.paging loaded.memory
    _ ← expect ready.result
    ok (ready.context, ready.paging)

  -- After `from_validated_rsdp`.
  pub use_tables :
      Result T.AcpiTables I.AcpiError → AcpiData → Paging X → C.Ram → Outcome (AcpiData × Paging X)
  unfolding keep_fadt keep_madt fill_context
  use_tables (err e) acpi_data st ram = ok (acpi_data, st)
  use_tables (val tables) acpi_data st ram = do
    (fadt, st1) ← T.find_fadt tables st ram
    (madt, st2) ← T.find_madt tables st1 ram
    st3 ← T.platform_info tables st2 ram
    (regions, st4) ← T.regions tables st3 ram
    (context, st5) ← fill_context tables (T.new_context (value_of regions)) st4 ram
    let kept = keep_madt madt (keep_fadt fadt acpi_data)
    st6 ← T.drop_tables tables st5
    ok (record kept { aml = some context }, st6)

  -- After the checksum. Where it is wrong, the mapping is dropped, and so unmapped.
  pub use_valid :
      Result (Unit {0}) I.AcpiError
      → PhysicalMapping
      → AcpiData
      → Paging X
      → C.Ram
      → Outcome (AcpiData × Paging X)
  unfolding use_tables
  use_valid (err e) rsdp acpi_data st ram = do
    st' ← unmap_physical_region X rsdp st
    ok (acpi_data, st')
  use_valid (val _) rsdp acpi_data st ram = do
    (tables, st') ← T.from_validated_rsdp rsdp st ram
    use_tables tables acpi_data st' ram

  -- After the search.
  pub use_rsdp :
      Option PhysicalMapping → AcpiData → Paging X → C.Ram → Outcome (AcpiData × Paging X)
  unfolding use_valid
  use_rsdp none acpi_data st ram = ok (acpi_data, st)
  use_rsdp (some rsdp) acpi_data st ram = use_valid (T.validate rsdp st ram) rsdp acpi_data st ram

  pub init : Option ℕ → AcpiData → Paging X → C.Ram → Outcome (AcpiData × Paging X)
  unfolding find_rsdp use_rsdp
  init rsdp_addr acpi_data st ram = do
    (rsdp, st') ← find_rsdp rsdp_addr st ram
    use_rsdp rsdp acpi_data st' ram

-- The namespace of the crate `aml`, as a parameter: its levels as `traverse` visits them.
pub record Namespace : Type 1 where
  pub AmlName : Type 0
  pub NameSeg : Type 0
  pub AmlHandle : Type 0
  pub levels : List (AmlName × List (NameSeg × AmlHandle))
  -- Whether `get` yields a device.
  pub is_device : AmlHandle → Bool

module _ (N : Namespace) where
  abbrev pub Entry : Type 0
  Entry = N.AmlName × N.NameSeg × N.AmlHandle

  -- The entries that the closure collects.
  pub collect : List (N.AmlName × List (N.NameSeg × N.AmlHandle)) → List Entry
  collect [] = []
  collect ((name, values) ∷ levels) = map (λ v. (name, v.0, v.1)) values ++ collect levels

  -- The loop over the collected entries that logs the devices.
  pub devices : List Entry → List (N.AmlName × N.NameSeg)
  devices [] = []
  devices ((name, seg, handle) ∷ entries) =
      let rest = devices entries in if N.is_device handle then (name, seg) ∷ rest else rest

  -- `debug`: the entries that are traced, and the devices that are logged.
  pub debug : List Entry × List (N.AmlName × N.NameSeg)
  unfolding collect devices
  debug = let entries = collect N.levels in (entries, devices entries)
