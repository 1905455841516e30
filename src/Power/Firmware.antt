-- ===== src/Power/Firmware.antt =====
-- The crates `acpi` and `aml`, as a parameter: the interpreter's values, its methods and the FADT.
use nocciolo.Base.{ℕ, Bool, Option, List, String}

-- `core::result::Result`.
pub data Result {ℓ κ} (A : Type ℓ) (E : Type κ) : Type (ℓ ⊔ κ) where
  val : A → Result A E
  err : E → Result A E

-- `acpi::address::GenericAddress`, in an address space of the given type.
pub record GenericAddress (Space : Type 0) : Type 0 where
  pub address_space : Space
  pub address : ℕ

pub record Firmware : Type 1 where
  pub AddressSpace : Type 0
  pub is_system_io : AddressSpace → Bool
  pub AcpiError : Type 0
  pub AmlError : Type 0
  pub AmlName : Type 0
  pub AmlValue : Type 0
  pub AmlContext : Type 0
  pub Fadt : Type 0
  pub from_str : String → Result AmlName AmlError
  pub as_string : AmlName → String
  -- The name in `AmlError::ValueDoesNotExist`, where the error is that.
  pub does_not_exist : AmlError → Option AmlName
  -- `AmlValue::Integer`, and what a value holds where it is an integer or a package.
  pub integer : ℕ → AmlValue
  pub as_integer : AmlValue → Option ℕ
  pub as_package : AmlValue → Option (List AmlValue)
  pub invoke_method :
      AmlContext → AmlName → List (Option AmlValue) → Result AmlValue AmlError × AmlContext
  pub get_by_path : AmlContext → AmlName → Result AmlValue AmlError
  pub pm1a_control_block : Fadt → Result (GenericAddress AddressSpace) AcpiError
  pub pm1b_control_block : Fadt → Result (Option (GenericAddress AddressSpace)) AcpiError
