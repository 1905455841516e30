-- ===== src/Power/Shutdown/Examples.antt =====
-- A shutdown on firmware without `_PTS` whose S5 package holds the sleep type 5.
use nocciolo.Base.{
  ℕ, ◌/◌, ◌%◌, ◌^◌, ◌≡◌, refl, ap, sym, ◌∙◌, Bool, true, none, some, List, [], ◌∷◌, String,
  get_elem?, arith,
}
use nocciolo.Power.Firmware.{val, err, Firmware}
use nocciolo.Power.Methods.{wrote}
use nocciolo.Power.Shutdown.{look_up, Machine, perform_acpi_sleep}
use nocciolo.Power.Shutdown.Sleep.{IsFirmware, perform_acpi_sleep-field}

data Value : Type 0 where
  number : ℕ → Value
  numbers_of : List ℕ → Value

abbrev numbers : List ℕ → List Value
numbers [] = []
numbers (n ∷ ns) = number n ∷ numbers ns

-- The interpreter's state says whether `_PTS` fails; its errors are names.
abbrev firmware : Firmware
firmware = record {
  AddressSpace = Bool;
  is_system_io = λ io. io;
  AcpiError = Unit;
  AmlError = String;
  AmlName = String;
  AmlValue = Value;
  AmlContext = String;
  Fadt = Unit;
  from_str = λ name. val name;
  as_string = λ name. name;
  does_not_exist = λ name. some name;
  integer = number;
  as_integer = λ v. elim v [ number n ↦ some n | numbers_of ns ↦ none ];
  as_package = λ v. elim v [ number n ↦ none | numbers_of ns ↦ some (numbers ns) ];
  invoke_method = λ missing name args. (err missing, missing);
  get_by_path = λ missing name. val (numbers_of (5 ∷ 0 ∷ []));
  pm1a_control_block = λ fadt. val (record { address_space = true; address = 0xB004 });
  pm1b_control_block = λ fadt. val none;
}

firmware-IsFirmware : IsFirmware firmware
unfolding look_up
firmware-IsFirmware = record {
  pts = "\\_PTS";
  wak = "\\_WAK";
  pts_is = refl;
  wak_is = refl;
  s5_package = λ aml v vs found is.
      let is_s5 : numbers_of (5 ∷ 0 ∷ []) ≡ v = cc in
      let holds : some (numbers (5 ∷ 0 ∷ [])) ≡ some vs = ap (firmware.as_package) is_s5 ∙ is in
      let them : numbers (5 ∷ 0 ∷ []) ≡ vs = cc in
      (number 5, number 0, ap (λ l. get_elem? l 0) (sym them), ap (λ l. get_elem? l 1) (sym them));
}

abbrev machine : String → Machine firmware
machine missing = record { aml = some missing; fadt = some tt; log = [] }

perform_acpi_sleep-field_example :
    (value : ℕ) × (perform_acpi_sleep firmware
        (number 5)
        (record { address_space = true; address = 0xB004 })
        (machine "")
      ≡ (val tt, record { aml = some ""; fadt = some tt; log = wrote 0xB004 value ∷ [] }))
    × (value ≡ 0x2005)
    × (value / 2 ^ 10 % 8 ≡ 0)
perform_acpi_sleep-field_example =
    perform_acpi_sleep-field firmware (number 5) (record { address_space = true; address = 0xB004 })
      (machine "") 5 refl (omega arith) refl (omega arith)
