-- ===== src/Power/Shutdown.antt =====
-- kernel/src/meta/system.rs. The lock on the ACPI data is free whenever the code asks for it: no
-- other thread of control takes it.
pub mod Sleep
pub mod Recovery
mod Examples
use nocciolo.Base.{
  ℕ, ◌^◌, bit_or, Outcome, ok, ◌>>=◌, unwrap, Bool, true, false, not, if◌then◌else◌, ltb, Option,
  none, some, List, [], ◌∷◌, get_elem?, String, string_eq,
}
use nocciolo.Power.Firmware.{Result, val, err, GenericAddress, Firmware}
use nocciolo.Power.Methods.{
  SystemState, s5, Event, wrote, Invoked, invoke_prepare_to_sleep, invoke_system_wake,
}

pub data HypervisorKind : Type 0 where
  bochs : HypervisorKind
  qemu_old : HypervisorKind
  qemu_new : HypervisorKind
  vmware : HypervisorKind
  virtual_box : HypervisorKind

-- The `match` on the brand string.
pub hypervisor_of : String → Option HypervisorKind
hypervisor_of cpu =
    if string_eq cpu "TCGTCGTCGTCG"
    then some qemu_old
    else if string_eq cpu "QEMU Virtual CPU version 2.5+"
    then some qemu_new
    else if string_eq cpu "VMwareVMware"
    then some vmware
    else if string_eq cpu "VBoxVBoxVBox"
    then some vmware
    else none

-- On the brand string of the processor, if it has one.
pub detect_hypervisor : Option String → Option HypervisorKind
unfolding hypervisor_of
detect_hypervisor none = none
detect_hypervisor (some cpu) = hypervisor_of cpu

-- `ACPI_SLP_EN`.
abbrev pub acpi_slp_en : ℕ
acpi_slp_en = 0x2000

module _ (F : Firmware) where
  pub data AcpiShutdownErrorKind : Type 0 where
    acpi : F.AcpiError → AcpiShutdownErrorKind
    aml_error : F.AmlError → AcpiShutdownErrorKind
    no_aml : AcpiShutdownErrorKind
    no_fadt : AcpiShutdownErrorKind
    pm_control_address_not_in_io_port_range : ℕ → AcpiShutdownErrorKind
    pm_control_block_not_in_system_io_space : F.AddressSpace → AcpiShutdownErrorKind
    s5_path_not_package : AcpiShutdownErrorKind
    s5_value_not_integer : AcpiShutdownErrorKind
    s5_value_outside_word_size : ℕ → AcpiShutdownErrorKind

  abbrev pub Done : Type 0
  Done = Result (Unit {0}) AcpiShutdownErrorKind

  -- The ACPI data, and the log.
  pub record Machine : Type 0 where
    pub aml : Option F.AmlContext
    pub fadt : Option F.Fadt
    pub log : List (Event F)

  -- The write of the sleep value, with the sleep type as a 16-bit number.
  pub perform_acpi_sleep : F.AmlValue → GenericAddress F.AddressSpace → Machine → Done × Machine
  perform_acpi_sleep s5_value control_block st = elim (F.as_integer s5_value) [
    | none ↦ (err s5_value_not_integer, st)
    | some sleep_type ↦
        if ltb 0xFFFF sleep_type
        then (err (s5_value_outside_word_size sleep_type), st)
        else if not (F.is_system_io control_block.address_space)
        then (err (pm_control_block_not_in_system_io_space control_block.address_space), st)
        else if ltb 0xFFFF control_block.address
        then (err (pm_control_address_not_in_io_port_range control_block.address), st)
        else (
          val tt,
          record st { log = wrote control_block.address (bit_or acpi_slp_en sleep_type) ∷ st.log },
        )
  ]

  -- The second control block, where there is one.
  pub sleep_pm1b :
      Result (Option (GenericAddress F.AddressSpace)) F.AcpiError
      → List F.AmlValue
      → Machine
      → Outcome (Done × Machine)
  unfolding perform_acpi_sleep
  sleep_pm1b (err e) s5_pkg st = ok (err (acpi e), st)
  sleep_pm1b (val none) s5_pkg st = ok (val tt, st)
  sleep_pm1b (val (some block)) s5_pkg st = do
    value ← unwrap (get_elem? s5_pkg 1)
    ok (perform_acpi_sleep value block st)

  -- After the first control block: the second, unless the first failed.
  pub then_pm1b : F.Fadt → List F.AmlValue → Done × Machine → Outcome (Done × Machine)
  unfolding sleep_pm1b
  then_pm1b fadt s5_pkg (err e, st) = ok (err e, st)
  then_pm1b fadt s5_pkg (val _, st) = sleep_pm1b (F.pm1b_control_block fadt) s5_pkg st

  pub sleep_pm1a :
      Result (GenericAddress F.AddressSpace) F.AcpiError
      → F.Fadt
      → List F.AmlValue
      → Machine
      → Outcome (Done × Machine)
  unfolding then_pm1b
  sleep_pm1a (err e) fadt s5_pkg st = ok (err (acpi e), st)
  sleep_pm1a (val block) fadt s5_pkg st = do
    value ← unwrap (get_elem? s5_pkg 0)
    then_pm1b fadt s5_pkg (perform_acpi_sleep value block st)

  -- The value at the path, which has to be a package.
  pub sleep_with : Result F.AmlValue F.AmlError → F.Fadt → Machine → Outcome (Done × Machine)
  unfolding sleep_pm1a
  sleep_with (err e) fadt st = ok (err (aml_error e), st)
  sleep_with (val s5_value) fadt st = elim (F.as_package s5_value) [
    | none ↦ ok (err s5_path_not_package, st)
    | some s5_pkg ↦ sleep_pm1a (F.pm1a_control_block fadt) fadt s5_pkg st
  ]

  pub look_up : Result F.AmlName F.AmlError → F.AmlContext → Result F.AmlValue F.AmlError
  look_up (err e) aml = err e
  look_up (val s5_path) aml = F.get_by_path aml s5_path

  -- With the interpreter and the FADT, where there are any.
  pub sleep_using : Option F.AmlContext → Option F.Fadt → Machine → Outcome (Done × Machine)
  unfolding sleep_with look_up
  sleep_using none fadt st = ok (err no_aml, st)
  sleep_using (some aml) none st = ok (err no_fadt, st)
  sleep_using (some aml) (some fadt) st = sleep_with (look_up (F.from_str "\\_S5_") aml) fadt st

  pub do_shutdown_using_acpi : Machine → Outcome (Done × Machine)
  unfolding sleep_using
  do_shutdown_using_acpi st = sleep_using st.aml st.fadt st

  -- Whether the error says that `_PTS` is not there.
  pub no_prepare_method : Option F.AmlName → Bool
  no_prepare_method none = false
  no_prepare_method (some name) = string_eq (F.as_string name) "\\_PTS"

  -- The `match` on the result of `_PTS`.
  pub after_prepare : Result (Unit {0}) F.AmlError → Done
  unfolding no_prepare_method
  after_prepare (val _) = val tt
  after_prepare (err e) =
      if no_prepare_method (F.does_not_exist e) then val tt else err (aml_error e)

  -- What a method left behind.
  pub after_call : Invoked F (Unit {0}) → Machine → Machine
  after_call call st = record st { aml = some call.context; log = call.log }

  pub prepare_using : Option F.AmlContext → Machine → Done × Machine
  unfolding after_prepare after_call
  prepare_using none st = (val tt, st)
  prepare_using (some aml) st =
      let call = invoke_prepare_to_sleep F s5 aml st.log in
      (after_prepare call.result, after_call call st)

  pub before_acpi_shutdown : Machine → Done × Machine
  unfolding prepare_using
  before_acpi_shutdown st = prepare_using st.aml st

  pub wake_using : Option F.AmlContext → Machine → Machine
  unfolding after_call
  wake_using none st = st
  wake_using (some aml) st = after_call (invoke_system_wake F s5 aml st.log) st

  pub recover_acpi_shutdown : Machine → Machine
  unfolding wake_using
  recover_acpi_shutdown st = wake_using st.aml st

  -- An error is recovered from before it is passed on.
  pub recovered : Done × Machine → Done × Machine
  unfolding recover_acpi_shutdown
  recovered (err e, st) = (err e, recover_acpi_shutdown st)
  recovered (val _, st) = (val tt, st)

  -- After `_PTS`.
  pub shut_down_prepared : Done × Machine → Outcome (Done × Machine)
  unfolding do_shutdown_using_acpi recovered
  shut_down_prepared (err e, st) = ok (recovered (err e, st))
  shut_down_prepared (val _, st) = do_shutdown_using_acpi st >>= λ r. ok (recovered r)

  pub shutdown_using_acpi : Machine → Outcome (Done × Machine)
  unfolding before_acpi_shutdown shut_down_prepared
  shutdown_using_acpi st = shut_down_prepared (before_acpi_shutdown st)

  -- A port of the hypervisor.
  pub write_port : ℕ → ℕ → Machine → Outcome Machine
  write_port port value st = ok (record st { log = wrote port value ∷ st.log })

  -- `expect`.
  pub expect_done : Done × Machine → Outcome Machine
  expect_done (val _, st) = ok st
  expect_done (err e, st) = Outcome.panic

  -- The `match` on the hypervisor.
  pub shut_down_on : Option HypervisorKind → Machine → Outcome Machine
  unfolding write_port shutdown_using_acpi expect_done
  shut_down_on (some bochs) st = write_port 0xB004 0x2000 st
  shut_down_on (some qemu_old) st = write_port 0x604 0x2000 st
  shut_down_on (some virtual_box) st = write_port 0x4004 0x3400 st
  shut_down_on _ st = shutdown_using_acpi st >>= expect_done

  pub request_shutdown : Option String → Machine → Outcome Machine
  unfolding detect_hypervisor shut_down_on
  request_shutdown cpu st = shut_down_on (detect_hypervisor cpu) st
