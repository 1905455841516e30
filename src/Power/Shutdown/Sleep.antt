-- ===== src/Power/Shutdown/Sleep.antt =====
-- What a shutdown through ACPI writes and invokes, in which order, on success and on every error.
use nocciolo.Base.{
  ℕ, ◌+◌, ◌/◌, ◌%◌, ◌^◌, ◌≤◌, ◌<◌, ◌≡◌, inl, inr, refl, ap, sym, ◌∙◌, bit_or, bit_or-bit, Outcome,
  ok, true, false, Bool-cases, ltb, Option, none, some, Option-cases, List, [], ◌∷◌, ◌++◌,
  get_elem?, length, All, All-append, length-append, arith,
}
use mathlib.Core.List.{append_assoc}
use nocciolo.Power.Firmware.{Result, val, err, GenericAddress, Firmware}
use nocciolo.Power.Methods.{Event, wrote, invoked}
use nocciolo.Power.Shutdown.{
  acpi_slp_en, acpi, aml_error, no_aml, no_fadt, s5_path_not_package, s5_value_not_integer,
  s5_value_outside_word_size, pm_control_block_not_in_system_io_space,
  pm_control_address_not_in_io_port_range, then_pm1b, sleep_using, Done, Machine,
  perform_acpi_sleep, sleep_pm1b, sleep_pm1a, sleep_with, look_up, do_shutdown_using_acpi,
}

-- The value that is written, for a 16-bit sleep type: it fits, and it has the enable bit set.
pub slp_en-sum :
    (t : ℕ) → t < 2 ^ 16 → (bit_or acpi_slp_en t < 2 ^ 16) × (bit_or acpi_slp_en t / 2 ^ 13 % 2 ≡ 1)
slp_en-sum t low =
    let set = bit_or-bit 13 t in
    elim (Bool-cases (ltb (t / 2 ^ 13 % 2) 1)) [
      | inl is ↦ ground (arith, set)
      | inr is ↦ ground (arith, set)
    ]

module _ (F : Firmware) where
  -- The names parse, and the package of the S5 state has its two elements.
  pub record IsFirmware : Type 0 where
    pub pts : F.AmlName
    pub wak : F.AmlName
    pub pts_is : F.from_str "\\_PTS" ≡ val pts
    pub wak_is : F.from_str "\\_WAK" ≡ val wak
    pub s5_package :
        (aml : F.AmlContext) (v : F.AmlValue) (vs : List F.AmlValue)
        → look_up F (F.from_str "\\_S5_") aml ≡ val v
        → F.as_package v ≡ some vs
        → (a : F.AmlValue) × (b : F.AmlValue) × (get_elem? vs 0 ≡ some a)
          × (get_elem? vs 1 ≡ some b)

  -- A 16-bit value with the enable bit, to a 16-bit port.
  abbrev pub IsSleepWrite : Event F → Type 0
  IsSleepWrite (wrote port value) = (port < 2 ^ 16) × (value < 2 ^ 16) × (value / 2 ^ 13 % 2 ≡ 1)
  IsSleepWrite (invoked name args) = ⊥

  -- At most so many sleep writes, and nothing else, and the interpreter is as it was.
  pub record Slept (n : ℕ) (st st' : Machine F) : Type 0 where
    pub writes : List (Event F)
    pub sleep_writes : All IsSleepWrite writes
    pub few : length writes ≤ n
    pub log : st'.log ≡ writes ++ st.log
    pub aml : st'.aml ≡ st.aml

  pub Slept-none : (n : ℕ) (st : Machine F) → Slept n st st
  Slept-none n st = record {
    writes = [];
    sleep_writes = tt;
    few = omega arith;
    log = refl;
    aml = refl;
  }

  -- What a call that does not panic left, and whether it succeeded.
  abbrev pub SleptOk : ℕ → Machine F → Outcome (Done F × Machine F) → Type 0
  SleptOk n st run = (r : Done F) × (st' : Machine F) × (run ≡ ok (r, st')) × Slept n st st'

  Slept-one :
      (st : Machine F) (port t : ℕ)
      → port < 2 ^ 16
      → t < 2 ^ 16
      → Slept 1 st (record st { log = wrote port (bit_or acpi_slp_en t) ∷ st.log })
  Slept-one st port t p low =
      let (fits, set) = slp_en-sum t low in
      record {
        writes = wrote port (bit_or acpi_slp_en t) ∷ [];
        sleep_writes = ((p, fits, set), tt);
        few = omega arith;
        log = refl;
        aml = refl;
      }

  perform-Slept :
      (v : F.AmlValue) (block : GenericAddress F.AddressSpace) (st : Machine F)
      → (r : Done F) × (st' : Machine F) × (perform_acpi_sleep F v block st ≡ (r, st'))
        × Slept 1 st st'
  unfolding perform_acpi_sleep
  perform-Slept v block st = elim (Option-cases (F.as_integer v)) [
    | inl e ↦ (err s5_value_not_integer, st, rw (perform_acpi_sleep, e) refl, Slept-none 1 st)
    | inr (t, e) ↦ elim (Bool-cases (ltb 0xFFFF t)) [
      | inl big ↦ (
        err (s5_value_outside_word_size t),
        st,
        rw (perform_acpi_sleep, e, big) refl,
        Slept-none 1 st,
      )
      | inr low ↦ elim (Bool-cases (F.is_system_io block.address_space)) [
        | inr other ↦ (
          err (pm_control_block_not_in_system_io_space block.address_space),
          st,
          rw (perform_acpi_sleep, e, low, other) refl,
          Slept-none 1 st,
        )
        | inl io ↦ elim (Bool-cases (ltb 0xFFFF block.address)) [
          | inl far ↦ (
            err (pm_control_address_not_in_io_port_range block.address),
            st,
            rw (perform_acpi_sleep, e, low, io, far) refl,
            Slept-none 1 st,
          )
          | inr near ↦ (
            val tt,
            record st { log = wrote block.address (bit_or acpi_slp_en t) ∷ st.log },
            rw (perform_acpi_sleep, e, low, io, near) refl,
            Slept-one st block.address t (ground arith) (ground arith),
          )
        ]
      ]
    ]
  ]

  -- For a sleep type below 8 and a control block at a 16-bit port, the value that is written is
  -- 0x2000 plus the type, so its bits 10 to 12 are clear.
  pub perform_acpi_sleep-field :
      (v : F.AmlValue) (block : GenericAddress F.AddressSpace) (st : Machine F) (t : ℕ)
      → F.as_integer v ≡ some t
      → t < 8
      → F.is_system_io block.address_space ≡ true
      → block.address < 2 ^ 16
      → (value : ℕ) × (perform_acpi_sleep F v block st
          ≡ (val tt, record st { log = wrote block.address value ∷ st.log }))
        × (value ≡ 0x2000 + t)
        × (value / 2 ^ 10 % 8 ≡ 0)
  unfolding perform_acpi_sleep
  perform_acpi_sleep-field v block st t e low io near =
      let fits : ltb 0xFFFF t ≡ false = ground arith in
      let in_range : ltb 0xFFFF block.address ≡ false = ground arith in
      (
        bit_or acpi_slp_en t,
        rw (perform_acpi_sleep, e, fits, io, in_range) refl,
        ground (arith, bit_or-bit 13 t),
        ground (arith, bit_or-bit 13 t),
      )

  Slept-more :
      (m n : ℕ) (st st' st'' : Machine F)
      → Slept m st st'
      → Slept n st' st''
      → Slept (m + n) st st''
  Slept-more m n st st' st'' S T = record {
    writes = T.writes ++ S.writes;
    sleep_writes = All-append IsSleepWrite T.writes S.writes T.sleep_writes S.sleep_writes;
    few = omega (arith, length-append T.writes S.writes, S.few, T.few);
    log = T.log ∙ ap (λ l. T.writes ++ l) S.log ∙ sym (append_assoc T.writes S.writes st.log);
    aml = T.aml ∙ S.aml;
  }

  sleep_pm1b-Slept :
      (b : Result (Option (GenericAddress F.AddressSpace)) F.AcpiError) (vs : List F.AmlValue)
      (st : Machine F)
      → (v : F.AmlValue) × (get_elem? vs 1 ≡ some v)
      → SleptOk 1 st (sleep_pm1b F b vs st)
  unfolding sleep_pm1b
  sleep_pm1b-Slept (err e) vs st there = (_, st, refl, Slept-none 1 st)
  sleep_pm1b-Slept (val none) vs st there = (_, st, refl, Slept-none 1 st)
  sleep_pm1b-Slept (val (some block)) vs st (v, is) =
      let (r, st', run, S) = perform-Slept v block st in (r, st', rw (is, run) refl, S)

  then_pm1b-Slept :
      (fadt : F.Fadt) (vs : List F.AmlValue) (st st' : Machine F) (r : Done F)
      → (v : F.AmlValue) × (get_elem? vs 1 ≡ some v)
      → Slept 1 st st'
      → SleptOk 2 st (then_pm1b F fadt vs (r, st'))
  unfolding then_pm1b
  then_pm1b-Slept fadt vs st st' (err e) there S =
      (err e, st', refl, Slept-more 1 1 st st' st' S (Slept-none 1 st'))
  then_pm1b-Slept fadt vs st st' (val tt) there S =
      let (r, st'', run, T) = sleep_pm1b-Slept (F.pm1b_control_block fadt) vs st' there in
      (r, st'', run, Slept-more 1 1 st st' st'' S T)

  sleep_pm1a-Slept :
      (b : Result (GenericAddress F.AddressSpace) F.AcpiError) (fadt : F.Fadt)
      (vs : List F.AmlValue) (st : Machine F)
      → (v : F.AmlValue) × (w : F.AmlValue) × (get_elem? vs 0 ≡ some v) × (get_elem? vs 1 ≡ some w)
      → SleptOk 2 st (sleep_pm1a F b fadt vs st)
  unfolding sleep_pm1a
  sleep_pm1a-Slept (err e) fadt vs st there = (err (acpi e), st, refl, Slept-none 2 st)
  sleep_pm1a-Slept (val block) fadt vs st (v, w, first, second) =
      let (r, st', run, S) = perform-Slept v block st in
      let (r', st'', more, T) = then_pm1b-Slept fadt vs st st' r (w, second) S in
      (r', st'', rw (first, run) more, T)

  sleep_with_err :
      (e : F.AmlError) (fadt : F.Fadt) (st : Machine F)
      → SleptOk 2 st (sleep_with F (err e) fadt st)
  unfolding sleep_with
  sleep_with_err e fadt st = (err (aml_error e), st, refl, Slept-none 2 st)

  sleep_with_val :
      (value : F.AmlValue) (fadt : F.Fadt) (st : Machine F)
      → ((vs : List F.AmlValue)
          → F.as_package value ≡ some vs
          → (v : F.AmlValue) × (w : F.AmlValue) × (get_elem? vs 0 ≡ some v)
            × (get_elem? vs 1 ≡ some w))
      → SleptOk 2 st (sleep_with F (val value) fadt st)
  unfolding sleep_with
  sleep_with_val value fadt st two = elim (Option-cases (F.as_package value)) [
    | inl e ↦ (err s5_path_not_package, st, rw (sleep_with, e) refl, Slept-none 2 st)
    | inr (vs, e) ↦
        let (r, st', run, S) = sleep_pm1a-Slept (F.pm1a_control_block fadt) fadt vs st (two vs e) in
        (r, st', rw (sleep_with, e) run, S)
  ]

  module _ (W : IsFirmware) where
    sleep_with-Slept :
        (aml : F.AmlContext) (fadt : F.Fadt) (st : Machine F)
        → SleptOk 2 st (sleep_with F (look_up F (F.from_str "\\_S5_") aml) fadt st)
    sleep_with-Slept aml fadt st = looked_up (look_up F (F.from_str "\\_S5_") aml) refl
      where
        looked_up :
            (found : Result F.AmlValue F.AmlError)
            → look_up F (F.from_str "\\_S5_") aml ≡ found
            → SleptOk 2 st (sleep_with F found fadt st)
        looked_up (err e) is = sleep_with_err e fadt st
        looked_up (val v) is = sleep_with_val v fadt st (λ vs. W.s5_package aml v vs is)

    sleep_using-Slept :
        (aml : Option F.AmlContext) (fadt : Option F.Fadt) (st : Machine F)
        → SleptOk 2 st (sleep_using F aml fadt st)
    unfolding sleep_using
    sleep_using-Slept none fadt st = (err no_aml, st, refl, Slept-none 2 st)
    sleep_using-Slept (some aml) none st = (err no_fadt, st, refl, Slept-none 2 st)
    sleep_using-Slept (some aml) (some fadt) st = sleep_with-Slept aml fadt st

    pub do_shutdown-Slept : (st : Machine F) → SleptOk 2 st (do_shutdown_using_acpi F st)
    unfolding do_shutdown_using_acpi
    do_shutdown-Slept st = sleep_using-Slept st.aml st.fadt st
