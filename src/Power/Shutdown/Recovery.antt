-- ===== src/Power/Shutdown/Recovery.antt =====
-- The whole shutdown: `_PTS`, the sleep writes, and `_WAK` after an error.
use nocciolo.Base.{◌≤◌, ◌≡◌, refl, ap, ◌∙◌, ok, false, some, List, ◌∷◌, ◌++◌, length, All}
use nocciolo.Power.Firmware.{Result, val, err, Firmware}
use nocciolo.Power.Methods.{
  Event, invoked, discard, discard_err, s5_args, invoke_prepare_to_sleep_lem,
  invoke_system_wake_lem,
}
use nocciolo.Power.Shutdown.{
  aml_error, Done, Machine, no_prepare_method, after_prepare, after_call, before_acpi_shutdown,
  prepare_using, recover_acpi_shutdown, wake_using, recovered, shut_down_prepared,
  shutdown_using_acpi,
}
use nocciolo.Power.Shutdown.Sleep.{IsFirmware, IsSleepWrite}

module _ (F : Firmware) (W : IsFirmware F) where
  -- `_WAK` comes last, after an error and only then.
  abbrev pub woken : Done F → List (Event F) → List (Event F)
  woken (err e) log = invoked W.wak (s5_args F) ∷ log
  woken (val _) log = log

  -- What `_PTS` leaves.
  prepared :
      (st : Machine F) (aml : F.AmlContext)
      → st.aml ≡ some aml
      → before_acpi_shutdown F st ≡ (
        after_prepare F (discard F (F.invoke_method aml W.pts (s5_args F)).0),
        record st {
          aml = some (F.invoke_method aml W.pts (s5_args F)).1;
          log = invoked W.pts (s5_args F) ∷ st.log;
        },
      )
  unfolding before_acpi_shutdown prepare_using after_call
  prepared st aml e =
      ap (λ a. prepare_using F a st) e
      ∙ ap (λ call. (after_prepare F call.result, after_call F call st))
          (invoke_prepare_to_sleep_lem F W.pts aml st.log W.pts_is)

  -- What `_WAK` leaves.
  recover-log :
      (st : Machine F) (aml : F.AmlContext)
      → st.aml ≡ some aml
      → (recover_acpi_shutdown F st).log ≡ invoked W.wak (s5_args F) ∷ st.log
  unfolding recover_acpi_shutdown wake_using after_call
  recover-log st aml e =
      ap (λ a. (wake_using F a st).log) e
      ∙ ap (λ call. call.log) (invoke_system_wake_lem F W.wak aml st.log W.wak_is)

  recovered-log :
      (r : Done F) (st : Machine F) (aml : F.AmlContext)
      → st.aml ≡ some aml
      → (st' : Machine F) × (recovered F (r, st) ≡ (r, st')) × (st'.log ≡ woken r st.log)
  unfolding recovered
  recovered-log (err e) st aml is = (recover_acpi_shutdown F st, refl, recover-log st aml is)
  recovered-log (val tt) st aml is = (st, refl, refl)

  -- The writes of a run, and its log from the given one on.
  pub record Ordered (r : Done F) (before after : List (Event F)) : Type 0 where
    pub writes : List (Event F)
    pub sleep_writes : All (IsSleepWrite F) writes
    pub few : length writes ≤ 2
    pub log : after ≡ woken r (writes ++ before)

  rejected :
      (o : Result F.AmlValue F.AmlError) (e : F.AmlError)
      → o ≡ err e
      → no_prepare_method F (F.does_not_exist e) ≡ false
      → after_prepare F (discard F o) ≡ err (aml_error e)
  unfolding after_prepare
  rejected o e is present =
      ap (λ p. after_prepare F (discard F p)) is
      ∙ ap (after_prepare F) (discard_err F e)
      ∙ (rw (present) refl)

  -- An error of `_PTS` other than its absence.
  pub shutdown_using_acpi-unprepared :
      (st : Machine F) (aml : F.AmlContext) (e : F.AmlError)
      → st.aml ≡ some aml
      → (F.invoke_method aml W.pts (s5_args F)).0 ≡ err e
      → no_prepare_method F (F.does_not_exist e) ≡ false
      → (st' : Machine F) × (shutdown_using_acpi F st ≡ ok (err (aml_error e), st'))
        × (st'.log ≡ invoked W.wak (s5_args F) ∷ invoked W.pts (s5_args F) ∷ st.log)
  unfolding shutdown_using_acpi shut_down_prepared
  shutdown_using_acpi-unprepared st aml e is failed present =
      let st1 = record st {
        aml = some (F.invoke_method aml W.pts (s5_args F)).1;
        log = invoked W.pts (s5_args F) ∷ st.log;
      } in
      let (st', run, log) = recovered-log (err (aml_error e)) st1 _ refl in
      (
        st',
        ap (shut_down_prepared F)
              (prepared st aml is ∙ ap (λ r. (r, st1)) (rejected _ e failed present))
            ∙ ap ok run,
        log,
      )
