-- ===== src/Power/Methods.antt =====
-- kernel/src/device/acpi/mod.rs: the methods of the firmware that the kernel invokes. A log keeps,
-- newest first, what reached the hardware and the firmware.
use nocciolo.Base.{ℕ, Option, none, some, List, [], ◌∷◌, ◌≡◌, refl}
use nocciolo.Power.Firmware.{Result, val, err, Firmware}

pub data SystemState : Type 0 where
  s0 : SystemState
  s1 : SystemState
  s2 : SystemState
  s3 : SystemState
  s4 : SystemState
  s5 : SystemState

-- `sleeping_state as _`.
pub to_integer : SystemState → ℕ
to_integer s0 = 0
to_integer s1 = 1
to_integer s2 = 2
to_integer s3 = 3
to_integer s4 = 4
to_integer s5 = 5

module _ (F : Firmware) where
  -- A 16-bit write to a port, or a method that was invoked.
  pub data Event : Type 0 where
    wrote : ℕ → ℕ → Event
    invoked : F.AmlName → List (Option F.AmlValue) → Event

  -- What a call left: the interpreter and the log.
  pub record Invoked (A : Type 0) : Type 0 where
    pub result : Result A F.AmlError
    pub context : F.AmlContext
    pub log : List Event

  pub invoke_method1 : F.AmlName → F.AmlValue → F.AmlContext → List Event → Invoked F.AmlValue
  invoke_method1 name arg context log =
      let args = some arg ∷ none ∷ none ∷ none ∷ none ∷ none ∷ none ∷ [] in
      let (result, context') = F.invoke_method context name args in
      record { result = result; context = context'; log = invoked name args ∷ log }

  -- The result is discarded, an error is not.
  pub discard : Result F.AmlValue F.AmlError → Result (Unit {0}) F.AmlError
  discard (val v) = val tt
  discard (err e) = err e

  pub discard_err : (e : F.AmlError) → discard (err e) ≡ err e
  unfolding discard
  discard_err e = refl

  -- A method with the sleeping state as its argument, named by a string.
  pub invoke_named :
      Result F.AmlName F.AmlError → SystemState → F.AmlContext → List Event → Invoked (Unit {0})
  unfolding discard invoke_method1 to_integer
  invoke_named (err e) state context log = record { result = err e; context = context; log = log }
  invoke_named (val name) state context log =
      let call = invoke_method1 name (F.integer (to_integer state)) context log in
      record { result = discard call.result; context = call.context; log = call.log }

  pub invoke_prepare_to_sleep : SystemState → F.AmlContext → List Event → Invoked (Unit {0})
  unfolding invoke_named
  invoke_prepare_to_sleep state context log = invoke_named (F.from_str "\\_PTS") state context log

  pub invoke_system_wake : SystemState → F.AmlContext → List Event → Invoked (Unit {0})
  unfolding invoke_named
  invoke_system_wake state context log = invoke_named (F.from_str "\\_WAK") state context log

  -- The arguments of a method that is told the state S5.
  abbrev pub s5_args : List (Option F.AmlValue)
  s5_args = some (F.integer 5) ∷ none ∷ none ∷ none ∷ none ∷ none ∷ none ∷ []

  pub invoke_prepare_to_sleep_lem :
      (name : F.AmlName) (context : F.AmlContext) (log : List Event)
      → F.from_str "\\_PTS" ≡ val name
      → invoke_prepare_to_sleep s5 context log ≡ record {
        result = discard (F.invoke_method context name s5_args).0;
        context = (F.invoke_method context name s5_args).1;
        log = invoked name s5_args ∷ log;
      }
  unfolding invoke_prepare_to_sleep
  invoke_prepare_to_sleep_lem name context log named = rw (named) refl

  pub invoke_system_wake_lem :
      (name : F.AmlName) (context : F.AmlContext) (log : List Event)
      → F.from_str "\\_WAK" ≡ val name
      → invoke_system_wake s5 context log ≡ record {
        result = discard (F.invoke_method context name s5_args).0;
        context = (F.invoke_method context name s5_args).1;
        log = invoked name s5_args ∷ log;
      }
  unfolding invoke_system_wake
  invoke_system_wake_lem name context log named = rw (named) refl
