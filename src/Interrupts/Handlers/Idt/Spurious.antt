-- ===== src/Interrupts/Handlers/Idt/Spurious.antt =====
-- The handler of spurious interrupts of the I/O APIC, where it returns.
use nocciolo.Base.{
  ℕ, ◌≡◌, ◌∙◌, sym, false, Bool, Outcome, ok, panic, some, [], ◌∷◌, refl, ap, arith,
}
use nocciolo.Logging.{trace}
use nocciolo.Apic.Init.{end_of_interrupt}
use nocciolo.Interrupts.{
  Platform, text, frame, Run, returns, halts, spins, Kernel, ◌>>=◌, checked, panicked, log,
  log_line, serial_print, print, hlt_loop,
}
use nocciolo.Interrupts.Handlers.{spurious_io_apic_interrupt_handler, io_apic_end}
use nocciolo.Interrupts.Handlers as Handlers
use nocciolo.Interrupts.Handlers.Idt.{Handler, Arrival, handle, idt}
use nocciolo.Interrupts.Handlers.Idt.Table.{idt-at}

module _ (Q : Platform) where
  -- The timer and the keyboard are as they were.
  abbrev pub Keeps : Kernel Q → Kernel Q → Type 0
  Keeps k k' = (k'.timer ≡ k.timer) × (k'.keyboard ≡ k.keyboard)

  abbrev WhereReturned : Kernel Q → Run (Kernel Q) (Unit {0}) → Type 0
  WhereReturned k (returns _ k') = Keeps k k'
  WhereReturned k (halts k') = Unit
  WhereReturned k (spins k') = Unit

  ended :
      (done : Outcome Q.Devices) (k k' : Kernel Q)
      → Keeps k k'
      → WhereReturned k
          ((checked Q done >>= λ devices k''. returns tt (record k'' { devices = devices })) k')
  unfolding checked panicked log log_line serial_print print hlt_loop
  ended (ok devices) k k' h = h
  ended panic k k' h = ground arith

  spurious-WhereReturned :
      (a : Arrival) (k : Kernel Q) → WhereReturned k (handle Q Handler.spurious_io_apic a k)
  unfolding handle spurious_io_apic_interrupt_handler Handlers.breakpoint io_apic_end log log_line
      serial_print
  spurious-WhereReturned a k =
      ended (end_of_interrupt Q.memory Q.window k.io_apic k.devices) k _ (refl, refl)

  returned :
      (k k' : Kernel Q) (r : Run (Kernel Q) (Unit {0}))
      → r ≡ returns tt k'
      → WhereReturned k r
      → Keeps k k'
  returned k k' (returns _ k'') e h = ground arith
  returned k k' (halts k'') e h = absurd (cc)
  returned k k' (spins k'') e h = absurd (cc)

  -- At vector 39 no other handler stands.
  pub spurious-Keeps :
      (is_general : ℕ → Bool) (a : Arrival) (h : Handler) (k k' : Kernel Q)
      → idt is_general 39 ≡ some h
      → handle Q h a k ≡ returns tt k'
      → Keeps k k'
  spurious-Keeps is_general a h k k' at run =
      let stands = (idt-at is_general 39 Handler.spurious_io_apic (ground arith)).1 refl in
      let same : h ≡ Handler.spurious_io_apic = cc in
      returned k k' (handle Q Handler.spurious_io_apic a k)
        (sym (ap (λ h'. handle Q h' a k) same) ∙ run) (spurious-WhereReturned a k)

  pub spurious_run :
      (a : Arrival) (k : Kernel Q) (devices : Q.Devices)
      → end_of_interrupt Q.memory Q.window k.io_apic k.devices ≡ ok devices
      → handle Q Handler.spurious_io_apic a k
        ≡ returns tt (record k {
          devices = devices;
          serial_locked = false;
          serial =
              record { level = some trace; pieces = text "BREAKPOINT" ∷ [] }
              ∷ record {
                level = some trace;
                pieces = text "INTERRUPT: Spurious I/O APIC interrupt: " ∷ frame a.stack_frame ∷ [];
              }
              ∷ k.serial;
        })
  unfolding handle spurious_io_apic_interrupt_handler Handlers.breakpoint io_apic_end log log_line
      serial_print checked
  spurious_run a k devices done = rw done refl
