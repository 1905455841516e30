-- ===== src/Interrupts/Handlers/Idt/Effects.antt =====
-- What each handler leaves of the statics, and that none waits for a lock.
use nocciolo.Base.{
  ℕ, ◌+◌, ◌^◌, ◌<◌, ◌≡◌, ◌≢◌, ◌⊎◌, false, Outcome, ok, panic, String, List, [], ◌∷◌, Option, none,
  some, refl, arith,
}
use nocciolo.Symbols.{resolve}
use nocciolo.Task.Keyboard.{Keyboard, add_scancode}
use nocciolo.Timer.Counter.{timer_interrupt_handler_lem}
use nocciolo.Apic.Init.{end_of_interrupt}
use nocciolo.Interrupts.{
  Platform, text, symbol, frame, Run, returns, halts, spins, Kernel, Line, print_in_interrupt,
  serial_print, print, log_line, log, hlt_loop, panicked, checked, ◌>>=◌, ◌>>◌,
}
use nocciolo.Interrupts.Handlers.{
  interrupt_begin, report, notify, generic_handler, breakpoint_handler, double_fault_handler,
  page_fault_handler, dropped, warn_of, deliver, keyboard_interrupt_handler,
  timer_interrupt_handler, spurious_local_apic_interrupt_handler, io_apic_end,
  spurious_io_apic_interrupt_handler, division_error_handler, non_maskable_interrupt_handler,
  debug_handler, overflow_handler, bound_range_exceeded_handler, invalid_opcode_handler,
  device_not_available_handler, with_code, invalid_tss_handler, segment_not_present_handler,
  stack_segment_fault_handler, general_protection_fault_handler, alignment_check_handler,
  machine_check_handler, simd_floating_point_exception_handler,
  control_protection_exception_handler, virtualization_exception_handler,
  hypervisor_injection_exception, vmm_communication_exception_handler, security_exception_handler,
}
use nocciolo.Interrupts.Handlers as Handlers
use nocciolo.Interrupts.Handlers.Idt.{Handler, Arrival, handle}

module _ (Q : Platform) where
  -- A run that comes to an end, by a return or in `hlt_loop`, in a state where `P` holds.
  abbrev pub Ends : (Kernel Q → Type 0) → Run (Kernel Q) (Unit {0}) → Type 0
  Ends P (returns _ k) = P k
  Ends P (halts k) = P k
  Ends P (spins _) = ⊥

  abbrev pub ticks : Handler → ℕ
  ticks Handler.timer = 1
  ticks _ = 0

  -- The controllers after the handler: the timer and the keyboard are acknowledged.
  abbrev pub acknowledged : Handler → Q.Pics → Q.Pics
  acknowledged Handler.timer pics = Q.notify_end_of_interrupt 32 pics
  acknowledged Handler.keyboard pics = Q.notify_end_of_interrupt 33 pics
  acknowledged _ pics = pics

  -- The keyboard after the handler, with the wakers that were woken.
  abbrev pub received : Handler → ℕ → Keyboard Q.primitives → Option ℕ × Keyboard Q.primitives
  received Handler.keyboard scancode keyboard = add_scancode Q.primitives scancode keyboard
  received _ scancode keyboard = (none, keyboard)

  abbrev pub wakes : Handler → Option ℕ → List (Option ℕ) → List (Option ℕ)
  wakes Handler.keyboard woken all = woken ∷ all
  wakes _ woken all = all

  pub record Effect (handler : Handler) (a : Arrival) (k k' : Kernel Q) : Type 0 where
    pub timer : k'.timer ≡ k.timer + ticks handler
    pub pics : k'.pics ≡ acknowledged handler k.pics
    pub keyboard : k'.keyboard ≡ (received handler a.scancode k.keyboard).1
    pub woken : k'.woken ≡ wakes handler (received handler a.scancode k.keyboard).0 k.woken
    pub io_apic : k'.io_apic ≡ k.io_apic
    pub timer_lock : k'.timer_locked ≡ false
    pub pics_lock : k'.pics_locked ≡ false
    pub writer_lock : (k'.writer_locked ≡ false) ⊎ (k'.writer_locked ≡ k.writer_locked)

  module _ (a : Arrival) (k : Kernel Q) (timer_free : k.timer_locked ≡ false)
      (pics_free : k.pics_locked ≡ false) (devices : Q.Devices) (counts : k.timer + 1 < 2 ^ 64)
      (reaches : end_of_interrupt Q.memory Q.window k.io_apic k.devices ≡ ok devices) where
    timer_run :
        handle Q Handler.timer a k
        ≡ returns tt (record k {
          timer = k.timer + 1;
          timer_locked = false;
          pics = Q.notify_end_of_interrupt 32 k.pics;
        })
    unfolding handle timer_interrupt_handler notify checked
    timer_run = rw timer_free (rw (timer_interrupt_handler_lem k.timer counts) (rw pics_free refl))

    -- With the writer's lock free, after what was printed so far.
    fault-Ends :
        (found : Outcome (Option Q.elf.Name)) (lines : List (Line Q))
        → Ends (Effect Handler.page_fault a k) (
            (checked Q found >>= λ name.
            print_in_interrupt Q (text "Function: " ∷ symbol name ∷ [])
            >> print_in_interrupt Q (frame a.stack_frame ∷ [])
            >> hlt_loop Q)
              (record k { writer_locked = false; serial = lines }))
    unfolding print_in_interrupt hlt_loop checked panicked log log_line serial_print print
    fault-Ends (ok name) lines = ground arith
    fault-Ends panic lines = ground arith

    -- With what `add_scancode` warns of, and the lines so far.
    keyboard-Ends :
        (o : Option String) (lines : List (Line Q))
        → Ends (Effect Handler.keyboard a k) (
            (warn_of Q o >> notify Q 33) (record k {
              writer_locked = false;
              serial = lines;
              keyboard = (add_scancode Q.primitives a.scancode k.keyboard).1;
              woken = (add_scancode Q.primitives a.scancode k.keyboard).0 ∷ k.woken;
            }))
    unfolding warn_of notify log log_line serial_print print
    keyboard-Ends none lines = rw pics_free (ground arith)
    keyboard-Ends (some message) lines = rw pics_free (ground arith)

    -- With the locks of the timer and of the interrupt controllers free, a timer that does not
    -- overflow and an end of interrupt that reaches the I/O APIC, every handler but the generic one
    -- comes to an end whatever the lock of the writer is: it returns or halts with both locks free,
    -- exactly the timer handler counts a tick, exactly the keyboard handler delivers its scancode
    -- and wakes, and exactly those two acknowledge their own vector.
    pub handle-Effect : (h : Handler) → h ≢ Handler.generic → Ends (Effect h a k) (handle Q h a k)
    unfolding handle interrupt_begin report notify breakpoint_handler double_fault_handler
        page_fault_handler dropped warn_of deliver keyboard_interrupt_handler
        spurious_local_apic_interrupt_handler Handlers.breakpoint io_apic_end
        spurious_io_apic_interrupt_handler division_error_handler non_maskable_interrupt_handler
        debug_handler overflow_handler bound_range_exceeded_handler invalid_opcode_handler
        device_not_available_handler with_code invalid_tss_handler segment_not_present_handler
        stack_segment_fault_handler general_protection_fault_handler alignment_check_handler
        machine_check_handler simd_floating_point_exception_handler
        control_protection_exception_handler virtualization_exception_handler
        hypervisor_injection_exception vmm_communication_exception_handler
        security_exception_handler print_in_interrupt serial_print print log_line log hlt_loop
        panicked checked
    handle-Effect Handler.generic named = absurd (named refl)
    handle-Effect Handler.timer named = rw timer_run (ground arith)
    handle-Effect Handler.keyboard named =
        unfold deliver in keyboard-Ends (dropped Q a.scancode k.keyboard) _
    handle-Effect Handler.page_fault named =
        fault-Ends (resolve Q.elf a.stack_frame.stack_pointer) _
    handle-Effect Handler.spurious_io_apic named = rw reaches (ground arith)
    handle-Effect h named = ground arith
