-- ===== src/Interrupts/Handlers.antt =====
-- The handlers of kernel/src/interrupts.rs, one function each.
pub mod Idt
pub mod Uptime
use nocciolo.Base.{
  ℕ, ◌+◌, false, true, if◌then◌else◌, Outcome, Option, none, some, List, [], ◌∷◌, String,
}
use nocciolo.Logging.{warn, trace}
use nocciolo.Symbols.{resolve}
use nocciolo.Task.Keyboard.{Keyboard, add_scancode}
use nocciolo.Timer.{timer_interrupt_handler as tick}
use nocciolo.Apic.Init.{end_of_interrupt}
use nocciolo.Interrupts.{
  InterruptStackFrame, Platform, ◌>>=◌, ◌>>◌, pure, spins, returns, Piece, text, number, hex,
  symbol, frame, details, Kernel, Action, print_in_interrupt, log, hlt_loop, panicked, checked,
}

module _ (Q : Platform) where
  -- `interrupt_begin`.
  pub interrupt_begin : Action Q (Unit {0})
  unfolding print_in_interrupt
  interrupt_begin = do
    print_in_interrupt Q (text "Interrupt Begin" ∷ [])
    (λ k. returns tt (record k { writer_locked = false }))

  -- What most exception handlers do.
  pub report : List (Piece Q) → Action Q (Unit {0})
  unfolding interrupt_begin
  report pieces = do interrupt_begin; print_in_interrupt Q pieces

  -- `PICS.lock().notify_end_of_interrupt(index)`.
  pub notify : ℕ → Action Q (Unit {0})
  notify index k =
      if k.pics_locked
      then spins k
      else returns tt (record k { pics = Q.notify_end_of_interrupt index k.pics })

  pub generic_handler : ℕ → Action Q (Unit {0})
  generic_handler index = panicked Q (text "not yet implemented: handle irq " ∷ number index ∷ [])

  pub breakpoint_handler : InterruptStackFrame → Action Q (Unit {0})
  unfolding report
  breakpoint_handler stack_frame = report (text "EXCEPTION: BREAKPOINT\n" ∷ frame stack_frame ∷ [])

  pub double_fault_handler : InterruptStackFrame → ℕ → Action Q (Unit {0})
  unfolding interrupt_begin
  double_fault_handler stack_frame error_code = do
    interrupt_begin
    panicked Q
        (text "EXCEPTION: DOUBLE FAULT (" ∷ hex error_code ∷ text ")\n" ∷ frame stack_frame ∷ [])

  -- With the address that was accessed.
  pub page_fault_handler : ℕ → InterruptStackFrame → ℕ → Action Q (Unit {0})
  unfolding interrupt_begin
  page_fault_handler cr2 stack_frame error_code = do
    interrupt_begin
    print_in_interrupt Q (text "EXCEPTION: PAGE FAULT" ∷ [])
    print_in_interrupt Q (text "Accessed Address: " ∷ hex cr2 ∷ [])
    print_in_interrupt Q (text "Error Code: " ∷ number error_code ∷ [])
    name ← checked Q (resolve Q.elf stack_frame.stack_pointer)
    print_in_interrupt Q (text "Function: " ∷ symbol name ∷ [])
    print_in_interrupt Q (frame stack_frame ∷ [])
    hlt_loop Q

  -- What `add_scancode` warns of.
  pub dropped : ℕ → Keyboard Q.primitives → Option String
  dropped scancode keyboard = elim keyboard.queue [
    | none ↦ some "Scancode queue uninitialized"
    | some queue ↦ elim (Q.primitives.push scancode queue) [
      | none ↦ some "Scancode queue full; dropping keyboard input"
      | some _ ↦ none
    ]
  ]

  pub warn_of : Option String → Action Q (Unit {0})
  warn_of none = pure tt
  warn_of (some message) = log Q warn (text message ∷ [])

  -- `add_scancode`, with its warning.
  pub deliver : ℕ → Action Q (Unit {0})
  unfolding dropped warn_of
  deliver scancode k =
      let (woken, keyboard) = add_scancode Q.primitives scancode k.keyboard in
      warn_of (dropped scancode k.keyboard)
        (record k { keyboard = keyboard; woken = woken ∷ k.woken })

  -- With the byte that the read of port 0x60 yields.
  pub keyboard_interrupt_handler : ℕ → Action Q (Unit {0})
  unfolding interrupt_begin deliver notify
  keyboard_interrupt_handler scancode = do interrupt_begin; deliver scancode; notify 33

  -- The lock of `TIMER` is held until the end.
  pub timer_interrupt_handler : Action Q (Unit {0})
  unfolding notify
  timer_interrupt_handler k =
      if k.timer_locked
      then spins k
      else (checked Q (tick k.timer) >>= λ timer.
            (λ k'. returns tt (record k' { timer = timer; timer_locked = true }))
            >> notify 32
            >> (λ k'. returns tt (record k' { timer_locked = false })))
          k

  pub spurious_local_apic_interrupt_handler : InterruptStackFrame → Action Q (Unit {0})
  spurious_local_apic_interrupt_handler stack_frame =
      log Q trace (text "INTERRUPT: Spurious Local APIC interrupt: " ∷ frame stack_frame ∷ [])

  pub breakpoint : Action Q (Unit {0})
  breakpoint = log Q trace (text "BREAKPOINT" ∷ [])

  -- `IOApic::end_of_interrupt`; the entries that it logs are not repeated here.
  pub io_apic_end : Action Q (Unit {0})
  io_apic_end k =
      (checked Q (end_of_interrupt Q.memory Q.window k.io_apic k.devices) >>= λ devices k'.
      returns tt (record k' { devices = devices }))
        k

  pub spurious_io_apic_interrupt_handler : InterruptStackFrame → Action Q (Unit {0})
  unfolding breakpoint io_apic_end
  spurious_io_apic_interrupt_handler stack_frame = do
    log Q trace (text "INTERRUPT: Spurious I/O APIC interrupt: " ∷ frame stack_frame ∷ [])
    breakpoint
    io_apic_end

  pub division_error_handler : InterruptStackFrame → Action Q (Unit {0})
  unfolding report
  division_error_handler stack_frame =
      report (text "EXCEPTION: DIVISION ERROR\n" ∷ frame stack_frame ∷ [])

  pub non_maskable_interrupt_handler : InterruptStackFrame → Action Q (Unit {0})
  unfolding report
  non_maskable_interrupt_handler stack_frame =
      report (text "EXCEPTION: NMI\n" ∷ frame stack_frame ∷ [])

  pub debug_handler : InterruptStackFrame → Action Q (Unit {0})
  unfolding report
  debug_handler stack_frame = report (text "EXCEPTION: DEBUG\n" ∷ frame stack_frame ∷ [])

  pub overflow_handler : InterruptStackFrame → Action Q (Unit {0})
  unfolding report
  overflow_handler stack_frame = report (text "EXCEPTION: OVERFLOW\n" ∷ frame stack_frame ∷ [])

  pub bound_range_exceeded_handler : InterruptStackFrame → Action Q (Unit {0})
  unfolding report
  bound_range_exceeded_handler stack_frame =
      report (text "EXCEPTION: BOUND RANGE EXCEEDED\n" ∷ frame stack_frame ∷ [])

  pub invalid_opcode_handler : InterruptStackFrame → Action Q (Unit {0})
  unfolding report
  invalid_opcode_handler stack_frame =
      report (text "EXCEPTION: INVALID OPCODE\n" ∷ frame stack_frame ∷ [])

  pub device_not_available_handler : InterruptStackFrame → Action Q (Unit {0})
  unfolding report
  device_not_available_handler stack_frame =
      report (text "EXCEPTION: DEVICE NOT AVAILABLE\n" ∷ frame stack_frame ∷ [])

  -- The text of an exception with an error code.
  pub with_code : String → ℕ → String → InterruptStackFrame → List (Piece Q)
  with_code before error_code after stack_frame =
      text before ∷ number error_code ∷ text after ∷ frame stack_frame ∷ []

  pub invalid_tss_handler : InterruptStackFrame → ℕ → Action Q (Unit {0})
  unfolding report with_code
  invalid_tss_handler stack_frame error_code =
      report (with_code "EXCEPTION: INVALID TSS (" error_code ") \n" stack_frame)

  pub segment_not_present_handler : InterruptStackFrame → ℕ → Action Q (Unit {0})
  unfolding report with_code
  segment_not_present_handler stack_frame error_code =
      report (with_code "EXCEPTION: SEGMENT NOT PRESENT (" error_code ") \n" stack_frame)

  pub stack_segment_fault_handler : InterruptStackFrame → ℕ → Action Q (Unit {0})
  unfolding report with_code
  stack_segment_fault_handler stack_frame error_code =
      report (with_code "EXCEPTION: STACK SEGMENT FAULT (" error_code ") \n" stack_frame)

  pub general_protection_fault_handler : InterruptStackFrame → ℕ → Action Q (Unit {0})
  unfolding report with_code
  general_protection_fault_handler stack_frame error_code = do
    report (with_code "EXCEPTION: GENERAL PROTECTION FAULT (" error_code ") \n" stack_frame)
    hlt_loop Q

  pub alignment_check_handler : InterruptStackFrame → ℕ → Action Q (Unit {0})
  unfolding report with_code
  alignment_check_handler stack_frame error_code =
      report (with_code "EXCEPTION: ALIGNMENT CHECK (" error_code ") \n" stack_frame)

  pub machine_check_handler : InterruptStackFrame → Action Q (Unit {0})
  unfolding report
  machine_check_handler stack_frame = do
    report (text "EXCEPTION: MACHINE CHECK\n" ∷ frame stack_frame ∷ [])
    panicked Q (text "MACHINE CHECK" ∷ [])

  pub simd_floating_point_exception_handler : InterruptStackFrame → Action Q (Unit {0})
  unfolding report
  simd_floating_point_exception_handler stack_frame =
      report (text "EXCEPTION: SIMD FLOATING POINT EXCEPTION\n" ∷ frame stack_frame ∷ [])

  pub control_protection_exception_handler : InterruptStackFrame → ℕ → Action Q (Unit {0})
  unfolding report with_code
  control_protection_exception_handler stack_frame error_code =
      report (with_code "EXCEPTION: CONTROL PROTECTION EXCEPTION (" error_code ")\n" stack_frame)

  pub virtualization_exception_handler : InterruptStackFrame → Action Q (Unit {0})
  unfolding report
  virtualization_exception_handler stack_frame =
      report (text "EXCEPTION: VIRTUALIZATION EXCEPTION)\n" ∷ frame stack_frame ∷ [])

  pub hypervisor_injection_exception : InterruptStackFrame → Action Q (Unit {0})
  unfolding report
  hypervisor_injection_exception stack_frame =
      report (text "EXCEPTION: HYPERVISOR INJECTION EXCEPTION\n" ∷ frame stack_frame ∷ [])

  pub vmm_communication_exception_handler : InterruptStackFrame → ℕ → Action Q (Unit {0})
  unfolding report with_code
  vmm_communication_exception_handler stack_frame error_code =
      report (with_code "EXCEPTION: VMM COMMUNICATION EXCEPTION (" error_code ")\n" stack_frame)

  pub security_exception_handler : InterruptStackFrame → ℕ → Action Q (Unit {0})
  unfolding report with_code
  security_exception_handler stack_frame error_code =
      report (with_code "EXCEPTION: SECURITY EXCEPTION (" error_code ")\n" stack_frame)
