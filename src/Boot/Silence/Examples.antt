-- ===== src/Boot/Silence/Examples.antt =====
-- The keyboard's pin interrupts, over and over, once its entry has been mapped.
use nocciolo.Base.{
  ℕ, zero, suc, ◌≡◌, refl, ap, ◌∙◌, leb, ok, none, false, List, [], ◌∷◌, some, arith,
}
use nocciolo.Logging.{trace}
use nocciolo.Apic.Local.{Memory}
use nocciolo.Apic.Init.{end_of_interrupt}
use nocciolo.Apic.Io.Table.Mapped.{map_all-MappedFrom}
use nocciolo.Apic.Io.Table.Examples.{
  device, device-IsRegisterFile, device-StoresEntries, io_apic, zeros, zeros-HasMode, few_entries,
}
use nocciolo.Interrupts.{Platform, Kernel, Line, text, frame}
use nocciolo.Interrupts.Examples.{primitives, elf, arrival}
use nocciolo.Interrupts.Handlers.Idt.{Handler, idt}
use nocciolo.Interrupts.Handlers.Idt.Table.{idt-at}
use nocciolo.Interrupts.Handlers.Idt.Spurious.{spurious_run}
use nocciolo.Boot.{countdown}
use nocciolo.Boot.Silence.{Sent, nothing, own, interrupt, countdown-silent}

abbrev memory : Memory (ℕ × (ℕ → ℕ))
memory = record { load = λ addr s. (0, s); store = λ addr value s. s }

abbrev platform : Platform
platform = record {
  primitives = primitives;
  elf = elf;
  Devices = ℕ × (ℕ → ℕ);
  memory = memory;
  window = device;
  Pics = List ℕ;
  notify_end_of_interrupt = λ index pics. index ∷ pics;
}

-- What `sleep` logs.
abbrev traced : List (Line platform) → List (Line platform)
traced before = record { level = some trace; pieces = text "Sleeping" ∷ [] } ∷ before

-- A line of the task, and the two lines of each interrupt.
abbrev lines : ℕ → List (Line platform)
lines zero = []
lines (suc i) =
    record { level = some trace; pieces = text "BREAKPOINT" ∷ [] }
    ∷ record {
      level = some trace;
      pieces = text "INTERRUPT: Spurious I/O APIC interrupt: " ∷ frame arrival.stack_frame ∷ [];
    }
    ∷ traced (lines i)

abbrev kernel_with : List (Line platform) → Kernel platform
kernel_with serial = record {
  writer_locked = false;
  serial_locked = false;
  timer_locked = false;
  pics_locked = false;
  serial = serial;
  screen = [];
  timer = 41;
  keyboard = record { queue = none; waker = none };
  woken = [];
  pics = [];
  io_apic = none;
  devices = zeros;
}

abbrev kernels : ℕ → Kernel platform
kernels i = kernel_with (lines i)

abbrev table : ℕ × (ℕ → ℕ)
table =
    (map_all-MappedFrom device device-IsRegisterFile device-StoresEntries io_apic few_entries zeros
      zeros-HasMode).0

ends : end_of_interrupt memory device none zeros ≡ ok zeros
unfolding end_of_interrupt
ends = refl

sent :
    (i : ℕ)
    → Sent platform
        (leb 32)
        io_apic
        few_entries
        device-IsRegisterFile
        device-StoresEntries
        table
        (kernel_with (traced (lines i)))
        (kernels (suc i))
sent i =
    let mapped =
      (map_all-MappedFrom device device-IsRegisterFile device-StoresEntries io_apic few_entries
        zeros zeros-HasMode).2 in
    record {
      index = 1;
      inside = omega arith;
      arrival = arrival;
      handler = Handler.spurious_io_apic;
      stands =
          ap (idt (leb 32)) (mapped.entries 1 (omega arith) (omega arith)).vector
          ∙ (idt-at (leb 32) 39 Handler.spurious_io_apic (ground arith)).1 refl;
      runs = spurious_run platform arrival (kernel_with (traced (lines i))) zeros ends;
    }

countdown-silent_example : countdown 10 5000 (λ i. (kernels i).timer) ≡ ok none
countdown-silent_example =
    countdown-silent platform (leb 32) io_apic few_entries device-IsRegisterFile
      device-StoresEntries zeros table kernels 9 5000 zeros-HasMode
      (map_all-MappedFrom device device-IsRegisterFile device-StoresEntries io_apic few_entries
        zeros zeros-HasMode).1
      (λ i. own {k1 = kernel_with (traced (lines i))} refl (interrupt (sent i) nothing))
      (omega arith)
