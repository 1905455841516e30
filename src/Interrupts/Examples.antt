-- ===== src/Interrupts/Examples.antt =====
-- A machine with a keyboard queue of one place, whose controllers record what they are told.
use nocciolo.Base.{
  ℕ, ◌≡◌, ◌↔◌, ltb, leb, if◌then◌else◌, true, false, ok, Option, none, some, List, [], ◌∷◌, ◌++◌,
  length, refl, arith,
}
use nocciolo.Symbols.{ElfBytes}
use nocciolo.Task.Keyboard.{Primitives}
use nocciolo.Apic.Local.{Memory}
use nocciolo.Apic.Io.Table.{Window}
use nocciolo.Apic.Init.{end_of_interrupt}
use nocciolo.Interrupts.{Platform, Kernel}
use nocciolo.Interrupts.Handlers.Idt.{Handler, Arrival, handle, idt}
use nocciolo.Interrupts.Handlers.Idt.Table.{idt-at}
use nocciolo.Interrupts.Handlers.Idt.Effects.{Ends, Effect, handle-Effect}
use nocciolo.Interrupts.Handlers.Uptime.{task, tick, asking, reading, running, jammed, run, halting}
use nocciolo.Interrupts.Handlers.Uptime.Deadlock.{sleep-jams, sleep-returns, rounds, took_lem}

abbrev pub pop_list : List ℕ → ℕ → Option (ℕ × (List ℕ × ℕ))
pop_list [] n = none
pop_list (x ∷ xs) n = some (x, (xs, n))

abbrev pub primitives : Primitives
primitives = record {
  Queue = List ℕ × ℕ;
  new = λ n. ([], n);
  push = λ x q. if ltb (length q.0) q.1 then some (q.0 ++ x ∷ [], q.1) else none;
  pop = λ q. pop_list q.0 q.1;
  Cell = Option ℕ;
  register = λ w c. some w;
  take = λ c. (c, none);
}

abbrev pub elf : ElfBytes
elf = record { Name = ℕ; symbol_table = none; name_at = λ n. some n }

abbrev pub memory : Memory ℕ
memory = record { load = λ addr s. (s, s); store = λ addr value s. value }

abbrev pub window : Window ℕ
window = record { select = λ n s. n; read = λ s. (0, s); write = λ v s. s }

abbrev pub platform : Platform
platform = record {
  primitives = primitives;
  elf = elf;
  Devices = ℕ;
  memory = memory;
  window = window;
  Pics = List ℕ;
  notify_end_of_interrupt = λ index pics. index ∷ pics;
}

-- The writer's lock is taken, and the task of the keyboard waits.
abbrev pub kernel : Kernel platform
kernel = record {
  writer_locked = true;
  serial_locked = false;
  timer_locked = false;
  pics_locked = false;
  serial = [];
  screen = [];
  timer = 41;
  keyboard = record { queue = some ([], 1); waker = some 7 };
  woken = [];
  pics = [];
  io_apic = none;
  devices = 0;
}

abbrev pub arrival : Arrival
arrival = record {
  vector = 33;
  stack_frame = record { instruction_pointer = 0x1000; stack_pointer = 0x8000 };
  error_code = 0;
  cr2 = 0;
  scancode = 0x1e;
}

idt-at_example : (idt (leb 32) 39 ≡ some Handler.spurious_io_apic) ↔ (◌≡◌ {A = ℕ} 39 39)
idt-at_example = idt-at (leb 32) 39 Handler.spurious_io_apic (ground arith)

published : end_of_interrupt memory window none 0 ≡ ok 0
unfolding end_of_interrupt
published = refl

handle-Effect_example :
    Ends platform
      (Effect platform Handler.keyboard arrival kernel)
      (handle platform Handler.keyboard arrival kernel)
handle-Effect_example =
    handle-Effect platform arrival kernel refl refl 0 (omega arith) published Handler.keyboard
      (ground arith)

abbrev holding : Kernel platform
holding = record kernel { timer_locked = true }

took : run platform 42 (task ∷ []) (running asking kernel) ≡ running reading holding
took = took_lem platform 42 kernel refl

sleep-jams_example :
    run platform 42 ((task ∷ []) ++ tick ∷ task ∷ tick ∷ []) (running asking kernel)
    ≡ jammed holding
sleep-jams_example =
    sleep-jams platform 42 (task ∷ []) (task ∷ tick ∷ []) kernel holding reading refl took refl

sleep-returns_example :
    (k' : Kernel platform) × (run platform 43 (rounds platform 43 1) (running asking kernel)
      ≡ running halting k')
    × (k'.timer ≡ 42)
sleep-returns_example =
    sleep-returns platform 43 2 1 kernel (omega arith) refl refl refl (omega arith)
