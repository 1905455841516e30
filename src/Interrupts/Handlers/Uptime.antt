-- ===== src/Interrupts/Handlers/Uptime.antt =====
-- `sleep` and `get_pit_uptime` of kernel/src/device/pit.rs, cut into the pieces between which the timer
-- interrupt can come. `get_pit_uptime` takes the lock of `TIMER` with interrupts enabled.
pub mod Deadlock
use nocciolo.Base.{ℕ, ◌==◌, Bool, true, false, if◌then◌else◌, List, [], ◌∷◌}
use nocciolo.Interrupts.{Platform, Kernel, Run, returns, halts, spins}
use nocciolo.Interrupts.Handlers.{timer_interrupt_handler}

-- Where the task is: before it takes the lock, before the read, before the lock is given back with the
-- value that was read, in `hlt`, and past the loop.
pub data Phase : Type 0 where
  asking : Phase
  reading : Phase
  dropping : ℕ → Phase
  halting : Phase
  done : Phase

-- The processor runs the task, or waits for ever in the handler or in the panic handler.
pub data System (Q : Platform) : Type 0 where
  running : Phase → Kernel Q → System Q
  jammed : Kernel Q → System Q
  stopped : Kernel Q → System Q

pub data Event : Type 0 where
  task : Event
  tick : Event

module _ (Q : Platform) (end : ℕ) where
  -- A piece of the task. The lock waits while it is taken, and `hlt` for an interrupt.
  pub task_piece : Phase → Kernel Q → System Q
  task_piece asking k =
      if k.timer_locked
      then running asking k
      else running reading (record k { timer_locked = true })
  task_piece reading k = running (dropping k.timer) k
  task_piece (dropping value) k =
      running (if end == value then done else halting) (record k { timer_locked = false })
  task_piece halting k = running halting k
  task_piece done k = running done k

  -- An interrupt ends `hlt`.
  pub resumed : Phase → Phase
  resumed halting = asking
  resumed phase = phase

  pub after_interrupt : Phase → Run (Kernel Q) (Unit {0}) → System Q
  unfolding resumed
  after_interrupt phase (returns _ k) = running (resumed phase) k
  after_interrupt phase (halts k) = stopped k
  after_interrupt phase (spins k) = jammed k

  -- The handler runs with interrupts disabled, so a handler that waits is not interrupted.
  pub step : Event → System Q → System Q
  unfolding task_piece after_interrupt
  step task (running phase k) = task_piece phase k
  step tick (running phase k) = after_interrupt phase (timer_interrupt_handler Q k)
  step event (jammed k) = jammed k
  step event (stopped k) = stopped k

  pub run : List Event → System Q → System Q
  unfolding step
  run [] s = s
  run (event ∷ events) s = run events (step event s)
