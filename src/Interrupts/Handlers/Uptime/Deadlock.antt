-- ===== src/Interrupts/Handlers/Uptime/Deadlock.antt =====
-- A tick that comes while the task holds the lock of `TIMER` waits for ever.
use nocciolo.Base.{
  ℕ, zero, suc, if◌then◌else◌, Outcome, ok, panic, sym, ◌+◌, ◌^◌, ◌<◌, ◌≤◌, ◌≡◌, ◌==◌, ◌++◌, ◌∙◌,
  ap, subst, Bool, true, false, List, [], ◌∷◌, refl, arith,
}
use nocciolo.Timer.{timer_interrupt_handler as next_tick}
use nocciolo.Timer.Counter.{timer_interrupt_handler_lem}
use nocciolo.Interrupts.{
  Platform, Kernel, returns, ◌>>=◌, ◌>>◌, checked, panicked, log, log_line, serial_print, print,
  hlt_loop,
}
use nocciolo.Interrupts.Handlers.{timer_interrupt_handler, notify}
use nocciolo.Interrupts.Handlers.Uptime.{
  Phase, asking, reading, dropping, halting, done, System, running, jammed, stopped, Event, task,
  tick, task_piece, resumed, after_interrupt, step, run,
}

abbrev pub has_lock : Phase → Bool
has_lock reading = true
has_lock (dropping value) = true
has_lock asking = false
has_lock halting = false
has_lock done = false

module _ (Q : Platform) where
  -- The lock of `TIMER` is taken where the task is between the two, and nowhere else.
  abbrev pub IsHeld : System Q → Type 0
  IsHeld (running phase k) = k.timer_locked ≡ has_lock phase
  IsHeld (jammed k) = Unit
  IsHeld (stopped k) = Unit

  module _ (end : ℕ) where
    task_piece-IsHeld :
        (phase : Phase) (k : Kernel Q)
        → k.timer_locked ≡ has_lock phase
        → IsHeld (task_piece Q end phase k)
    unfolding task_piece
    task_piece-IsHeld asking k h = rw h refl
    task_piece-IsHeld reading k h = h
    task_piece-IsHeld (dropping value) k h = ground arith
    task_piece-IsHeld halting k h = h
    task_piece-IsHeld done k h = h

    tick-jams :
        (phase : Phase) (k : Kernel Q)
        → k.timer_locked ≡ true
        → step Q end tick (running phase k) ≡ jammed k
    unfolding step after_interrupt timer_interrupt_handler
    tick-jams phase k h = rw h refl

    run-jammed : (events : List Event) (k : Kernel Q) → run Q end events (jammed k) ≡ jammed k
    unfolding run step
    run-jammed [] k = refl
    run-jammed (task ∷ events) k = run-jammed events k
    run-jammed (tick ∷ events) k = run-jammed events k

    run-append :
        (first second : List Event) (s : System Q)
        → run Q end (first ++ second) s ≡ run Q end second (run Q end first s)
    unfolding run
    run-append [] second s = refl
    run-append (event ∷ first) second s = run-append first second (step Q end event s)

    resumed-free : (phase : Phase) → has_lock phase ≡ false → has_lock (resumed Q end phase) ≡ false
    unfolding resumed
    resumed-free asking h = refl
    resumed-free halting h = refl
    resumed-free done h = refl
    resumed-free reading h = h
    resumed-free (dropping value) h = h

    -- What the handler does once it has the lock, with the timer's next value, or its overflow.
    counted-IsHeld :
        (phase : Phase) (next : Outcome ℕ) (k : Kernel Q) (pics_locked : Bool)
        → has_lock phase ≡ false
        → k.pics_locked ≡ pics_locked
        → IsHeld (
            after_interrupt Q end phase (
              (checked Q next >>= λ timer.
              (λ k'. returns tt (record k' { timer = timer; timer_locked = true }))
              >> notify Q 32
              >> (λ k'. returns tt (record k' { timer_locked = false })))
                k))
    unfolding after_interrupt checked panicked log log_line serial_print print hlt_loop notify
    counted-IsHeld phase panic k pics_locked h p = ground arith
    counted-IsHeld phase (ok timer) k true h p = rw p tt
    counted-IsHeld phase (ok timer) k false h p = rw p (sym (resumed-free phase h))

    tick-IsHeld :
        (phase : Phase) (locked : Bool) (k : Kernel Q)
        → k.timer_locked ≡ locked
        → locked ≡ has_lock phase
        → IsHeld (step Q end tick (running phase k))
    unfolding step timer_interrupt_handler
    tick-IsHeld phase true k is h = subst IsHeld (sym (tick-jams phase k is)) tt
    tick-IsHeld phase false k is h =
        rw is (counted-IsHeld phase (next_tick k.timer) _ k.pics_locked (sym h) refl)

    step-IsHeld : (event : Event) (s : System Q) → IsHeld s → IsHeld (step Q end event s)
    unfolding step
    step-IsHeld task (running phase k) h = task_piece-IsHeld phase k h
    step-IsHeld tick (running phase k) h = tick-IsHeld phase k.timer_locked k refl h
    step-IsHeld task (jammed k) h = tt
    step-IsHeld tick (jammed k) h = tt
    step-IsHeld task (stopped k) h = tt
    step-IsHeld tick (stopped k) h = tt

    run-IsHeld : (events : List Event) (s : System Q) → IsHeld s → IsHeld (run Q end events s)
    unfolding run
    run-IsHeld [] s h = h
    run-IsHeld (event ∷ events) s h = run-IsHeld events (step Q end event s) (step-IsHeld event s h)

    -- From a free lock of the uptime, a timer interrupt that comes while the sleeping task holds
    -- that lock waits for it for ever: whatever events follow, the handler still waits, in the
    -- state in which it came.
    pub sleep-jams :
        (before after : List Event) (k k' : Kernel Q) (phase : Phase)
        → k.timer_locked ≡ false
        → run Q end before (running asking k) ≡ running phase k'
        → has_lock phase ≡ true
        → run Q end (before ++ tick ∷ after) (running asking k) ≡ jammed k'
    unfolding run
    sleep-jams before after k k' phase free reached has =
        let held = subst IsHeld reached (run-IsHeld before (running asking k) free) in
        run-append before (tick ∷ after) (running asking k)
        ∙ ap (run Q end (tick ∷ after)) reached
        ∙ ap (run Q end after) (tick-jams phase k' (held ∙ has))
        ∙ run-jammed after k'

    -- The first piece takes the lock.
    pub took_lem :
        (k : Kernel Q)
        → k.timer_locked ≡ false
        → run Q end (task ∷ []) (running asking k)
          ≡ running reading (record k { timer_locked = true })
    unfolding run step task_piece
    took_lem k free = rw free refl

    -- A round of the loop in which the tick comes in `hlt`.
    abbrev pub rounds : ℕ → List Event
    rounds zero = task ∷ task ∷ task ∷ []
    rounds (suc n) = task ∷ task ∷ task ∷ tick ∷ rounds n

    round_lem :
        (k : Kernel Q)
        → k.timer_locked ≡ false
        → run Q end (task ∷ task ∷ task ∷ []) (running asking k)
          ≡ running (if end == k.timer then done else halting) (record k { timer_locked = false })
    unfolding run step task_piece
    round_lem k free = rw free refl

    halting_lem :
        (k : Kernel Q)
        → k.timer_locked ≡ false
        → k.pics_locked ≡ false
        → k.timer + 1 < 2 ^ 64
        → step Q end tick (running halting k)
          ≡ running asking (record k {
            timer = k.timer + 1;
            timer_locked = false;
            pics = Q.notify_end_of_interrupt 32 k.pics;
          })
    unfolding step after_interrupt resumed timer_interrupt_handler notify checked
    halting_lem k free pics counts =
        rw free (rw (timer_interrupt_handler_lem k.timer counts) (rw pics refl))

    waiting_round :
        (n : ℕ) (k : Kernel Q)
        → k.timer_locked ≡ false
        → k.pics_locked ≡ false
        → k.timer < end
        → k.timer + 1 < 2 ^ 64
        → run Q end (rounds (suc n)) (running asking k)
          ≡ run Q end (rounds n) (
              running asking (record k {
                timer = k.timer + 1;
                timer_locked = false;
                pics = Q.notify_end_of_interrupt 32 k.pics;
              }))
    unfolding run
    waiting_round n k free pics early counts =
        let back : Kernel Q = record k { timer_locked = false } in
        let phase : (if end == k.timer then done else halting) ≡ halting = ground arith in
        run-append (task ∷ task ∷ task ∷ []) (tick ∷ rounds n) (running asking k)
        ∙ ap (run Q end (tick ∷ rounds n)) (round_lem k free ∙ ap (λ p. running p back) phase)
        ∙ ap (run Q end (rounds n)) (halting_lem back refl pics counts)

    -- Where every timer interrupt comes in hlt, the locks are free and the end of the wait fits 64
    -- bits, the loop of sleep waits in hlt after each number of ticks below the number that it
    -- waits for, and is past its end after exactly that number; each tick has then been counted.
    pub sleep-returns :
        (n j : ℕ) (k : Kernel Q)
        → j ≤ n
        → k.timer_locked ≡ false
        → k.pics_locked ≡ false
        → k.timer + n ≡ end
        → end < 2 ^ 64
        → (k' : Kernel Q) × (run Q end (rounds j) (running asking k)
            ≡ running (if j == n then done else halting) k')
          × (k'.timer ≡ k.timer + j)
    sleep-returns n zero k le free pics ends fits =
        let back : Kernel Q = record k { timer_locked = false } in
        let phase : (if end == k.timer then done else halting)
            ≡ (if 0 == n then done else halting) =
          ground arith in
        (back, round_lem k free ∙ ap (λ p. running p back) phase, omega arith)
    sleep-returns zero (suc j) k le free pics ends fits = absurd (omega arith)
    sleep-returns (suc n) (suc j) k le free pics ends fits =
        let after : Kernel Q = record k {
          timer = k.timer + 1;
          timer_locked = false;
          pics = Q.notify_end_of_interrupt 32 k.pics;
        } in
        let (k', reached, at) =
          sleep-returns n j after (omega arith) refl pics (omega arith) fits in
        let phase : (if j == n then done else halting)
            ≡ (if suc j == suc n then done else halting) =
          ground arith in
        (
          k',
          waiting_round j k free pics (omega arith) (omega arith)
              ∙ reached
              ∙ ap (λ p. running p k') phase,
          omega (arith, at),
        )
