-- ===== src/Task/Simple/Rounds/Examples.antt =====
-- Two tasks that count down.
use nocciolo.Base.{ℕ, ◌-◌, ◌==◌, if◌then◌else◌, [], arith}
use nocciolo.Task.{Futures}
use nocciolo.Task.Simple.Rounds.{IsProgressing}

-- The world says how many polls each task still needs.
abbrev countdown : Futures
countdown = record {
  World = ℕ → ℕ;
  poll = λ task w. (w task == 0, [], λ other. if other == task then w other - 1 else w other);
}

countdown-IsProgressing : IsProgressing countdown (λ w task. w task)
countdown-IsProgressing = record {
  fewer = λ task w e. ground arith;
  others = λ task w other. ground arith;
}
