-- ===== src/Task/Examples.antt =====
-- Two spawned tasks, of which the first is done at its first poll.
use nocciolo.Base.{◌≡◌, ◌==◌, refl, true, ok, [], ◌∷◌, length, arith}
use nocciolo.Task.{Futures, Executor, spawn, run_ready_tasks}
use nocciolo.Task.Runs.{IsTidy, run_ready_tasks-IsTidy, run_ready_tasks-finishes}

abbrev first_is_done : Futures
first_is_done = record { World = Unit {0}; poll = λ id w. (id == 1, [], w) }

abbrev two_tasks : Executor
two_tasks = record { tasks = 2 ∷ 1 ∷ []; task_queue = 1 ∷ 2 ∷ []; waker_cache = [] }

abbrev one_left : Executor
one_left = record { tasks = 2 ∷ []; task_queue = []; waker_cache = 2 ∷ [] }

spawn_run : spawn (record two_tasks { tasks = 1 ∷ []; task_queue = 1 ∷ [] }) 2 ≡ ok two_tasks
unfolding spawn
spawn_run = refl

tasks_run : run_ready_tasks first_is_done 3 two_tasks tt ≡ ok (true, one_left, tt)
unfolding run_ready_tasks
tasks_run = refl

run_ready_tasks-IsTidy_example : IsTidy one_left × (length one_left.task_queue ≡ 0)
run_ready_tasks-IsTidy_example = run_ready_tasks-IsTidy first_is_done 3 two_tasks tt tt tasks_run

run_ready_tasks-finishes_example :
    (r : Executor × Unit {0}) × (run_ready_tasks first_is_done 3 two_tasks tt ≡ ok (true, r.0, r.1))
run_ready_tasks-finishes_example =
    run_ready_tasks-finishes first_is_done 3 two_tasks tt (λ id w. refl) (omega arith)
