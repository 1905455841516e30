-- ===== src/Task/Simple.antt =====
-- kernel/src/task/simple_executor.rs and kernel/src/task/mod.rs: an executor that polls its tasks in
-- turn, and the counter of identifiers. Wakers do nothing here, so what a poll wakes is not read.
pub mod Rounds
use nocciolo.Base.{ℕ, zero, suc, ◌+◌, cast, Bool, true, false, if◌then◌else◌, List, [], ◌∷◌, ◌++◌}
use nocciolo.Task.{Futures}

-- `TaskId::new`: the identifier and the counter after it, which wraps around.
pub task_id_new : ℕ → ℕ × ℕ
task_id_new next_id = (next_id, cast 64 (next_id + 1))

pub record SimpleExecutor : Type 0 where
  pub task_queue : List ℕ

pub simple_new : SimpleExecutor
simple_new = record { task_queue = [] }

pub simple_spawn : SimpleExecutor → ℕ → SimpleExecutor
simple_spawn e task = record { task_queue = e.task_queue ++ task ∷ [] }

module _ (F : Futures) where
  open F use {World, poll}

  -- The queue after the poll of its first task.
  abbrev pub requeue : Bool → ℕ → List ℕ → List ℕ
  requeue true task queue = queue
  requeue false task queue = queue ++ task ∷ []

  -- `run`, for at most so many polls; `false` is a queue that is not empty yet.
  pub simple_run : ℕ → List ℕ → World → Bool × List ℕ × World
  simple_run zero queue world = (false, queue, world)
  simple_run (suc polls) [] world = (true, [], world)
  simple_run (suc polls) (task ∷ queue) world =
      let (ready, _, world') = poll task world in simple_run polls (requeue ready task queue) world'
