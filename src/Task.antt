-- ===== src/Task.antt =====
-- kernel/src/task/executor.rs: the executor, with its map of tasks, its queue of identifiers and its
-- cache of wakers.
--
-- A future is code of its own: `Futures` is what polling a task does. It says whether the task is
-- ready, and which identifiers were woken while it ran; a waker holds one identifier, so the cache is
-- the list of those that have one. Interrupts that wake tasks between two polls are polls' wakes.
mod Examples
pub mod Runs
pub mod Keyboard
pub mod Simple
use nocciolo.Base.{
  ℕ, zero, suc, ◌+◌, ◌≡◌, ◌==◌, ltb, not, if◌then◌else◌, Bool, true, false, Outcome, ok, panic,
  ◌>>=◌, ◌>>◌, assert, Option, none, some, List, [], ◌∷◌, ◌++◌, length,
}

-- What one poll does: a state of the world behind the tasks, changed.
pub record Futures : Type 1 where
  pub World : Type 0
  pub poll : ℕ → World → Bool × List ℕ × World

-- The capacity of the task queue, an `ArrayQueue`.
abbrev pub capacity : ℕ
capacity = 100

pub record Executor : Type 0 where
  pub tasks : List ℕ
  pub task_queue : List ℕ
  pub waker_cache : List ℕ

pub new : Executor
new = record { tasks = []; task_queue = []; waker_cache = [] }

pub contains : List ℕ → ℕ → Bool
contains [] x = false
contains (y ∷ ys) x = if y == x then true else contains ys x

-- The map or the cache without an identifier.
pub remove : List ℕ → ℕ → List ℕ
remove [] x = []
remove (y ∷ ys) x = let rest = remove ys x in if y == x then rest else y ∷ rest

-- `ArrayQueue::push` with `expect`: a full queue panics.
pub push : List ℕ → ℕ → Outcome (List ℕ)
push queue x = if ltb (length queue) capacity then ok (queue ++ x ∷ []) else panic

pub wake_all : List ℕ → List ℕ → Outcome (List ℕ)
unfolding push
wake_all queue [] = ok queue
wake_all queue (x ∷ xs) = do queue' ← push queue x; wake_all queue' xs

pub spawn : Executor → ℕ → Outcome Executor
unfolding contains push
spawn e id = do
  assert (not (contains e.tasks id))
  queue ← push e.task_queue id
  ok (record e { tasks = id ∷ e.tasks; task_queue = queue })

-- After the poll of a task that is there: it has a waker, or it is done and both are dropped.
pub after_poll : Executor → ℕ → Bool → List ℕ → Executor
unfolding contains remove
after_poll e id ready queue =
    let cache = if contains e.waker_cache id then e.waker_cache else id ∷ e.waker_cache in
    if ready
    then record { tasks = remove e.tasks id; task_queue = queue; waker_cache = remove cache id }
    else record { tasks = e.tasks; task_queue = queue; waker_cache = cache }

module _ (F : Futures) where
  open F use {World, poll}

  pub poll_task : Executor → ℕ → World → Outcome (Executor × World)
  unfolding wake_all after_poll
  poll_task e id world = do
    let (ready, woken, world') = poll id world
    queue ← wake_all e.task_queue woken
    ok (after_poll e id ready queue, world')

  -- One round of the loop, for an identifier that was taken off the queue.
  pub run_task : Executor → ℕ → World → Outcome (Executor × World)
  unfolding contains poll_task
  run_task e id world = if contains e.tasks id then poll_task e id world else ok (e, world)

  -- `run_ready_tasks`, for at most so many rounds; `false` is a queue that is not empty yet.
  pub run_ready_tasks : ℕ → Executor → World → Outcome (Bool × Executor × World)
  unfolding run_task
  run_ready_tasks zero e world = ok (false, e, world)
  run_ready_tasks (suc rounds) e world = elim e.task_queue [
    | [] ↦ ok (true, e, world)
    | id ∷ queue ↦ do
      (e', world') ← run_task (record e { task_queue = queue }) id world
      run_ready_tasks rounds e' world'
  ]

-- `sleep_if_idle`, whose check is made with interrupts disabled: whether the processor halts.
pub sleep_if_idle : Executor → Bool
sleep_if_idle e = elim e.task_queue [ [] ↦ true | id ∷ queue ↦ false ]
