-- ===== src/Task/Runs.antt =====
-- What a run of the executor keeps: only tasks that are there have a waker.
use nocciolo.Base.{
  ℕ, zero, suc, ◌<◌, ◌≡◌, refl, ap, ◌∙◌, ◌==◌, if◌then◌else◌, Bool, true, false, Outcome, ok, ◌>>=◌,
  >>=-eq-ok, List, [], ◌∷◌, length, arith, All, Bool-cases, inl, inr,
}
use nocciolo.Task.{
  Futures, Executor, contains, remove, wake_all, after_poll, poll_task, run_task, run_ready_tasks,
}

-- Every identifier with a waker is that of a task that is there.
abbrev pub IsTidy : Executor → Type 0
IsTidy e = All (λ x. contains e.tasks x ≡ true) e.waker_cache

contains-remove :
    (ys : List ℕ) (x y : ℕ) → (y == x) ≡ false → contains (remove ys x) y ≡ contains ys y
unfolding contains remove
contains-remove [] x y h = refl
contains-remove (z ∷ ys) x y h = ground (arith, contains-remove ys x y h)

remove-All :
    (tasks cache : List ℕ) (x : ℕ)
    → All (λ y. contains tasks y ≡ true) cache
    → All (λ y. contains (remove tasks x) y ≡ true) (remove cache x)
unfolding remove
remove-All tasks [] x h = tt
remove-All tasks (y ∷ cache) x h = elim (Bool-cases (y == x)) [
  | inl same ↦ rw same (remove-All tasks cache x h.1)
  | inr other ↦ rw other (contains-remove tasks x y other ∙ h.0, remove-All tasks cache x h.1)
]

add-All :
    (tasks cache : List ℕ) (x : ℕ) (cached : Bool)
    → contains tasks x ≡ true
    → All (λ y. contains tasks y ≡ true) cache
    → All (λ y. contains tasks y ≡ true) (if cached then cache else x ∷ cache)
add-All tasks cache x true there h = h
add-All tasks cache x false there h = (there, h)

after_poll-IsTidy :
    (e : Executor) (id : ℕ) (ready : Bool) (queue : List ℕ)
    → contains e.tasks id ≡ true
    → IsTidy e
    → IsTidy (after_poll e id ready queue)
unfolding after_poll
after_poll-IsTidy e id true queue there v =
    remove-All e.tasks _ id (add-All e.tasks e.waker_cache id (contains e.waker_cache id) there v)
after_poll-IsTidy e id false queue there v =
    add-All e.tasks e.waker_cache id (contains e.waker_cache id) there v

kept :
    (e : Executor) (id : ℕ) (ready : Bool) (queue : List ℕ)
    → length (after_poll e id ready queue).task_queue ≡ length queue
unfolding after_poll
kept e id true queue = refl
kept e id false queue = refl

module _ (F : Futures) where
  run_task-IsTidy :
      (e : Executor) (id : ℕ) (world : F.World) {r : Executor × F.World}
      → IsTidy e
      → run_task F e id world ≡ ok r
      → IsTidy r.0
  run_task-IsTidy e id world {r} v h = elim (Bool-cases (contains e.tasks id)) [
    | inr gone ↦ let is : (e, world) ≡ r = unfold run_task in ground (arith, gone, h) in rw (← is) v
    | inl there ↦
        let k : poll_task F e id world ≡ ok r = unfold run_task in ground (arith, there, h) in
        let after : List ℕ → Outcome (Executor × F.World) =
          λ queue. ok (after_poll e id (F.poll id world).0 queue, (F.poll id world).2) in
        let k1 : (wake_all e.task_queue (F.poll id world).1 >>= after) ≡ ok r =
          unfold poll_task in k in
        let (queue, q, k2) = >>=-eq-ok (wake_all e.task_queue (F.poll id world).1) after k1 in
        let is : (after_poll e id (F.poll id world).0 queue, (F.poll id world).2) ≡ r =
          ground arith in
        rw (← is) (after_poll-IsTidy e id (F.poll id world).0 queue there v)
  ]

  -- A round whose poll wakes no task leaves the queue as it is.
  quiet_round :
      (e : Executor) (id : ℕ) (world : F.World)
      → ((i : ℕ) (w : F.World) → (F.poll i w).1 ≡ [])
      → (b : Executor × F.World) × (run_task F e id world ≡ ok b)
        × (length b.0.task_queue ≡ length e.task_queue)
  quiet_round e id world quiet = elim (Bool-cases (contains e.tasks id)) [
    | inr gone ↦ ((e, world), unfold run_task in rw gone refl, refl)
    | inl there ↦ (
      (after_poll e id (F.poll id world).0 e.task_queue, (F.poll id world).2),
      unfold run_task poll_task wake_all in rw (there, quiet id world) refl,
      kept e id (F.poll id world).0 e.task_queue,
    )
  ]

  -- However many rounds a run takes and whatever the tasks do, from an executor in which only tasks
  -- that are there have a waker, only tasks that are there have a waker afterwards, and a run that
  -- says that it finished has emptied the queue.
  pub run_ready_tasks-IsTidy :
      (rounds : ℕ) (e : Executor) (world : F.World) {r : Bool × Executor × F.World}
      → IsTidy e
      → run_ready_tasks F rounds e world ≡ ok r
      → IsTidy r.1 × ((if r.0 then length r.1.task_queue else 0) ≡ 0)
  unfolding run_ready_tasks
  run_ready_tasks-IsTidy zero e world {r} v h =
      let is : (false, e, world) ≡ r = ground arith in rw (← is) (v, refl)
  run_ready_tasks-IsTidy (suc rounds) e world {r} v h =
      by_queue e.task_queue refl (λ x. run_ready_tasks-IsTidy rounds x.0 x.1)
    where
      by_queue :
          (queue : List ℕ)
          → e.task_queue ≡ queue
          → ((x : Executor × F.World)
              → IsTidy x.0
              → run_ready_tasks F rounds x.0 x.1 ≡ ok r
              → IsTidy r.1 × ((if r.0 then length r.1.task_queue else 0) ≡ 0))
          → IsTidy r.1 × ((if r.0 then length r.1.task_queue else 0) ≡ 0)
      by_queue [] same ih =
          let h' = rw same at h in
          let is : (true, e, world) ≡ r = ground arith in rw (← is) (v, ap length same)
      by_queue (id ∷ queue) same ih =
          let h' = rw same at h in
          let (b, q, k) =
            >>=-eq-ok (run_task F (record e { task_queue = queue }) id world)
              (λ x. run_ready_tasks F rounds x.0 x.1) h' in
          ih b (run_task-IsTidy (record e { task_queue = queue }) id world v q) k

  next_round :
      (rounds : ℕ) (e : Executor) (world : F.World) (id : ℕ) (queue : List ℕ)
      {b : Executor × F.World}
      → e.task_queue ≡ id ∷ queue
      → run_task F (record e { task_queue = queue }) id world ≡ ok b
      → run_ready_tasks F (suc rounds) e world ≡ run_ready_tasks F rounds b.0 b.1
  unfolding run_ready_tasks
  next_round rounds e world id queue same q = rw (same, q) refl

  -- Where no poll wakes a task, a run with more rounds than the queue is long comes to its end and
  -- does not panic.
  pub run_ready_tasks-finishes :
      (rounds : ℕ) (e : Executor) (world : F.World)
      → ((id : ℕ) (w : F.World) → (F.poll id w).1 ≡ [])
      → length e.task_queue < rounds
      → (r : Executor × F.World) × (run_ready_tasks F rounds e world ≡ ok (true, r.0, r.1))
  unfolding run_ready_tasks
  run_ready_tasks-finishes zero e world quiet more = absurd (omega arith)
  run_ready_tasks-finishes (suc rounds) e world quiet more =
      by_queue e.task_queue refl (λ x. run_ready_tasks-finishes rounds x.0 x.1 quiet)
    where
      by_queue :
          (queue : List ℕ)
          → e.task_queue ≡ queue
          → ((x : Executor × F.World)
              → length x.0.task_queue < rounds
              → (r : Executor × F.World) × (run_ready_tasks F rounds x.0 x.1 ≡ ok (true, r.0, r.1)))
          → (r : Executor × F.World) × (run_ready_tasks F (suc rounds) e world
              ≡ ok (true, r.0, r.1))
      by_queue [] same ih = ((e, world), rw same refl)
      by_queue (id ∷ queue) same ih =
          let shorter : length queue < rounds = omega (arith, rw same at more) in
          let (b, q, short) = quiet_round (record e { task_queue = queue }) id world quiet in
          let (r, k) = ih b (omega (arith, short)) in
          (r, next_round rounds e world id queue same q ∙ k)
