-- ===== src/Task/Keyboard/Interleaving/Examples.antt =====
-- An interrupt between the fast path and the registration of the waker.
use nocciolo.Base.{
  ℕ, ◌≡◌, refl, ap, ltb, if◌then◌else◌, false, ok, Option, none, some, List, [], ◌∷◌, ◌++◌, length,
  arith,
}
use nocciolo.Task.Keyboard.{Primitives, IsPrimitives, Poll, poll_next}
use nocciolo.Task.Keyboard.Interleaving.{
  looking, Run, step, step_at, look, interrupt, look_again, steps, Reach, start, stepped,
  interrupted,
}
use nocciolo.Task.Keyboard.Interleaving.Delivery.{Reach-asleep}
use nocciolo.Task.Keyboard.Interleaving.Progress.{Reach-delivers}
use nocciolo.Task.Keyboard.Interleaving.Pieces.{
  statics, phase_after, shown, piece_count, poll_next-steps,
}

-- A queue is its contents and its capacity.
abbrev pop_list : List ℕ → ℕ → Option (ℕ × (List ℕ × ℕ))
pop_list [] n = none
pop_list (x ∷ xs) n = some (x, (xs, n))

abbrev primitives : Primitives
primitives = record {
  Queue = List ℕ × ℕ;
  new = λ n. ([], n);
  push = λ x q. if ltb (length q.0) q.1 then some (q.0 ++ x ∷ [], q.1) else none;
  pop = λ q. pop_list q.0 q.1;
  Cell = Option ℕ;
  register = λ w c. some w;
  take = λ c. (c, none);
}

pop_list-first : (x : ℕ) (xs ys : List ℕ) (n : ℕ) → ys ≡ x ∷ xs → pop_list ys n ≡ some (x, (xs, n))
pop_list-first x xs ys n e = ap (λ l. pop_list l n) e

primitives-IsPrimitives : IsPrimitives primitives
primitives-IsPrimitives = record {
  contents = λ q. q.0;
  capacity = λ q. q.1;
  new-contents = λ n. (refl, refl);
  push-room = λ x q room. ((q.0 ++ x ∷ [], q.1), ground arith, refl, refl);
  push-full = λ x q full. ground arith;
  pop-empty = λ q e. ap (λ l. pop_list l q.1) e;
  pop-first = λ x xs q e. ((xs, q.1), pop_list-first x xs q.0 q.1 e, refl, refl);
  holds = λ c. c;
  register-holds = λ w c. refl;
  take-holds = λ c. (refl, refl);
}

abbrev first_run : Run primitives
first_run = record {
  queue = ([], 100);
  waker = none;
  phase = looking;
  woken = false;
  delivered = [];
  accepted = [];
}

abbrev interrupted_run : Run primitives
interrupted_run = interrupt primitives 30 (step primitives 7 first_run)

interrupted_run-Reach : Reach primitives 7 interrupted_run
interrupted_run-Reach = interrupted 30 (stepped start)

Reach-delivers_example :
    (n : ℕ) × ((steps primitives 7 n interrupted_run).delivered ≡ interrupted_run.accepted)
Reach-delivers_example = Reach-delivers primitives primitives-IsPrimitives 7 interrupted_run-Reach

-- Three pieces on an empty queue leave the task pending.
abbrev waiting_run : Run primitives
waiting_run = step primitives 7 (step primitives 7 (step primitives 7 first_run))

Reach-asleep_example : (waiting_run.waker ≡ some 7) × (waiting_run.queue.0 ≡ [])
unfolding primitives-IsPrimitives step step_at look look_again
Reach-asleep_example =
    Reach-asleep primitives primitives-IsPrimitives 7
      (stepped (stepped (stepped (start {waker = none})))) refl refl

poll_next-steps_example :
    (poll : Poll) × (poll_next primitives 7 (statics primitives first_run)
      ≡ ok (poll, statics primitives (steps primitives 7 (piece_count poll) first_run)))
    × ((steps primitives 7 (piece_count poll) first_run).phase ≡ phase_after poll)
    × ((steps primitives 7 (piece_count poll) first_run).delivered ≡ shown poll)
poll_next-steps_example = poll_next-steps primitives 7 first_run refl
