-- ===== src/Task/Keyboard/Interleaving.antt =====
-- `poll_next` of kernel/src/task/keyboard.rs piece by piece: the keyboard interrupt can come between
-- any two of them, and runs to its end.
pub mod Delivery
pub mod Progress
pub mod Pieces
mod Examples
use nocciolo.Base.{ℕ, zero, suc, Bool, true, false, Option, none, some, List, [], ◌∷◌, ◌++◌}
use nocciolo.Task.Keyboard.{Primitives}

-- Where the task is: before the fast path, before it registers its waker, before the second look,
-- before it takes the waker back with a scancode in hand, or pending.
pub data Phase : Type 0 where
  looking : Phase
  registering : Phase
  looking_again : Phase
  taking : ℕ → Phase
  asleep : Phase

module _ (P : Primitives) where
  -- `woken` says whether the executor is to poll the task again; `delivered` and `accepted` are all
  -- the scancodes that left and entered the queue.
  pub record Run : Type 0 where
    pub queue : P.Queue
    pub waker : P.Cell
    pub phase : Phase
    pub woken : Bool
    pub delivered : List ℕ
    pub accepted : List ℕ

  pub look : Option (ℕ × P.Queue) → Run → Run
  look none r = record r { phase = registering }
  look (some (scancode, queue')) r = record r {
    queue = queue';
    delivered = r.delivered ++ scancode ∷ [];
  }

  pub look_again : Option (ℕ × P.Queue) → Run → Run
  look_again none r = record r { phase = asleep }
  look_again (some (scancode, queue')) r = record r { queue = queue'; phase = taking scancode }

  -- A pending task is polled again once it was woken.
  pub poll_again : Bool → Run → Run
  poll_again true r = record r { woken = false; phase = looking }
  poll_again false r = r

  pub step_at : ℕ → Phase → Run → Run
  unfolding look look_again poll_again
  step_at cx looking r = look (P.pop r.queue) r
  step_at cx registering r = record r { waker = P.register cx r.waker; phase = looking_again }
  step_at cx looking_again r = look_again (P.pop r.queue) r
  step_at cx (taking scancode) r = record r {
    waker = (P.take r.waker).1;
    delivered = r.delivered ++ scancode ∷ [];
    phase = looking;
  }
  step_at cx asleep r = poll_again r.woken r

  -- The next piece of the task.
  pub step : ℕ → Run → Run
  unfolding step_at
  step cx r = step_at cx r.phase r

  pub woken_by : Option ℕ → Bool → Bool
  woken_by none woken = woken
  woken_by (some _) woken = true

  pub accept : Option P.Queue → ℕ → Run → Run
  unfolding woken_by
  accept none scancode r = r
  accept (some queue') scancode r = record r {
    queue = queue';
    waker = (P.take r.waker).1;
    woken = woken_by (P.take r.waker).0 r.woken;
    accepted = r.accepted ++ scancode ∷ [];
  }

  -- `add_scancode`, called by the interrupt handler.
  pub interrupt : ℕ → Run → Run
  unfolding accept
  interrupt scancode r = accept (P.push scancode r.queue) scancode r

  pub steps : ℕ → ℕ → Run → Run
  unfolding step
  steps cx zero r = r
  steps cx (suc n) r = steps cx n (step cx r)

  -- The states that the task and the interrupts reach from an empty queue.
  pub data Reach (cx : ℕ) : Run → Type 0 where
    start :
        {waker : P.Cell}
        → Reach cx (record {
          queue = P.new 100;
          waker = waker;
          phase = looking;
          woken = false;
          delivered = [];
          accepted = [];
        })
    stepped : {r : Run} → Reach cx r → Reach cx (step cx r)
    interrupted : {r : Run} (scancode : ℕ) → Reach cx r → Reach cx (interrupt scancode r)
