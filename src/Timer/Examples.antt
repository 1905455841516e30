-- ===== src/Timer/Examples.antt =====
-- A timer that ticks once between two reads, and one that ticks twice.
use nocciolo.Base.{◌*◌, ◌≡◌, refl, ok, none, [], ◌∷◌, arith}
use nocciolo.Timer.{sleep, init}
use nocciolo.Timer.Sleep.{sleep_misses}

-- The mode of channel 0 is a square wave, and the reload count is 1193.
init_runs : init [] ≡ ok ((0x40, 4) ∷ (0x40, 169) ∷ (0x43, 0x36) ∷ [])
unfolding init
init_runs = refl

sleep_misses_example : sleep 1000 (λ i. 2 * i) 3 ≡ ok none
sleep_misses_example =
    sleep_misses (λ i. 2 * i) 3 1 (omega arith) (omega arith) (λ i. omega arith) (omega arith)
      (omega arith) 1000
