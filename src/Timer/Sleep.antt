-- ===== src/Timer/Sleep.antt =====
-- `sleep` of device/pit.rs waits for one exact tick: it ends where every tick is seen, and does not
-- end where that tick is missed.
use nocciolo.Base.{
  ℕ, zero, suc, ◌+◌, ◌-◌, ◌≢◌, ◌^◌, ◌≤◌, ◌<◌, ◌≡◌, inl, inr, refl, ap, ◌∙◌, ◌==◌, true, false,
  Bool-cases, ok, none, some, arith, lt_or_le, cast, add_in,
}
use nocciolo.Timer.{wait_until, sleep}

-- No tick is missed between two reads, and the end is reached.
pub wait_until_ends :
    (uptime : ℕ → ℕ) (end more reads : ℕ)
    → ((i : ℕ) → uptime (suc i) ≤ uptime i + 1)
    → uptime reads ≤ end
    → end ≤ uptime (more + reads)
    → (n : ℕ) × (wait_until (suc more) uptime reads end ≡ some (suc n)) × (uptime n ≡ end)
unfolding wait_until
wait_until_ends uptime end zero reads seen before after =
    let here : uptime (0 + reads) ≡ uptime reads = ap uptime (omega arith) in
    let at : uptime reads ≡ end = omega (arith, after, here) in
    let now : (end == uptime reads) ≡ true = ground arith in (reads, rw (now) refl, at)
wait_until_ends uptime end (suc more) reads seen before after =
    elim (Bool-cases (end == uptime reads)) [
      | inl now ↦ (reads, rw (now) refl, ground arith)
      | inr not_yet ↦
          let below : uptime reads < end = ground arith in
          let next : uptime (suc more + reads) ≡ uptime (more + suc reads) =
            ap uptime (omega arith) in
          let (n, ends, at) =
            wait_until_ends uptime end more (suc reads) seen (omega (arith, seen reads))
              (omega (arith, after, next)) in
          (n, rw (not_yet) ends, at)
    ]

-- Time does not go back.
later_reads :
    (uptime : ℕ → ℕ) (i d : ℕ) → ((i : ℕ) → uptime i ≤ uptime (suc i)) → uptime i ≤ uptime (d + i)
later_reads uptime i zero forward =
    let here : uptime (0 + i) ≡ uptime i = ap uptime (omega arith) in omega (arith, here)
later_reads uptime i (suc d) forward =
    let next : uptime (suc d + i) ≡ uptime (suc (d + i)) = ap uptime (omega arith) in
    omega (arith, later_reads uptime i d forward, forward (d + i), next)

sleep_waits :
    (rounds : ℕ) (uptime : ℕ → ℕ) (s : ℕ)
    → 0 < s
    → uptime 0 + s < 2 ^ 64
    → sleep rounds uptime s ≡ ok (wait_until rounds uptime 1 (uptime 0 + s))
unfolding sleep
sleep_waits rounds uptime s positive fits =
    let ms : cast 64 s ≡ s = omega arith in
    let nonzero : (s == 0) ≡ false = ground arith in
    let sum : add_in 64 (uptime 0) s ≡ ok (uptime 0 + s) = ground arith in
    rw (ms, nonzero, sum) refl

-- Where no tick is missed between two reads of the uptime and the end is reached, sleep returns, at
-- a read of exactly the end.
pub sleep_returns :
    (uptime : ℕ → ℕ) (s more : ℕ)
    → 0 < s
    → uptime 0 + s < 2 ^ 64
    → ((i : ℕ) → uptime (suc i) ≤ uptime i + 1)
    → uptime 0 + s ≤ uptime (more + 1)
    → (n : ℕ) × (sleep (suc more) uptime s ≡ ok (some (suc n))) × (uptime n ≡ uptime 0 + s)
sleep_returns uptime s more positive fits seen reached =
    let end = uptime 0 + s in
    let (n, ends, at) = wait_until_ends uptime end more 1 seen (omega (arith, seen 0)) reached in
    (n, sleep_waits (suc more) uptime s positive fits ∙ ap ok ends, at)

-- Whatever is read, the end is not.
wait_until_misses :
    (uptime : ℕ → ℕ) (end rounds reads : ℕ)
    → ((i : ℕ) → uptime i ≢ end)
    → wait_until rounds uptime reads end ≡ none
unfolding wait_until
wait_until_misses uptime end zero reads never = refl
wait_until_misses uptime end (suc rounds) reads never =
    let differs : (end == uptime reads) ≡ false = ground (arith, never reads) in
    rw (differs) (wait_until_misses uptime end rounds (suc reads) never)

-- No read yields a tick that is missed.
not_read :
    (uptime : ℕ → ℕ) (end i : ℕ)
    → ((i : ℕ) → uptime i ≤ uptime (suc i))
    → uptime i < end
    → end < uptime (suc i)
    → (j : ℕ) → uptime j ≢ end
not_read uptime end i forward before after j e = elim (lt_or_le i j) [
  | inl past ↦
      let same : uptime (j - suc i + suc i) ≡ uptime j = ap uptime (omega arith) in
      omega (arith, later_reads uptime (suc i) (j - suc i) forward, same, e)
  | inr not_past ↦
      let same : uptime (i - j + j) ≡ uptime i = ap uptime (omega arith) in
      omega (arith, later_reads uptime j (i - j) forward, same, e)
]

-- Where the uptime does not go back and its reads skip the end, sleep does not return, however many
-- reads it makes.
pub sleep_misses :
    (uptime : ℕ → ℕ) (s i : ℕ)
    → 0 < s
    → uptime 0 + s < 2 ^ 64
    → ((i : ℕ) → uptime i ≤ uptime (suc i))
    → uptime i < uptime 0 + s
    → uptime 0 + s < uptime (suc i)
    → (rounds : ℕ) → sleep rounds uptime s ≡ ok none
sleep_misses uptime s i positive fits forward before after rounds =
    sleep_waits rounds uptime s positive fits
    ∙ ap ok (
        wait_until_misses uptime (uptime 0 + s) rounds 1
          (not_read uptime (uptime 0 + s) i forward before after))

-- Where the uptime stands still, sleep does not return, however many reads it makes.
pub sleep_never :
    (uptime : ℕ → ℕ) (s : ℕ)
    → 0 < s
    → uptime 0 + s < 2 ^ 64
    → ((i : ℕ) → uptime i ≡ uptime 0)
    → (rounds : ℕ) → sleep rounds uptime s ≡ ok none
sleep_never uptime s positive fits still rounds =
    sleep_waits rounds uptime s positive fits
    ∙ ap ok (wait_until_misses uptime (uptime 0 + s) rounds 1 (λ j e. omega (arith, still j, e)))
