-- ===== src/Drivers/Floppy/Waiting.antt =====
-- The wait for the interrupt of the controller, and its timeout.
use sea_star_os.Base.{
  ℕ, zero, suc, ◌+◌, ◌≤◌, ◌<◌, ◌≡◌, refl, ◌≢◌, ◌&&◌, true, false, inl, inr, Bool-cases, arith, leb,
  ltb, ◌==◌, if◌then◌else◌,
}
use sea_star_os.Drivers.Floppy.{Floppy, floppydisk_wait_for_irq, wait_loop, sleep}

-- the state after `k` sleeps
abbrev pub after_sleeps : ℕ → Floppy → Floppy
after_sleeps zero f = f
after_sleeps (suc k) f = after_sleeps k (sleep f)

wait_loop-interrupted :
    (left timer k : ℕ) (f : Floppy)
    → timer + left ≡ 11
    → timer + k < 11
    → ((j : ℕ) → j < k → (after_sleeps j f).irq_flag ≡ 0)
    → (after_sleeps k f).irq_flag ≢ 0
    → wait_loop left timer f ≡ (timer + k, after_sleeps k f)
unfolding wait_loop
wait_loop-interrupted zero timer k f s b quiet n = absurd (omega arith)
wait_loop-interrupted (suc left) timer zero f s b quiet n =
    let set : (f.irq_flag == 0) ≡ false = ground arith in
    let same : timer + 0 ≡ timer = omega arith in rw (set, same) refl
wait_loop-interrupted (suc left) timer (suc k) f s b quiet n =
    let clear : (f.irq_flag == 0) ≡ true = ground (arith, quiet 0 (omega arith)) in
    let early : leb timer 10 ≡ true = ground arith in
    let next : timer + suc k ≡ timer + 1 + k = omega arith in
    rw (clear, early, next)
      (wait_loop-interrupted left (timer + 1) k (sleep f) (omega arith) (omega arith)
        (λ j l. quiet (suc j) (omega arith)) n)

wait_loop-quiet :
    (left timer : ℕ) (f : Floppy)
    → timer + left ≡ 11
    → ((j : ℕ) → timer + j < 10 → (after_sleeps j f).irq_flag ≡ 0)
    → 10 ≤ (wait_loop left timer f).0
unfolding wait_loop
wait_loop-quiet zero timer f s quiet = omega arith
wait_loop-quiet (suc left) timer f s quiet = elim (Bool-cases (f.irq_flag == 0 && leb timer 10)) [
  | inl go ↦ rw go (
      wait_loop-quiet left (timer + 1) (sleep f) (omega arith) (λ j l. quiet (suc j) (omega arith)))
  | inr stop ↦ rw stop (ground (arith, quiet 0))
]

-- Where the flag is clear at the start and after each sleep before the `k`-th, and set by the `k`-th
-- unless `k` is 10 or more, the wait returns 1 for `k` below 10 and 0 otherwise, even if the tenth
-- sleep sets the flag. The flag is clear afterwards.
pub floppydisk_wait_for_irq_lem :
    (k : ℕ) (f : Floppy)
    → ((j : ℕ) → j < k → (after_sleeps j f).irq_flag ≡ 0)
    → (k < 10 → (after_sleeps k f).irq_flag ≢ 0)
    → ((floppydisk_wait_for_irq f).0 ≡ (if ltb k 10 then 1 else 0))
      × ((floppydisk_wait_for_irq f).1.irq_flag ≡ 0)
unfolding floppydisk_wait_for_irq
floppydisk_wait_for_irq_lem k f quiet n = elim (Bool-cases (ltb k 10)) [
  | inl early ↦
      (let below : k < 10 = ground arith in
        let e = wait_loop-interrupted 11 0 k f refl (omega arith) quiet (n below) in
        let in_time : leb 10 (0 + k) ≡ false = ground arith in
        (rw e (rw (in_time, early) refl), refl))
  | inr late ↦
      (let above : 10 ≤ k = ground arith in
        (
          rw late (ground (arith, wait_loop-quiet 11 0 f refl (λ j b. quiet j (omega arith)))),
          refl,
        ))
]
