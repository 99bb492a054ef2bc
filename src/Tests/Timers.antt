-- ===== src/Tests/Timers.antt =====
-- Two timers on a wheel.
use libtpa.Base.{
  ℕ, ◌+◌, ◌*◌, ◌≤◌, ◌<◌, ◌≡◌, refl, true, false, ◌==◌, arith, [], ◌∷◌, Option, some, none, if_lem,
}
use libtpa.FlexFifo.{head, erase}
use libtpa.FlexFifo.Refine.{mem, Distinct}
use libtpa.Timers.{
  TimerCtrl, init, timer_start, slot_off, due, timer_process, timer_is_stopped, timer_stop,
  next_slot, run_slot, count_one,
}
use libtpa.Timers.Process.{IsDue, Quiet, fire_all, run_slot-fires}
use libtpa.Timers.Rounds.{
  IsWheel, Calm, CaughtUp, timer_stop-IsWheel, timer_stop-due, timer_stop-SameClock,
  timer_process-catches_up,
}
use libtpa.Timers.Due.{IsValid, later, timer_start-due}

abbrev wheel : TimerCtrl
wheel = init (λ t. record { slot_idx = 0; active = false; closed = false }) 1000000

wheel-IsValid : (t : ℕ) → IsValid t 1000020 250000 wheel
unfolding init mem timer_is_stopped erase
wheel-IsValid t = record {
  ran = omega arith;
  now_lt = omega arith;
  expire_pos = omega arith;
  expire_le = omega arith;
  listed = λ i. refl;
  once = refl;
}

-- A timer for 250 ms is in the third slot, and one that a callback starts again for each 100 ms fires
-- three times in 320 ms.
run_2 : due (later 3 (timer_start 7 1000020 250000 wheel)) ≡ (7 ∷ [])
unfolding timer_start init due next_slot timer_is_stopped slot_off timer_stop
run_2 = refl

abbrev fired_of : Option (ℕ × TimerCtrl) → Option ℕ
fired_of none = none
fired_of (some (k, c)) = some k

run_3 :
    fired_of (
      timer_process
        (λ t c. timer_start t c.last_run 100000 c)
        5
        2
        1320000
        (timer_start 7 1000000 100000 wheel))
    ≡ some 3
unfolding timer_process timer_start timer_is_stopped init timer_stop run_slot head due next_slot
    slot_off erase count_one
run_3 = refl

timer_start-due_example :
    let n = slot_off wheel 1000020 250000 in
    let d = later 3 (timer_start 7 1000020 250000 wheel) in
    (0 < n)
    × (n ≤ 2047)
    × (mem 7 (due d) ≡ (3 == n))
    × (mem 7 (due d) ≡ true
        → (1000020 + 250000 ≤ d.last_run) × (d.last_run < 1000020 + 250000 + 100000))
timer_start-due_example =
    timer_start-due 7 1000020 250000 3 wheel (wheel-IsValid 7) (omega arith) (omega arith)

-- Two timers that are due now.
abbrev ringing : TimerCtrl
ringing = next_slot (timer_start 8 1000000 90000 (timer_start 7 1000000 100000 wheel))

ringing-IsDue : IsDue (7 ∷ 8 ∷ []) ringing
unfolding due mem Distinct timer_start timer_stop timer_is_stopped slot_off next_slot init
ringing-IsDue = record {
  all = refl;
  distinct = (refl, (refl, tt));
  active = λ t m. ground (arith, m);
}

leave : ℕ → TimerCtrl → TimerCtrl
leave t c = c

leave-Quiet : Quiet leave
unfolding Quiet leave
leave-Quiet t ts c m v = v

run_slot-fires_example :
    (run_slot leave 5 ringing ≡ some (2, fire_all leave (7 ∷ 8 ∷ []) ringing))
    × (due (fire_all leave (7 ∷ 8 ∷ []) ringing) ≡ [])
run_slot-fires_example =
    run_slot-fires leave 5 (7 ∷ 8 ∷ []) ringing leave-Quiet ringing-IsDue (omega arith)

-- A timer that fires stops the one after it.
hush : ℕ → TimerCtrl → TimerCtrl
hush t c = timer_stop (t + 1) c

hush-Calm : Calm hush
unfolding hush
hush-Calm = record {
  wheel = λ t c v. timer_stop-IsWheel (t + 1) c v;
  fewer = λ t c v. timer_stop-due (t + 1) c;
  clock = λ t c. timer_stop-SameClock (t + 1) c;
}

ringing-IsWheel : IsWheel ringing
unfolding mem Distinct timer_start timer_stop timer_is_stopped slot_off next_slot init
ringing-IsWheel = record {
  distinct = λ i.
      if_lem Distinct (1 == i) (7 ∷ 8 ∷ []) _ (λ e. (refl, (refl, tt)))
        (λ e. if_lem Distinct (1 == i) (7 ∷ []) [] (λ z. (refl, tt)) (λ z. tt));
  active = λ i t m. ground (arith, m);
}

behind : 1320000 < ringing.next_run + 4 * 100000
unfolding next_slot init timer_start timer_stop timer_is_stopped slot_off
behind = omega arith

timer_process-catches_up_example :
    (fuel : ℕ) × ((fired : ℕ) × ((d : TimerCtrl) × ((timer_process hush 4 fuel 1320000 ringing
            ≡ some (fired, d))
          × CaughtUp 1320000 ringing d)))
unfolding next_slot timer_start timer_is_stopped init timer_stop
timer_process-catches_up_example =
    timer_process-catches_up hush 4 1320000 ringing hush-Calm ringing-IsWheel (omega arith)
      (omega arith) (omega arith) behind
