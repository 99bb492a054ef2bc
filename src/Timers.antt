-- ===== src/Timers.antt =====
-- The timer wheel of a worker (include/timer.h): 2048 lists of timers, one for each 100 ms. A timer is a
-- number, and the callbacks are a parameter. The time is in microseconds.
pub mod Due
pub mod Process
pub mod Rounds
use libtpa.Base.{
  ℕ, zero, suc, ◌+◌, ◌-◌, ◌*◌, ◌/◌, Bool, true, false, not, ◌&&◌, ◌||◌, Option, some, none, List,
  [], ◌∷◌, ◌++◌, if◌then◌else◌, ltb, leb, ◌==◌, bit_and, u32, u64,
}
use libtpa.Ring.{update}
use libtpa.FlexFifo.{erase, head}

-- struct timer
pub record Timer : Type 0 where
  pub slot_idx : ℕ  -- uint32_t
  pub active : Bool
  pub closed : Bool

-- struct timer_ctrl, with the timers that it has.
pub record TimerCtrl : Type 0 where
  pub next_run : ℕ  -- uint64_t
  pub last_run : ℕ  -- uint64_t
  pub curr_slot_idx : ℕ  -- uint32_t
  pub slots : ℕ → List ℕ
  pub timers : ℕ → Timer

unfoldable pub timer_is_stopped : ℕ → TimerCtrl → Bool
timer_is_stopped t c = not (c.timers t).active

unfoldable pub timer_stop : ℕ → TimerCtrl → TimerCtrl
timer_stop t c =
    let slot = (c.timers t).slot_idx in
    if timer_is_stopped t c then c else record c {
      slots = update c.slots slot (erase t (c.slots slot));
      timers = update c.timers t (record (c.timers t) { active = false });
    }

unfoldable pub timer_close : ℕ → TimerCtrl → TimerCtrl
timer_close t c0 =
    let c = timer_stop t c0 in
    record c { timers = update c.timers t (record (c.timers t) { closed = true }) }

-- The slots from the current one to the one of the timer, an int that a far expiry makes negative. The
-- expiry of 0 counts as 1.
unfoldable pub slot_off : TimerCtrl → ℕ → ℕ → ℕ
slot_off c now expire =
    let off = u32 (
      u64 (now + (if expire == 0 then 1 else expire) + 18446744073709551616 - c.last_run + 99999)
      / 100000) in
    if ltb 2048 off && ltb off 2147483648 then 2048 else off

unfoldable pub timer_start : ℕ → ℕ → ℕ → TimerCtrl → TimerCtrl
timer_start t now expire c =
    let slot = bit_and (u32 (slot_off c now expire + c.curr_slot_idx)) 2047 in
    let stopped = timer_stop t c in
    if not (timer_is_stopped t c) && slot == (c.timers t).slot_idx then c else record stopped {
      slots = update stopped.slots slot (stopped.slots slot ++ (t ∷ []));
      timers =
          update stopped.timers t (record (stopped.timers t) { slot_idx = slot; active = true });
    }

-- `cb` and `arg` are the parameter of timer_process here.
unfoldable pub timer_init : ℕ → TimerCtrl → TimerCtrl
timer_init t c = record c {
  timers = update c.timers t (record { slot_idx = 0; active = false; closed = false });
}

-- The clock moves on by one slot.
unfoldable pub next_slot : TimerCtrl → TimerCtrl
next_slot c = record c {
  last_run = u64 (c.last_run + 100000);
  next_run = u64 (c.next_run + 100000);
  curr_slot_idx = u32 (c.curr_slot_idx + 1);
}

-- The timers of the current slot.
unfoldable pub due : TimerCtrl → List ℕ
due c = c.slots (bit_and c.curr_slot_idx 2047)

-- One more than a result.
unfoldable pub count_one : Option (ℕ × TimerCtrl) → Option (ℕ × TimerCtrl)
count_one none = none
count_one (some (fired, c)) = some (fired + 1, c)

-- The loop over the timers of the slot, which a callback may extend: the number of its rounds is fuel, and
-- `none` says that there is not enough of it. The result counts the timers that fired.
unfoldable pub run_slot : (ℕ → TimerCtrl → TimerCtrl) → ℕ → TimerCtrl → Option (ℕ × TimerCtrl)
run_slot cb zero c = elim (head (due c)) [ none ↦ some (0, c) | some t ↦ none ]
run_slot cb (suc n) c = elim (head (due c)) [
  | none ↦ some (0, c)
  | some t ↦ count_one (run_slot cb n (cb t (timer_stop t c)))
]

-- The rounds of timer_process, of which there are no more than the first number, each with the fuel of
-- the second one. `none` says that one of them is not enough.
unfoldable pub timer_process :
    (ℕ → TimerCtrl → TimerCtrl) → ℕ → ℕ → ℕ → TimerCtrl → Option (ℕ × TimerCtrl)
timer_process cb zero fuel now c = if leb c.next_run now then none else some (0, c)
timer_process cb (suc rounds) fuel now c =
    let rest = elim (run_slot cb fuel (next_slot c)) as (λ x. Option (ℕ × TimerCtrl)) [
      | none ↦ none
      | some (fired, c1) ↦ elim (timer_process cb rounds fuel now c1) [
        | none ↦ none
        | some (more, c2) ↦ some (fired + more, c2)
      ]
    ] in
    if leb c.next_run now then rest else some (0, c)

-- timer_ctrl_init
unfoldable pub init : (ℕ → Timer) → ℕ → TimerCtrl
init timers now = record {
  next_run = u64 (now + 100000);
  last_run = now;
  curr_slot_idx = 0;
  slots = λ i. [];
  timers = timers;
}
