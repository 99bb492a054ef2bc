-- ===== src/Timers/Process.antt =====
-- The loop over a slot fires its timers.
use libtpa.Base.{
  ℕ, zero, suc, ◌+◌, ◌≤◌, ◌≡◌, refl, ap, ◌∙◌, true, false, Option, some, none, List, [], ◌∷◌,
  bit_and, arith, ==_iff, ==_refl, length,
}
use libtpa.FlexFifo.{erase, head}
use libtpa.FlexFifo.Refine.{mem, Distinct}
use libtpa.Timers.{TimerCtrl, timer_is_stopped, timer_stop, due, count_one, run_slot}

-- The timers `ts` are what is left in the current slot, each of them once and active.
pub record IsDue (ts : List ℕ) (c : TimerCtrl) : Type 0 where
  pub all : due c ≡ ts
  pub distinct : Distinct ts
  pub active :
      (t : ℕ)
      → mem t ts ≡ true
      → (timer_is_stopped t c ≡ false) × ((c.timers t).slot_idx ≡ bit_and c.curr_slot_idx 2047)

-- A callback that leaves the timers of the current slot alone, whatever it does to the others.
unfoldable pub Quiet : (ℕ → TimerCtrl → TimerCtrl) → Type 0
Quiet cb = (t : ℕ) (ts : List ℕ) (c : TimerCtrl) → mem t ts ≡ false → IsDue ts c → IsDue ts (cb t c)

timer_stop-IsDue :
    (t : ℕ) (ts : List ℕ) (c : TimerCtrl) → IsDue (t ∷ ts) c → IsDue ts (timer_stop t c)
unfolding timer_stop timer_is_stopped due mem Distinct erase
timer_stop-IsDue t ts c v =
    let (on, at) = v.active t (ground (arith, ==_refl t)) in
    record {
      all =
          ground
            (arith, on, at, ==_refl (c.timers t).slot_idx, v.all, ap (erase t) v.all, ==_refl t);
      distinct = v.distinct.1;
      active = λ u m. ground (arith, on, v.active u, m, v.distinct.0, (==_iff t u).0);
    }

-- The timers are stopped and their callbacks are called, one after the other.
unfoldable pub fire_all : (ℕ → TimerCtrl → TimerCtrl) → List ℕ → TimerCtrl → TimerCtrl
fire_all cb [] c = c
fire_all cb (t ∷ ts) c = fire_all cb ts (cb t (timer_stop t c))

pub run_slot-none :
    (cb : ℕ → TimerCtrl → TimerCtrl) (n : ℕ) (c : TimerCtrl)
    → due c ≡ []
    → run_slot cb n c ≡ some (0, c)
unfolding run_slot head
run_slot-none cb zero c h = rw (ap head h, run_slot) refl
run_slot-none cb (suc n) c h = rw (ap head h, run_slot) refl

pub run_slot-some :
    (cb : ℕ → TimerCtrl → TimerCtrl) (n t : ℕ) (ts : List ℕ) (c : TimerCtrl)
    → due c ≡ t ∷ ts
    → run_slot cb (suc n) c ≡ count_one (run_slot cb n (cb t (timer_stop t c)))
unfolding run_slot head
run_slot-some cb n t ts c h =
    ap
      (λ first. elim first as (λ x. Option (ℕ × TimerCtrl)) [
        | none ↦ some (0, c)
        | some u ↦ count_one (run_slot cb n (cb u (timer_stop u c)))
      ])
      (ap head h)

-- Let the timers of the current slot be active, of that slot, and once in its list each, and let the callback
-- of a timer leave those that are still to fire so. Then the loop over the slot ends, in as many rounds
-- as there are timers or with any larger number of them. Each timer of the slot has fired by then, in
-- order: it was stopped, and its callback was called. The slot is empty.
pub run_slot-fires :
    (cb : ℕ → TimerCtrl → TimerCtrl) (n : ℕ) (ts : List ℕ) (c : TimerCtrl)
    → Quiet cb
    → IsDue ts c
    → length ts ≤ n
    → (run_slot cb n c ≡ some (length ts, fire_all cb ts c)) × (due (fire_all cb ts c) ≡ [])
unfolding Quiet Distinct fire_all count_one
run_slot-fires cb n [] c q v h = (run_slot-none cb n c v.all, v.all)
run_slot-fires cb zero (t ∷ ts) c q v h = absurd (omega (arith, h))
run_slot-fires cb (suc n) (t ∷ ts) c q v h =
    let d = cb t (timer_stop t c) in
    let stopped = timer_stop-IsDue t ts c v in
    let (fired, empty) =
      run_slot-fires cb n ts d q (q t ts _ v.distinct.0 stopped) (omega (arith, h)) in
    (
      run_slot-some cb n t ts c v.all
          ∙ ap count_one fired
          ∙ ap (λ k. some (k, fire_all cb ts d))
              (let e : length ts + 1 ≡ length (t ∷ ts) = omega arith in e),
      empty,
    )
