-- ===== src/Timers/Rounds.antt =====
-- The rounds of timer_process end, with the clock of the wheel caught up.
use libtpa.Base.{
  ℕ, zero, suc, ◌+◌, ◌*◌, ◌≤◌, ◌<◌, ◌≡◌, ◌⊎◌, inl, inr, refl, sym, ap, ◌∙◌, true, false, some, List,
  [], ◌∷◌, leb, ◌==◌, bit_and, arith, max, u32, if_lem, ==_iff, ==_refl, length, Bool-cases,
}
use libtpa.FlexFifo.{erase}
use libtpa.FlexFifo.Refine.{mem, Distinct}
use libtpa.Timers.{
  TimerCtrl, timer_is_stopped, timer_stop, next_slot, due, count_one, run_slot, timer_process,
}
use libtpa.Timers.Process.{run_slot-none, run_slot-some}

-- Each list has its timers once, and they are active and of this slot.
pub record IsWheel (c : TimerCtrl) : Type 0 where
  pub distinct : (i : ℕ) → Distinct (c.slots i)
  pub active :
      (i t : ℕ)
      → mem t (c.slots i) ≡ true
      → (timer_is_stopped t c ≡ false) × ((c.timers t).slot_idx ≡ i)

-- The clock of the wheel.
pub record SameClock (c d : TimerCtrl) : Type 0 where
  pub next_run : d.next_run ≡ c.next_run
  pub last_run : d.last_run ≡ c.last_run
  pub curr : d.curr_slot_idx ≡ c.curr_slot_idx

-- A callback that leaves the clock alone, keeps the wheel and adds no timers to the current slot.
pub record Calm (cb : ℕ → TimerCtrl → TimerCtrl) : Type 0 where
  pub wheel : (t : ℕ) (c : TimerCtrl) → IsWheel c → IsWheel (cb t c)
  pub fewer : (t : ℕ) (c : TimerCtrl) → IsWheel c → length (due (cb t c)) ≤ length (due c)
  pub clock : (t : ℕ) (c : TimerCtrl) → SameClock c (cb t c)

mem-erase : (t u : ℕ) (ts : List ℕ) → mem u (erase t ts) ≡ true → mem u ts ≡ true
unfolding mem erase
mem-erase t u [] h = h
mem-erase t u (x ∷ xs) h = ground (arith, h, mem-erase t u xs)

not_erased : (t u : ℕ) (ts : List ℕ) → mem u ts ≡ false → mem u (erase t ts) ≡ false
unfolding mem erase
not_erased t u [] h = refl
not_erased t u (x ∷ xs) h = ground (arith, h, not_erased t u xs)

erase-Distinct : (t : ℕ) (ts : List ℕ) → Distinct ts → Distinct (erase t ts)
unfolding Distinct erase
erase-Distinct t [] d = tt
erase-Distinct t (x ∷ xs) (a, d) =
    if_lem Distinct (x == t) xs (x ∷ erase t xs) (λ e. d)
      (λ e. (not_erased t x xs a, erase-Distinct t xs d))

erased_gone : (t : ℕ) (ts : List ℕ) → Distinct ts → mem t (erase t ts) ≡ false
unfolding Distinct erase mem
erased_gone t [] d = refl
erased_gone t (x ∷ xs) (a, d) =
    ground (arith, a, erased_gone t xs d, (==_iff x t).0, (==_iff t x).0)

pub timer_stop-IsWheel : (t : ℕ) (c : TimerCtrl) → IsWheel c → IsWheel (timer_stop t c)
unfolding timer_stop timer_is_stopped
timer_stop-IsWheel t c v =
    let slot = (c.timers t).slot_idx in
    if_lem IsWheel (timer_is_stopped t c) c _ (λ e. v)
      (λ e. record {
        distinct = λ i.
            if_lem Distinct (slot == i) _ _ (λ z. erase-Distinct t (c.slots slot) (v.distinct slot))
              (λ z. v.distinct i);
        active = λ i u m.
            let there : (slot ≡ i → mem u (erase t (c.slots slot)) ≡ true)
                × ((slot == i) ≡ false → mem u (c.slots i) ≡ true) =
              (λ z. ground (arith, m, (==_iff slot i).1 z), λ z. ground (arith, m, z)) in
            let gone = erased_gone t (c.slots slot) (v.distinct slot) in
            elim (Bool-cases (t == u)) [
              | inl z ↦
                  (let e : t ≡ u = (==_iff t u).0 z in
                    elim (Bool-cases (slot == i)) [
                      | inl y ↦ absurd (
                          ground (
                            arith,
                            there.0 ((==_iff slot i).0 y),
                            gone,
                            ap (λ x. mem x (erase t (c.slots slot))) e,
                          ))
                      | inr y ↦ absurd (
                          ground (
                            arith,
                            y,
                            v.active i t (ap (λ x. mem x (c.slots i)) e ∙ there.1 y),
                            ==_iff slot i,
                          ))
                    ])
              | inr z ↦ elim (Bool-cases (slot == i)) [
                | inl y ↦
                    (let at =
                        v.active slot u
                          (mem-erase t u (c.slots slot) (there.0 ((==_iff slot i).0 y))) in
                      ground (arith, z, at, (==_iff slot i).0 y))
                | inr y ↦ ground (arith, z, v.active i u (there.1 y))
              ]
            ];
      })

length-erase : (t : ℕ) (ts : List ℕ) → length (erase t ts) ≤ length ts
unfolding erase
length-erase t [] = omega arith
length-erase t (x ∷ xs) = ground (arith, length-erase t xs)

pub timer_stop-due : (t : ℕ) (c : TimerCtrl) → length (due (timer_stop t c)) ≤ length (due c)
unfolding due timer_stop
timer_stop-due t c =
    let slot = (c.timers t).slot_idx in
    if_lem (λ d. length (due d) ≤ length (due c)) (timer_is_stopped t c) c _ (λ e. omega arith)
      (λ e.
        if_lem (λ ts. length ts ≤ length (due c)) (slot == bit_and c.curr_slot_idx 2047)
          (erase t (c.slots slot)) (due c)
          (λ z. omega (
            arith,
            length-erase t (c.slots slot),
            ap (λ i. length (c.slots i)) ((==_iff slot (bit_and c.curr_slot_idx 2047)).0 z),
          ))
          (λ z. omega arith))

pub timer_stop-SameClock : (t : ℕ) (c : TimerCtrl) → SameClock c (timer_stop t c)
unfolding timer_stop
timer_stop-SameClock t c = record {
  next_run = ground arith;
  last_run = ground arith;
  curr = ground arith;
}

stopped-due :
    (t : ℕ) (ts : List ℕ) (c : TimerCtrl) → IsWheel c → due c ≡ t ∷ ts → due (timer_stop t c) ≡ ts
unfolding due timer_stop timer_is_stopped mem erase
stopped-due t ts c v h =
    let slot = bit_and c.curr_slot_idx 2047 in
    let (on, at) = v.active slot t (ap (mem t) h ∙ ground (arith, ==_refl t)) in
    ground (arith, on, at, ==_refl (c.timers t).slot_idx, h, ap (erase t) h, ==_refl t)

-- The end of the loop over a slot.
pub record SlotDone (cb : ℕ → TimerCtrl → TimerCtrl) (c : TimerCtrl) : Type 0 where
  pub fired : ℕ
  pub after : TimerCtrl
  pub runs : (n : ℕ) → length (due c) ≤ n → run_slot cb n c ≡ some (fired, after)
  pub wheel : IsWheel after
  pub clock : SameClock c after
  pub empty : due after ≡ []

SameClock-trans : (c d e : TimerCtrl) → SameClock c d → SameClock d e → SameClock c e
SameClock-trans c d e a b = record {
  next_run = b.next_run ∙ a.next_run;
  last_run = b.last_run ∙ a.last_run;
  curr = b.curr ∙ a.curr;
}

slot_done :
    (cb : ℕ → TimerCtrl → TimerCtrl) (calm : Calm cb) (m : ℕ) (ts : List ℕ) (c : TimerCtrl)
    → IsWheel c
    → due c ≡ ts
    → length ts ≤ m
    → SlotDone cb c
unfolding count_one
slot_done cb calm m [] c v h l = record {
  fired = 0;
  after = c;
  runs = λ n k. run_slot-none cb n c h;
  wheel = v;
  clock = record { next_run = refl; last_run = refl; curr = refl };
  empty = h;
}
slot_done cb calm zero (t ∷ ts) c v h l = absurd (omega (arith, l))
slot_done cb calm (suc m) (t ∷ ts) c v h l =
    let s = timer_stop t c in
    let d = cb t s in
    let wheel = timer_stop-IsWheel t c v in
    let left : length (due d) ≤ length ts =
      omega (arith, calm.fewer t s wheel, ap length (stopped-due t ts c v h)) in
    let rest = slot_done cb calm m (due d) d (calm.wheel t s wheel) refl (omega (arith, left, l)) in
    record {
      fired = rest.fired + 1;
      after = rest.after;
      runs = more t ts c h d left rest.fired rest.after rest.runs refl;
      wheel = rest.wheel;
      clock =
          SameClock-trans c s rest.after (timer_stop-SameClock t c)
            (SameClock-trans s d rest.after (calm.clock t s) rest.clock);
      empty = rest.empty;
    }
  where
    more :
        (t : ℕ) (ts : List ℕ) (c : TimerCtrl)
        → due c ≡ t ∷ ts
        → (d : TimerCtrl) → length (due d) ≤ length ts
        → (fired : ℕ) (after : TimerCtrl)
        → ((n : ℕ) → length (due d) ≤ n → run_slot cb n d ≡ some (fired, after))
        → d ≡ cb t (timer_stop t c)
        → (n : ℕ) → length (due c) ≤ n
        → run_slot cb n c ≡ some (fired + 1, after)
    more t ts c h d left fired after runs e zero k = absurd (omega (arith, k, ap length h))
    more t ts c h d left fired after runs e (suc n) k =
        run_slot-some cb n t ts c h
        ∙ ap (λ x. count_one (run_slot cb n x)) (sym e)
        ∙ ap count_one (runs n (omega (arith, k, left, ap length h)))

-- The clock has moved by whole slots, past `now`. It has not moved at all if it was past `now`; otherwise it is past it by a slot
-- at most, and no timer is left in the slot that it has come to.
pub record CaughtUp (now : ℕ) (c d : TimerCtrl) : Type 0 where
  pub passed : ℕ
  pub next_run : d.next_run ≡ c.next_run + passed * 100000
  pub last_run : d.last_run ≡ c.last_run + passed * 100000
  pub curr : d.curr_slot_idx ≡ u32 (c.curr_slot_idx + passed)
  pub late : now < d.next_run
  pub least :
      ((passed ≡ 0) × (d ≡ c)) ⊎ ((c.next_run ≤ now) × (d.next_run ≤ now + 100000) × (due d ≡ []))

record Ends (cb : ℕ → TimerCtrl → TimerCtrl) (rounds now : ℕ) (c : TimerCtrl) : Type 0 where
  fuel : ℕ
  fired : ℕ
  after : TimerCtrl
  runs : (n : ℕ) → fuel ≤ n → timer_process cb rounds n now c ≡ some (fired, after)
  caught_up : CaughtUp now c after

not_behind :
    (cb : ℕ → TimerCtrl → TimerCtrl) (rounds n now : ℕ) (c : TimerCtrl)
    → now < c.next_run
    → timer_process cb rounds n now c ≡ some (0, c)
unfolding timer_process
not_behind cb zero n now c h = ground (arith, h)
not_behind cb (suc rounds) n now c h = ground (arith, h)

one_round :
    (cb : ℕ → TimerCtrl → TimerCtrl) (rounds n now fired more : ℕ) (c d e : TimerCtrl)
    → c.next_run ≤ now
    → run_slot cb n (next_slot c) ≡ some (fired, d)
    → timer_process cb rounds n now d ≡ some (more, e)
    → timer_process cb (suc rounds) n now c ≡ some (fired + more, e)
unfolding timer_process
one_round cb rounds n now fired more c d e l slot rest =
    let behind : leb c.next_run now ≡ true = ground (arith, l) in
    rw (behind, slot, timer_process) (rw (rest, timer_process) refl)

next_slot-IsWheel : (c : TimerCtrl) → IsWheel c → IsWheel (next_slot c)
unfolding next_slot timer_is_stopped
next_slot-IsWheel c v = record { distinct = v.distinct; active = v.active }

not_behind-Ends :
    (cb : ℕ → TimerCtrl → TimerCtrl) (rounds now : ℕ) (c : TimerCtrl)
    → c.curr_slot_idx < 4294967296
    → now < c.next_run
    → Ends cb rounds now c
not_behind-Ends cb rounds now c word h = record {
  fuel = 0;
  fired = 0;
  after = c;
  runs = λ n k. not_behind cb rounds n now c h;
  caught_up = record {
    passed = 0;
    next_run = omega arith;
    last_run = omega arith;
    curr = omega (arith, word);
    late = h;
    least = inl (refl, refl);
  };
}

timer_process-Ends :
    (cb : ℕ → TimerCtrl → TimerCtrl) (calm : Calm cb) (rounds now : ℕ) (c : TimerCtrl)
    → IsWheel c
    → now < 9223372036854775808
    → c.last_run ≤ c.next_run
    → c.curr_slot_idx < 4294967296
    → now < c.next_run + rounds * 100000
    → Ends cb rounds now c
unfolding next_slot
timer_process-Ends cb calm zero now c v small order word h =
    not_behind-Ends cb zero now c word (omega (arith, h))
timer_process-Ends cb calm (suc rounds) now c v small order word h =
    elim (Bool-cases (leb c.next_run now)) [
      | inr e ↦ not_behind-Ends cb (suc rounds) now c word (ground (arith, e))
      | inl e ↦
          (let l : c.next_run ≤ now = ground (arith, e) in
            let slot =
              slot_done cb calm (length (due (next_slot c))) (due (next_slot c)) (next_slot c)
                (next_slot-IsWheel c v) refl (omega arith) in
            let d = slot.after in
            let clock = slot.clock in
            let rest =
              timer_process-Ends cb calm rounds now d slot.wheel small
                (omega (arith, clock.next_run, clock.last_run, order, l, small))
                (omega (arith, clock.curr)) (omega (arith, clock.next_run, h, l, small)) in
            let caught = rest.caught_up in
            record {
              fuel = max (length (due (next_slot c))) rest.fuel;
              fired = slot.fired + rest.fired;
              after = rest.after;
              runs = λ n k.
                  one_round cb rounds n now slot.fired rest.fired c d rest.after l
                    (slot.runs n (omega (arith, k))) (rest.runs n (omega (arith, k)));
              caught_up = record {
                passed = caught.passed + 1;
                next_run = omega (arith, caught.next_run, clock.next_run, l, small);
                last_run = omega (arith, caught.last_run, clock.last_run, order, l, small);
                curr = omega (arith, caught.curr, clock.curr);
                late = caught.late;
                least = inr (
                  l,
                  elim caught.least [
                    | inl (z, same) ↦
                        omega
                          (arith, ap (λ (x : TimerCtrl). x.next_run) same, clock.next_run, l, small)
                    | inr (k, m, x) ↦ m
                  ],
                  elim caught.least [
                    | inl (z, same) ↦ ap due same ∙ slot.empty
                    | inr (k, m, x) ↦ x
                  ],
                );
              };
            })
    ]

-- Take a time below 2^63 microseconds, a wheel with each timer of a slot once in its list, active and of that
-- slot, with a last run that is not after the next one and a 32-bit slot number, callbacks that keep such a
-- wheel, leave its clock alone and do not lengthen the list of the current slot, and as many rounds as
-- slots that the wheel is behind. Then with some number of timers as the fuel of a slot, both loops of
-- timer_process end. The clock of the wheel, the current slot included, has then moved by a number of whole
-- slots, so that next_run is after `now`. If it was after it before, nothing has changed; otherwise it is
-- after it by at most a slot, and no timer is left in the slot that the wheel has come to.
pub timer_process-catches_up :
    (cb : ℕ → TimerCtrl → TimerCtrl) (rounds now : ℕ) (c : TimerCtrl)
    → Calm cb
    → IsWheel c
    → now < 9223372036854775808
    → c.last_run ≤ c.next_run
    → c.curr_slot_idx < 4294967296
    → now < c.next_run + rounds * 100000
    → (fuel : ℕ) × ((fired : ℕ) × ((d : TimerCtrl) × ((timer_process cb rounds fuel now c
              ≡ some (fired, d))
            × CaughtUp now c d)))
timer_process-catches_up cb rounds now c calm v small order word h =
    let ends = timer_process-Ends cb calm rounds now c v small order word h in
    (ends.fuel, (ends.fired, (ends.after, (ends.runs ends.fuel (omega arith), ends.caught_up))))
