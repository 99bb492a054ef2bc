-- ===== src/Timers/Due.antt =====
-- When a timer is due.
use libtpa.Base.{
  ℕ, zero, suc, ◌+◌, ◌*◌, ◌%◌, ◌≤◌, ◌<◌, ◌≡◌, refl, ap, sym, ◌∙◌, Bool, true, false, not, ◌&&◌, [],
  ◌∷◌, ◌==◌, bit_and, u32, arith, if_lem, ==_iff, ==_refl,
}
use libtpa.Base.Mask.{bit_and_mask}
use libtpa.FlexFifo.{erase}
use libtpa.FlexFifo.Refine.{mem, mem-append}
use libtpa.Timers.{TimerCtrl, timer_is_stopped, timer_stop, slot_off, timer_start, next_slot, due}

-- A timer that is to expire `expire` later than `now`: the wheel is not ahead of the clock, the expiry is
-- within 2047 slots of its last run, and the timer is in the list of its slot, once, when it is active
-- and in no list when it is not.
pub record IsValid (t now expire : ℕ) (c : TimerCtrl) : Type 0 where
  pub ran : c.last_run ≤ now
  pub now_lt : now < 9223372036854775808
  pub expire_pos : 0 < expire
  pub expire_le : now + expire ≤ c.last_run + 204700000
  pub listed :
      (i : ℕ) → mem t (c.slots i) ≡ (not (timer_is_stopped t c) && ((c.timers t).slot_idx == i))
  pub once : mem t (erase t (c.slots (c.timers t).slot_idx)) ≡ false

-- `k` slots later.
abbrev pub later : ℕ → TimerCtrl → TimerCtrl
later zero c = c
later (suc k) c = later k (next_slot c)

slot_lem : (i : ℕ) → bit_and i 2047 ≡ i % 2048
slot_lem i = bit_and_mask 11 i

later-slots : (k : ℕ) (c : TimerCtrl) → (later k c).slots ≡ c.slots
unfolding next_slot
later-slots zero c = refl
later-slots (suc k) c = later-slots k (next_slot c)

later-curr :
    (k : ℕ) (c : TimerCtrl) → (later k c).curr_slot_idx % 2048 ≡ (c.curr_slot_idx + k) % 2048
unfolding next_slot
later-curr zero c = omega arith
later-curr (suc k) c = omega (arith, later-curr k (next_slot c))

slot_off_lem :
    (t now expire : ℕ) (c : TimerCtrl)
    → IsValid t now expire c
    → let n = slot_off c now expire in
      (now + expire ≤ c.last_run + n * 100000)
      × (c.last_run + n * 100000 < now + expire + 100000)
      × (n ≤ 2047)
      × (0 < n)
unfolding slot_off
slot_off_lem t now expire c v =
    let a = v.ran in
    let b = v.now_lt in
    let d = v.expire_pos in
    let e = v.expire_le in (ground arith, ground arith, ground arith, ground arith)

stopped_absent :
    (t now expire i : ℕ) (c : TimerCtrl)
    → IsValid t now expire c
    → mem t ((timer_stop t c).slots i) ≡ false
unfolding timer_stop
stopped_absent t now expire i c v = ground (arith, v.listed i, v.once)

start_slot : ℕ → ℕ → TimerCtrl → ℕ
start_slot now expire c = bit_and (u32 (slot_off c now expire + c.curr_slot_idx)) 2047

started_mem :
    (t now expire i : ℕ) (c : TimerCtrl)
    → IsValid t now expire c
    → mem t ((timer_start t now expire c).slots i) ≡ (start_slot now expire c == i)
unfolding timer_start start_slot mem
started_mem t now expire i c v =
    let slot = start_slot now expire c in
    let stopped = timer_stop t c in
    if_lem (λ (d : TimerCtrl). mem t (d.slots i) ≡ (slot == i))
      (not (timer_is_stopped t c) && slot == (c.timers t).slot_idx) c _
      (λ e. ground (arith, e, v.listed i))
      (λ e. ground (
        arith,
        ==_refl t,
        stopped_absent t now expire i c v,
        mem-append t (stopped.slots slot) (t ∷ []),
      ))

start-curr :
    (t now expire : ℕ) (c : TimerCtrl)
    → ((timer_start t now expire c).curr_slot_idx ≡ c.curr_slot_idx)
      × ((timer_start t now expire c).last_run ≡ c.last_run)
unfolding timer_start timer_stop
start-curr t now expire c = (ground arith, ground arith)

later-run :
    (k : ℕ) (c : TimerCtrl)
    → c.last_run + k * 100000 < 18446744073709551616
    → (later k c).last_run ≡ c.last_run + k * 100000
unfolding next_slot
later-run zero c h = omega arith
later-run (suc k) c h = later-run k (next_slot c) (omega arith) ∙ omega arith

same_slot :
    (curr curr' n k : ℕ)
    → 0 < n
    → n ≤ 2047
    → 0 < k
    → k ≤ 2047
    → curr' % 2048 ≡ (curr + k) % 2048
    → (bit_and (u32 (n + curr)) 2047 == bit_and curr' 2047) ≡ (k == n)
same_slot curr curr' n k a b c d e =
    ground (arith, slot_lem (u32 (n + curr)), slot_lem curr', a, b, c, d, e)

due_times :
    {here there : Bool} (last run goal n k : ℕ)
    → here ≡ true
    → here ≡ there
    → there ≡ (k == n)
    → goal ≤ last + n * 100000
    → last + n * 100000 < goal + 100000
    → run ≡ last + k * 100000
    → (goal ≤ run) × (run < goal + 100000)
due_times last run goal n k e f g early late h =
    let kn = (==_iff k n).0 (sym g ∙ sym f ∙ e) in
    (omega (arith, kn, early, late, h), omega (arith, kn, early, late, h))

-- In a wheel with IsValid for the timer: of the next 2047 slots, a timer that is started is in the list of
-- exactly one, the one of slot_off. When the wheel comes to that slot, the expiry has been reached, and by
-- less than the 100 ms of a slot: a timer fires neither early nor more than a slot late. The
-- wheel is moved on with no other change.
pub timer_start-due :
    (t now expire k : ℕ) (c : TimerCtrl)
    → IsValid t now expire c
    → 0 < k
    → k ≤ 2047
    → let n = slot_off c now expire in
      let d = later k (timer_start t now expire c) in
      (0 < n)
      × (n ≤ 2047)
      × (mem t (due d) ≡ (k == n))
      × (mem t (due d) ≡ true → (now + expire ≤ d.last_run) × (d.last_run < now + expire + 100000))
unfolding due start_slot
timer_start-due t now expire k c v h l =
    let n = slot_off c now expire in
    let s = timer_start t now expire c in
    let d = later k s in
    let (early, late, n_le, n_pos) = slot_off_lem t now expire c v in
    let (curr, run) = start-curr t now expire c in
    let here : mem t (due d) ≡ (start_slot now expire c == bit_and d.curr_slot_idx 2047) =
      ap (λ f. mem t (f (bit_and d.curr_slot_idx 2047))) (later-slots k s)
      ∙ started_mem t now expire (bit_and d.curr_slot_idx 2047) c v in
    let a = v.ran in
    let b = v.now_lt in
    let last = later-run k s (omega (arith, run)) in
    let same : (start_slot now expire c == bit_and d.curr_slot_idx 2047) ≡ (k == n) =
      same_slot c.curr_slot_idx d.curr_slot_idx n k n_pos n_le h l
        (later-curr k s ∙ ap (λ i. (i + k) % 2048) curr) in
    let run' = last ∙ ap (λ r. r + k * 100000) run in
    (
      n_pos,
      n_le,
      here ∙ same,
      λ e. due_times c.last_run d.last_run (now + expire) n k e here same early late run',
    )
