-- ===== src/Tcp/Timeout/Retries.antt =====
-- How long a socket is tried: the retransmission timer as it fires again and again.
use libtpa.Base.{
  ℕ, zero, suc, ◌+◌, ◌<◌, ◌≡◌, refl, ◌∙◌, Bool, true, false, none, some, if◌then◌else◌, leb, arith,
  u8, sub32, ◌⊎◌, if_lem, inl, inr,
}
use libtpa.Tcp.Sock.{
  State, Errno, Tsock, Cfg, Worker, event_add, set_state, is_established, output_enqueue,
}
use libtpa.Tcp.Recovery.{Output, KeepsState, tcp_retrans, regulate_retrans, tcp_reset_retrans}
use libtpa.Tcp.Recovery.State.{tcp_retrans-state}
use libtpa.Tcp.Timeout.{
  Timer, clear_sacked, is_opening, is_syn_rcvd, give_up, reset_retrans_at, start_again,
  tcp_timeout_rto, timeout_of, tcp_timeout_wait, tcp_timeout_keepalive, is_closed, tcp_timeout,
}

-- Sending again leaves the count of timeouts, and a retransmission timer that runs. The functions of Tcp.Xmit are
-- like this (Tcp.Xmit.State).
pub record KeepsTimer (out : Output) : Type 0 where
  pub shift : (n : ℕ) (s : Tsock) → (out.do_tcp_retrans n s).rto_shift ≡ s.rto_shift
  pub timer :
      (n : ℕ) (s : Tsock) (d : ℕ)
      → s.timer_rto ≡ some d
      → (out.do_tcp_retrans n s).timer_rto ≡ some d

-- The retransmission timer fires up to `n` times, and nothing arrives in between; the clock of each round and what is behind
-- the sending functions are in `w` and `out`. A timer is stopped when it fires, and one that does not run never
-- fires. Nothing is done with a socket that has been freed.
pub rto_times : Cfg → (ℕ → Worker) → (ℕ → Output) → ℕ → Tsock → Bool × Tsock
rto_times cfg w out zero s = (false, s)
rto_times cfg w out (suc n) s =
    let r = tcp_timeout Timer.timer_rto cfg (w n) (out n) (record s { timer_rto = none }) in
    let rest = rto_times cfg w out n r.1 in
    elim s.timer_rto [ none ↦ (false, s) | some d ↦ if r.0 then r else rest ]

-- The limit that the state has.
abbrev pub limit : Cfg → Tsock → ℕ
limit cfg s = if is_opening s.state then cfg.syn_retries else cfg.retries

-- The retransmission timer runs.
abbrev pub IsArmed : Tsock → Type 0
IsArmed s = (d : ℕ) × (s.timer_rto ≡ some d)

-- A timeout keeps the socket in its state, or closes it.
abbrev pub KeptOrClosed : Tsock → Bool × Tsock → Type 0
KeptOrClosed s r = ((r.0 ≡ false) × (r.1.state ≡ s.state)) ⊎ (r.1.state ≡ State.closed)

given_up :
    (cfg : Cfg) (w : Worker) (b : Bool) (s : Tsock)
    → ((give_up cfg w b s).1.state ≡ State.closed)
      × ((give_up cfg w b s).1.err ≡ some Errno.etimedout)
unfolding give_up set_state event_add
given_up cfg w b s = (ground arith, ground arith)

regulate_same :
    (s : Tsock)
    → ((regulate_retrans s).rto_shift ≡ s.rto_shift)
      × ((regulate_retrans s).timer_rto ≡ s.timer_rto)
unfolding regulate_retrans tcp_reset_retrans
regulate_same s = (ground arith, ground arith)

start_again-state :
    (out : Output)
    → KeepsState out
    → (w : Worker) (s : Tsock) → (start_again w out s).state ≡ s.state
unfolding start_again output_enqueue reset_retrans_at clear_sacked
start_again-state out keeps w s = grind (arith, tcp_retrans-state out keeps)

start_again-timer :
    (out : Output)
    → KeepsTimer out
    → (w : Worker) (s : Tsock)
    → ((start_again w out s).rto_shift ≡ s.rto_shift) × IsArmed (start_again w out s)
unfolding start_again output_enqueue reset_retrans_at clear_sacked tcp_retrans
start_again-timer out keeps w s =
    (keeps.shift _ _ ∙ (regulate_same _).0, (_, keeps.timer _ _ _ (regulate_same _).1))

module _ (cfg : Cfg) (out : Output) (keeps : KeepsState out) (timers : KeepsTimer out) where
  -- One more timeout below the limit: the state stays and the timer runs again.
  step_below :
      (w : Worker) (s : Tsock)
      → is_closed s.state ≡ false
      → s.rto_shift + 1 < limit cfg s
      → s.rto_shift < 255
      → let r = tcp_timeout Timer.timer_rto cfg w out s in
        (r.0 ≡ false) × (r.1.state ≡ s.state) × (r.1.rto_shift ≡ s.rto_shift + 1) × IsArmed r.1
  unfolding tcp_timeout timeout_of tcp_timeout_rto
  step_below w s h k l =
      let t = record s { rto_shift = u8 (s.rto_shift + 1) } in
      let a = start_again-state out keeps w t in
      let (b, armed) = start_again-timer out timers w t in
      let below : leb (limit cfg s) (u8 (s.rto_shift + 1)) ≡ false = ground (arith, k, l) in
      rw (h, tcp_timeout, below, tcp_timeout_rto) (refl, a, b ∙ omega arith, armed)

  step_at :
      (w : Worker) (s : Tsock)
      → is_closed s.state ≡ false
      → s.rto_shift + 1 ≡ limit cfg s
      → s.rto_shift < 255
      → let r = tcp_timeout Timer.timer_rto cfg w out s in
        (r.1.state ≡ State.closed) × (r.1.err ≡ some Errno.etimedout)
  unfolding tcp_timeout timeout_of tcp_timeout_rto
  step_at w s h k l =
      let at : leb (limit cfg s) (u8 (s.rto_shift + 1)) ≡ true = ground (arith, k, l) in
      rw (h, tcp_timeout, at, tcp_timeout_rto) (given_up cfg w (is_syn_rcvd s.state) _)

module _ (cfg : Cfg) (out : ℕ → Output) (keeps : (n : ℕ) → KeepsState (out n))
    (timers : (n : ℕ) → KeepsTimer (out n)) where
  -- Let the functions that send leave the state, the count of timeouts and a running retransmission timer
  -- alone, as the models of Tcp.Xmit and Tcp.FlagPkt do. For a socket that is not closed, with its
  -- retransmission timer running, and a limit of at most 255: while the number of timeouts is below the limit, the
  -- socket is not freed, its state stays, each timeout is counted, and the timer runs again.
  pub rto_times-below :
      (w : ℕ → Worker) (n : ℕ) (s : Tsock)
      → is_closed s.state ≡ false
      → IsArmed s
      → s.rto_shift + n < limit cfg s
      → limit cfg s < 256
      → let r = rto_times cfg w out n s in
        (r.0 ≡ false) × (r.1.state ≡ s.state) × (r.1.rto_shift ≡ s.rto_shift + n) × IsArmed r.1
  unfolding rto_times
  rto_times-below w zero s h armed k l = (refl, refl, omega arith, armed)
  rto_times-below w (suc n) s h (d, armed) k l =
      let stopped = record s { timer_rto = none } in
      let r = tcp_timeout Timer.timer_rto cfg (w n) (out n) stopped in
      let (free, state, count, again) =
        step_below cfg (out n) (keeps n) (timers n) (w n) stopped h (omega arith) (omega arith) in
      let same : limit cfg r.1 ≡ limit cfg s = rw state refl in
      let rest = rto_times-below w n r.1 (rw state h) again (omega arith) (omega arith) in
      rw (armed, rto_times)
        (rw (free, rto_times) (rest.0, rest.1 ∙ state, rest.2 ∙ omega (arith, count), rest.3))

  -- Let the functions that send leave the state, the count of timeouts and a running retransmission timer
  -- alone, as the models of Tcp.Xmit and Tcp.FlagPkt do. For a socket that is not closed, with its
  -- retransmission timer running, and a limit of at most 255, when nothing arrives: the timer fires again and again,
  -- and the timeout that brings the count to the limit closes the socket with ETIMEDOUT, so the sender
  -- does not try for ever.
  pub rto_times-closed :
      (w : ℕ → Worker) (n : ℕ) (s : Tsock)
      → is_closed s.state ≡ false
      → IsArmed s
      → s.rto_shift + suc n ≡ limit cfg s
      → limit cfg s < 256
      → let r = rto_times cfg w out (suc n) s in
        (r.1.state ≡ State.closed) × (r.1.err ≡ some Errno.etimedout)
  unfolding rto_times
  rto_times-closed w zero s h (d, armed) k l =
      let r = tcp_timeout Timer.timer_rto cfg (w zero) (out zero) (record s { timer_rto = none }) in
      let closed =
        step_at cfg (out zero) (keeps zero) (timers zero) (w zero) (record s { timer_rto = none }) h
          (omega arith) (omega arith) in
      rw (armed, rto_times)
        (if_lem
          (λ (x : Bool × Tsock). (x.1.state ≡ State.closed) × (x.1.err ≡ some Errno.etimedout)) r.0
          r (false, r.1) (λ e. closed) (λ e. closed))
  rto_times-closed w (suc n) s h (d, armed) k l =
      let stopped = record s { timer_rto = none } in
      let r = tcp_timeout Timer.timer_rto cfg (w (suc n)) (out (suc n)) stopped in
      let (free, state, count, again) =
        step_below cfg (out (suc n)) (keeps (suc n)) (timers (suc n)) (w (suc n)) stopped h
          (omega arith) (omega arith) in
      let same : limit cfg r.1 ≡ limit cfg s = rw state refl in
      rw (armed, rto_times)
        (rw (free, rto_times)
          (rto_times-closed w n r.1 (rw state h) again (omega arith) (omega arith)))

module _ (cfg : Cfg) (out : Output) (keeps : KeepsState out) where
  rto-state : (w : Worker) (s : Tsock) → KeptOrClosed s (tcp_timeout_rto cfg w out s)
  unfolding tcp_timeout_rto
  rto-state w s =
      if_lem (KeptOrClosed s) (leb (limit cfg s) (u8 (s.rto_shift + 1))) _ _
        (λ e. inr (given_up cfg w (is_syn_rcvd s.state) _).0)
        (λ e. inl (refl, start_again-state out keeps w _))

  keepalive-state : (w : Worker) (s : Tsock) → KeptOrClosed s (tcp_timeout_keepalive cfg w out s)
  unfolding tcp_timeout_keepalive
  keepalive-state w s =
      let probed = keeps.flag_with_seq (sub32 s.snd_una 1) _ in
      if_lem (KeptOrClosed s) (leb cfg.retries s.keepalive_shift) _ _
        (λ e. inr (given_up cfg w false _).0)
        λ e.
          if_lem (KeptOrClosed s) (is_established s.state) _ _ (λ f. inl (refl, probed))
            (λ f. inl (refl, refl))

  -- Let the functions that send leave the state alone, as the models of Tcp.Xmit and Tcp.FlagPkt do.
  -- Whichever timer fires, in whatever state: the socket is kept in its state, or it is closed. So a
  -- socket is freed only when it is closed.
  pub tcp_timeout-state :
      (timer : Timer) (w : Worker) (s : Tsock) → KeptOrClosed s (tcp_timeout timer cfg w out s)
  unfolding tcp_timeout timeout_of tcp_timeout_wait set_state
  tcp_timeout-state timer w s =
      if_lem (KeptOrClosed s) (is_closed s.state) _ _ (λ e. inl (refl, refl)) (λ e. fired timer)
    where
      fired : (t : Timer) → KeptOrClosed s (timeout_of t cfg w out s)
      fired Timer.timer_rto = rto-state w s
      fired Timer.timer_wait = inr refl
      fired Timer.timer_keepalive = keepalive-state w s
      fired Timer.unknown = inl (refl, refl)
