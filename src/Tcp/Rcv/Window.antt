-- ===== src/Tcp/Rcv/Window.antt =====
-- A segment outside the receive window has no effect on the connection, whatever its flags.
use libtpa.Base.{
  ◌<◌, ◌≡◌, ◌≢◌, refl, ◌∙◌, Bool, true, false, not, ◌&&◌, some, if◌then◌else◌, ◌==◌, arith,
}
use libtpa.Tcp.Seq.{seq_lt, seq_le, seq_ge}
use libtpa.Tcp.Sock.{
  Seg, State, Err, Tsock, Cfg, Worker, set_ack_flag, reset_quickack, rearm_keepalive,
  is_established,
}
use libtpa.Tcp.Recovery.{Output}
use libtpa.Tcp.Establish.{Opts, with_opts}
use libtpa.Tcp.AckIn.{AckGroup, ack_group}
use libtpa.Tcp.Rcv.{send_ack, rcv_checked, rcv_in_state, rcv_slow, tcp_rcv_pkt}
use libtpa.Tcp.Handlers.{tcp_rcv_fastpath, is_expected, validate_seq, process_incoming_seq}

-- The connection and all data of both directions are as before.
pub record Untouched (s t : Tsock) : Type 0 where
  pub state : t.state ≡ s.state
  pub err : t.err ≡ s.err
  pub put : t.flags.put ≡ s.flags.put
  pub rcv_nxt : t.rcv_nxt ≡ s.rcv_nxt
  pub rcv_wnd : t.rcv_wnd ≡ s.rcv_wnd
  pub rxq : t.rxq ≡ s.rxq
  pub rcv_ooo_queue : t.rcv_ooo_queue ≡ s.rcv_ooo_queue
  pub snd_una : t.snd_una ≡ s.snd_una
  pub txq : t.txq ≡ s.txq
  pub ts_recent : t.ts_recent ≡ s.ts_recent

Untouched-self : (s : Tsock) → Untouched s s
Untouched-self s = record {
  state = refl;
  err = refl;
  put = refl;
  rcv_nxt = refl;
  rcv_wnd = refl;
  rxq = refl;
  rcv_ooo_queue = refl;
  snd_una = refl;
  txq = refl;
  ts_recent = refl;
}

if_Untouched :
    (b : Bool) (s t u : Tsock) → Untouched s t → Untouched s u → Untouched s (if b then t else u)
if_Untouched true s t u h k = h
if_Untouched false s t u h k = k

flag-Untouched : (cfg : Cfg) (s t : Tsock) → Untouched s t → Untouched s (set_ack_flag cfg true t)
unfolding set_ack_flag
flag-Untouched cfg s t h = record {
  state = h.state;
  err = h.err;
  put = h.put;
  rcv_nxt = h.rcv_nxt;
  rcv_wnd = h.rcv_wnd;
  rxq = h.rxq;
  rcv_ooo_queue = h.rcv_ooo_queue;
  snd_una = h.snd_una;
  txq = h.txq;
  ts_recent = h.ts_recent;
}

quickack-Untouched : (s t : Tsock) → Untouched s t → Untouched s (reset_quickack t)
unfolding reset_quickack
quickack-Untouched s t h = record {
  state = h.state;
  err = h.err;
  put = h.put;
  rcv_nxt = h.rcv_nxt;
  rcv_wnd = h.rcv_wnd;
  rxq = h.rxq;
  rcv_ooo_queue = h.rcv_ooo_queue;
  snd_una = h.snd_una;
  txq = h.txq;
  ts_recent = h.ts_recent;
}

keepalive-Untouched : (cfg : Cfg) (w : Worker) (s : Tsock) → Untouched s (rearm_keepalive cfg w s)
unfolding rearm_keepalive
keepalive-Untouched cfg w s =
    if_Untouched (cfg.keepalive == 0) s _ _
      (record {
        state = refl;
        err = refl;
        put = refl;
        rcv_nxt = refl;
        rcv_wnd = refl;
        rxq = refl;
        rcv_ooo_queue = refl;
        snd_una = refl;
        txq = refl;
        ts_recent = refl;
      })
      (record {
        state = refl;
        err = refl;
        put = refl;
        rcv_nxt = refl;
        rcv_wnd = refl;
        rxq = refl;
        rcv_ooo_queue = refl;
        snd_una = refl;
        txq = refl;
        ts_recent = refl;
      })

send_ack-Untouched :
    (cfg : Cfg) (p : Seg) (s t : Tsock) → Untouched s t → Untouched s (send_ack cfg p t)
unfolding send_ack
send_ack-Untouched cfg p s t h = if_Untouched p.rst s _ _ h (
    flag-Untouched cfg s _ (
      if_Untouched (not (p.len == 0) && seq_lt p.seq t.rcv_nxt) s _ _ (quickack-Untouched s t h) h))

-- The number is looked at before the options, and neither they nor the timer matter.
same_verdict :
    (cfg : Cfg) (w : Worker) (opts : Opts) (p : Seg) (s : Tsock)
    → validate_seq (with_opts opts p) (rearm_keepalive cfg w s) ≡ validate_seq p s
unfolding validate_seq with_opts rearm_keepalive
same_verdict cfg w opts p s = ground arith

refused :
    (w : Worker) (opts : Opts) (p : Seg) (s : Tsock)
    → validate_seq p s ≡ false
    → process_incoming_seq w opts p s ≡ (some Err.invalid_seq, s)
unfolding process_incoming_seq
refused w opts p s h = rw h refl

-- The fast path wants the next byte and an open window.
not_expected :
    (p : Seg) (s : Tsock)
    → validate_seq p s ≡ false
    → p.len < 65536
    → s.rcv_nxt < 4294967296
    → s.rcv_wnd < 2147483648
    → is_expected p s ≡ false
unfolding validate_seq is_expected seq_le seq_ge
not_expected p s h l n v = ground (arith, h)

fastpath-refused :
    (cfg : Cfg) (w : Worker) (p : Seg) (s : Tsock)
    → is_expected p s ≡ false
    → tcp_rcv_fastpath cfg w p s ≡ (false, p, s)
unfolding tcp_rcv_fastpath
fastpath-refused cfg w p s h = rw h refl

module _ (cfg : Cfg) (w : Worker) (out : Output) (opts : Opts) where
  checked-Untouched :
      (p : Seg) (s : Tsock)
      → validate_seq p s ≡ false
      → let p' = with_opts opts p in
        let r =
          rcv_checked cfg w out opts p'
            (process_incoming_seq w opts p' (rearm_keepalive cfg w s)) in
        (r.0 ≡ some Err.invalid_seq) × Untouched s r.2
  unfolding rcv_checked
  checked-Untouched p s h =
      let s' = rearm_keepalive cfg w s in
      let p' = with_opts opts p in
      rw (refused w opts p' s' (same_verdict cfg w opts p s ∙ h))
        (refl, send_ack-Untouched cfg p' s s' (keepalive-Untouched cfg w s))

  slow-Untouched :
      (p : Seg) (s : Tsock) (a : State)
      → ack_group a ≢ AckGroup.other
      → validate_seq p s ≡ false
      → let r = rcv_in_state cfg w out opts p s a in (r.0 ≡ some Err.invalid_seq) × Untouched s r.2
  unfolding rcv_in_state
  slow-Untouched p s State.closed g h = absurd (g refl)
  slow-Untouched p s State.listen g h = absurd (g refl)
  slow-Untouched p s State.syn_sent g h = absurd (g refl)
  slow-Untouched p s State.syn_rcvd g h = checked-Untouched p s h
  slow-Untouched p s State.established g h = checked-Untouched p s h
  slow-Untouched p s State.fin_wait_1 g h = checked-Untouched p s h
  slow-Untouched p s State.fin_wait_2 g h = checked-Untouched p s h
  slow-Untouched p s State.close_wait g h = checked-Untouched p s h
  slow-Untouched p s State.closing g h = checked-Untouched p s h
  slow-Untouched p s State.last_ack g h = checked-Untouched p s h
  slow-Untouched p s State.time_wait g h = checked-Untouched p s h

  -- From SYN_RCVD on, with a window below 2^31, a segment that fails validate_seq and belongs to the
  -- worker is answered with ERR_TCP_INVALID_SEQ, and also if it carries RST, SYN, FIN or an acknowledgement
  -- it changes neither the state nor the data of either direction nor the timestamp to echo.
  pub tcp_rcv_pkt-Untouched :
      (p : Seg) (s : Tsock)
      → ack_group s.state ≢ AckGroup.other
      → validate_seq p s ≡ false
      → p.wid ≡ w.id
      → p.len < 65536
      → s.rcv_nxt < 4294967296
      → s.rcv_wnd < 2147483648
      → let r = tcp_rcv_pkt cfg w out opts p s in (r.0 ≡ some Err.invalid_seq) × Untouched s r.2
  unfolding tcp_rcv_pkt rcv_slow
  tcp_rcv_pkt-Untouched p s g h i l n v =
      let slow = slow-Untouched p s s.state g h in
      let same : (p.wid == w.id) ≡ true = ground (arith, i) in
      rw (same, fastpath-refused cfg w p s (not_expected p s h l n v))
        (either (is_established s.state) slow)
    where
      either :
          (b : Bool)
          → let r = rcv_in_state cfg w out opts p s s.state in
            (r.0 ≡ some Err.invalid_seq) × Untouched s r.2
            → let q = (if not b then r else r) in (q.0 ≡ some Err.invalid_seq) × Untouched s q.2
      either true h = h
      either false h = h
