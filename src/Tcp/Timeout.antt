-- ===== src/Tcp/Timeout.antt =====
-- The timers of a socket when they fire (src/tcp/tcp_timeout.c). The result says whether the socket was
-- given to tsock_free; then nothing of it is used any more. The refresh of the Ethernet header and the
-- statistics are left out.
pub mod Sacked
pub mod Retries
use libtpa.Base.{
  ℕ, zero, suc, ◌+◌, ◌*◌, ◌/◌, ◌^◌, Bool, true, false, ◌||◌, none, some, if◌then◌else◌, leb, ◌==◌,
  min, max, bit_and, u8, u16, u32, sub16, sub32,
}
use libtpa.Ring.{update}
use libtpa.TcpQueue.Txq
use libtpa.TcpQueue.Txq.{Txq}
use libtpa.Tcp.Sock.{
  Desc, State, Stage, Errno, Tsock, Cfg, Worker, event_add, event_err, set_state, output_enqueue,
  deadline, is_established,
}
use libtpa.Tcp.Recovery.{Output, tcp_retrans}

-- The timers of a socket, and anything else.
pub data Timer : Type 0 where
  timer_rto timer_wait timer_keepalive unknown : Timer

-- The loop of clear_sacked; `off` is `idx`. Fuel is the number of descriptors and one: the peek at their
-- number returns NULL.
unfoldable pub clear_loop : ℕ → ℕ → Txq Desc → Txq Desc
clear_loop zero off q = q
clear_loop (suc n) off q = elim (Txq.peek_for_write q q.una off) [
  | none ↦ q
  | some d ↦ clear_loop n (u16 (off + 1)) (record q {
    descs = update q.descs (bit_and (q.una + off) q.mask) (record d { sacked = false });
  })
]

unfoldable pub clear_sacked : Tsock → Tsock
clear_sacked s =
    let q = s.txq in record s { txq = clear_loop (sub16 q.write q.una + 1) 0 q; sacked_bytes = 0 }

-- The handshake is not over.
unfoldable pub is_opening : State → Bool
is_opening State.syn_sent = true
is_opening State.syn_rcvd = true
is_opening _ = false

unfoldable pub is_syn_rcvd : State → Bool
is_syn_rcvd State.syn_rcvd = true
is_syn_rcvd _ = false

-- The end of a socket that has waited too long.
unfoldable pub give_up : Cfg → Worker → Bool → Tsock → Bool × Tsock
give_up cfg w to_close s =
    let t = set_state cfg w State.closed (record s { err = some Errno.etimedout }) in
    if s.close_issued || to_close then (true, t) else (false, event_add event_err t)

-- sock.h: tcp_reset_retrans
unfoldable pub reset_retrans_at : ℕ → Tsock → Tsock
reset_retrans_at seq s = record s { retrans_seq = seq; retrans_desc_base = s.txq.una }

-- The window after a timeout, the timer, and the data sent again.
unfoldable pub start_again : Worker → Output → Tsock → Tsock
start_again w out s0 =
    let s = clear_sacked s0 in
    let t = record s {
      retrans_stage = Stage.rto;
      snd_recover = s.snd_nxt;
      cc = record (s.cc) {
        ssthresh = max (s.cc.snd_cwnd / 2) (2 * s.cc.snd_mss);
        snd_cwnd = s.cc.snd_mss;
      };
      timer_rto = deadline w.ts_us (min 120000000 (u32 (s.est.rto * 2 ^ s.rto_shift)));
    } in
    let seq = if is_opening s.state then u32 (s.snd_una + 1) else s.snd_una in
    output_enqueue (tcp_retrans out (reset_retrans_at seq t))

-- TCP_RTO_MAX is 120000000 above.
unfoldable pub tcp_timeout_rto : Cfg → Worker → Output → Tsock → Bool × Tsock
tcp_timeout_rto cfg w out s =
    let t = record s { rto_shift = u8 (s.rto_shift + 1) } in
    let limit = if is_opening s.state then cfg.syn_retries else cfg.retries in
    if leb limit t.rto_shift
    then give_up cfg w (is_syn_rcvd s.state) t
    else (false, start_again w out t)

unfoldable pub tcp_timeout_wait : Cfg → Worker → Tsock → Bool × Tsock
tcp_timeout_wait cfg w s = (true, set_state cfg w State.closed s)

unfoldable pub tcp_timeout_keepalive : Cfg → Worker → Output → Tsock → Bool × Tsock
tcp_timeout_keepalive cfg w out s =
    let t = record s { keepalive_shift = u8 (s.keepalive_shift + 1) } in
    let probed =
      out.xmit_flag_packet_with_seq (sub32 t.snd_una 1)
        (record t { flags = record (t.flags) { ack_needed = true } }) in
    if leb cfg.retries s.keepalive_shift
    then give_up cfg w false t
    else if is_established s.state
    then (false, record probed { timer_keepalive = deadline w.ts_us cfg.keepalive })
    else (false, t)

unfoldable pub timeout_of : Timer → Cfg → Worker → Output → Tsock → Bool × Tsock
timeout_of Timer.timer_rto cfg w out s = tcp_timeout_rto cfg w out s
timeout_of Timer.timer_wait cfg w out s = tcp_timeout_wait cfg w s
timeout_of Timer.timer_keepalive cfg w out s = tcp_timeout_keepalive cfg w out s
timeout_of Timer.unknown cfg w out s = (false, s)

unfoldable pub is_closed : State → Bool
is_closed State.closed = true
is_closed _ = false

-- timer_process stops the timer before it calls this.
unfoldable pub tcp_timeout : Timer → Cfg → Worker → Output → Tsock → Bool × Tsock
tcp_timeout timer cfg w out s =
    if is_closed s.state then (false, s) else timeout_of timer cfg w out s
