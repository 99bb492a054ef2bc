-- ===== src/Tcp/Handlers.antt =====
-- The handlers that tcp_rcv_pkt calls (src/tcp/tcp_input.c: tcp_rcv_fastpath, validate_seq,
-- process_incoming_seq, tcp_rcv_rst, tcp_rcv_fin and the handlers of LISTEN and SYN_SENT). The creation
-- of a socket for a SYN at a listening one is in Output.
use libtpa.Base.{
  ℕ, ◌+◌, ◌*◌, Bool, true, false, not, ◌&&◌, ◌||◌, Option, some, none, if◌then◌else◌, ltb, ◌==◌,
  u32, sub32,
}
use libtpa.Tcp.Seq.{seq_lt, seq_le, seq_gt, seq_ge}
use libtpa.Tcp.Sock.{
  Seg, State, Errno, Err, Tsock, Cfg, Worker, event_add, event_in, event_err, output_enqueue,
  set_state, set_ack_flag,
}
use libtpa.Tcp.Sock.Errno.{econnrefused, econnreset}
use libtpa.Tcp.Ooo.{tcp_rcv_data}
use libtpa.Tcp.Recovery.{Output, is_none}
use libtpa.Tcp.AckIn.{AckGroup, ack_group, tcp_rcv_ack_fastpath}
use libtpa.Tcp.Establish.{Opts, ts_space, now_in_sec, update_ts_recent, syn_sent_to_established}

abbrev pub Result : Type 0
Result = Option Err × Seg × Tsock

-- The tests of tcp_rcv_fastpath.
unfoldable pub is_expected : Seg → Tsock → Bool
is_expected p s =
    (p.seq == s.rcv_nxt)
    && not (seq_lt p.ack s.snd_una)
    && not (seq_gt p.ack s.snd_nxt)
    && (p.has_ack && not p.fin && not p.syn && not p.rst && not p.urg && not p.ece && not p.cwr)
    && not ((p.len == 0) && (p.ack == s.snd_una))
    && is_none s.retrans_stage
    && not (s.rcv_wnd == 0)
    && ((p.opt_len == ts_space) && p.has_ts_opt)
    && not (seq_lt p.ts_val s.ts_recent)

-- `true` when the fast path consumed the packet. A failure to deliver leaves its traces and the slow path
-- goes on with them.
unfoldable pub tcp_rcv_fastpath : Cfg → Worker → Seg → Tsock → Bool × Seg × Tsock
tcp_rcv_fastpath cfg w p s =
    let s1 = if seq_le p.seq s.last_ack_sent then update_ts_recent w p s else s in
    let (err, p', s2) = tcp_rcv_data cfg w p s1 in
    if not (is_expected p s)
    then (false, p, s)
    else elim err [ some e ↦ (false, p', s2) | none ↦ (true, p', tcp_rcv_ack_fastpath cfg w p' s2) ]

-- `true` when the sequence number is acceptable.
unfoldable pub validate_seq : Seg → Tsock → Bool
validate_seq p s =
    if (p.len == 0) && (p.seq == s.rcv_nxt)
    then true
    else not (seq_le (u32 (p.seq + p.len)) s.rcv_nxt || seq_ge p.seq (u32 (s.rcv_nxt + s.rcv_wnd)))

abbrev pub paws_idle_max : ℕ
paws_idle_max = 24 * 60 * 60 * 24

unfoldable pub process_incoming_seq : Worker → Opts → Seg → Tsock → Option Err × Tsock
process_incoming_seq w opts p s =
    if not (validate_seq p s)
    then (some Err.invalid_seq, s)
    else if not opts.has_ts
    then (none, s)
    else if seq_lt opts.ts_val s.ts_recent
        && ltb (sub32 (now_in_sec w) s.ts_recent_in_sec) paws_idle_max
        && not p.rst
    then (some Err.invalid_ts, s)
    else (none, if seq_le p.seq s.last_ack_sent && not p.rst then update_ts_recent w p s else s)

-- What a reset does in each state: the error for the user, the code returned, whether the socket is put
-- at once, and `to_close`.
pub record RstAction : Type 0 where
  pub err : Option Errno
  pub code : Err
  pub put : Bool
  pub to_close : Bool

abbrev reset_err : RstAction
reset_err = record { err = some econnreset; code = Err.rst_recv; put = false; to_close = false }

abbrev reset_put : RstAction
reset_put = record { err = none; code = Err.rst_recv; put = true; to_close = false }

abbrev reset_only : RstAction
reset_only = record { err = none; code = Err.rst_recv; put = false; to_close = false }

unfoldable pub rst_action : Bool → State → RstAction
rst_action passive State.syn_sent = record {
  err = some econnrefused;
  code = Err.conn_refused;
  put = false;
  to_close = false;
}
rst_action true State.syn_rcvd = record {
  err = none;
  code = Err.rst_recv;
  put = false;
  to_close = true;
}
rst_action false State.syn_rcvd = record {
  err = some econnrefused;
  code = Err.conn_refused;
  put = false;
  to_close = false;
}
rst_action passive State.established = reset_err
rst_action passive State.fin_wait_1 = reset_err
rst_action passive State.fin_wait_2 = reset_err
rst_action passive State.close_wait = reset_err
rst_action passive State.closing = reset_put
rst_action passive State.last_ack = reset_put
rst_action passive State.time_wait = record {
  err = none;
  code = Err.got_rst_at_time_wait;
  put = true;
  to_close = false;
}
rst_action passive State.closed = reset_only
rst_action passive State.listen = reset_only

-- The end of tcp_rcv_rst, from the switch on.
unfoldable pub apply_rst : Cfg → Worker → RstAction → Tsock → Tsock
apply_rst cfg w a s =
    let s1 = record s {
      err = elim (a.err) [ none ↦ s.err | some e ↦ some e ];
      flags = record (s.flags) { put = s.flags.put || a.put };
    } in
    set_state cfg w State.closed (
      if s.close_issued || a.to_close
      then record s1 { flags = record (s1.flags) { put = true } }
      else event_add event_err s1)

abbrev pub is_closed : State → Bool
is_closed State.closed = true
is_closed _ = false

unfoldable pub tcp_rcv_rst : Cfg → Worker → Tsock → Option Err × Tsock
tcp_rcv_rst cfg w s =
    let a = rst_action s.passive_connection s.state in
    if is_closed s.state then (some Err.rst_recv, s) else (some a.code, apply_rst cfg w a s)

unfoldable pub tcp_rcv_pkt_at_listen : Output → Seg → Option Err
tcp_rcv_pkt_at_listen out p =
    if p.rst
    then some Err.rst_recv
    else if p.has_ack
    then some Err.ack_at_listen
    else if p.syn
    then out.tsock_accept p
    else some Err.invalid_pkt_at_listen

-- An acknowledgement of something never sent: the peer has a half-open connection, which is reset.
unfoldable pub half_open : Output → Seg → Tsock → Tsock
half_open out p s = output_enqueue (
    out.xmit_flag_packet_with_seq p.ack
      (record s { flags = record (s.flags) { rst_needed = true } }))

unfoldable pub tcp_rcv_pkt_at_syn_sent :
    Cfg → Worker → Output → Opts → Seg → Tsock → Option Err × Tsock
tcp_rcv_pkt_at_syn_sent cfg w out opts p s =
    if p.has_ack && (seq_le p.ack s.snd_isn || seq_gt p.ack s.snd_nxt)
    then (some Err.half_open_detected, half_open out p s)
    else if p.rst
    then (if p.has_ack then tcp_rcv_rst cfg w s else (some Err.rst_with_no_ack, s))
    else if not p.syn
    then (some Err.no_syn_and_rst, s)
    else if not p.has_ack
    then (some Err.simultaneous_connect, s)
    else if seq_gt p.ack s.snd_isn
    then (none, syn_sent_to_established cfg w opts p s)
    else (some Err.invalid_syn_sent_process, s)

unfoldable pub fin_state : Cfg → Worker → Tsock → Tsock
fin_state cfg w s = elim (s.state) [
  | State.syn_rcvd ↦ set_state cfg w State.close_wait s
  | State.established ↦ set_state cfg w State.close_wait s
  | State.fin_wait_1 ↦ set_state cfg w State.closing s
  | State.fin_wait_2 ↦ set_state cfg w State.time_wait s
  | _ ↦ s
]

abbrev pub at_eof : Tsock → Tsock
at_eof s = record s { flags = record (s.flags) { eof = true } }

unfoldable pub tcp_rcv_fin : Cfg → Worker → Seg → Tsock → Option Err × Tsock
tcp_rcv_fin cfg w p s = if not p.fin then (none, s) else elim (ack_group s.state) [
  | AckGroup.other ↦ (some Err.invalid_state_for_fin, at_eof s)
  | _ ↦ (none, set_ack_flag cfg true (fin_state cfg w (event_add event_in (at_eof s))))
]
