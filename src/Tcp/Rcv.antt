-- ===== src/Tcp/Rcv.antt =====
-- The state processing of RFC 793 for a segment (src/tcp/tcp_input.c: tcp_rcv_pkt). The options are an
-- argument, parsed.
pub mod Diagram
pub mod Window
use libtpa.Base.{
  ℕ, ◌+◌, ◌-◌, ◌*◌, ◌/◌, ◌^◌, Bool, true, false, not, ◌&&◌, ◌||◌, Option, some, none, List, [], ◌∷◌,
  if◌then◌else◌, ltb, leb, ◌==◌, u16, u32, sub32,
}
use libtpa.Tcp.Seq.{seq_lt, seq_le, seq_gt, seq_ge}
use libtpa.Tcp.Sock.{
  Seg, State, Stage, Errno, Err, Tsock, Cfg, Worker, event_add, event_in, event_err, is_established,
  output_enqueue, set_state, reset_quickack, rearm_keepalive, set_ack_flag,
}
use libtpa.Tcp.Sock.Errno.{econnrefused, econnreset}
use libtpa.Tcp.Ooo.{is_pos, tcp_rcv_data}
use libtpa.Tcp.Ack.{new_data_acked, new_data_acked_fast}
use libtpa.Tcp.Recovery.{Output, is_none, is_rto, tcp_rcv_sack, tcp_retrans, handle_fast_retransmit}
use libtpa.Tcp.AckIn.{AckGroup, ack_group, tcp_rcv_ack, tcp_rcv_ack_fastpath}
use libtpa.Tcp.Establish.{
  Opts, with_opts, ts_space, now_in_sec, update_ts_recent, tsock_established,
  syn_sent_to_established,
}
use libtpa.Tcp.Handlers.{
  Result, tcp_rcv_fastpath, process_incoming_seq, is_closed, tcp_rcv_rst, tcp_rcv_pkt_at_listen,
  tcp_rcv_pkt_at_syn_sent, tcp_rcv_fin,
}

abbrev pub takes_data : State → Bool
takes_data State.established = true
takes_data State.fin_wait_1 = true
takes_data State.fin_wait_2 = true
takes_data _ = false

-- `err = ...; if (err) return err;` before the FIN.
unfoldable pub then_fin : Cfg → Worker → Result → Result
then_fin cfg w (some e, p, s) = (some e, p, s)
then_fin cfg w (none, p, s) = let (err, s') = tcp_rcv_fin cfg w p s in (err, p, s')

-- The seventh and eighth step: the text and the FIN.
unfoldable pub rcv_text : Cfg → Worker → Seg → Tsock → Result
rcv_text cfg w p s =
    if takes_data s.state
    then then_fin cfg w (tcp_rcv_data cfg w p s)
    else if not (p.len == 0)
    then (some Err.rcv_invalid_state, p, s)
    else then_fin cfg w (none, p, s)

-- The label send_ack.
unfoldable pub send_ack : Cfg → Seg → Tsock → Tsock
send_ack cfg p s =
    if p.rst
    then s
    else set_ack_flag cfg true
        (if not (p.len == 0) && seq_lt p.seq s.rcv_nxt then reset_quickack s else s)

-- After tcp_rcv_ack.
unfoldable pub acked_then_text : Cfg → Worker → Seg → Option Err × Tsock → Result
acked_then_text cfg w p (some e, s) = (some e, p, s)
acked_then_text cfg w p (none, s) = if is_closed s.state then (none, p, s) else rcv_text cfg w p s

-- From the second step on: the sequence number was looked at.
unfoldable pub rcv_checked : Cfg → Worker → Output → Opts → Seg → Option Err × Tsock → Result
rcv_checked cfg w out opts p (some e, s) = (some e, p, send_ack cfg p s)
rcv_checked cfg w out opts p (none, s) =
    let (code, reset) = tcp_rcv_rst cfg w s in
    if p.rst
    then (code, p, reset)
    else if p.syn
    then (some Err.invalid_syn_rcvd, p, send_ack cfg p s)
    else acked_then_text cfg w p (tcp_rcv_ack cfg w out opts p s)

-- The label send_rst.
unfoldable pub send_rst : Output → Seg → Tsock → Tsock
send_rst out p s =
    if p.rst
    then s
    else out.xmit_flag_packet (record s { flags = record (s.flags) { rst_needed = true } })

-- The switch on the state, when the fast path did not take the packet.
unfoldable pub rcv_in_state : Cfg → Worker → Output → Opts → Seg → Tsock → State → Result
rcv_in_state cfg w out opts p s State.closed = (some Err.pkt_recv_after_close, p, send_rst out p s)
rcv_in_state cfg w out opts p s State.syn_sent =
    let (err, s') = tcp_rcv_pkt_at_syn_sent cfg w out opts p s in (err, p, s')
rcv_in_state cfg w out opts p s State.listen = (tcp_rcv_pkt_at_listen out p, p, s)
rcv_in_state cfg w out opts p s _ =
    let p' = with_opts opts p in
    rcv_checked cfg w out opts p' (process_incoming_seq w opts p' (rearm_keepalive cfg w s))

unfoldable pub rcv_slow : Cfg → Worker → Output → Opts → Seg → Tsock → Result
rcv_slow cfg w out opts p s = rcv_in_state cfg w out opts p s s.state

abbrev pub is_listen : State → Bool
is_listen State.listen = true
is_listen _ = false

unfoldable pub tcp_rcv_pkt : Cfg → Worker → Output → Opts → Seg → Tsock → Result
tcp_rcv_pkt cfg w out opts p s =
    let (consumed, p', s') = tcp_rcv_fastpath cfg w p s in
    if not (p.wid == w.id) && not (is_listen s.state)
    then (some Err.stale_pkt_worker_mismatch, p, s)
    else if not (is_established s.state)
    then rcv_slow cfg w out opts p s
    else if consumed
    then (none, p', rearm_keepalive cfg w s')
    else rcv_slow cfg w out opts p' s'
