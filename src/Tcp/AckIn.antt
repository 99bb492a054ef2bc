-- ===== src/Tcp/AckIn.antt =====
-- The acknowledgement field of a segment (src/tcp/tcp_input.c: tcp_rcv_ack and tcp_rcv_ack_fastpath).
use libtpa.Base.{
  ℕ, ◌+◌, ◌*◌, ◌/◌, ◌^◌, Bool, true, false, not, ◌&&◌, ◌||◌, Option, some, none, if◌then◌else◌,
  ◌==◌, u16, u32, sub32,
}
use libtpa.Tcp.Seq.{seq_lt, seq_le, seq_gt, seq_ge}
use libtpa.Tcp.Sock.{Seg, State, Stage, Err, Tsock, Cfg, Worker, set_state, set_ack_flag}
use libtpa.Tcp.Ooo.{is_pos}
use libtpa.Tcp.Ack.{new_data_acked, new_data_acked_fast}
use libtpa.Tcp.Recovery.{Output, is_none, is_rto, tcp_rcv_sack, tcp_retrans, handle_fast_retransmit}
use libtpa.Tcp.Establish.{Opts, tsock_established}

-- The states of tcp_rcv_ack, grouped: SYN_RCVD, the others that it processes, and the rest.
pub data AckGroup : Type 0 where
  opening synchronized other : AckGroup

abbrev pub ack_group : State → AckGroup
ack_group State.closed = AckGroup.other
ack_group State.listen = AckGroup.other
ack_group State.syn_sent = AckGroup.other
ack_group State.syn_rcvd = AckGroup.opening
ack_group _ = AckGroup.synchronized

-- The duplicate acknowledgements.
unfoldable pub count_dupack : Seg → Tsock → Tsock
count_dupack p s =
    if not (p.ack == s.snd_una)
    then record s { nr_dupack = 0 }
    else if (p.len == 0) && (p.wnd == s.snd_wnd / 2 ^ s.snd_wscale) && not (s.snd_nxt == s.snd_una)
    then record s { nr_dupack = u16 (s.nr_dupack + 1) }
    else s

-- The state after the FIN sent is acknowledged.
unfoldable pub fin_acked_state : Cfg → Worker → Tsock → Tsock
fin_acked_state cfg w s = elim (s.state) [
  | State.fin_wait_1 ↦ set_state cfg w State.fin_wait_2 s
  | State.closing ↦ set_state cfg w State.time_wait s
  | State.last_ack ↦
      set_state cfg w State.closed (record s { flags = record (s.flags) { put = true } })
  | _ ↦ s
]

unfoldable pub fin_acked : Cfg → Worker → Tsock → Tsock
fin_acked cfg w s =
    fin_acked_state cfg w (record s { flags = record (s.flags) { fin_pending = false } })

-- After the recovery: where it stands, and the end of it.
unfoldable pub track_recovery : Output → Seg → ℕ → Tsock → Tsock
track_recovery out p acked s =
    if is_none s.retrans_stage
    then (if is_pos acked then record s { snd_recover = sub32 s.snd_una 1 } else s)
    else if seq_ge p.ack s.snd_recover
    then record s { retrans_stage = Stage.no_retrans }
    else if is_rto s.retrans_stage
    then tcp_retrans out s
    else s

unfoldable pub update_snd_wnd : Seg → Tsock → Tsock
update_snd_wnd p s =
    if seq_lt s.snd_wl1 p.seq || (p.seq == s.snd_wl1) && seq_le s.snd_wl2 p.ack
    then record s { snd_wl1 = p.seq; snd_wl2 = p.ack; snd_wnd = u32 (p.wnd * 2 ^ s.snd_wscale) }
    else s

-- `acked_len` with the bits of an int: SYN and FIN do not count as bytes.
unfoldable pub acked_bytes : Bool → Seg → Tsock → ℕ
acked_bytes fin p s =
    let all = sub32 p.ack s.snd_una in
    let bytes = if s.closed_at_syn_rcvd then sub32 all 1 else all in
    if fin then sub32 bytes 1 else bytes

-- The part of tcp_rcv_ack for an acceptable number, in a synchronized state.
unfoldable pub ack_accepted : Cfg → Worker → Output → Opts → Seg → Tsock → Tsock
ack_accepted cfg w out opts p s =
    let fin = s.flags.fin_sent && (p.ack == s.snd_nxt) in
    let acked = acked_bytes fin p s in
    let s1 = count_dupack p s in
    let s2 = if fin then fin_acked cfg w s1 else s1 in
    let s3 = if is_pos acked then new_data_acked cfg w acked s2 else s2 in
    let s4 = tcp_rcv_sack out opts.sack_blocks s3 in
    let s5 = track_recovery out p acked (handle_fast_retransmit cfg w out p acked s4) in
    update_snd_wnd p (if s5.snd_una == s5.snd_nxt then record s5 { timer_rto = none } else s5)

unfoldable pub ack_numbered : Cfg → Worker → Output → Opts → Seg → Tsock → Option Err × Tsock
ack_numbered cfg w out opts p s =
    if seq_lt p.ack s.snd_una
    then (none, s)
    else if seq_gt p.ack s.snd_nxt
    then (some Err.invalid_ack, set_ack_flag cfg true s)
    else elim (ack_group s.state) [
      | AckGroup.opening ↦ (none, record (tsock_established cfg w p s) { in_accept = true })
      | _ ↦ (none, ack_accepted cfg w out opts p s)
    ]

unfoldable pub tcp_rcv_ack : Cfg → Worker → Output → Opts → Seg → Tsock → Option Err × Tsock
tcp_rcv_ack cfg w out opts p s =
    if not p.has_ack then (some Err.no_ack, s) else elim (ack_group s.state) [
      | AckGroup.other ↦ (some Err.not_implemented, s)
      | _ ↦ ack_numbered cfg w out opts p s
    ]

unfoldable pub tcp_rcv_ack_fastpath : Cfg → Worker → Seg → Tsock → Tsock
tcp_rcv_ack_fastpath cfg w p s =
    let acked = sub32 p.ack s.snd_una in
    record (if is_pos acked then new_data_acked_fast cfg w acked s else s) {
      snd_wl1 = p.seq;
      snd_wl2 = p.ack;
      snd_wnd = u32 (p.wnd * 2 ^ s.snd_wscale);
    }
