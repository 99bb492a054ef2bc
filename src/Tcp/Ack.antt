-- ===== src/Tcp/Ack.antt =====
-- The acknowledgement of sent data (src/tcp/tcp_input.c: ack_sent_data, and the part of tcp_rcv_ack and
-- tcp_rcv_ack_fastpath that calls it). Latency statistics and the release of descriptors are left out.
pub mod Loop
pub mod Bytes
use libtpa.Base.{
  ℕ, zero, suc, ◌+◌, ◌-◌, Bool, true, false, not, ◌&&◌, Option, some, none, if◌then◌else◌, ltb,
  ◌==◌, u16, u32, sub16, sub32,
}
use libtpa.TcpQueue.Txq
use libtpa.TcpQueue.Txq.{Txq}
use libtpa.Tcp.Rtt.{rtt_update}
use libtpa.Tcp.Cwnd.{update_cwnd}
use libtpa.Tcp.Sock.{Desc, Tsock, Cfg, Worker, event_add, event_out, rearm_rto}

-- The variables of the loop of ack_sent_data.
pub record AckRun : Type 0 where
  pub left : ℕ  -- `acked_len`
  pub una : ℕ  -- `snd_una`
  pub partial : ℕ  -- `partial_ack`
  pub sacked : ℕ  -- `sacked_bytes`
  pub rtt : ℕ
  pub nr : ℕ  -- `nr_acked_pkt`

-- A descriptor that is acknowledged to its end.
unfoldable pub ack_desc : ℕ → Desc → AckRun → AckRun
ack_desc now d r =
    let size = sub32 d.len r.partial in
    record {
      left = sub32 r.left size;
      una = u32 (r.una + size);
      partial = 0;
      sacked = if d.sacked then sub32 r.sacked d.len else r.sacked;
      rtt =
          if (r.rtt == 0) && not d.retrans
          then u32 (now + 18446744073709551616 - d.ts_us)
          else r.rtt;
      nr = u16 (r.nr + 1);
    }

-- `partial_ack + acked_len < desc->len`: the acknowledgement ends inside the descriptor.
unfoldable pub ack_partial : AckRun → AckRun
ack_partial r = record r { partial = u32 (r.partial + r.left); una = u32 (r.una + r.left) }

-- The loop. `none` when it runs past the last descriptor, which the code would read through NULL.
unfoldable pub ack_loop : ℕ → Txq Desc → ℕ → AckRun → Option AckRun
ack_loop zero q now r = none
ack_loop (suc n) q now r = elim (Txq.peek_una q r.nr) [
  | none ↦ none
  | some d ↦
      (let r' = ack_desc now d r in
        let rest = ack_loop n q now r' in
        if ltb (u32 (r.partial + r.left)) d.len
        then some (ack_partial r)
        else if r'.left == 0
        then some r'
        else rest)
]

-- The send queue after `nr` packets are acknowledged: `nxt` is at least there.
unfoldable pub advance_txq : ℕ → Txq Desc → Txq Desc
advance_txq nr q =
    Txq.update_una (if ltb (sub16 q.nxt q.una) nr then record q { nxt = u16 (q.una + nr) } else q)
      nr

-- The socket after the loop.
unfoldable pub after_ack : AckRun → Tsock → Tsock
after_ack r s =
    let t = record s {
      snd_una = r.una;
      partial_ack = r.partial;
      sacked_bytes = r.sacked;
      txq = advance_txq r.nr s.txq;
    } in
    if Txq.free_count t.txq == 0 then t else event_add event_out t

abbrev pub ack_start : ℕ → Tsock → AckRun
ack_start acked_len s = record {
  left = acked_len;
  una = s.snd_una;
  partial = s.partial_ack;
  sacked = s.sacked_bytes;
  rtt = 0;
  nr = 0;
}

-- Returns the round-trip sample as well, 0 when there is none. Bytes.ack_sent_data-advances shows when
-- the loop ends before the descriptors do.
unfoldable pub ack_sent_data : Worker → ℕ → Tsock → ℕ × Tsock
ack_sent_data w acked_len s =
    elim (ack_loop (Txq.unfinished_pkts s.txq + 1) s.txq w.ts_us (ack_start acked_len s)) [
      | none ↦ (0, s)
      | some r ↦ (r.rtt, after_ack r s)
    ]

unfoldable pub sample_rtt : Cfg → ℕ → Tsock → Tsock
sample_rtt cfg rtt s = if rtt == 0 then s else record s { est = rtt_update cfg.rto_min rtt s.est }

unfoldable pub count_acked : Cfg → Worker → ℕ → Tsock → Tsock
count_acked cfg w acked s = record s { cc = update_cwnd cfg.cwnd_max w.ts_us s.est.srtt acked s.cc }

-- New data is acknowledged, in tcp_rcv_ack.
unfoldable pub new_data_acked : Cfg → Worker → ℕ → Tsock → Tsock
new_data_acked cfg w acked s =
    let (rtt, s1) = ack_sent_data w acked s in
    let s2 = record (sample_rtt cfg rtt s1) { zero_wnd_probe_shift = 0; rto_shift = 0 } in
    count_acked cfg w acked (rearm_rto w s2)

-- New data is acknowledged, in tcp_rcv_ack_fastpath.
unfoldable pub new_data_acked_fast : Cfg → Worker → ℕ → Tsock → Tsock
new_data_acked_fast cfg w acked s =
    let (rtt, s1) = ack_sent_data w acked s in
    let s2 = sample_rtt cfg rtt s1 in
    let s3 = record s2 { snd_recover = sub32 s2.snd_una 1; nr_dupack = 0 } in
    count_acked cfg w acked
      (if s3.snd_una == s3.snd_nxt then record s3 { timer_rto = none } else rearm_rto w s3)
