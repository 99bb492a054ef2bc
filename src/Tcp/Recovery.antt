-- ===== src/Tcp/Recovery.antt =====
-- Loss recovery on the sender's side: the SACK blocks of the peer and the fast retransmission
-- (src/tcp/tcp_input.c: sort_sack, mark_desc_sacked, tcp_rcv_sack, leave_fast_retrans,
-- handle_fast_retransmit; src/tcp/tcp_output.c: tcp_retrans, tcp_fast_retrans; include/sock.h:
-- tcp_reset_retrans). The building and sending of segments, do_tcp_retrans and the xmit functions of
-- src/tcp/tcp_output.c, is the record Output that the functions take; qsort is a parameter too.
pub mod State
use libtpa.Base.{
  ℕ, zero, suc, ◌+◌, ◌-◌, ◌*◌, ◌/◌, ◌≡◌, Bool, true, false, not, ◌&&◌, ◌||◌, Option, some, none,
  List, [], ◌∷◌, if◌then◌else◌, length, ltb, ◌==◌, min, max, bit_and, u16, u32, sub16, sub32,
}
use libtpa.Ring.{update}
use libtpa.TcpQueue.Txq
use libtpa.TcpQueue.Txq.{Txq}
use libtpa.Tcp.Seq.{is_neg, seq_lt, seq_gt, seq_ge}
use libtpa.Tcp.Cwnd
use libtpa.Tcp.Sack.{Block}
use libtpa.Tcp.Sock.{Seg, Desc, Stage, Tsock, Cfg, Worker, Err, deadline}

-- What the receive path calls of src/tcp/tcp_output.c, on the socket, and of the listening side.
pub record Output : Type 0 where
  pub do_tcp_retrans : ℕ → Tsock → Tsock
  pub xmit_flag_packet : Tsock → Tsock
  pub xmit_flag_packet_with_seq : ℕ → Tsock → Tsock
  pub tsock_accept : Seg → Option Err
  pub sort : List Block → List Block  -- qsort by sack_block_cmp

-- None of them changes the state of the connection.
pub record KeepsState (out : Output) : Type 0 where
  pub retrans : (n : ℕ) (s : Tsock) → (out.do_tcp_retrans n s).state ≡ s.state
  pub flag : (s : Tsock) → (out.xmit_flag_packet s).state ≡ s.state
  pub flag_with_seq : (n : ℕ) (s : Tsock) → (out.xmit_flag_packet_with_seq n s).state ≡ s.state

abbrev pub is_none : Stage → Bool
is_none Stage.no_retrans = true
is_none _ = false

abbrev pub is_fast : Stage → Bool
is_fast Stage.fast_retrans = true
is_fast _ = false

abbrev pub is_rto : Stage → Bool
is_rto Stage.rto = true
is_rto _ = false

-- The check of sort_sack: each block starts at or above the end of the one before.
unfoldable pub intersect : ℕ → List Block → Bool
intersect prev_end [] = false
intersect prev_end (b ∷ bs) =
    let rest = intersect b.end bs in if seq_lt b.start prev_end then true else rest

-- `none` is the error ERR_TCP_SACK_INTERSECT.
unfoldable pub sort_sack : Output → List Block → Option (List Block)
sort_sack out blocks = elim (out.sort blocks) [
  | [] ↦ some []
  | b ∷ bs ↦ if intersect b.end bs then none else some (b ∷ bs)
]

-- The descriptor is at offset `off` from `una`.
unfoldable pub mark_desc_sacked : ℕ → Desc → Tsock → Tsock
mark_desc_sacked off d s =
    let q = s.txq in
    if d.sacked then s else record s {
      sacked_bytes = u32 (s.sacked_bytes + d.len);
      txq = record q {
        descs = update q.descs (bit_and (q.una + off) q.mask) (record d { sacked = true });
      };
    }

-- The inner loop of tcp_rcv_sack for one block; `off` is `desc_off`. Fuel is the number of descriptors
-- and one, since each round moves on by one and a peek past the last ends the loop.
unfoldable pub sack_block : ℕ → Block → ℕ → Tsock → ℕ × Tsock
sack_block zero blk off s = (off, s)
sack_block (suc n) blk off s = elim (Txq.peek_for_write s.txq s.txq.una off) [
  | none ↦ (u16 (off + 1), s)
  | some d ↦
      (let end = u32 (d.seq + d.len) in
        let rest =
          sack_block n blk (u16 (off + 1))
            (if seq_ge d.seq blk.start then mark_desc_sacked off d s else s) in
        if seq_ge end s.snd_nxt || seq_ge end blk.end then (u16 (off + 1), s) else rest)
]

unfoldable pub sack_loop : List Block → ℕ → Tsock → Tsock
sack_loop [] off s = s
sack_loop (b ∷ bs) off s =
    let skipped = sack_loop bs off s in
    let (off', s') = sack_block (Txq.unfinished_pkts s.txq + 1) b off s in
    let rest = sack_loop bs off' s' in if seq_gt b.end s.snd_nxt then skipped else rest

unfoldable pub tcp_rcv_sack : Output → List Block → Tsock → Tsock
tcp_rcv_sack out blocks s = elim (sort_sack out blocks) [
  | none ↦ s
  | some sorted ↦ sack_loop sorted 0 s
]

-- sock.h: tcp_reset_retrans to `una`, as all its callers here do.
unfoldable pub tcp_reset_retrans : Tsock → Tsock
tcp_reset_retrans s = record s { retrans_seq = s.snd_una; retrans_desc_base = s.txq.una }

unfoldable pub regulate_retrans : Tsock → Tsock
regulate_retrans s = if seq_lt s.retrans_seq s.snd_una then tcp_reset_retrans s else s

unfoldable pub tcp_retrans : Output → Tsock → Tsock
tcp_retrans out s0 =
    let s = regulate_retrans s0 in
    out.do_tcp_retrans (sub32 (min s.snd_wnd s.cc.snd_cwnd) (sub32 s.retrans_seq s.snd_una)) s

unfoldable pub tcp_fast_retrans : Output → ℕ → Tsock → Tsock
tcp_fast_retrans out budget s0 =
    let s = regulate_retrans s0 in
    let left = sub32 budget (sub32 s.retrans_seq s.snd_una) in
    out.do_tcp_retrans (if is_neg left || ltb left s.cc.snd_mss then s.cc.snd_mss else left) s

unfoldable pub set_cwnd : Cfg → ℕ → Tsock → Tsock
set_cwnd cfg cwnd s = record s { cc = Cwnd.set_cwnd cfg.cwnd_max cwnd s.cc }

unfoldable pub leave_fast_retrans : Cfg → ℕ → Tsock → Tsock
leave_fast_retrans cfg cwnd s = record (set_cwnd cfg cwnd s) {
  retrans_stage = Stage.no_retrans;
  nr_dupack = 0;
}

-- The third duplicate starts the recovery.
unfoldable pub enter_fast_retrans : Cfg → Worker → Output → Tsock → Tsock
enter_fast_retrans cfg w out s =
    let halved = record s {
      cc = record (s.cc) { ssthresh = max (s.cc.snd_cwnd / 2) (u32 (2 * s.cc.snd_mss)) };
      snd_recover = s.snd_nxt;
      snd_cwnd_orig = s.cc.snd_cwnd;
    } in
    let inflated = set_cwnd cfg (u32 (s.cc.snd_cwnd + s.nr_dupack * s.cc.snd_mss)) halved in
    let sent =
      tcp_fast_retrans out s.cc.snd_mss
        (tcp_reset_retrans (record inflated { retrans_stage = Stage.fast_retrans })) in
    if sent.ts_ok then record sent { retrans_ts_val = u32 (w.ts_us / 1024) } else sent

-- A duplicate in the recovery inflates the window.
unfoldable pub inflate_cwnd : Cfg → Tsock → Tsock
inflate_cwnd cfg s =
    let sacked = if s.sack_ok then s.sacked_bytes else u32 (s.nr_dupack * s.cc.snd_mss) in
    set_cwnd cfg (u32 (s.snd_cwnd_orig + min sacked s.snd_cwnd_orig)) s

-- An acknowledgement of a part: a retransmission that was not needed ends the recovery, else the next
-- part is sent again.
unfoldable pub partial_ack_retrans : Cfg → Worker → Output → Seg → ℕ → Tsock → Tsock
partial_ack_retrans cfg w out pkt acked s =
    let t = record s { retrans_ts_val = 0 } in
    let deflated = set_cwnd cfg (max t.snd_cwnd_orig (sub32 t.cc.snd_cwnd acked)) t in
    let budget = if s.sack_ok then min s.sacked_bytes s.cc.ssthresh else s.cc.snd_mss in
    let sent = tcp_fast_retrans out budget deflated in
    if not (s.retrans_ts_val == 0) && seq_lt pkt.ts_ecr s.retrans_ts_val
    then leave_fast_retrans cfg s.snd_cwnd_orig s
    else record sent { timer_rto = deadline w.ts_us sent.est.rto }

-- The rest of the function, in the recovery.
unfoldable pub in_fast_retrans : Cfg → Worker → Output → Seg → ℕ → Tsock → Tsock
in_fast_retrans cfg w out pkt acked s =
    if not (is_fast s.retrans_stage)
    then s
    else if acked == 0
    then inflate_cwnd cfg s
    else if seq_lt pkt.ack s.snd_recover
    then partial_ack_retrans cfg w out pkt acked s
    else leave_fast_retrans cfg s.cc.ssthresh s

unfoldable pub handle_fast_retransmit : Cfg → Worker → Output → Seg → ℕ → Tsock → Tsock
handle_fast_retransmit cfg w out pkt acked s =
    if ltb s.nr_dupack 3 && not (is_fast s.retrans_stage)
    then s
    else in_fast_retrans cfg w out pkt acked (
        if is_none s.retrans_stage && seq_gt pkt.ack s.snd_recover
        then enter_fast_retrans cfg w out s
        else s)
