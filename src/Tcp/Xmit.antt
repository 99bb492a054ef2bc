-- ===== src/Tcp/Xmit.antt =====
-- The sending of data (src/tcp/tcp_output.c: xmit_one_packet, do_tcp_xmit_data, tcp_xmit_data, do_tcp_retrans,
-- tcp_zero_wnd_probe). The pools of packets are the record Net on a state of their own. Latency
-- statistics are left out.
pub mod Stream
pub mod State
pub mod Cores
pub mod Filled
pub mod Rounds
pub mod Keeps
pub mod One
pub mod Flow
pub mod Rest
pub mod Ready
pub mod Data
use libtpa.Base.{
  ℕ, zero, suc, ◌+◌, ◌-◌, ◌*◌, ◌/◌, ◌^◌, Bool, true, false, not, ◌&&◌, ◌||◌, Option, some, none,
  List, [], ◌∷◌, ◌++◌, if◌then◌else◌, ltb, leb, ◌==◌, length, min, bit_and, u16, u32, u64, sub16,
  sub32,
}
use libtpa.Ring.{update}
use libtpa.TcpQueue.Txq
use libtpa.TcpQueue.Txq.{Txq}
use libtpa.Dev.{Nic, Port, txq_enqueue, txq_free_count}
use libtpa.Tcp.Seq.{is_neg, seq_lt, seq_gt}
use libtpa.Tcp.Sock.{Desc, Tsock, Cfg, Worker, rearm_rto}
use libtpa.Tcp.Header.{TxPkt, Chunk, Payload, ack_flag, prepend_tcp_hdr}
use libtpa.Tcp.FlagPkt.{
  Net, Sent, XmitErr, sent, nothing, failed, clear_tcp_flags, xmit_flag_packet_with_seq,
}

-- struct xmit_ctx
pub record XmitCtx : Type 0 where
  pub seq : ℕ
  pub seq_max : ℕ
  pub budget : ℕ  -- an int, as its bit pattern
  pub desc_off : ℕ  -- uint16_t
  pub desc_base : ℕ  -- uint16_t

abbrev pub is_positive : ℕ → Bool
is_positive d = not (d == 0) && not (is_neg d)

unfoldable pub set_desc : Txq Desc → ℕ → ℕ → Desc → Txq Desc
set_desc q base off d = record q { descs = update q.descs (bit_and (base + off) q.mask) d }

-- tsock_snd_mss; MAX_HDR_LEN is 100.
unfoldable pub tsock_snd_mss : Tsock → ℕ
tsock_snd_mss s = if s.tso_enabled then 65435 else s.cc.snd_mss

-- The first loop of xmit_one_packet, with as much fuel as there are descriptors, and one.
unfoldable pub skip_sacked : ℕ → Txq Desc → XmitCtx → Option Desc × XmitCtx
skip_sacked zero q c = (none, c)
skip_sacked (suc n) q c = elim (Txq.peek_for_write q c.desc_base c.desc_off) [
  | none ↦ (none, c)
  | some d ↦
      (let rest =
          skip_sacked n q
            (record c { desc_off = u16 (c.desc_off + 1); seq = u32 (d.seq + d.len) }) in
        if d.sacked then rest else (some d, c))
]

-- The variables of the second loop: the queue of the socket, the payload so far, and `size` and `err`.
pub record Fill (W : Type 0) : Type 0 where
  pub ctx : XmitCtx
  pub budget : ℕ
  pub txq : Txq Desc
  pub chunks : List Chunk
  pub retransmit : Bool
  pub size : ℕ
  pub alloc_failed : Bool
  pub world : W

module _ {W : Type 0} where
  -- A descriptor of which a part is sent before.
  unfoldable pub mark_retrans : ℕ → Desc → Fill W → Desc × Fill W
  mark_retrans snd_nxt d f =
      let d' = record d { retrans = true } in
      if seq_lt f.ctx.seq snd_nxt
      then (
        d',
        record f { retransmit = true; txq = set_desc f.txq f.ctx.desc_base f.ctx.desc_off d' },
      )
      else (d, f)

  -- How much of the descriptor goes into the packet, and the budget of the packet.
  unfoldable pub piece : Desc → Fill W → ℕ × ℕ
  piece d f =
      let fit = min (sub32 d.len (sub32 f.ctx.seq d.seq)) f.budget in
      let left = sub32 f.ctx.seq_max f.ctx.seq in
      if seq_gt (u32 (f.ctx.seq + fit)) f.ctx.seq_max then (left, left) else (fit, f.budget)

  unfoldable pub finishes : Desc → Fill W → Bool
  finishes d f = u32 (sub32 f.ctx.seq d.seq + (piece d f).0) == d.len

  -- The piece is attached, and the descriptor is done if it is its last.
  unfoldable pub attach : Worker → Desc → Fill W → Fill W
  attach w d f =
      let off = sub32 f.ctx.seq d.seq in
      let (len, budget) = piece d f in
      let c = record (f.ctx) { seq = u32 (f.ctx.seq + len) } in
      let g = record f {
        ctx = c;
        budget = sub32 budget len;
        size = u32 (f.size + len);
        chunks =
            f.chunks
            ++ (record { addr = d.addr + off; phys_addr = d.phys_addr + off; len = u16 len } ∷ []);
      } in
      if finishes d f
      then record g {
        ctx = record c { desc_off = u16 (c.desc_off + 1) };
        txq = set_desc f.txq c.desc_base c.desc_off (record d { ts_us = w.ts_us });
      }
      else g

  unfoldable pub next_desc : Desc → Fill W → Fill W → Option Desc
  next_desc d f g =
      if finishes d f then Txq.peek_for_write g.txq g.ctx.desc_base g.ctx.desc_off else some d

  -- Fuel is the number of descriptors and one: each round but the last is the end of a descriptor.
  unfoldable pub fill : Net W → Cfg → Worker → ℕ → ℕ → Desc → Fill W → Fill W
  fill net cfg w snd_nxt zero d f = f
  fill net cfg w snd_nxt (suc n) d0 f0 =
      let (d, f) = mark_retrans snd_nxt d0 f0 in
      let (got, world) = net.alloc_zwrite f.world in
      let f' = record f { world = world } in
      let g = attach w d f' in
      let rest : Fill W = elim (next_desc d f' g) [
        | none ↦ g
        | some d' ↦ fill net cfg w snd_nxt n d' g
      ] in
      if not (is_positive f0.budget)
      then f0
      else if d.sacked
      then f
      else if not got
      then record f' { alloc_failed = true }
      else if leb cfg.pkt_max_chain (1 + length g.chunks)
      then g
      else rest

-- The socket, the context and the queue of the card.
pub record Run (W : Type 0) : Type 0 where
  pub ctx : XmitCtx
  pub sock : Tsock
  pub port : Port TxPkt W

abbrev pub is_nil : {A : Type 0} → List A → Bool
is_nil [] = true
is_nil (x ∷ xs) = false

-- The socket after data is sent.
unfoldable pub after_xmit : Worker → Tsock → Tsock
after_xmit w s0 =
    let s : Tsock = elim s0.timer_rto [ none ↦ rearm_rto w s0 | some t ↦ s0 ] in
    record s {
      last_ack_sent = s.rcv_nxt;
      last_ack_sent_ts = u32 w.ts_us;
      snd_ts = u32 (w.ts_us / 1024);
      last_snd_pkt = w.ts_us;
    }

module _ {W : Type 0} where
  abbrev pub on_world : Run W → W → Run W
  on_world r world = record r { port = record (r.port) { world = world } }

  -- The packet with its header goes to the card; without, it is freed.
  unfoldable pub hand_over : Net W → Fill W → Run W → Option TxPkt × Tsock → Sent × Run W
  hand_over net f r (none, s) =
      (failed XmitErr.prepend_hdr, record (on_world r (net.free f.world)) { ctx = f.ctx; sock = s })
  hand_over net f r (some pkt, s) =
      let (ok, port) = txq_enqueue net.nic pkt (on_world r f.world).port in
      if ok
      then (
        sent pkt,
        record {
          ctx = record (f.ctx) { budget = sub32 f.ctx.budget f.size };
          sock = clear_tcp_flags s;
          port = port;
        },
      )
      else (
        failed XmitErr.dev_txq_full,
        record (on_world r (net.free f.world)) { ctx = f.ctx; sock = s },
      )

  unfoldable pub send_filled : Net W → Cfg → Worker → Fill W → Run W → Sent × Run W
  send_filled net cfg w f r =
      let s = record (r.sock) { txq = f.txq } in
      let payload : Payload = record {
        retransmit = f.retransmit;
        chunks = f.chunks;
        len = f.size;
      } in
      if f.size == 0
      then (
        if f.alloc_failed then failed XmitErr.pkt_alloc_fail else nothing,
        record (on_world r (net.free f.world)) { ctx = f.ctx; sock = s },
      )
      else hand_over net f r
          (prepend_tcp_hdr cfg w net.headroom payload (sub32 f.ctx.seq f.size) ack_flag s)

  unfoldable pub start_fill : Run W → XmitCtx → W → Fill W
  start_fill r c world = record {
    ctx = c;
    budget = min c.budget (tsock_snd_mss r.sock);
    txq = r.sock.txq;
    chunks = [];
    retransmit = false;
    size = 0;
    alloc_failed = false;
    world = world;
  }

  -- The descriptor at hand, if there is one, goes into a packet with those that follow.
  unfoldable pub xmit_found : Net W → Cfg → Worker → Run W → Option Desc × XmitCtx → Sent × Run W
  xmit_found net cfg w r (none, c) = (nothing, record r { ctx = c })
  xmit_found net cfg w r (some d, c) =
      let (got, world) = net.alloc_hdr r.port.world in
      let fuel = sub16 r.sock.txq.write c.desc_base + 1 in
      let filled = fill net cfg w r.sock.snd_nxt fuel d (start_fill r c world) in
      if not got
      then (failed XmitErr.pkt_alloc_fail, record (on_world r world) { ctx = c })
      else send_filled net cfg w filled r

  unfoldable pub xmit_one_packet : Net W → Cfg → Worker → Run W → Sent × Run W
  xmit_one_packet net cfg w r =
      xmit_found net cfg w r
        (skip_sacked (sub16 r.sock.txq.write r.ctx.desc_base + 1) r.sock.txq r.ctx)

  -- The loop of do_tcp_xmit_data gives the packets that it sent, in order.
  unfoldable pub xmit_loop : Net W → Cfg → Worker → ℕ → Run W → List TxPkt × Run W
  xmit_loop net cfg w zero r = ([], r)
  xmit_loop net cfg w (suc n) r =
      let (result, r') = xmit_one_packet net cfg w r in
      let rest = xmit_loop net cfg w n r' in
      if not (is_positive r.ctx.budget)
      then ([], r)
      else elim result [ sent p ↦ (p ∷ rest.0, rest.1) | nothing ↦ ([], r') | failed e ↦ ([], r') ]

  unfoldable pub after_loop : Worker → List TxPkt × Run W → List TxPkt × Run W
  after_loop w (pkts, r) =
      (pkts, if is_nil pkts then r else record r { sock = after_xmit w r.sock })

  -- The size that the code returns is that of the packets.
  unfoldable pub do_tcp_xmit_data : Net W → Cfg → Worker → Run W → List TxPkt × Run W
  do_tcp_xmit_data net cfg w r =
      after_loop w (xmit_loop net cfg w (min (txq_free_count r.port) 64) r)

-- The context of tcp_xmit_data.
unfoldable pub xmit_ctx : Tsock → XmitCtx
xmit_ctx s = record {
  seq = s.snd_nxt;
  seq_max = s.data_seq_nxt;
  budget = sub32 (min s.snd_wnd s.cc.snd_cwnd) (sub32 s.snd_nxt s.snd_una);
  desc_off = 0;
  desc_base = s.txq.nxt;
}

module _ {W : Type 0} where
  -- The probe of a closed window is the byte before the first one that is not acknowledged.
  unfoldable pub tcp_zero_wnd_probe :
      Net W → Cfg → Worker → Tsock → Port TxPkt W → Tsock × Port TxPkt W
  tcp_zero_wnd_probe net cfg w s port =
      let asked = record s { flags = record (s.flags) { ack_needed = true } } in
      let (result, t, port') = xmit_flag_packet_with_seq net cfg w (sub32 s.snd_una 1) asked port in
      if ltb (u64 (w.ts_us + 18446744073709551616 - s.last_snd_pkt))
        (u32 (s.est.rto * 2 ^ s.zero_wnd_probe_shift))
      then (s, port)
      else (record t { zero_wnd_probe_shift = min (t.zero_wnd_probe_shift + 1) cfg.retries }, port')

  -- The end of tcp_xmit_data for the socket `s`; nothing is updated when no byte was taken.
  unfoldable pub update_snd : Tsock → List TxPkt × Run W → List TxPkt × Tsock × Port TxPkt W
  update_snd s (pkts, r) =
      let moved = record (r.sock) {
        snd_nxt = r.ctx.seq;
        txq = Txq.update_nxt r.sock.txq r.ctx.desc_off;
      } in
      (pkts, if r.ctx.seq == s.snd_nxt then r.sock else moved, r.port)

  unfoldable pub tcp_xmit_data :
      Net W → Cfg → Worker → Tsock → Port TxPkt W → List TxPkt × Tsock × Port TxPkt W
  tcp_xmit_data net cfg w s port =
      let (probed, port') = tcp_zero_wnd_probe net cfg w s port in
      if min s.snd_wnd s.cc.snd_cwnd == 0
      then ([], probed, port')
      else update_snd s
          (do_tcp_xmit_data net cfg w (record { ctx = xmit_ctx s; sock = s; port = port }))

  unfoldable pub do_tcp_retrans :
      Net W → Cfg → Worker → ℕ → Tsock → Port TxPkt W → List TxPkt × Tsock × Port TxPkt W
  do_tcp_retrans net cfg w budget s port =
      let ctx : XmitCtx = record {
        seq = s.retrans_seq;
        seq_max = s.snd_nxt;
        budget = budget;
        desc_off = 0;
        desc_base = s.retrans_desc_base;
      } in
      let (pkts, r) = do_tcp_xmit_data net cfg w (record { ctx = ctx; sock = s; port = port }) in
      (
        pkts,
        record (r.sock) {
          retrans_seq = r.ctx.seq;
          retrans_desc_base = u16 (r.ctx.desc_base + r.ctx.desc_off);
        },
        r.port,
      )
