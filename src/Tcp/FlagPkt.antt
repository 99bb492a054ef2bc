-- ===== src/Tcp/FlagPkt.antt =====
-- Segments without data (src/tcp/tcp_output.c: xmit_flag_packet_with_seq, xmit_flag_packet). Packets,
-- neighbours and the card are the record Net on a state of their own. Statistics and traces are left out.
use libtpa.Base.{ℕ, Bool, false, not, ◌&&◌, Option, some, none, [], if◌then◌else◌, ◌==◌, u32}
use libtpa.Dev.{Nic, Port, txq_enqueue}
use libtpa.Tcp.Sock.{Tsock, Cfg, Worker}
use libtpa.Tcp.Header.{TxPkt, TcpFlags, Payload, tcp_flags, prepend_tcp_hdr}

-- What the functions here call: the network card, the two pools of packets that the worker sends from, the
-- release of a packet, the room before the data of a packet of the first pool, and neigh_wait_enqueue
-- (src/neigh.c).
pub record Net (W : Type 0) : Type 0 where
  pub nic : Nic TxPkt W
  pub alloc_hdr : W → Bool × W
  pub alloc_zwrite : W → Bool × W
  pub free : W → W
  pub neigh_wait : TxPkt → W → Bool × W
  pub headroom : ℕ

pub data XmitErr : Type 0 where
  no_net_hdr pkt_alloc_fail prepend_hdr dev_txq_full neigh_full : XmitErr

-- The result of a sending function: the packet that was given to the card or to the neighbour's queue, nothing,
-- or an error. The size that xmit_one_packet returns is that of the packet.
pub data Sent : Type 0 where
  sent : TxPkt → Sent
  nothing : Sent
  failed : XmitErr → Sent

-- The flags of TSOCK_FLAG_TCP_FLAGS_MASK.
unfoldable pub clear_tcp_flags : Tsock → Tsock
clear_tcp_flags s = record s {
  flags = record (s.flags) {
    ack_needed = false;
    rst_needed = false;
    fin_needed = false;
    syn_needed = false;
    psh_needed = false;
    urg_needed = false;
  };
}

-- What remains to be asked for after a segment with these flags.
unfoldable pub after_flags : Worker → TcpFlags → Tsock → Tsock
after_flags w f s = record s {
  last_ack_sent = if f.ack then s.rcv_nxt else s.last_ack_sent;
  last_ack_sent_ts = if f.ack then u32 w.ts_us else s.last_ack_sent_ts;
  last_snd_pkt = w.ts_us;
  flags = record (s.flags) {
    ack_needed = s.flags.ack_needed && not f.ack;
    ack_now = s.flags.ack_now && not f.ack;
    syn_needed = s.flags.syn_needed && not f.syn;
    fin_needed = s.flags.fin_needed && not f.fin;
    rst_needed = s.flags.rst_needed && not f.rst;
  };
}

module _ {W : Type 0} where
  -- A packet for a neighbour that is not known waits there.
  unfoldable pub pass_on :
      Net W → TxPkt → Tsock → Port TxPkt W → Option XmitErr × Tsock × Port TxPkt W
  pass_on net pkt s port =
      let (waits, world) = net.neigh_wait pkt port.world in
      let (queued, port') = txq_enqueue net.nic pkt port in
      if s.flags.missing_arp
      then (
        if waits then none else some XmitErr.neigh_full,
        record s { flags = record (s.flags) { missing_arp = false } },
        record port { world = world },
      )
      else (if queued then none else some XmitErr.dev_txq_full, s, port')

  -- When the header does not fit, the function goes on as if the packet had been sent.
  unfoldable pub xmit_flag_packet_with_seq :
      Net W → Cfg → Worker → ℕ → Tsock → Port TxPkt W → Sent × Tsock × Port TxPkt W
  xmit_flag_packet_with_seq net cfg w seq s port0 =
      let (got, world) = net.alloc_hdr port0.world in
      let port = record port0 { world = world } in
      let f = tcp_flags s.flags in
      let payload : Payload = record { retransmit = false; chunks = []; len = 0 } in
      let (hdr, t) = prepend_tcp_hdr cfg w net.headroom payload seq f s in
      if s.net_hdr_len == 0
      then (failed XmitErr.no_net_hdr, clear_tcp_flags s, port0)
      else if not got
      then (failed XmitErr.pkt_alloc_fail, s, port)
      else elim hdr [
        | none ↦ (nothing, after_flags w f t, port)
        | some pkt ↦
            (let (err, u, port') = pass_on net pkt t port in
              elim err [
                | none ↦ (sent pkt, after_flags w f u, port')
                | some e ↦ (failed e, u, record port' { world = net.free port'.world })
              ])
      ]

  unfoldable pub xmit_flag_packet :
      Net W → Cfg → Worker → Tsock → Port TxPkt W → Sent × Tsock × Port TxPkt W
  xmit_flag_packet net cfg w s port =
      let seq =
        if s.flags.syn_needed
        then s.snd_isn
        else if s.flags.fin_needed
        then s.data_seq_nxt
        else s.snd_nxt in
      xmit_flag_packet_with_seq net cfg w seq s port
