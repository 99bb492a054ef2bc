-- ===== src/Tcp/Header.antt =====
-- The header of a segment (src/tcp/tcp_output.c: prepend_tcp_hdr, mbuf_set_offload) on a packet whose payload
-- is a list of pieces of memory. Checksums, the Ethernet and IP addresses, and byte order are left out.
use libtpa.Base.{
  ℕ, ◌+◌, ◌*◌, ◌/◌, ◌^◌, Bool, true, false, not, ◌&&◌, Option, some, none, List, if◌then◌else◌, ltb,
  leb, length, min, u8, u16, sub16,
}
use libtpa.Tcp.Sock.{Flags, Tsock, Cfg, Worker}
use libtpa.Tcp.Options.{OptBits, enabled_opts, calc_tcp_opt_len, fill_opts}

-- The TCP_FLAG_* of a segment.
pub record TcpFlags : Type 0 where
  pub fin : Bool
  pub syn : Bool
  pub rst : Bool
  pub psh : Bool
  pub ack : Bool
  pub urg : Bool

abbrev pub ack_flag : TcpFlags
ack_flag = record { fin = false; syn = false; rst = false; psh = false; ack = true; urg = false }

-- sock.h: tsock_flags_to_tcp_flags
unfoldable pub tcp_flags : Flags → TcpFlags
tcp_flags f = record {
  fin = f.fin_needed;
  syn = f.syn_needed;
  rst = f.rst_needed;
  psh = f.psh_needed;
  ack = f.ack_needed;
  urg = f.urg_needed;
}

-- A piece of memory that packet_attach_extbuf puts behind the header.
pub record Chunk : Type 0 where
  pub addr : ℕ
  pub phys_addr : ℕ
  pub len : ℕ  -- uint16_t

-- A packet on its way to the card. `tso_segsz` is there when the card has to cut it into segments, and `ip_len`
-- is the total length of the IPv4 header or the payload length of the IPv6 header.
pub record TxPkt : Type 0 where
  pub src_port : ℕ
  pub dst_port : ℕ
  pub seq : ℕ
  pub ack : ℕ
  pub data_off : ℕ  -- uint8_t
  pub flags : TcpFlags
  pub win : ℕ  -- uint16_t
  pub opts : List ℕ
  pub packet_id : ℕ
  pub ip_len : ℕ
  pub tso_segsz : Option ℕ
  pub retransmit : Bool
  pub chunks : List Chunk
  pub len : ℕ  -- pkt_len without the headers

-- TCP_WINDOW_MAX is 2^30.
unfoldable pub checked_wnd : Tsock → ℕ
checked_wnd s = if leb 1073741824 s.rcv_wnd then 0 else s.rcv_wnd

unfoldable pub advertised_wnd : Bool → Tsock → ℕ
advertised_wnd syn s = min (if syn then checked_wnd s else checked_wnd s / 2 ^ s.rcv_wscale) 65535

-- The payload, and the length that the packet has before the headers.
pub record Payload : Type 0 where
  pub retransmit : Bool
  pub chunks : List Chunk
  pub len : ℕ  -- uint32_t

-- What a segment of the socket may carry beside the SACK blocks.
unfoldable pub left_mss : Tsock → OptBits → ℕ
left_mss s bits =
    if bits.sack then sub16 s.cc.snd_mss (4 + 8 * length s.sack_blocks) else s.cc.snd_mss

unfoldable pub with_hdr : Cfg → Worker → Tsock → Payload → ℕ → TcpFlags → TxPkt
with_hdr cfg w s p seq f =
    let bits = enabled_opts s f.syn in
    let hdr_len = 20 + calc_tcp_opt_len s bits in
    record {
      src_port = s.local_port;
      dst_port = s.remote_port;
      seq = seq;
      ack = if f.ack then s.rcv_nxt else 0;
      data_off = u8 (hdr_len / 4 * 16);
      flags = f;
      win = advertised_wnd f.syn s;
      opts = fill_opts cfg w s bits;
      packet_id = s.packet_id;
      ip_len = u16 (u16 p.len + (if s.is_ipv6 then 0 else 20) + hdr_len);
      tso_segsz = if ltb (left_mss s bits) p.len then some (left_mss s bits) else none;
      retransmit = p.retransmit;
      chunks = p.chunks;
      len = p.len;
    }

-- `headroom` is what rte_pktmbuf_prepend finds before the data. `none` is ERR_PKT_PREPEND_HDR.
unfoldable pub prepend_tcp_hdr :
    Cfg → Worker → ℕ → Payload → ℕ → TcpFlags → Tsock → Option TxPkt × Tsock
prepend_tcp_hdr cfg w headroom p seq f s =
    let hdr_len = 20 + calc_tcp_opt_len s (enabled_opts s f.syn) in
    if ltb headroom (s.net_hdr_len + hdr_len) then (none, s) else (
      some (with_hdr cfg w s p seq f),
      record s {
        rcv_wnd = checked_wnd s;
        flags = record (s.flags) { ack_now = s.flags.ack_now && not f.ack };
        packet_id = u16 (s.packet_id + 1);
      },
    )
