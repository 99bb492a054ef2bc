-- ===== src/Tcp/Sock.antt =====
-- The socket: `struct tcp_sock` (include/sock.h), the TCP view of a
-- packet (include/packet.h), and the small operations on them that several handlers share.
-- Each bit of `flags` and each one-bit field is a Bool. A timer is its deadline in microseconds,
-- `none` when it is stopped. A fifo node is the Bool that says whether the socket is queued there.
use libtpa.Base.{
  ℕ, ◌+◌, ◌-◌, ◌*◌, ◌^◌, Bool, true, false, not, ◌||◌, Option, some, List, if◌then◌else◌, leb, ◌==◌,
  bit_and, bit_or, u32, sub32,
}
use libtpa.TcpQueue.Txq.{Txq}
use libtpa.TcpQueue.Rxq.{Rxq}
use libtpa.Tcp.Rtt.{Estimate}
use libtpa.Tcp.Cwnd.{Cwnd}
use libtpa.Tcp.Sack.{Block}

-- TCP_STATE_*
pub data State : Type 0 where
  closed listen syn_sent syn_rcvd established : State
  fin_wait_1 fin_wait_2 close_wait closing last_ack time_wait : State

pub State-discrete : Discrete State
State-discrete = hlevel

-- The retransmission stage: NONE, FAST_RETRANS, RTO.
pub data Stage : Type 0 where
  no_retrans fast_retrans rto : Stage

pub data Errno : Type 0 where
  econnrefused econnreset etimedout : Errno

-- The codes that the receive path returns, negated, as errors.
pub data Err : Type 0 where
  no_ack invalid_ack invalid_seq invalid_ts rxq_enqueue_fail rcv_ooo_dup rcv_ooo_limit : Err
  rcv_invalid_state invalid_state_for_fin not_implemented : Err
  rst_recv conn_refused got_rst_at_time_wait pkt_recv_after_close half_open_detected : Err
  rst_with_no_ack no_syn_and_rst simultaneous_connect invalid_syn_sent_process : Err
  invalid_syn_rcvd stale_pkt_worker_mismatch : Err
  ack_at_listen invalid_pkt_at_listen too_many_socks : Err

-- The TCP segment of a packet (TCP_SEG), with the address of the packet. The chain of mbufs behind
-- it and its offsets are not modelled.
pub record Seg : Type 0 where
  pub addr : ℕ
  pub wid : ℕ
  pub seq : ℕ
  pub ack : ℕ
  pub ts_val : ℕ
  pub ts_ecr : ℕ
  pub wnd : ℕ
  pub len : ℕ  -- uint16_t
  pub opt_len : ℕ
  pub has_ts_opt : Bool
  pub fin : Bool
  pub syn : Bool
  pub rst : Bool
  pub psh : Bool
  pub has_ack : Bool
  pub urg : Bool
  pub ece : Bool
  pub cwr : Bool

-- A descriptor of the send queue (`struct tx_desc`), with the address `id` that the pool knows it by.
-- `write_done` is the callback, if there is one; the fields for the measuring of latency are left out.
pub record Desc : Type 0 where
  pub id : ℕ
  pub addr : ℕ
  pub phys_addr : ℕ
  pub mem_from_mbuf : Bool
  pub write_done : Option ℕ
  pub base : ℕ
  pub param : ℕ
  pub pkt : ℕ
  pub len : ℕ
  pub seq : ℕ
  pub ts_us : ℕ
  pub retrans : Bool
  pub sacked : Bool

-- TSOCK_FLAG_*
pub record Flags : Type 0 where
  pub ack_needed : Bool
  pub rst_needed : Bool
  pub ack_now : Bool
  pub fin_needed : Bool
  pub syn_needed : Bool
  pub psh_needed : Bool
  pub urg_needed : Bool
  pub close_processed : Bool
  pub missing_arp : Bool
  pub fin_pending : Bool
  pub fin_sent : Bool
  pub eof : Bool
  pub put : Bool

pub record Tsock : Type 0 where
  pub state : State
  pub err : Option Errno
  pub flags : Flags
  pub passive_connection : Bool
  pub closed_at_syn_rcvd : Bool
  pub close_issued : Bool
  pub ts_enabled : Bool
  pub ts_ok : Bool
  pub ws_enabled : Bool
  pub ws_ok : Bool
  pub sack_enabled : Bool
  pub sack_ok : Bool
  pub is_ipv6 : Bool
  pub tso_enabled : Bool
  pub local_port : ℕ
  pub remote_port : ℕ
  pub net_hdr_len : ℕ  -- uint8_t
  pub packet_id : ℕ  -- uint16_t
  pub data_seq_nxt : ℕ
  pub snd_ts : ℕ
  pub last_ack_sent_ts : ℕ  -- uint32_t
  pub last_snd_pkt : ℕ  -- last_ts[LAST_TS_SND_PKT], in microseconds
  pub snd_isn : ℕ
  pub snd_una : ℕ
  pub snd_nxt : ℕ
  pub snd_recover : ℕ
  pub snd_wnd : ℕ
  pub snd_wl1 : ℕ
  pub snd_wl2 : ℕ
  pub snd_wscale : ℕ
  pub cc : Cwnd
  pub snd_cwnd_orig : ℕ
  pub nr_dupack : ℕ  -- uint16_t
  pub retrans_stage : Stage
  pub retrans_seq : ℕ
  pub retrans_ts_val : ℕ
  pub retrans_desc_base : ℕ
  pub sacked_bytes : ℕ
  pub partial_ack : ℕ
  pub est : Estimate
  pub rto_shift : ℕ
  pub zero_wnd_probe_shift : ℕ
  pub init_ts_us : ℕ
  pub txq : Txq Desc
  pub rcv_wscale : ℕ
  pub rcv_isn : ℕ
  pub rcv_nxt : ℕ
  pub rcv_wnd : ℕ
  pub last_ack_sent : ℕ
  pub quickack : ℕ  -- uint8_t
  pub ts_recent : ℕ
  pub ts_recent_in_sec : ℕ
  pub rxq : Rxq Seg
  pub rcv_ooo_queue : List Seg
  pub nr_ooo_pkt : ℕ  -- uint16_t
  pub last_ooo_pkt : Option ℕ
  pub ooo_start_ts : ℕ
  pub sack_blocks : List Block
  pub keepalive_shift : ℕ
  pub timer_rto : Option ℕ
  pub timer_wait : Option ℕ
  pub timer_keepalive : Option ℕ
  pub events : ℕ
  pub interested_events : ℕ
  pub in_event_queue : Bool
  pub in_output : Bool
  pub in_accept : Bool

-- `tcp_cfg`, as far as it is read here.
pub record Cfg : Type 0 where
  pub time_wait : ℕ
  pub keepalive : ℕ
  pub delayed_ack : ℕ
  pub cwnd_init : ℕ
  pub cwnd_max : ℕ
  pub rcv_ooo_limit : ℕ
  pub rto_min : ℕ
  pub usr_snd_mss : ℕ
  pub retries : ℕ
  pub syn_retries : ℕ
  pub pkt_max_chain : ℕ
  pub write_chunk_size : ℕ

-- The worker: its id and the time `ts_us` of this round.
pub record Worker : Type 0 where
  pub id : ℕ
  pub ts_us : ℕ

abbrev pub event_in : ℕ
event_in = 1

abbrev pub event_out : ℕ
event_out = 4

abbrev pub event_err : ℕ
event_err = 8

abbrev pub is_established : State → Bool
is_established State.established = true
is_established _ = false

-- worker.h: tsock_event_add
unfoldable pub event_add : ℕ → Tsock → Tsock
event_add ev s =
    let now = bit_or s.events ev in
    record s {
      events = now;
      in_event_queue = s.in_event_queue || not (bit_and now s.interested_events == 0);
    }

-- worker.h: output_tsock_enqueue
unfoldable pub output_enqueue : Tsock → Tsock
output_enqueue s = record s { in_output = true }

-- The deadline of a timer started at `now`; timer_start takes an expiry of 0 for 1.
abbrev pub deadline : ℕ → ℕ → Option ℕ
deadline now expire = some (now + (if expire == 0 then 1 else expire))

abbrev pub starts_wait : State → Bool
starts_wait State.time_wait = true
starts_wait State.fin_wait_2 = true
starts_wait _ = false

-- tcp_output.c: tsock_set_state
unfoldable pub set_state : Cfg → Worker → State → Tsock → Tsock
set_state cfg w st s = record s {
  state = st;
  timer_wait = if starts_wait st then deadline w.ts_us cfg.time_wait else s.timer_wait;
}

-- sock.h: tsock_reset_quickack
unfoldable pub reset_quickack : Tsock → Tsock
reset_quickack s = record s { quickack = 30 }

-- sock.h: tsock_rearm_timer_rto
unfoldable pub rearm_rto : Worker → Tsock → Tsock
rearm_rto w s = record s { timer_rto = deadline w.ts_us (u32 (s.est.rto * 2 ^ s.rto_shift)) }

-- sock.h: tsock_rearm_timer_keepalive
unfoldable pub rearm_keepalive : Cfg → Worker → Tsock → Tsock
rearm_keepalive cfg w s =
    let s' = record s { keepalive_shift = 0 } in
    if cfg.keepalive == 0
    then s'
    else record s' { timer_keepalive = deadline w.ts_us cfg.keepalive }

-- tcp_input.c: tsock_set_ack_flag
unfoldable pub set_ack_flag : Cfg → Bool → Tsock → Tsock
set_ack_flag cfg now s =
    let quick = not (s.quickack == 0) in
    let due = cfg.delayed_ack == 0 || leb s.cc.snd_mss (sub32 s.rcv_nxt s.last_ack_sent) in
    record s {
      quickack = s.quickack - 1;
      flags = record (s.flags) {
        ack_needed = true;
        ack_now = s.flags.ack_now || (now || quick || due);
      };
    }
