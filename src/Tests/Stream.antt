-- ===== src/Tests/Stream.antt =====
-- The receive path of src/tcp/tcp_input.c on a small connection whose sequence numbers are about to wrap.
use libtpa.Base.{◌+◌, ◌*◌, refl, true, false, some, none, [], ◌∷◌, arith}
use libtpa.Ring.{window}
use libtpa.TcpQueue.Rxq.Refine.{waiting}
use libtpa.Tcp.Sock.{Seg, Desc, Flags, State, Stage, Tsock, Cfg, Worker}
use libtpa.Tcp.Ooo.{tcp_rcv_data}
use libtpa.Tcp.Ooo.Stream.{Receiving, tcp_rcv_data-Receiving}

abbrev pub pkt : Seg
pkt = record {
  addr = 1;
  wid = 0;
  seq = 4294967290;
  ack = 1000;
  ts_val = 0;
  ts_ecr = 0;
  wnd = 500;
  len = 10;
  opt_len = 12;
  has_ts_opt = true;
  fin = false;
  syn = false;
  rst = false;
  psh = false;
  has_ack = true;
  urg = false;
  ece = false;
  cwr = false;
}

abbrev pub next_pkt : Seg
next_pkt = record pkt { addr = 2; seq = 4; len = 20 }

abbrev pub no_flags : Flags
no_flags = record {
  ack_needed = false;
  rst_needed = false;
  ack_now = false;
  fin_needed = false;
  syn_needed = false;
  psh_needed = false;
  urg_needed = false;
  close_processed = false;
  missing_arp = false;
  fin_pending = false;
  fin_sent = false;
  eof = false;
  put = false;
}

abbrev pub desc : Desc
desc = record {
  id = 0;
  addr = 0;
  phys_addr = 0;
  mem_from_mbuf = false;
  write_done = none;
  base = 0;
  param = 0;
  pkt = 0;
  len = 100;
  seq = 1000;
  ts_us = 0;
  retrans = false;
  sacked = false;
}

abbrev pub sock : Tsock
sock = record {
  state = State.established;
  err = none;
  flags = no_flags;
  passive_connection = false;
  closed_at_syn_rcvd = false;
  close_issued = false;
  ts_enabled = true;
  ts_ok = true;
  ws_enabled = false;
  ws_ok = false;
  sack_enabled = true;
  sack_ok = true;
  is_ipv6 = false;
  tso_enabled = false;
  local_port = 8000;
  remote_port = 80;
  net_hdr_len = 34;
  packet_id = 0;
  data_seq_nxt = 1200;
  snd_ts = 0;
  last_ack_sent_ts = 0;
  last_snd_pkt = 0;
  snd_isn = 999;
  snd_una = 1000;
  snd_nxt = 1200;
  snd_recover = 999;
  snd_wnd = 500;
  snd_wl1 = 0;
  snd_wl2 = 0;
  snd_wscale = 0;
  cc = record { snd_cwnd = 16384; uncommited = 0; ts_us = 0; ssthresh = 100000; snd_mss = 1448 };
  snd_cwnd_orig = 16384;
  nr_dupack = 0;
  retrans_stage = Stage.no_retrans;
  retrans_seq = 0;
  retrans_ts_val = 0;
  retrans_desc_base = 0;
  sacked_bytes = 0;
  partial_ack = 0;
  est = record { rtt = 1000; srtt = 8000; rttvar = 2000; rto = 101000 };
  rto_shift = 0;
  zero_wnd_probe_shift = 0;
  init_ts_us = 0;
  txq = record {
    una = 0;
    nxt = 2;
    write = 2;
    size = 4;
    mask = 3;
    descs = λ i. record desc { seq = 1000 + i * 100 };
  };
  rcv_wscale = 0;
  rcv_isn = 4294967289;
  rcv_nxt = 4294967290;
  rcv_wnd = 65535;
  last_ack_sent = 4294967290;
  quickack = 0;
  ts_recent = 0;
  ts_recent_in_sec = 0;
  rxq = record { unread = 0; max = 0; size = 4; mask = 3; objs = λ i. pkt };
  rcv_ooo_queue = next_pkt ∷ [];
  nr_ooo_pkt = 1;
  last_ooo_pkt = some 2;
  ooo_start_ts = 0;
  sack_blocks = [];
  keepalive_shift = 0;
  timer_rto = none;
  timer_wait = none;
  timer_keepalive = none;
  events = 0;
  interested_events = 0;
  in_event_queue = false;
  in_output = false;
  in_accept = false;
}

abbrev pub cfg : Cfg
cfg = record {
  time_wait = 60000000;
  keepalive = 120000000;
  delayed_ack = 1;
  cwnd_init = 16384;
  cwnd_max = 1000000;
  rcv_ooo_limit = 100;
  rto_min = 100000;
  usr_snd_mss = 0;
  retries = 3;
  syn_retries = 2;
  pkt_max_chain = 8;
  write_chunk_size = 8192;
}

abbrev pub worker : Worker
worker = record { id = 0; ts_us = 5000 }

sock-Receiving : Receiving 4294967290 65529 sock
unfolding waiting window
sock-Receiving = record {
  order = record {
    valid = record {
      order = 2;
      order_le = omega arith;
      size_pow = refl;
      mask_eq = refl;
      size_le = omega arith;
      unread_lt = omega arith;
      max_lt = omega arith;
      max_in = omega arith;
    };
    chain = refl;
    nxt_lt = omega arith;
    wnd_lt = omega arith;
    right = omega arith;
  };
  short = (omega arith, tt);
}

tcp_rcv_data-Receiving_example : Receiving 4294967290 65529 (tcp_rcv_data cfg worker pkt sock).2
tcp_rcv_data-Receiving_example =
    tcp_rcv_data-Receiving 4294967290 65529 cfg worker pkt sock (omega arith) (omega arith)
      sock-Receiving
