-- ===== src/Tcp/Establish.antt =====
-- The handshake (src/tcp/tcp_input.c: update_ts_recent, process_tcp_opt_negotiation, tsock_established,
-- syn_sent_to_established; src/tcp/tcp_output.c: calc_snd_mss; include/tcp.h: struct tcp_opts).
use libtpa.Base.{
  ℕ, ◌+◌, ◌-◌, ◌*◌, ◌/◌, ◌^◌, Bool, true, false, ◌&&◌, none, List, if◌then◌else◌, ◌==◌, min, u16,
  u32, sub16,
}
use libtpa.Tcp.Rtt.{rtt_update}
use libtpa.Tcp.Sack.{Block}
use libtpa.Tcp.Sock.{
  Seg, State, Tsock, Cfg, Worker, event_add, event_out, set_state, rearm_keepalive, set_ack_flag,
}

-- struct tcp_opts, as parse_tcp_opts fills it.
pub record Opts : Type 0 where
  pub mss : ℕ
  pub has_mss : Bool
  pub has_wscale : Bool
  pub wscale : ℕ
  pub has_ts : Bool
  pub ts_val : ℕ
  pub ts_ecr : ℕ
  pub has_sack_perm : Bool
  pub sack_blocks : List Block

-- What parse_tcp_opts writes to the packet.
unfoldable pub with_opts : Opts → Seg → Seg
with_opts opts p =
    if opts.has_ts
    then record p { ts_val = opts.ts_val; ts_ecr = opts.ts_ecr; has_ts_opt = true }
    else p

abbrev pub ts_space : ℕ
ts_space = 12

-- worker.h: now_in_sec
abbrev pub now_in_sec : Worker → ℕ
now_in_sec w = u32 (w.ts_us / 1000000)

unfoldable pub update_ts_recent : Worker → Seg → Tsock → Tsock
update_ts_recent w p s = record s { ts_recent = p.ts_val; ts_recent_in_sec = now_in_sec w }

-- calc_snd_mss of a passive socket. The Ethernet MTU less the headers of 60 and 40 bytes is positive.
unfoldable pub calc_snd_mss : Cfg → Tsock → Bool → ℕ → ℕ
calc_snd_mss cfg s has_ts nego_mss =
    let own =
      if cfg.usr_snd_mss == 0
      then (if s.is_ipv6 then 1440 else 1460)
      else cfg.usr_snd_mss + (if has_ts then ts_space else 0) in
    u16 (min own (if nego_mss == 0 then 536 else nego_mss))

unfoldable pub negotiate_ts : Worker → Bool → Seg → Tsock → Tsock
negotiate_ts w has_ts p s =
    let t =
      update_ts_recent w p
        (record s { ts_ok = true; cc = record (s.cc) { snd_mss = sub16 s.cc.snd_mss ts_space } }) in
    if has_ts then t else s

unfoldable pub negotiate_ws : Opts → Tsock → Tsock
negotiate_ws opts s =
    if s.ws_enabled && opts.has_wscale
    then record s { snd_wscale = opts.wscale; rcv_wscale = 10; ws_ok = true }
    else record s { snd_wscale = 0; rcv_wscale = 0 }

unfoldable pub process_tcp_opt_negotiation : Cfg → Worker → Opts → Seg → Tsock → Tsock
process_tcp_opt_negotiation cfg w opts p s =
    let has_ts = s.ts_enabled && opts.has_ts in
    let s1 = record s { cc = record (s.cc) { snd_mss = calc_snd_mss cfg s has_ts opts.mss } } in
    record (negotiate_ws opts (negotiate_ts w has_ts (with_opts opts p) s1)) {
      sack_ok = s.sack_enabled && opts.has_sack_perm;
    }

abbrev pub is_syn_sent : State → Bool
is_syn_sent State.syn_sent = true
is_syn_sent _ = false

unfoldable pub tsock_established : Cfg → Worker → Seg → Tsock → Tsock
tsock_established cfg w p s =
    let wnd = if is_syn_sent s.state then p.wnd else u32 (p.wnd * 2 ^ s.snd_wscale) in
    let fresh = record s {
      snd_una = p.ack;
      snd_wnd = wnd;
      snd_wl1 = p.seq;
      snd_wl2 = p.ack;
      cc = record (s.cc) {
        snd_cwnd = cfg.cwnd_init;
        uncommited = 0;
        ts_us = w.ts_us;
        ssthresh = min 1048576 (u32 (wnd * 64));
      };
      est = rtt_update cfg.rto_min (u32 (w.ts_us + 18446744073709551616 - s.init_ts_us)) s.est;
      rto_shift = 0;
      timer_rto = none;
    } in
    event_add event_out (set_state cfg w State.established (rearm_keepalive cfg w fresh))

unfoldable pub syn_sent_to_established : Cfg → Worker → Opts → Seg → Tsock → Tsock
syn_sent_to_established cfg w opts p s =
    let s1 =
      process_tcp_opt_negotiation cfg w opts p
        (record s { rcv_isn = p.seq; rcv_nxt = u32 (p.seq + 1) }) in
    set_ack_flag cfg true (tsock_established cfg w p s1)
