-- ===== src/Tcp/Rcv/Diagram/Keep.antt =====
-- What each part of the processing of a segment does to the state of the connection.
use libtpa.Base.{
  ◌≡◌, refl, subst, Bool, some, none, if◌then◌else◌, ◌==◌, ◌≢◌, sub32, arith, Bool-cases, inl, inr,
}
use libtpa.Tcp.Seq.{seq_le}
use libtpa.Tcp.Sock.{
  Seg, State, Tsock, Cfg, Worker, set_state, event_add, event_in, set_ack_flag, reset_quickack,
  rearm_keepalive,
}
use libtpa.Tcp.Ooo.{tcp_rcv_data}
use libtpa.Tcp.Ooo.State.{tcp_rcv_data-state}
use libtpa.Tcp.Recovery.State.{new_data_fast-state}
use libtpa.Tcp.Establish.{Opts, tsock_established, syn_sent_to_established, update_ts_recent}
use libtpa.Tcp.AckIn.{
  count_dupack, fin_acked_state, fin_acked, update_snd_wnd, tcp_rcv_ack_fastpath,
}
use libtpa.Tcp.Rcv.{takes_data, then_fin, rcv_text, send_ack}
use libtpa.Tcp.Handlers.{
  Result, tcp_rcv_fastpath, process_incoming_seq, apply_rst, tcp_rcv_rst, fin_state, tcp_rcv_fin,
  at_eof,
}
use libtpa.Tcp.Rcv.Diagram.{
  no_step, Step, after_fin, after_fin-Step, after_fin_acked, pick-Step, to_closed-Step,
}

pub fin_acked-state :
    (cfg : Cfg) (w : Worker) (s : Tsock) → (fin_acked cfg w s).state ≡ after_fin_acked s.state
unfolding fin_acked fin_acked_state set_state
fin_acked-state cfg w s = ground arith

pub fin_state-state :
    (cfg : Cfg) (w : Worker) (s : Tsock) → (fin_state cfg w s).state ≡ after_fin s.state
unfolding fin_state set_state
fin_state-state cfg w s = ground arith

pub fin-state :
    (cfg : Cfg) (w : Worker) (p : Seg) (s : Tsock)
    → (tcp_rcv_fin cfg w p s).1.state ≡ (if p.fin then after_fin s.state else s.state)
unfolding tcp_rcv_fin set_ack_flag event_add
fin-state cfg w p s = ground (arith, fin_state-state cfg w (event_add event_in (at_eof s)))

pub fin-Step :
    (cfg : Cfg) (w : Worker) (p : Seg) (s : Tsock) → Step s.state (tcp_rcv_fin cfg w p s).1.state
fin-Step cfg w p s =
    rw (fin-state cfg w p s) (pick-Step p.fin s.state (after_fin s.state) (after_fin-Step s.state))

pub dupack-state : (p : Seg) (s : Tsock) → (count_dupack p s).state ≡ s.state
unfolding count_dupack
dupack-state p s = ground arith

pub window-state : (p : Seg) (s : Tsock) → (update_snd_wnd p s).state ≡ s.state
unfolding update_snd_wnd
window-state p s = ground arith

pub established-state :
    (cfg : Cfg) (w : Worker) (p : Seg) (s : Tsock)
    → (tsock_established cfg w p s).state ≡ State.established
unfolding tsock_established event_add set_state
established-state cfg w p s = refl

pub syn_sent_to-state :
    (cfg : Cfg) (w : Worker) (opts : Opts) (p : Seg) (s : Tsock)
    → (syn_sent_to_established cfg w opts p s).state ≡ State.established
unfolding syn_sent_to_established set_ack_flag
syn_sent_to-state cfg w opts p s = established-state cfg w p _

pub rst-closed : (cfg : Cfg) (w : Worker) (s : Tsock) → (tcp_rcv_rst cfg w s).1.state ≡ State.closed
unfolding tcp_rcv_rst apply_rst set_state event_add
rst-closed cfg w s = ground arith

pub rst-Step :
    (cfg : Cfg) (w : Worker) (s : Tsock)
    → s.state ≢ State.listen
    → Step s.state (tcp_rcv_rst cfg w s).1.state
rst-Step cfg w s h = rw (rst-closed cfg w s) (to_closed-Step s.state h)

pub keepalive-state :
    (cfg : Cfg) (w : Worker) (s : Tsock) → (rearm_keepalive cfg w s).state ≡ s.state
unfolding rearm_keepalive
keepalive-state cfg w s = ground arith

pub send_ack-state : (cfg : Cfg) (p : Seg) (s : Tsock) → (send_ack cfg p s).state ≡ s.state
unfolding send_ack set_ack_flag reset_quickack
send_ack-state cfg p s = ground arith

pub incoming-state :
    (w : Worker) (opts : Opts) (p : Seg) (s : Tsock)
    → (process_incoming_seq w opts p s).1.state ≡ s.state
unfolding process_incoming_seq update_ts_recent
incoming-state w opts p s = ground arith

pub ack_fastpath-state :
    (cfg : Cfg) (w : Worker) (p : Seg) (s : Tsock)
    → (tcp_rcv_ack_fastpath cfg w p s).state ≡ s.state
unfolding tcp_rcv_ack_fastpath
ack_fastpath-state cfg w p s = ground (arith, new_data_fast-state cfg w (sub32 p.ack s.snd_una) s)

pub fastpath-state :
    (cfg : Cfg) (w : Worker) (p : Seg) (s : Tsock) → (tcp_rcv_fastpath cfg w p s).2.state ≡ s.state
unfolding tcp_rcv_fastpath update_ts_recent
fastpath-state cfg w p s =
    let s1 = if seq_le p.seq s.last_ack_sent then update_ts_recent w p s else s in
    let (err, p', s2) = tcp_rcv_data cfg w p s1 in
    ground (arith, tcp_rcv_data-state cfg w p s1, ack_fastpath-state cfg w p' s2)

pub then_fin-Step :
    (cfg : Cfg) (w : Worker) (r : Result) → Step r.2.state (then_fin cfg w r).2.state
unfolding then_fin
then_fin-Step cfg w (some e, p, s) = no_step s.state
then_fin-Step cfg w (none, p, s) = fin-Step cfg w p s

pub rcv_text-Step :
    (cfg : Cfg) (w : Worker) (p : Seg) (s : Tsock) → Step s.state (rcv_text cfg w p s).2.state
unfolding rcv_text
rcv_text-Step cfg w p s = elim (Bool-cases (takes_data s.state)) [
  | inl takes ↦ rw takes (
      subst (λ a. Step a (then_fin cfg w (tcp_rcv_data cfg w p s)).2.state)
        (tcp_rcv_data-state cfg w p s) (then_fin-Step cfg w (tcp_rcv_data cfg w p s)))
  | inr no_data ↦ elim (Bool-cases (p.len == 0)) [
    | inl empty ↦ rw (no_data, empty) (then_fin-Step cfg w (none, p, s))
    | inr text ↦ rw (no_data, text) (no_step s.state)
  ]
]

pub flag-state : (cfg : Cfg) (now : Bool) (s : Tsock) → (set_ack_flag cfg now s).state ≡ s.state
unfolding set_ack_flag
flag-state cfg now s = refl
