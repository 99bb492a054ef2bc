-- ===== src/Tcp/Rcv/Diagram.antt =====
-- The state diagram of RFC 793, as far as arriving segments go: its arrows and short walks along them.
pub mod Keep
pub mod Walk
use libtpa.Base.{
  ℕ, ◌+◌, ◌-◌, ◌*◌, ◌/◌, ◌^◌, ◌≡◌, refl, sym, subst, ◌∙◌, Bool, true, false, not, ◌&&◌, ◌||◌,
  Option, some, none, List, if◌then◌else◌, ltb, ◌==◌, ◌≢◌, ◌⊎◌, sub32, arith, Bool-cases,
  Option-cases, inl, inr,
}
use libtpa.Tcp.Seq.{seq_lt, seq_le, seq_gt}
use libtpa.Tcp.Sock.{
  Seg, State, Err, Tsock, Cfg, Worker, set_state, event_add, event_in, set_ack_flag, reset_quickack,
  rearm_keepalive, is_established, output_enqueue,
}
use libtpa.Tcp.Ooo.{is_pos, tcp_rcv_data}
use libtpa.Tcp.Ooo.State.{tcp_rcv_data-state}
use libtpa.Tcp.Ack.{new_data_acked, new_data_acked_fast}
use libtpa.Tcp.Recovery.{Output, KeepsState, tcp_rcv_sack, handle_fast_retransmit}
use libtpa.Tcp.Recovery.State.{
  new_data-state, new_data_fast-state, tcp_rcv_sack-state, tcp_retrans-state, fast_retransmit-state,
}
use libtpa.Tcp.Establish.{
  Opts, with_opts, tsock_established, syn_sent_to_established, process_tcp_opt_negotiation,
  negotiate_ws, negotiate_ts, update_ts_recent,
}
use libtpa.Tcp.AckIn.{
  AckGroup, ack_group, count_dupack, fin_acked_state, fin_acked, track_recovery, update_snd_wnd,
  acked_bytes, ack_accepted, ack_numbered, tcp_rcv_ack, tcp_rcv_ack_fastpath,
}
use libtpa.Tcp.Rcv.{
  takes_data, then_fin, rcv_text, send_ack, acked_then_text, rcv_checked, send_rst, rcv_slow,
  rcv_in_state, is_listen, tcp_rcv_pkt,
}
use libtpa.Tcp.Handlers.{
  Result, tcp_rcv_fastpath, is_expected, process_incoming_seq, validate_seq, rst_action, apply_rst,
  tcp_rcv_rst, is_closed, tcp_rcv_pkt_at_listen, half_open, tcp_rcv_pkt_at_syn_sent, fin_state,
  tcp_rcv_fin, at_eof,
}

-- A reset closes every connection that is open or opening.
pub data CanReset : State → Type 0 where
  of_syn_sent : CanReset State.syn_sent
  of_syn_rcvd : CanReset State.syn_rcvd
  of_established : CanReset State.established
  of_fin_wait_1 : CanReset State.fin_wait_1
  of_fin_wait_2 : CanReset State.fin_wait_2
  of_close_wait : CanReset State.close_wait
  of_closing : CanReset State.closing
  of_last_ack : CanReset State.last_ack
  of_time_wait : CanReset State.time_wait

-- The arrows that a segment can cause.
pub data Arrow : State → State → Type 0 where
  syn_acked : Arrow State.syn_sent State.established
  handshake : Arrow State.syn_rcvd State.established
  fin_opening : Arrow State.syn_rcvd State.close_wait
  fin_in : Arrow State.established State.close_wait
  fin_crossed : Arrow State.fin_wait_1 State.closing
  fin_acked_1 : Arrow State.fin_wait_1 State.fin_wait_2
  fin_last : Arrow State.fin_wait_2 State.time_wait
  closing_acked : Arrow State.closing State.time_wait
  last_acked : Arrow State.last_ack State.closed
  reset : (a : State) → CanReset a → Arrow a State.closed

-- At most two arrows in a row.
pub data Moves : State → State → Type 0 where
  stay : (a : State) → Moves a a
  one : (a b : State) → Arrow a b → Moves a b
  two : (a b c : State) → Arrow a b → Arrow b c → Moves a c

-- At most one.
pub data Step : State → State → Type 0 where
  no_step : (a : State) → Step a a
  a_step : (a b : State) → Arrow a b → Step a b

pub then_Step : (a b c : State) → Step a b → Step b c → Moves a c
then_Step a b c (no_step _) (no_step _) = stay _
then_Step a b c (no_step _) (a_step _ _ y) = one _ _ y
then_Step a b c (a_step _ _ x) (no_step _) = one _ _ x
then_Step a b c (a_step _ _ x) (a_step _ _ y) = two _ _ _ x y

pub Step-Moves : (a b : State) → Step a b → Moves a b
Step-Moves a b h = then_Step a b b h (no_step b)

-- The state after the FIN sent is acknowledged, and after a FIN comes in.
abbrev pub after_fin_acked : State → State
after_fin_acked State.fin_wait_1 = State.fin_wait_2
after_fin_acked State.closing = State.time_wait
after_fin_acked State.last_ack = State.closed
after_fin_acked State.closed = State.closed
after_fin_acked State.listen = State.listen
after_fin_acked State.syn_sent = State.syn_sent
after_fin_acked State.syn_rcvd = State.syn_rcvd
after_fin_acked State.established = State.established
after_fin_acked State.fin_wait_2 = State.fin_wait_2
after_fin_acked State.close_wait = State.close_wait
after_fin_acked State.time_wait = State.time_wait

pub after_fin_acked-Step : (a : State) → Step a (after_fin_acked a)
after_fin_acked-Step State.fin_wait_1 = a_step _ _ fin_acked_1
after_fin_acked-Step State.closing = a_step _ _ closing_acked
after_fin_acked-Step State.last_ack = a_step _ _ last_acked
after_fin_acked-Step State.closed = no_step _
after_fin_acked-Step State.listen = no_step _
after_fin_acked-Step State.syn_sent = no_step _
after_fin_acked-Step State.syn_rcvd = no_step _
after_fin_acked-Step State.established = no_step _
after_fin_acked-Step State.fin_wait_2 = no_step _
after_fin_acked-Step State.close_wait = no_step _
after_fin_acked-Step State.time_wait = no_step _

abbrev pub after_fin : State → State
after_fin State.syn_rcvd = State.close_wait
after_fin State.established = State.close_wait
after_fin State.fin_wait_1 = State.closing
after_fin State.fin_wait_2 = State.time_wait
after_fin State.closing = State.closing
after_fin State.last_ack = State.last_ack
after_fin State.closed = State.closed
after_fin State.listen = State.listen
after_fin State.syn_sent = State.syn_sent
after_fin State.close_wait = State.close_wait
after_fin State.time_wait = State.time_wait

pub after_fin-Step : (a : State) → Step a (after_fin a)
after_fin-Step State.syn_rcvd = a_step _ _ fin_opening
after_fin-Step State.established = a_step _ _ fin_in
after_fin-Step State.fin_wait_1 = a_step _ _ fin_crossed
after_fin-Step State.fin_wait_2 = a_step _ _ fin_last
after_fin-Step State.closing = no_step _
after_fin-Step State.last_ack = no_step _
after_fin-Step State.closed = no_step _
after_fin-Step State.listen = no_step _
after_fin-Step State.syn_sent = no_step _
after_fin-Step State.close_wait = no_step _
after_fin-Step State.time_wait = no_step _

pub pick-Step : (b : Bool) (a c : State) → Step a c → Step a (if b then c else a)
pick-Step true a c h = h
pick-Step false a c h = no_step a

pub to_closed-Step : (a : State) → a ≢ State.listen → Step a State.closed
to_closed-Step State.closed h = no_step _
to_closed-Step State.listen h = absurd (h refl)
to_closed-Step State.syn_sent h = a_step _ _ (reset _ of_syn_sent)
to_closed-Step State.syn_rcvd h = a_step _ _ (reset _ of_syn_rcvd)
to_closed-Step State.established h = a_step _ _ (reset _ of_established)
to_closed-Step State.fin_wait_1 h = a_step _ _ (reset _ of_fin_wait_1)
to_closed-Step State.fin_wait_2 h = a_step _ _ (reset _ of_fin_wait_2)
to_closed-Step State.close_wait h = a_step _ _ (reset _ of_close_wait)
to_closed-Step State.closing h = a_step _ _ (reset _ of_closing)
to_closed-Step State.last_ack h = a_step _ _ (reset _ of_last_ack)
to_closed-Step State.time_wait h = a_step _ _ (reset _ of_time_wait)

pub if-Step :
    (b : Bool) (a : State) (x y : Option Err × Tsock)
    → Step a x.1.state
    → Step a y.1.state
    → Step a (if b then x else y).1.state
if-Step true a x y h k = h
if-Step false a x y h k = k

pub if-Moves :
    (b : Bool) (a : State) (x y : Result)
    → Moves a x.2.state
    → Moves a y.2.state
    → Moves a (if b then x else y).2.state
if-Moves true a x y h k = h
if-Moves false a x y h k = k

pub at_Moves : (a b : State) → b ≡ a → Moves a b
at_Moves a b e = rw e (stay a)

pub ack_group-cases :
    (a : State)
    → ((ack_group a ≡ AckGroup.opening) × (a ≡ State.syn_rcvd))
      ⊎ (ack_group a ≡ AckGroup.synchronized)
      ⊎ (ack_group a ≡ AckGroup.other)
ack_group-cases State.syn_rcvd = inl (refl, refl)
ack_group-cases State.closed = inr (inr refl)
ack_group-cases State.listen = inr (inr refl)
ack_group-cases State.syn_sent = inr (inr refl)
ack_group-cases State.established = inr (inl refl)
ack_group-cases State.fin_wait_1 = inr (inl refl)
ack_group-cases State.fin_wait_2 = inr (inl refl)
ack_group-cases State.close_wait = inr (inl refl)
ack_group-cases State.closing = inr (inl refl)
ack_group-cases State.last_ack = inr (inl refl)
ack_group-cases State.time_wait = inr (inl refl)
