-- ===== src/Tcp/Rcv/Diagram/Walk.antt =====
-- The state of a connection moves only along the arrows of the diagram of RFC 793.
use libtpa.Base.{
  ℕ, ◌≡◌, refl, sym, subst, ◌∙◌, Bool, true, not, ◌&&◌, ◌||◌, Option, some, none, if◌then◌else◌,
  ◌==◌, ◌≢◌, arith, Bool-cases, inl, inr,
}
use libtpa.Tcp.Seq.{seq_lt, seq_le, seq_gt}
use libtpa.Tcp.Sock.{
  Seg, State, Err, Tsock, Cfg, Worker, rearm_keepalive, is_established, output_enqueue,
}
use libtpa.Tcp.Ooo.{is_pos}
use libtpa.Tcp.Ack.{new_data_acked}
use libtpa.Tcp.Recovery.{Output, KeepsState, tcp_rcv_sack, handle_fast_retransmit}
use libtpa.Tcp.Recovery.State.{
  new_data-state, tcp_rcv_sack-state, tcp_retrans-state, fast_retransmit-state,
}
use libtpa.Tcp.Establish.{Opts, with_opts}
use libtpa.Tcp.AckIn.{
  count_dupack, fin_acked, track_recovery, acked_bytes, ack_accepted, ack_numbered, tcp_rcv_ack,
}
use libtpa.Tcp.Rcv.{
  acked_then_text, rcv_checked, send_rst, rcv_slow, rcv_in_state, is_listen, tcp_rcv_pkt,
}
use libtpa.Tcp.Handlers.{
  tcp_rcv_fastpath, process_incoming_seq, is_closed, half_open, tcp_rcv_pkt_at_syn_sent,
}
use libtpa.Tcp.Rcv.Diagram.{
  no_step, a_step, stay, syn_acked, handshake, Moves, Step, Step-Moves, ack_group-cases,
  after_fin_acked, after_fin_acked-Step, at_Moves, if-Moves, if-Step, pick-Step, then_Step,
}
use libtpa.Tcp.Rcv.Diagram.Keep.{
  fin_acked-state, dupack-state, window-state, established-state, syn_sent_to-state, rst-Step,
  keepalive-state, send_ack-state, incoming-state, fastpath-state, rcv_text-Step, flag-state,
}

module _ (cfg : Cfg) (w : Worker) (out : Output) (keeps : KeepsState out) where
  track-state : (p : Seg) (acked : ℕ) (s : Tsock) → (track_recovery out p acked s).state ≡ s.state
  unfolding track_recovery
  track-state p acked s = ground (arith, tcp_retrans-state out keeps s)

  accepted-state :
      (opts : Opts) (p : Seg) (s : Tsock)
      → (ack_accepted cfg w out opts p s).state
        ≡ (if s.flags.fin_sent && (p.ack == s.snd_nxt) then after_fin_acked s.state else s.state)
  unfolding ack_accepted
  accepted-state opts p s =
      let fin = s.flags.fin_sent && (p.ack == s.snd_nxt) in
      let acked = acked_bytes fin p s in
      let s1 = count_dupack p s in
      let s2 = if fin then fin_acked cfg w s1 else s1 in
      let s3 = if is_pos acked then new_data_acked cfg w acked s2 else s2 in
      let s4 = tcp_rcv_sack out opts.sack_blocks s3 in
      let s5 = track_recovery out p acked (handle_fast_retransmit cfg w out p acked s4) in
      let e2 = ended_state fin s1 s (dupack-state p s) in
      let e3 = counted_state acked s2 in
      window-state p (if s5.snd_una == s5.snd_nxt then record s5 { timer_rto = none } else s5)
      ∙ stopped-state s5
      ∙ track-state p acked (handle_fast_retransmit cfg w out p acked s4)
      ∙ fast_retransmit-state out keeps cfg w p acked s4
      ∙ tcp_rcv_sack-state out opts.sack_blocks s3
      ∙ e3
      ∙ e2
    where
      stopped-state :
          (t : Tsock)
          → (if t.snd_una == t.snd_nxt then record t { timer_rto = none } else t).state ≡ t.state
      stopped-state t = ground arith

      counted_state :
          (acked : ℕ) (t : Tsock)
          → (if is_pos acked then new_data_acked cfg w acked t else t).state ≡ t.state
      counted_state acked t = ground (arith, new_data-state cfg w acked t)

      ended_state :
          (fin : Bool) (t u : Tsock)
          → t.state ≡ u.state
          → (if fin then fin_acked cfg w t else t).state
            ≡ (if fin then after_fin_acked u.state else u.state)
      ended_state fin t u e = ground (arith, e, fin_acked-state cfg w t)

  accepted-Step :
      (opts : Opts) (p : Seg) (s : Tsock) → Step s.state (ack_accepted cfg w out opts p s).state
  unfolding ack_accepted
  accepted-Step opts p s =
      let fin = s.flags.fin_sent && (p.ack == s.snd_nxt) in
      rw (accepted-state opts p s)
        (pick-Step fin s.state (after_fin_acked s.state) (after_fin_acked-Step s.state))

  numbered-Step :
      (opts : Opts) (p : Seg) (s : Tsock) → Step s.state (ack_numbered cfg w out opts p s).1.state
  unfolding ack_numbered
  numbered-Step opts p s = elim (Bool-cases (seq_lt p.ack s.snd_una)) [
    | inl old ↦ rw old (no_step s.state)
    | inr new ↦ elim (Bool-cases (seq_gt p.ack s.snd_nxt)) [
      | inl ahead ↦ rw (new, ahead) (rw (flag-state cfg true s) (no_step s.state))
      | inr sent ↦ elim (ack_group-cases s.state) [
        | inl (g, e) ↦
            rw (new, sent, g) (rw (established-state cfg w p s, e) (a_step _ _ handshake))
        | inr (inl g) ↦ rw (new, sent, g) (accepted-Step opts p s)
        | inr (inr g) ↦ rw (new, sent, g) (accepted-Step opts p s)
      ]
    ]
  ]

  ack-Step :
      (opts : Opts) (p : Seg) (s : Tsock) → Step s.state (tcp_rcv_ack cfg w out opts p s).1.state
  unfolding tcp_rcv_ack
  ack-Step opts p s = elim (Bool-cases p.has_ack) [
    | inr no_ack ↦ rw no_ack (no_step s.state)
    | inl ack ↦ elim (ack_group-cases s.state) [
      | inl (g, e) ↦ rw (ack, g) (numbered-Step opts p s)
      | inr (inl g) ↦ rw (ack, g) (numbered-Step opts p s)
      | inr (inr g) ↦ rw (ack, g) (no_step s.state)
    ]
  ]

  text-Moves :
      (a : State) (p : Seg) (r : Option Err × Tsock)
      → Step a r.1.state
      → Moves a (acked_then_text cfg w p r).2.state
  unfolding acked_then_text
  text-Moves a p (some e, s) h = Step-Moves a s.state h
  text-Moves a p (none, s) h = elim (Bool-cases (is_closed s.state)) [
    | inl closed ↦ rw closed (Step-Moves a s.state h)
    | inr open_still ↦ rw open_still (then_Step a s.state _ h (rcv_text-Step cfg w p s))
  ]

  checked-Moves :
      (opts : Opts) (p : Seg) (r : Option Err × Tsock)
      → r.1.state ≢ State.listen
      → Moves r.1.state (rcv_checked cfg w out opts p r).2.state
  unfolding rcv_checked
  checked-Moves opts p (some e, s) h = rw (send_ack-state cfg p s) (stay s.state)
  checked-Moves opts p (none, s) h =
      if-Moves p.rst s.state _ _ (Step-Moves _ _ (rst-Step cfg w s h)) (
        if-Moves p.syn s.state _ _ (at_Moves _ _ (send_ack-state cfg p s))
          (text-Moves s.state p (tcp_rcv_ack cfg w out opts p s) (ack-Step opts p s)))

  half_open-state : (p : Seg) (s : Tsock) → (half_open out p s).state ≡ s.state
  unfolding half_open output_enqueue
  half_open-state p s =
      keeps.flag_with_seq p.ack (record s { flags = record (s.flags) { rst_needed = true } })

  syn_sent-Step :
      (opts : Opts) (p : Seg) (s : Tsock)
      → s.state ≡ State.syn_sent
      → Step s.state (tcp_rcv_pkt_at_syn_sent cfg w out opts p s).1.state
  unfolding tcp_rcv_pkt_at_syn_sent
  syn_sent-Step opts p s e =
      let same = no_step s.state in
      let up = subst (λ a. Step a State.established) (sym e) (a_step _ _ syn_acked) in
      if-Step (p.has_ack && (seq_le p.ack s.snd_isn || seq_gt p.ack s.snd_nxt)) s.state _ _
        (subst (λ a. Step s.state a) (sym (half_open-state p s)) same)
        (if-Step p.rst s.state _ _
          (if-Step p.has_ack s.state _ _ (rst-Step cfg w s (λ l. ground (arith, e, l))) same)
          (if-Step (not p.syn) s.state _ _ same (
            if-Step (not p.has_ack) s.state _ _ same (
              if-Step (seq_gt p.ack s.snd_isn) s.state _ _
                (subst (λ a. Step s.state a) (sym (syn_sent_to-state cfg w opts p s)) up) same))))

  send_rst-state : (p : Seg) (s : Tsock) → (send_rst out p s).state ≡ s.state
  unfolding send_rst
  send_rst-state p s =
      ground (arith, keeps.flag (record s { flags = record (s.flags) { rst_needed = true } }))

  checked_in-Moves :
      (opts : Opts) (p : Seg) (s : Tsock)
      → s.state ≢ State.listen
      → let p' = with_opts opts p in
        Moves s.state
          (rcv_checked cfg w out opts p'
            (process_incoming_seq w opts p' (rearm_keepalive cfg w s))).2.state
  checked_in-Moves opts p s h =
      let p' = with_opts opts p in
      let s' = rearm_keepalive cfg w s in
      let r = process_incoming_seq w opts p' s' in
      let e = incoming-state w opts p' s' ∙ keepalive-state cfg w s in
      subst (λ a. Moves a (rcv_checked cfg w out opts p' r).2.state) e
        (checked-Moves opts p' r (λ l. h (sym e ∙ l)))

  slow-Moves :
      (opts : Opts) (p : Seg) (s : Tsock) (a : State)
      → s.state ≡ a
      → Moves s.state (rcv_in_state cfg w out opts p s a).2.state
  unfolding rcv_in_state
  slow-Moves opts p s State.closed e = at_Moves _ _ (send_rst-state p s)
  slow-Moves opts p s State.syn_sent e = Step-Moves _ _ (syn_sent-Step opts p s e)
  slow-Moves opts p s State.listen e = stay s.state
  slow-Moves opts p s State.syn_rcvd e = checked_in-Moves opts p s (λ l. ground (arith, e, l))
  slow-Moves opts p s State.established e = checked_in-Moves opts p s (λ l. ground (arith, e, l))
  slow-Moves opts p s State.fin_wait_1 e = checked_in-Moves opts p s (λ l. ground (arith, e, l))
  slow-Moves opts p s State.fin_wait_2 e = checked_in-Moves opts p s (λ l. ground (arith, e, l))
  slow-Moves opts p s State.close_wait e = checked_in-Moves opts p s (λ l. ground (arith, e, l))
  slow-Moves opts p s State.closing e = checked_in-Moves opts p s (λ l. ground (arith, e, l))
  slow-Moves opts p s State.last_ack e = checked_in-Moves opts p s (λ l. ground (arith, e, l))
  slow-Moves opts p s State.time_wait e = checked_in-Moves opts p s (λ l. ground (arith, e, l))

  -- Whatever segment arrives, in whatever state, and also when the fast path fails half way: as long as
  -- sending leaves the state alone, the state of the connection moves along at most two arrows
  -- of the diagram of RFC 793 for arriving segments.
  pub tcp_rcv_pkt-Moves :
      (opts : Opts) (p : Seg) (s : Tsock) → Moves s.state (tcp_rcv_pkt cfg w out opts p s).2.state
  unfolding tcp_rcv_pkt rcv_slow
  tcp_rcv_pkt-Moves opts p s =
      let (consumed, p', s') = tcp_rcv_fastpath cfg w p s in
      let e = fastpath-state cfg w p s in
      let mismatch = not (p.wid == w.id) && not (is_listen s.state) in
      if-Moves mismatch s.state _ _ (stay s.state) (
        if-Moves (not (is_established s.state)) s.state _ _ (slow-Moves opts p s s.state refl) (
          if-Moves consumed s.state _ _ (at_Moves _ _ (keepalive-state cfg w s' ∙ e)) (
            subst (λ a. Moves a (rcv_in_state cfg w out opts p' s' s'.state).2.state) e
              (slow-Moves opts p' s' s'.state refl))))
