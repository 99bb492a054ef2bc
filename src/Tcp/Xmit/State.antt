-- ===== src/Tcp/Xmit/State.antt =====
-- Sending leaves the state of the connection, the count of timeouts, and a retransmission timer that runs: so
-- the functions of src/tcp/tcp_output.c are as the receive path and the timeouts take them to be.
use libtpa.Base.{
  ℕ, zero, suc, ◌≡◌, refl, ◌∙◌, not, Option, some, none, List, [], ◌∷◌, ◌==◌, sub16, sub32, ◌+◌,
  min, if_lem, arith,
}
use libtpa.Dev.{Port, txq_enqueue, txq_free_count}
use libtpa.Tcp.Sock.{Desc, Seg, Tsock, Cfg, Worker, Err, rearm_rto}
use libtpa.Tcp.Sack.{Block}
use libtpa.Tcp.Header.{TxPkt, Payload, ack_flag, prepend_tcp_hdr}
use libtpa.Tcp.FlagPkt.{
  Net, Sent, sent, nothing, failed, clear_tcp_flags, after_flags, pass_on,
  xmit_flag_packet_with_seq, xmit_flag_packet,
}
use libtpa.Tcp.Recovery.{Output, KeepsState}
use libtpa.Tcp.Timeout.Retries.{KeepsTimer}
use libtpa.Tcp.Xmit.{
  XmitCtx, Fill, Run, is_positive, skip_sacked, hand_over, send_filled, xmit_found, xmit_one_packet,
  xmit_loop, after_xmit, after_loop, do_tcp_xmit_data, do_tcp_retrans,
}

-- What the sending functions leave alone.
pub record Calls (s t : Tsock) : Type 0 where
  pub state : t.state ≡ s.state
  pub shift : t.rto_shift ≡ s.rto_shift
  pub timer : (d : ℕ) → s.timer_rto ≡ some d → t.timer_rto ≡ some d

Calls-refl : (s : Tsock) → Calls s s
Calls-refl s = record { state = refl; shift = refl; timer = λ d e. e }

Calls-trans : (s t u : Tsock) → Calls s t → Calls t u → Calls s u
Calls-trans s t u a b = record {
  state = b.state ∙ a.state;
  shift = b.shift ∙ a.shift;
  timer = λ d e. b.timer d (a.timer d e);
}

module _ {W : Type 0} (net : Net W) (cfg : Cfg) (w : Worker) where
  prepend-Calls :
      (p : Payload) (seq : ℕ) (s : Tsock)
      → Calls s (prepend_tcp_hdr cfg w net.headroom p seq ack_flag s).1
  unfolding prepend_tcp_hdr
  prepend-Calls p seq s = record {
    state = ground arith;
    shift = ground arith;
    timer = λ d e. ground (arith, e);
  }

  hand_over-Calls :
      (f : Fill W) (r : Run W) (x : Option TxPkt × Tsock) → Calls x.1 (hand_over net f r x).1.sock
  unfolding hand_over clear_tcp_flags
  hand_over-Calls f r (none, s) = Calls-refl s
  hand_over-Calls f r (some pkt, s) =
      if_lem (λ (y : Sent × Run W). Calls s y.1.sock)
        (txq_enqueue net.nic pkt (record (r.port) { world = f.world })).0 _ _
        (λ e. record { state = refl; shift = refl; timer = λ d h. h }) (λ e. Calls-refl s)

  send_filled-Calls : (f : Fill W) (r : Run W) → Calls r.sock (send_filled net cfg w f r).1.sock
  unfolding send_filled
  send_filled-Calls f r =
      let s = record (r.sock) { txq = f.txq } in
      let payload : Payload = record {
        retransmit = f.retransmit;
        chunks = f.chunks;
        len = f.size;
      } in
      let x = prepend_tcp_hdr cfg w net.headroom payload (sub32 f.ctx.seq f.size) ack_flag s in
      let kept : Calls r.sock s = record { state = refl; shift = refl; timer = λ d e. e } in
      if_lem (λ (y : Sent × Run W). Calls r.sock y.1.sock) (f.size == 0) _ (hand_over net f r x)
        (λ e. record { state = refl; shift = refl; timer = λ d h. h })
        (λ e. Calls-trans r.sock s (hand_over net f r x).1.sock kept (
          Calls-trans s x.1 (hand_over net f r x).1.sock
            (prepend-Calls payload (sub32 f.ctx.seq f.size) s) (hand_over-Calls f r x)))

  xmit_found-Calls :
      (r : Run W) (x : Option Desc × XmitCtx) → Calls r.sock (xmit_found net cfg w r x).1.sock
  unfolding xmit_found
  xmit_found-Calls r (none, c) = Calls-refl r.sock
  xmit_found-Calls r (some d, c) =
      if_lem (λ (y : Sent × Run W). Calls r.sock y.1.sock) (not (net.alloc_hdr r.port.world).0) _ _
        (λ e. Calls-refl r.sock) (λ e. send_filled-Calls _ r)

  xmit_loop-Calls : (n : ℕ) (r : Run W) → Calls r.sock (xmit_loop net cfg w n r).1.sock
  unfolding xmit_loop xmit_one_packet
  xmit_loop-Calls zero r = Calls-refl r.sock
  xmit_loop-Calls (suc n) r =
      let (result, r') = xmit_one_packet net cfg w r in
      let one : Calls r.sock r'.sock =
        xmit_found-Calls r
          (skip_sacked (sub16 r.sock.txq.write r.ctx.desc_base + 1) r.sock.txq r.ctx) in
      if_lem (λ (y : List TxPkt × Run W). Calls r.sock y.1.sock) (not (is_positive r.ctx.budget))
        ([], r) _ (λ e. Calls-refl r.sock)
        (λ e. by_result r r' one (xmit_loop net cfg w n r') (xmit_loop-Calls n r') result)
    where
      by_result :
          (r r' : Run W)
          → Calls r.sock r'.sock
          → (rest : List TxPkt × Run W) → Calls r'.sock rest.1.sock
          → (result : Sent)
          → Calls r.sock
              (elim result as (λ x. List TxPkt × Run W) [
                | sent p ↦ (p ∷ rest.0, rest.1)
                | nothing ↦ ([], r')
                | failed e ↦ ([], r')
              ]).1.sock
      by_result r r' one rest more (sent p) = Calls-trans r.sock r'.sock rest.1.sock one more
      by_result r r' one rest more nothing = one
      by_result r r' one rest more (failed e) = one

  after_loop-Calls : (x : List TxPkt × Run W) → Calls x.1.sock (after_loop w x).1.sock
  unfolding after_loop after_xmit rearm_rto
  after_loop-Calls ([], r) = Calls-refl r.sock
  after_loop-Calls (p ∷ pkts, r) = record {
    state = ground arith;
    shift = ground arith;
    timer = λ d e. ground (arith, e);
  }

  retrans-Calls :
      (n : ℕ) (s : Tsock) (port : Port TxPkt W) → Calls s (do_tcp_retrans net cfg w n s port).1
  unfolding do_tcp_retrans do_tcp_xmit_data
  retrans-Calls n s port =
      let ctx : XmitCtx = record {
        seq = s.retrans_seq;
        seq_max = s.snd_nxt;
        budget = n;
        desc_off = 0;
        desc_base = s.retrans_desc_base;
      } in
      let r : Run W = record { ctx = ctx; sock = s; port = port } in
      let x = xmit_loop net cfg w (min (txq_free_count port) 64) r in
      let done =
        Calls-trans s x.1.sock (after_loop w x).1.sock
          (xmit_loop-Calls (min (txq_free_count port) 64) r) (after_loop-Calls x) in
      record { state = done.state; shift = done.shift; timer = done.timer }

  flag-state :
      (n : ℕ) (s : Tsock) (port : Port TxPkt W)
      → (xmit_flag_packet_with_seq net cfg w n s port).1.state ≡ s.state
  unfolding xmit_flag_packet_with_seq prepend_tcp_hdr pass_on after_flags clear_tcp_flags
  flag-state n s port = ground arith

  -- The functions of src/tcp/tcp_output.c on a port, for the record Output.
  abbrev pub output : Port TxPkt W → (Seg → Option Err) → (List Block → List Block) → Output
  output port accept sort = record {
    do_tcp_retrans = λ n s. (do_tcp_retrans net cfg w n s port).1;
    xmit_flag_packet = λ s. (xmit_flag_packet net cfg w s port).1;
    xmit_flag_packet_with_seq = λ n s. (xmit_flag_packet_with_seq net cfg w n s port).1;
    tsock_accept = accept;
    sort = sort;
  }

  pub output-KeepsState :
      (port : Port TxPkt W) (accept : Seg → Option Err) (sort : List Block → List Block)
      → KeepsState (output port accept sort)
  unfolding xmit_flag_packet
  output-KeepsState port accept sort = record {
    retrans = λ n s. (retrans-Calls n s port).state;
    flag = λ s. flag-state _ s port;
    flag_with_seq = λ n s. flag-state n s port;
  }

  pub output-KeepsTimer :
      (port : Port TxPkt W) (accept : Seg → Option Err) (sort : List Block → List Block)
      → KeepsTimer (output port accept sort)
  output-KeepsTimer port accept sort = record {
    shift = λ n s. (retrans-Calls n s port).shift;
    timer = λ n s d e. (retrans-Calls n s port).timer d e;
  }
