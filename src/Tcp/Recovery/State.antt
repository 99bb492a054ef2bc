-- ===== src/Tcp/Recovery/State.antt =====
-- Acknowledgements of data and loss recovery leave the state of the connection.
use libtpa.Base.{
  ℕ, zero, suc, ◌+◌, ◌≡◌, refl, ◌∙◌, List, [], ◌∷◌, arith, Option-cases, inl, inr, u16,
}
use libtpa.TcpQueue.Txq
use libtpa.Tcp.Sack.{Block}
use libtpa.Tcp.Sock.{Seg, Desc, Tsock, Cfg, Worker, event_add, rearm_rto}
use libtpa.Tcp.Ack.{
  AckRun, ack_loop, ack_start, after_ack, ack_sent_data, sample_rtt, count_acked, new_data_acked,
  new_data_acked_fast,
}
use libtpa.Tcp.Recovery.{
  Output, KeepsState, sort_sack, mark_desc_sacked, sack_block, sack_loop, tcp_rcv_sack,
  tcp_reset_retrans, regulate_retrans, tcp_retrans, tcp_fast_retrans, set_cwnd, leave_fast_retrans,
  enter_fast_retrans, inflate_cwnd, partial_ack_retrans, in_fast_retrans, handle_fast_retransmit,
}

after_ack-state : (r : AckRun) (s : Tsock) → (after_ack r s).state ≡ s.state
unfolding after_ack event_add
after_ack-state r s = ground arith

sent_data-state : (w : Worker) (n : ℕ) (s : Tsock) → (ack_sent_data w n s).1.state ≡ s.state
unfolding ack_sent_data
sent_data-state w n s =
    elim (Option-cases (ack_loop (Txq.unfinished_pkts s.txq + 1) s.txq w.ts_us (ack_start n s))) [
      | inl e ↦ rw (e, ack_sent_data) refl
      | inr (r, e) ↦ rw (e, ack_sent_data) (after_ack-state r s)
    ]

pub new_data-state :
    (cfg : Cfg) (w : Worker) (n : ℕ) (s : Tsock) → (new_data_acked cfg w n s).state ≡ s.state
unfolding new_data_acked count_acked rearm_rto sample_rtt
new_data-state cfg w n s = ground (arith, sent_data-state w n s)

pub new_data_fast-state :
    (cfg : Cfg) (w : Worker) (n : ℕ) (s : Tsock) → (new_data_acked_fast cfg w n s).state ≡ s.state
unfolding new_data_acked_fast count_acked rearm_rto sample_rtt
new_data_fast-state cfg w n s = ground (arith, sent_data-state w n s)

mark-state : (off : ℕ) (d : Desc) (s : Tsock) → (mark_desc_sacked off d s).state ≡ s.state
unfolding mark_desc_sacked
mark-state off d s = ground arith

sack_block-state :
    (n : ℕ) (b : Block) (off : ℕ) (s : Tsock) → (sack_block n b off s).1.state ≡ s.state
unfolding sack_block
sack_block-state zero b off s = refl
sack_block-state (suc n) b off s = grind (arith, mark-state, sack_block-state n b (u16 (off + 1)))

sack_loop-state : (bs : List Block) (off : ℕ) (s : Tsock) → (sack_loop bs off s).state ≡ s.state
unfolding sack_loop
sack_loop-state [] off s = refl
sack_loop-state (b ∷ bs) off s = ground (
  arith,
  sack_loop-state bs off s,
  sack_block-state (Txq.unfinished_pkts s.txq + 1) b off s,
  sack_loop-state bs (sack_block (Txq.unfinished_pkts s.txq + 1) b off s).0
      (sack_block (Txq.unfinished_pkts s.txq + 1) b off s).1,
)

pub tcp_rcv_sack-state :
    (out : Output) (bs : List Block) (s : Tsock) → (tcp_rcv_sack out bs s).state ≡ s.state
unfolding tcp_rcv_sack
tcp_rcv_sack-state out bs s = elim (Option-cases (sort_sack out bs)) [
  | inl e ↦ rw (e, tcp_rcv_sack) refl
  | inr (sorted, e) ↦ rw (e, tcp_rcv_sack) (sack_loop-state sorted 0 s)
]

module _ (out : Output) (keeps : KeepsState out) where
  regulate-state : (s : Tsock) → (regulate_retrans s).state ≡ s.state
  unfolding regulate_retrans tcp_reset_retrans
  regulate-state s = ground arith

  pub tcp_retrans-state : (s : Tsock) → (tcp_retrans out s).state ≡ s.state
  unfolding tcp_retrans
  tcp_retrans-state s = keeps.retrans _ (regulate_retrans s) ∙ regulate-state s

  fast_retrans-state : (n : ℕ) (s : Tsock) → (tcp_fast_retrans out n s).state ≡ s.state
  unfolding tcp_fast_retrans
  fast_retrans-state n s = keeps.retrans _ (regulate_retrans s) ∙ regulate-state s

  enter-state :
      (cfg : Cfg) (w : Worker) (s : Tsock) → (enter_fast_retrans cfg w out s).state ≡ s.state
  unfolding enter_fast_retrans set_cwnd tcp_reset_retrans
  enter-state cfg w s = grind (arith, fast_retrans-state)

  partial-state :
      (cfg : Cfg) (w : Worker) (p : Seg) (acked : ℕ) (s : Tsock)
      → (partial_ack_retrans cfg w out p acked s).state ≡ s.state
  unfolding partial_ack_retrans leave_fast_retrans set_cwnd
  partial-state cfg w p acked s = grind (arith, fast_retrans-state)

  in_recovery-state :
      (cfg : Cfg) (w : Worker) (p : Seg) (acked : ℕ) (s : Tsock)
      → (in_fast_retrans cfg w out p acked s).state ≡ s.state
  unfolding in_fast_retrans inflate_cwnd leave_fast_retrans set_cwnd
  in_recovery-state cfg w p acked s = ground (arith, partial-state cfg w p acked s)

  pub fast_retransmit-state :
      (cfg : Cfg) (w : Worker) (p : Seg) (acked : ℕ) (s : Tsock)
      → (handle_fast_retransmit cfg w out p acked s).state ≡ s.state
  unfolding handle_fast_retransmit
  fast_retransmit-state cfg w p acked s = ground (
    arith,
    enter-state cfg w s,
    in_recovery-state cfg w p acked s,
    in_recovery-state cfg w p acked (enter_fast_retrans cfg w out s),
  )
