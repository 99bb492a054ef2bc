-- ===== src/Tests/Timeouts.antt =====
-- The timers of the socket of Tests.Stream.
use libtpa.Base.{◌≡◌, refl, none, some, false, arith}
use libtpa.TcpQueue.Txq.{peek_for_write}
use libtpa.TcpQueue.Txq.Inv.{IsValid}
use libtpa.Tcp.Sock.{State, Errno, Tsock}
use libtpa.Tcp.Recovery.{Output, KeepsState}
use libtpa.Tcp.Xmit.State.{output, output-KeepsState, output-KeepsTimer}
use libtpa.Tcp.Timeout.{Timer, clear_sacked, tcp_timeout, is_closed, is_opening}
use libtpa.Tcp.Timeout.Sacked.{unsack, clear_sacked-unsack}
use libtpa.Tcp.Timeout.Retries.{
  KeepsTimer, KeptOrClosed, IsArmed, rto_times, rto_times-below, rto_times-closed,
  tcp_timeout-state,
}
use libtpa.Tests.Stream.{sock, cfg, worker}
use libtpa.Tests.Xmit.{net, port}

txq-IsValid : IsValid sock.txq
txq-IsValid = record {
  order = 2;
  order_le = omega arith;
  size_pow = refl;
  mask_eq = refl;
  size_le = omega arith;
  una_lt = omega arith;
  nxt_lt = omega arith;
  write_lt = omega arith;
  nxt_in = omega arith;
  write_in = omega arith;
}

clear_sacked-unsack_example :
    let t = clear_sacked sock in
    (peek_for_write t.txq sock.txq.una 1 ≡ unsack (peek_for_write sock.txq sock.txq.una 1))
    × (t.sacked_bytes ≡ 0)
clear_sacked-unsack_example = clear_sacked-unsack sock 1 txq-IsValid

-- The retransmission timer of the socket runs, and what it sends goes to the card of Tests.Xmit.
abbrev waiting : Tsock
waiting = record sock { timer_rto = some 106000 }

abbrev out : Output
out = output net cfg worker port (λ p. none) (λ blocks. blocks)

out-KeepsState : KeepsState out
out-KeepsState = output-KeepsState net cfg worker port (λ p. none) (λ blocks. blocks)

out-KeepsTimer : KeepsTimer out
out-KeepsTimer = output-KeepsTimer net cfg worker port (λ p. none) (λ blocks. blocks)

-- The third of three timeouts.
rto_times-closed_example :
    let r = rto_times cfg (λ i. worker) (λ i. out) 3 waiting in
    (r.1.state ≡ State.closed) × (r.1.err ≡ some Errno.etimedout)
unfolding is_closed is_opening
rto_times-closed_example =
    rto_times-closed cfg (λ i. out) (λ i. out-KeepsState) (λ i. out-KeepsTimer) (λ i. worker) 2
      waiting refl (106000, refl) refl (omega arith)

rto_times-below_example :
    let r = rto_times cfg (λ i. worker) (λ i. out) 2 waiting in
    (r.0 ≡ false) × (r.1.state ≡ sock.state) × (r.1.rto_shift ≡ 2) × IsArmed r.1
unfolding is_closed is_opening
rto_times-below_example =
    rto_times-below cfg (λ i. out) (λ i. out-KeepsState) (λ i. out-KeepsTimer) (λ i. worker) 2
      waiting refl (106000, refl) (omega arith) (omega arith)

tcp_timeout-state_example :
    KeptOrClosed sock (tcp_timeout Timer.timer_keepalive cfg worker out sock)
tcp_timeout-state_example =
    tcp_timeout-state cfg out out-KeepsState Timer.timer_keepalive worker sock
