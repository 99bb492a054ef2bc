-- ===== src/Tests/Receive.antt =====
-- The processing of segments on the connection of Tests.Stream.
use libtpa.Base.{◌-◌, ◌≡◌, refl, true, false, some, none, [], arith, length, take, max, ◌/◌}
use libtpa.Ring.{window}
use libtpa.TcpQueue.Txq.Refine.{span}
use libtpa.Tcp.Seq.{seq_le, seq_ge}
use libtpa.Tcp.Sock.{Seg, Err}
use libtpa.Tcp.Ack.{ack_sent_data}
use libtpa.Tcp.Ack.Bytes.{Advanced, Sending, ack_sent_data-Advanced}
use libtpa.Tcp.Recovery.{Output, KeepsState}
use libtpa.Tcp.Establish.{Opts}
use libtpa.Tcp.Shed.{tsock_drop_ooo_mbufs, tsock_drop_ooo_mbufs-takes}
use libtpa.Tcp.Rcv.{tcp_rcv_pkt}
use libtpa.Tcp.Handlers.{validate_seq}
use libtpa.Tcp.Rcv.Diagram.{Moves}
use libtpa.Tcp.Rcv.Diagram.Walk.{tcp_rcv_pkt-Moves}
use libtpa.Tcp.Rcv.Window.{Untouched, tcp_rcv_pkt-Untouched}
use libtpa.Tests.Stream.{pkt, sock, cfg, worker}

-- Nothing is sent.
abbrev pub silent : Output
silent = record {
  do_tcp_retrans = λ n s. s;
  xmit_flag_packet = λ s. s;
  xmit_flag_packet_with_seq = λ n s. s;
  tsock_accept = λ p. none;
  sort = λ bs. bs;
}

pub silent_keeps : KeepsState silent
silent_keeps = record { retrans = λ n s. refl; flag = λ s. refl; flag_with_seq = λ n s. refl }

abbrev no_opts : Opts
no_opts = record {
  mss = 0;
  has_mss = false;
  has_wscale = false;
  wscale = 0;
  has_ts = false;
  ts_val = 0;
  ts_ecr = 0;
  has_sack_perm = false;
  sack_blocks = [];
}

-- A FIN that comes in order.
abbrev fin_pkt : Seg
fin_pkt = record pkt { fin = true; len = 0 }

tcp_rcv_pkt-Moves_example :
    Moves sock.state (tcp_rcv_pkt cfg worker silent no_opts fin_pkt sock).2.state
tcp_rcv_pkt-Moves_example = tcp_rcv_pkt-Moves cfg worker silent silent_keeps no_opts fin_pkt sock

-- A reset far outside the window.
abbrev blind_rst : Seg
blind_rst = record pkt { rst = true; seq = 1000000; len = 0 }

blind_rst_refused : validate_seq blind_rst sock ≡ false
unfolding validate_seq seq_le seq_ge
blind_rst_refused = refl

tcp_rcv_pkt-Untouched_example :
    let r = tcp_rcv_pkt cfg worker silent no_opts blind_rst sock in
    (r.0 ≡ some Err.invalid_seq) × Untouched sock r.2
tcp_rcv_pkt-Untouched_example =
    tcp_rcv_pkt-Untouched cfg worker silent no_opts blind_rst sock (λ e. ground (arith, e))
      blind_rst_refused refl (omega arith) (omega arith) (omega arith)

sock-Sending : Sending sock
unfolding span window
sock-Sending = record {
  valid = record {
    order = 2;
    order_le = omega arith;
    size_pow = refl;
    mask_eq = refl;
    size_le = omega arith;
    una_lt = omega arith;
    nxt_lt = omega arith;
    write_lt = omega arith;
    nxt_in = omega arith;
    write_in = omega arith;
  };
  have = (omega arith, (omega arith, tt));
  small = omega arith;
  inside = omega arith;
  una_lt = omega arith;
}

-- The first descriptor and half of the second.
ack_sent_data-Advanced_example : Advanced 150 sock (ack_sent_data worker 150 sock).1
unfolding span window
ack_sent_data-Advanced_example =
    ack_sent_data-Advanced worker 150 sock sock-Sending (omega arith) (omega arith)

-- One packet waits, and it is dropped.
tsock_drop_ooo_mbufs-takes_example :
    let t = tsock_drop_ooo_mbufs sock in
    (t.rcv_ooo_queue ≡ take (1 - max (1 / 4) 1) sock.rcv_ooo_queue)
    × (t.nr_ooo_pkt ≡ 1 - max (1 / 4) 1)
    × (t.nr_ooo_pkt ≡ length t.rcv_ooo_queue)
tsock_drop_ooo_mbufs-takes_example = tsock_drop_ooo_mbufs-takes sock refl (omega arith)
