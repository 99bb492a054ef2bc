-- ===== src/Tests/Xmit.antt =====
-- The sending of data of src/tcp/tcp_output.c with two descriptors that wait, to a card that takes nothing.
use libtpa.Base.{ℕ, ◌+◌, ◌*◌, ◌≡◌, map, refl, true, [], ◌∷◌}
use libtpa.Ring.{update}
use libtpa.TcpQueue.Txq.{peek_for_write, update_nxt}
use libtpa.Dev.{Port, txq_enqueue, txq_free_count}
use libtpa.Tcp.Seq.{seq_lt, seq_gt}
use libtpa.Tcp.Sock.{Tsock, rearm_rto}
use libtpa.Tcp.Header.{TxPkt, prepend_tcp_hdr, with_hdr, left_mss, advertised_wnd, checked_wnd}
use libtpa.Tcp.Options.{calc_tcp_opt_len, enabled_opts, fill_opts, has_block}
use libtpa.Tcp.FlagPkt.{Net, clear_tcp_flags}
use libtpa.Tcp.Xmit.{
  tcp_xmit_data, do_tcp_xmit_data, xmit_loop, xmit_one_packet, tsock_snd_mss, xmit_found,
  skip_sacked, start_fill, fill, mark_retrans, attach, piece, finishes, next_desc, send_filled,
  hand_over, set_desc, after_loop, after_xmit, update_snd, xmit_ctx, tcp_zero_wnd_probe,
}
use libtpa.Tcp.Xmit.Ready.{Ready}
use libtpa.Tests.Stream.{sock, desc, cfg, worker}

abbrev pub net : Net Unit
net = record {
  nic = record { has_port = true; burst = λ ps w. (0, w) };
  alloc_hdr = λ w. (true, w);
  alloc_zwrite = λ w. (true, w);
  free = λ w. w;
  neigh_wait = λ p w. (true, w);
  headroom = 128;
}

-- Segments have 150 bytes at most, and 200 bytes are in flight.
abbrev sender : Tsock
sender = record sock {
  data_seq_nxt = 1400;
  cc = record (sock.cc) { snd_mss = 150 };
  txq = record (sock.txq) {
    write = 4;
    descs = λ i. record desc { seq = 1000 + i * 100; phys_addr = i * 1000 };
  };
}

abbrev pub port : Port TxPkt Unit
port = record { pkts = []; world = tt }

-- The first packet is cut in the second descriptor, and the second packet has the rest.
tcp_xmit_data_example :
    let (pkts, t, port') = tcp_xmit_data net cfg worker sender port in
    (map {B = ℕ × ℕ} (λ p. (p.seq, p.len)) pkts ≡ (1200, 150) ∷ (1350, 50) ∷ [])
    × (t.snd_nxt ≡ 1400)
    × (t.txq.nxt ≡ 4)
unfolding tcp_xmit_data do_tcp_xmit_data xmit_loop xmit_one_packet xmit_found skip_sacked start_fill
    fill mark_retrans attach piece finishes next_desc send_filled hand_over set_desc prepend_tcp_hdr
    with_hdr tsock_snd_mss calc_tcp_opt_len enabled_opts left_mss advertised_wnd checked_wnd
    fill_opts after_loop after_xmit update_snd xmit_ctx txq_enqueue txq_free_count update
    peek_for_write update_nxt clear_tcp_flags rearm_rto tcp_zero_wnd_probe seq_lt seq_gt has_block
tcp_xmit_data_example = (refl, refl, refl)
