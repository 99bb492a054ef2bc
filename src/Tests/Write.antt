-- ===== src/Tests/Write.antt =====
-- Writes of src/tcp/tcp_output.c to a socket that has room for two descriptors.
use libtpa.Base.{◌≡◌, inr, refl, some, none, List, [], ◌∷◌, arith, length}
use libtpa.Ring.{window}
use libtpa.TcpQueue.Txq.{free_count, unfinished_pkts, inflight_pkts, to_send_pkts}
use libtpa.Tcp.Sock.{output_enqueue}
use libtpa.Tcp.Xmit.Stream.{Contiguous, start, total}
use libtpa.Tcp.Xmit.Cores.{cores}
use libtpa.Tcp.Xmit.Ready.{Ready}
use libtpa.Tcp.Write.{
  Iov, Mbuf, Memory, Writer, tsock_zwritev, write_check, end_write, write_iovs, write_piece,
  with_desc, find_memory, put, describe, tsock_zwritev_slowpath, write_one_iov, write_pieces,
  too_many_used_mbufs, write_commit,
}
use libtpa.Tcp.Write.Carries.{iov_total}
use libtpa.Tcp.Write.Result.{WriteResult, tsock_zwritev-WriteResult}
use libtpa.Tests.Stream.{sock, desc, cfg}

abbrev mbuf : Mbuf
mbuf = record { id = 7; addr = 70000; iova = 90000; tailroom = 60 }

abbrev mem : Memory Unit
mem = record {
  alloc = λ w. (some mbuf, w);
  free = λ m w. w;
  copy = λ to from n w. w;
  used_mbufs = 0;
  drop_ooo_threshold = 100;
}

abbrev writer : Writer Unit
writer = record {
  sock = sock;
  pool = desc ∷ record desc { id = 1 } ∷ [];
  nr_write_mbuf = 0;
  world = tt;
}

-- The second has no physical address, and fits into one packet.
abbrev iovs : List Iov
iovs =
    record { base = 0; phys = 5000; len = 100; param = 0; write_done = some 3 }
    ∷ record { base = 200; phys = 0; len = 50; param = 0; write_done = none }
    ∷ []

sock-Ready : Ready sock
unfolding cores window Contiguous start total
sock-Ready = record {
  first = 1200;
  sent = 0;
  valid = record {
    order = 2;
    order_le = omega arith;
    size_pow = refl;
    mask_eq = refl;
    size_le = omega arith;
    una_lt = omega arith;
    nxt_lt = omega arith;
    write_lt = omega arith;
    nxt_in = omega arith;
    write_in = omega arith;
  };
  follow = tt;
  small = omega arith;
  seq = refl;
  end = refl;
  inside = inr (refl, refl);
}

tsock_zwritev-WriteResult_example :
    WriteResult mem cfg iovs writer sock-Ready (tsock_zwritev mem cfg iovs writer)
unfolding cores window total iov_total
tsock_zwritev-WriteResult_example =
    tsock_zwritev-WriteResult mem cfg iovs writer sock-Ready (omega arith)
      (λ v m e. let t : 60 ≡ m.tailroom = ground (arith, e) in omega (arith, t)) (omega arith)

-- Both iovecs are taken, the second from the slow path.
tsock_zwritev_example :
    let (result, w) = tsock_zwritev mem cfg iovs writer in
    (result ≡ inr 150)
    × (w.sock.txq.write ≡ 4)
    × (w.sock.data_seq_nxt ≡ 1350)
    × (w.nr_write_mbuf ≡ 1)
    × (length w.pool ≡ 0)
unfolding tsock_zwritev write_check end_write write_iovs write_piece with_desc find_memory put
    describe tsock_zwritev_slowpath write_one_iov write_pieces too_many_used_mbufs write_commit
    free_count unfinished_pkts inflight_pkts to_send_pkts output_enqueue
tsock_zwritev_example = (refl, refl, refl, refl, refl)
