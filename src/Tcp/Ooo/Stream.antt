-- ===== src/Tcp/Ooo/Stream.antt =====
-- tcp_rcv_data (src/tcp/tcp_input.c) continues the stream.
use libtpa.Base.{
  ℕ, ◌<◌, ◌≡◌, refl, sym, ◌∙◌, Bool, true, false, [], ◌∷◌, leb, ◌==◌, arith, sub32, Bool-cases,
  ==_iff, inl, inr,
}
use libtpa.Tcp.Seq.{seq_lt}
use libtpa.TcpQueue.Rxq
use libtpa.Tcp.Sock.{event_add, Seg, Tsock, Cfg, Worker, set_ack_flag, reset_quickack}
use libtpa.Tcp.Ooo.{
  cut_head, to_window, delivered, tcp_rcv_enqueue, drain_loop, ooo_queue_drain, tcp_rcv_data_ooo,
  rcv_trimmed, tcp_rcv_data, head_reached,
}
use libtpa.Tcp.Ooo.Edge.{
  InOrder, SameRcv, SameRcv-InOrder, AreShort, enqueue-InOrder, drain_loop-Drained,
}
use libtpa.Tcp.Ooo.Placed.{Placed, Placed-trans, cut_head-short, data_ooo-Placed}

-- The ooo queue is short as well.
pub record Receiving (a edge : ℕ) (s : Tsock) : Type 0 where
  pub order : InOrder a edge s
  pub short : AreShort s.rcv_ooo_queue

receiving :
    (a edge : ℕ) (s t : Tsock)
    → InOrder a edge s
    → SameRcv s t
    → AreShort t.rcv_ooo_queue
    → Receiving a edge t
receiving a edge s t i e h = record { order = SameRcv-InOrder a edge s t e i; short = h }

drain-Receiving :
    (a edge : ℕ) (s : Tsock) → Receiving a edge s → Receiving a edge (ooo_queue_drain s)
unfolding ooo_queue_drain
drain-Receiving a edge s r =
    let d = drain_loop-Drained a edge s.rcv_ooo_queue s r.short r.order in
    let (ended, s1) = drain_loop s.rcv_ooo_queue s in
    elim (Bool-cases ended) [
      | inr stopped ↦ rw (stopped, ooo_queue_drain) (record { order = d.order; short = d.short })
      | inl through ↦ elim (Bool-cases (s1.nr_ooo_pkt == 0)) [
        | inl empty ↦
            rw (through, empty, ooo_queue_drain)
              (receiving a edge s1 _ d.order (record { rxq = refl; rcv_nxt = refl; rcv_wnd = refl })
                d.short)
        | inr some_left ↦
            rw (through, some_left, ooo_queue_drain)
              (receiving a edge s1 _ d.order (record { rxq = refl; rcv_nxt = refl; rcv_wnd = refl })
                d.short)
      ]
    ]

flagged : (cfg : Cfg) (now : Bool) (s : Tsock) → SameRcv s (set_ack_flag cfg now s)
unfolding set_ack_flag
flagged cfg now s = record { rxq = refl; rcv_nxt = refl; rcv_wnd = refl }

flagged_queue :
    (cfg : Cfg) (now : Bool) (s : Tsock) → (set_ack_flag cfg now s).rcv_ooo_queue ≡ s.rcv_ooo_queue
unfolding set_ack_flag
flagged_queue cfg now s = refl

enqueue_queue : (p : Seg) (s : Tsock) → (tcp_rcv_enqueue p s).2.rcv_ooo_queue ≡ s.rcv_ooo_queue
unfolding tcp_rcv_enqueue delivered event_add
enqueue_queue p s =
    let p' = to_window s.rcv_wnd p in
    let (n, q) = Rxq.enqueue_burst s.rxq (p' ∷ []) in
    elim (Bool-cases (p'.len == 0)) [
      | inl z ↦ rw (z, tcp_rcv_enqueue) refl
      | inr nz ↦ elim (Bool-cases (n == 1)) [
        | inl one ↦ rw (nz, one, tcp_rcv_enqueue) refl
        | inr full ↦ rw (nz, full, tcp_rcv_enqueue) refl
      ]
    ]

-- An acknowledgement is asked for before the data is placed.
flag_now :
    (cfg : Cfg) (s : Tsock)
    → AreShort s.rcv_ooo_queue
    → Placed s (set_ack_flag cfg true (reset_quickack s))
unfolding set_ack_flag reset_quickack
flag_now cfg s h = record {
  same = record { rxq = refl; rcv_nxt = refl; rcv_wnd = refl };
  short = h;
}

tcp_rcv_data_ooo-Receiving :
    (a edge : ℕ) (cfg : Cfg) (w : Worker) (p : Seg) (s : Tsock)
    → p.len < 65536
    → Receiving a edge s
    → Receiving a edge
        (ooo_queue_drain (tcp_rcv_data_ooo cfg w p (set_ack_flag cfg true (reset_quickack s))).2)
tcp_rcv_data_ooo-Receiving a edge cfg w p s hp r =
    let late = set_ack_flag cfg true (reset_quickack s) in
    let f = flag_now cfg s r.short in
    let d = Placed-trans s late _ f (data_ooo-Placed cfg w p late hp f.short) in
    drain-Receiving a edge _ (receiving a edge s _ r.order d.same d.short)

trimmed-Receiving :
    (a edge : ℕ) (cfg : Cfg) (w : Worker) (p : Seg) (s : Tsock)
    → p.len < 65536
    → Receiving a edge s
    → Receiving a edge (rcv_trimmed cfg w p s).2
unfolding rcv_trimmed
trimmed-Receiving a edge cfg w p s hp r =
    let now = set_ack_flag cfg false s in
    elim (Bool-cases (p.seq == s.rcv_nxt)) [
      | inl here ↦ elim (Bool-cases (head_reached s.rcv_ooo_queue p)) [
        | inl reached ↦
            rw (here, reached, rcv_trimmed) (tcp_rcv_data_ooo-Receiving a edge cfg w p s hp r)
        | inr free ↦
            rw (here, free)
              (record {
                order =
                    enqueue-InOrder a edge p now
                      ((==_iff p.seq s.rcv_nxt).0 here ∙ sym (flagged cfg false s).rcv_nxt) hp
                      (SameRcv-InOrder a edge s now (flagged cfg false s) r.order);
                short = rw (enqueue_queue p now, flagged_queue cfg false s) r.short;
              })
      ]
      | inr ahead ↦ rw (ahead, rcv_trimmed) (tcp_rcv_data_ooo-Receiving a edge cfg w p s hp r)
    ]

-- Receiving a packet with data keeps the receive queue valid and holding one contiguous stream of packets,
-- each starting where the one before ends, from the first unread byte up to `rcv_nxt`, whatever the
-- order of arrival, overlaps, duplicates and full queues; and the right edge of the window, `rcv_nxt + rcv_wnd`,
-- does not move.
pub tcp_rcv_data-Receiving :
    (a edge : ℕ) (cfg : Cfg) (w : Worker) (p : Seg) (s : Tsock)
    → 0 < p.len
    → p.len < 65536
    → Receiving a edge s
    → Receiving a edge (tcp_rcv_data cfg w p s).2
unfolding tcp_rcv_data
tcp_rcv_data-Receiving a edge cfg w p s pos hp r =
    let old = sub32 s.rcv_nxt p.seq in
    rw (nonzero p.len pos, tcp_rcv_data)
      (elim (Bool-cases (seq_lt p.seq s.rcv_nxt)) [
        | inr ahead ↦ rw ahead (trimmed-Receiving a edge cfg w p s hp r)
        | inl behind ↦ elim (Bool-cases (leb p.len old)) [
          | inl all_old ↦ rw (behind, all_old) r
          | inr part ↦
              rw (behind, part)
                (trimmed-Receiving a edge cfg w (cut_head old p) s (cut_head-short old p) r)
        ]
      ])
  where
    nonzero : (n : ℕ) → 0 < n → (n == 0) ≡ false
    nonzero n h = ground arith
