-- ===== src/Tcp/Ooo/State.antt =====
-- Receiving data leaves the state of the connection.
use libtpa.Base.{
  ◌+◌, ◌≡◌, refl, ◌∙◌, true, false, Option, some, none, List, [], ◌∷◌, ◌++◌, arith, u32, sub32,
}
use libtpa.Tcp.Sock.{Seg, Tsock, Cfg, Worker, set_ack_flag, reset_quickack, event_add}
use libtpa.Tcp.Ooo.{
  cut_head, delivered, tcp_rcv_enqueue, forget_ooo_pkt, drain_loop, ooo_queue_drain,
  ooo_queue_insert, split_last, split_at_seq, drop_covered, ooo_finish, ooo_after_prev, place_ooo,
  note_ooo_start, tcp_rcv_data_ooo, rcv_trimmed, tcp_rcv_data,
}

enqueue-state : (p : Seg) (s : Tsock) → (tcp_rcv_enqueue p s).2.state ≡ s.state
unfolding tcp_rcv_enqueue delivered event_add
enqueue-state p s = ground arith

drain_loop-state : (ps : List Seg) (s : Tsock) → (drain_loop ps s).1.state ≡ s.state
unfolding drain_loop forget_ooo_pkt
drain_loop-state [] s = refl
drain_loop-state (p ∷ ps) s =
    ground
      (arith, enqueue-state p s, drain_loop-state ps (forget_ooo_pkt p (tcp_rcv_enqueue p s).2))

drain-state : (s : Tsock) → (ooo_queue_drain s).state ≡ s.state
unfolding ooo_queue_drain
drain-state s = ground (arith, drain_loop-state s.rcv_ooo_queue s)

insert-state :
    (cfg : Cfg) (before : List Seg) (p : Seg) (after : List Seg) (s : Tsock)
    → (ooo_queue_insert cfg before p after s).2.state ≡ s.state
unfolding ooo_queue_insert
insert-state cfg before p after s = ground arith

drop_covered-state : (ns : List Seg) (p : Seg) (s : Tsock) → (drop_covered ns p s).2.state ≡ s.state
unfolding drop_covered forget_ooo_pkt
drop_covered-state [] p s = refl
drop_covered-state (n ∷ ns) p s = ground (arith, drop_covered-state ns p (forget_ooo_pkt n s))

finish-state :
    (cfg : Cfg) (before : List Seg) (p : Seg) (after : List Seg) (s : Tsock)
    → (ooo_finish cfg before p after s).2.state ≡ s.state
unfolding ooo_finish
finish-state cfg before p after s =
    let (after', p', s') = drop_covered after p s in
    insert-state cfg before p' after' s' ∙ drop_covered-state after p s

after_prev-state :
    (cfg : Cfg) (front : List Seg) (prev p : Seg) (after : List Seg) (s : Tsock)
    → (ooo_after_prev cfg front prev p after s).2.state ≡ s.state
unfolding ooo_after_prev forget_ooo_pkt
after_prev-state cfg front prev p after s =
    let to_cut = sub32 (u32 (prev.seq + prev.len)) p.seq in
    ground (
      arith,
      finish-state cfg front p after (forget_ooo_pkt prev s),
      finish-state cfg (front ++ (prev ∷ [])) p after s,
      finish-state cfg (front ++ (prev ∷ [])) (cut_head to_cut p) after s,
    )

place-state :
    (cfg : Cfg) (p : Seg) (after : List Seg) (s : Tsock) (o : Option (List Seg × Seg))
    → (place_ooo cfg p after s o).2.state ≡ s.state
unfolding place_ooo
place-state cfg p after s none = finish-state cfg [] p after s
place-state cfg p after s (some (front, prev)) = after_prev-state cfg front prev p after s

note-state : (w : Worker) (s : Tsock) → (note_ooo_start w s).state ≡ s.state
unfolding note_ooo_start
note-state w s = ground arith

data_ooo-state :
    (cfg : Cfg) (w : Worker) (p : Seg) (s : Tsock) → (tcp_rcv_data_ooo cfg w p s).2.state ≡ s.state
unfolding tcp_rcv_data_ooo
data_ooo-state cfg w p s =
    let t = note_ooo_start w s in
    let (before, after) = split_at_seq p.seq t.rcv_ooo_queue in
    ground (
      arith,
      note-state w s,
      insert-state cfg t.rcv_ooo_queue p [] t,
      place-state cfg p after t (split_last before),
    )

trimmed-state :
    (cfg : Cfg) (w : Worker) (p : Seg) (s : Tsock) → (rcv_trimmed cfg w p s).2.state ≡ s.state
unfolding rcv_trimmed set_ack_flag reset_quickack
trimmed-state cfg w p s =
    let late = set_ack_flag cfg true (reset_quickack s) in
    ground (
      arith,
      enqueue-state p (set_ack_flag cfg false s),
      data_ooo-state cfg w p late,
      drain-state (tcp_rcv_data_ooo cfg w p late).2,
    )

pub tcp_rcv_data-state :
    (cfg : Cfg) (w : Worker) (p : Seg) (s : Tsock) → (tcp_rcv_data cfg w p s).2.state ≡ s.state
unfolding tcp_rcv_data
tcp_rcv_data-state cfg w p s =
    ground
      (arith, trimmed-state cfg w p s, trimmed-state cfg w (cut_head (sub32 s.rcv_nxt p.seq) p) s)
