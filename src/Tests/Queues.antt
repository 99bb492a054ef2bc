-- ===== src/Tests/Queues.antt =====
-- The send and receive queues of include/tcp_queue.h on small rings, one of them about to wrap.
use libtpa.Base.{
  ℕ, ◌+◌, ◌-◌, ◌≡◌, refl, [], ◌∷◌, ◌++◌, if◌then◌else◌, length, take, drop, get_elem?, leb, min,
  arith,
}
use libtpa.TcpQueue.Txq
use libtpa.TcpQueue.Txq.{Txq}
use libtpa.TcpQueue.Txq.Inv
use libtpa.TcpQueue.Txq.Refine.{
  unacked, inflight, unsent, inflight-append-unsent, peeks_read, update_una-drops,
  enqueue_bulk-appends,
}
use libtpa.TcpQueue.Rxq
use libtpa.TcpQueue.Rxq.{Rxq}
use libtpa.TcpQueue.Rxq.Refine.{
  waiting, peek_unread-reads, update_unread-drops, dequeue_burst-takes, enqueue_burst-appends,
}
use libtpa.TcpQueue.Rxq.Refine

-- Four slots; three packets from index 65535 on, one of them sent: the indices wrap.
abbrev wrapping : Txq ℕ
wrapping = record { una = 65535; nxt = 0; write = 2; size = 4; mask = 3; descs = λ i. 10 + i }

wrapping-IsValid : Inv.IsValid wrapping
wrapping-IsValid = record {
  order = 2;
  order_le = omega arith;
  size_pow = refl;
  mask_eq = refl;
  size_le = omega arith;
  una_lt = omega arith;
  nxt_lt = omega arith;
  write_lt = omega arith;
  nxt_in = omega arith;
  write_in = omega arith;
}

inflight-append-unsent_example : inflight wrapping ++ unsent wrapping ≡ unacked wrapping
inflight-append-unsent_example = inflight-append-unsent wrapping wrapping-IsValid

peeks_read_example :
    (Txq.peek_una wrapping 2 ≡ get_elem? (unacked wrapping) 2)
    × (Txq.peek_nxt wrapping 2 ≡ get_elem? (unsent wrapping) 2)
    × (Txq.peek_una_before_nxt wrapping 2 ≡ get_elem? (inflight wrapping) 2)
peeks_read_example = peeks_read wrapping 2 wrapping-IsValid

update_una-drops_example :
    (unacked (Txq.update_una wrapping 1) ≡ drop 1 (unacked wrapping))
    × (inflight (Txq.update_una wrapping 1) ≡ drop 1 (inflight wrapping))
    × (unsent (Txq.update_una wrapping 1) ≡ unsent wrapping)
update_una-drops_example = update_una-drops wrapping 1 wrapping-IsValid (omega arith)

enqueue_bulk-appends_example :
    let (done, q') = Txq.enqueue_bulk wrapping (7 ∷ []) in
    (done ≡ leb (length (unacked wrapping) + 1) 4)
    × (unacked q' ≡ (if done then unacked wrapping ++ (7 ∷ []) else unacked wrapping))
    × (inflight q' ≡ inflight wrapping)
    × Inv.IsValid q'
enqueue_bulk-appends_example = enqueue_bulk-appends wrapping (7 ∷ []) wrapping-IsValid (omega arith)

-- Two objects wait in a ring of four.
abbrev two_wait : Rxq ℕ
two_wait = record { unread = 65535; max = 1; size = 4; mask = 3; objs = λ i. 20 + i }

two_wait-IsValid : Refine.IsValid two_wait
two_wait-IsValid = record {
  order = 2;
  order_le = omega arith;
  size_pow = refl;
  mask_eq = refl;
  size_le = omega arith;
  unread_lt = omega arith;
  max_lt = omega arith;
  max_in = omega arith;
}

peek_unread-reads_example : Rxq.peek_unread two_wait 1 ≡ get_elem? (waiting two_wait) 1
peek_unread-reads_example = peek_unread-reads two_wait 1 two_wait-IsValid

dequeue_burst-takes_example :
    let (out, q') = Rxq.dequeue_burst two_wait 8 in
    let n = min (length (waiting two_wait)) 8 in
    (out ≡ take n (waiting two_wait)) × (waiting q' ≡ drop n (waiting two_wait)) × Refine.IsValid q'
dequeue_burst-takes_example = dequeue_burst-takes two_wait 8 two_wait-IsValid

enqueue_burst-appends_example :
    let (n, q') = Rxq.enqueue_burst two_wait (1 ∷ 2 ∷ 3 ∷ []) in
    (n ≡ min (4 - length (waiting two_wait)) 3)
    × (waiting q' ≡ waiting two_wait ++ take n (1 ∷ 2 ∷ 3 ∷ []))
    × Refine.IsValid q'
enqueue_burst-appends_example = enqueue_burst-appends two_wait (1 ∷ 2 ∷ 3 ∷ []) two_wait-IsValid
