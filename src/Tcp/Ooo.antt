-- ===== src/Tcp/Ooo.antt =====
-- The out-of-order queue and the delivery of data (src/tcp/tcp_input.c: tcp_rcv_enqueue,
-- tsock_remove_ooo_pkt, ooo_queue_drain, ooo_queue_insert, tcp_rcv_data_ooo, tcp_rcv_data). The tail
-- queue of packets is a list; a freed packet is dropped. Statistics and traces are left out.
pub mod Placed
pub mod Edge
pub mod Stream
pub mod State
use libtpa.Base.{
  ℕ, zero, suc, ◌+◌, ◌-◌, Bool, true, false, not, ◌&&◌, ◌||◌, Option, some, none, List, [], ◌∷◌,
  ◌++◌, if◌then◌else◌, ltb, leb, ◌==◌, u16, u32, sub16, sub32,
}
use libtpa.TcpQueue.Rxq
use libtpa.TcpQueue.Rxq.{Rxq}
use libtpa.Tcp.Seq.{is_neg, seq_lt, seq_gt, seq_ge}
use libtpa.Tcp.Sack.{sack_update, sack_regulate}
use libtpa.Tcp.Sock.{
  Seg, Tsock, Cfg, Worker, Err, rxq_enqueue_fail, rcv_ooo_dup, rcv_ooo_limit, event_add, event_in,
  set_ack_flag, reset_quickack,
}

-- packet.h: tcp_packet_cut from the head, and from the tail.
unfoldable pub cut_head : ℕ → Seg → Seg
cut_head size p = record p { seq = u32 (p.seq + size); len = sub16 p.len (u16 size) }

unfoldable pub cut_tail : ℕ → Seg → Seg
cut_tail size p = record p { len = sub16 p.len (u16 size) }

-- `to_cut > 0` for the bit pattern of an int.
abbrev pub is_pos : ℕ → Bool
is_pos d = not (is_neg d) && not (d == 0)

-- Cut what lies beyond the window.
unfoldable pub to_window : ℕ → Seg → Seg
to_window wnd pkt = if ltb wnd pkt.len then cut_tail (pkt.len - wnd) pkt else pkt

-- The counters after a packet went into the receive queue, which is now `q`.
unfoldable pub delivered : Seg → Rxq Seg → Tsock → Tsock
delivered p q s =
    event_add event_in
      (record s { rxq = q; rcv_nxt = u32 (s.rcv_nxt + p.len); rcv_wnd = sub32 s.rcv_wnd p.len })

-- Deliver a packet to the receive queue. `none` is the result 0. The packet comes back because a part
-- beyond the window is cut off it.
unfoldable pub tcp_rcv_enqueue : Seg → Tsock → Option Err × Seg × Tsock
tcp_rcv_enqueue pkt s =
    let p = to_window s.rcv_wnd pkt in
    let (n, q) = Rxq.enqueue_burst s.rxq (p ∷ []) in
    if p.len == 0
    then (none, p, s)
    else if n == 1
    then (none, p, delivered p q s)
    else (some rxq_enqueue_fail, p, record s { rxq = q })

abbrev pub is_addr : Option ℕ → ℕ → Bool
is_addr none a = false
is_addr (some b) a = b == a

-- tsock_remove_ooo_pkt, apart from the unlinking, which the callers do on the list.
unfoldable pub forget_ooo_pkt : Seg → Tsock → Tsock
forget_ooo_pkt p s = record s {
  nr_ooo_pkt = sub16 s.nr_ooo_pkt 1;
  last_ooo_pkt = if is_addr s.last_ooo_pkt p.addr then none else s.last_ooo_pkt;
}

-- The loop of ooo_queue_drain over the queue. `true` when it ran to its end, `false` when a packet
-- could not be delivered.
unfoldable pub drain_loop : List Seg → Tsock → Bool × Tsock
drain_loop [] s = (true, record s { rcv_ooo_queue = [] })
drain_loop (p ∷ ps) s =
    let (err, p', s') = tcp_rcv_enqueue p s in
    let rest = drain_loop ps (forget_ooo_pkt p s') in
    if not (p.seq == s.rcv_nxt)
    then (true, record s { rcv_ooo_queue = p ∷ ps })
    else elim err [ some e ↦ (false, record s' { rcv_ooo_queue = p' ∷ ps }) | none ↦ rest ]

unfoldable pub ooo_queue_drain : Tsock → Tsock
ooo_queue_drain s =
    let (ended, s1) = drain_loop s.rcv_ooo_queue s in
    let s2 = record s1 { sack_blocks = sack_regulate s1.rcv_nxt s1.sack_blocks } in
    if not ended
    then s1
    else if s2.nr_ooo_pkt == 0
    then record s2 { last_ooo_pkt = none; sack_blocks = [] }
    else s2

-- Cut what lies beyond the right edge of the window.
unfoldable pub to_edge : Seg → Tsock → Seg
to_edge pkt s =
    let beyond = sub32 (u32 (pkt.seq + pkt.len)) (u32 (s.rcv_nxt + s.rcv_wnd)) in
    if is_pos beyond then cut_tail beyond pkt else pkt

-- Insert `pkt` between the packets before it and those after it.
unfoldable pub ooo_queue_insert : Cfg → List Seg → Seg → List Seg → Tsock → Option Err × Seg × Tsock
ooo_queue_insert cfg before pkt after s =
    let p = to_edge pkt s in
    let kept = record s { rcv_ooo_queue = before ++ after } in
    if p.len == 0
    then (some rcv_ooo_dup, p, kept)
    else if not (p.seq == s.rcv_nxt) && leb cfg.rcv_ooo_limit s.nr_ooo_pkt
    then (some rcv_ooo_limit, p, kept)
    else (
      none,
      p,
      record s {
        rcv_ooo_queue = before ++ (p ∷ after);
        sack_blocks = sack_update s.sack_ok p.seq p.len s.sack_blocks;
        nr_ooo_pkt = u16 (s.nr_ooo_pkt + 1);
        last_ooo_pkt = some p.addr;
      },
    )

-- The search for the place: the packets up to the first that starts above `seq`, and the others.
unfoldable pub split_at_seq : ℕ → List Seg → List Seg × List Seg
split_at_seq seq [] = ([], [])
split_at_seq seq (p ∷ ps) =
    let (before, after) = split_at_seq seq ps in
    if seq_gt p.seq seq then ([], p ∷ ps) else (p ∷ before, after)

-- The list without its last element, and that element: `prev` of the code and what is before it.
unfoldable pub split_last : List Seg → Option (List Seg × Seg)
split_last [] = none
split_last (p ∷ ps) = elim (split_last ps) [
  | none ↦ some ([], p)
  | some (front, last) ↦ some (p ∷ front, last)
]

-- The loop over the packets after: those that `pkt` covers are dropped, and the first that it covers
-- in part cuts its tail.
unfoldable pub drop_covered : List Seg → Seg → Tsock → List Seg × Seg × Tsock
drop_covered [] pkt s = ([], pkt, s)
drop_covered (n ∷ ns) pkt s =
    let to_cut = sub32 (u32 (pkt.seq + pkt.len)) n.seq in
    let rest = drop_covered ns pkt (forget_ooo_pkt n s) in
    if not (is_pos to_cut)
    then (n ∷ ns, pkt, s)
    else if ltb to_cut n.len
    then (n ∷ ns, cut_tail to_cut pkt, s)
    else rest

-- The tail of tcp_rcv_data_ooo, from `while (next)` on.
unfoldable pub ooo_finish : Cfg → List Seg → Seg → List Seg → Tsock → Option Err × Seg × Tsock
ooo_finish cfg before pkt after s =
    let (after', pkt', s') = drop_covered after pkt s in ooo_queue_insert cfg before pkt' after' s'

-- The case of a previous packet: replace it, reject `pkt` as a duplicate, cut its head, or leave both.
unfoldable pub ooo_after_prev :
    Cfg → List Seg → Seg → Seg → List Seg → Tsock → Option Err × Seg × Tsock
ooo_after_prev cfg front prev pkt after s =
    let to_cut = sub32 (u32 (prev.seq + prev.len)) pkt.seq in
    if (pkt.seq == prev.seq) && ltb prev.len pkt.len
    then ooo_finish cfg front pkt after (forget_ooo_pkt prev s)
    else if not (is_pos to_cut)
    then ooo_finish cfg (front ++ (prev ∷ [])) pkt after s
    else if leb pkt.len to_cut
    then (some rcv_ooo_dup, pkt, s)
    else ooo_finish cfg (front ++ (prev ∷ [])) (cut_head to_cut pkt) after s

-- The prediction: the packet continues the one inserted last, which is the tail of the queue.
unfoldable pub predicted : Tsock → Seg → Bool
predicted s pkt = elim (split_last s.rcv_ooo_queue) [
  | none ↦ false
  | some (front, last) ↦ is_addr s.last_ooo_pkt last.addr && (u32 (last.seq + last.len) == pkt.seq)
]

-- With the packets before the place split into the last one, `prev`, and the others.
unfoldable pub place_ooo :
    Cfg → Seg → List Seg → Tsock → Option (List Seg × Seg) → Option Err × Seg × Tsock
place_ooo cfg pkt after s none = ooo_finish cfg [] pkt after s
place_ooo cfg pkt after s (some (front, prev)) = ooo_after_prev cfg front prev pkt after s

-- The time at which the first packet came out of order.
unfoldable pub note_ooo_start : Worker → Tsock → Tsock
note_ooo_start w s = if s.nr_ooo_pkt == 0 then record s { ooo_start_ts = u32 w.ts_us } else s

unfoldable pub tcp_rcv_data_ooo : Cfg → Worker → Seg → Tsock → Option Err × Seg × Tsock
tcp_rcv_data_ooo cfg w pkt s0 =
    let s = note_ooo_start w s0 in
    let (before, after) = split_at_seq pkt.seq s.rcv_ooo_queue in
    if predicted s pkt
    then ooo_queue_insert cfg s.rcv_ooo_queue pkt [] s
    else place_ooo cfg pkt after s (split_last before)

abbrev head_reached : List Seg → Seg → Bool
head_reached [] p = false
head_reached (h ∷ hs) p = seq_ge (u32 (p.seq + p.len)) h.seq

-- The part of tcp_rcv_data for a packet with data that starts at or after `rcv_nxt`.
unfoldable pub rcv_trimmed : Cfg → Worker → Seg → Tsock → Option Err × Seg × Tsock
rcv_trimmed cfg w p s =
    if (p.seq == s.rcv_nxt) && not (head_reached s.rcv_ooo_queue p)
    then tcp_rcv_enqueue p (set_ack_flag cfg false s)
    else let (err, p', s') = tcp_rcv_data_ooo cfg w p (set_ack_flag cfg true (reset_quickack s)) in
      (err, p', ooo_queue_drain s')

unfoldable pub tcp_rcv_data : Cfg → Worker → Seg → Tsock → Option Err × Seg × Tsock
tcp_rcv_data cfg w pkt s =
    let old = sub32 s.rcv_nxt pkt.seq in
    if pkt.len == 0
    then (
      none,
      pkt,
      if pkt.fin && (pkt.seq == s.rcv_nxt) then record s { rcv_nxt = u32 (s.rcv_nxt + 1) } else s,
    )
    else if not (seq_lt pkt.seq s.rcv_nxt)
    then rcv_trimmed cfg w pkt s
    else if leb pkt.len old
    then (none, record pkt { len = 0 }, s)
    else rcv_trimmed cfg w (cut_head old pkt) s
