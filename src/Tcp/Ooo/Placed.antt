-- ===== src/Tcp/Ooo/Placed.antt =====
-- The out-of-order queue leaves the stream alone until it is drained (src/tcp/tcp_input.c:
-- ooo_queue_insert and tcp_rcv_data_ooo).
use libtpa.Base.{
  ℕ, ◌+◌, ◌<◌, refl, ◌∙◌, not, ◌&&◌, Option, some, none, List, [], ◌∷◌, ◌++◌, ltb, leb, ◌==◌, arith,
  u32, sub32, Bool-cases, inl, inr,
}
use libtpa.Tcp.Seq.{seq_gt}
use libtpa.Tcp.Sock.{Seg, Tsock, Cfg, Worker}
use libtpa.Tcp.Ooo.{
  cut_tail, cut_head, to_edge, is_pos, forget_ooo_pkt, ooo_queue_insert, split_last, split_at_seq,
  drop_covered, ooo_finish, ooo_after_prev, predicted, place_ooo, note_ooo_start, tcp_rcv_data_ooo,
}
use libtpa.Tcp.Ooo.Edge.{SameRcv, AreShort, AreShort-append}

-- What an operation on the out-of-order queue keeps.
pub record Placed (s t : Tsock) : Type 0 where
  pub same : SameRcv s t
  pub short : AreShort t.rcv_ooo_queue

to_edge-short : (p : Seg) (s : Tsock) → p.len < 65536 → (to_edge p s).len < 65536
unfolding to_edge cut_tail
to_edge-short p s h = ground arith

insert-Placed :
    (cfg : Cfg) (before : List Seg) (p : Seg) (after : List Seg) (s : Tsock)
    → AreShort before
    → p.len < 65536
    → AreShort after
    → Placed s (ooo_queue_insert cfg before p after s).2
unfolding ooo_queue_insert
insert-Placed cfg before p after s hb hp ha =
    let p' = to_edge p s in
    elim (Bool-cases (p'.len == 0)) [
      | inl z ↦
          rw (z, ooo_queue_insert)
            (record {
              same = record { rxq = refl; rcv_nxt = refl; rcv_wnd = refl };
              short = AreShort-append before after hb ha;
            })
      | inr nz ↦
          elim (Bool-cases (not (p'.seq == s.rcv_nxt) && leb cfg.rcv_ooo_limit s.nr_ooo_pkt)) [
            | inl full ↦
                rw (nz, full, ooo_queue_insert)
                  (record {
                    same = record { rxq = refl; rcv_nxt = refl; rcv_wnd = refl };
                    short = AreShort-append before after hb ha;
                  })
            | inr room ↦
                rw (nz, room, ooo_queue_insert)
                  (record {
                    same = record { rxq = refl; rcv_nxt = refl; rcv_wnd = refl };
                    short = AreShort-append before (p' ∷ after) hb (to_edge-short p s hp, ha);
                  })
          ]
    ]

same_self : (s : Tsock) → SameRcv s s
same_self s = record { rxq = refl; rcv_nxt = refl; rcv_wnd = refl }

SameRcv-trans : (s t u : Tsock) → SameRcv s t → SameRcv t u → SameRcv s u
SameRcv-trans s t u a b = record {
  rxq = b.rxq ∙ a.rxq;
  rcv_nxt = b.rcv_nxt ∙ a.rcv_nxt;
  rcv_wnd = b.rcv_wnd ∙ a.rcv_wnd;
}

pub Placed-trans : (s t u : Tsock) → Placed s t → Placed t u → Placed s u
Placed-trans s t u a b = record { same = SameRcv-trans s t u a.same b.same; short = b.short }

forgotten : (n : Seg) (s t : Tsock) → SameRcv s t → SameRcv s (forget_ooo_pkt n t)
unfolding forget_ooo_pkt
forgotten n s t e = record { rxq = e.rxq; rcv_nxt = e.rcv_nxt; rcv_wnd = e.rcv_wnd }

cut_tail-short : (k : ℕ) (p : Seg) → (cut_tail k p).len < 65536
unfolding cut_tail
cut_tail-short k p = omega arith

pub cut_head-short : (k : ℕ) (p : Seg) → (cut_head k p).len < 65536
unfolding cut_head
cut_head-short k p = omega arith

-- The state after packets were dropped from the tail, with what is left of it.
record Dropped (s : Tsock) (out : List Seg × Seg × Tsock) : Type 0 where
  same : SameRcv s out.2
  rest : AreShort out.0
  pkt : out.1.len < 65536

drop_covered-Dropped :
    (after : List Seg) (p : Seg) (s t : Tsock)
    → AreShort after
    → p.len < 65536
    → SameRcv s t
    → Dropped s (drop_covered after p t)
unfolding drop_covered
drop_covered-Dropped [] p s t h l e = record { same = e; rest = tt; pkt = l }
drop_covered-Dropped (n ∷ ns) p s t h l e =
    let to_cut = sub32 (u32 (p.seq + p.len)) n.seq in
    elim (Bool-cases (is_pos to_cut)) [
      | inr clear ↦ rw (clear, drop_covered) (record { same = e; rest = h; pkt = l })
      | inl over ↦ elim (Bool-cases (ltb to_cut n.len)) [
        | inl part ↦
            rw (over, part, drop_covered)
              (record { same = e; rest = h; pkt = cut_tail-short to_cut p })
        | inr whole ↦
            rw (over, whole, drop_covered)
              (drop_covered-Dropped ns p s (forget_ooo_pkt n t) h.1 l (forgotten n s t e))
      ]
    ]

finish-Placed :
    (cfg : Cfg) (before : List Seg) (p : Seg) (after : List Seg) (s t : Tsock)
    → AreShort before
    → p.len < 65536
    → AreShort after
    → SameRcv s t
    → Placed s (ooo_finish cfg before p after t).2
unfolding ooo_finish
finish-Placed cfg before p after s t hb hp ha e =
    let d = drop_covered-Dropped after p s t ha hp e in
    let (after', p', t') = drop_covered after p t in
    let i = insert-Placed cfg before p' after' t' hb d.pkt d.rest in
    record { same = SameRcv-trans s t' _ d.same i.same; short = i.short }

after_prev-Placed :
    (cfg : Cfg) (front : List Seg) (prev p : Seg) (after : List Seg) (s : Tsock)
    → AreShort front
    → prev.len < 65536
    → p.len < 65536
    → AreShort after
    → AreShort s.rcv_ooo_queue
    → Placed s (ooo_after_prev cfg front prev p after s).2
unfolding ooo_after_prev
after_prev-Placed cfg front prev p after s hf hv hp ha hs =
    let to_cut = sub32 (u32 (prev.seq + prev.len)) p.seq in
    let kept = AreShort-append front (prev ∷ []) hf (hv, tt) in
    elim (Bool-cases ((p.seq == prev.seq) && ltb prev.len p.len)) [
      | inl replace ↦
          rw (replace, ooo_after_prev)
            (finish-Placed cfg front p after s (forget_ooo_pkt prev s) hf hp ha
              (forgotten prev s s (same_self s)))
      | inr keep ↦ elim (Bool-cases (is_pos to_cut)) [
        | inr clear ↦
            rw (keep, clear, ooo_after_prev)
              (finish-Placed cfg (front ++ (prev ∷ [])) p after s s kept hp ha (same_self s))
        | inl over ↦ elim (Bool-cases (leb p.len to_cut)) [
          | inl dup ↦
              rw (keep, over, dup, ooo_after_prev) (record { same = same_self s; short = hs })
          | inr part ↦
              rw (keep, over, part, ooo_after_prev)
                (finish-Placed cfg (front ++ (prev ∷ [])) (cut_head to_cut p) after s s kept
                  (cut_head-short to_cut p) ha (same_self s))
        ]
      ]
    ]

abbrev IsSplitShort : Option (List Seg × Seg) → Type 0
IsSplitShort none = Unit {0}
IsSplitShort (some (front, last)) = AreShort front × (last.len < 65536)

split_last-short : (l : List Seg) → AreShort l → IsSplitShort (split_last l)
unfolding split_last
split_last-short [] h = tt
split_last-short (p ∷ ps) h = step (split_last ps) (split_last-short ps h.1)
  where
    step :
        (o : Option (List Seg × Seg))
        → IsSplitShort o
        → IsSplitShort
            (elim o [ none ↦ some ([], p) | some (front, last) ↦ some (p ∷ front, last) ])
    step none k = (tt, h.0)
    step (some (front, last)) k = ((h.0, k.0), k.1)

split_at_seq-short :
    (seq : ℕ) (l : List Seg)
    → AreShort l
    → AreShort (split_at_seq seq l).0 × AreShort (split_at_seq seq l).1
unfolding split_at_seq
split_at_seq-short seq [] h = (tt, tt)
split_at_seq-short seq (p ∷ ps) h =
    let (a, b) = split_at_seq-short seq ps h.1 in
    elim (Bool-cases (seq_gt p.seq seq)) [
      | inl above ↦ rw (above, split_at_seq) (tt, h)
      | inr below ↦ rw (below, split_at_seq) ((h.0, a), b)
    ]

place-Placed :
    (cfg : Cfg) (p : Seg) (after : List Seg) (s : Tsock) (o : Option (List Seg × Seg))
    → p.len < 65536
    → AreShort after
    → AreShort s.rcv_ooo_queue
    → IsSplitShort o
    → Placed s (place_ooo cfg p after s o).2
unfolding place_ooo
place-Placed cfg p after s none hp ha hs k = finish-Placed cfg [] p after s s tt hp ha (same_self s)
place-Placed cfg p after s (some (front, prev)) hp ha hs k =
    after_prev-Placed cfg front prev p after s k.0 k.1 hp ha hs

note-Placed : (w : Worker) (s : Tsock) → AreShort s.rcv_ooo_queue → Placed s (note_ooo_start w s)
unfolding note_ooo_start
note-Placed w s h = elim (Bool-cases (s.nr_ooo_pkt == 0)) [
  | inl first ↦
      rw first (record { same = record { rxq = refl; rcv_nxt = refl; rcv_wnd = refl }; short = h })
  | inr more ↦ rw more (record { same = same_self s; short = h })
]

pub data_ooo-Placed :
    (cfg : Cfg) (w : Worker) (p : Seg) (s : Tsock)
    → p.len < 65536
    → AreShort s.rcv_ooo_queue
    → Placed s (tcp_rcv_data_ooo cfg w p s).2
unfolding tcp_rcv_data_ooo
data_ooo-Placed cfg w p s hp hs =
    let n = note-Placed w s hs in
    let t = note_ooo_start w s in
    let (hb, ha) = split_at_seq-short p.seq t.rcv_ooo_queue n.short in
    let before = (split_at_seq p.seq t.rcv_ooo_queue).0 in
    let after = (split_at_seq p.seq t.rcv_ooo_queue).1 in
    elim (Bool-cases (predicted t p)) [
      | inl hit ↦
          rw (hit, tcp_rcv_data_ooo)
            (Placed-trans s t _ n (insert-Placed cfg t.rcv_ooo_queue p [] t n.short hp tt))
      | inr miss ↦
          rw (miss, tcp_rcv_data_ooo)
            (Placed-trans s t _ n (
              place-Placed cfg p after t (split_last before) hp ha n.short
                (split_last-short before hb)))
    ]
