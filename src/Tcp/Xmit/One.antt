-- ===== src/Tcp/Xmit/One.antt =====
-- One packet of xmit_one_packet is the next piece of the stream, or nothing is taken.
use libtpa.Base.{
  ℕ, suc, ◌+◌, ◌-◌, ◌≤◌, ◌<◌, ◌≡◌, ◌⊎◌, refl, sym, ap, ◌∙◌, subst, Bool, false, not, some, none,
  List, if◌then◌else◌, ◌==◌, arith, length, take, drop, min, u32, sub16, sub32, if_lem, Bool-cases,
  Option-cases, inl, inr,
}
use libtpa.TcpQueue.Txq.{Txq, peek_for_write}
use libtpa.Dev.{Port, txq_enqueue, txq_enqueue-length}
use libtpa.Tcp.Sock.{Desc, Tsock, Cfg, Worker}
use libtpa.Tcp.Options.{enabled_opts, calc_tcp_opt_len}
use libtpa.Tcp.Header.{TxPkt, Payload, ack_flag, with_hdr, prepend_tcp_hdr}
use libtpa.Tcp.FlagPkt.{Net, Sent, XmitErr, sent, nothing, failed, clear_tcp_flags}
use libtpa.Tcp.Xmit.{
  XmitCtx, Fill, Run, tsock_snd_mss, skip_sacked, fill, start_fill, hand_over, send_filled,
  xmit_found, xmit_one_packet,
}
use libtpa.Tcp.Xmit.Stream.{
  Core, core, stream, bytes, start, total, Contiguous, at-start, start-le-total,
}
use libtpa.Tcp.Xmit.Cores.{SameData, SameData-refl, length-cores}
use libtpa.Tcp.Xmit.Filled.{At, Head}
use libtpa.Tcp.Xmit.Rounds.{Full, fill-Full, next-Head, no_next}
use libtpa.Tcp.Xmit.Keeps.{
  hdr_size, Keeps, Keeps-trans, prepended, prepend_fits, clear-Keeps, prepended-Keeps,
  set_txq-Keeps,
}

-- The headers of a segment with data.
module _ {W : Type 0} (cs : List Core) (s0 : ℕ) (follow : Contiguous s0 cs)
    (small : total cs < 2147483648) (net : Net W) (cfg : Cfg) (w : Worker) where
  -- The run stands at byte `p` of the stream.
  pub record Stands (p : ℕ) (r : Run W) : Type 0 where
    pub index : ℕ
    pub at : At cs s0 follow small index p (start_fill r r.ctx r.port.world)
    pub here : (p < start cs (suc index)) ⊎ ((index ≡ length cs) × (p ≡ total cs))

  -- There is room for the packet, and the headers fit before it.
  pub record Room (r : Run W) : Type 0 where
    pub mss : tsock_snd_mss r.sock < 65536
    pub hdr : hdr_size r.sock ≤ net.headroom
    pub queue : length r.port.pkts < 4096

  -- Why nothing can be taken: a pool is empty, there is no budget, or there is no more data.
  abbrev pub Idle : ℕ → Run W → Type 0
  Idle p r =
      ((net.alloc_zwrite (net.alloc_hdr r.port.world).1).0 ≡ false)
      ⊎ (((net.alloc_hdr r.port.world).0 ≡ false)
          ⊎ ((min r.ctx.budget (tsock_snd_mss r.sock) ≡ 0) ⊎ (p ≡ total cs)))

  -- From byte `p` on: a packet with the next bytes of the stream, or the run stands where it stood.
  abbrev pub Took : ℕ → ℕ → Run W → Sent → Type 0
  Took p q r (sent pkt) =
      (p < q)
      × (pkt.seq ≡ u32 (s0 + p))
      × (pkt.len ≡ q - p)
      × (bytes pkt.chunks ≡ take (q - p) (drop p (stream cs)))
      × (q - p ≤ tsock_snd_mss r.sock)
  Took p q r nothing = (q ≡ p) × Idle p r
  Took p q r (failed e) = (q ≡ p) × (e ≡ XmitErr.pkt_alloc_fail) × Idle p r

  pub record Step (p : ℕ) (r : Run W) (result : Sent × Run W) : Type 0 where
    pub place : ℕ
    pub took : Took p place r result.0
    pub stands : Stands place result.1
    pub budget : result.1.ctx.budget + (place - p) ≡ r.ctx.budget
    pub le : p ≤ place
    pub keeps : Keeps r.sock result.1.sock
    pub same : SameData r.sock.txq result.1.sock.txq
    pub base : result.1.ctx.desc_base ≡ r.ctx.desc_base
    pub queue : length result.1.port.pkts ≤ length r.port.pkts + 1

  module _ (p : ℕ) (r : Run W) (world : W) (drawn : (net.alloc_hdr r.port.world).1 ≡ world)
      (f : Fill W) (positive : r.ctx.budget < 2147483648) (room : Room r)
      (full : Full cs s0 follow small net cfg w r.sock.snd_nxt world p
        (start_fill r r.ctx world)
        f) where
    abbrev filled_sock : Tsock
    filled_sock = record (r.sock) { txq = f.txq }

    abbrev payload : Payload
    payload = record { retransmit = f.retransmit; chunks = f.chunks; len = f.size }

    abbrev pkt : TxPkt
    pkt = with_hdr cfg w filled_sock payload (sub32 f.ctx.seq f.size) ack_flag

    abbrev queued : Bool × Port TxPkt W
    queued = txq_enqueue net.nic pkt (record (r.port) { world = f.world })

    abbrev dropped : Run W
    dropped = record {
      ctx = f.ctx;
      sock = filled_sock;
      port = record (r.port) { world = net.free f.world };
    }

    abbrev after : Run W
    after = record {
      ctx = record (f.ctx) { budget = sub32 f.ctx.budget f.size };
      sock = clear_tcp_flags (prepended filled_sock);
      port = queued.1;
    }

    send_nothing :
        f.size ≡ 0
        → send_filled net cfg w f r
          ≡ (if f.alloc_failed then failed XmitErr.pkt_alloc_fail else nothing, dropped)
    unfolding send_filled
    send_nothing e = ground (arith, e)

    send_some : 0 < f.size → send_filled net cfg w f r ≡ (sent pkt, after)
    unfolding send_filled hand_over
    send_some e =
        let hdr = (set_txq-Keeps r.sock f.txq).hdr in
        let fits =
          prepend_fits cfg w net.headroom payload (sub32 f.ctx.seq f.size) filled_sock
            (omega (arith, hdr, room.hdr)) in
        let (ok, more) =
          txq_enqueue-length net.nic pkt (record (r.port) { world = f.world }) room.queue in
        let some_size : (f.size == 0) ≡ false = ground (arith, e) in
        ap
          (λ b.
            if b
            then (if f.alloc_failed then failed XmitErr.pkt_alloc_fail else nothing, dropped)
            else hand_over net f r (
                prepend_tcp_hdr cfg w net.headroom payload (sub32 f.ctx.seq f.size) ack_flag
                  filled_sock))
          some_size
        ∙ ap (hand_over net f r) fits
        ∙ ap
            (λ b.
              if b
              then (sent pkt, after)
              else (failed XmitErr.dev_txq_full, record dropped { sock = prepended filled_sock }))
            ok

    place_lem :
        (full.place ≡ p + f.size)
        × (f.ctx.budget ≡ r.ctx.budget)
        × (f.size ≤ min r.ctx.budget (tsock_snd_mss r.sock))
    unfolding start_fill
    place_lem =
        let a = full.filled in
        (omega (arith, a.size, a.le), a.left, omega (arith, a.size, a.budget, a.le))

    stands_lem : Stands full.place dropped
    unfolding start_fill
    stands_lem =
        let a = full.filled in
        record {
          index = a.index;
          at = record {
            held = a.at.held;
            valid = a.at.valid;
            seq = a.at.seq;
            seq_max = a.at.seq_max;
            off = a.at.off;
            low = a.at.low;
          };
          here = a.here;
        }

    place_le : full.place ≤ total cs
    place_le = elim full.filled.here [
      | inl l ↦ omega (arith, l, start-le-total cs (suc full.filled.index))
      | inr (e, t) ↦ omega (arith, t)
    ]

    idle : f.size ≡ 0 → Idle p r
    unfolding start_fill
    idle e =
        let a = full.filled in
        let (at_end, left, le) = place_lem in
        elim full.reason [
          | inl z ↦ inr (inr (inl (omega (arith, z, a.budget, a.size, a.le, e))))
          | inr (inl z) ↦ inl (ap (λ v. (net.alloc_zwrite v).0) drawn ∙ z)
          | inr (inr (inl some_size)) ↦ absurd (omega (arith, some_size, e))
          | inr (inr (inr z)) ↦
              inr (inr (inr (omega (arith, z, a.at.seq, a.at.seq_max, at_end, e, place_le, small))))
        ]

    nothing_done :
        f.size ≡ 0
        → Took p full.place r (if f.alloc_failed then failed XmitErr.pkt_alloc_fail else nothing)
    nothing_done e =
        let same : full.place ≡ p = omega (arith, place_lem.0, e) in
        if_lem (Took p full.place r) f.alloc_failed (failed XmitErr.pkt_alloc_fail) nothing
          (λ z. (same, refl, idle e)) (λ z. (same, idle e))

    nothing-Step :
        f.size ≡ 0
        → Step p r (if f.alloc_failed then failed XmitErr.pkt_alloc_fail else nothing, dropped)
    unfolding start_fill
    nothing-Step e = record {
      place = full.place;
      took = nothing_done e;
      stands = stands_lem;
      budget = omega (arith, place_lem, e);
      le = omega (arith, place_lem.0);
      keeps = set_txq-Keeps r.sock f.txq;
      same = full.filled.same;
      base = full.filled.base;
      queue = omega arith;
    }

    some_done : 0 < f.size → Took p full.place r (sent pkt)
    unfolding start_fill with_hdr bytes
    some_done e =
        let a = full.filled in
        let (at_end, left, le) = place_lem in
        (
          omega (arith, at_end, e),
          omega (arith, at_end, a.at.seq, e, le, room.mss),
          omega (arith, at_end),
          a.payload,
          omega (arith, at_end, le),
        )

    some-Step : 0 < f.size → Step p r (sent pkt, after)
    unfolding start_fill clear_tcp_flags
    some-Step e =
        let a = full.filled in
        let (at_end, left, le) = place_lem in
        let s = stands_lem in
        record {
          place = full.place;
          took = some_done e;
          stands = record {
            index = s.index;
            at = record {
              held = s.at.held;
              valid = s.at.valid;
              seq = s.at.seq;
              seq_max = s.at.seq_max;
              off = s.at.off;
              low = s.at.low;
            };
            here = s.here;
          };
          budget = omega (arith, at_end, left, le, positive);
          le = omega (arith, at_end);
          keeps =
              Keeps-trans r.sock filled_sock (clear_tcp_flags (prepended filled_sock))
                (set_txq-Keeps r.sock f.txq)
                (clear-Keeps filled_sock (prepended filled_sock) (prepended-Keeps filled_sock));
          same = a.same;
          base = a.base;
          queue =
              (txq_enqueue-length net.nic pkt (record (r.port) { world = f.world }) room.queue).1;
        }

    send_filled-Step : Step p r (send_filled net cfg w f r)
    send_filled-Step = elim (Bool-cases (f.size == 0)) [
      | inl e ↦
          (let zero_size : f.size ≡ 0 = ground (arith, e) in
            subst (Step p r) (sym (send_nothing zero_size)) (nothing-Step zero_size))
      | inr e ↦
          (let some_size : 0 < f.size = ground (arith, e) in
            subst (Step p r) (sym (send_some some_size)) (some-Step some_size))
    ]

  -- The descriptor where the run stands; there is none at the end only.
  start_here :
      (p : ℕ) (r : Run W) (st : Stands p r)
      → ((p ≡ total cs) × (peek_for_write r.sock.txq r.ctx.desc_base r.ctx.desc_off ≡ none))
        ⊎ ((d : Desc) × ((peek_for_write r.sock.txq r.ctx.desc_base r.ctx.desc_off ≡ some d)
              × Head cs s0 follow small st.index p d (start_fill r r.ctx r.port.world)))
  unfolding start_fill
  start_here p r st =
      elim (Option-cases (peek_for_write r.sock.txq r.ctx.desc_base r.ctx.desc_off)) [
        | inl e ↦ inl (
          no_next cs s0 follow small net cfg w r.sock.snd_nxt st.index p
              (start_fill r r.ctx r.port.world) st.at st.here e,
          e,
        )
        | inr (d, e) ↦ inr (
          d,
          (
            e,
            next-Head cs s0 follow small net cfg w r.sock.snd_nxt st.index p d
                (start_fill r r.ctx r.port.world) st.at st.here e,
          ),
        )
      ]

  -- Nothing is SACKed, so the first loop of xmit_one_packet stays where it is.
  skip_here :
      (n : ℕ) (q : Txq Desc) (c : XmitCtx) (d : Desc)
      → peek_for_write q c.desc_base c.desc_off ≡ some d
      → d.sacked ≡ false
      → skip_sacked (n + 1) q c ≡ (some d, c)
  unfolding skip_sacked
  skip_here n q c d e fresh =
      ap (λ m. skip_sacked m q c) (let z : n + 1 ≡ suc n = omega arith in z)
      ∙ rw (e, skip_sacked, fresh) refl

  skip_end :
      (n : ℕ) (q : Txq Desc) (c : XmitCtx)
      → peek_for_write q c.desc_base c.desc_off ≡ none
      → skip_sacked (n + 1) q c ≡ (none, c)
  unfolding skip_sacked
  skip_end n q c e =
      ap (λ m. skip_sacked m q c) (let z : n + 1 ≡ suc n = omega arith in z)
      ∙ rw (e, skip_sacked) refl

  still-Step :
      (p : ℕ) (r : Run W) (world : W) (result : Sent)
      → Stands p r
      → Took p p r result
      → Step p r (result, record r { port = record (r.port) { world = world } })
  unfolding start_fill tsock_snd_mss enabled_opts calc_tcp_opt_len
  still-Step p r world result st took = record {
    place = p;
    took = took;
    stands = record {
      index = st.index;
      at = record {
        held = st.at.held;
        valid = st.at.valid;
        seq = st.at.seq;
        seq_max = st.at.seq_max;
        off = st.at.off;
        low = st.at.low;
      };
      here = st.here;
    };
    budget = omega arith;
    le = omega arith;
    keeps = record { snd_nxt = refl; snd_una = refl; data_seq_nxt = refl; mss = refl; hdr = refl };
    same = SameData-refl r.sock.txq;
    base = refl;
    queue = omega arith;
  }

  filled-Full :
      (p : ℕ) (r : Run W) (world : W) (d : Desc) (st : Stands p r)
      → Room r
      → Head cs s0 follow small st.index p d (start_fill r r.ctx r.port.world)
      → Full cs s0 follow small net cfg w r.sock.snd_nxt world p (start_fill r r.ctx world) (
          fill net cfg w r.sock.snd_nxt
            (sub16 r.sock.txq.write r.ctx.desc_base + 1)
            d
            (start_fill r r.ctx world))
  unfolding start_fill
  filled-Full p r world d st room head =
      fill-Full cs s0 follow small net cfg w r.sock.snd_nxt
        (sub16 r.sock.txq.write r.ctx.desc_base + 1) st.index p d (start_fill r r.ctx world)
        (record {
          held = st.at.held;
          valid = st.at.valid;
          seq = st.at.seq;
          seq_max = st.at.seq_max;
          off = st.at.off;
          low = st.at.low;
        })
        (record { elem = head.elem; peeked = head.peeked; inside = head.inside })
        (omega (arith, room.mss))
        (omega (arith, ap length st.at.held, length-cores r.sock.txq r.ctx.desc_base))

  pub xmit_one_packet-Step :
      (p : ℕ) (r : Run W)
      → Stands p r
      → r.ctx.budget < 2147483648
      → Room r
      → Step p r (xmit_one_packet net cfg w r)
  unfolding xmit_one_packet xmit_found
  xmit_one_packet-Step p r st positive room = elim (start_here p r st) [
    | inl (e, z) ↦
        subst (λ x. Step p r (xmit_found net cfg w r x))
          (sym (skip_end (sub16 r.sock.txq.write r.ctx.desc_base) r.sock.txq r.ctx z))
          (still-Step p r r.port.world nothing st (refl, inr (inr (inr e))))
    | inr (d, (z, head)) ↦
        (let (seq, pos, fresh, next, le) = at-start s0 cs st.index (core d) follow head.elem in
          let (got, world) = net.alloc_hdr r.port.world in
          subst (λ x. Step p r (xmit_found net cfg w r x))
            (sym (skip_here (sub16 r.sock.txq.write r.ctx.desc_base) r.sock.txq r.ctx d z fresh))
            (if_lem (Step p r) (not got)
              (failed XmitErr.pkt_alloc_fail, record r { port = record (r.port) { world = world } })
              _
              (λ e.
                still-Step p r world (failed XmitErr.pkt_alloc_fail) st
                  (refl, refl, inr (inl (ground (arith, e)))))
              (λ e.
                send_filled-Step p r world refl _ positive room
                  (filled-Full p r world d st room head))))
  ]
