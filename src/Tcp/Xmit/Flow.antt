-- ===== src/Tcp/Xmit/Flow.antt =====
-- tcp_xmit_data sends the stream in order, and no more of it than the windows allow.
use libtpa.Base.{
  ℕ, zero, suc, ◌+◌, ◌-◌, ◌≤◌, ◌<◌, ◌≡◌, ◌⊎◌, refl, sym, ap, ◌∙◌, subst, true, false, not, List, [],
  ◌∷◌, arith, length, take, drop, u32, if_lem, inl, inr,
}
use libtpa.Tcp.Sock.{Cfg, Worker}
use libtpa.Tcp.Header.{TxPkt}
use libtpa.Tcp.FlagPkt.{Net, Sent, sent, nothing, failed}
use libtpa.Tcp.Xmit.{Run, is_positive, tsock_snd_mss, xmit_one_packet, xmit_loop}
use libtpa.Tcp.Xmit.Stream.{Core, stream, bytes, total, Contiguous, drop-drop}
use libtpa.Tcp.Xmit.Cores.{SameData, SameData-refl, SameData-trans}
use libtpa.Tcp.Xmit.Keeps.{hdr_size, Keeps, Keeps-trans}
use libtpa.Tcp.Xmit.One.{Stands, Step, Idle, xmit_one_packet-Step}

-- Segments that carry, in order and from the sequence number `seq` on, the first `n` bytes of the stream,
-- none of them empty or longer than `mss`.
unfoldable pub Segments : ℕ → List ℕ → ℕ → List TxPkt → ℕ → Type 0
Segments seq data_bytes mss [] n = n ≡ 0
Segments seq data_bytes mss (x ∷ xs) n =
    (x.seq ≡ seq)
    × (0 < x.len)
    × (x.len ≤ mss)
    × (x.len ≤ n)
    × (bytes x.chunks ≡ take x.len data_bytes)
    × Segments (u32 (seq + x.len)) (drop x.len data_bytes) mss xs (n - x.len)

Segments-cast :
    {a b : ℕ} {xs ys : List ℕ} {m k : ℕ} (pkts : List TxPkt) {i j : ℕ}
    → a ≡ b
    → xs ≡ ys
    → m ≡ k
    → i ≡ j
    → Segments a xs m pkts i
    → Segments b ys k pkts j
Segments-cast {a} {b} {xs} {ys} {m} {k} pkts {i} {j} d e f g h =
    subst (λ t. Segments t ys k pkts j) d
      (subst (λ t. Segments a t k pkts j) e
        (subst (λ t. Segments a xs t pkts j) f (subst (Segments a xs m pkts) g h)))

module _ {W : Type 0} (cs : List Core) (s0 : ℕ) (follow : Contiguous s0 cs)
    (small : total cs < 2147483648) (net : Net W) (cfg : Cfg) (w : Worker) where
  -- What the loop of do_tcp_xmit_data does in `n` rounds from byte `p` on.
  pub record Flow (n p : ℕ) (r : Run W) (result : List TxPkt × Run W) : Type 0 where
    pub place : ℕ
    pub segments :
        Segments (u32 (s0 + p)) (drop p (stream cs)) (tsock_snd_mss r.sock) result.0 (place - p)
    pub stands : Stands cs s0 follow small net cfg w place result.1
    pub le : p ≤ place
    pub within : (place ≡ p) ⊎ ((is_positive r.ctx.budget ≡ true) × (place - p ≤ r.ctx.budget))
    pub progress :
        (p < place)
        ⊎ ((n ≡ 0) ⊎ ((is_positive r.ctx.budget ≡ false) ⊎ Idle cs s0 follow small net cfg w p r))
    pub keeps : Keeps r.sock result.1.sock
    pub same : SameData r.sock.txq result.1.sock.txq

  Flow-stop :
      (n p : ℕ) (r : Run W)
      → Stands cs s0 follow small net cfg w p r
      → (n ≡ 0) ⊎ (is_positive r.ctx.budget ≡ false)
      → Flow n p r ([], r)
  unfolding Segments tsock_snd_mss
  Flow-stop n p r st why = record {
    progress = inr (elim why [ inl z ↦ inl z | inr z ↦ inr (inl z) ]);
    place = p;
    segments = omega arith;
    stands = st;
    le = omega arith;
    within = inl refl;
    keeps = record { snd_nxt = refl; snd_una = refl; data_seq_nxt = refl; mss = refl; hdr = refl };
    same = SameData-refl r.sock.txq;
  }

  -- A step that took nothing.
  Flow-still :
      (n p : ℕ) (r : Run W) (result : Sent) (r' : Run W)
      (st : Step cs s0 follow small net cfg w p r (result, r'))
      → st.place ≡ p
      → Idle cs s0 follow small net cfg w p r
      → Flow n p r ([], r')
  unfolding Segments
  Flow-still n p r result r' st e idle = record {
    progress = inr (inr (inr idle));
    place = st.place;
    segments = omega (arith, e);
    stands = st.stands;
    le = st.le;
    within = inl e;
    keeps = st.keeps;
    same = st.same;
  }

  -- A packet, and what the rest of the loop does.
  Flow-more :
      (n p : ℕ) (r : Run W) (x : TxPkt) (r' : Run W) (rest : List TxPkt × Run W)
      → is_positive r.ctx.budget ≡ true
      → (st : Step cs s0 follow small net cfg w p r (sent x, r')) → Flow n st.place r' rest
      → Flow (suc n) p r (x ∷ rest.0, rest.1)
  unfolding Segments
  Flow-more n p r x r' rest positive st fl =
      let (moved, seq, len, payload, le) = st.took in
      record {
        place = fl.place;
        segments = (
          seq,
          omega (arith, len, moved),
          omega (arith, len, le),
          omega (arith, len, fl.le),
          payload ∙ ap (λ t. take t (drop p (stream cs))) (sym len),
          Segments-cast rest.0 (omega (arith, len, moved))
              (sym (
                drop-drop p x.len (stream cs)
                ∙ ap (λ t. drop t (stream cs)) (omega (arith, len, moved))))
              st.keeps.mss (omega (arith, len, moved)) fl.segments,
        );
        progress = inl (omega (arith, fl.le, moved));
        stands = fl.stands;
        le = omega (arith, fl.le, moved);
        within = inr (
          positive,
          elim fl.within [
            | inl e ↦ omega (arith, e, st.budget)
            | inr (pos, l) ↦ omega (arith, l, st.budget, st.le)
          ],
        );
        keeps = Keeps-trans r.sock r'.sock rest.1.sock st.keeps fl.keeps;
        same = SameData-trans r.sock.txq r'.sock.txq rest.1.sock.txq st.same fl.same;
      }

  Flow-result :
      (n p : ℕ) (r : Run W) (result : Sent) (r' : Run W) (rest : List TxPkt × Run W)
      → is_positive r.ctx.budget ≡ true
      → (st : Step cs s0 follow small net cfg w p r (result, r')) → Flow n st.place r' rest
      → Flow (suc n) p r (elim result as (λ x. List TxPkt × Run W) [
        | sent p ↦ (p ∷ rest.0, rest.1)
        | nothing ↦ ([], r')
        | failed e ↦ ([], r')
      ])
  Flow-result n p r (sent x) r' rest positive st fl = Flow-more n p r x r' rest positive st fl
  Flow-result n p r nothing r' rest positive st fl =
      Flow-still (suc n) p r nothing r' st st.took.0 st.took.1
  Flow-result n p r (failed e) r' rest positive st fl =
      Flow-still (suc n) p r (failed e) r' st st.took.0 st.took.2

  -- With room for a packet in each round.
  pub xmit_loop-Flow :
      (n p : ℕ) (r : Run W)
      → Stands cs s0 follow small net cfg w p r
      → tsock_snd_mss r.sock < 65536
      → hdr_size r.sock ≤ net.headroom
      → length r.port.pkts + n ≤ 4096
      → Flow n p r (xmit_loop net cfg w n r)
  unfolding xmit_loop
  xmit_loop-Flow zero p r st mss hdr queue = Flow-stop zero p r st (inl refl)
  xmit_loop-Flow (suc n) p r st mss hdr queue =
      if_lem (Flow (suc n) p r) (not (is_positive r.ctx.budget)) ([], r) _
        (λ e. Flow-stop (suc n) p r st (inr (ground (arith, e))))
        (λ e.
          let positive : is_positive r.ctx.budget ≡ true = ground (arith, e) in
          let step =
            xmit_one_packet-Step cs s0 follow small net cfg w p r st (ground (arith, e))
              (record { mss = mss; hdr = hdr; queue = omega arith }) in
          let (result, r') = xmit_one_packet net cfg w r in
          Flow-result n p r result r' (xmit_loop net cfg w n r') positive step (
            xmit_loop-Flow n step.place r' step.stands (omega (arith, step.keeps.mss, mss))
              (omega (arith, step.keeps.hdr, hdr)) (omega (arith, step.queue, queue))))
