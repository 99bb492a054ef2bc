-- ===== src/Tcp/Xmit/Rounds.antt =====
-- The second loop of xmit_one_packet to its end.
use libtpa.Base.{
  ℕ, zero, suc, ◌+◌, ◌<◌, ◌≡◌, ◌⊎◌, refl, sym, ap, ◌∙◌, subst, Bool, true, false, not, Option, some,
  none, List, [], ◌∷◌, if◌then◌else◌, leb, ◌==◌, arith, length, u32, get_elem?, if_lem, Bool-cases,
  Option-cases, inl, inr,
}
use libtpa.TcpQueue.Txq.{peek_for_write}
use libtpa.Tcp.Sock.{Desc, Cfg, Worker}
use libtpa.Tcp.FlagPkt.{Net}
use libtpa.Tcp.Xmit.{Fill, is_positive, mark_retrans, finishes, attach, next_desc, fill}
use libtpa.Tcp.Xmit.Stream.{Core, core, start, total, Contiguous, at-start}
use libtpa.Tcp.Xmit.Cores.{cores, peek-cores, length-cores, SameData-refl}
use libtpa.Tcp.Xmit.Filled.{
  At, Head, Filled, Filled-still, Filled-trans, taken, attached, ended, attach_ends, attach_stays,
  attached-Filled, ended-Filled, marked-Filled, marked_both, marked_same, elem_lt,
}

abbrev map_core : Option Desc → Option Core
map_core none = none
map_core (some d) = some (core d)

map_core_lem :
    (o : Option Desc)
    → (elim o as (λ x. Option Core) [ none ↦ none | some d ↦ some (core d) ]) ≡ map_core o
map_core_lem none = refl
map_core_lem (some d) = refl

pub start_past :
    (cs : List Core) (k : ℕ)
    → get_elem? cs k ≡ none
    → (start cs (suc k) ≡ start cs k) × (start cs k ≡ total cs)
unfolding start total
start_past [] zero e = (refl, refl)
start_past [] (suc k) e = (refl, refl)
start_past (c ∷ cs) zero e = absurd (ground arith)
start_past (c ∷ cs) (suc k) e =
    let z = start_past cs k e in (ap (λ t. c.len + t) z.0, ap (λ t. c.len + t) z.1)

fill_spent :
    {W : Type 0} (net : Net W) (cfg : Cfg) (w : Worker) (snd_nxt n : ℕ) (d : Desc) (f : Fill W)
    → f.budget ≡ 0
    → fill net cfg w snd_nxt n d f ≡ f
unfolding fill
fill_spent net cfg w snd_nxt zero d f e = refl
fill_spent net cfg w snd_nxt (suc n) d f e = ground (arith, e)

module _ {W : Type 0} (cs : List Core) (s0 : ℕ) (follow : Contiguous s0 cs)
    (small : total cs < 2147483648) (net : Net W) (cfg : Cfg) (w : Worker) (snd_nxt : ℕ) where
  -- Why the loop ended: the budget is spent, there is no packet for the first piece in the world `v`, something is
  -- taken, or all data is.
  abbrev pub Ended : W → Fill W → Type 0
  Ended v g =
      (g.budget ≡ 0)
      ⊎ (((net.alloc_zwrite v).0 ≡ false) ⊎ ((0 < g.size) ⊎ (g.ctx.seq ≡ g.ctx.seq_max)))

  pub record Full (v : W) (p : ℕ) (f g : Fill W) : Type 0 where
    pub place : ℕ
    pub filled : Filled cs s0 follow small p place f g
    pub reason : Ended v g

  marked_world : (d : Desc) (f : Fill W) → (mark_retrans snd_nxt d f).1.world ≡ f.world
  unfolding mark_retrans
  marked_world d f = ground arith

  Full-after :
      (v u : W) (p q : ℕ) (f g h : Fill W)
      → Filled cs s0 follow small p q f g
      → (b : Full u q g h) → ((net.alloc_zwrite u).0 ≡ false → Ended v h)
      → Full v p f h
  Full-after v u p q f g h a b other = record {
    place = b.place;
    filled = Filled-trans cs s0 follow small p q b.place f g h a b.filled;
    reason = elim b.reason [ inl z ↦ inl z | inr (inl z) ↦ other z | inr (inr z) ↦ inr (inr z) ];
  }

  nth_here :
      (k p : ℕ) (g : Fill W)
      → At cs s0 follow small k p g
      → get_elem? cs k ≡ map_core (peek_for_write g.txq g.ctx.desc_base g.ctx.desc_off)
  nth_here k p g at =
      ap (λ l. get_elem? l k) (sym at.held)
      ∙ ap (get_elem? (cores g.txq g.ctx.desc_base)) (sym at.off)
      ∙ peek-cores g.txq g.ctx.desc_base g.ctx.desc_off at.valid
      ∙ map_core_lem (peek_for_write g.txq g.ctx.desc_base g.ctx.desc_off)

  -- The next descriptor of a place in the stream.
  pub next-Head :
      (k p : ℕ) (d : Desc) (g : Fill W)
      → At cs s0 follow small k p g
      → (p < start cs (suc k)) ⊎ ((k ≡ length cs) × (p ≡ total cs))
      → peek_for_write g.txq g.ctx.desc_base g.ctx.desc_off ≡ some d
      → Head cs s0 follow small k p d g
  next-Head k p d g at here e =
      let found : get_elem? cs k ≡ some (core d) = nth_here k p g at ∙ ap map_core e in
      record {
        elem = found;
        peeked = e;
        inside = elim here [
          | inl l ↦ l
          | inr (l, t) ↦ absurd (omega (arith, l, elem_lt cs k (core d) found))
        ];
      }

  pub no_next :
      (k p : ℕ) (g : Fill W)
      → At cs s0 follow small k p g
      → (p < start cs (suc k)) ⊎ ((k ≡ length cs) × (p ≡ total cs))
      → peek_for_write g.txq g.ctx.desc_base g.ctx.desc_off ≡ none
      → p ≡ total cs
  no_next k p g at here e =
      let lost : get_elem? cs k ≡ none = nth_here k p g at ∙ ap map_core e in
      elim here [ inl l ↦ absurd (omega (arith, l, at.low, start_past cs k lost)) | inr (l, t) ↦ t ]

  ended-seq :
      {p q : ℕ} {f g : Fill W}
      → Filled cs s0 follow small p q f g
      → q ≡ total cs
      → g.ctx.seq ≡ g.ctx.seq_max
  ended-seq a e = a.at.seq ∙ ap (λ t. u32 (s0 + t)) e ∙ sym a.at.seq_max

  module _ (v : W) (n k p : ℕ) (d : Desc) (f : Fill W) (at : At cs s0 follow small k p f)
      (head : Head cs s0 follow small k p d f) (room : f.size + f.budget < 65536)
      (again : (k' p' : ℕ) (d' : Desc) (g : Fill W)
        → At cs s0 follow small k' p' g
        → Head cs s0 follow small k' p' d' g
        → g.size + g.budget < 65536
        → length cs < n + k'
        → Full g.world p' g (fill net cfg w snd_nxt n d' g))
      (enough : length cs < n + suc k) where
    abbrev go_on : Bool → Fill W → Fill W
    go_on b g =
        elim (if b then peek_for_write g.txq g.ctx.desc_base g.ctx.desc_off else some d)
          as (λ x. Fill W) [ none ↦ g | some d' ↦ fill net cfg w snd_nxt n d' g ]

    go_on-ended :
        (e : (start cs (suc k) == p + taken cs s0 follow small k p d f at head room) ≡ true)
        → Full v p f (go_on true (ended cs s0 follow small k p d f at head room w))
    go_on-ended e =
        let g = ended cs s0 follow small k p d f at head room w in
        let a = ended-Filled cs s0 follow small k p d f at head room w e in
        elim (Option-cases (peek_for_write g.txq g.ctx.desc_base g.ctx.desc_off)) [
          | inl z ↦
              subst
                (λ o.
                  Full v p f (elim o as (λ x. Fill W) [
                    | none ↦ g
                    | some d' ↦ fill net cfg w snd_nxt n d' g
                  ]))
                (sym z)
                (record {
                  place = start cs (suc k);
                  filled = a;
                  reason = inr (
                      inr (inr (ended-seq a (no_next a.index (start cs (suc k)) g a.at a.here z))));
                })
          | inr (d', z) ↦
              subst
                (λ o.
                  Full v p f (elim o as (λ x. Fill W) [
                    | none ↦ g
                    | some d' ↦ fill net cfg w snd_nxt n d' g
                  ]))
                (sym z)
                (let rest =
                    (again a.index (start cs (suc k)) d' g a.at
                      (next-Head a.index (start cs (suc k)) d' g a.at a.here z)
                      (omega (arith, a.size, a.budget, a.le, room))
                      (omega (
                        arith,
                        a.at.off,
                        at.off,
                        elem_lt cs k (core d) head.elem,
                        ap length at.held,
                        length-cores f.txq f.ctx.desc_base,
                        enough,
                      ))) in
                  Full-after v g.world p (start cs (suc k)) f g _ a rest (λ z. inr (
                    inr (
                      inl (
                        omega
                          (arith, a.size, a.le, rest.filled.size, rest.filled.le, head.inside))))))
        ]

    go_on-attached :
        (e : (start cs (suc k) == p + taken cs s0 follow small k p d f at head room) ≡ false)
        → Full v p f (go_on false (attached cs s0 follow small k p d f at head room))
    go_on-attached e =
        let g = attached cs s0 follow small k p d f at head room in
        let spent = (attach_stays cs s0 follow small k p d f at head room w e).2 in
        subst (Full v p f) (sym (fill_spent net cfg w snd_nxt n d g spent)) (record {
          place = p + taken cs s0 follow small k p d f at head room;
          filled = attached-Filled cs s0 follow small k p d f at head room e;
          reason = inl spent;
        })

    go_on-Full : Full v p f (go_on (finishes d f) (attach w d f))
    go_on-Full =
        elim (Bool-cases (start cs (suc k) == p + taken cs s0 follow small k p d f at head room)) [
          | inl e ↦
              (let (fin, att) = attach_ends cs s0 follow small k p d f at head room w e in
                subst (λ b. Full v p f (go_on b (attach w d f))) (sym fin)
                  (subst (λ g. Full v p f (go_on true g)) (sym att) (go_on-ended e)))
          | inr e ↦
              (let (fin, att, spent) = attach_stays cs s0 follow small k p d f at head room w e in
                subst (λ b. Full v p f (go_on b (attach w d f))) (sym fin)
                  (subst (λ g. Full v p f (go_on false g)) (sym att) (go_on-attached e)))
        ]

    attach_size : 0 < f.budget → 0 < (attach w d f).size
    attach_size pos =
        elim (Bool-cases (start cs (suc k) == p + taken cs s0 follow small k p d f at head room)) [
          | inl e ↦
              subst (λ g. 0 < g.size)
                (sym (attach_ends cs s0 follow small k p d f at head room w e).1)
                (omega (arith, pos, room, head.inside))
          | inr e ↦
              subst (λ g. 0 < g.size)
                (sym (attach_stays cs s0 follow small k p d f at head room w e).1)
                (omega (arith, pos, room, head.inside))
        ]

    -- The piece is attached in any case.
    attach-Full : Ended v (attach w d f) → Full v p f (attach w d f)
    attach-Full r =
        elim (Bool-cases (start cs (suc k) == p + taken cs s0 follow small k p d f at head room)) [
          | inl e ↦ record {
            place = start cs (suc k);
            filled =
                subst (Filled cs s0 follow small p _ f)
                  (sym (attach_ends cs s0 follow small k p d f at head room w e).1)
                  (ended-Filled cs s0 follow small k p d f at head room w e);
            reason = r;
          }
          | inr e ↦ record {
            place = p + taken cs s0 follow small k p d f at head room;
            filled =
                subst (Filled cs s0 follow small p _ f)
                  (sym (attach_stays cs s0 follow small k p d f at head room w e).1)
                  (attached-Filled cs s0 follow small k p d f at head room e);
            reason = r;
          }
        ]

  At-world :
      (k p : ℕ) (f : Fill W) (v : W) (b : Bool)
      → At cs s0 follow small k p f
      → At cs s0 follow small k p (record f { world = v; alloc_failed = b })
  At-world k p f v b at = record {
    held = at.held;
    valid = at.valid;
    seq = at.seq;
    seq_max = at.seq_max;
    off = at.off;
    low = at.low;
  }

  -- As much fuel as there are descriptors left, and one, is enough.
  pub fill-Full :
      (n k p : ℕ) (d : Desc) (f : Fill W)
      → At cs s0 follow small k p f
      → Head cs s0 follow small k p d f
      → f.size + f.budget < 65536
      → length cs < n + k
      → Full f.world p f (fill net cfg w snd_nxt n d f)
  unfolding fill next_desc
  fill-Full zero k p d f at head room enough =
      absurd (omega (arith, elem_lt cs k (core d) head.elem))
  fill-Full (suc n) k p d0 f0 at head room enough =
      let (d, f) = mark_retrans snd_nxt d0 f0 in
      let (got, world) = net.alloc_zwrite f.world in
      let f' = record f { world = world } in
      let (at1, head1) = marked_both cs s0 follow small k p d0 f0 at head room snd_nxt in
      let marks = marked-Filled cs s0 follow small k p d0 f0 at head room snd_nxt in
      let (ctx, budget, size, chunks) =
        marked_same cs s0 follow small k p d0 f0 at head room snd_nxt in
      let here = inl head.inside in
      let still = λ (b : Bool).
        Filled-still cs s0 follow small k p f0 (record f' { alloc_failed = b })
          (At-world k p f world b at1) here size budget chunks marks.same
          (ap (λ c. c.desc_base) ctx) (ap (λ c. c.budget) ctx) in
      let g = attach w d f' in
      let head2 : Head cs s0 follow small k p d f' = record {
        elem = head1.elem;
        peeked = head1.peeked;
        inside = head1.inside;
      } in
      let at2 = At-world k p f world f.alloc_failed at1 in
      let room2 : f'.size + f'.budget < 65536 = omega (arith, size, budget, room) in
      if_lem (Full f0.world p f0) (not (is_positive f0.budget)) f0 _
        (λ e. record {
          place = p;
          filled =
              Filled-still cs s0 follow small k p f0 f0 at here refl refl refl
                (SameData-refl f0.txq) refl refl;
          reason = inl (ground (arith, e, room));
        })
        (λ e.
          if_lem (Full f0.world p f0) d.sacked f _
            (λ z. absurd (ground (arith, z, at-start s0 cs k (core d) follow head1.elem)))
            (λ z.
              if_lem (Full f0.world p f0) (not got) (record f' { alloc_failed = true }) _
                (λ z. record {
                  place = p;
                  filled = still true;
                  reason = inr (inl (ground (arith, z, marked_world d0 f0)));
                })
                (λ z.
                  if_lem (Full f0.world p f0) (leb cfg.pkt_max_chain (1 + length g.chunks)) g _
                    (λ z.
                      Full-after f0.world f0.world p p f0 f' g (still f.alloc_failed)
                        (attach-Full f0.world n k p d f' at2 head2 room2 (fill-Full n)
                          (omega (arith, enough))
                          (inr (
                            inr (
                              inl (
                                attach_size f0.world n k p d f' at2 head2 room2 (fill-Full n)
                                  (omega (arith, enough)) (ground (arith, e, budget, room)))))))
                        (λ y. inr (inl y)))
                    (λ z.
                      Full-after f0.world f0.world p p f0 f' _ (still f.alloc_failed)
                        (go_on-Full f0.world n k p d f' at2 head2 room2 (fill-Full n)
                          (omega (arith, enough)))
                        (λ y. inr (inl y))))))
