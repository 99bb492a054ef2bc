-- ===== src/Tcp/Ooo/Edge.antt =====
-- Data reaches the application as one contiguous stream, and the window's right edge stays in place.
use libtpa.Base.{
  ℕ, zero, suc, ◌+◌, ◌<◌, ◌≤◌, ◌≡◌, refl, subst, ap, ◌∙◌, sym, Bool, List, [], ◌∷◌, ◌++◌,
  if◌then◌else◌, ◌==◌, arith, take, u32, ==_iff, Bool-cases, Option-cases, inl, inr,
}
use mathlib.Core.List.{append-nil}
use libtpa.TcpQueue.Rxq
use libtpa.TcpQueue.Rxq.{Rxq}
use libtpa.TcpQueue.Rxq.Refine.{IsValid, waiting, enqueue_burst-appends}
use libtpa.Tcp.Sock.{Seg, Tsock, event_add}
use libtpa.Tcp.Ooo.{cut_tail, to_window, delivered, tcp_rcv_enqueue, forget_ooo_pkt, drain_loop}

-- Each packet starts where the one before it ends: from `a` at the first to `b` after the last.
abbrev pub Chain : ℕ → List Seg → ℕ → Type 0
Chain a [] b = a ≡ b
Chain a (p ∷ ps) b = (p.seq ≡ a) × Chain (u32 (p.seq + p.len)) ps b

Chain-append : (a b c : ℕ) (xs ys : List Seg) → Chain a xs b → Chain b ys c → Chain a (xs ++ ys) c
Chain-append a b c [] ys h k = subst (λ t. Chain t ys c) (sym h) k
Chain-append a b c (x ∷ xs) ys h k = (h.0, Chain-append (u32 (x.seq + x.len)) b c xs ys h.1 k)

-- The receive queue is valid and holds a contiguous stream from `a` up to `rcv_nxt`; the window ends at
-- `edge`.
pub record InOrder (a edge : ℕ) (s : Tsock) : Type 0 where
  pub valid : IsValid s.rxq
  pub chain : Chain a (waiting s.rxq) s.rcv_nxt
  pub nxt_lt : s.rcv_nxt < 4294967296
  pub wnd_lt : s.rcv_wnd < 4294967296
  pub right : u32 (s.rcv_nxt + s.rcv_wnd) ≡ edge

-- Nothing that the stream depends on differs.
pub record SameRcv (s t : Tsock) : Type 0 where
  pub rxq : t.rxq ≡ s.rxq
  pub rcv_nxt : t.rcv_nxt ≡ s.rcv_nxt
  pub rcv_wnd : t.rcv_wnd ≡ s.rcv_wnd

pub SameRcv-InOrder : (a edge : ℕ) (s t : Tsock) → SameRcv s t → InOrder a edge s → InOrder a edge t
SameRcv-InOrder a edge s t e i = record {
  valid = rw e.rxq i.valid;
  chain = rw (e.rxq, e.rcv_nxt) i.chain;
  nxt_lt = rw e.rcv_nxt i.nxt_lt;
  wnd_lt = rw e.rcv_wnd i.wnd_lt;
  right = rw (e.rcv_nxt, e.rcv_wnd) i.right;
}

enqueue_one :
    (q : Rxq Seg) (p : Seg)
    → IsValid q
    → let (n, q') = Rxq.enqueue_burst q (p ∷ []) in
      IsValid q' × (waiting q' ≡ (if n == 1 then waiting q ++ (p ∷ []) else waiting q))
enqueue_one q p v =
    let (count, grown, valid) = enqueue_burst-appends q (p ∷ []) v in
    (valid, grown ∙ one (Rxq.enqueue_burst q (p ∷ [])).0 (omega (arith, count)))
  where
    one :
        (n : ℕ)
        → n ≤ 1
        → waiting q ++ take n (p ∷ []) ≡ (if n == 1 then waiting q ++ (p ∷ []) else waiting q)
    one zero h = append-nil (waiting q)
    one (suc zero) h = refl
    one (suc (suc n)) h = absurd (omega arith)

to_window_lem :
    (wnd : ℕ) (p : Seg)
    → p.len < 65536
    → ((to_window wnd p).seq ≡ p.seq)
      × ((to_window wnd p).len ≤ wnd)
      × ((to_window wnd p).len < 65536)
unfolding to_window cut_tail
to_window_lem wnd p h = ground arith

delivered-InOrder :
    (a edge : ℕ) (p : Seg) (q : Rxq Seg) (s : Tsock)
    → p.seq ≡ s.rcv_nxt
    → p.len ≤ s.rcv_wnd
    → IsValid q
    → waiting q ≡ waiting s.rxq ++ (p ∷ [])
    → InOrder a edge s
    → InOrder a edge (delivered p q s)
unfolding delivered event_add
delivered-InOrder a edge p q s e l v w i = record {
  valid = v;
  chain = rw w (
      Chain-append a s.rcv_nxt (u32 (s.rcv_nxt + p.len)) (waiting s.rxq) (p ∷ []) i.chain
        (e, ap (λ t. u32 (t + p.len)) e));
  nxt_lt = omega arith;
  wnd_lt = omega arith;
  right = omega (arith, i.right, i.wnd_lt, i.nxt_lt);
}

-- A delivered packet that starts at `rcv_nxt` continues the stream.
pub enqueue-InOrder :
    (a edge : ℕ) (p : Seg) (s : Tsock)
    → p.seq ≡ s.rcv_nxt
    → p.len < 65536
    → InOrder a edge s
    → InOrder a edge (tcp_rcv_enqueue p s).2
unfolding tcp_rcv_enqueue
enqueue-InOrder a edge p s e l i =
    let p' = to_window s.rcv_wnd p in
    let (n, q) = Rxq.enqueue_burst s.rxq (p' ∷ []) in
    let (seq, fits, small) = to_window_lem s.rcv_wnd p l in
    let (v, w) = enqueue_one s.rxq p' i.valid in
    elim (Bool-cases (p'.len == 0)) [
      | inl z ↦ rw (z, tcp_rcv_enqueue) i
      | inr nz ↦ elim (Bool-cases (n == 1)) [
        | inl one ↦
            rw (nz, one, tcp_rcv_enqueue)
              (delivered-InOrder a edge p' q s (seq ∙ e) fits v (rw one at w) i)
        | inr full ↦
            rw (nz, full, tcp_rcv_enqueue)
              (record {
                valid = v;
                chain = rw (rw full at w) i.chain;
                nxt_lt = i.nxt_lt;
                wnd_lt = i.wnd_lt;
                right = i.right;
              })
      ]
    ]

-- Lengths are those of a uint16_t.
abbrev pub AreShort : List Seg → Type 0
AreShort [] = Unit {0}
AreShort (p ∷ ps) = (p.len < 65536) × AreShort ps

pub AreShort-append : (xs ys : List Seg) → AreShort xs → AreShort ys → AreShort (xs ++ ys)
AreShort-append [] ys h k = k
AreShort-append (x ∷ xs) ys h k = (h.0, AreShort-append xs ys h.1 k)

pub enqueue-short : (p : Seg) (s : Tsock) → p.len < 65536 → (tcp_rcv_enqueue p s).1.len < 65536
unfolding tcp_rcv_enqueue
enqueue-short p s h = ground (arith, to_window_lem s.rcv_wnd p h)

forgotten :
    (a edge : ℕ) (p : Seg) (s : Tsock) → InOrder a edge s → InOrder a edge (forget_ooo_pkt p s)
unfolding forget_ooo_pkt
forgotten a edge p s i =
    SameRcv-InOrder a edge s _ (record { rxq = refl; rcv_nxt = refl; rcv_wnd = refl }) i

-- What the draining of the queue keeps.
pub record Drained (a edge : ℕ) (out : Bool × Tsock) : Type 0 where
  pub order : InOrder a edge out.1
  pub short : AreShort out.1.rcv_ooo_queue

pub drain_loop-Drained :
    (a edge : ℕ) (ps : List Seg) (s : Tsock)
    → AreShort ps
    → InOrder a edge s
    → Drained a edge (drain_loop ps s)
unfolding drain_loop
drain_loop-Drained a edge [] s h i = record {
  order = SameRcv-InOrder a edge s _ (record { rxq = refl; rcv_nxt = refl; rcv_wnd = refl }) i;
  short = tt;
}
drain_loop-Drained a edge (p ∷ ps) s h i = elim (Bool-cases (p.seq == s.rcv_nxt)) [
  | inr other ↦
      rw (other, drain_loop)
        (record {
          order =
              SameRcv-InOrder a edge s _ (record { rxq = refl; rcv_nxt = refl; rcv_wnd = refl }) i;
          short = h;
        })
  | inl here ↦
      (let next = enqueue-InOrder a edge p s ((==_iff _ _).0 here) h.0 i in
        let (err, p', s') = tcp_rcv_enqueue p s in
        elim (Option-cases err) [
          | inl done ↦
              rw (here, done, drain_loop)
                (drain_loop-Drained a edge ps (forget_ooo_pkt p s') h.1
                  (forgotten a edge p s' next))
          | inr (e, failed) ↦
              rw (here, failed, drain_loop)
                (record {
                  order =
                      SameRcv-InOrder a edge s' _
                        (record { rxq = refl; rcv_nxt = refl; rcv_wnd = refl }) next;
                  short = (enqueue-short p s h.0, h.1);
                })
        ])
]
