-- ===== src/Tcp/Xmit/Filled.antt =====
-- The packet that the second loop of xmit_one_packet fills is the next piece of the stream.
use libtpa.Base.{
  ℕ, zero, suc, ◌+◌, ◌-◌, ◌≤◌, ◌<◌, ◌≡◌, ◌⊎◌, refl, sym, ap, ap₂, ◌∙◌, true, false, some, none,
  List, [], ◌∷◌, ◌++◌, if◌then◌else◌, ◌==◌, arith, length, take, drop, get_elem?, min, u16, u32,
  sub32, ==_iff, if_lem, Option-cases, inl, inr,
}
use mathlib.Core.List.{append-nil, append_assoc}
use libtpa.TcpQueue.Txq.{peek_for_write}
use libtpa.TcpQueue.Txq.Inv.{IsValid}
use libtpa.Tcp.Seq.{seq_lt, seq_gt}
use libtpa.Tcp.Sock.{Desc, Worker}
use libtpa.Tcp.Xmit.{Fill, set_desc, mark_retrans, piece, finishes, attach}
use libtpa.Tcp.Xmit.Stream.{
  Core, core, run, stream, bytes, start, total, Contiguous, at-start, part-stream, start-length,
  bytes-append, take-add, drop-drop,
}
use libtpa.Tcp.Xmit.Cores.{
  cores, SameData, SameData-refl, SameData-trans, SameData-cores, SameData-IsValid,
  set_desc-SameData, peek-set_desc, length-cores,
}

pub elem_lt : (cs : List Core) (k : ℕ) (c : Core) → get_elem? cs k ≡ some c → k < length cs
elem_lt [] k c e = absurd (ground arith)
elem_lt (x ∷ cs) zero c e = omega arith
elem_lt (x ∷ cs) (suc k) c e = omega (arith, elem_lt cs k c e)

past_end :
    (cs : List Core) (k : ℕ) (c : Core)
    → get_elem? cs k ≡ some c
    → get_elem? cs (suc k) ≡ none
    → suc k ≡ length cs
past_end [] k c e h = absurd (ground arith)
past_end (x ∷ []) zero c e h = omega arith
past_end (x ∷ y ∷ cs) zero c e h = absurd (ground arith)
past_end (x ∷ cs) (suc k) c e h = omega (arith, past_end cs k c e h)

module _ {W : Type 0} (cs : List Core) (s0 : ℕ) (follow : Contiguous s0 cs)
    (small : total cs < 2147483648) where
  -- The loop stands at byte `p`, not before the start of the descriptor `k`.
  pub record At (k p : ℕ) (f : Fill W) : Type 0 where
    pub held : cores f.txq f.ctx.desc_base ≡ cs
    pub valid : IsValid f.txq
    pub seq : f.ctx.seq ≡ u32 (s0 + p)
    pub seq_max : f.ctx.seq_max ≡ u32 (s0 + total cs)
    pub off : f.ctx.desc_off ≡ k
    pub low : start cs k ≤ p

  -- The descriptor at hand.
  pub record Head (k p : ℕ) (d : Desc) (f : Fill W) : Type 0 where
    pub elem : get_elem? cs k ≡ some (core d)
    pub peeked : peek_for_write f.txq f.ctx.desc_base f.ctx.desc_off ≡ some d
    pub inside : p < start cs (suc k)

  -- From `f` at byte `p` to `g` at byte `place` the packet has grown by the next bytes of the stream.
  pub record Filled (p place : ℕ) (f g : Fill W) : Type 0 where
    pub index : ℕ
    pub at : At index place g
    pub here : (place < start cs (suc index)) ⊎ ((index ≡ length cs) × (place ≡ total cs))
    pub le : p ≤ place
    pub size : g.size ≡ f.size + (place - p)
    pub budget : g.budget + (place - p) ≡ f.budget
    pub payload : bytes g.chunks ≡ bytes f.chunks ++ take (place - p) (drop p (stream cs))
    pub same : SameData f.txq g.txq
    pub base : g.ctx.desc_base ≡ f.ctx.desc_base
    pub left : g.ctx.budget ≡ f.ctx.budget

  -- Nothing is taken.
  pub Filled-still :
      (k p : ℕ) (f g : Fill W)
      → At k p g
      → (p < start cs (suc k)) ⊎ ((k ≡ length cs) × (p ≡ total cs))
      → g.size ≡ f.size
      → g.budget ≡ f.budget
      → g.chunks ≡ f.chunks
      → SameData f.txq g.txq
      → g.ctx.desc_base ≡ f.ctx.desc_base
      → g.ctx.budget ≡ f.ctx.budget
      → Filled p p f g
  Filled-still k p f g at here size budget chunks same base left = record {
    index = k;
    at = at;
    here = here;
    le = omega arith;
    size = omega (arith, size);
    budget = omega (arith, budget);
    payload =
        ap bytes chunks
        ∙ sym (
            ap (λ t. bytes f.chunks ++ take t (drop p (stream cs)))
              (let e : p - p ≡ 0 = omega arith in e)
            ∙ append-nil (bytes f.chunks));
    same = same;
    base = base;
    left = left;
  }

  pub Filled-trans : (p q r : ℕ) (f g h : Fill W) → Filled p q f g → Filled q r g h → Filled p r f h
  Filled-trans p q r f g h a b = record {
    index = b.index;
    at = b.at;
    here = b.here;
    le = omega (arith, a.le, b.le);
    size = omega (arith, a.size, b.size, a.le, b.le);
    budget = omega (arith, a.budget, b.budget, a.le, b.le);
    payload =
        b.payload
        ∙ ap (λ t. t ++ take (r - q) (drop q (stream cs))) a.payload
        ∙ append_assoc (bytes f.chunks) _ _
        ∙ ap (λ t. bytes f.chunks ++ t)
            (ap (λ t. take (q - p) (drop p (stream cs)) ++ take (r - q) t)
                (sym (
                  drop-drop p (q - p) (stream cs)
                  ∙ ap (λ t. drop t (stream cs)) (omega (arith, a.le))))
              ∙ sym (take-add (q - p) (r - q) (drop p (stream cs)))
              ∙ ap (λ t. take t (drop p (stream cs))) (omega (arith, a.le, b.le)));
    same = SameData-trans f.txq g.txq h.txq a.same b.same;
    base = b.base ∙ a.base;
    left = b.left ∙ a.left;
  }

  module _ (k p : ℕ) (d : Desc) (f : Fill W) (at : At k p f) (head : Head k p d f)
      (room : f.size + f.budget < 65536) where
    abbrev pub taken : ℕ
    taken = min (start cs (suc k) - p) f.budget

    off-Head : sub32 f.ctx.seq d.seq ≡ p - start cs k
    off-Head =
        let (seq, pos, fresh, next, le) = at-start s0 cs k (core d) follow head.elem in
        omega (arith, at.seq, at.low, head.inside, small)

    piece_lem : piece d f ≡ (taken, f.budget)
    unfolding piece seq_gt
    piece_lem =
        let (seq, pos, fresh, next, le) = at-start s0 cs k (core d) follow head.elem in
        ground (arith, off-Head, at.seq, at.seq_max, at.low, head.inside, small)

    finishes_lem : finishes d f ≡ (start cs (suc k) == p + taken)
    unfolding finishes
    finishes_lem =
        let (seq, pos, fresh, next, le) = at-start s0 cs k (core d) follow head.elem in
        ground (arith, off-Head, piece_lem, at.low, head.inside, small)

    abbrev pub attached : Fill W
    attached = record f {
      ctx = record (f.ctx) { seq = u32 (f.ctx.seq + taken) };
      budget = sub32 f.budget taken;
      size = u32 (f.size + taken);
      chunks =
          f.chunks
          ++ (record {
            addr = d.addr + sub32 f.ctx.seq d.seq;
            phys_addr = d.phys_addr + sub32 f.ctx.seq d.seq;
            len = u16 taken;
          }
              ∷ []);
    }

    abbrev pub ended : Worker → Fill W
    ended w = record attached {
      ctx = record (f.ctx) { seq = u32 (f.ctx.seq + taken); desc_off = u16 (f.ctx.desc_off + 1) };
      txq = set_desc f.txq f.ctx.desc_base f.ctx.desc_off (record d { ts_us = w.ts_us });
    }

    attach_lem :
        (w : Worker) → attach w d f ≡ (if start cs (suc k) == p + taken then ended w else attached)
    unfolding attach
    attach_lem w = rw (← finishes_lem, piece_lem) refl

    bytes-attached : bytes attached.chunks ≡ bytes f.chunks ++ take taken (drop p (stream cs))
    unfolding bytes
    bytes-attached =
        let (seq, pos, fresh, next, le) = at-start s0 cs k (core d) follow head.elem in
        bytes-append f.chunks _
        ∙ ap (λ t. bytes f.chunks ++ t)
            (append-nil _
              ∙ ap₂ run (ap (λ t. d.phys_addr + t) off-Head) (omega arith)
              ∙ sym (
                  part-stream cs k (core d) (p - start cs k) taken head.elem
                    (omega (arith, at.low, head.inside)))
              ∙ ap (λ t. take taken (drop t (stream cs))) (omega (arith, at.low)))

    pub attached-Filled : (start cs (suc k) == p + taken) ≡ false → Filled p (p + taken) f attached
    attached-Filled e = record {
      index = k;
      at = record {
        held = at.held;
        valid = at.valid;
        seq = omega (arith, at.seq);
        seq_max = at.seq_max;
        off = at.off;
        low = omega (arith, at.low);
      };
      here = inl (ground (arith, e, head.inside));
      le = omega arith;
      size = omega arith;
      budget = omega arith;
      payload =
          bytes-attached ∙ ap (λ t. bytes f.chunks ++ take t (drop p (stream cs))) (omega arith);
      same = SameData-refl f.txq;
      base = refl;
      left = refl;
    }

    after-ended :
        (start cs (suc k) < start cs (suc (suc k)))
        ⊎ ((suc k ≡ length cs) × (start cs (suc k) ≡ total cs))
    after-ended = elim (Option-cases (get_elem? cs (suc k))) [
      | inr (c, e) ↦ inl (let z = at-start s0 cs (suc k) c follow e in omega (arith, z.1, z.3))
      | inl e ↦
          (let l = past_end cs k (core d) head.elem e in inr (l, ap (start cs) l ∙ start-length cs))
    ]

    pub ended-Filled :
        (w : Worker)
        → (start cs (suc k) == p + taken) ≡ true
        → Filled p (start cs (suc k)) f (ended w)
    ended-Filled w e =
        let same =
          set_desc-SameData f.txq f.ctx.desc_base f.ctx.desc_off d (record d { ts_us = w.ts_us })
            head.peeked refl in
        let end : start cs (suc k) ≡ p + taken = (==_iff (start cs (suc k)) (p + taken)).0 e in
        record {
          index = suc k;
          at = record {
            held = SameData-cores f.txq (ended w).txq f.ctx.desc_base same ∙ at.held;
            valid = SameData-IsValid f.txq (ended w).txq same at.valid;
            seq = omega (arith, at.seq, end);
            seq_max = at.seq_max;
            off = omega (
              arith,
              at.off,
              elem_lt cs k (core d) head.elem,
              ap length at.held,
              length-cores f.txq f.ctx.desc_base,
            );
            low = omega arith;
          };
          here = after-ended;
          le = omega (arith, head.inside);
          size = omega (arith, end);
          budget = omega (arith, end);
          payload =
              bytes-attached
              ∙ ap (λ t. bytes f.chunks ++ take t (drop p (stream cs))) (omega (arith, end));
          same = same;
          base = refl;
          left = refl;
        }

    -- The piece ends the descriptor.
    pub attach_ends :
        (w : Worker)
        → (start cs (suc k) == p + taken) ≡ true
        → (finishes d f ≡ true) × (attach w d f ≡ ended w)
    attach_ends w e = (finishes_lem ∙ e, attach_lem w ∙ ap (λ b. if b then ended w else attached) e)

    -- The piece ends the packet within the descriptor.
    pub attach_stays :
        (w : Worker)
        → (start cs (suc k) == p + taken) ≡ false
        → (finishes d f ≡ false) × (attach w d f ≡ attached) × (attached.budget ≡ 0)
    attach_stays w e = (
      finishes_lem ∙ e,
      attach_lem w ∙ ap (λ b. if b then ended w else attached) e,
      ground (arith, e, head.inside),
    )

    abbrev marked : Desc × Fill W
    marked = (
      record d { retrans = true },
      record f {
        retransmit = true;
        txq = set_desc f.txq f.ctx.desc_base f.ctx.desc_off (record d { retrans = true });
      },
    )

    same-marked : SameData f.txq marked.1.txq
    same-marked = set_desc-SameData f.txq f.ctx.desc_base f.ctx.desc_off d marked.0 head.peeked refl

    marked-At : At k p marked.1
    marked-At = record {
      held = SameData-cores f.txq marked.1.txq f.ctx.desc_base same-marked ∙ at.held;
      valid = SameData-IsValid f.txq marked.1.txq same-marked at.valid;
      seq = at.seq;
      seq_max = at.seq_max;
      off = at.off;
      low = at.low;
    }

    -- The mark of a retransmission changes nothing of the stream.
    pub marked-Filled : (n : ℕ) → Filled p p f (mark_retrans n d f).1
    unfolding mark_retrans
    marked-Filled n =
        if_lem (λ (r : Desc × Fill W). Filled p p f r.1) (seq_lt f.ctx.seq n) marked (d, f)
          (λ e.
            Filled-still k p f marked.1 marked-At (inl head.inside) refl refl refl same-marked refl
              refl)
          (λ e.
            Filled-still k p f f at (inl head.inside) refl refl refl (SameData-refl f.txq) refl
              refl)

    pub marked_both : (n : ℕ) → let (d', g) = mark_retrans n d f in At k p g × Head k p d' g
    unfolding mark_retrans
    marked_both n =
        if_lem (λ (r : Desc × Fill W). At k p r.1 × Head k p r.0 r.1) (seq_lt f.ctx.seq n) marked
          (d, f)
          (λ e. (
            marked-At,
            record {
              elem = head.elem;
              peeked = peek-set_desc f.txq f.ctx.desc_base f.ctx.desc_off d marked.0 head.peeked;
              inside = head.inside;
            },
          ))
          (λ e. (at, head))

    pub marked_same :
        (n : ℕ)
        → let g = (mark_retrans n d f).1 in
          (g.ctx ≡ f.ctx) × (g.budget ≡ f.budget) × (g.size ≡ f.size) × (g.chunks ≡ f.chunks)
    unfolding mark_retrans
    marked_same n = ground arith
