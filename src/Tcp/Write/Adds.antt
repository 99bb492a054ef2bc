-- ===== src/Tcp/Write/Adds.antt =====
-- What the loops of a write have added to the queue: descriptors from the pool, behind the end of the queue, whose
-- sequence numbers follow.
use libtpa.Base.{
  ℕ, ◌+◌, ◌≤◌, ◌<◌, ◌≡◌, refl, sym, ap, ap₂, subst, ◌∙◌, List, [], ◌∷◌, ◌++◌, map, arith, length,
  length-append, u32,
}
use mathlib.Core.List.{append_assoc, map-append}
use libtpa.TcpQueue.Txq.{Txq, copy_in, free_count}
use libtpa.TcpQueue.Txq.Grow.{copy_in-append}
use libtpa.Tcp.Sock.{Desc, Tsock}
use libtpa.Tcp.Xmit.Stream.{Core, core, Contiguous, total, stream, run}
use libtpa.Tcp.Write.{WriteCtx}

abbrev pub ids : List Desc → List ℕ
ids ds = map (λ (d : Desc). d.id) ds

abbrev pub data_of : List Desc → List Core
data_of ds = map core ds

pub total-append : (xs ys : List Core) → total (xs ++ ys) ≡ total xs + total ys
unfolding total
total-append [] ys = omega arith
total-append (x ∷ xs) ys = omega (arith, total-append xs ys)

pub stream-append : (xs ys : List Core) → stream (xs ++ ys) ≡ stream xs ++ stream ys
unfolding stream
stream-append [] ys = refl
stream-append (x ∷ xs) ys =
    ap (λ t. run x.phys_addr x.len ++ t) (stream-append xs ys)
    ∙ sym (append_assoc (run x.phys_addr x.len) (stream xs) (stream ys))

pub Contiguous-mod : (s t : ℕ) (xs : List Core) → u32 s ≡ u32 t → Contiguous s xs → Contiguous t xs
unfolding Contiguous
Contiguous-mod s t [] e h = tt
Contiguous-mod s t (x ∷ xs) e (a, b, c, d) =
    (a ∙ e, b, c, Contiguous-mod (s + x.len) (t + x.len) xs (omega (arith, e)) d)

pub Contiguous-append :
    (s : ℕ) (xs ys : List Core)
    → Contiguous s xs
    → Contiguous (s + total xs) ys
    → Contiguous s (xs ++ ys)
unfolding Contiguous total
Contiguous-append s [] ys h k = subst (λ t. Contiguous t ys) (omega arith) k
Contiguous-append s (x ∷ xs) ys (a, b, c, d) k =
    (a, b, c, Contiguous-append (s + x.len) xs ys d (subst (λ t. Contiguous t ys) (omega arith) k))

abbrev added : Txq Desc → ℕ → List Desc → Txq Desc
added q n g = record q { descs = copy_in q.write q.mask n q.descs g }

-- From `c` to `c'` the descriptors `g` were added.
pub record Adds {W : Type 0} (s : Tsock) (c c' : WriteCtx W) (g : List Desc) : Type 0 where
  pub slots :
      c'.txq ≡ record (c.txq) { descs = copy_in c.txq.write c.txq.mask c.nr_desc c.txq.descs g }
  pub nr : c'.nr_desc ≡ c.nr_desc + length g
  pub taken : ids c.pool ≡ ids g ++ ids c'.pool
  pub size : c'.size ≡ u32 (c.size + total (data_of g))
  pub follow : Contiguous (s.data_seq_nxt + c.size) (data_of g)
  pub room : c'.nr_desc ≤ free_count s.txq

module _ {W : Type 0} (s : Tsock) where
  pub Adds-trans :
      (c d e : WriteCtx W) (g h : List Desc) → Adds s c d g → Adds s d e h → Adds s c e (g ++ h)
  Adds-trans c d e g h a b = record {
    slots =
        b.slots
        ∙ ap₂ (λ q n. added q n h) a.slots a.nr
        ∙ ap (λ f. record (c.txq) { descs = f })
            (sym (copy_in-append c.txq.write c.txq.mask c.nr_desc c.txq.descs g h));
    nr = omega (arith, a.nr, b.nr, length-append g h);
    taken =
        a.taken
        ∙ ap (λ t. ids g ++ t) b.taken
        ∙ sym (append_assoc (ids g) (ids h) (ids e.pool))
        ∙ ap (λ t. t ++ ids e.pool) (sym (map-append (λ (x : Desc). x.id) g h));
    size = omega (
      arith,
      a.size,
      b.size,
      ap total (map-append core g h),
      total-append (data_of g) (data_of h),
    );
    follow = subst (Contiguous (s.data_seq_nxt + c.size)) (sym (map-append core g h)) (
        Contiguous-append (s.data_seq_nxt + c.size) (data_of g) (data_of h) a.follow (
          Contiguous-mod (s.data_seq_nxt + d.size) (s.data_seq_nxt + c.size + total (data_of g))
            (data_of h) (omega (arith, a.size)) b.follow));
    room = b.room;
  }

  -- Nothing is added; the world may change.
  pub Adds-nothing :
      (c : WriteCtx W) (world : W)
      → c.size < 4294967296
      → c.nr_desc ≤ free_count s.txq
      → Adds s c (record c { world = world }) []
  unfolding copy_in Contiguous total
  Adds-nothing c world small room = record {
    slots = refl;
    nr = omega arith;
    taken = refl;
    size = omega (arith, small);
    follow = tt;
    room = room;
  }
