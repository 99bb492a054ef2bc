-- ===== src/Tcp/Write/Carries.antt =====
-- Descriptors that hold the bytes of iovecs.
use libtpa.Base.{
  ℕ, zero, suc, ◌+◌, ◌-◌, ◌≤◌, ◌≡◌, ◌⊎◌, inl, inr, subst, true, false, some, ◌<◌, sym, ap, ap₂, ◌∙◌,
  List, [], ◌∷◌, ◌++◌, arith,
}
use mathlib.Core.List.{map-append}
use libtpa.Tcp.Sock.{Desc}
use libtpa.Tcp.Xmit.Stream.{core, total, stream, run}
use libtpa.Tcp.Write.{Iov, Mbuf, Memory}
use libtpa.Tcp.Write.Adds.{data_of, total-append, stream-append}

-- The descriptor holds bytes of an iovec from an offset on, and memory has gone from `v` to `u` for it. Either
-- the iovec has a physical address, and the bytes are read where they are, or they were copied with memcpy to
-- a packet that was taken from the pool, has room for them, and belongs to the descriptor now.
abbrev pub Placed : {W : Type 0} → Memory W → Iov → ℕ → W → Desc → W → Type 0
Placed mem iov off v d u =
    ((0 < iov.phys)
      × (d.phys_addr ≡ iov.phys + off)
      × (d.addr ≡ iov.base + off)
      × (d.mem_from_mbuf ≡ false)
      × (u ≡ v))
    ⊎ ((iov.phys ≡ 0)
        × ((m : Mbuf) × (((mem.alloc v).0 ≡ some m)
              × (d.phys_addr ≡ m.iova)
              × (d.addr ≡ m.addr)
              × (d.len ≤ m.tailroom)
              × (d.mem_from_mbuf ≡ true)
              × (d.pkt ≡ m.id)
              × (u ≡ mem.copy m.addr (iov.base + off) d.len (mem.alloc v).1))))

-- The same of one descriptor after the other.
unfoldable pub Held : {W : Type 0} → Memory W → Iov → ℕ → W → List Desc → W → Type 0
Held mem iov off v [] u = u ≡ v
Held {W} mem iov off v (d ∷ g) u =
    (x : W) × (Placed mem iov off v d x × Held mem iov (off + d.len) x g u)

Held-append :
    {W : Type 0} (mem : Memory W) (iov : Iov) (off : ℕ) (v x u : W) (g h : List Desc)
    → Held mem iov off v g x
    → Held mem iov (off + total (data_of g)) x h u
    → Held mem iov off v (g ++ h) u
unfolding Held total
Held-append mem iov off v x u [] h e k =
    subst (λ y. Held mem iov off y h u) e (subst (λ o. Held mem iov o x h u) (omega arith) k)
Held-append mem iov off v x u (d ∷ g) h (y, (p, r)) k = (
  y,
  (
    p,
    Held-append mem iov (off + d.len) y x u g h r
        (subst (λ o. Held mem iov o x h u) (omega arith) k),
  ),
)

-- The descriptors `g` hold the bytes of an iovec between two offsets.
pub record Part {W : Type 0} (mem : Memory W) (iov : Iov) (off off' : ℕ) (v : W) (g : List Desc)
    (u : W) : Type 0 where
  pub held : Held mem iov off v g u
  pub le : off ≤ off'
  pub inside : off' ≤ iov.len
  pub size : total (data_of g) ≡ off' - off
  pub holds : (stream (data_of g) ≡ run (iov.phys + off) (off' - off)) ⊎ (iov.phys ≡ 0)

-- The descriptors hold the bytes of iovecs, one after the other.
unfoldable pub Carries : {W : Type 0} → Memory W → List Iov → W → List Desc → W → Type 0
Carries mem [] v g u = (g ≡ []) × (u ≡ v)
Carries {W} mem (iov ∷ iovs) v g u =
    (h : List Desc) × ((r : List Desc) × ((x : W) × ((g ≡ h ++ r)
          × Part mem iov 0 iov.len v h x
          × Carries mem iovs x r u)))

unfoldable pub iov_total : List Iov → ℕ
iov_total [] = 0
iov_total (iov ∷ iovs) = iov.len + iov_total iovs

pub run-append : (a n m : ℕ) → run a (n + m) ≡ run a n ++ run (a + n) m
unfolding run
run-append a zero m = ap₂ run (omega arith) (omega arith)
run-append a (suc n) m =
    ap (run a) (let e : suc n + m ≡ suc (n + m) = omega arith in e)
    ∙ ap (λ t. a ∷ t) (run-append (a + 1) n m ∙ ap (λ t. run (a + 1) n ++ run t m) (omega arith))

pub Part-trans :
    {W : Type 0} (mem : Memory W) (iov : Iov) (a b c : ℕ) (v x u : W) (g h : List Desc)
    → Part mem iov a b v g x
    → Part mem iov b c x h u
    → Part mem iov a c v (g ++ h) u
Part-trans mem iov a b c v x u g h p q = record {
  held =
      Held-append mem iov a v x u g h p.held
        (subst (λ o. Held mem iov o x h u) (omega (arith, p.size, p.le)) q.held);
  le = omega (arith, p.le, q.le);
  inside = q.inside;
  size = omega (
    arith,
    p.size,
    q.size,
    p.le,
    q.le,
    ap total (map-append core g h),
    total-append (data_of g) (data_of h),
  );
  holds = elim p.holds [
    | inr z ↦ inr z
    | inl e ↦ elim q.holds [
      | inr z ↦ inr z
      | inl e' ↦ inl (
          ap stream (map-append core g h)
          ∙ stream-append (data_of g) (data_of h)
          ∙ ap₂ ◌++◌ e (e' ∙ ap (λ t. run t (c - b)) (omega (arith, p.le)))
          ∙ sym (run-append (iov.phys + a) (b - a) (c - b))
          ∙ ap (run (iov.phys + a)) (omega (arith, p.le, q.le)))
    ]
  ];
}

pub Carries-total :
    {W : Type 0} (mem : Memory W) (iovs : List Iov) (v : W) (g : List Desc) (u : W)
    → Carries mem iovs v g u
    → total (data_of g) ≡ iov_total iovs
unfolding Carries iov_total total
Carries-total mem [] v g u (e, same) = ap (λ t. total (data_of t)) e
Carries-total mem (iov ∷ iovs) v g u (h, (r, (x, (e, p, rest)))) = omega (
  arith,
  ap (λ t. total (data_of t)) e,
  ap total (map-append core h r),
  total-append (data_of h) (data_of r),
  p.size,
  Carries-total mem iovs x r u rest,
)
