-- ===== src/Tcp/Xmit/Cores.antt =====
-- The send queue as its cores: what setting the flags and times of descriptors leaves alone.
use libtpa.Base.{
  ℕ, ◌+◌, ◌<◌, ◌≡◌, refl, sym, ap, ◌∙◌, Option, some, none, List, ◌==◌, arith, length, get_elem?,
  sub16, bit_and, ==_iff, ==_refl, Bool-cases, inl, inr,
}
use mathlib.Core.Path.{fun_ext}
use libtpa.Ring.{window, get_elem?-window, length-window}
use libtpa.TcpQueue.Txq.{Txq, peek_for_write}
use libtpa.TcpQueue.Txq.Inv.{IsValid, mask_lem}
use libtpa.Tcp.Sock.{Desc}
use libtpa.Tcp.Xmit.{set_desc}
use libtpa.Tcp.Xmit.Stream.{Core, core}

abbrev pub slot_cores : Txq Desc → ℕ → Core
slot_cores q i = core (q.descs i)

-- The cores from the index `base` to the end of the queue.
unfoldable pub cores : Txq Desc → ℕ → List Core
cores q base = window (slot_cores q) q.size base (sub16 q.write base)

-- Two queues that differ in flags and times of their descriptors only.
pub record SameData (p q : Txq Desc) : Type 0 where
  pub una : q.una ≡ p.una
  pub nxt : q.nxt ≡ p.nxt
  pub write : q.write ≡ p.write
  pub size : q.size ≡ p.size
  pub mask : q.mask ≡ p.mask
  pub slots : (i : ℕ) → slot_cores q i ≡ slot_cores p i

pub SameData-refl : (q : Txq Desc) → SameData q q
SameData-refl q = record {
  una = refl;
  nxt = refl;
  write = refl;
  size = refl;
  mask = refl;
  slots = λ i. refl;
}

pub SameData-trans : (p q r : Txq Desc) → SameData p q → SameData q r → SameData p r
SameData-trans p q r a b = record {
  una = b.una ∙ a.una;
  nxt = b.nxt ∙ a.nxt;
  write = b.write ∙ a.write;
  size = b.size ∙ a.size;
  mask = b.mask ∙ a.mask;
  slots = λ i. b.slots i ∙ a.slots i;
}

pub SameData-cores : (p q : Txq Desc) (base : ℕ) → SameData p q → cores q base ≡ cores p base
unfolding cores
SameData-cores p q base h =
    ap (λ f. window f q.size base (sub16 q.write base)) (fun_ext h.slots)
    ∙ ap (λ m. window (slot_cores p) m base (sub16 q.write base)) h.size
    ∙ ap (λ e. window (slot_cores p) p.size base (sub16 e base)) h.write

pub SameData-IsValid : (p q : Txq Desc) → SameData p q → IsValid p → IsValid q
SameData-IsValid p q h v = record {
  order = v.order;
  order_le = v.order_le;
  size_pow = h.size ∙ v.size_pow;
  mask_eq = omega (arith, h.mask, h.size, v.mask_eq);
  size_le = omega (arith, h.size, v.size_le);
  una_lt = omega (arith, h.una, v.una_lt);
  nxt_lt = omega (arith, h.nxt, v.nxt_lt);
  write_lt = omega (arith, h.write, v.write_lt);
  nxt_in = omega (arith, h.una, h.nxt, h.write, v.nxt_in);
  write_in = omega (arith, h.una, h.size, h.write, v.write_in);
}

peeked :
    (q : Txq Desc) (base off : ℕ) (d : Desc)
    → peek_for_write q base off ≡ some d
    → (q.descs (bit_and (base + off) q.mask) ≡ d) × (off < sub16 q.write base)
unfolding peek_for_write
peeked q base off d e = ground (arith, e)

-- A peek reads the list of the cores.
pub peek-cores :
    (q : Txq Desc) (base off : ℕ)
    → IsValid q
    → get_elem? (cores q base) off ≡ elim (peek_for_write q base off) as (λ x. Option Core) [
      | none ↦ none
      | some d ↦ some (core d)
    ]
unfolding peek_for_write cores
peek-cores q base off v = ground (
  arith,
  get_elem?-window (slot_cores q) q.size base (sub16 q.write base) off,
  ap (slot_cores q) (mask_lem q v (base + off)),
)

pub set_desc-SameData :
    (q : Txq Desc) (base off : ℕ) (d d' : Desc)
    → peek_for_write q base off ≡ some d
    → core d' ≡ core d
    → SameData q (set_desc q base off d')
unfolding set_desc
set_desc-SameData q base off d d' e same = record {
  una = refl;
  nxt = refl;
  write = refl;
  size = refl;
  mask = refl;
  slots = λ i. elim (Bool-cases (bit_and (base + off) q.mask == i)) [
    | inl at ↦ rw at (
        same
        ∙ ap core (
            sym (peeked q base off d e).0
            ∙ ap q.descs ((==_iff (bit_and (base + off) q.mask) i).0 at)))
    | inr other ↦ rw other
  ];
}

-- The descriptor that is set is read back.
pub peek-set_desc :
    (q : Txq Desc) (base off : ℕ) (d d' : Desc)
    → peek_for_write q base off ≡ some d
    → peek_for_write (set_desc q base off d') base off ≡ some d'
unfolding peek_for_write set_desc
peek-set_desc q base off d d' e = ground (arith, e, ==_refl (bit_and (base + off) q.mask))

pub length-cores : (q : Txq Desc) (base : ℕ) → length (cores q base) ≡ sub16 q.write base
unfolding cores
length-cores q base = length-window (slot_cores q) q.size base (sub16 q.write base)
