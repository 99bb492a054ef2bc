-- ===== src/Tcp/Timeout/Sacked.antt =====
-- After a retransmission timeout no descriptor is marked as SACKed (RFC 2018, page 6).
use libtpa.Base.{
  ℕ, zero, suc, ◌+◌, ◌%◌, ◌≤◌, ◌<◌, ◌≡◌, ◌≢◌, refl, sym, subst, ==_refl, ◌∙◌, false, Option, none,
  some, if◌then◌else◌, ltb, ◌==◌, arith, bit_and, u16, sub16, Bool-cases, Option-cases, inl, inr,
  ==_iff,
}
use libtpa.Ring.{update, mod_distinct}
use libtpa.TcpQueue.Txq.{Txq, peek_for_write}
use libtpa.TcpQueue.Txq.Inv.{IsValid, mask_lem}
use libtpa.Tcp.Sock.{Desc, Tsock}
use libtpa.Tcp.Timeout.{clear_loop, clear_sacked}

abbrev pub unsack : Option Desc → Option Desc
unsack none = none
unsack (some d) = some (record d { sacked = false })

-- Slots of two offsets within the queue differ.
slot_ne :
    (q : Txq Desc) (i j : ℕ)
    → IsValid q
    → i < sub16 q.write q.una
    → j < sub16 q.write q.una
    → i ≢ j
    → bit_and (q.una + i) q.mask ≢ bit_and (q.una + j) q.mask
slot_ne q i j v h k ne e = elim (Bool-cases (ltb i j)) [
  | inl l ↦
      mod_distinct q.size q.una i j (ground (arith, l)) (let z = v.write_in in omega arith) same
  | inr l ↦
      mod_distinct q.size q.una j i (ground (arith, l, ne)) (let z = v.write_in in omega arith)
        (sym same)
]
  where
    same : (q.una + i) % q.size ≡ (q.una + j) % q.size
    same = sym (mask_lem q v (q.una + i)) ∙ e ∙ mask_lem q v (q.una + j)

clear_step : (q : Txq Desc) (off : ℕ) (d : Desc) → Txq Desc
clear_step q off d = record q {
  descs = update q.descs (bit_and (q.una + off) q.mask) (record d { sacked = false });
}

clear_step-IsValid : (q : Txq Desc) (off : ℕ) (d : Desc) → IsValid q → IsValid (clear_step q off d)
unfolding clear_step
clear_step-IsValid q off d v = record {
  order = v.order;
  order_le = v.order_le;
  size_pow = v.size_pow;
  mask_eq = v.mask_eq;
  size_le = v.size_le;
  una_lt = v.una_lt;
  nxt_lt = v.nxt_lt;
  write_lt = v.write_lt;
  nxt_in = v.nxt_in;
  write_in = v.write_in;
}

-- A step changes the one descriptor.
step_peek :
    (q : Txq Desc) (off j : ℕ) (d : Desc)
    → IsValid q
    → peek_for_write q q.una off ≡ some d
    → peek_for_write (clear_step q off d) q.una j
      ≡ (if off == j then unsack (peek_for_write q q.una j) else peek_for_write q q.una j)
unfolding peek_for_write clear_step
step_peek q off j d v e = elim (Bool-cases (off == j)) [
  | inl l ↦
      subst
        (λ i.
          peek_for_write (clear_step q off d) q.una i
          ≡ (if off == i then unsack (peek_for_write q q.una i) else peek_for_write q q.una i))
        ((==_iff off j).0 l) here
  | inr l ↦ ground (arith, l, slot_ne q off j v, e)
]
  where
    here :
        peek_for_write (clear_step q off d) q.una off
        ≡ (if off == off then unsack (peek_for_write q q.una off) else peek_for_write q q.una off)
    here = ground (arith, e, ==_refl off, ==_refl (bit_and (q.una + off) q.mask))

past :
    (off j : ℕ) (q : Txq Desc)
    → sub16 q.write q.una ≤ off
    → peek_for_write q q.una j
      ≡ (if ltb j off then peek_for_write q q.una j else unsack (peek_for_write q q.una j))
unfolding peek_for_write
past off j q h = ground arith

none_past : (off : ℕ) (q : Txq Desc) → peek_for_write q q.una off ≡ none → sub16 q.write q.una ≤ off
unfolding peek_for_write
none_past off q e = ground (arith, e)

some_inside :
    (off : ℕ) (q : Txq Desc) (d : Desc)
    → peek_for_write q q.una off ≡ some d
    → off < sub16 q.write q.una
unfolding peek_for_write
some_inside off q d e = ground (arith, e)

one_more :
    (off j : ℕ) (x y : Option Desc)
    → x ≡ (if off == j then unsack y else y)
    → (if ltb j (off + 1) then x else unsack x) ≡ (if ltb j off then y else unsack y)
one_more off j x y e = ground (arith, e)

clear_loop-unsack :
    (n off : ℕ) (q : Txq Desc) (j : ℕ)
    → IsValid q
    → sub16 q.write q.una < n + off
    → peek_for_write (clear_loop n off q) q.una j
      ≡ (if ltb j off then peek_for_write q q.una j else unsack (peek_for_write q q.una j))
unfolding clear_loop clear_step
clear_loop-unsack zero off q j v h = past off j q (omega arith)
clear_loop-unsack (suc n) off q j v h = elim (Option-cases (peek_for_write q q.una off)) [
  | inl e ↦ rw (e, clear_loop) (past off j q (none_past off q e))
  | inr (d, e) ↦
      (let in_range = some_inside off q d e in
        let small = v.size_le in
        let write_in = v.write_in in
        let next : u16 (off + 1) ≡ off + 1 = omega arith in
        let rest =
          clear_loop-unsack n (off + 1) (clear_step q off d) j (clear_step-IsValid q off d v)
            (omega arith) in
        let step = step_peek q off j d v e in
        rw (e, clear_loop, next) (rest ∙ one_more off j _ _ step))
]

-- In a valid queue, a descriptor from `una` to `write` keeps all but its SACK mark, which is gone, and no
-- bytes are counted as SACKed.
pub clear_sacked-unsack :
    (s : Tsock) (j : ℕ)
    → IsValid s.txq
    → let t = clear_sacked s in
      (peek_for_write t.txq s.txq.una j ≡ unsack (peek_for_write s.txq s.txq.una j))
      × (t.sacked_bytes ≡ 0)
unfolding clear_sacked
clear_sacked-unsack s j v = (
  clear_loop-unsack (sub16 s.txq.write s.txq.una + 1) 0 s.txq j v (omega arith) ∙ ground arith,
  refl,
)
