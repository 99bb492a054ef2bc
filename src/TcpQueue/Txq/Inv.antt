-- ===== src/TcpQueue/Txq/Inv.antt =====
-- The invariant of the send queue, una ≤ nxt ≤ write in turning order and at most `size` slots in
-- use, and that the operations keep it.
use libtpa.Base.{ℕ, ◌+◌, ◌-◌, ◌%◌, ◌^◌, ◌≤◌, ◌<◌, ◌≡◌, arith, u16, sub16, ap, ◌∙◌, bit_and}
use libtpa.Base.Mask.{bit_and_mask}
use libtpa.Ring.{mod-mod_pow}
use libtpa.TcpQueue.Txq.{Txq, update_una, update_nxt, free_count, unfinished_pkts}

-- The size is a power of two below 2^16, as the initialisation asserts.
pub record IsValid {A : Type 0} (q : Txq A) : Type 0 where
  pub order : ℕ
  pub order_le : order ≤ 15
  pub size_pow : q.size ≡ 2 ^ order
  pub mask_eq : q.mask ≡ q.size - 1
  pub size_le : q.size ≤ 32768
  pub una_lt : q.una < 65536
  pub nxt_lt : q.nxt < 65536
  pub write_lt : q.write < 65536
  pub nxt_in : sub16 q.nxt q.una ≤ sub16 q.write q.una
  pub write_in : sub16 q.write q.una ≤ q.size

module _ {A : Type 0} where
  -- A masked index is the index modulo the size.
  pub mask_lem : (q : Txq A) (v : IsValid q) (i : ℕ) → bit_and i q.mask ≡ i % q.size
  mask_lem q v i =
      ap (bit_and i) (v.mask_eq ∙ ap (λ t. t - 1) v.size_pow)
      ∙ bit_and_mask v.order i
      ∙ ap (λ t. i % t) (let e : 2 ^ v.order ≡ q.size = omega (arith, v.size_pow) in e)

  -- Wrapping at 2^16 does not change the slot.
  pub mod-u16 : (q : Txq A) (v : IsValid q) (i : ℕ) → u16 i % q.size ≡ i % q.size
  mod-u16 q v i =
      ap (λ t. u16 i % t) v.size_pow
      ∙ mod-mod_pow i v.order 16 (omega (arith, v.order_le))
      ∙ ap (λ t. i % t) (let e : 2 ^ v.order ≡ q.size = omega (arith, v.size_pow) in e)

  -- Sending up to all unsent packets keeps the queue valid.
  pub update_nxt-IsValid :
      (q : Txq A) (n : ℕ) → IsValid q → n ≤ sub16 q.write q.nxt → IsValid (update_nxt q n)
  unfolding update_nxt
  update_nxt-IsValid q n v h = record {
    order = v.order;
    order_le = v.order_le;
    size_pow = v.size_pow;
    mask_eq = v.mask_eq;
    size_le = v.size_le;
    una_lt = v.una_lt;
    nxt_lt = omega arith;
    write_lt = v.write_lt;
    nxt_in = omega arith;
    write_in = v.write_in;
  }

  pub update_una-IsValid :
      (q : Txq A) (n : ℕ) → IsValid q → n ≤ sub16 q.nxt q.una → IsValid (update_una q n)
  unfolding update_una
  update_una-IsValid q n v h = record {
    order = v.order;
    order_le = v.order_le;
    size_pow = v.size_pow;
    mask_eq = v.mask_eq;
    size_le = v.size_le;
    una_lt = omega arith;
    nxt_lt = v.nxt_lt;
    write_lt = v.write_lt;
    nxt_in = omega arith;
    write_in = omega arith;
  }

  -- In a valid queue the free count makes up the size with the packets in use.
  pub free_count_lem : (q : Txq A) → IsValid q → free_count q + sub16 q.write q.una ≡ q.size
  unfolding free_count
  free_count_lem q v = omega arith

  -- The unfinished packets of a valid queue are all between `una` and `write`.
  pub unfinished_lem : (q : Txq A) → IsValid q → unfinished_pkts q ≡ sub16 q.write q.una
  unfolding unfinished_pkts
  unfinished_lem q v = omega arith
