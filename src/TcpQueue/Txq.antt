-- ===== src/TcpQueue/Txq.antt =====
-- `struct tcp_txq` and its operations (include/tcp_queue.h): the send queue, a ring with three
-- free-running uint16_t indices. A function that updates `*txq` returns the new queue. The result 0 of
-- an enqueue is `true` and -1 is `false`; a NULL result of a peek is `none`. `debug_assert` is
-- empty in a release build and is left out; `assert` aborts, which is `none`.
pub mod Inv
pub mod Refine
pub mod Grow
use libtpa.Base.{
  ℕ, ◌+◌, ◌-◌, Bool, true, false, Option, some, none, List, if◌then◌else◌, ltb, leb, ◌==◌, length,
  bit_and, u16, sub16,
}
use libtpa.Ring.{update}

pub record Txq (A : Type 0) : Type 0 where
  pub una : ℕ  -- uint16_t
  pub nxt : ℕ  -- uint16_t
  pub write : ℕ  -- uint16_t
  pub size : ℕ  -- uint16_t
  pub mask : ℕ  -- uint16_t
  pub descs : ℕ → A

module _ {A : Type 0} where
  -- `descs` is allocated by the caller.
  pub init : (ℕ → A) → ℕ → Option (Txq A)
  init descs size =
      if bit_and size (sub16 size 1) == 0
      then some
          (record { una = 0; nxt = 0; write = 0; size = size; mask = sub16 size 1; descs = descs })
      else none

  unfoldable pub inflight_pkts : Txq A → ℕ
  inflight_pkts q = sub16 q.nxt q.una

  unfoldable pub to_send_pkts : Txq A → ℕ
  to_send_pkts q = sub16 q.write q.nxt

  -- An int: the sum does not wrap.
  unfoldable pub unfinished_pkts : Txq A → ℕ
  unfolding inflight_pkts to_send_pkts
  unfinished_pkts q = inflight_pkts q + to_send_pkts q

  unfoldable pub free_count : Txq A → ℕ
  unfolding unfinished_pkts
  free_count q = sub16 q.size (unfinished_pkts q)

  -- The loop of the enqueue: slot `(write + i) & mask` gets `descs[i]`.
  unfoldable pub copy_in : ℕ → ℕ → ℕ → (ℕ → A) → List A → ℕ → A
  copy_in write mask i slots List.[] = slots
  copy_in write mask i slots (List.◌∷◌ x xs) =
      copy_in write mask (i + 1) (update slots (bit_and (write + i) mask) x) xs

  pub enqueue_bulk : Txq A → List A → Bool × Txq A
  enqueue_bulk q xs =
      if ltb q.size (u16 (q.write + length xs + 65536 - q.una)) then (false, q) else (
        true,
        record q { descs = copy_in q.write q.mask 0 q.descs xs; write = u16 (q.write + length xs) },
      )

  pub peek_una_before_nxt : Txq A → ℕ → Option A
  peek_una_before_nxt q off =
      if leb (sub16 q.nxt q.una) off then none else some (q.descs (bit_and (q.una + off) q.mask))

  -- `base` may be any index from `una` to `write`.
  unfoldable pub peek_for_write : Txq A → ℕ → ℕ → Option A
  peek_for_write q base off =
      if leb (sub16 q.write base) off then none else some (q.descs (bit_and (base + off) q.mask))

  -- TCP_TXQ_PEEK(una, write) and TCP_TXQ_PEEK(nxt, write)
  pub peek_una : Txq A → ℕ → Option A
  peek_una q off =
      if leb (sub16 q.write q.una) off then none else some (q.descs (bit_and (q.una + off) q.mask))

  pub peek_nxt : Txq A → ℕ → Option A
  peek_nxt q off =
      if leb (sub16 q.write q.nxt) off then none else some (q.descs (bit_and (q.nxt + off) q.mask))

  -- TCP_TXQ_UPDATE(una, write) and TCP_TXQ_UPDATE(nxt, write)
  pub update_una : Txq A → ℕ → Txq A
  update_una q count = record q { una = u16 (q.una + count) }

  unfoldable pub update_nxt : Txq A → ℕ → Txq A
  update_nxt q count = record q { nxt = u16 (q.nxt + count) }
