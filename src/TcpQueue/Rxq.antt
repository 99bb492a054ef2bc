-- ===== src/TcpQueue/Rxq.antt =====
-- `struct tcp_rxq` and its operations (include/tcp_queue.h): the receive queue of packets, or of
-- accepted sockets at a listener. `rte_smp_wmb` orders stores between threads and has no effect here.
pub mod Refine
use libtpa.Base.{
  ℕ, ◌+◌, min, Option, some, none, List, [], ◌∷◌, if◌then◌else◌, leb, ◌==◌, length, take, bit_and,
  u16, sub16, zero, suc,
}
use libtpa.Ring.{update}

pub record Rxq (A : Type 0) : Type 0 where
  pub unread : ℕ  -- uint16_t, the tail
  pub max : ℕ  -- uint16_t, the head
  pub size : ℕ  -- uint16_t
  pub mask : ℕ  -- uint16_t
  pub objs : ℕ → A

module _ {A : Type 0} where
  pub init : (ℕ → A) → ℕ → Option (Rxq A)
  init objs size =
      if bit_and size (sub16 size 1) == 0
      then some (record { unread = 0; max = 0; size = size; mask = sub16 size 1; objs = objs })
      else none

  pub readable_count : Rxq A → ℕ
  readable_count q = sub16 q.max q.unread

  pub free_count : Rxq A → ℕ
  unfolding readable_count
  free_count q = sub16 q.size (readable_count q)

  -- The loop of the enqueue, over the objects that it takes.
  pub copy_in : ℕ → ℕ → ℕ → (ℕ → A) → List A → ℕ → A
  copy_in max mask i slots [] = slots
  copy_in max mask i slots (x ∷ xs) =
      copy_in max mask (i + 1) (update slots (bit_and (max + i) mask) x) xs

  -- Enqueues as many as fit; returns their number.
  pub enqueue_burst : Rxq A → List A → ℕ × Rxq A
  unfolding free_count
  enqueue_burst q xs =
      let n = min (free_count q) (length xs) in
      (n, record q { objs = copy_in q.max q.mask 0 q.objs (take n xs); max = u16 (q.max + n) })

  -- The loop of the dequeue: the `n` objects from index `unread + i` on.
  pub copy_out : Rxq A → ℕ → ℕ → List A
  copy_out q i zero = []
  copy_out q i (suc n) = q.objs (bit_and (q.unread + i) q.mask) ∷ copy_out q (i + 1) n

  -- The objects handed out are as many as the result says.
  pub dequeue_burst : Rxq A → ℕ → List A × Rxq A
  unfolding readable_count
  dequeue_burst q nr =
      let n = min (readable_count q) nr in
      (copy_out q 0 n, record q { unread = u16 (q.unread + n) })

  pub peek_unread : Rxq A → ℕ → Option A
  peek_unread q off =
      if leb (sub16 q.max q.unread) off
      then none
      else some (q.objs (bit_and (q.unread + off) q.mask))

  pub update_unread : Rxq A → ℕ → Rxq A
  update_unread q count = record q { unread = u16 (q.unread + count) }
