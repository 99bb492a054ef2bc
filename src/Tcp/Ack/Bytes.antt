-- ===== src/Tcp/Ack/Bytes.antt =====
-- ack_sent_data accounts for every byte: the send queue loses exactly the descriptors that are acknowledged
-- to their ends.
use libtpa.Base.{
  ℕ, ◌+◌, ◌<◌, ◌≤◌, ◌≡◌, refl, sym, ap, ◌∙◌, subst, ltb, ◌==◌, arith, length, drop, u16, u32, sub16,
  Bool-cases, inl, inr,
}
use libtpa.TcpQueue.Txq
use libtpa.TcpQueue.Txq.{Txq}
use libtpa.TcpQueue.Txq.Inv.{IsValid, unfinished_lem, update_una-IsValid}
use libtpa.TcpQueue.Txq.Refine.{unacked, length-unacked, unacked-set_nxt, update_una-drops}
use libtpa.Tcp.Sock.{Desc, Tsock, Worker, event_add}
use libtpa.Tcp.Ack.{AckRun, ack_start, advance_txq, after_ack, ack_sent_data}
use libtpa.Tcp.Ack.Loop.{total, HaveData, IsInside, run_list-Acked, ack_loop-run_list}

-- The queue after the acknowledgement of `k` descriptors.
advance-drops :
    (q : Txq Desc) (k : ℕ)
    → IsValid q
    → k ≤ length (unacked q)
    → (unacked (advance_txq k q) ≡ drop k (unacked q)) × IsValid (advance_txq k q)
unfolding advance_txq
advance-drops q k v l = elim (Bool-cases (ltb (sub16 q.nxt q.una) k)) [
  | inr within ↦ rw within (
    (update_una-drops q k v (ground (arith, within))).0,
    update_una-IsValid q k v (ground (arith, within)),
  )
  | inl beyond ↦
      let q' = record q { nxt = u16 (q.una + k) } in
      let len = length-unacked q in
      let v' : IsValid q' = record {
        order = v.order;
        order_le = v.order_le;
        size_pow = v.size_pow;
        mask_eq = v.mask_eq;
        size_le = v.size_le;
        una_lt = v.una_lt;
        nxt_lt = omega arith;
        write_lt = v.write_lt;
        nxt_in = omega (arith, len);
        write_in = v.write_in;
      } in
      let room : k ≤ sub16 q'.nxt q'.una = omega (arith, len) in
      rw beyond (
        (update_una-drops q' k v' room).0 ∙ ap (drop k) (unacked-set_nxt q (u16 (q.una + k))),
        update_una-IsValid q' k v' room,
      )
]

-- What an acknowledgement of `n` bytes does to the socket `s`, to give `t`.
pub record Advanced (n : ℕ) (s t : Tsock) : Type 0 where
  pub una : t.snd_una ≡ u32 (s.snd_una + n)
  pub count : ℕ
  pub drops : unacked t.txq ≡ drop count (unacked s.txq)
  pub bytes : total (unacked t.txq) + n + s.partial_ack ≡ total (unacked s.txq) + t.partial_ack
  pub inside : IsInside t.partial_ack (unacked t.txq)
  pub valid : IsValid t.txq

-- Data that waits for its acknowledgement: each descriptor has bytes, and fewer than 2^31 in all, and the
-- first of them is acknowledged in part at most.
pub record Sending (s : Tsock) : Type 0 where
  pub valid : IsValid s.txq
  pub have : HaveData (unacked s.txq)
  pub small : total (unacked s.txq) < 2147483648
  pub inside : IsInside s.partial_ack (unacked s.txq)
  pub una_lt : s.snd_una < 4294967296

-- What the loop has done, for the queue.
record Counted (n : ℕ) (s : Tsock) (r : AckRun) : Type 0 where
  valid : IsValid s.txq
  nr_le : r.nr ≤ length (unacked s.txq)
  una : r.una ≡ u32 (s.snd_una + n)
  bytes : total (drop r.nr (unacked s.txq)) + n + s.partial_ack ≡ total (unacked s.txq) + r.partial
  inside : IsInside r.partial (drop r.nr (unacked s.txq))

Counted-Advanced :
    (n : ℕ) (s t : Tsock) (r : AckRun)
    → Counted n s r
    → t.snd_una ≡ r.una
    → t.partial_ack ≡ r.partial
    → t.txq ≡ advance_txq r.nr s.txq
    → Advanced n s t
Counted-Advanced n s t r c u p q =
    let (drops, valid) = advance-drops s.txq r.nr c.valid c.nr_le in
    let d = ap unacked q ∙ drops in
    record {
      una = u ∙ c.una;
      count = r.nr;
      drops = d;
      bytes = rw (d, p) c.bytes;
      inside = rw (d, p) c.inside;
      valid = rw q valid;
    }

after_ack-Advanced : (n : ℕ) (s : Tsock) (r : AckRun) → Counted n s r → Advanced n s (after_ack r s)
unfolding after_ack event_add
after_ack-Advanced n s r c = elim (Bool-cases (Txq.free_count (advance_txq r.nr s.txq) == 0)) [
  | inl full ↦ rw full (Counted-Advanced n s _ r c refl refl refl)
  | inr room ↦ rw room (Counted-Advanced n s _ r c refl refl refl)
]

-- For data of fewer than 2^31 bytes in a valid queue, an acknowledgement of `n` bytes, at least one and no
-- more than are outstanding, ends within the descriptors. It moves `snd_una` up by exactly `n`, drops
-- exactly the descriptors that end there or before, in order, keeps count of the rest of the `n` bytes as the
-- part of the first one left, and leaves a valid queue.
pub ack_sent_data-Advanced :
    (w : Worker) (n : ℕ) (s : Tsock)
    → Sending s
    → 0 < n
    → n + s.partial_ack ≤ total (unacked s.txq)
    → Advanced n s (ack_sent_data w n s).1
unfolding ack_sent_data
ack_sent_data-Advanced w n s h pos le =
    let r = ack_start n s in
    let ds = unacked s.txq in
    let v = h.valid in
    let len : length ds < 65536 = omega (arith, length-unacked s.txq) in
    let a = run_list-Acked w.ts_us ds r h.have h.small h.inside pos le h.una_lt (omega arith) in
    let fuel = unfinished_lem s.txq v ∙ sym (length-unacked s.txq) in
    let ran =
      ack_loop-run_list s.txq v w.ts_us (Txq.unfinished_pkts s.txq + 1) r (omega (arith, fuel))
        (omega arith) len in
    let nr : a.count ≡ a.run.nr = omega (arith, a.nr, a.count_le) in
    let c : Counted n s a.run = record {
      valid = v;
      nr_le = omega (arith, nr, a.count_le);
      una = a.una;
      bytes =
          subst (λ k. total (drop k ds) + n + s.partial_ack ≡ total ds + a.run.partial) nr a.bytes;
      inside = subst (λ k. IsInside a.run.partial (drop k ds)) nr a.inside;
    } in
    rw (ran ∙ a.ends, ack_sent_data) (after_ack-Advanced n s a.run c)
