-- ===== src/Tcp/Shed.antt =====
-- Dropping packets of the out-of-order queue when the worker holds too many mbufs
-- (src/tcp/tcp_input.c: tsock_drop_ooo_mbufs).
use libtpa.Base.{
  ℕ, zero, suc, ◌+◌, ◌-◌, ◌/◌, ◌<◌, ◌≤◌, ◌≡◌, ◌≢◌, ◌⊎◌, refl, sym, ap, ◌∙◌, some, none, List, [],
  ◌∷◌, ◌++◌, if◌then◌else◌, ◌==◌, max, arith, length, length-append, length-take, take,
  take-append_le, Bool-cases, inl, inr,
}
use libtpa.Tcp.Sock.{Seg, Tsock}
use libtpa.Tcp.Ooo.{split_last, forget_ooo_pkt}

-- The loop: drop the last packet `n` times.
unfoldable pub drop_last : ℕ → Tsock → Tsock
drop_last zero s = s
drop_last (suc n) s = elim (split_last s.rcv_ooo_queue) [
  | none ↦ drop_last n s
  | some (front, last) ↦ drop_last n (forget_ooo_pkt last (record s { rcv_ooo_queue = front }))
]

unfoldable pub tsock_drop_ooo_mbufs : Tsock → Tsock
tsock_drop_ooo_mbufs s = if s.nr_ooo_pkt == 0 then s else drop_last (max (s.nr_ooo_pkt / 4) 1) s

split_last_lem :
    (xs : List Seg)
    → ((split_last xs ≡ none) × (xs ≡ []))
      ⊎ ((front : List Seg) × ((last : Seg) × ((split_last xs ≡ some (front, last))
              × (xs ≡ front ++ (last ∷ [])))))
unfolding split_last
split_last_lem [] = inl (refl, refl)
split_last_lem (x ∷ xs) = elim (split_last_lem xs) [
  | inl (e, q) ↦ inr ([], (x, (rw e refl, ap (λ t. x ∷ t) q)))
  | inr (front, (last, (e, q))) ↦ inr (x ∷ front, (last, (rw e refl, ap (λ t. x ∷ t) q)))
]

-- The queue and its count after the loop.
record Shed (n : ℕ) (s t : Tsock) : Type 0 where
  kept : t.rcv_ooo_queue ≡ take (length s.rcv_ooo_queue - n) s.rcv_ooo_queue
  count : t.nr_ooo_pkt ≡ length s.rcv_ooo_queue - n

take_all : {A : Type 0} (xs : List A) → take (length xs) xs ≡ xs
take_all [] = refl
take_all (x ∷ xs) = ap (λ t. x ∷ t) (take_all xs)

none_left : {A : Type 0} (xs : List A) → length xs ≡ 0 → xs ≡ take 0 xs
none_left [] e = refl
none_left (x ∷ xs) e = absurd (omega (arith, e))

drop_last-Shed :
    (n : ℕ) (s : Tsock)
    → s.nr_ooo_pkt ≡ length s.rcv_ooo_queue
    → s.nr_ooo_pkt < 65536
    → n ≤ length s.rcv_ooo_queue
    → Shed n s (drop_last n s)
unfolding drop_last forget_ooo_pkt
drop_last-Shed zero s c b l = record {
  kept = sym (take_all s.rcv_ooo_queue) ∙ ap (λ k. take k s.rcv_ooo_queue) (omega arith);
  count = omega arith;
}
drop_last-Shed (suc n) s c b l = elim (split_last_lem s.rcv_ooo_queue) [
  | inl (e, q) ↦ absurd (omega (arith, ap length q))
  | inr (front, (last, (e, q))) ↦
      let s' = forget_ooo_pkt last (record s { rcv_ooo_queue = front }) in
      let len : length s.rcv_ooo_queue ≡ length front + 1 =
        ap length q ∙ length-append front (last ∷ []) in
      let rest =
        drop_last-Shed n s' (omega (arith, len)) (omega (arith, len)) (omega (arith, len)) in
      let fewer : length front - n ≡ length s.rcv_ooo_queue - suc n = omega (arith, len) in
      rw (e, drop_last)
        (record {
          kept =
              rest.kept
              ∙ sym (take-append_le (length front - n) front (last ∷ []) (omega arith))
              ∙ ap (take (length front - n)) (sym q)
              ∙ ap (λ k. take k s.rcv_ooo_queue) fewer;
          count = rest.count ∙ fewer;
        })
]

-- While `nr_ooo_pkt` is the number of packets in the out-of-order queue, dropping sheds a quarter of
-- them and at least one, always the last ones of the queue: the first ones stay, in order, and
-- `nr_ooo_pkt` is their number.
pub tsock_drop_ooo_mbufs-takes :
    (s : Tsock)
    → s.nr_ooo_pkt ≡ length s.rcv_ooo_queue
    → s.nr_ooo_pkt < 65536
    → let t = tsock_drop_ooo_mbufs s in
      let keep = s.nr_ooo_pkt - max (s.nr_ooo_pkt / 4) 1 in
      (t.rcv_ooo_queue ≡ take keep s.rcv_ooo_queue)
      × (t.nr_ooo_pkt ≡ keep)
      × (t.nr_ooo_pkt ≡ length t.rcv_ooo_queue)
unfolding tsock_drop_ooo_mbufs
tsock_drop_ooo_mbufs-takes s c b = elim (Bool-cases (s.nr_ooo_pkt == 0)) [
  | inl empty ↦
      let zero_pkt : s.nr_ooo_pkt ≡ 0 = ground (arith, empty) in
      let none_kept : 0 ≡ s.nr_ooo_pkt - max (s.nr_ooo_pkt / 4) 1 = omega (arith, zero_pkt) in
      rw (empty, tsock_drop_ooo_mbufs)
        (
          none_left s.rcv_ooo_queue (sym c ∙ zero_pkt) ∙ ap (λ k. take k s.rcv_ooo_queue) none_kept,
          omega (arith, zero_pkt),
          c,
        )
  | inr some_there ↦
      let nz : s.nr_ooo_pkt ≢ 0 = ground (arith, some_there) in
      let d = drop_last-Shed (max (s.nr_ooo_pkt / 4) 1) s c b (omega (arith, nz, c)) in
      rw (some_there, tsock_drop_ooo_mbufs)
        (
          d.kept ∙ ap (λ k. take (k - max (s.nr_ooo_pkt / 4) 1) s.rcv_ooo_queue) (sym c),
          d.count ∙ ap (λ k. k - max (s.nr_ooo_pkt / 4) 1) (sym c),
          omega (
            arith,
            d.count,
            ap length d.kept,
            length-take (length s.rcv_ooo_queue - max (s.nr_ooo_pkt / 4) 1) s.rcv_ooo_queue,
          ),
        )
]
