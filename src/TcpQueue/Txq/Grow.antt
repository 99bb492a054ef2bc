-- ===== src/TcpQueue/Txq/Grow.antt =====
-- Packets that are put behind the end of the send queue one after the other, before the end is moved.
use libtpa.Base.{
  ℕ, zero, suc, ◌+◌, ◌≤◌, ◌≡◌, refl, sym, ap, ◌∙◌, List, [], ◌∷◌, ◌++◌, arith, length, drop, take,
  take-append_le, sub16, bit_and,
}
use libtpa.Ring.{take-window, window, update, drop-window, window-store_all, store_all}
use libtpa.TcpQueue.Txq.{Txq, copy_in}
use libtpa.TcpQueue.Txq.Inv.{IsValid}
use libtpa.TcpQueue.Txq.Refine.{
  span, unacked, unsent, extended, extended-appends, copy_in-eq-store_all, window_wrapped,
  length-unacked,
}

module _ {A : Type 0} where
  pub copy_in-append :
      (w m i : ℕ) (f : ℕ → A) (xs ys : List A)
      → copy_in w m i f (xs ++ ys) ≡ copy_in w m (i + length xs) (copy_in w m i f xs) ys
  unfolding copy_in
  copy_in-append w m i f [] ys = ap (λ j. copy_in w m j f ys) (omega arith)
  copy_in-append w m i f (x ∷ xs) ys =
      copy_in-append w m (i + 1) (update f (bit_and (w + i) m) x) xs ys
      ∙ ap (λ j. copy_in w m j (copy_in w m (i + 1) (update f (bit_and (w + i) m) x) xs) ys)
          (let e : i + 1 + length xs ≡ i + suc (length xs) = omega arith in e)

  pub drop_past : (xs ys : List A) (n : ℕ) → n ≤ length xs → drop n (xs ++ ys) ≡ drop n xs ++ ys
  drop_past xs ys zero h = refl
  drop_past [] ys (suc n) h = absurd (omega arith)
  drop_past (x ∷ xs) ys (suc n) h = drop_past xs ys n (omega arith)

  unsent-drop : (q : Txq A) → IsValid q → unsent q ≡ drop (sub16 q.nxt q.una) (unacked q)
  unfolding span
  unsent-drop q v = sym (
      drop-window q.descs q.size q.una (sub16 q.write q.una) (sub16 q.nxt q.una)
      ∙ window_wrapped q v (q.una + sub16 q.nxt q.una) q.nxt _ _ (omega arith) (omega arith))

  -- What waits to be sent grows by the packets.
  pub extended-unsent :
      (q : Txq A) (xs : List A)
      → IsValid q
      → IsValid (extended q xs)
      → sub16 q.write q.una + length xs ≤ q.size
      → unsent (extended q xs) ≡ unsent q ++ xs
  unfolding extended
  extended-unsent q xs v v' h =
      unsent-drop (extended q xs) v'
      ∙ ap (drop (sub16 q.nxt q.una)) (extended-appends q xs v h)
      ∙ drop_past (unacked q) xs (sub16 q.nxt q.una) (omega (arith, v.nxt_in, length-unacked q))
      ∙ ap (λ t. t ++ xs) (sym (unsent-drop q v))

  -- The packets are read back from the end on.
  pub extended-window :
      (q : Txq A) (xs : List A)
      → IsValid q
      → length xs ≤ q.size
      → window (copy_in q.write q.mask 0 q.descs xs) q.size q.write (length xs) ≡ xs
  extended-window q xs v h =
      ap (λ f. window f q.size q.write (length xs))
        (copy_in-eq-store_all q v 0 q.descs xs
          ∙ ap (λ b. store_all q.descs q.size b xs) (omega arith))
      ∙ window-store_all q.size q.descs q.write xs h

  -- Until the end is moved, the queue holds what it held.
  pub unmoved-unacked :
      (q : Txq A) (xs : List A)
      → IsValid q
      → sub16 q.write q.una + length xs ≤ q.size
      → unacked (record q { descs = copy_in q.write q.mask 0 q.descs xs }) ≡ unacked q
  unfolding span extended
  unmoved-unacked q xs v h =
      sym (
        take-window (extended q xs).descs q.size q.una (sub16 (extended q xs).write q.una)
          (sub16 q.write q.una) (omega (arith, h, v.size_le, v.write_lt, v.una_lt)))
      ∙ ap (take (sub16 q.write q.una)) (extended-appends q xs v h)
      ∙ take-append_le (sub16 q.write q.una) (unacked q) xs (omega (arith, length-unacked q))
      ∙ take-window q.descs q.size q.una (sub16 q.write q.una) (sub16 q.write q.una) (omega arith)
