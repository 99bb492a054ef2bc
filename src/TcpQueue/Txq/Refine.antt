-- ===== src/TcpQueue/Txq/Refine.antt =====
-- The send queue against the list of descriptors that it holds, oldest first.
use libtpa.Base.{
  ℕ, ◌+◌, ◌%◌, ◌≤◌, ◌<◌, ◌≡◌, refl, sym, ap, ap₂, ◌∙◌, List, [], ◌∷◌, ◌++◌, true, false, some, none,
  if◌then◌else◌, leb, arith, length, take, drop, take-append_le, get_elem?, u16, sub16, bit_and,
}
use native.Mathlib.Decide.{dec_le}
use libtpa.Ring.{
  window, store_all, update, length-window, window-mod, window-append, get_elem?-window,
  drop-window, take-window, window-store_all_append, store_all-mod,
}
use libtpa.TcpQueue.Txq.{
  Txq, copy_in, enqueue_bulk, peek_una, peek_nxt, peek_una_before_nxt, update_una,
}
use libtpa.TcpQueue.Txq.Inv.{IsValid, mask_lem, mod-u16}

module _ {A : Type 0} where
  -- The descriptors from the free-running index `b` up to the index `e`.
  unfoldable pub span : Txq A → ℕ → ℕ → List A
  span q b e = window q.descs q.size b (sub16 e b)

  abbrev pub unacked : Txq A → List A
  unacked q = span q q.una q.write

  abbrev pub inflight : Txq A → List A
  inflight q = span q q.una q.nxt

  abbrev pub unsent : Txq A → List A
  unsent q = span q q.nxt q.write

  -- Wrapping an index at 2^16 leaves the window where it was.
  pub window_wrapped :
      (q : Txq A) (v : IsValid q) (b c n k : ℕ)
      → u16 b ≡ c
      → n ≡ k
      → window q.descs q.size b n ≡ window q.descs q.size c k
  window_wrapped q v b c n k e l =
      window-mod q.descs q.size b c n (sym (mod-u16 q v b) ∙ ap (λ t. t % q.size) e)
      ∙ ap (window q.descs q.size c) l

  pub copy_in-eq-store_all :
      (q : Txq A) (v : IsValid q) (i : ℕ) (slots : ℕ → A) (xs : List A)
      → copy_in q.write q.mask i slots xs ≡ store_all slots q.size (q.write + i) xs
  unfolding copy_in store_all
  copy_in-eq-store_all q v i slots [] = refl
  copy_in-eq-store_all q v i slots (x ∷ xs) =
      copy_in-eq-store_all q v (i + 1) (update slots (bit_and (q.write + i) q.mask) x) xs
      ∙ ap₂ (λ s b. store_all (update slots s x) q.size b xs) (mask_lem q v (q.write + i))
          (let e : q.write + (i + 1) ≡ q.write + i + 1 = omega arith in e)

  -- The queue splits at `nxt` into what is in flight and what is still to send.
  pub inflight-append-unsent : (q : Txq A) → IsValid q → inflight q ++ unsent q ≡ unacked q
  unfolding span
  inflight-append-unsent q v =
      ap (λ t. inflight q ++ t)
        (sym (window_wrapped q v (q.una + sub16 q.nxt q.una) q.nxt _ _ (omega arith) refl))
      ∙ sym (window-append q.descs q.size q.una (sub16 q.nxt q.una) (sub16 q.write q.nxt))
      ∙ ap (window q.descs q.size q.una) (omega arith)

  peek_lem :
      (q : Txq A) (v : IsValid q) (b e off : ℕ)
      → (if leb (sub16 e b) off then none else some (q.descs (bit_and (b + off) q.mask)))
        ≡ get_elem? (span q b e) off
  unfolding span
  peek_lem q v b e off = ground (
    arith,
    get_elem?-window q.descs q.size b (sub16 e b) off,
    ap q.descs (mask_lem q v (b + off)),
  )

  -- Each peek reads the list that it names, and returns NULL exactly past its end.
  pub peeks_read :
      (q : Txq A) (off : ℕ)
      → IsValid q
      → (peek_una q off ≡ get_elem? (unacked q) off)
        × (peek_nxt q off ≡ get_elem? (unsent q) off)
        × (peek_una_before_nxt q off ≡ get_elem? (inflight q) off)
  unfolding peek_una peek_nxt peek_una_before_nxt
  peeks_read q off v =
      (peek_lem q v q.una q.write off, peek_lem q v q.nxt q.write off, peek_lem q v q.una q.nxt off)

  -- Acknowledging `n` packets drops the `n` oldest descriptors and leaves the unsent ones.
  pub update_una-drops :
      (q : Txq A) (n : ℕ)
      → IsValid q
      → n ≤ sub16 q.nxt q.una
      → (unacked (update_una q n) ≡ drop n (unacked q))
        × (inflight (update_una q n) ≡ drop n (inflight q))
        × (unsent (update_una q n) ≡ unsent q)
  unfolding update_una span
  update_una-drops q n v h = (
    sym (
        drop-window q.descs q.size q.una (sub16 q.write q.una) n
        ∙ window_wrapped q v (q.una + n) (u16 (q.una + n)) _ _ refl (omega arith)),
    sym (
        drop-window q.descs q.size q.una (sub16 q.nxt q.una) n
        ∙ window_wrapped q v (q.una + n) (u16 (q.una + n)) _ _ refl (omega arith)),
    refl,
  )

  -- The queue after a successful enqueue.
  unfoldable pub extended : Txq A → List A → Txq A
  extended q xs = record q {
    descs = copy_in q.write q.mask 0 q.descs xs;
    write = u16 (q.write + length xs);
  }

  pub extended-IsValid :
      (q : Txq A) (xs : List A)
      → IsValid q
      → sub16 q.write q.una + length xs ≤ q.size
      → IsValid (extended q xs)
  unfolding extended
  extended-IsValid q xs v h = record {
    order = v.order;
    order_le = v.order_le;
    size_pow = v.size_pow;
    mask_eq = v.mask_eq;
    size_le = v.size_le;
    una_lt = v.una_lt;
    nxt_lt = v.nxt_lt;
    write_lt = omega arith;
    nxt_in = omega arith;
    write_in = omega arith;
  }

  pub extended-appends :
      (q : Txq A) (xs : List A)
      → IsValid q
      → sub16 q.write q.una + length xs ≤ q.size
      → unacked (extended q xs) ≡ unacked q ++ xs
  unfolding extended span
  extended-appends q xs v h =
      ap₂ (λ f n. window f q.size q.una n)
        (copy_in-eq-store_all q v 0 q.descs xs
          ∙ store_all-mod q.size q.descs (q.write + 0) (q.una + sub16 q.write q.una) xs
              (ap (λ t. t % q.size) turned ∙ mod-u16 q v (q.una + sub16 q.write q.una)))
        (omega arith)
      ∙ window-store_all_append q.size q.descs q.una (sub16 q.write q.una) xs h
    where
      turned : q.write + 0 ≡ u16 (q.una + sub16 q.write q.una)
      turned = omega arith

  extended-inflight :
      (q : Txq A) (xs : List A)
      → IsValid q
      → sub16 q.write q.una + length xs ≤ q.size
      → inflight (extended q xs) ≡ inflight q
  unfolding extended span
  extended-inflight q xs v h =
      sym (
        take-window (extended q xs).descs q.size q.una (sub16 (extended q xs).write q.una)
          (sub16 q.nxt q.una) (omega arith))
      ∙ ap (take (sub16 q.nxt q.una)) (extended-appends q xs v h)
      ∙ take-append_le (sub16 q.nxt q.una) (unacked q) xs
          (omega (arith, length-window q.descs q.size q.una (sub16 q.write q.una)))
      ∙ take-window q.descs q.size q.una (sub16 q.write q.una) (sub16 q.nxt q.una) (omega arith)

  -- What is held does not depend on `nxt`.
  pub unacked-set_nxt : (q : Txq A) (n : ℕ) → unacked (record q { nxt = n }) ≡ unacked q
  unfolding span
  unacked-set_nxt q n = refl

  pub length-unacked : (q : Txq A) → length (unacked q) ≡ sub16 q.write q.una
  unfolding span
  length-unacked q = length-window q.descs q.size q.una (sub16 q.write q.una)

  enqueue_fits :
      (q : Txq A) (xs : List A)
      → IsValid q
      → sub16 q.write q.una + length xs ≤ q.size
      → enqueue_bulk q xs ≡ (true, extended q xs)
  unfolding enqueue_bulk extended
  enqueue_fits q xs v h = ground arith

  enqueue_full :
      (q : Txq A) (xs : List A)
      → IsValid q
      → length xs < 32768
      → q.size < sub16 q.write q.una + length xs
      → enqueue_bulk q xs ≡ (false, q)
  unfolding enqueue_bulk
  enqueue_full q xs v l h = ground arith

  -- An enqueue of a batch below 2^15 packets succeeds exactly when the batch fits beside the unacknowledged
  -- packets. It then appends the whole batch, in order; otherwise it adds nothing. What is in flight
  -- does not change, and the queue stays valid.
  pub enqueue_bulk-appends :
      (q : Txq A) (xs : List A)
      → IsValid q
      → length xs < 32768
      → let (done, q') = enqueue_bulk q xs in
        (done ≡ leb (length (unacked q) + length xs) q.size)
        × (unacked q' ≡ (if done then unacked q ++ xs else unacked q))
        × (inflight q' ≡ inflight q)
        × IsValid q'
  enqueue_bulk-appends q xs v h = elim (dec_le (sub16 q.write q.una + length xs) q.size) [
    | yes fits ↦ rw (enqueue_fits q xs v fits) (
      ground (arith, length-unacked q),
      extended-appends q xs v fits,
      extended-inflight q xs v fits,
      extended-IsValid q xs v fits,
    )
    | no full ↦
        rw (enqueue_full q xs v h (omega arith)) (ground (arith, length-unacked q), refl, refl, v)
  ]
