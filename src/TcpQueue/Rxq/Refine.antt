-- ===== src/TcpQueue/Rxq/Refine.antt =====
-- The receive queue against the list of objects that it holds, oldest first.
use libtpa.Base.{
  ℕ, zero, suc, ◌+◌, ◌-◌, ◌%◌, ◌^◌, ◌≤◌, ◌<◌, ◌≡◌, min, refl, sym, ap, ap₂, ◌∙◌, subst, List, [],
  ◌∷◌, ◌++◌, arith, length, take, drop, get_elem?, length-take, u16, sub16, bit_and,
}
use libtpa.Base.Mask.{bit_and_mask}
use libtpa.Ring.{
  window, store_all, update, length-window, window-mod, get_elem?-window, drop-window, take-window,
  window-store_all_append, store_all-mod, mod-mod_pow,
}
use libtpa.TcpQueue.Rxq.{
  Rxq, copy_in, copy_out, enqueue_burst, dequeue_burst, peek_unread, update_unread, free_count,
  readable_count,
}

-- The size is a power of two below 2^16 and at most `size` objects wait.
pub record IsValid {A : Type 0} (q : Rxq A) : Type 0 where
  pub order : ℕ
  pub order_le : order ≤ 15
  pub size_pow : q.size ≡ 2 ^ order
  pub mask_eq : q.mask ≡ q.size - 1
  pub size_le : q.size ≤ 32768
  pub unread_lt : q.unread < 65536
  pub max_lt : q.max < 65536
  pub max_in : sub16 q.max q.unread ≤ q.size

module _ {A : Type 0} where
  mask_lem : (q : Rxq A) (v : IsValid q) (i : ℕ) → bit_and i q.mask ≡ i % q.size
  mask_lem q v i = rw (v.mask_eq, v.size_pow) (bit_and_mask v.order i)

  mod-u16 : (q : Rxq A) (v : IsValid q) (i : ℕ) → u16 i % q.size ≡ i % q.size
  mod-u16 q v i = rw v.size_pow (mod-mod_pow i v.order 16 (omega (arith, v.order_le)))

  -- The waiting objects, oldest first.
  unfoldable pub waiting : Rxq A → List A
  waiting q = window q.objs q.size q.unread (sub16 q.max q.unread)

  length-waiting : (q : Rxq A) → length (waiting q) ≡ sub16 q.max q.unread
  unfolding waiting
  length-waiting q = length-window q.objs q.size q.unread (sub16 q.max q.unread)

  copy_in-eq-store_all :
      (q : Rxq A) (v : IsValid q) (i : ℕ) (slots : ℕ → A) (xs : List A)
      → copy_in q.max q.mask i slots xs ≡ store_all slots q.size (q.max + i) xs
  unfolding copy_in store_all
  copy_in-eq-store_all q v i slots [] = refl
  copy_in-eq-store_all q v i slots (x ∷ xs) =
      copy_in-eq-store_all q v (i + 1) (update slots (bit_and (q.max + i) q.mask) x) xs
      ∙ ap₂ (λ s b. store_all (update slots s x) q.size b xs) (mask_lem q v (q.max + i))
          (let e : q.max + (i + 1) ≡ q.max + i + 1 = omega arith in e)

  copy_out-eq-window :
      (q : Rxq A) (v : IsValid q) (i n : ℕ) → copy_out q i n ≡ window q.objs q.size (q.unread + i) n
  unfolding copy_out window
  copy_out-eq-window q v i zero = refl
  copy_out-eq-window q v i (suc n) = ap₂ ◌∷◌ (ap q.objs (mask_lem q v (q.unread + i))) (
      copy_out-eq-window q v (i + 1) n
      ∙ ap (λ b. window q.objs q.size b n)
          (let e : q.unread + (i + 1) ≡ q.unread + i + 1 = omega arith in e))

  -- A peek reads the waiting list, and returns NULL exactly past its end.
  pub peek_unread-reads :
      (q : Rxq A) (off : ℕ) → IsValid q → peek_unread q off ≡ get_elem? (waiting q) off
  unfolding peek_unread waiting
  peek_unread-reads q off v = ground (
    arith,
    get_elem?-window q.objs q.size q.unread (sub16 q.max q.unread) off,
    ap q.objs (mask_lem q v (q.unread + off)),
  )

  -- Consuming `n` waiting objects drops the `n` oldest, and keeps the queue valid.
  pub update_unread-drops :
      (q : Rxq A) (n : ℕ)
      → IsValid q
      → n ≤ length (waiting q)
      → (waiting (update_unread q n) ≡ drop n (waiting q)) × IsValid (update_unread q n)
  unfolding update_unread waiting
  update_unread-drops q n v h =
      let l : n ≤ sub16 q.max q.unread = omega (arith, length-waiting q) in
      (
        sym (
            drop-window q.objs q.size q.unread (sub16 q.max q.unread) n
            ∙ window-mod q.objs q.size (q.unread + n) (u16 (q.unread + n)) _
                (sym (mod-u16 q v (q.unread + n)))
            ∙ ap (window q.objs q.size (u16 (q.unread + n))) (omega arith)),
        record {
          order = v.order;
          order_le = v.order_le;
          size_pow = v.size_pow;
          mask_eq = v.mask_eq;
          size_le = v.size_le;
          unread_lt = omega arith;
          max_lt = v.max_lt;
          max_in = omega arith;
        },
      )

  copied :
      (q : Rxq A) (v : IsValid q) (n : ℕ)
      → n ≤ sub16 q.max q.unread
      → copy_out q 0 n ≡ take n (waiting q)
  unfolding waiting
  copied q v n h =
      copy_out-eq-window q v 0 n
      ∙ ap (λ b. window q.objs q.size b n) (omega arith)
      ∙ sym (take-window q.objs q.size q.unread (sub16 q.max q.unread) n h)

  -- A dequeue returns the oldest objects, as many as asked for or as wait, in order, and leaves the rest.
  pub dequeue_burst-takes :
      (q : Rxq A) (nr : ℕ)
      → IsValid q
      → let (out, q') = dequeue_burst q nr in
        let n = min (length (waiting q)) nr in
        (out ≡ take n (waiting q)) × (waiting q' ≡ drop n (waiting q)) × IsValid q'
  unfolding dequeue_burst readable_count update_unread
  dequeue_burst-takes q nr v =
      let n = min (sub16 q.max q.unread) nr in
      rw (length-waiting q) (
        copied q v n (omega arith),
        (update_unread-drops q n v (omega (arith, length-waiting q))).0,
        (update_unread-drops q n v (omega (arith, length-waiting q))).1,
      )

  -- The queue with a list that fits.
  extended : Rxq A → List A → Rxq A
  extended q ys = record q {
    objs = copy_in q.max q.mask 0 q.objs ys;
    max = u16 (q.max + length ys);
  }

  extended_lem :
      (q : Rxq A) (ys : List A)
      → IsValid q
      → sub16 q.max q.unread + length ys ≤ q.size
      → (waiting (extended q ys) ≡ waiting q ++ ys) × IsValid (extended q ys)
  unfolding extended waiting
  extended_lem q ys v h = (
    ap₂ (λ f n. window f q.size q.unread n)
          (copy_in-eq-store_all q v 0 q.objs ys
            ∙ store_all-mod q.size q.objs (q.max + 0) (q.unread + sub16 q.max q.unread) ys
                (ap (λ t. t % q.size) turned ∙ mod-u16 q v (q.unread + sub16 q.max q.unread)))
          (omega arith)
        ∙ window-store_all_append q.size q.objs q.unread (sub16 q.max q.unread) ys h,
    record {
      order = v.order;
      order_le = v.order_le;
      size_pow = v.size_pow;
      mask_eq = v.mask_eq;
      size_le = v.size_le;
      unread_lt = v.unread_lt;
      max_lt = omega arith;
      max_in = omega arith;
    },
  )
    where
      turned : q.max + 0 ≡ u16 (q.unread + sub16 q.max q.unread)
      turned = omega arith

  -- An enqueue appends the first objects of its batch, as many as there is room for, returns their
  -- number and keeps the queue valid.
  pub enqueue_burst-appends :
      (q : Rxq A) (xs : List A)
      → IsValid q
      → let (n, q') = enqueue_burst q xs in
        (n ≡ min (q.size - length (waiting q)) (length xs))
        × (waiting q' ≡ waiting q ++ take n xs)
        × IsValid q'
  unfolding enqueue_burst free_count readable_count extended
  enqueue_burst-appends q xs v = rw (length-waiting q) (
    omega arith,
    subst (λ k. waiting (record q { objs = objs'; max = u16 (q.max + k) }) ≡ waiting q ++ take n xs)
        count (extended_lem q (take n xs) v room).0,
    subst (λ k. IsValid (record q { objs = objs'; max = u16 (q.max + k) })) count
        (extended_lem q (take n xs) v room).1,
  )
    where
      n : ℕ
      n = min (free_count q) (length xs)

      objs' : ℕ → A
      objs' = copy_in q.max q.mask 0 q.objs (take n xs)

      count : length (take n xs) ≡ n
      count = omega (arith, length-take n xs)

      room : sub16 q.max q.unread + length (take n xs) ≤ q.size
      room = omega (arith, length-take n xs)
