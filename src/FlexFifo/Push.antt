-- ===== src/FlexFifo/Push.antt =====
-- A push puts a node at the end, unless the node waits already.
use libtpa.Base.{
  ℕ, zero, suc, ◌+◌, ◌%◌, ◌<◌, ◌≡◌, inl, inr, refl, ap, sym, subst, ◌∙◌, Bool, true, false, not,
  ◌||◌, List, [], ◌∷◌, ◌++◌, if◌then◌else◌, ◌==◌, u32, sub32, length-append, arith, Bool-cases,
  ==_iff, ==_refl, if_lem,
}
use libtpa.Ring.{update, window, store_all, mod_distinct, window-store_all_append}
use libtpa.FlexFifo.{
  Place, FlexFifo, is_somewhere, node_in_fifo, ring_count, ring_free_size, do_ring_push, is_empty,
  ring_push, list_push, push, push_if_not_exist,
}
use libtpa.FlexFifo.Refine.{
  mem, contents, IsValid, mem-append, joined, append_nil, append_assoc, Distinct-append, not_listed,
  write_slot, ring_node_ne,
}

-- The window of the ring grows by the node.
pushed_window :
    (ff : FlexFifo) (node : ℕ) (v : IsValid ff)
    → sub32 ff.write ff.read < ff.size
    → let g = do_ring_push ff node in
      window g.ring ff.size ff.read (sub32 g.write ff.read)
      ≡ window ff.ring ff.size ff.read (sub32 ff.write ff.read) ++ (node ∷ [])
unfolding do_ring_push store_all
pushed_window ff node v h =
    let a = v.write_lt in
    let b = v.read_lt in
    let c = v.size_le in
    let n = sub32 ff.write ff.read in
    let more : sub32 (u32 (ff.write + 1)) ff.read ≡ n + 1 = omega arith in
    rw (write_slot ff v, more)
      (window-store_all_append ff.size ff.ring ff.read n (node ∷ []) (omega arith))

ring_push-contents :
    (ff : FlexFifo) (node : ℕ) (v : IsValid ff)
    → ff.list ≡ []
    → sub32 ff.write ff.read < ff.size
    → contents (do_ring_push ff node) ≡ contents ff ++ (node ∷ [])
unfolding contents do_ring_push
ring_push-contents ff node v e h = rw e (
    append_nil (
      window (do_ring_push ff node).ring ff.size ff.read
        (sub32 (do_ring_push ff node).write ff.read))
    ∙ pushed_window ff node v h
    ∙ ap (λ t. t ++ (node ∷ []))
        (sym (append_nil (window ff.ring ff.size ff.read (sub32 ff.write ff.read)))))

ring_push-IsValid :
    (ff : FlexFifo) (node : ℕ) (v : IsValid ff)
    → ff.list ≡ []
    → sub32 ff.write ff.read < ff.size
    → is_somewhere (ff.places node) ≡ false
    → IsValid (do_ring_push ff node)
unfolding do_ring_push contents mem
ring_push-IsValid ff node v e h f = record {
  order = v.order;
  order_le = v.order_le;
  size_pow = v.size_pow;
  size_le = v.size_le;
  mask_eq = v.mask_eq;
  write_lt = omega arith;
  read_lt = v.read_lt;
  count_le = (let a = v.size_le in omega arith);
  list_count = v.list_count;
  ringed = λ j l. rw (write_slot ff v) (slots j (let a = v.size_le in omega arith));
  listed = λ n m. absurd (ground (arith, m, ap (mem n) e));
  placed = λ n.
      joined ff.places node _ (contents ff) _ n (ring_push-contents ff node v e h) (v.placed n);
  distinct = v.distinct;
}
  where
    slot : ℕ → ℕ
    slot j = (ff.read + j) % ff.size

    slots :
        (j : ℕ)
        → j < sub32 ff.write ff.read + 1
        → update ff.places node
            (Place.in_ring (slot (sub32 ff.write ff.read) + 1))
            (update ff.ring (slot (sub32 ff.write ff.read)) node (slot j))
          ≡ Place.in_ring (slot j + 1)
    slots j k = elim (Bool-cases (sub32 ff.write ff.read == j)) [
      | inl y ↦
          subst
            (λ i.
              update ff.places node (Place.in_ring (slot (sub32 ff.write ff.read) + 1))
                (update ff.ring (slot (sub32 ff.write ff.read)) node (slot i))
              ≡ Place.in_ring (slot i + 1))
            ((==_iff (sub32 ff.write ff.read) j).0 y)
            (ground (arith, ==_refl (slot (sub32 ff.write ff.read)), ==_refl node))
      | inr y ↦
          (let below : j < sub32 ff.write ff.read = ground (arith, y, k) in
            ground (
              arith,
              mod_distinct ff.size ff.read j (sub32 ff.write ff.read) below (omega arith),
              ring_node_ne ff v node j f below,
              v.ringed j below,
            ))
    ]

list_push-contents :
    (ff : FlexFifo) (node : ℕ) → contents (list_push ff node) ≡ contents ff ++ (node ∷ [])
unfolding contents list_push
list_push-contents ff node =
    sym (append_assoc (window ff.ring ff.size ff.read (sub32 ff.write ff.read)) ff.list (node ∷ []))

list_push-IsValid :
    (ff : FlexFifo) (node : ℕ) (v : IsValid ff)
    → is_somewhere (ff.places node) ≡ false
    → IsValid (list_push ff node)
unfolding list_push contents mem
list_push-IsValid ff node v f = record {
  order = v.order;
  order_le = v.order_le;
  size_pow = v.size_pow;
  size_le = v.size_le;
  mask_eq = v.mask_eq;
  write_lt = v.write_lt;
  read_lt = v.read_lt;
  count_le = v.count_le;
  list_count = omega (arith, v.list_count, length-append ff.list (node ∷ []));
  ringed = λ j l. ground (arith, ring_node_ne ff v node j f l, v.ringed j l);
  listed = λ n m. ground (arith, m, mem-append n ff.list (node ∷ []), v.listed n);
  placed = λ n.
      joined ff.places node Place.in_list (contents ff) _ n (list_push-contents ff node)
        (v.placed n);
  distinct = Distinct-append ff.list node (not_listed ff v node f) v.distinct;
}

was_empty : (xs : List ℕ) → is_empty xs ≡ true → xs ≡ []
unfolding is_empty
was_empty [] h = refl
was_empty (x ∷ xs) h = absurd (ground (arith, h))

-- A push onto a fifo that does not have the node.
push-appends :
    (ff : FlexFifo) (node : ℕ)
    → IsValid ff
    → node_in_fifo ff node ≡ false
    → (contents (push ff node) ≡ contents ff ++ (node ∷ [])) × IsValid (push ff node)
unfolding push ring_push node_in_fifo ring_free_size ring_count is_empty
push-appends ff node v f =
    if_lem
      (λ (r : Bool × FlexFifo).
        (contents (if r.0 then r.1 else list_push ff node) ≡ contents ff ++ (node ∷ []))
        × IsValid (if r.0 then r.1 else list_push ff node))
      (not (is_empty ff.list) || sub32 ff.size (sub32 ff.write ff.read) == 0) (false, ff)
      (true, do_ring_push ff node)
      (λ e. (list_push-contents ff node, list_push-IsValid ff node v f))
      (λ e.
        let empty : ff.list ≡ [] = was_empty ff.list (ground (arith, e)) in
        let room : sub32 ff.write ff.read < ff.size =
          (let a = v.size_le in let b = v.count_le in ground (arith, e)) in
        (ring_push-contents ff node v empty room, ring_push-IsValid ff node v empty room f))

mem-window :
    (f : ℕ → ℕ) (m b c n : ℕ)
    → mem n (window f m b c) ≡ true
    → (j : ℕ) × (j < c) × (f ((b + j) % m) ≡ n)
unfolding mem window
mem-window f m b zero n h = absurd (ground (arith, h))
mem-window f m b (suc c) n h = elim (Bool-cases (f (b % m) == n)) [
  | inl e ↦ (
    0,
    omega arith,
    ap (λ i. f (i % m)) (let z : b + 0 ≡ b = omega arith in z) ∙ (==_iff (f (b % m)) n).0 e,
  )
  | inr e ↦
      (let (j, l, g) = mem-window f m (b + 1) c n (ground (arith, h, e)) in
        (
          suc j,
          omega arith,
          ap (λ i. f (i % m)) (let z : b + suc j ≡ b + 1 + j = omega arith in z) ∙ g,
        ))
]

-- A node has a place exactly when it is in the fifo.
pub node_in_fifo-mem :
    (ff : FlexFifo) (node : ℕ) → IsValid ff → node_in_fifo ff node ≡ mem node (contents ff)
unfolding node_in_fifo contents
node_in_fifo-mem ff node v = elim (Bool-cases (mem node (contents ff))) [
  | inl e ↦ elim (Bool-cases (mem node (window ff.ring ff.size ff.read (sub32 ff.write ff.read)))) [
    | inl f ↦
        (let (j, l, g) = mem-window ff.ring ff.size ff.read (sub32 ff.write ff.read) node f in
          let place = ap ff.places (sym g) ∙ v.ringed j l in ground (arith, e, place))
    | inr f ↦ ground (
      arith,
      e,
      f,
      mem-append node (window ff.ring ff.size ff.read (sub32 ff.write ff.read)) ff.list,
      v.listed node,
    )
  ]
  | inr e ↦ elim (v.placed node) [
    | inl f ↦ ground (arith, e, f)
    | inr f ↦ absurd (ground (arith, e, f))
  ]
]

-- A node is pushed unless the fifo has it: a push of a node that waits changes nothing, any other push
-- puts the node at the end, in the ring or in the list.
pub push_if_not_exist-appends :
    (ff : FlexFifo) (node : ℕ)
    → IsValid ff
    → (contents (push_if_not_exist ff node)
        ≡ (if mem node (contents ff) then contents ff else contents ff ++ (node ∷ [])))
      × IsValid (push_if_not_exist ff node)
unfolding push_if_not_exist
push_if_not_exist-appends ff node v =
    let same = node_in_fifo-mem ff node v in
    let whole = if mem node (contents ff) then contents ff else contents ff ++ (node ∷ []) in
    if_lem (λ g. (contents g ≡ whole) × IsValid g) (node_in_fifo ff node) ff (push ff node)
      (λ e. (ground (arith, e, same), v))
      (λ e.
        let (joins, valid) = push-appends ff node v e in (ground (arith, e, same, joins), valid))
