-- ===== src/FlexFifo/Take.antt =====
-- The fifo gives its nodes in the order in which they came, each of them once.
use libtpa.Base.{
  ℕ, zero, suc, ◌-◌, ◌≡◌, inl, inr, refl, ap, ap₂, sym, subst, ◌∙◌, true, false, Option, some, none,
  List, [], ◌∷◌, ◌++◌, ◌==◌, bit_and, u32, sub32, length, length-append, drop, arith, Bool-cases,
  ==_iff, ==_refl, if_lem,
}
use libtpa.Ring.{update, window, length-window}
use libtpa.FlexFifo.{
  Place, FlexFifo, ring_pop, erase, do_list_remove, head, list_pop, pop, count, ring_count,
}
use libtpa.FlexFifo.Refine.{mem, contents, Distinct, IsValid}
use libtpa.FlexFifo.Pop.{popped, popped-contents, popped-IsValid}

erase_first : (n : ℕ) (ns : List ℕ) → erase n (n ∷ ns) ≡ ns
unfolding erase
erase_first n ns = ground (arith, ==_refl n)

-- The removal of the first node of the list, when the ring is empty.
module _ (ff : FlexFifo) (n : ℕ) (ns : List ℕ) (v : IsValid ff) (e : sub32 ff.write ff.read ≡ 0)
    (f : ff.list ≡ n ∷ ns) where
  erased : erase n ff.list ≡ ns
  erased = ap (erase n) f ∙ erase_first n ns

  Distinct-rest : (mem n ns ≡ false) × Distinct ns
  unfolding Distinct
  Distinct-rest = subst Distinct f v.distinct

  shortened-contents : contents (do_list_remove ff n) ≡ ns
  unfolding do_list_remove contents window
  shortened-contents = ap₂ (λ c l. window ff.ring ff.size ff.read c ++ l) e erased

  only_list : contents ff ≡ n ∷ ns
  unfolding contents window
  only_list = ap₂ (λ c l. window ff.ring ff.size ff.read c ++ l) e f

  same_node : (m : ℕ) → (n == m) ≡ true → mem n ns ≡ mem m ns
  same_node m h = ap (λ x. mem x ns) ((==_iff n m).0 h)

  listed_rest : (m : ℕ) → mem m ns ≡ true → update ff.places n Place.nowhere m ≡ Place.in_list
  unfolding mem
  listed_rest m h = ground (arith, h, same_node m, Distinct-rest.0, v.listed m, ap (mem m) f)

  shortened-IsValid : IsValid (do_list_remove ff n)
  unfolding do_list_remove mem
  shortened-IsValid = record {
    order = v.order;
    order_le = v.order_le;
    size_pow = v.size_pow;
    size_le = v.size_le;
    mask_eq = v.mask_eq;
    write_lt = v.write_lt;
    read_lt = v.read_lt;
    count_le = v.count_le;
    list_count = omega (arith, v.list_count, ap length f, ap length erased);
    ringed = λ j l. absurd (omega (arith, e, l));
    listed = λ m h. listed_rest m (sym (ap (mem m) erased) ∙ h);
    placed = λ m. elim (Bool-cases (n == m)) [
      | inl g ↦ inl (ground (arith, g))
      | inr g ↦ elim (v.placed m) [
        | inl h ↦ inl (ground (arith, g, h))
        | inr h ↦ inr (ground (arith, g, h, ap (mem m) only_list, ap (mem m) shortened-contents))
      ]
    ];
    distinct = subst Distinct (sym erased) Distinct-rest.1;
  }

-- The result of a pop.
abbrev pub Popped : FlexFifo → Option ℕ × FlexFifo → Type 0
Popped ff r = (r.0 ≡ head (contents ff)) × (contents r.1 ≡ drop 1 (contents ff)) × IsValid r.1

list_pop-Popped :
    (ff : FlexFifo) (v : IsValid ff) → sub32 ff.write ff.read ≡ 0 → Popped ff (list_pop ff)
unfolding list_pop head contents window
list_pop-Popped ff v e = by_list ff.list refl
  where
    by_list : (l : List ℕ) → ff.list ≡ l → Popped ff (list_pop ff)
    by_list [] f =
        let none_left : contents ff ≡ [] = ap₂ (λ c l. window ff.ring ff.size ff.read c ++ l) e f in
        rw (ap head f, list_pop)
          (sym (ap head none_left), none_left ∙ sym (ap (drop 1) none_left), v)
    by_list (n ∷ ns) f =
        let whole = only_list ff n ns v e f in
        rw (ap head f, list_pop)
          (
            sym (ap head whole),
            shortened-contents ff n ns v e f ∙ sym (ap (drop 1) whole),
            shortened-IsValid ff n ns v e f,
          )

-- A pop of a valid fifo takes the oldest node, from the ring or from the list, and leaves the others in
-- their order; of an empty fifo it gives NULL and leaves it.
pub pop-Popped : (ff : FlexFifo) → IsValid ff → Popped ff (pop ff)
unfolding pop ring_pop popped head
pop-Popped ff v =
    let a = v.write_lt in
    let b = v.read_lt in
    if_lem
      (λ (r : Option ℕ × FlexFifo). Popped ff (elim (r.0) as (λ x. Option ℕ × FlexFifo) [
        | none ↦ list_pop ff
        | some node ↦ (some node, r.1)
      ]))
      (ff.read == ff.write) (none, ff) (some (ff.ring (bit_and ff.read ff.mask)), popped ff)
      (λ e. list_pop-Popped ff v (ground (arith, e)))
      (λ e.
        let k = sub32 ff.write ff.read - 1 in
        let more : sub32 ff.write ff.read ≡ suc k = ground (arith, e) in
        let whole = popped-contents ff k v more in
        (sym (ap head whole), sym (ap (drop 1) whole), popped-IsValid ff k v more))

-- The nodes of `n` pops, up to the first NULL, and the fifo after them.
unfoldable pub pop_all : ℕ → FlexFifo → List ℕ × FlexFifo
pop_all zero ff = ([], ff)
pop_all (suc n) ff =
    let r = pop ff in
    let rest = pop_all n r.1 in
    elim (r.0) [ none ↦ ([], r.1) | some node ↦ (node ∷ rest.0, rest.1) ]

-- All nodes came, and none is left.
abbrev pub Emptied : List ℕ → List ℕ × FlexFifo → Type 0
Emptied xs r = (r.0 ≡ xs) × (contents r.1 ≡ []) × ((pop r.1).0 ≡ none) × IsValid r.1

emptied :
    (xs : List ℕ) (ff : FlexFifo)
    → IsValid ff
    → contents ff ≡ xs
    → Emptied xs (pop_all (length xs) ff)
unfolding pop_all head
emptied [] ff v e = (refl, e, (pop-Popped ff v).0 ∙ ap head e, v)
emptied (x ∷ xs) ff v e =
    let (got, rest, valid) = pop-Popped ff v in
    let first : (pop ff).0 ≡ some x = got ∙ ap head e in
    let (nodes, none_left, no_more, end_valid) =
      emptied xs (pop ff).1 valid (rest ∙ ap (drop 1) e) in
    rw (first, pop_all) (ap (λ t. x ∷ t) nodes, none_left, no_more, end_valid)

-- A valid fifo is emptied by as many pops as it has nodes: they come oldest first, no node is left, one
-- more pop gives NULL, and the fifo is valid. The number of nodes is the one that flex_fifo_count gives,
-- modulo 2^32.
pub pop_all-contents :
    (ff : FlexFifo)
    → IsValid ff
    → Emptied (contents ff) (pop_all (length (contents ff)) ff)
      × (count ff ≡ u32 (length (contents ff)))
unfolding count ring_count contents
pop_all-contents ff v = (
  emptied (contents ff) ff v refl,
  omega (
    arith,
    length-append (window ff.ring ff.size ff.read (sub32 ff.write ff.read)) ff.list,
    length-window ff.ring ff.size ff.read (sub32 ff.write ff.read),
    v.list_count,
  ),
)
