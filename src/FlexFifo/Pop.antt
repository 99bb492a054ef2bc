-- ===== src/FlexFifo/Pop.antt =====
-- A pop from the ring.
use libtpa.Base.{
  ℕ, suc, ◌+◌, ◌%◌, ◌<◌, ◌≡◌, inl, inr, ap, ap₂, sym, ◌∙◌, true, ◌∷◌, ◌++◌, ◌==◌, bit_and, u32,
  sub32, arith, Bool-cases, ==_iff,
}
use libtpa.Ring.{update, window, mod_distinct, window-mod}
use libtpa.FlexFifo.{Place, FlexFifo}
use libtpa.FlexFifo.Refine.{mem, contents, IsValid, mask_lem, mod-u32}
use native.Mathlib.Nat.{mod-add-mod}

unfoldable pub popped : FlexFifo → FlexFifo
popped ff = record ff {
  read = u32 (ff.read + 1);
  places = update ff.places (ff.ring (bit_and ff.read ff.mask)) Place.nowhere;
}

pub popped-contents :
    (ff : FlexFifo) (k : ℕ)
    → IsValid ff
    → sub32 ff.write ff.read ≡ suc k
    → contents ff ≡ ff.ring (bit_and ff.read ff.mask) ∷ contents (popped ff)
unfolding contents popped window
popped-contents ff k v e =
    let a = v.write_lt in
    let b = v.read_lt in
    let left : sub32 ff.write (u32 (ff.read + 1)) ≡ k = omega arith in
    ap (λ c. window ff.ring ff.size ff.read c ++ ff.list) e
    ∙ ap₂ ◌∷◌ (ap ff.ring (sym (mask_lem ff v ff.read))) (
        ap (λ w. w ++ ff.list)
          (window-mod ff.ring ff.size (ff.read + 1) (u32 (ff.read + 1)) k
              (sym (mod-u32 ff v (ff.read + 1)))
            ∙ ap (window ff.ring ff.size (u32 (ff.read + 1))) (sym left)))

module _ (ff : FlexFifo) (k : ℕ) (v : IsValid ff) (e : sub32 ff.write ff.read ≡ suc k) where
  slot : ℕ → ℕ
  slot j = (ff.read + j) % ff.size

  abbrev first : ℕ
  first = ff.ring (bit_and ff.read ff.mask)

  first_place : ff.places first ≡ Place.in_ring (slot 0 + 1)
  unfolding slot
  first_place =
      let same : bit_and ff.read ff.mask ≡ slot 0 =
        mask_lem ff v ff.read ∙ ap (λ t. t % ff.size) (omega arith) in
      ap (λ i. ff.places (ff.ring i)) same ∙ v.ringed 0 (omega arith)

  next_slot : (j : ℕ) → (u32 (ff.read + 1) + j) % ff.size ≡ slot (suc j)
  unfolding slot
  next_slot j =
      sym (mod-add-mod (u32 (ff.read + 1)) ff.size j)
      ∙ ap (λ t. (t + j) % ff.size) (mod-u32 ff v (ff.read + 1))
      ∙ mod-add-mod (ff.read + 1) ff.size j
      ∙ ap (λ t. t % ff.size) (let z : ff.read + 1 + j ≡ ff.read + suc j = omega arith in z)

  same_place : (n : ℕ) → (first == n) ≡ true → ff.places first ≡ ff.places n
  same_place n h = ap ff.places ((==_iff first n).0 h)

  later :
      (j : ℕ)
      → suc j < sub32 ff.write ff.read
      → update ff.places first Place.nowhere (ff.ring (slot (suc j)))
        ≡ Place.in_ring (slot (suc j) + 1)
  unfolding slot
  later j l =
      let a = v.count_le in
      ground (
        arith,
        v.ringed (suc j) l,
        first_place,
        same_place (ff.ring (slot (suc j))),
        mod_distinct ff.size ff.read 0 (suc j) (omega arith) (omega arith),
      )

  pub popped-IsValid : IsValid (popped ff)
  unfolding popped mem
  popped-IsValid = record {
    order = v.order;
    order_le = v.order_le;
    size_pow = v.size_pow;
    size_le = v.size_le;
    mask_eq = v.mask_eq;
    write_lt = v.write_lt;
    read_lt = omega arith;
    count_le = (let a = v.count_le in let b = v.write_lt in let c = v.read_lt in omega arith);
    list_count = v.list_count;
    ringed = λ j l.
        rw (next_slot j) (later j (let b = v.write_lt in let c = v.read_lt in omega (arith, e)));
    listed = λ n m. ground (arith, v.listed n m, first_place, same_place n);
    placed = λ n. elim (Bool-cases (first == n)) [
      | inl f ↦ inl (ground (arith, f))
      | inr f ↦ elim (v.placed n) [
        | inl g ↦ inl (ground (arith, f, g))
        | inr g ↦ inr (ground (arith, f, g, ap (mem n) (popped-contents ff k v e)))
      ]
    ];
    distinct = v.distinct;
  }
