-- ===== src/FlexFifo/Refine.antt =====
-- The fifo against the list of its nodes, oldest first.
use libtpa.Base.{
  ℕ, ◌+◌, ◌-◌, ◌%◌, ◌^◌, ◌≤◌, ◌<◌, ◌≡◌, ◌≢◌, ◌⊎◌, inl, inr, refl, ap, sym, ◌∙◌, Bool, true, false,
  ◌||◌, List, [], ◌∷◌, ◌++◌, if◌then◌else◌, ◌==◌, bit_and, u32, sub32, length, arith, Bool-cases,
}
use libtpa.Base.Mask.{bit_and_mask}
use libtpa.Ring.{update, window, mod-mod_pow}
use libtpa.FlexFifo.{Place, FlexFifo, is_somewhere}

unfoldable pub mem : ℕ → List ℕ → Bool
mem n [] = false
mem n (m ∷ ms) = let rest = mem n ms in if m == n then true else rest

-- The nodes that wait, oldest first: those of the ring, then those of the list.
unfoldable pub contents : FlexFifo → List ℕ
contents ff = window ff.ring ff.size ff.read (sub32 ff.write ff.read) ++ ff.list

unfoldable pub Distinct : List ℕ → Type 0
Distinct [] = Unit
Distinct (n ∷ ns) = (mem n ns ≡ false) × Distinct ns

-- The size is a power of two, at most 2^16; each node is where its place says, and once only; a node
-- without a place is not in the fifo.
pub record IsValid (ff : FlexFifo) : Type 0 where
  pub order : ℕ
  pub order_le : order ≤ 16
  pub size_pow : ff.size ≡ 2 ^ order
  pub size_le : ff.size ≤ 65536
  pub mask_eq : ff.mask ≡ ff.size - 1
  pub write_lt : ff.write < 4294967296
  pub read_lt : ff.read < 4294967296
  pub count_le : sub32 ff.write ff.read ≤ ff.size
  pub list_count : ff.list_size ≡ u32 (length ff.list)
  pub ringed :
      (j : ℕ)
      → j < sub32 ff.write ff.read
      → ff.places (ff.ring ((ff.read + j) % ff.size)) ≡ Place.in_ring ((ff.read + j) % ff.size + 1)
  pub listed : (n : ℕ) → mem n ff.list ≡ true → ff.places n ≡ Place.in_list
  pub placed : (n : ℕ) → (ff.places n ≡ Place.nowhere) ⊎ (mem n (contents ff) ≡ true)
  pub distinct : Distinct ff.list

pub mask_lem : (ff : FlexFifo) (v : IsValid ff) (i : ℕ) → bit_and i ff.mask ≡ i % ff.size
mask_lem ff v i =
    ap (bit_and i) (v.mask_eq ∙ ap (λ t. t - 1) v.size_pow)
    ∙ bit_and_mask v.order i
    ∙ ap (λ t. i % t) (sym v.size_pow)

pub mod-u32 : (ff : FlexFifo) (v : IsValid ff) (i : ℕ) → u32 i % ff.size ≡ i % ff.size
mod-u32 ff v i =
    ap (λ t. u32 i % t) v.size_pow
    ∙ mod-mod_pow i v.order 32 (omega (arith, v.order_le))
    ∙ ap (λ t. i % t) (sym v.size_pow)

pub mem-append : (n : ℕ) (xs ys : List ℕ) → mem n (xs ++ ys) ≡ (mem n xs || mem n ys)
unfolding mem
mem-append n [] ys = refl
mem-append n (x ∷ xs) ys = ground (arith, mem-append n xs ys)

pub append_nil : (xs : List ℕ) → xs ++ [] ≡ xs
append_nil [] = refl
append_nil (x ∷ xs) = ap (λ t. x ∷ t) (append_nil xs)

-- What holds of the places when a node joins at the end.
pub joined :
    (places : ℕ → Place) (node : ℕ) (at : Place) (xs ys : List ℕ) (n : ℕ)
    → ys ≡ xs ++ (node ∷ [])
    → (places n ≡ Place.nowhere) ⊎ (mem n xs ≡ true)
    → (update places node at n ≡ Place.nowhere) ⊎ (mem n ys ≡ true)
unfolding mem
joined places node at xs ys n e (inr h) =
    inr (rw e (ground (arith, h, mem-append n xs (node ∷ []))))
joined places node at xs ys n e (inl h) = elim (Bool-cases (node == n)) [
  | inl f ↦ inr (rw e (ground (arith, f, mem-append n xs (node ∷ []))))
  | inr f ↦ inl (ground (arith, f, h))
]

pub append_assoc : (xs ys zs : List ℕ) → (xs ++ ys) ++ zs ≡ xs ++ (ys ++ zs)
append_assoc [] ys zs = refl
append_assoc (x ∷ xs) ys zs = ap (λ t. x ∷ t) (append_assoc xs ys zs)

pub Distinct-append :
    (xs : List ℕ) (node : ℕ) → mem node xs ≡ false → Distinct xs → Distinct (xs ++ (node ∷ []))
unfolding Distinct mem
Distinct-append [] node h d = (refl, tt)
Distinct-append (x ∷ xs) node h d = (
  ground (arith, h, d.0, mem-append x xs (node ∷ [])),
  Distinct-append xs node (ground (arith, h)) d.1,
)

pub not_listed :
    (ff : FlexFifo) (v : IsValid ff) (node : ℕ)
    → is_somewhere (ff.places node) ≡ false
    → mem node ff.list ≡ false
not_listed ff v node h = ground (arith, h, v.listed node)

-- The slot of the next push.
pub write_slot :
    (ff : FlexFifo) (v : IsValid ff)
    → bit_and ff.write ff.mask ≡ (ff.read + sub32 ff.write ff.read) % ff.size
write_slot ff v =
    mask_lem ff v ff.write
    ∙ ap (λ t. t % ff.size)
        (let a = v.write_lt in
          let b = v.read_lt in
          let e : ff.write ≡ u32 (ff.read + sub32 ff.write ff.read) = omega arith in e)
    ∙ mod-u32 ff v (ff.read + sub32 ff.write ff.read)

-- Nodes of the ring have a place.
pub ring_node_ne :
    (ff : FlexFifo) (v : IsValid ff) (node j : ℕ)
    → is_somewhere (ff.places node) ≡ false
    → j < sub32 ff.write ff.read
    → ff.ring ((ff.read + j) % ff.size) ≢ node
ring_node_ne ff v node j h k e = ground (arith, h, v.ringed j k, ap ff.places e)
