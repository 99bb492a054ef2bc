-- ===== src/Ring.antt =====
-- A power-of-two ring of slots, as the send queue, the receive queue and the flex fifo of libtpa
-- keep it: free-running indices, reduced by a mask at each access. The slots are a function from the
-- index to the content.
use libtpa.Base.{
  ℕ, zero, suc, ◌+◌, ◌-◌, ◌%◌, ◌*◌, ◌^◌, ◌≤◌, ◌<◌, ◌≡◌, refl, ap, ap₂, sym, ◌∙◌, ◌≢◌, List, [], ◌∷◌,
  ◌++◌, some, none, arith, ◌==◌, if◌then◌else◌, length, take, drop, get_elem?, ltb,
}
use native.Mathlib.Nat.{
  mod-add-mod, mod-lt, mod-eq_of_lt, mod-eq-sub-mod, pow-suc, add-suc, add-zero, zero-add, suc-add,
  sub-zero, mod-mod_of_dvd, dvd-mul_right,
}
use native.Mathlib.Decide.{dec_lt}

module _ {ℓ} {A : Type ℓ} where
  -- `slots[i] = v`
  abbrev pub update : (ℕ → A) → ℕ → A → ℕ → A
  update f i v j = if i == j then v else f j

  -- The `n` slots from the free-running index `b` on, in a ring of `m` slots.
  unfoldable pub window : (ℕ → A) → ℕ → ℕ → ℕ → List A
  window f m b zero = []
  window f m b (suc n) = f (b % m) ∷ window f m (b + 1) n

  -- Write a list from the free-running index `b` on.
  unfoldable pub store_all : (ℕ → A) → ℕ → ℕ → List A → ℕ → A
  store_all f m b [] = f
  store_all f m b (x ∷ xs) = store_all (update f (b % m) x) m (b + 1) xs

-- Two indices less than a turn apart have different slots.
pub mod_distinct : (m b i j : ℕ) → i < j → j < i + m → (b + i) % m ≢ (b + j) % m
mod_distinct m b i j h k e =
    turn ((b + i) % m) (j - i) m (mod-lt (b + i) (omega arith)) (omega arith) (omega arith)
      (mod-add-mod (b + i) m (j - i) ∙ ap (λ t. t % m) shift ∙ sym e)
  where
    shift : b + i + (j - i) ≡ b + j
    shift = omega arith

    turn : (c d m : ℕ) → c < m → 0 < d → d < m → (c + d) % m ≢ c
    turn c d m p q r = elim (dec_lt (c + d) m) [
      | yes s ↦ omega (arith, mod-eq_of_lt s)
      | no s ↦ omega (
        arith,
        mod-eq-sub-mod {n = c + d} {m = m} (omega arith),
        mod-eq_of_lt {n = c + d - m} {m = m} (omega arith),
      )
    ]

two-pow-add : (a b : ℕ) → 2 ^ (a + b) ≡ 2 ^ b * 2 ^ a
two-pow-add a zero = rw add-zero (omega arith)
two-pow-add a (suc b) = rw (add-suc, pow-suc, pow-suc) (omega (arith, two-pow-add a b))

-- Reduction modulo a wider power of two does not change the slot.
pub mod-mod_pow : (x k w : ℕ) → k ≤ w → (x % 2 ^ w) % 2 ^ k ≡ x % 2 ^ k
mod-mod_pow x k w h =
    rw (← wide, two-pow-add (w - k) k)
      (mod-mod_of_dvd (2 ^ k) x (dvd-mul_right (2 ^ k) (2 ^ (w - k))))
  where
    wide : w - k + k ≡ w
    wide = omega arith

module _ {ℓ} {A : Type ℓ} (f : ℕ → A) (m : ℕ) where
  pub length-window : (b n : ℕ) → length (window f m b n) ≡ n
  unfolding window
  length-window b zero = refl
  length-window b (suc n) = ap suc (length-window (b + 1) n)

  -- Only the slot of the first index matters.
  pub window-mod : (b c n : ℕ) → b % m ≡ c % m → window f m b n ≡ window f m c n
  unfolding window
  window-mod b c zero e = refl
  window-mod b c (suc n) e = ap₂ ◌∷◌ (ap f e) (
      window-mod (b + 1) (c + 1) n
        (sym (mod-add-mod b m 1) ∙ ap (λ t. (t + 1) % m) e ∙ mod-add-mod c m 1))

  pub window-append : (b n k : ℕ) → window f m b (n + k) ≡ window f m b n ++ window f m (b + n) k
  unfolding window
  window-append b zero k = rw (zero-add, add-zero)
  window-append b (suc n) k =
      rw (suc-add, window-append (b + 1) n k)
        (ap (λ t. f (b % m) ∷ (window f m (b + 1) n ++ window f m t k)) (omega arith))

  pub get_elem?-window :
      (b n i : ℕ)
      → get_elem? (window f m b n) i ≡ (if ltb i n then some (f ((b + i) % m)) else none)
  unfolding window
  get_elem?-window b zero i = ground arith
  get_elem?-window b (suc n) zero = ground (arith, add-zero b)
  get_elem?-window b (suc n) (suc i) = ground (
    arith,
    get_elem?-window (b + 1) n i,
    ap f (ap (λ t. t % m) (let e : b + 1 + i ≡ b + suc i = omega arith in e)),
  )

  pub drop-window : (b n k : ℕ) → drop k (window f m b n) ≡ window f m (b + k) (n - k)
  unfolding window
  drop-window b n zero = rw (add-zero, sub-zero)
  drop-window b zero (suc k) =
      ap (window f m (b + suc k)) (let e : 0 ≡ 0 - suc k = omega arith in e)
  drop-window b (suc n) (suc k) =
      drop-window (b + 1) n k ∙ ap₂ (window f m) (omega arith) (omega arith)

  pub take-window : (b n k : ℕ) → k ≤ n → take k (window f m b n) ≡ window f m b k
  unfolding window
  take-window b n zero h = refl
  take-window b zero (suc k) h = absurd (omega arith)
  take-window b (suc n) (suc k) h = ap (λ t. f (b % m) ∷ t) (take-window (b + 1) n k (omega arith))

  -- Only the slots of a window matter.
  pub window-ext :
      (g : ℕ → A) (b n : ℕ)
      → ((j : ℕ) → j < n → f ((b + j) % m) ≡ g ((b + j) % m))
      → window f m b n ≡ window g m b n
  unfolding window
  window-ext g b zero h = refl
  window-ext g b (suc n) h =
      ap₂ ◌∷◌ (rw (add-zero b) at (h 0 (omega arith)))
        (window-ext g (b + 1) n (λ j l. rw (shift j) (h (suc j) (omega arith))))
    where
      shift : (j : ℕ) → b + 1 + j ≡ b + suc j
      shift j = omega arith

module _ {ℓ} {A : Type ℓ} (m : ℕ) where
  store_all_ne :
      (f : ℕ → A) (b : ℕ) (xs : List A) (i : ℕ)
      → ((j : ℕ) → j < length xs → (b + j) % m ≢ i)
      → store_all f m b xs i ≡ f i
  unfolding store_all
  store_all_ne f b [] i h = refl
  store_all_ne f b (x ∷ xs) i h =
      store_all_ne (update f (b % m) x) (b + 1) xs i
        (λ j l e. h (suc j) (omega arith) (ap (λ t. t % m) (shift j) ∙ e))
      ∙ ground (arith, h 0 (omega arith), add-zero b)
    where
      shift : (j : ℕ) → b + suc j ≡ b + 1 + j
      shift j = omega arith

  -- A window that ends where the writing begins is not touched, if all fits in one turn.
  pub window-store_all_before :
      (f : ℕ → A) (b n : ℕ) (xs : List A)
      → n + length xs ≤ m
      → window (store_all f m (b + n) xs) m b n ≡ window f m b n
  window-store_all_before f b n xs h =
      window-ext (store_all f m (b + n) xs) m f b n
        λ j l. store_all_ne f (b + n) xs ((b + j) % m) (λ i k e. apart j i l k (sym e))
    where
      apart : (j i : ℕ) → j < n → i < length xs → (b + j) % m ≢ (b + n + i) % m
      apart j i l k e =
          mod_distinct m b j (n + i) (omega arith) (omega arith) (e ∙ ap (λ t. t % m) (omega arith))

  -- What is written is read back.
  pub window-store_all :
      (f : ℕ → A) (b : ℕ) (xs : List A)
      → length xs ≤ m
      → window (store_all f m b xs) m b (length xs) ≡ xs
  unfolding window store_all
  window-store_all f b [] h = refl
  window-store_all f b (x ∷ xs) h =
      ap₂ ◌∷◌
        (store_all_ne (update f (b % m) x) (b + 1) xs (b % m) (λ j l e. apart j l (sym e)) ∙ same)
        (window-store_all (update f (b % m) x) (b + 1) xs (omega arith))
    where
      same : update f (b % m) x (b % m) ≡ x
      same = ground arith

      apart : (j : ℕ) → j < length xs → b % m ≢ (b + 1 + j) % m
      apart j l e =
          mod_distinct m b 0 (suc j) (omega arith) (omega arith)
            (rw add-zero (e ∙ ap (λ t. t % m) (omega arith)))

  -- The two together: the ring's content grows by what is written.
  pub window-store_all_append :
      (f : ℕ → A) (b n : ℕ) (xs : List A)
      → n + length xs ≤ m
      → window (store_all f m (b + n) xs) m b (n + length xs) ≡ window f m b n ++ xs
  window-store_all_append f b n xs h =
      window-append (store_all f m (b + n) xs) m b n (length xs)
      ∙ ap₂ ◌++◌ (window-store_all_before f b n xs h) (window-store_all f (b + n) xs (omega arith))

  pub store_all-mod :
      (f : ℕ → A) (b c : ℕ) (xs : List A) → b % m ≡ c % m → store_all f m b xs ≡ store_all f m c xs
  unfolding store_all
  store_all-mod f b c [] e = refl
  store_all-mod f b c (x ∷ xs) e =
      ap (λ i. store_all (update f i x) m (b + 1) xs) e
      ∙ store_all-mod (update f (c % m) x) (b + 1) (c + 1) xs
          (sym (mod-add-mod b m 1) ∙ ap (λ t. (t + 1) % m) e ∙ mod-add-mod c m 1)
