-- ===== src/Tcp/Xmit/Stream.antt =====
-- The bytes that a send queue holds, as the addresses where the card reads them, and the descriptors
-- that a place in this stream lies in.
use libtpa.Base.{
  ℕ, zero, suc, ◌+◌, ◌≤◌, ◌<◌, ◌≡◌, refl, sym, ap, ap₂, subst, ◌∙◌, Bool, false, some, List, [],
  ◌∷◌, ◌++◌, arith, length, take, drop, get_elem?, u32,
}
use mathlib.Core.List.{append_assoc}
use libtpa.Tcp.Sock.{Desc}
use libtpa.Tcp.Header.{Chunk}

-- What the sending of a descriptor leaves alone.
pub record Core : Type 0 where
  pub seq : ℕ
  pub len : ℕ
  pub phys_addr : ℕ
  pub sacked : Bool

abbrev pub core : Desc → Core
core d = record { seq = d.seq; len = d.len; phys_addr = d.phys_addr; sacked = d.sacked }

-- The addresses of `n` bytes from `a` on.
unfoldable pub run : ℕ → ℕ → List ℕ
run a zero = []
run a (suc n) = a ∷ run (a + 1) n

unfoldable pub stream : List Core → List ℕ
stream [] = []
stream (c ∷ cs) = run c.phys_addr c.len ++ stream cs

unfoldable pub bytes : List Chunk → List ℕ
bytes [] = []
bytes (c ∷ cs) = run c.phys_addr c.len ++ bytes cs

-- Where the `k`-th descriptor starts in the stream.
unfoldable pub start : List Core → ℕ → ℕ
start cs zero = 0
start [] (suc k) = 0
start (c ∷ cs) (suc k) = c.len + start cs k

unfoldable pub total : List Core → ℕ
total [] = 0
total (c ∷ cs) = c.len + total cs

-- Descriptors with data that follow one another from the sequence number `s` on, none of them SACKed.
unfoldable pub Contiguous : ℕ → List Core → Type 0
Contiguous s [] = Unit
Contiguous s (c ∷ cs) =
    (c.seq ≡ u32 s) × (0 < c.len) × (c.sacked ≡ false) × Contiguous (s + c.len) cs

module _ {ℓ} {A : Type ℓ} where
  pub take-add : (n m : ℕ) (xs : List A) → take (n + m) xs ≡ take n xs ++ take m (drop n xs)
  take-add zero m xs = ap (λ t. take t xs) (omega arith)
  take-add (suc n) m [] =
      ap (λ t. take {A = A} t []) (let e : suc n + m ≡ suc (n + m) = omega arith in e)
      ∙ sym (take_nil m)
    where
      take_nil : (m : ℕ) → take {A = A} m [] ≡ []
      take_nil zero = refl
      take_nil (suc m) = refl
  take-add (suc n) m (x ∷ xs) =
      ap (λ t. take t (x ∷ xs)) (let e : suc n + m ≡ suc (n + m) = omega arith in e)
      ∙ ap (λ t. x ∷ t) (take-add n m xs)

  drop_nil : (m : ℕ) → drop {A = A} m [] ≡ []
  drop_nil zero = refl
  drop_nil (suc m) = refl

  pub drop-drop : (n m : ℕ) (xs : List A) → drop m (drop n xs) ≡ drop (n + m) xs
  drop-drop zero m xs = ap (λ t. drop t xs) (omega arith)
  drop-drop (suc n) m [] = drop_nil m ∙ sym (drop_nil (suc n + m))
  drop-drop (suc n) m (x ∷ xs) =
      drop-drop n m xs
      ∙ ap (λ t. drop t (x ∷ xs)) (let e : suc (n + m) ≡ suc n + m = omega arith in e)

  pub drop-append : (xs ys : List A) (k : ℕ) → drop (length xs + k) (xs ++ ys) ≡ drop k ys
  drop-append [] ys k = ap (λ t. drop t ys) (omega arith)
  drop-append (x ∷ xs) ys k =
      ap (λ t. drop t (x ∷ (xs ++ ys)))
        (let e : suc (length xs) + k ≡ suc (length xs + k) = omega arith in e)
      ∙ drop-append xs ys k

pub length-run : (a n : ℕ) → length (run a n) ≡ n
unfolding run
length-run a zero = refl
length-run a (suc n) = ap suc (length-run (a + 1) n)

-- A part of a run at the head of a list.
part-run :
    (a len o n : ℕ) (ys : List ℕ) → o + n ≤ len → take n (drop o (run a len ++ ys)) ≡ run (a + o) n
unfolding run
part-run a len o zero ys h = refl
part-run a zero zero (suc n) ys h = absurd (omega arith)
part-run a (suc len) zero (suc n) ys h =
    ap₂ ◌∷◌ (omega arith)
      (part-run (a + 1) len zero n ys (omega arith) ∙ ap (λ t. run t n) (omega arith))
part-run a zero (suc o) (suc n) ys h = absurd (omega arith)
part-run a (suc len) (suc o) (suc n) ys h =
    part-run (a + 1) len o (suc n) ys (omega arith)
    ∙ ap (λ t. run t (suc n)) (let e : a + 1 + o ≡ a + suc o = omega arith in e)

-- The bytes of a part of the `k`-th descriptor.
pub part-stream :
    (cs : List Core) (k : ℕ) (c : Core) (o n : ℕ)
    → get_elem? cs k ≡ some c
    → o + n ≤ c.len
    → take n (drop (start cs k + o) (stream cs)) ≡ run (c.phys_addr + o) n
unfolding stream start
part-stream [] k c o n e h = absurd (ground arith)
part-stream (x ∷ cs) zero c o n e h =
    ap (λ t. take n (drop t (stream (x ∷ cs)))) (let z : 0 + o ≡ o = omega arith in z)
    ∙ subst (λ d. take n (drop o (run d.phys_addr d.len ++ stream cs)) ≡ run (c.phys_addr + o) n)
        (let same : c ≡ x = (cc) in same) (part-run c.phys_addr c.len o n (stream cs) h)
part-stream (x ∷ cs) (suc k) c o n e h =
    ap (λ t. take n (drop t (stream (x ∷ cs)))) shift
    ∙ ap (take n) (drop-append (run x.phys_addr x.len) (stream cs) (start cs k + o))
    ∙ part-stream cs k c o n e h
  where
    shift : x.len + start cs k + o ≡ length (run x.phys_addr x.len) + (start cs k + o)
    shift = omega (arith, length-run x.phys_addr x.len)

-- The place of a descriptor in a contiguous stream.
pub at-start :
    (s : ℕ) (cs : List Core) (k : ℕ) (c : Core)
    → Contiguous s cs
    → get_elem? cs k ≡ some c
    → (c.seq ≡ u32 (s + start cs k))
      × (0 < c.len)
      × (c.sacked ≡ false)
      × (start cs (suc k) ≡ start cs k + c.len)
      × (start cs (suc k) ≤ total cs)
unfolding Contiguous start total
at-start s [] k c h e = absurd (ground arith)
at-start s (x ∷ cs) zero c h e = ground (arith, h, e)
at-start s (x ∷ cs) (suc k) c h e = ground (arith, at-start (s + x.len) cs k c h.3 e)

pub start-length : (cs : List Core) → start cs (length cs) ≡ total cs
unfolding start total
start-length [] = refl
start-length (c ∷ cs) = omega (arith, start-length cs)

pub bytes-append : (xs ys : List Chunk) → bytes (xs ++ ys) ≡ bytes xs ++ bytes ys
unfolding bytes
bytes-append [] ys = refl
bytes-append (x ∷ xs) ys =
    ap (λ t. run x.phys_addr x.len ++ t) (bytes-append xs ys)
    ∙ sym (append_assoc (run x.phys_addr x.len) (bytes xs) (bytes ys))

pub start-le-total : (cs : List Core) (k : ℕ) → start cs k ≤ total cs
unfolding start total
start-le-total cs zero = omega arith
start-le-total [] (suc k) = omega arith
start-le-total (c ∷ cs) (suc k) = omega (arith, start-le-total cs k)
