-- ===== src/Tcp/Options/Echo.antt =====
-- What the writer of options writes, the parser reads.
use libtpa.Base.{
  ℕ, zero, suc, ◌+◌, ◌-◌, ◌*◌, ◌/◌, ◌%◌, ◌≤◌, ◌<◌, ◌≡◌, refl, ap, ap₂, subst, ◌∙◌, true, false,
  List, [], ◌∷◌, ◌++◌, ltb, ◌==◌, length, arith,
}
use libtpa.Tcp.Sack.{Block}
use libtpa.Tcp.Options.{
  Parsed, skip, read_16, read_32, read_blocks, switch_opt, parse_loop, bytes_16, bytes_32,
  fill_opt_ts, fill_blocks,
}

-- The memory that starts with a list of bytes.
unfoldable pub fed : List ℕ → (ℕ → ℕ) → ℕ → ℕ
fed [] p i = p i
fed (b ∷ bs) p zero = b
fed (b ∷ bs) p (suc i) = fed bs p i

append_at : (xs bs : List ℕ) (p : ℕ → ℕ) (i : ℕ) → fed (xs ++ bs) p i ≡ fed xs (fed bs p) i
unfolding fed
append_at [] bs p i = refl
append_at (x ∷ xs) bs p zero = refl
append_at (x ∷ xs) bs p (suc i) = append_at xs bs p i

pub fed-append : (xs bs : List ℕ) (p : ℕ → ℕ) → fed (xs ++ bs) p ≡ fed xs (fed bs p)
fed-append xs bs p = λ k i. append_at xs bs p i k

decode_32 : (v : ℕ) (p : ℕ → ℕ) → v < 4294967296 → read_32 (fed (bytes_32 v) p) ≡ v
unfolding fed read_32 bytes_32
decode_32 v p h = omega arith

decode_16 : (v : ℕ) (p : ℕ → ℕ) → v < 65536 → read_16 (fed (bytes_16 v) p) ≡ v
unfolding fed read_16 bytes_16
decode_16 v p h = omega arith

nop_round :
    (n : ℕ) (p : ℕ → ℕ) (left : ℕ) (r : Parsed)
    → p 0 ≡ 1
    → 0 < left
    → parse_loop (suc n) p left r ≡ parse_loop n (skip 1 p) (left - 1) r
unfolding parse_loop
nop_round n p left r e h = ground (arith, e)

opt_round :
    (n : ℕ) (p : ℕ → ℕ) (left : ℕ) (r : Parsed)
    → 2 ≤ p 0
    → 2 ≤ p 1
    → p 1 ≤ left
    → (switch_opt (p 0) (p 1) (skip 2 p) r).0 ≡ false
    → parse_loop (suc n) p left r
      ≡ parse_loop n (skip (p 1) p) (left - p 1) (switch_opt (p 0) (p 1) (skip 2 p) r).1
unfolding parse_loop
opt_round n p left r h k l e = ground (arith, e)

skip-fed : (xs : List ℕ) (p : ℕ → ℕ) (i : ℕ) → skip (length xs) (fed xs p) i ≡ p i
unfolding skip fed
skip-fed [] p i = refl
skip-fed (x ∷ xs) p i = skip-fed xs p i

skip_all : (n : ℕ) (xs : List ℕ) (p : ℕ → ℕ) → length xs ≡ n → skip n (fed xs p) ≡ p
skip_all n xs p e = subst (λ m. skip m (fed xs p) ≡ p) e (λ k i. skip-fed xs p i k)

-- The edges are uint32_t.
unfoldable pub Small : List Block → Type 0
Small [] = Unit
Small (b ∷ bs) = (b.start < 4294967296) × (b.end < 4294967296) × Small bs

pub length-fill_blocks : (bs : List Block) → length (fill_blocks bs) ≡ 8 * length bs
unfolding fill_blocks bytes_32
length-fill_blocks [] = refl
length-fill_blocks (b ∷ bs) = omega (arith, length-fill_blocks bs)

blocks_read :
    (bs : List Block) (p : ℕ → ℕ) → Small bs → read_blocks (length bs) (fed (fill_blocks bs) p) ≡ bs
unfolding read_blocks fill_blocks bytes_32 fed skip Small
blocks_read [] p h = refl
blocks_read (b ∷ bs) p h =
    let rest = fed (fill_blocks bs) p in
    ap₂ ◌∷◌
      (ap₂ (λ x y. record { start = x; end = y })
        (decode_32 b.start (fed (bytes_32 b.end) rest) h.0) (decode_32 b.end rest h.1))
      (blocks_read bs p h.2)

switch_sack :
    (k : ℕ) (v : ℕ → ℕ) (r : Parsed)
    → k ≤ 3
    → switch_opt 5 (2 + 8 * k) v r ≡ (false, (r.0, record (r.1) { sack_blocks = read_blocks k v }))
unfolding switch_opt
switch_sack k v r h =
    let a : ltb 26 (2 + 8 * k) ≡ false = ground arith in
    let b : ((2 + 8 * k - 2) % 8 == 0) ≡ true = ground arith in
    let c : (2 + 8 * k - 2) / 8 ≡ k = omega arith in rw (a, b, c) refl

module _ (n : ℕ) (p : ℕ → ℕ) (left : ℕ) (r : Parsed) where
  pub mss_read :
      (v : ℕ)
      → v < 65536
      → parse_loop (suc n) (fed (2 ∷ 4 ∷ bytes_16 v) p) (4 + left) r
        ≡ parse_loop n p left (r.0, record (r.1) { mss = v; has_mss = true })
  unfolding fed skip bytes_16 switch_opt
  mss_read v h =
      opt_round n (fed (2 ∷ 4 ∷ bytes_16 v) p) (4 + left) r (omega arith) (omega arith)
        (omega arith) refl
      ∙ ap₂ (λ l m. parse_loop n p l (r.0, record (r.1) { mss = m; has_mss = true })) (omega arith)
          (decode_16 v p h)

  pub wscale_read :
      parse_loop (suc (suc n)) (fed (3 ∷ 3 ∷ 10 ∷ 1 ∷ []) p) (4 + left) r
      ≡ parse_loop n p left (r.0, record (r.1) { has_wscale = true; wscale = 10 })
  unfolding fed skip switch_opt
  wscale_read =
      let o : Parsed = (r.0, record (r.1) { has_wscale = true; wscale = 10 }) in
      opt_round (suc n) (fed (3 ∷ 3 ∷ 10 ∷ 1 ∷ []) p) (4 + left) r (omega arith) (omega arith)
        (omega arith) refl
      ∙ nop_round n (fed (1 ∷ []) p) (4 + left - 3) o refl (omega arith)
      ∙ ap (λ l. parse_loop n p l o) (let e : 4 + left - 3 - 1 ≡ left = omega arith in e)

  pub sack_perm_read :
      parse_loop (suc (suc (suc n))) (fed (4 ∷ 2 ∷ 1 ∷ 1 ∷ []) p) (4 + left) r
      ≡ parse_loop n p left (r.0, record (r.1) { has_sack_perm = true })
  unfolding fed skip switch_opt
  sack_perm_read =
      let o : Parsed = (r.0, record (r.1) { has_sack_perm = true }) in
      opt_round (suc (suc n)) (fed (4 ∷ 2 ∷ 1 ∷ 1 ∷ []) p) (4 + left) r (omega arith) (omega arith)
        (omega arith) refl
      ∙ nop_round (suc n) (fed (1 ∷ 1 ∷ []) p) (4 + left - 2) o refl (omega arith)
      ∙ nop_round n (fed (1 ∷ []) p) (4 + left - 2 - 1) o refl (omega arith)
      ∙ ap (λ l. parse_loop n p l o) (let e : 4 + left - 2 - 1 - 1 ≡ left = omega arith in e)

  pub ts_read :
      (v e : ℕ)
      → v < 4294967296
      → e < 4294967296
      → parse_loop (suc (suc (suc n))) (fed (fill_opt_ts v e) p) (12 + left) r
        ≡ parse_loop n p left (r.0, record (r.1) { has_ts = true; ts_val = v; ts_ecr = e })
  unfolding fed skip switch_opt fill_opt_ts bytes_32
  ts_read v e h k =
      nop_round (suc (suc n)) (fed (fill_opt_ts v e) p) (12 + left) r refl (omega arith)
      ∙ nop_round (suc n) (skip 1 (fed (fill_opt_ts v e) p)) (12 + left - 1) r refl (omega arith)
      ∙ opt_round n (skip 2 (fed (fill_opt_ts v e) p)) (12 + left - 1 - 1) r (omega arith)
          (omega arith) (omega arith) refl
      ∙ ap₂ (λ l o. parse_loop n p l (r.0, o))
          (let z : 12 + left - 1 - 1 - 10 ≡ left = omega arith in z)
          (ap₂ (λ x y. record (r.1) { has_ts = true; ts_val = x; ts_ecr = y })
            (decode_32 v (fed (bytes_32 e) p) h) (decode_32 e p k))

  pub sack_read :
      (bs : List Block)
      → Small bs
      → length bs ≤ 3
      → let k = length bs in
        parse_loop
          (suc (suc (suc n)))
          (fed (1 ∷ 1 ∷ 5 ∷ (2 + 8 * k) ∷ fill_blocks bs) p)
          (4 + 8 * k + left)
          r
        ≡ parse_loop n p left (r.0, record (r.1) { sack_blocks = bs })
  unfolding fed skip
  sack_read bs h l =
      let k = length bs in
      let bytes = 5 ∷ (2 + 8 * k) ∷ fill_blocks bs in
      let switched = switch_sack k (fed (fill_blocks bs) p) r l in
      nop_round (suc (suc n)) (fed (1 ∷ 1 ∷ bytes) p) (4 + 8 * k + left) r refl (omega arith)
      ∙ nop_round (suc n) (fed (1 ∷ bytes) p) (4 + 8 * k + left - 1) r refl (omega arith)
      ∙ opt_round n (fed bytes p) (4 + 8 * k + left - 1 - 1) r (omega arith) (omega arith)
          (omega arith) (ap (λ x. x.0) switched)
      ∙ ap₂ (λ q l. parse_loop n q l (switch_opt 5 (2 + 8 * k) (fed (fill_blocks bs) p) r).1)
          (skip_all (2 + 8 * k) bytes p (omega (arith, length-fill_blocks bs)))
          (let z : 4 + 8 * k + left - 1 - 1 - (2 + 8 * k) ≡ left = omega arith in z)
      ∙ ap (λ x. parse_loop n p left x.1) switched
      ∙ ap (λ x. parse_loop n p left (r.0, record (r.1) { sack_blocks = x })) (blocks_read bs p h)
