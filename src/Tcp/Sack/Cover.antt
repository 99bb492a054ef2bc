-- ===== src/Tcp/Sack/Cover.antt =====
-- What the reported blocks cover: nothing but received ranges, and the newest one first.
use libtpa.Base.{
  ℕ, zero, suc, ◌+◌, ◌<◌, ◌≤◌, ◌≡◌, refl, subst, min, Bool, true, false, ◌&&◌, ◌||◌, some, List, [],
  ◌∷◌, ◌++◌, length, ltb, ltb→lt, length-append, length-take, take, arith, u32, Option-cases,
  Bool-cases, inl, inr,
}
use mathlib.Core.Option.{some-injective}
use mathlib.Core.List.{append_assoc}
use libtpa.Tcp.Seq.{InWindow, off, seq_gt-off}
use libtpa.Tcp.Sack.{
  Block, sack_merge, absorb, try_merge_blocks, swap_front, merge_first, sack_update, sack_regulate,
  max_nr_sack_block,
}
use libtpa.Tcp.Sack.Merge.{in_range, in_block, IsRange, IsBlock, sack_merge-covers}

-- Some block covers the byte at offset `o`.
abbrev pub covers : ℕ → ℕ → List Block → Bool
covers base o [] = false
covers base o (b ∷ bs) = in_block base o b || covers base o bs

abbrev pub AreBlocks : ℕ → List Block → Type 0
AreBlocks base [] = Unit {0}
AreBlocks base (b ∷ bs) = IsBlock base b × AreBlocks base bs

-- The first block covers the byte at offset `o`.
abbrev pub covers_first : ℕ → ℕ → List Block → Bool
covers_first base o [] = false
covers_first base o (b ∷ bs) = in_block base o b

-- Some block that starts above `n` covers the byte at offset `o`.
abbrev pub covers_above : ℕ → ℕ → ℕ → List Block → Bool
covers_above base n o [] = false
covers_above base n o (b ∷ bs) =
    (ltb (off base n) (off base b.start) && in_block base o b) || covers_above base n o bs

abbrev pub StartAbove : ℕ → ℕ → List Block → Type 0
StartAbove base n [] = Unit {0}
StartAbove base n (b ∷ bs) = (off base n < off base b.start) × StartAbove base n bs

module _ (base : ℕ) where
  -- What a loop of merges does to a first block and the others.
  record Absorbed (o : ℕ) (b : Block) (bs : List Block) (out : Block × List Block) : Type 0 where
    same : (in_block base o out.0 || covers base o out.1) ≡ (in_block base o b || covers base o bs)
    grows : in_block base o b ≡ true → in_block base o out.0 ≡ true
    first : IsBlock base out.0
    others : AreBlocks base out.1
    count : length out.1 ≤ length bs

  -- What an update leaves of a list of blocks: the union with a range, the range in the first block.
  record Joined (o start end : ℕ) (bs out : List Block) : Type 0 where
    union : covers base o out ≡ (covers base o bs || in_range base o start end)
    newest : in_range base o start end ≡ true → covers_first base o out ≡ true
    blocks : AreBlocks base out
    bound : length out ≤ length bs

  -- The report after a segment arrives.
  pub record Reported (o start end : ℕ) (bs out : List Block) : Type 0 where
    pub sound : covers base o out ≡ true → (covers base o bs || in_range base o start end) ≡ true
    pub newest : in_range base o start end ≡ true → covers_first base o out ≡ true
    pub blocks : AreBlocks base out
    pub bound : length out ≤ max_nr_sack_block

module _ (base : ℕ) (base_lt : base < 4294967296) where
  covers-append :
      (o : ℕ) (xs ys : List Block)
      → covers base o (xs ++ ys) ≡ (covers base o xs || covers base o ys)
  covers-append o [] ys = refl
  covers-append o (x ∷ xs) ys = ground (arith, covers-append o xs ys)

  AreBlocks-append :
      (xs ys : List Block) → AreBlocks base xs → AreBlocks base ys → AreBlocks base (xs ++ ys)
  AreBlocks-append [] ys h k = k
  AreBlocks-append (x ∷ xs) ys h k = (h.0, AreBlocks-append xs ys h.1 k)

  absorb-Absorbed :
      (o : ℕ) (b : Block) (bs : List Block)
      → IsBlock base b
      → AreBlocks base bs
      → Absorbed base o b bs (absorb b bs)
  unfolding absorb
  absorb-Absorbed o b [] h k = record {
    same = refl;
    grows = λ e. e;
    first = h;
    others = k;
    count = omega arith;
  }
  absorb-Absorbed o b (c ∷ bs) h k = elim (Option-cases (sack_merge b c.start c.end)) [
    | inl e ↦ rw (e, absorb) (passed (absorb b bs) (absorb-Absorbed o b bs h k.1))
    | inr (b', e) ↦
        rw (e, absorb)
          (taken b' (sack_merge-covers base base_lt b c.start c.end h k.0 o b' e) (absorb b' bs) (
            absorb-Absorbed o b' bs (sack_merge-covers base base_lt b c.start c.end h k.0 o b' e).1
              k.1))
  ]
    where
      passed :
          (out : Block × List Block)
          → Absorbed base o b bs out
          → Absorbed base o b (c ∷ bs) (out.0, c ∷ out.1)
      passed out a = record {
        same = ground (arith, a.same);
        grows = a.grows;
        first = a.first;
        others = (k.0, a.others);
        count = omega (arith, a.count);
      }

      taken :
          (b' : Block)
          → (in_block base o b' ≡ (in_block base o b || in_block base o c)) × IsBlock base b'
          → (out : Block × List Block) → Absorbed base o b' bs out
          → Absorbed base o b (c ∷ bs) out
      taken b' m out a = record {
        same = ground (arith, a.same, m.0);
        grows = λ e. a.grows (ground (arith, m.0));
        first = a.first;
        others = a.others;
        count = omega (arith, a.count);
      }

  try_merge_blocks-Joined :
      (o start end : ℕ) (pre post : List Block) (b b' : Block)
      → AreBlocks base pre
      → AreBlocks base post
      → IsBlock base b'
      → in_block base o b' ≡ (in_block base o b || in_range base o start end)
      → Joined base o start end (pre ++ (b ∷ post)) (try_merge_blocks (swap_front pre b' post))
  unfolding try_merge_blocks swap_front
  try_merge_blocks-Joined o start end [] post b b' hp hq h e =
      let a = absorb-Absorbed o b' post h hq in
      record {
        union = ground (arith, a.same, e);
        newest = λ r. a.grows (ground (arith, e));
        blocks = (a.first, a.others);
        bound = omega (arith, a.count);
      }
  try_merge_blocks-Joined o start end (f ∷ pre) post b b' hp hq h e =
      let a =
        absorb-Absorbed o b' (pre ++ (f ∷ post)) h
          (AreBlocks-append pre (f ∷ post) hp.1 (hp.0, hq)) in
      record {
        union =
            ground
              (arith, a.same, e, covers-append o pre (f ∷ post), covers-append o pre (b ∷ post));
        newest = λ r. a.grows (ground (arith, e));
        blocks = (a.first, a.others);
        bound = omega (arith, a.count, length-append pre (f ∷ post), length-append pre (b ∷ post));
      }

  merge_first-Joined :
      (o start end : ℕ) (pre bs : List Block) (out : List Block)
      → IsRange base start end
      → AreBlocks base pre
      → AreBlocks base bs
      → merge_first start end pre bs ≡ some out
      → Joined base o start end (pre ++ bs) out
  unfolding merge_first
  merge_first-Joined o start end pre [] out hr hp hb e = cc
  merge_first-Joined o start end pre (b ∷ bs) out hr hp hb e =
      elim (Option-cases (sack_merge b start end)) [
        | inl m ↦
            subst (λ l. Joined base o start end l out) (append_assoc pre (b ∷ []) bs)
              (merge_first-Joined o start end (pre ++ (b ∷ [])) bs out hr
                (AreBlocks-append pre (b ∷ []) hp (hb.0, tt)) hb.1 (rw (m, merge_first) at e))
        | inr (b', m) ↦
            subst (λ l. Joined base o start end (pre ++ (b ∷ bs)) l)
              (some-injective _ _ (rw (m, merge_first) at e))
              (joined b' (sack_merge-covers base base_lt b start end hb.0 hr o b' m))
      ]
    where
      joined :
          (b' : Block)
          → (in_block base o b' ≡ (in_block base o b || in_range base o start end))
            × IsBlock base b'
          → Joined base o start end (pre ++ (b ∷ bs)) (try_merge_blocks (swap_front pre b' bs))
      joined b' m = try_merge_blocks-Joined o start end pre bs b b' hp hb.1 m.1 m.0

  take-AreBlocks : (n : ℕ) (bs : List Block) → AreBlocks base bs → AreBlocks base (take n bs)
  take-AreBlocks zero bs h = tt
  take-AreBlocks (suc n) [] h = tt
  take-AreBlocks (suc n) (b ∷ bs) h = (h.0, take-AreBlocks n bs h.1)

  covers-take :
      (o n : ℕ) (bs : List Block) → covers base o (take n bs) ≡ true → covers base o bs ≡ true
  covers-take o zero bs h = cc
  covers-take o (suc n) [] h = h
  covers-take o (suc n) (b ∷ bs) h = ground (arith, h, covers-take o n bs)

  -- With SACK on and at most three blocks, all in the half of the sequence space from `base` on, a new
  -- out-of-order segment leaves at most three blocks. They cover only bytes that were covered before
  -- or lie in the segment, and the first block covers every byte of the segment.
  pub sack_update-Reported :
      (o start len : ℕ) (bs : List Block)
      → AreBlocks base bs
      → length bs ≤ max_nr_sack_block
      → IsRange base start (u32 (start + len))
      → Reported base o start (u32 (start + len)) bs (sack_update true start len bs)
  unfolding sack_update
  sack_update-Reported o start len bs h l r =
      elim (Option-cases (merge_first start (u32 (start + len)) [] bs)) [
        | inl e ↦
            rw (e, sack_update)
              (record {
                sound = λ c. ground (arith, c, covers-take o (min (length bs) 2) bs);
                newest = λ c. c;
                blocks = (r, take-AreBlocks (min (length bs) 2) bs h);
                bound = omega (arith, length-take (min (length bs) 2) bs);
              })
        | inr (out, e) ↦
            rw (e, sack_update)
              (joined out (merge_first-Joined o start (u32 (start + len)) [] bs out r tt h e))
      ]
    where
      joined :
          (out : List Block)
          → Joined base o start (u32 (start + len)) bs out
          → Reported base o start (u32 (start + len)) bs out
      joined out j = record {
        sound = λ c. ground (arith, j.union);
        newest = j.newest;
        blocks = j.blocks;
        bound = omega (arith, j.bound);
      }

  -- Once data up to `rcv_nxt` is received in order, the blocks that are kept are at most as many, lie
  -- above `rcv_nxt`, and cover exactly the bytes that the blocks which start above it covered.
  pub sack_regulate-above :
      (rcv_nxt o : ℕ) (bs : List Block)
      → InWindow base rcv_nxt
      → AreBlocks base bs
      → let out = sack_regulate rcv_nxt bs in
        (covers base o out ≡ covers_above base rcv_nxt o bs)
        × StartAbove base rcv_nxt out
        × AreBlocks base out
        × (length out ≤ length bs)
  unfolding sack_regulate
  sack_regulate-above rcv_nxt o [] hr h = (refl, tt, tt, omega arith)
  sack_regulate-above rcv_nxt o (c ∷ bs) hr h =
      let (same, above, blocks, bound) = sack_regulate-above rcv_nxt o bs hr h.1 in
      let kept = seq_gt-off base c.start rcv_nxt base_lt h.0.0 hr in
      elim (Bool-cases (ltb (off base rcv_nxt) (off base c.start))) [
        | inl e ↦
            rw (kept, e) (ground (arith, same), (ltb→lt _ _ e, above), (h.0, blocks), omega arith)
        | inr e ↦ rw (kept, e) (ground (arith, same), above, blocks, omega arith)
      ]
