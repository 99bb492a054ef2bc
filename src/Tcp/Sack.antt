-- ===== src/Tcp/Sack.antt =====
-- The SACK blocks that a receiver reports (src/tcp/tcp_input.c: sack_merge, sack_try_merge_blocks,
-- sack_update, sack_regulate). `sack_blocks[0 .. nr_sack_block)` is a list, newest first; the array
-- has room for TCP_MAX_NR_SACK_BLOCK entries.
pub mod Merge
pub mod Cover
use libtpa.Base.{
  ℕ, ◌+◌, ◌-◌, min, Bool, not, ◌||◌, Option, some, none, List, [], ◌∷◌, ◌++◌, if◌then◌else◌, length,
  take, u32,
}
use libtpa.Tcp.Seq.{seq_lt, seq_gt}

pub record Block : Type 0 where
  pub start : ℕ
  pub end : ℕ

abbrev pub max_nr_sack_block : ℕ
max_nr_sack_block = 3

-- `none` is the result 0; `some b` is the result 1 with the block updated to `b`.
pub sack_merge : Block → ℕ → ℕ → Option Block
sack_merge blk start end =
    if seq_lt end blk.start || seq_gt start blk.end
    then none
    else some (record {
      start = if seq_lt start blk.start then start else blk.start;
      end = if seq_gt end blk.end then end else blk.end;
    })

-- The loop of sack_try_merge_blocks: the first block takes in what it can of the others, and the rest
-- move up in order.
pub absorb : Block → List Block → Block × List Block
absorb blk [] = (blk, [])
absorb blk (b ∷ bs) = elim (sack_merge blk b.start b.end) [
  | some blk' ↦ absorb blk' bs
  | none ↦ (let (blk', kept) = absorb blk bs in (blk', b ∷ kept))
]

pub try_merge_blocks : List Block → List Block
unfolding absorb
try_merge_blocks [] = []
try_merge_blocks (b ∷ bs) = let (b', kept) = absorb b bs in b' ∷ kept

-- SACK_SWAP of the merged block with the first one; `pre` are the blocks before it.
pub swap_front : List Block → Block → List Block → List Block
swap_front [] blk post = blk ∷ post
swap_front (first ∷ pre) blk post = blk ∷ (pre ++ (first ∷ post))

-- The search of sack_update for a block to merge with; `pre` are the blocks passed.
pub merge_first : ℕ → ℕ → List Block → List Block → Option (List Block)
merge_first start end pre [] = none
merge_first start end pre (b ∷ bs) =
    let rest = merge_first start end (pre ++ (b ∷ [])) bs in
    elim (sack_merge b start end) [
      | some b' ↦ some (try_merge_blocks (swap_front pre b' bs))
      | none ↦ rest
    ]

-- Without a merge the oldest of three blocks drops out and the new one comes first.
pub sack_update : Bool → ℕ → ℕ → List Block → List Block
unfolding merge_first try_merge_blocks swap_front
sack_update sack_ok start len blocks =
    let end = u32 (start + len) in
    if not sack_ok then blocks else elim (merge_first start end [] blocks) [
      | some blocks' ↦ blocks'
      | none ↦
          record { start = start; end = end }
          ∷ take (min (length blocks) (max_nr_sack_block - 1)) blocks
    ]

-- Blocks at or below what was received in order are dropped.
pub sack_regulate : ℕ → List Block → List Block
sack_regulate rcv_nxt [] = []
sack_regulate rcv_nxt (b ∷ bs) =
    let rest = sack_regulate rcv_nxt bs in if seq_gt b.start rcv_nxt then b ∷ rest else rest
