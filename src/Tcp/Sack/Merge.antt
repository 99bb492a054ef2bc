-- ===== src/Tcp/Sack/Merge.antt =====
-- What a merge of two SACK ranges covers.
use libtpa.Base.{ℕ, ◌<◌, ◌≤◌, ◌≡◌, Bool, ◌&&◌, ◌||◌, some, ltb, leb, arith}
use libtpa.Tcp.Seq.{off, InWindow, seq_lt-off, seq_gt-off}
use libtpa.Tcp.Sack.{Block, sack_merge}

-- The byte at offset `o` from the base lies in the block.
abbrev pub in_range : ℕ → ℕ → ℕ → ℕ → Bool
in_range base o start end = leb (off base start) o && ltb o (off base end)

abbrev pub in_block : ℕ → ℕ → Block → Bool
in_block base o b = in_range base o b.start b.end

-- A range of the half of the sequence space from `base` on, its ends in order.
abbrev pub IsRange : ℕ → ℕ → ℕ → Type 0
IsRange base start end = InWindow base start × InWindow base end × (off base start ≤ off base end)

abbrev pub IsBlock : ℕ → Block → Type 0
IsBlock base b = IsRange base b.start b.end

module _ (base : ℕ) (base_lt : base < 4294967296) (blk : Block) (start end : ℕ)
    (hb : IsBlock base blk) (hr : IsRange base start end) where
  -- A merge covers exactly the union of the two ranges.
  pub sack_merge-covers :
      (o : ℕ) (b' : Block)
      → sack_merge blk start end ≡ some b'
      → (in_block base o b' ≡ (in_block base o blk || in_range base o start end)) × IsBlock base b'
  unfolding sack_merge
  sack_merge-covers o b' e = ground (
    arith,
    seq_lt-off base end blk.start base_lt hr.1 hb.0,
    seq_gt-off base start blk.end base_lt hr.0 hb.1,
    seq_lt-off base start blk.start base_lt hr.0 hb.0,
    seq_gt-off base end blk.end base_lt hr.1 hb.1,
  )
