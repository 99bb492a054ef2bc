-- ===== src/Tcp/Seq.antt =====
-- Sequence numbers (include/tcp.h): uint32_t, compared by the sign of their difference.
use libtpa.Base.{ℕ, ◌<◌, ◌≡◌, Bool, not, ◌&&◌, ◌||◌, arith, leb, ltb, ◌==◌, sub32}

-- `(int)d < 0` for the bit pattern `d` of an int.
abbrev pub is_neg : ℕ → Bool
is_neg d = leb 2147483648 d

unfoldable pub seq_lt : ℕ → ℕ → Bool
seq_lt a b = is_neg (sub32 a b)

unfoldable pub seq_le : ℕ → ℕ → Bool
seq_le a b = leb 2147483648 (sub32 a b) || (sub32 a b == 0)

unfoldable pub seq_gt : ℕ → ℕ → Bool
seq_gt a b = not (is_neg (sub32 a b)) && not (sub32 a b == 0)

unfoldable pub seq_ge : ℕ → ℕ → Bool
seq_ge a b = not (is_neg (sub32 a b))

-- The offset of a sequence number from a base.
abbrev pub off : ℕ → ℕ → ℕ
off base a = sub32 a base

-- A sequence number in the half of the space that starts at `base`.
abbrev pub InWindow : ℕ → ℕ → Type 0
InWindow base a = (a < 4294967296) × (off base a < 2147483648)

module _ (base a b : ℕ) (base_lt : base < 4294967296) (ha : InWindow base a)
    (hb : InWindow base b) where
  -- Within half the space the comparisons are those of the offsets from any base, also where the
  -- numbers wrap.
  pub seq_lt-off : seq_lt a b ≡ ltb (off base a) (off base b)
  unfolding seq_lt
  seq_lt-off = ground arith

  pub seq_le-off : seq_le a b ≡ leb (off base a) (off base b)
  unfolding seq_le
  seq_le-off = ground arith

  pub seq_gt-off : seq_gt a b ≡ ltb (off base b) (off base a)
  unfolding seq_gt
  seq_gt-off = ground arith

  pub seq_ge-off : seq_ge a b ≡ leb (off base b) (off base a)
  unfolding seq_ge
  seq_ge-off = ground arith

-- Within the half of the sequence space that starts at any base, the four comparisons are those of
-- the offsets from that base, also where the numbers wrap.
pub seq_compare-off :
    (base a b : ℕ)
    → base < 4294967296
    → InWindow base a
    → InWindow base b
    → (seq_lt a b ≡ ltb (off base a) (off base b))
      × (seq_le a b ≡ leb (off base a) (off base b))
      × (seq_gt a b ≡ ltb (off base b) (off base a))
      × (seq_ge a b ≡ leb (off base b) (off base a))
seq_compare-off base a b h ha hb = (
  seq_lt-off base a b h ha hb,
  seq_le-off base a b h ha hb,
  seq_gt-off base a b h ha hb,
  seq_ge-off base a b h ha hb,
)
