-- ===== src/Tcp/Cwnd.antt =====
-- The congestion window (src/tcp/tcp_input.c: set_cwnd and update_cwnd).
use libtpa.Base.{ℕ, ◌+◌, ◌*◌, ◌/◌, ◌≤◌, ◌<◌, min, max, if◌then◌else◌, ltb, arith, u32, sub64}

pub record Cwnd : Type 0 where
  pub snd_cwnd : ℕ  -- uint32_t
  pub uncommited : ℕ  -- uint32_t
  pub ts_us : ℕ  -- uint64_t
  pub ssthresh : ℕ  -- uint32_t
  pub snd_mss : ℕ  -- uint16_t

-- `cwnd_max` is tcp_cfg.cwnd_max.
pub set_cwnd : ℕ → ℕ → Cwnd → Cwnd
set_cwnd cwnd_max cwnd c = record c { snd_cwnd = max (min cwnd cwnd_max) c.snd_mss }

pub grow : Cwnd → ℕ
grow c =
    if ltb c.snd_cwnd c.ssthresh
    then u32 (c.snd_cwnd + c.uncommited)
    else u32 (c.snd_cwnd + max 1 (u32 (c.uncommited * c.snd_mss) / c.snd_cwnd))

-- `now` is worker->ts_us and `srtt` that of the socket.
pub update_cwnd : ℕ → ℕ → ℕ → ℕ → Cwnd → Cwnd
unfolding set_cwnd grow
update_cwnd cwnd_max now srtt acked c =
    let c1 = record c { uncommited = u32 (c.uncommited + acked) } in
    if ltb (sub64 now c.ts_us) (srtt / 8)
    then c1
    else let c2 = if ltb c1.uncommited c1.snd_cwnd then c1 else set_cwnd cwnd_max (grow c1) c1 in
      record c2 { ts_us = now; uncommited = 0 }

pub record IsValid (cwnd_max : ℕ) (c : Cwnd) : Type 0 where
  pub at_least : c.snd_mss ≤ c.snd_cwnd
  pub at_most : c.snd_cwnd ≤ max cwnd_max c.snd_mss

-- A window between one segment and the configured maximum stays so.
pub update_cwnd-IsValid :
    (cwnd_max now srtt acked : ℕ) (c : Cwnd)
    → IsValid cwnd_max c
    → IsValid cwnd_max (update_cwnd cwnd_max now srtt acked c)
unfolding update_cwnd
update_cwnd-IsValid cwnd_max now srtt acked c v = ground arith

-- The share of a round trip is no more than what was acknowledged.
share_le : (u m c : ℕ) → m ≤ c → 0 < c → u32 (u * m) / c ≤ u
share_le u m c h p = grind arith

grow_bounds :
    (c : Cwnd)
    → c.snd_mss ≤ c.snd_cwnd
    → 0 < c.snd_mss
    → c.snd_cwnd ≤ 1073741824
    → c.uncommited < 1073741824
    → (c.snd_cwnd ≤ grow c) × (grow c ≤ c.snd_cwnd + c.uncommited + 1)
unfolding grow
grow_bounds c a b d e =
    ground (arith, share_le c.uncommited c.snd_mss c.snd_cwnd (omega arith) (omega arith))

-- Let the window be at least one MSS and at most the larger of cwnd_max and one MSS, the MSS positive and
-- below 2^16, cwnd_max at most 2^30, and let fewer than 2^30 bytes be acknowledged since the last commit, this
-- time included. Then an acknowledgement never shrinks the window, and grows it by at most what was
-- acknowledged since the last commit and one byte.
pub update_cwnd-monotone :
    (cwnd_max now srtt acked : ℕ) (c : Cwnd)
    → IsValid cwnd_max c
    → cwnd_max ≤ 1073741824
    → c.snd_mss < 65536
    → 0 < c.snd_mss
    → c.uncommited + acked < 1073741824
    → let c' = update_cwnd cwnd_max now srtt acked c in
      (c.snd_cwnd ≤ c'.snd_cwnd) × (c'.snd_cwnd ≤ c.snd_cwnd + (c.uncommited + acked) + 1)
unfolding update_cwnd
update_cwnd-monotone cwnd_max now srtt acked c v a b d e =
    ground (arith, grow_bounds (record c { uncommited = u32 (c.uncommited + acked) }))
