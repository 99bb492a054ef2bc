-- ===== src/Tcp/Rtt/Bounds.antt =====
-- The estimate stays in range, so none of its sums wraps, and follows the filter of Jacobson.
use libtpa.Base.{ℕ, ◌+◌, ◌-◌, ◌*◌, ◌/◌, ◌≤◌, ◌<◌, ◌≡◌, ◌≢◌, min, max, arith}
use libtpa.Tcp.Rtt.{Estimate, rtt_max, rto_max, rtt_update}

pub record IsValid (e : Estimate) : Type 0 where
  pub srtt_le : e.srtt ≤ 8 * rtt_max
  pub rttvar_le : e.rttvar ≤ 4 * rtt_max

-- For every sample that is no negative int, an update keeps the estimate in range: `srtt` at most eight
-- and `rttvar` at most four times TCP_RTT_MAX. The timeout is then exactly `srtt / 8` plus the larger of
-- the configured minimum and `rttvar`, capped at TCP_RTO_MAX.
pub rtt_update-IsValid :
    (rto_min sample : ℕ) (e : Estimate)
    → IsValid e
    → sample < 2147483648
    → rto_min < 2147483648
    → let e' = rtt_update rto_min sample e in
      IsValid e' × (e'.rto ≡ min (e'.srtt / 8 + max rto_min e'.rttvar) rto_max)
unfolding rtt_update
rtt_update-IsValid rto_min sample e v h k = ground arith

-- distance
abbrev pub dist : ℕ → ℕ → ℕ
dist a b = (a - b) + (b - a)

-- From a valid estimate that is not zero, an update by a sample of at most TCP_RTT_MAX moves `srtt / 8`
-- an eighth towards the sample and `rttvar / 4` a quarter towards the distance of the two.
pub rtt_update-smooths :
    (rto_min sample : ℕ) (e : Estimate)
    → IsValid e
    → e.srtt ≢ 0
    → sample ≤ rtt_max
    → let e' = rtt_update rto_min sample e in
      (e'.srtt ≡ e.srtt - e.srtt / 8 + sample)
      × (e'.rttvar ≡ e.rttvar - e.rttvar / 4 + dist sample (e.srtt / 8))
unfolding rtt_update
rtt_update-smooths rto_min sample e v ne h = ground arith
