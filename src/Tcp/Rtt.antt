-- ===== src/Tcp/Rtt.antt =====
-- `rtt_update` (src/tcp/tcp_input.c): the round-trip estimate and the retransmission timeout. Its
-- `int rtt` is kept as a bit pattern of 32 bits, like the uint32_t fields.
pub mod Bounds
use libtpa.Base.{
  ℕ, ◌+◌, ◌-◌, ◌*◌, ◌/◌, ◌%◌, ◌≡◌, min, max, if◌then◌else◌, ◌==◌, leb, not, ◌||◌, u32, sub32,
}
use libtpa.Tcp.Seq.{is_neg}

abbrev pub rtt_max : ℕ
rtt_max = 400 * 1000

abbrev pub rto_max : ℕ
rto_max = 120 * 1000 * 1000

pub record Estimate : Type 0 where
  pub rtt : ℕ
  pub srtt : ℕ
  pub rttvar : ℕ
  pub rto : ℕ

-- RTE_MIN(rtt, TCP_RTT_MAX) on an int.
pub clamp_rtt : ℕ → ℕ
clamp_rtt rtt = if is_neg rtt || leb rtt rtt_max then rtt else rtt_max

-- The branch of a connection with an estimate: `d` is `rtt - (srtt >> 3)`.
pub smooth : ℕ → Estimate → Estimate
unfolding clamp_rtt
smooth rtt e =
    let d = sub32 rtt (e.srtt / 8) in
    let err = if is_neg d then clamp_rtt (sub32 0 d) else d in
    record e { srtt = u32 (e.srtt + d); rttvar = u32 (e.rttvar + sub32 err (e.rttvar / 4)) }

pub first_sample : ℕ → Estimate → Estimate
first_sample rtt e = record e { srtt = u32 (rtt * 8); rttvar = u32 (rtt * 2) }

unfoldable pub rtt_update : ℕ → ℕ → Estimate → Estimate
unfolding clamp_rtt smooth first_sample
rtt_update rto_min sample e =
    let rtt = clamp_rtt sample in
    let e' = if e.srtt == 0 then first_sample rtt e else smooth rtt e in
    record e' { rtt = rtt; rto = min (u32 (e'.srtt / 8 + max rto_min e'.rttvar)) rto_max }
