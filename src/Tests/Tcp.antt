-- ===== src/Tests/Tcp.antt =====
-- The estimators, the window and the SACK report of src/tcp/tcp_input.c on concrete inputs.
use libtpa.Base.{
  ◌+◌, ◌-◌, ◌/◌, ◌≤◌, ◌≡◌, refl, true, List, [], ◌∷◌, length, leb, ltb, min, max, arith, u32,
}
use libtpa.Tcp.Seq.{seq_lt, seq_le, seq_gt, seq_ge, off, seq_compare-off}
use libtpa.Tcp.Rtt.{Estimate, rtt_update, rto_max}
use libtpa.Tcp.Rtt.Bounds.{IsValid, rtt_update-IsValid, rtt_update-smooths, dist}
use libtpa.Tcp.Cwnd.{Cwnd, update_cwnd, update_cwnd-IsValid, update_cwnd-monotone}
use libtpa.Tcp.Cwnd
use libtpa.Tcp.Sack.{Block, sack_update, sack_regulate}
use libtpa.Tcp.Sack.Cover.{
  Reported, covers, covers_above, StartAbove, AreBlocks, sack_update-Reported, sack_regulate-above,
}

-- The numbers wrap between the two.
seq_compare-off_example :
    (seq_lt 4294967290 5 ≡ ltb (off 4294967290 4294967290) (off 4294967290 5))
    × (seq_le 4294967290 5 ≡ leb (off 4294967290 4294967290) (off 4294967290 5))
    × (seq_gt 4294967290 5 ≡ ltb (off 4294967290 5) (off 4294967290 4294967290))
    × (seq_ge 4294967290 5 ≡ leb (off 4294967290 5) (off 4294967290 4294967290))
seq_compare-off_example =
    seq_compare-off 4294967290 4294967290 5 (omega arith) (omega arith) (omega arith)

abbrev settled : Estimate
settled = record { rtt = 1000; srtt = 8000; rttvar = 2000; rto = 101000 }

rtt_update-IsValid_example :
    let e' = rtt_update 100000 500 settled in
    IsValid e' × (e'.rto ≡ min (e'.srtt / 8 + max 100000 e'.rttvar) rto_max)
rtt_update-IsValid_example =
    rtt_update-IsValid 100000 500 settled (omega arith) (omega arith) (omega arith)

rtt_update-smooths_example :
    let e' = rtt_update 100000 500 settled in
    (e'.srtt ≡ 8000 - 8000 / 8 + 500) × (e'.rttvar ≡ 2000 - 2000 / 4 + dist 500 (8000 / 8))
rtt_update-smooths_example =
    rtt_update-smooths 100000 500 settled (omega arith) (omega arith) (omega arith)

rtt_update-settled : (rtt_update 100000 500 settled).srtt ≡ 7500
unfolding rtt_update
rtt_update-settled = refl

abbrev open_window : Cwnd
open_window = record {
  snd_cwnd = 16384;
  uncommited = 16000;
  ts_us = 0;
  ssthresh = 100000;
  snd_mss = 1448;
}

update_cwnd-IsValid_example : Cwnd.IsValid 1000000 (update_cwnd 1000000 5000 8000 1000 open_window)
update_cwnd-IsValid_example = update_cwnd-IsValid 1000000 5000 8000 1000 open_window (omega arith)

update_cwnd-monotone_example :
    let c' = update_cwnd 1000000 5000 8000 1000 open_window in
    (16384 ≤ c'.snd_cwnd) × (c'.snd_cwnd ≤ 16384 + (16000 + 1000) + 1)
update_cwnd-monotone_example =
    update_cwnd-monotone 1000000 5000 8000 1000 open_window (omega arith) (omega arith)
      (omega arith) (omega arith) (omega arith)

abbrev held : List Block
held = record { start = 4294967290; end = 4 } ∷ record { start = 50; end = 60 } ∷ []

sack_update-Reported_example :
    Reported 4294967280 24 4 (u32 (4 + 46)) held (sack_update true 4 46 held)
sack_update-Reported_example =
    sack_update-Reported 4294967280 (omega arith) 24 4 46 held (omega arith) (omega arith)
      (omega arith)

sack_regulate-above_example :
    let out = sack_regulate 4 held in
    (covers 4294967280 24 out ≡ covers_above 4294967280 4 24 held)
    × StartAbove 4294967280 4 out
    × AreBlocks 4294967280 out
    × (length out ≤ 2)
sack_regulate-above_example =
    sack_regulate-above 4294967280 (omega arith) 4 24 held (omega arith) (omega arith)
