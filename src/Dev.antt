-- ===== src/Dev.antt =====
-- The queue of packets that wait for the network card (include/dev.h: struct dev_txq and its operations),
-- as a list. The driver's rte_eth_tx_burst is a parameter: it says how many of the packets it takes. The
-- choice of another port when the link is down belongs to it. Fuzzing is left out.
use libtpa.Base.{
  ℕ, ◌+◌, ◌-◌, ◌≤◌, ◌<◌, ◌≡◌, Bool, true, false, not, ◌||◌, List, [], ◌∷◌, ◌++◌, if◌then◌else◌, leb,
  ◌==◌, length, length-append, length-drop, take, drop, min, arith,
}

pub record Nic (A W : Type 0) : Type 0 where
  pub has_port : Bool  -- tpa_cfg.nr_dpdk_port is not 0
  pub burst : List A → W → ℕ × W  -- rte_eth_tx_burst

-- The queue with what is behind it.
pub record Port (A W : Type 0) : Type 0 where
  pub pkts : List A
  pub world : W

module _ {A W : Type 0} where
  -- TXQ_BUF_SIZE is 4096.
  unfoldable pub txq_free_count : Port A W → ℕ
  txq_free_count p = 4096 - length p.pkts

  -- BATCH_SIZE is 64.
  unfoldable pub txq_flush : Nic A W → Port A W → Port A W
  txq_flush nic p =
      let (taken, world) = nic.burst (take (min (length p.pkts) 64) p.pkts) p.world in
      if (length p.pkts == 0) || not nic.has_port
      then p
      else record { pkts = drop taken p.pkts; world = world }

  -- `false` is the error ERR_DEV_TXQ_FULL.
  unfoldable pub txq_enqueue : Nic A W → A → Port A W → Bool × Port A W
  txq_enqueue nic pkt p =
      let q = record p { pkts = p.pkts ++ (pkt ∷ []) } in
      if leb 4096 (length p.pkts)
      then (false, p)
      else (true, if leb 64 (length q.pkts) then txq_flush nic q else q)

  txq_flush-length : (nic : Nic A W) (p : Port A W) → length (txq_flush nic p).pkts ≤ length p.pkts
  unfolding txq_flush
  txq_flush-length nic p =
      ground
        (arith, length-drop (nic.burst (take (min (length p.pkts) 64) p.pkts) p.world).0 p.pkts)

  -- With room for a packet the enqueue succeeds, and takes at most that room.
  pub txq_enqueue-length :
      (nic : Nic A W) (pkt : A) (p : Port A W)
      → length p.pkts < 4096
      → ((txq_enqueue nic pkt p).0 ≡ true)
        × (length (txq_enqueue nic pkt p).1.pkts ≤ length p.pkts + 1)
  unfolding txq_enqueue
  txq_enqueue-length nic pkt p h =
      let q = record p { pkts = p.pkts ++ (pkt ∷ []) } in
      ground (arith, length-append p.pkts (pkt ∷ []), txq_flush-length nic q)
