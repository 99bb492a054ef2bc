-- ===== src/Tcp/Xmit/Ready.antt =====
-- The data of a socket that waits to be sent, and what a call of tcp_xmit_data has done with it.
use libtpa.Base.{ℕ, ◌+◌, ◌≤◌, ◌<◌, ◌≡◌, ◌⊎◌, false, List, [], length, drop, min, u32, sub32}
use libtpa.TcpQueue.Txq.Inv.{IsValid}
use libtpa.Dev.{Port}
use libtpa.Tcp.Sock.{Tsock}
use libtpa.Tcp.Header.{TxPkt}
use libtpa.Tcp.FlagPkt.{Net}
use libtpa.Tcp.Xmit.{tsock_snd_mss}
use libtpa.Tcp.Xmit.Stream.{stream, start, total, Contiguous}
use libtpa.Tcp.Xmit.Cores.{cores}
use libtpa.Tcp.Xmit.Flow.{Segments}

-- The data that waits to be sent: the descriptors from `nxt` on hold it without a gap, from the sequence
-- number `first` on, none of it is SACKed, and `sent` bytes of the first descriptor are sent already.
pub record Ready (s : Tsock) : Type 0 where
  pub first : ℕ
  pub sent : ℕ
  pub valid : IsValid s.txq
  pub follow : Contiguous first (cores s.txq s.txq.nxt)
  pub small : total (cores s.txq s.txq.nxt) < 2147483648
  pub seq : s.snd_nxt ≡ u32 (first + sent)
  pub end : s.data_seq_nxt ≡ u32 (first + total (cores s.txq s.txq.nxt))
  pub inside :
      (sent < start (cores s.txq s.txq.nxt) 1)
      ⊎ ((0 ≡ length (cores s.txq s.txq.nxt)) × (sent ≡ total (cores s.txq s.txq.nxt)))

-- Where the card reads the bytes that are not sent yet, in order.
abbrev pub unsent_bytes : (s : Tsock) → Ready s → List ℕ
unsent_bytes s rd = drop rd.sent (stream (cores s.txq s.txq.nxt))

-- Why no data can be sent: there is none, the window is used up, the segments have no room for data, the queue of the card
-- is full, or one of the two pools of packets is empty when the call first asks it.
abbrev pub Waits : {W : Type 0} → Net W → (s : Tsock) → Ready s → Port TxPkt W → Type 0
Waits {W} net s rd port =
    (unsent_bytes s rd ≡ [])
    ⊎ ((min s.snd_wnd s.cc.snd_cwnd ≤ sub32 s.snd_nxt s.snd_una)
        ⊎ ((tsock_snd_mss s ≡ 0)
            ⊎ ((4096 ≤ length port.pkts)
                ⊎ (((net.alloc_hdr port.world).0 ≡ false)
                    ⊎ ((net.alloc_zwrite (net.alloc_hdr port.world).1).0 ≡ false)))))

-- What a call of tcp_xmit_data has sent, of a socket `s` that is now `t`.
pub record Sends {W : Type 0} (net : Net W) (s : Tsock) (rd : Ready s) (port : Port TxPkt W)
    (pkts : List TxPkt) (t : Tsock) : Type 0 where
  pub count : ℕ
  pub segments : Segments s.snd_nxt (unsent_bytes s rd) (tsock_snd_mss s) pkts count
  pub nxt : t.snd_nxt ≡ u32 (s.snd_nxt + count)
  pub una : t.snd_una ≡ s.snd_una
  pub within : (count ≡ 0) ⊎ (sub32 s.snd_nxt s.snd_una + count ≤ min s.snd_wnd s.cc.snd_cwnd)
  pub progress : (0 < count) ⊎ Waits net s rd port
  pub ready : Ready t
  pub rest : unsent_bytes t ready ≡ drop count (unsent_bytes s rd)
