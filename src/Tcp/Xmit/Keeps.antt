-- ===== src/Tcp/Xmit/Keeps.antt =====
-- What the sending of data leaves alone in a socket.
use libtpa.Base.{ℕ, ◌+◌, ◌≤◌, ◌≡◌, refl, ◌∙◌, false, some, arith, u16}
use libtpa.TcpQueue.Txq.{Txq}
use libtpa.Tcp.Sock.{Desc, Tsock, Cfg, Worker}
use libtpa.Tcp.Options.{enabled_opts, calc_tcp_opt_len}
use libtpa.Tcp.Header.{Payload, ack_flag, checked_wnd, with_hdr, prepend_tcp_hdr}
use libtpa.Tcp.FlagPkt.{clear_tcp_flags}
use libtpa.Tcp.Xmit.{tsock_snd_mss}

abbrev pub hdr_size : Tsock → ℕ
hdr_size s = s.net_hdr_len + (20 + calc_tcp_opt_len s (enabled_opts s false))

-- What the sending of data leaves alone in the socket, beside the queue.
pub record Keeps (s t : Tsock) : Type 0 where
  pub snd_nxt : t.snd_nxt ≡ s.snd_nxt
  pub snd_una : t.snd_una ≡ s.snd_una
  pub data_seq_nxt : t.data_seq_nxt ≡ s.data_seq_nxt
  pub mss : tsock_snd_mss t ≡ tsock_snd_mss s
  pub hdr : hdr_size t ≡ hdr_size s

pub Keeps-trans : (s t u : Tsock) → Keeps s t → Keeps t u → Keeps s u
Keeps-trans s t u a b = record {
  snd_nxt = b.snd_nxt ∙ a.snd_nxt;
  snd_una = b.snd_una ∙ a.snd_una;
  data_seq_nxt = b.data_seq_nxt ∙ a.data_seq_nxt;
  mss = b.mss ∙ a.mss;
  hdr = b.hdr ∙ a.hdr;
}

-- The socket after a header is made for it.
abbrev pub prepended : Tsock → Tsock
prepended s = record s {
  rcv_wnd = checked_wnd s;
  flags = record (s.flags) { ack_now = false };
  packet_id = u16 (s.packet_id + 1);
}

pub prepend_fits :
    (cfg : Cfg) (w : Worker) (headroom : ℕ) (p : Payload) (seq : ℕ) (s : Tsock)
    → hdr_size s ≤ headroom
    → prepend_tcp_hdr cfg w headroom p seq ack_flag s
      ≡ (some (with_hdr cfg w s p seq ack_flag), prepended s)
unfolding prepend_tcp_hdr
prepend_fits cfg w headroom p seq s h = ground (arith, h)

pub clear-Keeps : (s t : Tsock) → Keeps s t → Keeps s (clear_tcp_flags t)
unfolding clear_tcp_flags tsock_snd_mss enabled_opts calc_tcp_opt_len
clear-Keeps s t h = record {
  snd_nxt = h.snd_nxt;
  snd_una = h.snd_una;
  data_seq_nxt = h.data_seq_nxt;
  mss = h.mss;
  hdr = h.hdr;
}

pub prepended-Keeps : (s : Tsock) → Keeps s (prepended s)
unfolding tsock_snd_mss enabled_opts calc_tcp_opt_len
prepended-Keeps s = record {
  snd_nxt = refl;
  snd_una = refl;
  data_seq_nxt = refl;
  mss = refl;
  hdr = refl;
}

pub set_txq-Keeps : (s : Tsock) (q : Txq Desc) → Keeps s (record s { txq = q })
unfolding tsock_snd_mss enabled_opts calc_tcp_opt_len
set_txq-Keeps s q = record {
  snd_nxt = refl;
  snd_una = refl;
  data_seq_nxt = refl;
  mss = refl;
  hdr = refl;
}
