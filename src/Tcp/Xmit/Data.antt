-- ===== src/Tcp/Xmit/Data.antt =====
-- tcp_xmit_data from one call to the next.
use libtpa.Base.{
  ℕ, ◌+◌, ◌-◌, ◌≤◌, ◌<◌, ◌≡◌, ◌⊎◌, sym, ap, ◌∙◌, subst, List, arith, length, drop, get_elem?_out,
  min, u32, sub16, sub32, length-drop, inl, inr,
}
use native.Mathlib.Decide.{dec_le}
use libtpa.TcpQueue.Txq.{update_nxt}
use libtpa.TcpQueue.Txq.Inv.{IsValid, update_nxt-IsValid}
use libtpa.Dev.{Port, txq_free_count}
use libtpa.Tcp.Sock.{Tsock, Cfg, Worker}
use libtpa.Tcp.Header.{TxPkt}
use libtpa.Tcp.FlagPkt.{Net}
use libtpa.Tcp.Xmit.{Run, tsock_snd_mss, xmit_ctx, start_fill}
use libtpa.Tcp.Xmit.Stream.{Core, start, total, Contiguous}
use libtpa.Tcp.Xmit.Cores.{cores, SameData-cores, SameData-IsValid, length-cores}
use libtpa.Tcp.Xmit.Rounds.{start_past}
use libtpa.Tcp.Xmit.Keeps.{hdr_size}
use libtpa.Tcp.Xmit.Rest.{Contiguous-drop, total-drop, start-drop, cores-update_nxt}
use libtpa.Tcp.Xmit.Flow.{Flow}
use libtpa.Tcp.Xmit.Ready.{Ready}

module _ {W : Type 0} (net : Net W) (cfg : Cfg) (w : Worker) (s : Tsock) (rd : Ready s)
    (port : Port TxPkt W) (mss : tsock_snd_mss s < 65536) (hdr : hdr_size s ≤ net.headroom)
    (queue : length port.pkts ≤ 4096) (inflight : sub32 s.snd_nxt s.snd_una < 2147483648)
    (wnd : min s.snd_wnd s.cc.snd_cwnd < 2147483648) where
  abbrev cs : List Core
  cs = cores s.txq s.txq.nxt

  abbrev run_0 : Run W
  run_0 = record { ctx = xmit_ctx s; sock = s; port = port }

  abbrev FlowTo : (Run W → Run W) → List TxPkt × Run W → Type 0
  FlowTo f result =
      Flow cs rd.first rd.follow rd.small net cfg w (min (txq_free_count port) 64) rd.sent run_0
        (result.0, f result.1)

  module _ (pkts : List TxPkt) (r : Run W) (fl : FlowTo (λ r. r) (pkts, r)) (u : Tsock)
      (txq : u.txq ≡ r.sock.txq) (una : u.snd_una ≡ r.sock.snd_una)
      (end : u.data_seq_nxt ≡ r.sock.data_seq_nxt) where
    abbrev k : ℕ
    k = fl.stands.index

    index-le : k ≤ length cs
    index-le = elim fl.stands.here [
      | inr (e, t) ↦ omega (arith, e)
      | inl l ↦ elim (dec_le k (length cs)) [
        | yes h ↦ h
        | no h ↦
            absurd (
              omega
                (arith, l, fl.stands.at.low, start_past cs k (get_elem?_out cs k (omega arith))))
      ]
    ]

    same_cores : cores u.txq u.txq.nxt ≡ cs
    same_cores =
        ap (λ q. cores q q.nxt) txq
        ∙ ap (cores r.sock.txq) fl.same.nxt
        ∙ SameData-cores s.txq r.sock.txq s.txq.nxt fl.same

    txq-IsValid : IsValid u.txq
    txq-IsValid = subst IsValid (sym txq) (SameData-IsValid s.txq r.sock.txq fl.same rd.valid)

    abbrev moved : Tsock
    moved = record u { snd_nxt = r.ctx.seq; txq = update_nxt u.txq r.ctx.desc_off }

    off_le : r.ctx.desc_off ≤ sub16 u.txq.write u.txq.nxt
    unfolding start_fill
    off_le =
        omega
          (arith, fl.stands.at.off, index-le, ap length same_cores, length-cores u.txq u.txq.nxt)

    moved_cores : cores moved.txq moved.txq.nxt ≡ drop k cs
    unfolding start_fill
    moved_cores =
        cores-update_nxt u.txq r.ctx.desc_off txq-IsValid off_le
        ∙ ap (drop r.ctx.desc_off) same_cores
        ∙ ap (λ i. drop i cs) fl.stands.at.off

    moved-Ready : Ready moved
    unfolding start_fill
    moved-Ready =
        let at = fl.stands.at in
        let rest = total-drop cs k in
        record {
          first = rd.first + start cs k;
          sent = fl.place - start cs k;
          valid = update_nxt-IsValid u.txq r.ctx.desc_off txq-IsValid off_le;
          follow =
              subst (Contiguous (rd.first + start cs k)) (sym moved_cores)
                (Contiguous-drop rd.first cs k rd.follow);
          small =
              subst (λ c. total c < 2147483648) (sym moved_cores) (omega (arith, rest, rd.small));
          seq = omega (arith, at.seq, at.low);
          end =
              end
              ∙ fl.keeps.data_seq_nxt
              ∙ rd.end
              ∙ omega (arith, rest)
              ∙ ap (λ c. u32 (rd.first + start cs k + total c)) (sym moved_cores);
          inside =
              subst
                (λ c.
                  (fl.place - start cs k < start c 1)
                  ⊎ ((0 ≡ length c) × (fl.place - start cs k ≡ total c)))
                (sym moved_cores)
                (elim fl.stands.here [
                  | inl l ↦ inl (omega (arith, l, start-drop cs k, at.low))
                  | inr (e, t) ↦ inr (omega (arith, e, length-drop k cs), omega (arith, t, rest))
                ]);
        }
