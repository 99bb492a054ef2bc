-- ===== src/Tcp/Xmit/Rest.antt =====
-- The data of a descriptor queue without its first descriptors.
use libtpa.Base.{
  ℕ, zero, suc, ◌+◌, ◌≤◌, ◌≡◌, refl, sym, ap, ◌∙◌, subst, List, [], ◌∷◌, ◌++◌, arith, drop, u16,
  sub16,
}
use libtpa.Ring.{window, drop-window, window-mod}
use libtpa.TcpQueue.Txq.{Txq, update_nxt}
use libtpa.TcpQueue.Txq.Inv.{IsValid, mod-u16}
use libtpa.Tcp.Sock.{Desc}
use libtpa.Tcp.Xmit.Stream.{Core, run, stream, start, total, Contiguous, drop-append, length-run}
use libtpa.Tcp.Xmit.Cores.{cores, slot_cores}

pub Contiguous-drop :
    (s : ℕ) (cs : List Core) (k : ℕ) → Contiguous s cs → Contiguous (s + start cs k) (drop k cs)
unfolding Contiguous start
Contiguous-drop s cs zero h = subst (λ t. Contiguous t cs) (omega arith) h
Contiguous-drop s [] (suc k) h = tt
Contiguous-drop s (c ∷ cs) (suc k) h =
    subst (λ t. Contiguous t (drop k cs)) (omega arith) (Contiguous-drop (s + c.len) cs k h.3)

pub total-drop : (cs : List Core) (k : ℕ) → total (drop k cs) + start cs k ≡ total cs
unfolding start total
total-drop cs zero = omega arith
total-drop [] (suc k) = omega arith
total-drop (c ∷ cs) (suc k) = omega (arith, total-drop cs k)

pub start-drop : (cs : List Core) (k : ℕ) → start (drop k cs) 1 + start cs k ≡ start cs (suc k)
unfolding start
start-drop cs zero = omega arith
start-drop [] (suc k) = omega arith
start-drop (c ∷ cs) (suc k) = omega (arith, start-drop cs k)

pub stream-drop : (cs : List Core) (k : ℕ) → stream (drop k cs) ≡ drop (start cs k) (stream cs)
unfolding start stream
stream-drop cs zero = refl
stream-drop [] (suc k) = refl
stream-drop (c ∷ cs) (suc k) =
    stream-drop cs k
    ∙ sym (
        ap (λ t. drop t (run c.phys_addr c.len ++ stream cs))
          (omega (arith, length-run c.phys_addr c.len))
        ∙ drop-append (run c.phys_addr c.len) (stream cs) (start cs k))

pub cores-update_nxt :
    (q : Txq Desc) (k : ℕ)
    → IsValid q
    → k ≤ sub16 q.write q.nxt
    → cores (update_nxt q k) (update_nxt q k).nxt ≡ drop k (cores q q.nxt)
unfolding cores update_nxt
cores-update_nxt q k v l = sym (
    drop-window (slot_cores q) q.size q.nxt (sub16 q.write q.nxt) k
    ∙ window-mod (slot_cores q) q.size (q.nxt + k) (u16 (q.nxt + k)) _
        (sym (mod-u16 q v (q.nxt + k)))
    ∙ ap (window (slot_cores q) q.size (u16 (q.nxt + k))) (omega (arith, v.nxt_lt, v.write_lt, l)))

pub drop_all : (cs : List Core) → drop (total cs) (stream cs) ≡ []
unfolding stream total
drop_all [] = refl
drop_all (c ∷ cs) =
    ap (λ t. drop t (run c.phys_addr c.len ++ stream cs))
      (omega (arith, length-run c.phys_addr c.len))
    ∙ drop-append (run c.phys_addr c.len) (stream cs) (total cs)
    ∙ drop_all cs
