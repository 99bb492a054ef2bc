-- ===== src/Tcp/Write/Result.antt =====
-- What a call of tsock_zwritev has done.
use libtpa.Base.{
  ℕ, zero, suc, ◌+◌, ◌%◌, ◌≤◌, ◌<◌, ◌≡◌, ◌⊎◌, inl, inr, refl, sym, ap, ap₂, subst, ◌∙◌, Bool, true,
  false, Option, some, none, List, [], ◌∷◌, ◌++◌, ◌==◌, arith, length, length-append, u16, u32,
  sub16, bit_and, drop, if_lem,
}
use libtpa.Ring.{window}
use libtpa.TcpQueue.Txq.{Txq, copy_in, unfinished_pkts}
use libtpa.TcpQueue.Txq.Inv.{IsValid, mask_lem, free_count_lem}
use libtpa.TcpQueue.Txq.Refine.{span, unacked, unsent, extended, extended-IsValid}
use libtpa.TcpQueue.Txq.Grow.{extended-unsent, extended-window, unmoved-unacked, drop_past}
use libtpa.Tcp.Sock.{Desc, Tsock, Cfg, event_add, event_out, output_enqueue}
use libtpa.Tcp.Xmit.Stream.{
  Core, core, Contiguous, total, stream, run, start, length-run, start-le-total,
}
use libtpa.Tcp.Xmit.Cores.{cores}
use libtpa.Tcp.Xmit.Ready.{Ready, unsent_bytes}
use libtpa.Tcp.Write.{
  Iov, Mbuf, Memory, WriteCtx, Writer, WriteErr, write_iovs, write_commit, revoke_from,
  write_revoke, refire_out_event, write_check, write_start, end_write, tsock_zwritev,
}
use libtpa.Tcp.Write.Adds.{
  ids, data_of, total-append, stream-append, Contiguous-mod, Contiguous-append, Adds,
}
use libtpa.Tcp.Write.Carries.{Carries, iov_total, Carries-total}
use libtpa.Tcp.Write.Loops.{write_iovs-Whole}

-- Descriptors that are given back to the pool one after the other.
unfoldable pub give_back : List ℕ → List ℕ → List ℕ
give_back [] pool = pool
give_back (x ∷ xs) pool = give_back xs (x ∷ pool)

map-window : (f : ℕ → Desc) (m b n : ℕ) → data_of (window f m b n) ≡ window (λ i. core (f i)) m b n
unfolding window
map-window f m b zero = refl
map-window f m b (suc n) = ap (λ t. core (f (b % m)) ∷ t) (map-window f m (b + 1) n)

data-append : (g h : List Desc) → data_of (g ++ h) ≡ data_of g ++ data_of h
data-append [] h = refl
data-append (x ∷ g) h = ap (λ t. core x ∷ t) (data-append g h)

length-stream : (cs : List Core) → length (stream cs) ≡ total cs
unfolding stream total
length-stream [] = refl
length-stream (c ∷ cs) = omega (
  arith,
  length-append (run c.phys_addr c.len) (stream cs),
  length-run c.phys_addr c.len,
  length-stream cs,
)

abbrev Inside : List Core → ℕ → Type 0
Inside cs sent = (sent < start cs 1) ⊎ ((0 ≡ length cs) × (sent ≡ total cs))

Inside-le : (cs : List Core) (sent : ℕ) → Inside cs sent → sent ≤ total cs
Inside-le cs sent (inl l) = omega (arith, l, start-le-total cs 1)
Inside-le cs sent (inr (e, t)) = omega (arith, t)

Inside-append :
    (s : ℕ) (cs xs : List Core) (sent : ℕ)
    → Inside cs sent
    → Contiguous s xs
    → Inside (cs ++ xs) sent
unfolding start total Contiguous
Inside-append s [] [] sent h k = h
Inside-append s [] (x ∷ xs) sent (inl l) k = absurd (omega (arith, l))
Inside-append s [] (x ∷ xs) sent (inr (e, t)) (a, b, c, d) = inl (omega (arith, t, b))
Inside-append s (x ∷ cs) xs sent (inl l) k = inl (omega (arith, l))
Inside-append s (x ∷ cs) xs sent (inr (e, t)) k = absurd (omega (arith, e))

cores-extended :
    (q : Txq Desc) (g : List Desc)
    → IsValid q
    → IsValid (extended q g)
    → sub16 q.write q.una + length g ≤ q.size
    → cores (extended q g) q.nxt ≡ cores q q.nxt ++ data_of g
unfolding cores extended span
cores-extended q g v v' h =
    sym (map-window (extended q g).descs q.size q.nxt (sub16 (extended q g).write q.nxt))
    ∙ ap data_of (extended-unsent q g v v' h)
    ∙ data-append (unsent q) g
    ∙ ap (λ t. t ++ data_of g) (map-window q.descs q.size q.nxt (sub16 q.write q.nxt))

revoke_from-ids :
    {W : Type 0} (mem : Memory W) (q : Txq Desc) (n i : ℕ) (pool : List Desc) (world : W)
    → ((j : ℕ) → bit_and j q.mask ≡ j % q.size)
    → ids (revoke_from mem q n i (pool, world)).0
      ≡ give_back (ids (window q.descs q.size (q.write + i) n)) (ids pool)
unfolding revoke_from window give_back
revoke_from-ids mem q zero i pool world m = refl
revoke_from-ids mem q (suc n) i pool world m =
    revoke_from-ids mem q n (i + 1) (q.descs (bit_and (q.write + i) q.mask) ∷ pool) _ m
    ∙ ap₂ (λ b (d : Desc). give_back (ids (window q.descs q.size b n)) (d.id ∷ ids pool))
        (omega arith) (ap q.descs (m (q.write + i)))

module _ {W : Type 0} (mem : Memory W) (cfg : Cfg) (iovs : List Iov) (w : Writer W)
    (rd : Ready w.sock) where
  -- A write of `n` bytes: the descriptors `news` came from the top of the pool, and hold the bytes.
  pub record Written (n : ℕ) (w' : Writer W) : Type 0 where
    pub open_sock : write_check w.sock ≡ none
    pub news : List Desc
    pub size : n ≡ iov_total iovs
    pub carries : Carries mem iovs w.world news w'.world
    pub taken : ids w.pool ≡ ids news ++ ids w'.pool
    pub ready : Ready w'.sock
    pub bytes : unsent_bytes w'.sock ready ≡ unsent_bytes w.sock rd ++ stream (data_of news)

  -- A write that failed on the way: the queue is as before, and the descriptors that were taken from the pool
  -- are in it again.
  pub record Revoked (w' : Writer W) : Type 0 where
    pub queue : unacked w'.sock.txq ≡ unacked w.sock.txq
    pub una : w'.sock.txq.una ≡ w.sock.txq.una
    pub nxt : w'.sock.txq.nxt ≡ w.sock.txq.nxt
    pub write : w'.sock.txq.write ≡ w.sock.txq.write
    pub seq : w'.sock.data_seq_nxt ≡ w.sock.data_seq_nxt
    pub taken : List ℕ
    pub left : List ℕ
    pub before : ids w.pool ≡ taken ++ left
    pub after : ids w'.pool ≡ give_back taken left

  abbrev pub WriteResult : (WriteErr ⊎ ℕ) × Writer W → Type 0
  WriteResult (inl e, w') =
      ((write_check w.sock ≡ some e) × (w' ≡ w)) ⊎ ((e ≡ WriteErr.eagain) × Revoked w')
  WriteResult (inr n, w') = Written n w'

  module _ (small : total (cores w.sock.txq w.sock.txq.nxt) + iov_total iovs < 2147483648)
      (c : WriteCtx W) (g : List Desc) (a : Adds w.sock (write_start w) c g) where
    abbrev q : Txq Desc
    q = w.sock.txq

    fits : sub16 q.write q.una + length g ≤ q.size
    fits = omega (arith, a.nr, a.room, free_count_lem q rd.valid)

    extended_txq : record (c.txq) { write = u16 (c.txq.write + c.nr_desc) } ≡ extended q g
    unfolding extended
    extended_txq =
        ap₂ (λ (t : Txq Desc) n. record t { write = u16 (t.write + n) }) a.slots
          (a.nr ∙ (let e : 0 + length g ≡ length g = omega arith in e))

    module _ (sum : total (data_of g) ≡ iov_total iovs) (t : Tsock) (txq : t.txq ≡ extended q g)
        (nxt : t.snd_nxt ≡ w.sock.snd_nxt)
        (end : t.data_seq_nxt ≡ u32 (w.sock.data_seq_nxt + c.size)) where
      abbrev cs : List Core
      cs = cores q q.nxt

      valid : IsValid (extended q g)
      valid = extended-IsValid q g rd.valid fits

      same : cores t.txq t.txq.nxt ≡ cs ++ data_of g
      unfolding extended
      same = ap (λ (p : Txq Desc). cores p p.nxt) txq ∙ cores-extended q g rd.valid valid fits

      follow : Contiguous (rd.first + total cs) (data_of g)
      follow =
          Contiguous-mod (w.sock.data_seq_nxt + 0) (rd.first + total cs) (data_of g)
            (omega (arith, rd.end)) a.follow

      sums : total (cs ++ data_of g) ≡ total cs + iov_total iovs
      sums = omega (arith, total-append cs (data_of g), sum)

      committed-Ready : Ready t
      committed-Ready = record {
        first = rd.first;
        sent = rd.sent;
        valid = subst IsValid (sym txq) valid;
        follow =
            subst (Contiguous rd.first) (sym same)
              (Contiguous-append rd.first cs (data_of g) rd.follow follow);
        small = subst (λ l. total l < 2147483648) (sym same) (omega (arith, sums, small));
        seq = nxt ∙ rd.seq;
        end =
            omega (arith, end, rd.end, a.size, sum, sums, small)
            ∙ ap (λ l. u32 (rd.first + total l)) (sym same);
        inside =
            subst (λ l. Inside l rd.sent) (sym same)
              (Inside-append (rd.first + total cs) cs (data_of g) rd.sent rd.inside follow);
      }

      committed_bytes :
          unsent_bytes t committed-Ready ≡ unsent_bytes w.sock rd ++ stream (data_of g)
      unfolding committed-Ready
      committed_bytes =
          ap (λ l. drop rd.sent (stream l)) same
          ∙ ap (drop rd.sent) (stream-append cs (data_of g))
          ∙ drop_past (stream cs) (stream (data_of g)) rd.sent
              (omega (arith, Inside-le cs rd.sent rd.inside, length-stream cs))

    write_commit-Written :
        write_check w.sock ≡ none
        → Carries mem iovs w.world g c.world
        → Written c.size (write_commit w c)
    unfolding write_commit output_enqueue
    write_commit-Written open_sock carries =
        let sum = Carries-total mem iovs w.world g c.world carries in
        let t = (write_commit w c).sock in
        record {
          open_sock = open_sock;
          news = g;
          size = omega (arith, a.size, sum, small);
          carries = carries;
          taken = a.taken;
          ready = committed-Ready sum t extended_txq refl refl;
          bytes = committed_bytes sum t extended_txq refl refl;
        }

    -- The slots that the revoke reads are those of the new descriptors.
    revoked_ids : ids (write_revoke mem w c).pool ≡ give_back (ids g) (ids c.pool)
    unfolding write_revoke
    revoked_ids =
        ap (λ (p : Txq Desc). ids (revoke_from mem p c.nr_desc 0 (c.pool, c.world)).0) a.slots
        ∙ ap
            (λ n.
              ids
                (revoke_from mem (record q { descs = copy_in q.write q.mask 0 q.descs g }) n 0
                  (c.pool, c.world)).0)
            (a.nr ∙ (let e : 0 + length g ≡ length g = omega arith in e))
        ∙ revoke_from-ids mem (record q { descs = copy_in q.write q.mask 0 q.descs g }) (length g) 0
            c.pool c.world (mask_lem q rd.valid)
        ∙ ap (λ l. give_back (ids l) (ids c.pool))
            (ap (λ b. window (copy_in q.write q.mask 0 q.descs g) q.size b (length g)) (omega arith)
              ∙ extended-window q g rd.valid (omega (arith, fits)))

    write_revoke-Revoked : Revoked (refire_out_event (write_revoke mem w c))
    unfolding write_revoke refire_out_event event_add
    write_revoke-Revoked =
        let v = write_revoke mem w c in
        let revoked : Revoked v = record {
          queue = ap unacked a.slots ∙ unmoved-unacked q g rd.valid fits;
          una = ap (λ (p : Txq Desc). p.una) a.slots;
          nxt = ap (λ (p : Txq Desc). p.nxt) a.slots;
          write = ap (λ (p : Txq Desc). p.write) a.slots;
          seq = refl;
          taken = ids g;
          left = ids c.pool;
          before = a.taken;
          after = revoked_ids;
        } in
        if_lem Revoked (unfinished_pkts v.sock.txq == 0)
          (record v { sock = event_add event_out v.sock }) v
          (λ e. record {
            queue = revoked.queue;
            una = revoked.una;
            nxt = revoked.nxt;
            write = revoked.write;
            seq = refl;
            taken = revoked.taken;
            left = revoked.left;
            before = revoked.before;
            after = revoked.after;
          })
          (λ e. revoked)

    end_write-WriteResult :
        (ok : Bool)
        → write_check w.sock ≡ none
        → (ok ≡ false) ⊎ Carries mem iovs w.world g c.world
        → WriteResult (end_write mem w (ok, c))
    unfolding end_write
    end_write-WriteResult false open_sock h = inr (refl, write_revoke-Revoked)
    end_write-WriteResult true open_sock (inl e) = absurd (ground (arith, e))
    end_write-WriteResult true open_sock (inr h) = write_commit-Written open_sock h

  -- Let the chunks of a write not be empty, nor the room in a packet that fallbacks copy into, and let the
  -- data of the socket wait as `Ready` says, less than 2^31 bytes with those of the write. Then tsock_zwritev
  -- ends in one of three ways. It is refused with the error of the check of the socket, and nothing is
  -- changed. Or it takes all bytes of the iovecs: they follow, in order, those that wait already, in
  -- descriptors from the top of the pool. The card reads them where they are, or, when an iovec has no
  -- physical address, from packets that are new from their pool and that memcpy is called to fill from the iovec
  -- at the offset that the descriptor is for; nothing else is done to memory. The socket is `Ready` again. Or it
  -- fails with EAGAIN: the queue holds what it held, data_seq_nxt is as before, and the descriptors that were
  -- taken are in the pool again.
  pub tsock_zwritev-WriteResult :
      0 < cfg.write_chunk_size
      → ((v : W) (m : Mbuf) → (mem.alloc v).0 ≡ some m → 0 < m.tailroom)
      → total (cores w.sock.txq w.sock.txq.nxt) + iov_total iovs < 2147483648
      → WriteResult (tsock_zwritev mem cfg iovs w)
  unfolding tsock_zwritev
  tsock_zwritev-WriteResult chunk tail small = on_check (write_check w.sock) refl
    where
      on_check :
          (r : Option WriteErr)
          → write_check w.sock ≡ r
          → WriteResult (elim r as (λ x. (WriteErr ⊎ ℕ) × Writer W) [
            | some e ↦ (inl e, w)
            | none ↦
                end_write mem w (write_iovs mem cfg w.nr_write_mbuf w.sock iovs (write_start w))
          ])
      on_check (some e) refused = inl (refused, refl)
      on_check none open_sock =
          let (ok, c) = write_iovs mem cfg w.nr_write_mbuf w.sock iovs (write_start w) in
          let (g, (a, h)) =
            write_iovs-Whole mem cfg w.nr_write_mbuf w.sock chunk tail iovs (write_start w)
              (omega (arith, small)) (omega arith) (omega arith) in
          end_write-WriteResult small c g a ok open_sock h
