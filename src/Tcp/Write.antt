-- ===== src/Tcp/Write.antt =====
-- Writes of the application (src/tcp/tcp_output.c: tsock_zwritev and the functions below it, tsock_write; the
-- pool of descriptors of include/tx_desc.h). Latency measurements, statistics and traces are left out.
pub mod Adds
pub mod Carries
pub mod Loops
pub mod Result
use libtpa.Base.{
  ℕ, zero, suc, ◌+◌, ◌-◌, Bool, true, false, not, ◌||◌, Option, some, none, List, [], ◌∷◌, ◌⊎◌, inl,
  inr, if◌then◌else◌, ltb, leb, ◌==◌, min, u16, u32, sub32, bit_and,
}
use libtpa.Ring.{update}
use libtpa.TcpQueue.Txq
use libtpa.TcpQueue.Txq.{Txq}
use libtpa.Tcp.Sock.{Desc, State, Errno, Tsock, Cfg, event_add, event_out, output_enqueue}

-- struct tpa_iovec; `phys` is 0 when the memory is not known to the card.
pub record Iov : Type 0 where
  pub base : ℕ
  pub phys : ℕ
  pub len : ℕ  -- uint32_t
  pub param : ℕ
  pub write_done : Option ℕ

-- A packet of the pool that fallbacks copy into.
pub record Mbuf : Type 0 where
  pub id : ℕ
  pub addr : ℕ
  pub iova : ℕ
  pub tailroom : ℕ

-- What a write calls, and the mbufs that the worker has in use beside those of writes.
pub record Memory (W : Type 0) : Type 0 where
  pub alloc : W → Option Mbuf × W
  pub free : ℕ → W → W
  pub copy : ℕ → ℕ → ℕ → W → W
  pub used_mbufs : ℕ
  pub drop_ooo_threshold : ℕ

-- struct write_ctx, with what a write changes. The pool is a stack.
pub record WriteCtx (W : Type 0) : Type 0 where
  pub nr_desc : ℕ
  pub size : ℕ  -- uint32_t
  pub nr_fallback : ℕ
  pub txq : Txq Desc
  pub pool : List Desc
  pub world : W

-- The socket, the pool and `nr_write_mbuf` of the worker.
pub record Writer (W : Type 0) : Type 0 where
  pub sock : Tsock
  pub pool : List Desc
  pub nr_write_mbuf : ℕ
  pub world : W

pub data WriteErr : Type 0 where
  ebadf enotconn epipe eagain : WriteErr
  sock_err : Errno → WriteErr

-- The memory that a descriptor gets, and its packet if there is one.
pub record Piece : Type 0 where
  pub addr : ℕ
  pub phys_addr : ℕ
  pub len : ℕ
  pub pkt : Option ℕ

unfoldable pub describe : ℕ → Iov → ℕ → Piece → Desc → Desc
describe seq iov off p d =
    let last = leb iov.len (off + p.len) in
    record d {
      addr = p.addr;
      phys_addr = p.phys_addr;
      len = p.len;
      write_done = if last then iov.write_done else none;
      base = if last then iov.base else 0;
      param = if last then iov.param else 0;
      mem_from_mbuf = elim p.pkt [ none ↦ false | some m ↦ true ];
      pkt = elim p.pkt [ none ↦ d.pkt | some m ↦ m ];
      retrans = false;
      sacked = false;
      seq = seq;
    }

abbrev pub is_slow : Cfg → Iov → Bool
is_slow cfg iov = (iov.phys == 0) || (iov.len == 0) || ltb cfg.write_chunk_size iov.len

-- TSOCK_WRITE_CHECK
unfoldable pub write_check : Tsock → Option WriteErr
write_check s =
    if s.close_issued
    then some WriteErr.ebadf
    else elim s.err [ some e ↦ some (WriteErr.sock_err e) | none ↦ check_state s.state ]
  where
    check_state : State → Option WriteErr
    check_state State.established = none
    check_state State.close_wait = none
    check_state State.syn_sent = some WriteErr.enotconn
    check_state State.syn_rcvd = some WriteErr.enotconn
    check_state _ = some WriteErr.epipe

module _ {W : Type 0} where
  unfoldable pub too_many_used_mbufs : Memory W → ℕ → Bool
  too_many_used_mbufs mem nr_write_mbuf =
      ltb mem.drop_ooo_threshold (u32 (mem.used_mbufs + nr_write_mbuf))

  -- The memory for at most `len` bytes of the iovec from `off` on: its own, or a copy.
  unfoldable pub find_memory : Memory W → ℕ → Iov → ℕ → ℕ → W → Option Piece × W
  find_memory mem nr_write_mbuf iov off len world =
      let (got, world') = mem.alloc world in
      if not (iov.phys == 0)
      then (
        some (record { addr = iov.base + off; phys_addr = iov.phys + off; len = len; pkt = none }),
        world,
      )
      else if too_many_used_mbufs mem nr_write_mbuf
      then (none, world)
      else elim got [
        | none ↦ (none, world')
        | some m ↦
            (let n = min len m.tailroom in
              (
                some (record { addr = m.addr; phys_addr = m.iova; len = n; pkt = some m.id }),
                mem.copy m.addr (iov.base + off) n world',
              ))
      ]

  -- The descriptor from the pool is filled and put into the queue. Without memory it goes back to the pool.
  unfoldable pub put :
      Tsock → Iov → ℕ → Desc → List Desc → WriteCtx W → Option Piece × W → Option ℕ × WriteCtx W
  put s iov off d pool c (none, world) = (none, record c { world = world })
  put s iov off d pool c (some p, world) = (
    some (off + p.len),
    record {
      nr_desc = c.nr_desc + 1;
      size = u32 (c.size + p.len);
      nr_fallback = elim p.pkt [ none ↦ c.nr_fallback | some m ↦ c.nr_fallback + 1 ];
      txq = record (c.txq) {
        descs =
            update c.txq.descs (bit_and (c.txq.write + c.nr_desc) c.txq.mask)
              (describe (u32 (s.data_seq_nxt + c.size)) iov off p d);
      };
      pool = pool;
      world = world;
    },
  )

  unfoldable pub with_desc :
      Memory W → Cfg → ℕ → Tsock → Iov → ℕ → WriteCtx W → List Desc → Option ℕ × WriteCtx W
  with_desc mem cfg nr_write_mbuf s iov off c [] = (none, c)
  with_desc mem cfg nr_write_mbuf s iov off c (d ∷ pool) =
      put s iov off d pool c (
        find_memory mem nr_write_mbuf iov off (min (sub32 iov.len off) cfg.write_chunk_size)
          c.world)

  -- One round of the loop of write_one_iov, which gives the next offset. With offset 0 and a short iovec
  -- with a physical address it is a round of the loop of tsock_zwritev, too.
  unfoldable pub write_piece :
      Memory W → Cfg → ℕ → Tsock → Iov → ℕ → WriteCtx W → Option ℕ × WriteCtx W
  write_piece mem cfg nr_write_mbuf s iov off c =
      if leb (Txq.free_count s.txq) c.nr_desc
      then (none, c)
      else with_desc mem cfg nr_write_mbuf s iov off c c.pool

  -- The loop of write_one_iov, on more fuel than descriptors can be taken. `false` is -1.
  unfoldable pub write_pieces :
      Memory W → Cfg → ℕ → Tsock → ℕ → Iov → ℕ → WriteCtx W → Bool × WriteCtx W
  write_pieces mem cfg nr_write_mbuf s zero iov off c = (false, c)
  write_pieces mem cfg nr_write_mbuf s (suc n) iov off c =
      let (next, c') = write_piece mem cfg nr_write_mbuf s iov off c in
      elim next [
        | none ↦ (false, c')
        | some off' ↦
            (let rest = write_pieces mem cfg nr_write_mbuf s n iov off' c' in
              if ltb off' iov.len then rest else (true, c'))
      ]

  unfoldable pub write_one_iov : Memory W → Cfg → ℕ → Tsock → Iov → WriteCtx W → Bool × WriteCtx W
  write_one_iov mem cfg nr_write_mbuf s iov c =
      if iov.len == 0
      then (true, c)
      else write_pieces mem cfg nr_write_mbuf s (Txq.free_count s.txq - c.nr_desc + 1) iov 0 c

  unfoldable pub tsock_zwritev_slowpath :
      Memory W → Cfg → ℕ → Tsock → List Iov → WriteCtx W → Bool × WriteCtx W
  tsock_zwritev_slowpath mem cfg nr_write_mbuf s [] c = (true, c)
  tsock_zwritev_slowpath mem cfg nr_write_mbuf s (iov ∷ iovs) c =
      let (ok, c') = write_one_iov mem cfg nr_write_mbuf s iov c in
      let rest = tsock_zwritev_slowpath mem cfg nr_write_mbuf s iovs c' in
      if ok then rest else (false, c')

  -- The loop of tsock_zwritev, which goes on in the slow path from the first iovec that needs it.
  unfoldable pub write_iovs : Memory W → Cfg → ℕ → Tsock → List Iov → WriteCtx W → Bool × WriteCtx W
  write_iovs mem cfg nr_write_mbuf s [] c = (true, c)
  write_iovs mem cfg nr_write_mbuf s (iov ∷ iovs) c =
      let (next, c') = write_piece mem cfg nr_write_mbuf s iov 0 c in
      let rest = write_iovs mem cfg nr_write_mbuf s iovs c' in
      if is_slow cfg iov
      then tsock_zwritev_slowpath mem cfg nr_write_mbuf s (iov ∷ iovs) c
      else elim next [ none ↦ (false, c') | some off ↦ rest ]

  unfoldable pub write_commit : Writer W → WriteCtx W → Writer W
  write_commit w c = record {
    sock = output_enqueue (record (w.sock) {
      txq = record (c.txq) { write = u16 (c.txq.write + c.nr_desc) };
      data_seq_nxt = u32 (w.sock.data_seq_nxt + c.size);
    });
    pool = c.pool;
    nr_write_mbuf = w.nr_write_mbuf + c.nr_fallback;
    world = c.world;
  }

  -- The loop of write_revoke from the `i`-th descriptor on.
  unfoldable pub revoke_from : Memory W → Txq Desc → ℕ → ℕ → List Desc × W → List Desc × W
  revoke_from mem q zero i r = r
  revoke_from mem q (suc n) i (pool, world) =
      let d = q.descs (bit_and (q.write + i) q.mask) in
      revoke_from mem q n (i + 1)
        (d ∷ pool, if d.mem_from_mbuf then mem.free d.pkt world else world)

  -- The packets and descriptors are given back.
  unfoldable pub write_revoke : Memory W → Writer W → WriteCtx W → Writer W
  write_revoke mem w c =
      let (pool, world) = revoke_from mem c.txq c.nr_desc 0 (c.pool, c.world) in
      record w { sock = record (w.sock) { txq = c.txq }; pool = pool; world = world }

  -- refire_out_event_if_needed
  unfoldable pub refire_out_event : Writer W → Writer W
  refire_out_event w =
      if Txq.unfinished_pkts w.sock.txq == 0
      then record w { sock = event_add event_out w.sock }
      else w

  abbrev pub write_start : Writer W → WriteCtx W
  write_start w = record {
    nr_desc = 0;
    size = 0;
    nr_fallback = 0;
    txq = w.sock.txq;
    pool = w.pool;
    world = w.world;
  }

  -- The error of the write, or the number of bytes that it took.
  unfoldable pub end_write : Memory W → Writer W → Bool × WriteCtx W → (WriteErr ⊎ ℕ) × Writer W
  end_write mem w (true, c) = (inr c.size, write_commit w c)
  end_write mem w (false, c) = (inl WriteErr.eagain, refire_out_event (write_revoke mem w c))

  unfoldable pub tsock_zwritev : Memory W → Cfg → List Iov → Writer W → (WriteErr ⊎ ℕ) × Writer W
  tsock_zwritev mem cfg iovs w = elim (write_check w.sock) [
    | some e ↦ (inl e, w)
    | none ↦ end_write mem w (write_iovs mem cfg w.nr_write_mbuf w.sock iovs (write_start w))
  ]

  unfoldable pub tsock_write : Memory W → Cfg → ℕ → ℕ → Writer W → (WriteErr ⊎ ℕ) × Writer W
  tsock_write mem cfg buf size w =
      let iov : Iov = record { base = buf; phys = 0; len = size; param = 0; write_done = none } in
      tsock_zwritev mem cfg (iov ∷ []) w
