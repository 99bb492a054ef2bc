-- ===== src/Tcp/Write/Loops.antt =====
-- The loops of tsock_zwritev: what they have added, of which memory, when they end.
use libtpa.Base.{
  if◌then◌else◌, ℕ, zero, suc, ◌+◌, ◌-◌, ◌≤◌, ◌<◌, ◌≡◌, ◌⊎◌, inl, inr, refl, ap, ap₂, subst, ◌∙◌,
  Bool, true, false, Option, some, none, List, [], ◌∷◌, ◌++◌, map, arith, ltb, leb, ◌==◌, min, u32,
  sub32, ==_iff, Bool-cases, Option-cases, if_lem,
}
use mathlib.Core.List.{append-nil}
use libtpa.TcpQueue.Txq.{copy_in, free_count}
use libtpa.Tcp.Sock.{Desc, Tsock, Cfg}
use libtpa.Tcp.Xmit.Stream.{Contiguous, total, stream, run}
use libtpa.Tcp.Write.{
  Iov, Mbuf, Memory, WriteCtx, Piece, describe, too_many_used_mbufs, find_memory, put, with_desc,
  write_piece, write_pieces, write_one_iov, tsock_zwritev_slowpath, is_slow, write_iovs,
}
use libtpa.Tcp.Write.Adds.{Adds, Adds-trans, Adds-nothing}
use libtpa.Tcp.Write.Carries.{Held, Part, Carries, iov_total, Part-trans}

module _ {W : Type 0} (mem : Memory W) (cfg : Cfg) (used : ℕ) (s : Tsock)
    (chunk : 0 < cfg.write_chunk_size)
    (tail : (v : W) (m : Mbuf) → (mem.alloc v).0 ≡ some m → 0 < m.tailroom) where
  -- The memory that find_memory finds.
  abbrev Found : Iov → ℕ → ℕ → W → Option Piece × W → Type 0
  Found iov off len v (none, u) = Unit
  Found iov off len v (some p, u) =
      (0 < p.len)
      × (p.len ≤ len)
      × (((0 < iov.phys)
            × (p.phys_addr ≡ iov.phys + off)
            × (p.addr ≡ iov.base + off)
            × (p.len ≡ len)
            × (p.pkt ≡ none)
            × (u ≡ v))
          ⊎ ((iov.phys ≡ 0)
              × ((m : Mbuf) × (((mem.alloc v).0 ≡ some m)
                    × (p.phys_addr ≡ m.iova)
                    × (p.addr ≡ m.addr)
                    × (p.len ≤ m.tailroom)
                    × (p.pkt ≡ some m.id)
                    × (u ≡ mem.copy m.addr (iov.base + off) p.len (mem.alloc v).1)))))

  find_memory-Found :
      (iov : Iov) (off len : ℕ) (v : W)
      → 0 < len
      → Found iov off len v (find_memory mem used iov off len v)
  unfolding find_memory
  find_memory-Found iov off len v pos = elim (Bool-cases (iov.phys == 0)) [
    | inr e ↦ rw e (pos, omega arith, inl (ground (arith, e), refl, refl, refl, refl, refl))
    | inl e ↦ rw e (elim (Bool-cases (too_many_used_mbufs mem used)) [
      | inl y ↦ rw y tt
      | inr y ↦ rw y (elim (Option-cases (mem.alloc v).0) [
        | inl z ↦ rw z tt
        | inr (m, z) ↦ rw z (
          omega (arith, tail v m z, pos),
          omega arith,
          inr ((==_iff iov.phys 0).0 e, (m, (z, refl, refl, omega arith, refl, refl))),
        )
      ])
    ])
  ]

  -- The result of a round.
  abbrev Round : Iov → ℕ → WriteCtx W → Option ℕ × WriteCtx W → Type 0
  Round iov off c (none, c') = Adds s c c' []
  Round iov off c (some off', c') =
      (g : List Desc) × (Adds s c c' g
        × Part mem iov off off' c.world g c'.world
        × ((off' ≡ off + min (iov.len - off) cfg.write_chunk_size) ⊎ (iov.phys ≡ 0)))

  abbrev from_mbuf : Option ℕ → Bool
  from_mbuf none = false
  from_mbuf (some m) = true

  abbrev pkt_of : Desc → Option ℕ → ℕ
  pkt_of d none = d.pkt
  pkt_of d (some m) = m

  put-Round :
      (iov : Iov) (off : ℕ) (d : Desc) (pool : List Desc) (c : WriteCtx W) (r : Option Piece × W)
      → c.pool ≡ d ∷ pool
      → off < iov.len
      → iov.len < 4294967296
      → c.size < 4294967296
      → c.nr_desc < free_count s.txq
      → Found iov off (min (sub32 iov.len off) cfg.write_chunk_size) c.world r
      → Round iov off c (put s iov off d pool c r)
  unfolding put describe copy_in Contiguous total stream run Held
  put-Round iov off d pool c (none, v) e lt small wrapped room found =
      Adds-nothing s c v wrapped (omega (arith, room))
  put-Round iov off d pool c (some p, v) e lt small wrapped room (pos, le, where_) = (
    describe (u32 (s.data_seq_nxt + c.size)) iov off p d ∷ [],
    (
      record {
        slots = refl;
        nr = refl;
        taken = ap (map (λ (x : Desc). x.id)) e;
        size = omega arith;
        follow = (refl, pos, refl, tt);
        room = omega (arith, room);
      },
      record {
        le = omega arith;
        inside = omega (arith, le, lt, small);
        size = omega arith;
        holds = elim where_ [
          | inl (pos_phys, a, b, l, n, same) ↦
              inl (append-nil (run p.phys_addr p.len) ∙ ap₂ run a (omega arith))
          | inr (z, x) ↦ inr z
        ];
        held = elim where_ [
          | inl (pos_phys, a, b, l, n, same) ↦
              (v, (inl (pos_phys, a, b, ap from_mbuf n, same), refl))
          | inr (z, (m, (got, a, b, fits, n, same))) ↦
              (v, (inr (z, (m, (got, a, b, fits, ap from_mbuf n, ap (pkt_of d) n, same))), refl))
        ];
      },
      elim where_ [
        | inl (pos_phys, a, b, l, n, same) ↦ inl (omega (arith, l, lt, small))
        | inr (z, x) ↦ inr z
      ],
    ),
  )

  write_piece-Round :
      (iov : Iov) (off : ℕ) (c : WriteCtx W)
      → off < iov.len
      → iov.len < 4294967296
      → c.size < 4294967296
      → c.nr_desc ≤ free_count s.txq
      → Round iov off c (write_piece mem cfg used s iov off c)
  unfolding write_piece with_desc
  write_piece-Round iov off c lt small wrapped room =
      if_lem (Round iov off c) (leb (free_count s.txq) c.nr_desc) (none, c)
        (with_desc mem cfg used s iov off c c.pool) (λ e. Adds-nothing s c c.world wrapped room)
        (λ e. on_pool c.pool refl (ground (arith, e)))
    where
      on_pool :
          (pool : List Desc)
          → c.pool ≡ pool
          → c.nr_desc < free_count s.txq
          → Round iov off c (with_desc mem cfg used s iov off c pool)
      on_pool [] e h = Adds-nothing s c c.world wrapped room
      on_pool (d ∷ pool) e h =
          let len = min (sub32 iov.len off) cfg.write_chunk_size in
          put-Round iov off d pool c (find_memory mem used iov off len c.world) e lt small wrapped h
            (find_memory-Found iov off len c.world (omega (arith, lt, small, chunk)))

  -- The result of a loop over the rest of an iovec, and over iovecs.
  abbrev Rest : Iov → ℕ → WriteCtx W → Bool × WriteCtx W → Type 0
  Rest iov off c (ok, c') =
      (g : List Desc) × (Adds s c c' g
        × ((ok ≡ false) ⊎ Part mem iov off iov.len c.world g c'.world))

  write_pieces-Rest :
      (n : ℕ) (iov : Iov) (off : ℕ) (c : WriteCtx W)
      → off < iov.len
      → iov.len < 4294967296
      → c.size < 4294967296
      → c.nr_desc ≤ free_count s.txq
      → Rest iov off c (write_pieces mem cfg used s n iov off c)
  unfolding write_pieces
  write_pieces-Rest zero iov off c lt small wrapped room =
      ([], (Adds-nothing s c c.world wrapped room, inl refl))
  write_pieces-Rest (suc n) iov off c lt small wrapped room =
      go_on (write_piece mem cfg used s iov off c)
        (λ off' c' l. write_pieces-Rest n iov off' c' l small)
        (write_piece-Round iov off c lt small wrapped room)
    where
      go_on :
          (r : Option ℕ × WriteCtx W)
          → ((off' : ℕ) (c' : WriteCtx W)
              → off' < iov.len
              → c'.size < 4294967296
              → c'.nr_desc ≤ free_count s.txq
              → Rest iov off' c' (write_pieces mem cfg used s n iov off' c'))
          → Round iov off c r
          → Rest iov off c (elim r.0 [
            | none ↦ (false, r.1)
            | some off' ↦
                (let rest = write_pieces mem cfg used s n iov off' r.1 in
                  if ltb off' iov.len then rest else (true, r.1))
          ])
      go_on (none, c') again a = ([], (a, inl refl))
      go_on (some off', c') again (g, (a, p, full)) =
          if_lem (Rest iov off c) (ltb off' iov.len) (write_pieces mem cfg used s n iov off' c')
            (true, c')
            (λ e.
              let (h, (b, q)) = again off' c' (ground (arith, e)) (omega (arith, a.size)) a.room in
              (
                g ++ h,
                (
                  Adds-trans s c c' _ g h a b,
                  elim q [
                    | inl z ↦ inl z
                    | inr y ↦ inr (Part-trans mem iov off off' iov.len c.world c'.world _ g h p y)
                  ],
                ),
              ))
            (λ e. (
              g,
              (
                a,
                inr (
                    subst (λ t. Part mem iov off t c.world g c'.world) (ground (arith, e, p.inside))
                      p),
              ),
            ))

  abbrev Whole : List Iov → WriteCtx W → Bool × WriteCtx W → Type 0
  Whole iovs c (ok, c') =
      (g : List Desc) × (Adds s c c' g × ((ok ≡ false) ⊎ Carries mem iovs c.world g c'.world))

  write_one_iov-Rest :
      (iov : Iov) (c : WriteCtx W)
      → iov.len < 4294967296
      → c.size < 4294967296
      → c.nr_desc ≤ free_count s.txq
      → Rest iov 0 c (write_one_iov mem cfg used s iov c)
  unfolding write_one_iov total stream run Held
  write_one_iov-Rest iov c small wrapped room =
      if_lem (Rest iov 0 c) (iov.len == 0) (true, c) _
        (λ e.
          let z : iov.len ≡ 0 = (==_iff iov.len 0).0 e in
          (
            [],
            (
              Adds-nothing s c c.world wrapped room,
              inr (record {
                held = refl;
                le = omega arith;
                inside = omega arith;
                size = omega (arith, z);
                holds =
                    inl
                      (ap (run (iov.phys + 0)) (let e0 : 0 ≡ iov.len - 0 = omega (arith, z) in e0));
              }),
            ),
          ))
        (λ e.
          write_pieces-Rest (free_count s.txq - c.nr_desc + 1) iov 0 c (ground (arith, e)) small
            wrapped room)

  -- One iovec and those that follow.
  Whole-cons :
      (iov : Iov) (iovs : List Iov) (c : WriteCtx W) (g : List Desc) (c' : WriteCtx W)
      → Adds s c c' g
      → Part mem iov 0 iov.len c.world g c'.world
      → (r : Bool × WriteCtx W) → Whole iovs c' r
      → Whole (iov ∷ iovs) c r
  unfolding Carries
  Whole-cons iov iovs c g c' a p r (h, (b, q)) = (
    g ++ h,
    (
      Adds-trans s c c' r.1 g h a b,
      elim q [ inl z ↦ inl z | inr y ↦ inr (g, (h, (c'.world, (refl, p, y)))) ],
    ),
  )

  slowpath-Whole :
      (iovs : List Iov) (c : WriteCtx W)
      → iov_total iovs < 4294967296
      → c.size < 4294967296
      → c.nr_desc ≤ free_count s.txq
      → Whole iovs c (tsock_zwritev_slowpath mem cfg used s iovs c)
  unfolding tsock_zwritev_slowpath Carries iov_total
  slowpath-Whole [] c small wrapped room =
      ([], (Adds-nothing s c c.world wrapped room, inr (refl, refl)))
  slowpath-Whole (iov ∷ iovs) c small wrapped room =
      let (ok, c') = write_one_iov mem cfg used s iov c in
      let (g, (a, q)) = write_one_iov-Rest iov c (omega (arith, small)) wrapped room in
      if_lem (Whole (iov ∷ iovs) c) ok _ (false, c')
        (λ e. elim q [
          | inl z ↦ absurd (ground (arith, e, z))
          | inr p ↦
              Whole-cons iov iovs c g c' a p _
                (slowpath-Whole iovs c' (omega (arith, small)) (omega (arith, a.size)) a.room)
        ])
        (λ e. (g, (a, inl refl)))

  pub write_iovs-Whole :
      (iovs : List Iov) (c : WriteCtx W)
      → iov_total iovs < 4294967296
      → c.size < 4294967296
      → c.nr_desc ≤ free_count s.txq
      → Whole iovs c (write_iovs mem cfg used s iovs c)
  unfolding write_iovs Carries iov_total
  write_iovs-Whole [] c small wrapped room =
      ([], (Adds-nothing s c c.world wrapped room, inr (refl, refl)))
  write_iovs-Whole (iov ∷ iovs) c small wrapped room =
      if_lem (Whole (iov ∷ iovs) c) (is_slow cfg iov) _ _
        (λ e. slowpath-Whole (iov ∷ iovs) c small wrapped room)
        (λ e.
          go_on (ground (arith, e)) (write_piece mem cfg used s iov 0 c)
            (λ c'. write_iovs-Whole iovs c' (omega (arith, small)))
            (write_piece-Round iov 0 c (ground (arith, e)) (omega (arith, small)) wrapped room))
    where
      go_on :
          ((0 < iov.phys) × (iov.len ≤ cfg.write_chunk_size))
          → (r : Option ℕ × WriteCtx W)
          → ((c' : WriteCtx W)
              → c'.size < 4294967296
              → c'.nr_desc ≤ free_count s.txq
              → Whole iovs c' (write_iovs mem cfg used s iovs c'))
          → Round iov 0 c r
          → Whole
              (iov ∷ iovs)
              c
              (elim r.0 [ none ↦ (false, r.1) | some off ↦ write_iovs mem cfg used s iovs r.1 ])
      go_on (phys, le) (none, c') again a = ([], (a, inl refl))
      go_on (phys, le) (some off, c') again (g, (a, p, full)) = elim full [
        | inr z ↦ absurd (omega (arith, z, phys))
        | inl f ↦
            Whole-cons iov iovs c g c' a
              (subst (λ t. Part mem iov 0 t c.world g c'.world) (omega (arith, f, le)) p) _
              (again c' (omega (arith, a.size)) a.room)
      ]
