-- ===== src/Ports/Bind/Result.antt =====
-- What a binding does to the table of sockets.
use libtpa.Base.{
  ℕ, zero, suc, ◌%◌, ◌/◌, ◌≤◌, ◌<◌, ◌≡◌, inl, inr, refl, Option, some, none, [], ◌∷◌, ◌++◌, ltb,
  leb, ◌==◌, length, get_elem?, arith, Bool-cases, Option-cases, if_lem,
}
use native.Mathlib.Nat.{mod-lt}
use libtpa.SockTable.{SockKey}
use libtpa.Ports.{PortBlock, Os}
use libtpa.Ports.Block.{port_block_alloc}
use libtpa.Ports.Block.Placed.{Placed, Each, random_block-Placed}
use libtpa.Ports.Bind.Tries.{
  BindResult, Tried, sock_add-Added, result_later, Tried-later, Tried-BindResult, got_block,
  try_ports-Tried,
}
use libtpa.Ports.Bind.{
  Bindings, sock_add, on_os, bind_from_port_block, worker_alloc_port_block, bind_in_block,
  port_bind_on_given_port, bind_in_new_block, try_blocks, port_bind_on_random_port, port_bind,
  port_block_find,
}

module _ {W A : Type 0} (os : Os W) (crc : ℕ → ℕ → ℕ) where
  -- The blocks of the worker hold no port 0, and the range is one that local_port_range_set lets pass.
  pub record IsValid (s : Bindings W A) : Type 0 where
    pub placed : (i : ℕ) (b : PortBlock) → get_elem? s.port_blocks i ≡ some b → Placed b
    pub positive : 0 < s.sys.pac.min
    pub not_empty : s.sys.pac.min < s.sys.pac.max
    pub end_le : s.sys.pac.max ≤ 64000

  from_block-Tried :
      (b : Option PortBlock) (key : SockKey) (v : A) (s : Bindings W A)
      → Each Placed b
      → Tried os crc key v s (bind_from_port_block os crc b key v s)
  unfolding bind_from_port_block
  from_block-Tried none key v s h =
      inl (refl, record { same_socks = refl; same_key = refl }, refl, refl)
  from_block-Tried (some b) key v s h =
      let (tsc, w) = os.rdtsc s.sys.os in
      Tried-later os crc key key v s (on_os os crc w s) _
        (record { same_socks = refl; same_key = refl }) refl refl
        (try_ports-Tried os crc b.size (tsc / 4 % b.size) b key v _ h (λ p. mod-lt (tsc / 4) p))

  alloc_block-socks :
      (port : ℕ) (s : Bindings W A) → (worker_alloc_port_block os crc port s).1.socks ≡ s.socks
  unfolding worker_alloc_port_block
  alloc_block-socks port s = ground arith

  alloc_block-Placed :
      (s : Bindings W A) → IsValid s → Each Placed (worker_alloc_port_block os crc 0 s).0
  unfolding worker_alloc_port_block
  alloc_block-Placed s valid =
      let placed = random_block-Placed os s.sys valid.positive valid.not_empty valid.end_le in
      elim (Bool-cases (leb 1024 (length s.port_blocks))) [
        | inl e ↦ rw e tt
        | inr e ↦ rw e (on_some (port_block_alloc os 0 s.sys).0 placed)
      ]
    where
      on_some :
          (b : Option PortBlock)
          → Each Placed b
          → Each Placed
              (elim b as (λ x. Option PortBlock × Bindings W A) [
                | none ↦ (none, record s { sys = (port_block_alloc os 0 s.sys).1 })
                | some c ↦ (
                  some c,
                  record s {
                    sys = (port_block_alloc os 0 s.sys).1;
                    port_blocks = s.port_blocks ++ (c ∷ []);
                  },
                )
              ]).0
      on_some none h = tt
      on_some (some c) h = h

  new_block-BindResult :
      (key : SockKey) (v : A) (s : Bindings W A)
      → IsValid s
      → BindResult os crc key v s (bind_in_new_block os crc key v s)
  unfolding bind_in_new_block
  new_block-BindResult key v s valid =
      let r = worker_alloc_port_block os crc 0 s in
      result_later os crc key key v s r.1 _
        (record { same_socks = alloc_block-socks 0 s; same_key = refl })
        (Tried-BindResult os crc key v r.1 _
          (from_block-Tried r.0 key v r.1 (alloc_block-Placed s valid)))

  in_block-BindResult :
      (key : SockKey) (v : A) (r : Option PortBlock × Bindings W A)
      → 0 < key.local_port
      → BindResult os crc key v r.1 (bind_in_block os crc key v r)
  unfolding bind_in_block
  in_block-BindResult key v (none, s) h = inl (refl, record { same_socks = refl; same_key = refl })
  in_block-BindResult key v (some b, s) h =
      let r = sock_add os crc key v s in
      let (blocks, pac, done) = sock_add-Added os crc key v s in
      if_lem (BindResult os crc key v s) r.0 _ _
        (λ ok. elim done [
          | inl (z, same) ↦ absurd (ground (arith, ok, z))
          | inr (z, added) ↦ inr (h, refl, got_block os crc key v b.addr s r.1 added)
        ])
        (λ ok. elim done [
          | inl (z, same) ↦ inl (refl, record { same_socks = same; same_key = refl })
          | inr (z, added) ↦ absurd (ground (arith, ok, z))
        ])

  given-BindResult :
      (key : SockKey) (v : A) (s : Bindings W A)
      → 0 < key.local_port
      → BindResult os crc key v s (port_bind_on_given_port os crc key v s)
  unfolding port_bind_on_given_port
  given-BindResult key v s h = elim (Option-cases (port_block_find s.port_blocks key.local_port)) [
    | inl e ↦
        rw (e, port_bind_on_given_port)
          (result_later os crc key key v s _ _
            (record { same_socks = alloc_block-socks key.local_port s; same_key = refl })
            (in_block-BindResult key v (worker_alloc_port_block os crc key.local_port s) h))
    | inr (b, e) ↦ rw (e, port_bind_on_given_port) (in_block-BindResult key v (some b, s) h)
  ]

  get-Placed : (s : Bindings W A) (i : ℕ) → IsValid s → Each Placed (get_elem? s.port_blocks i)
  get-Placed s i valid = elim (Option-cases (get_elem? s.port_blocks i)) [
    | inl e ↦ rw e tt
    | inr (b, e) ↦ rw e (valid.placed i b e)
  ]

  try_blocks-BindResult :
      (n idx : ℕ) (key : SockKey) (v : A) (s : Bindings W A)
      → IsValid s
      → BindResult os crc key v s (try_blocks os crc n idx key v s)
  unfolding try_blocks
  try_blocks-BindResult zero idx key v s valid = new_block-BindResult key v s valid
  try_blocks-BindResult (suc n) idx key v s valid =
      let r = bind_from_port_block os crc (get_elem? s.port_blocks idx) key v s in
      let one = from_block-Tried (get_elem? s.port_blocks idx) key v s (get-Placed s idx valid) in
      if_lem (BindResult os crc key v s) (ltb 0 r.0) _ _
        (λ e. Tried-BindResult os crc key v s r one)
        (λ e. elim one [
          | inl (z, unbound, blocks, pac) ↦ result_later os crc key r.1 v s r.2 _ unbound (
              try_blocks-BindResult n _ r.1 v r.2 (record {
                placed = rw blocks valid.placed;
                positive = rw pac valid.positive;
                not_empty = rw pac valid.not_empty;
                end_le = rw pac valid.end_le;
              }))
          | inr (z, k, added) ↦ absurd (ground (arith, e, z))
        ])

  random-BindResult :
      (key : SockKey) (v : A) (s : Bindings W A)
      → IsValid s
      → BindResult os crc key v s (port_bind_on_random_port os crc key v s)
  unfolding port_bind_on_random_port
  random-BindResult key v s valid =
      let (tsc, w) = os.rdtsc s.sys.os in
      if_lem (BindResult os crc key v s) (length s.port_blocks == 0) _ _
        (λ e. new_block-BindResult key v s valid)
        (λ e.
          result_later os crc key key v s (on_os os crc w s) _
            (record { same_socks = refl; same_key = refl })
            (try_blocks-BindResult _ _ key v (on_os os crc w s) (record {
              placed = valid.placed;
              positive = valid.positive;
              not_empty = valid.not_empty;
              end_le = valid.end_le;
            })))

  -- When the worker's blocks hold no port 0 and the range passes local_port_range_set: port 0 is the
  -- result of a failure, after which every key has the socket that it had; any other port is the local
  -- port of a key that had no socket, and has this one now, while all other keys are as before. This is
  -- so for a port that the caller gives and for one that is found, in a block at hand or in a new one.
  pub port_bind-BindResult :
      (key : SockKey) (v : A) (s : Bindings W A)
      → IsValid s
      → BindResult os crc key v s (port_bind os crc key v s)
  unfolding port_bind
  port_bind-BindResult key v s valid =
      if_lem (BindResult os crc key v s) (key.local_port == 0) _ _
        (λ e. random-BindResult key v s valid) (λ e. given-BindResult key v s (ground (arith, e)))
