-- ===== src/Ports/Bind/Tries.antt =====
-- The tries of one port after the other in a block, and what they do to the table of sockets.
use libtpa.Base.{
  is_some, ℕ, zero, suc, ◌+◌, ◌<◌, ◌≡◌, ◌⊎◌, inl, inr, refl, ap, ◌∙◌, true, false, some, none,
  if◌then◌else◌, u16, arith, Bool-cases, Option-cases, if_lem,
}
use libtpa.SockTable.{SockKey, Lists, key_equal}
use libtpa.SockTable
use libtpa.SockTable.Refine.{add-lookup, add_failed}
use libtpa.Ports.{PortBlock, Os}
use libtpa.Ports.Block.Placed.{Placed}
use libtpa.Ports.Bind.{Bindings, sock_add, get_block, try_ports}

moved_key :
    (key key' : SockKey) (port : ℕ)
    → key' ≡ record key { local_port = key'.local_port }
    → record key' { local_port = port } ≡ record key { local_port = port }
moved_key key key' port e = ap (λ (k : SockKey). record k { local_port = port }) e

module _ {W A : Type 0} (os : Os W) (crc : ℕ → ℕ → ℕ) where
  -- The key had no socket, now it has this one, and all other keys are as before.
  pub record Added (key : SockKey) (v : A) (s s' : Bindings W A) : Type 0 where
    pub was_free : SockTable.lookup crc s.socks key ≡ none
    pub lookups :
        (j : SockKey)
        → SockTable.lookup crc s'.socks j
          ≡ (if key_equal key j then some v else SockTable.lookup crc s.socks j)

  -- A failure: no key has another socket, and of the key only the local port may have changed.
  pub record Unbound (key : SockKey) (s : Bindings W A) (key' : SockKey) (s' : Bindings W A)
      : Type 0 where
    pub same_socks : s'.socks ≡ s.socks
    pub same_key : key' ≡ record key { local_port = key'.local_port }

  -- Port 0 is a failure; else the key with the port has the socket.
  abbrev pub BindResult : SockKey → A → Bindings W A → ℕ × SockKey × Bindings W A → Type 0
  BindResult key v s (port, key', s') =
      ((port ≡ 0) × Unbound key s key' s')
      ⊎ ((0 < port) × (key' ≡ record key { local_port = port }) × Added key' v s s')

  -- The same for the tries in a block, of which a failure leaves the blocks and the allocator too.
  abbrev pub Tried : SockKey → A → Bindings W A → ℕ × SockKey × Bindings W A → Type 0
  Tried key v s (port, key', s') =
      ((port ≡ 0)
        × Unbound key s key' s'
        × (s'.port_blocks ≡ s.port_blocks)
        × (s'.sys.pac ≡ s.sys.pac))
      ⊎ ((0 < port) × (key' ≡ record key { local_port = port }) × Added key' v s s')

  pub sock_add-Added :
      (key : SockKey) (v : A) (s : Bindings W A)
      → let r = sock_add os crc key v s in
        (r.1.port_blocks ≡ s.port_blocks)
        × (r.1.sys.pac ≡ s.sys.pac)
        × (((r.0 ≡ false) × (r.1.socks ≡ s.socks)) ⊎ ((r.0 ≡ true) × Added key v s r.1))
  unfolding sock_add
  sock_add-Added key v s = elim (Option-cases (SockTable.lookup crc s.socks key)) [
    | inl e ↦
        (let m = os.malloc s.sys.os in
          let added = add-lookup crc (is_some m.0) s.socks key v in
          let r = SockTable.add crc (is_some m.0) s.socks key v in
          elim (Bool-cases r.0) [
            | inl ok ↦
                rw (e, sock_add)
                  (
                    refl,
                    refl,
                    inr (ok, record { was_free = e; lookups = λ j. rw ok at (added.1 j) }),
                  )
            | inr failed ↦
                rw (e, sock_add)
                  (refl, refl, inl (failed, add_failed crc (is_some m.0) s.socks key v failed))
          ])
    | inr (x, e) ↦ rw (e, sock_add) (refl, refl, inl (refl, refl))
  ]

  Added-later :
      (key : SockKey) (v : A) (s t u : Bindings W A)
      → t.socks ≡ s.socks
      → Added key v t u
      → Added key v s u
  Added-later key v s t u e added = record {
    was_free = rw e at added.was_free;
    lookups = λ j. rw e at (added.lookups j);
  }

  pub result_later :
      (key key' : SockKey) (v : A) (s t : Bindings W A) (r : ℕ × SockKey × Bindings W A)
      → Unbound key s key' t
      → BindResult key' v t r
      → BindResult key v s r
  result_later key key' v s t r u (inl (z, w)) = inl (
    z,
    record {
      same_socks = w.same_socks ∙ u.same_socks;
      same_key = w.same_key ∙ moved_key key key' r.1.local_port u.same_key;
    },
  )
  result_later key key' v s t r u (inr (z, k, added)) =
      inr (z, k ∙ moved_key key key' r.0 u.same_key, Added-later r.1 v s t r.2 u.same_socks added)

  pub Tried-later :
      (key key' : SockKey) (v : A) (s t : Bindings W A) (r : ℕ × SockKey × Bindings W A)
      → Unbound key s key' t
      → t.port_blocks ≡ s.port_blocks
      → t.sys.pac ≡ s.sys.pac
      → Tried key' v t r
      → Tried key v s r
  Tried-later key key' v s t r u f g (inl (z, w, x, y)) = inl (
    z,
    record {
      same_socks = w.same_socks ∙ u.same_socks;
      same_key = w.same_key ∙ moved_key key key' r.1.local_port u.same_key;
    },
    x ∙ f,
    y ∙ g,
  )
  Tried-later key key' v s t r u f g (inr (z, k, added)) =
      inr (z, k ∙ moved_key key key' r.0 u.same_key, Added-later r.1 v s t r.2 u.same_socks added)

  pub Tried-BindResult :
      (key : SockKey) (v : A) (s : Bindings W A) (r : ℕ × SockKey × Bindings W A)
      → Tried key v s r
      → BindResult key v s r
  Tried-BindResult key v s r (inl (z, w, x, y)) = inl (z, w)
  Tried-BindResult key v s r (inr t) = inr t

  pub got_block :
      (key : SockKey) (v : A) (addr : ℕ) (s t : Bindings W A)
      → Added key v s t
      → Added key v s (get_block os crc addr t)
  unfolding get_block
  got_block key v addr s t added = record { was_free = added.was_free; lookups = added.lookups }

  pub try_ports-Tried :
      (n idx : ℕ) (b : PortBlock) (key : SockKey) (v : A) (s : Bindings W A)
      → Placed b
      → (0 < n → idx < b.size)
      → Tried key v s (try_ports os crc n idx b key v s)
  unfolding try_ports
  try_ports-Tried zero idx b key v s placed h =
      inl (refl, record { same_socks = refl; same_key = refl }, refl, refl)
  try_ports-Tried (suc n) idx b key v s placed h =
      let key' = record key { local_port = u16 (b.start + idx) } in
      let r = sock_add os crc key' v s in
      let (blocks, pac, done) = sock_add-Added key' v s in
      let here = h (omega arith) in
      let low = placed.positive in
      let high = placed.end_le in
      if_lem (Tried key v s) r.0 _ _
        (λ ok. elim done [
          | inl (z, same) ↦ absurd (ground (arith, ok, z))
          | inr (z, added) ↦ inr (omega arith, refl, got_block key' v b.addr s r.1 added)
        ])
        (λ ok. elim done [
          | inl (z, same) ↦
              Tried-later key key' v s r.1 _ (record { same_socks = same; same_key = refl }) blocks
                pac (try_ports-Tried n _ b key' v r.1 placed (λ p. ground (arith, here)))
          | inr (z, added) ↦ absurd (ground (arith, ok, z))
        ])
