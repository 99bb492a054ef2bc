-- ===== src/Ports/Block/Rollback.antt =====
-- A block of ports is taken whole or not at all.
use libtpa.Base.{
  ℕ, zero, suc, ◌+◌, ◌-◌, ◌≤◌, ◌<◌, ◌≡◌, ◌⊎◌, inl, inr, refl, ap, subst, sym, ◌∙◌, Bool, true,
  false, not, Option, some, none, List, [], ◌∷◌, ◌==◌, bit_and, u16, arith, Bool-cases, if_lem,
  ==_iff, ==_refl,
}
use libtpa.Ring.{update}
use libtpa.Ports.{PortBlock, Os, Sys, port_allocated, port_alloc, freed, port_free}
use libtpa.Ports.Alloc.{
  Kept, Took, HasRange, Allocated, Kept-HasRange, do_port_alloc-Allocated, port_alloc-AllocatedAny,
}
use libtpa.Ports.Block.{
  port_range_is_free, alloc_ports, free_ports, offloaded, new_block, ports_taken, with_block,
  do_port_block_alloc,
}

-- The ports of a list are set free, one after the other.
undo : List ℕ → (ℕ → Option ℕ) → ℕ → Option ℕ
undo [] m = m
undo (p ∷ ps) m = undo ps (update m p none)

update_back : (m : ℕ → Option ℕ) (p fd : ℕ) → m p ≡ none → update (update m p (some fd)) p none ≡ m
update_back m p fd h = λ i j. restored j i
  where
    same : (j : ℕ) → (p == j) ≡ true → m j ≡ none
    same j e = ap m (sym ((==_iff p j).0 e)) ∙ h

    restored : (j : ℕ) → update (update m p (some fd)) p none j ≡ m j
    restored j = ground (arith, same j)

module _ {W : Type 0} (os : Os W) where
  freed-map :
      (port : ℕ) (fd : Option ℕ) (s : Sys W)
      → (freed os port fd s).1.pac.port_map ≡ update s.pac.port_map port none
  unfolding freed
  freed-map port none s = refl
  freed-map port (some fd) s = refl

  free_ports-undo :
      (ports : List ℕ) (s : Sys W)
      → (free_ports os ports s).pac.port_map ≡ undo ports s.pac.port_map
  unfolding free_ports undo port_free
  free_ports-undo [] s = refl
  free_ports-undo (p ∷ ps) s =
      free_ports-undo ps (port_free os p s).1 ∙ ap (undo ps) (freed-map p (s.pac.port_map p) s)

  -- The result of port_alloc, of a given port or of a random one.
  abbrev Taken : Sys W → ℕ × Sys W → Type 0
  Taken s r = ((r.0 ≡ 0) × Kept s r.1) ⊎ ((0 < r.0) × Took r.0 s r.1)

  port_alloc-Allocated : (port : ℕ) (s : Sys W) → 0 < port → Allocated port s (port_alloc os port s)
  unfolding port_alloc
  port_alloc-Allocated port s h =
      if_lem (Allocated port s) (port == 0) _ _ (λ e. absurd (ground (arith, e)))
        (λ e. do_port_alloc-Allocated os port s h)

  port_alloc-Taken : (port : ℕ) (s : Sys W) → HasRange s → Taken s (port_alloc os port s)
  port_alloc-Taken zero s range = elim (port_alloc-AllocatedAny os s range) [
    | inl (e, kept) ↦ inl (e, kept)
    | inr (low, high, took) ↦ (let positive = range.positive in inr (omega arith, took))
  ]
  port_alloc-Taken (suc port) s range = elim (port_alloc-Allocated (suc port) s (omega arith)) [
    | inl (e, kept) ↦ inl (e, kept)
    | inr (e, took) ↦
        inr (omega (arith, e), subst (λ p. Took p s (port_alloc os (suc port) s).1) (sym e) took)
  ]

  Taken-HasRange : (s : Sys W) (r : ℕ × Sys W) → Taken s r → HasRange s → HasRange r.1
  Taken-HasRange s r (inl (e, kept)) range = Kept-HasRange s r.1 kept range
  Taken-HasRange s r (inr (e, took)) range = record {
    positive = omega (arith, took.same_min, range.positive);
    not_empty = omega (arith, took.same_min, took.same_max, range.not_empty);
    end_lt = omega (arith, took.same_max, range.end_lt);
  }

  -- Setting free all that the loop has, from wherever it stopped, gives the map from before.
  alloc_ports-undo :
      (n port : ℕ) (ports : List ℕ) (s : Sys W)
      → HasRange s
      → let r = alloc_ports os n port ports s in
        undo r.1 r.2.pac.port_map ≡ undo ports s.pac.port_map
  unfolding alloc_ports undo
  alloc_ports-undo zero port ports s range = refl
  alloc_ports-undo (suc n) port ports s range =
      let r = port_alloc os (u16 port) s in
      let taken = port_alloc-Taken (u16 port) s range in
      if_lem (λ x. undo x.1 x.2.pac.port_map ≡ undo ports s.pac.port_map) (r.0 == 0)
        (false, ports, r.1) (alloc_ports os n (port + 1) (r.0 ∷ ports) r.1)
        (λ e. elim taken [
          | inl (z, kept) ↦ ap (undo ports) kept.same_map
          | inr (z, took) ↦ absurd (ground (arith, z, e))
        ])
        (λ e. elim taken [
          | inl (z, kept) ↦ absurd (ground (arith, z, e))
          | inr (z, took) ↦
              alloc_ports-undo n (port + 1) (r.0 ∷ ports) r.1
                (Taken-HasRange s r (inr (z, took)) range)
              ∙ ap (undo ports) (
                  ap (λ m. update m r.0 none) took.new_map
                  ∙ update_back s.pac.port_map r.0 took.fd took.was_free)
        ])

  -- The ports from `port` on, `n` of them, have become allocated, and no others.
  pub record TookAll (port n : ℕ) (s s' : Sys W) : Type 0 where
    pub inside : (j : ℕ) → port ≤ j → j < port + n → port_allocated j s' ≡ true
    pub outside : (j : ℕ) → (j < port) ⊎ (port + n ≤ j) → s'.pac.port_map j ≡ s.pac.port_map j

  Took-next :
      (n port : ℕ) (s t u : Sys W)
      → Took port s t
      → TookAll (port + 1) n t u
      → TookAll port (suc n) s u
  unfolding port_allocated
  Took-next n port s t u took more = record {
    inside = λ j a b. elim (Bool-cases (port == j)) [
      | inl e ↦ subst (λ x. port_allocated x u ≡ true) ((==_iff port j).0 e) here
      | inr e ↦ more.inside j (ground (arith, e, a)) (omega arith)
    ];
    outside = λ j a. elim a [
      | inl l ↦ more.outside j (inl (omega arith)) ∙ ap (λ m. m j) took.new_map ∙ ground (arith, l)
      | inr l ↦ more.outside j (inr (omega arith)) ∙ ap (λ m. m j) took.new_map ∙ ground (arith, l)
    ];
  }
    where
      has_fd : t.pac.port_map port ≡ some took.fd
      has_fd = ap (λ m. m port) took.new_map ∙ ground (arith, ==_refl port)

      kept : u.pac.port_map port ≡ some took.fd
      kept = more.outside port (inl (omega arith)) ∙ has_fd

      here : port_allocated port u ≡ true
      here = ground (arith, kept)

  -- Only the map matters.
  TookAll-later :
      (port n : ℕ) (s t u : Sys W)
      → TookAll port n s t
      → u.pac.port_map ≡ t.pac.port_map
      → TookAll port n s u
  unfolding port_allocated
  TookAll-later port n s t u all e = record {
    inside = λ j a b. rw e (all.inside j a b);
    outside = λ j a. rw e (all.outside j a);
  }

  TookAll-earlier :
      (port n : ℕ) (t s u : Sys W)
      → TookAll port n t u
      → t.pac.port_map ≡ s.pac.port_map
      → TookAll port n s u
  TookAll-earlier port n t s u all e = record {
    inside = all.inside;
    outside = λ j a. rw (← e) (all.outside j a);
  }

  alloc_ports-TookAll :
      (n port : ℕ) (ports : List ℕ) (s : Sys W)
      → 0 < port
      → port + n ≤ 65536
      → (alloc_ports os n port ports s).0 ≡ true
      → TookAll port n s (alloc_ports os n port ports s).2
  unfolding alloc_ports
  alloc_ports-TookAll zero port ports s h k =
      λ e. record { inside = λ j a b. absurd (omega arith); outside = λ j a. refl }
  alloc_ports-TookAll (suc n) port ports s h k =
      let r = port_alloc os (u16 port) s in
      let rest = alloc_ports os n (port + 1) (r.0 ∷ ports) r.1 in
      let same : u16 port ≡ port = omega arith in
      if_lem (λ x. x.0 ≡ true → TookAll port (suc n) s x.2) (r.0 == 0) (false, ports, r.1) rest
        (λ z e. absurd (ground (arith, e)))
        (λ z e. elim (port_alloc-Allocated (u16 port) s (omega arith)) [
          | inl (y, kept) ↦ absurd (ground (arith, y, z))
          | inr (y, took) ↦
              Took-next n port s r.1 rest.2 (subst (λ p. Took p s r.1) same took)
                (alloc_ports-TookAll n (port + 1) (r.0 ∷ ports) r.1 (omega arith) (omega arith) e)
        ])

  -- A block that is not given leaves the map as it was. A block that is given has its ports, all of them
  -- and no others.
  abbrev pub BlockResult : ℕ → ℕ → Sys W → Option PortBlock × Sys W → Type 0
  BlockResult start size s (none, s') = s'.pac.port_map ≡ s.pac.port_map
  BlockResult start size s (some b, s') =
      (b.start ≡ start) × (b.end ≡ u16 (start + size)) × TookAll start size s s'

  offloaded-BlockResult :
      (start size : ℕ) (ports : List ℕ) (b : PortBlock) (r : Bool × W) (s s' : Sys W)
      → undo ports s'.pac.port_map ≡ s.pac.port_map
      → TookAll start size s s'
      → b.start ≡ start
      → b.end ≡ u16 (start + size)
      → BlockResult start size s (offloaded os ports b r s')
  unfolding offloaded
  offloaded-BlockResult start size ports b (false, w) s s' back all x y =
      free_ports-undo ports _ ∙ back
  offloaded-BlockResult start size ports b (true, w) s s' back all x y =
      (x, y, TookAll-later start size s s' _ all refl)

  ports_taken-BlockResult :
      (addr start size : ℕ) (r : Bool × List ℕ × Sys W) (s : Sys W)
      → undo r.1 r.2.pac.port_map ≡ s.pac.port_map
      → (r.0 ≡ true → TookAll start size s r.2)
      → BlockResult start size s (ports_taken os addr start size r)
  unfolding ports_taken
  ports_taken-BlockResult addr start size (false, ports, s') s back all =
      free_ports-undo ports _ ∙ back
  ports_taken-BlockResult addr start size (true, ports, s') s back all =
      offloaded-BlockResult start size ports (new_block os addr start size) _ s s' back (all refl)
        refl refl

  with_block-BlockResult :
      (start size : ℕ) (r : Option ℕ × W) (s : Sys W)
      → HasRange s
      → 0 < start
      → start + size ≤ 65536
      → BlockResult start size s (with_block os start size r s)
  unfolding with_block undo
  with_block-BlockResult start size (none, w) s range h k = refl
  with_block-BlockResult start size (some addr, w) s range h k =
      let s0 = record s { os = w } in
      let range0 : HasRange s0 = record {
        positive = range.positive;
        not_empty = range.not_empty;
        end_lt = range.end_lt;
      } in
      ports_taken-BlockResult addr start size (alloc_ports os size start [] s0) s
        (alloc_ports-undo size start [] s0 range0)
        (λ e. TookAll-earlier start size s0 s _ (alloc_ports-TookAll size start [] s0 h k e) refl)

  -- In a range that is not empty, and for a block that starts above 0 and ends at 65536 or before: if
  -- anything fails on the way, the map of ports is as before. If the block is given, it has the ports
  -- asked for, all of them are allocated, and no other port has changed.
  pub do_port_block_alloc-BlockResult :
      (start size : ℕ) (s : Sys W)
      → HasRange s
      → 0 < start
      → start + size ≤ 65536
      → BlockResult start size s (do_port_block_alloc os start size s)
  unfolding do_port_block_alloc
  do_port_block_alloc-BlockResult start size s range h k =
      if_lem (BlockResult start size s) (not (bit_and size (65535 - size) == 0)) (none, s) _
        (λ e. refl)
        (λ e.
          if_lem (BlockResult start size s) (port_range_is_free size start s)
            (with_block os start size (os.malloc s.os) s) (none, s)
            (λ f. with_block-BlockResult start size (os.malloc s.os) s range h k) (λ f. refl))
