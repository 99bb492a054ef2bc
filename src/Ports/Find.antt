-- ===== src/Ports/Find.antt =====
-- The scan of port_alloc finds a port that can be had.
use libtpa.Base.{
  ℕ, zero, suc, ◌+◌, ◌-◌, ◌≤◌, ◌<◌, ◌≡◌, ◌≢◌, ◌⊎◌, inl, inr, refl, ap, true, some, none, ltb, leb,
  arith, Bool-cases, if_lem,
}
use libtpa.Ports.{
  Os, Sys, port_count, port_allocated, next_port, start_port, bound, with_socket, do_port_alloc,
  scan, random_port, port_alloc,
}
use libtpa.Ports.Alloc.{
  HasRange, InRange, Kept-HasRange, start_port-InRange, next_port-InRange, do_port_alloc-Allocated,
}

-- The kernel has a socket and lets it have the port, whenever it is asked.
pub record Grants {W : Type 0} (os : Os W) (port : ℕ) : Type 0 where
  pub socket : (w : W) → (fd : ℕ) × (w' : W) × (os.socket w ≡ (some fd, w'))
  pub bind : (fd : ℕ) (w : W) → (w' : W) × (os.bind fd port w ≡ (true, w'))

-- The scan comes to the port `q` within `n` tries.
Within : {W : Type 0} → Sys W → ℕ → ℕ → ℕ → Type 0
Within s n port q =
    ((port ≤ q) × (q < port + n)) ⊎ ((q < port) × (q + (s.pac.max - s.pac.min) < port + n))

module _ {W : Type 0} (os : Os W) (q : ℕ) (grants : Grants os q) where
  granted : (s : Sys W) → s.pac.port_map q ≡ none → (do_port_alloc os q s).0 ≡ q
  unfolding do_port_alloc port_allocated with_socket bound
  granted s h =
      let (fd, w, e) = grants.socket s.os in
      let (w', f) = grants.bind fd w in
      let had : (with_socket os q (os.socket s.os) s).0 ≡ q = rw (e, with_socket, f) refl in
      ground (arith, h, had)

  next_port-Within :
      (s : Sys W) (n port : ℕ)
      → HasRange s
      → InRange s port
      → InRange s q
      → port ≢ q
      → Within s (suc n) port q
      → Within s n (next_port s port) q
  unfolding Within InRange next_port
  next_port-Within s n port range i j h (inl near) =
      let a = range.not_empty in
      let b = range.end_lt in
      inl (
        ground (arith, near.0, near.1, i.0, i.1, j.0, j.1),
        ground (arith, near.0, near.1, i.0, i.1, j.0, j.1),
      )
  next_port-Within s n port range i j h (inr far) =
      let a = range.not_empty in
      let b = range.end_lt in ground (arith, far.0, far.1, i.0, i.1, j.0, j.1)

  start_port-Within :
      (s : Sys W) (port : ℕ)
      → HasRange s
      → InRange s port
      → InRange s q
      → Within s (port_count s) port q
  unfolding Within InRange
  start_port-Within s port range i j =
      let a = range.not_empty in
      elim (Bool-cases (leb port q)) [
        | inl e ↦ inl (ground (arith, e), ground (arith, e, i.0, j.1))
        | inr e ↦ inr (ground (arith, e), ground (arith, e, i.1, j.1))
      ]

  scan-finds :
      (s : Sys W) (n port : ℕ)
      → HasRange s
      → InRange s port
      → InRange s q
      → s.pac.port_map q ≡ none
      → Within s n port q
      → 0 < (scan os n port s).0
  unfolding scan Within InRange
  scan-finds s zero port range i j free (inl near) = absurd (omega (arith, near.0, near.1))
  scan-finds s zero port range i j free (inr far) =
      absurd (omega (arith, far.0, far.1, i.1, i.0, j.0, j.1))
  scan-finds s (suc n) port range i j free near =
      let r = do_port_alloc os port s in
      let positive = range.positive in
      if_lem (λ x. 0 < x.0) (ltb 0 r.0) (port, r.1) (scan os n (next_port r.1 port) r.1)
        (λ e. omega (arith, i.0))
        (λ e. elim (do_port_alloc-Allocated os port s (omega (arith, i.0))) [
          | inl (z, kept) ↦
              (let later = Kept-HasRange s r.1 kept range in
                let i' : InRange r.1 port = rw (kept.same_min, kept.same_max) i in
                let j' : InRange r.1 q = rw (kept.same_min, kept.same_max) j in
                scan-finds r.1 n (next_port r.1 port) later (next_port-InRange r.1 port later i') j'
                  (rw kept.same_map free)
                  (next_port-Within r.1 n port later i' j'
                    (λ e.
                      omega
                        (arith, z, i.0, e, granted s free, ap (λ x. (do_port_alloc os x s).0) e))
                    (rw (kept.same_min, kept.same_max) near)))
          | inr (z, took) ↦ absurd (ground (arith, e, z, i.0))
        ])

  -- When the range is not empty and does not start at 0, a port of it is free, and the kernel grants that
  -- port, then the allocation of a random port succeeds: from wherever it starts, the scan comes to the
  -- port, unless it has found another one before.
  pub port_alloc-finds :
      (s : Sys W) → HasRange s → InRange s q → s.pac.port_map q ≡ none → 0 < (port_alloc os 0 s).0
  unfolding port_alloc random_port InRange Within
  port_alloc-finds s range j free =
      let (tsc, w) = os.rdtsc s.os in
      scan-finds (record s { os = w }) (port_count s) (start_port s tsc)
        (record { positive = range.positive; not_empty = range.not_empty; end_lt = range.end_lt })
        (start_port-InRange s tsc range) j free
        (start_port-Within s (start_port s tsc) range (start_port-InRange s tsc range) j)
