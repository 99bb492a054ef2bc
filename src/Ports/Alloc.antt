-- ===== src/Ports/Alloc.antt =====
-- The allocation of one port: what it changes, that it finds a port, and that the count of ports is that
-- of the map.
use libtpa.Base.{
  ℕ, zero, suc, ◌+◌, ◌-◌, ◌≤◌, ◌<◌, ◌≡◌, ◌⊎◌, inl, inr, refl, ◌∙◌, Bool, true, false, Option, some,
  none, ltb, u64, arith, if_lem,
}
use libtpa.Ring.{update}
use native.Mathlib.Nat.{mod-lt}
use libtpa.Ports.{
  Os, Sys, port_allocated, port_count, bound, with_socket, next_port, start_port, do_port_alloc,
  scan, random_port, port_alloc,
}

-- Nothing is allocated.
pub record Kept {W : Type 0} (s s' : Sys W) : Type 0 where
  pub same_map : s'.pac.port_map ≡ s.pac.port_map
  pub same_count : s'.pac.nr_port_allocated ≡ s.pac.nr_port_allocated
  pub same_min : s'.pac.min ≡ s.pac.min
  pub same_max : s'.pac.max ≡ s.pac.max

-- The port was free, and is the only one that is allocated.
pub record Took {W : Type 0} (port : ℕ) (s s' : Sys W) : Type 0 where
  pub was_free : s.pac.port_map port ≡ none
  pub fd : ℕ
  pub new_map : s'.pac.port_map ≡ update s.pac.port_map port (some fd)
  pub new_count : s'.pac.nr_port_allocated ≡ u64 (s.pac.nr_port_allocated + 1)
  pub same_min : s'.pac.min ≡ s.pac.min
  pub same_max : s'.pac.max ≡ s.pac.max

-- The result of the allocation of a port: 0, or that port.
abbrev pub Allocated : {W : Type 0} → ℕ → Sys W → ℕ × Sys W → Type 0
Allocated port s (got, s') = ((got ≡ 0) × Kept s s') ⊎ ((got ≡ port) × Took port s s')

-- The result of the allocation of any port of the range.
abbrev pub AllocatedAny : {W : Type 0} → Sys W → ℕ × Sys W → Type 0
AllocatedAny s (got, s') =
    ((got ≡ 0) × Kept s s') ⊎ ((s.pac.min ≤ got) × (got < s.pac.max) × Took got s s')

pub Kept-refl : {W : Type 0} (s : Sys W) → Kept s s
Kept-refl s = record { same_map = refl; same_count = refl; same_min = refl; same_max = refl }

pub Kept-trans : {W : Type 0} (s t u : Sys W) → Kept s t → Kept t u → Kept s u
Kept-trans s t u k l = record {
  same_map = l.same_map ∙ k.same_map;
  same_count = l.same_count ∙ k.same_count;
  same_min = l.same_min ∙ k.same_min;
  same_max = l.same_max ∙ k.same_max;
}

pub Took-later : {W : Type 0} (port : ℕ) (s t u : Sys W) → Kept s t → Took port t u → Took port s u
Took-later port s t u k l = record {
  was_free = rw k.same_map at l.was_free;
  fd = l.fd;
  new_map = rw k.same_map at l.new_map;
  new_count = rw k.same_count at l.new_count;
  same_min = l.same_min ∙ k.same_min;
  same_max = l.same_max ∙ k.same_max;
}

-- The range of the instance. Its first port is not 0, and its end is a uint16_t.
pub record HasRange {W : Type 0} (s : Sys W) : Type 0 where
  pub positive : 0 < s.pac.min
  pub not_empty : s.pac.min < s.pac.max
  pub end_lt : s.pac.max < 65536

pub Kept-HasRange : {W : Type 0} (s t : Sys W) → Kept s t → HasRange s → HasRange t
Kept-HasRange s t k r = record {
  positive = omega (arith, k.same_min, r.positive);
  not_empty = omega (arith, k.same_min, k.same_max, r.not_empty);
  end_lt = omega (arith, k.same_max, r.end_lt);
}

any_later :
    {W : Type 0} (s t : Sys W) (r : ℕ × Sys W) → Kept s t → AllocatedAny t r → AllocatedAny s r
any_later s t r k (inl (e, l)) = inl (e, Kept-trans s t r.1 k l)
any_later s t r k (inr (lo, hi, took)) =
    inr (rw k.same_min at lo, rw k.same_max at hi, Took-later r.0 s t r.1 k took)

unfoldable pub InRange : {W : Type 0} → Sys W → ℕ → Type 0
InRange s port = (s.pac.min ≤ port) × (port < s.pac.max)

pub start_port-InRange :
    {W : Type 0} (s : Sys W) (tsc : ℕ) → HasRange s → InRange s (start_port s tsc)
unfolding start_port InRange
start_port-InRange s tsc r =
    let low = r.not_empty in
    let high = r.end_lt in
    let within = mod-lt tsc (let h : 0 < s.pac.max - s.pac.min = omega arith in h) in
    (omega arith, omega arith)

pub next_port-InRange :
    {W : Type 0} (s : Sys W) (port : ℕ) → HasRange s → InRange s port → InRange s (next_port s port)
unfolding next_port InRange
next_port-InRange s port r i =
    let a = r.not_empty in let b = r.end_lt in (ground (arith, i.0, i.1), ground (arith, i.0, i.1))

module _ {W : Type 0} (os : Os W) where
  bound-Allocated :
      (port fd : ℕ) (r : Bool × W) (s : Sys W)
      → 0 < port
      → s.pac.port_map port ≡ none
      → Allocated port s (bound os port fd r s)
  unfolding bound
  bound-Allocated port fd (false, w) s h e =
      inl (refl, record { same_map = refl; same_count = refl; same_min = refl; same_max = refl })
  bound-Allocated port fd (true, w) s h e = inr (
    refl,
    record {
      was_free = e;
      fd = fd;
      new_map = refl;
      new_count = refl;
      same_min = refl;
      same_max = refl;
    },
  )

  with_socket-Allocated :
      (port : ℕ) (r : Option ℕ × W) (s : Sys W)
      → 0 < port
      → s.pac.port_map port ≡ none
      → Allocated port s (with_socket os port r s)
  unfolding with_socket
  with_socket-Allocated port (none, w) s h e =
      inl (refl, record { same_map = refl; same_count = refl; same_min = refl; same_max = refl })
  with_socket-Allocated port (some fd, w) s h e = bound-Allocated port fd (os.bind fd port w) s h e

  not_allocated :
      (port : ℕ) (s : Sys W) → port_allocated port s ≡ false → s.pac.port_map port ≡ none
  unfolding port_allocated
  not_allocated port s h = ground (arith, h)

  pub do_port_alloc-Allocated :
      (port : ℕ) (s : Sys W) → 0 < port → Allocated port s (do_port_alloc os port s)
  unfolding do_port_alloc
  do_port_alloc-Allocated port s h =
      if_lem (Allocated port s) (port_allocated port s) _ _ (λ e. inl (refl, Kept-refl s))
        (λ e. with_socket-Allocated port (os.socket s.os) s h (not_allocated port s e))

  -- The port of a scan is in the range.
  scan-AllocatedAny :
      (n port : ℕ) (s : Sys W) → HasRange s → InRange s port → AllocatedAny s (scan os n port s)
  unfolding scan InRange
  scan-AllocatedAny zero port s range i = inl (refl, Kept-refl s)
  scan-AllocatedAny (suc n) port s range i =
      let r = do_port_alloc os port s in
      let positive = range.positive in
      let done = do_port_alloc-Allocated port s (omega (arith, i.0)) in
      if_lem (AllocatedAny s) (ltb 0 r.0) (port, r.1) (scan os n (next_port r.1 port) r.1)
        (λ e. elim done [
          | inl (z, kept) ↦ absurd (ground (arith, e, z))
          | inr (z, took) ↦ inr (i.0, i.1, took)
        ])
        (λ e. elim done [
          | inl (z, kept) ↦
              (let later = Kept-HasRange s r.1 kept range in
                any_later s r.1 _ kept (
                  scan-AllocatedAny n (next_port r.1 port) r.1 later (
                    next_port-InRange r.1 port later
                      (rw (kept.same_min) i.0, rw (kept.same_max) i.1))))
          | inr (z, took) ↦ absurd (ground (arith, e, z, i.0))
        ])

  -- In a range that is not empty and does not start at 0, an allocation of a random port either gives 0
  -- and leaves the map and the count, or gives a port of the range that was free and is now the only
  -- one that is allocated.
  pub port_alloc-AllocatedAny : (s : Sys W) → HasRange s → AllocatedAny s (port_alloc os 0 s)
  unfolding port_alloc random_port InRange
  port_alloc-AllocatedAny s range =
      let (tsc, w) = os.rdtsc s.os in
      any_later s (record s { os = w }) _
        (record { same_map = refl; same_count = refl; same_min = refl; same_max = refl })
        (scan-AllocatedAny (port_count s) (start_port s tsc) (record s { os = w })
          (record { positive = range.positive; not_empty = range.not_empty; end_lt = range.end_lt })
          (start_port-InRange s tsc range))
