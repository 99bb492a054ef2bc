-- ===== src/Ports/Block/Placed.antt =====
-- Where the blocks of port_block_alloc lie.
use libtpa.Base.{
  ℕ, zero, suc, ◌+◌, ◌-◌, ◌/◌, ◌≤◌, ◌<◌, ◌≡◌, inl, inr, Bool, true, false, not, ◌||◌, Option, some,
  none, List, if◌then◌else◌, leb, ◌==◌, bit_and, u16, arith, is_some, if_lem, Bool-cases,
}
use libtpa.Ports.{PortBlock, Os, Sys}
use libtpa.Ports.Block.{
  align, port_range_is_free, offloaded, new_block, ports_taken, with_block, do_port_block_alloc,
  scan_blocks, random_block, port_block_alloc,
}
use native.Mathlib.Nat.{mod-lt}

-- No port of the block is 0 or above 65535.
pub record Placed (b : PortBlock) : Type 0 where
  pub positive : 0 < b.start
  pub end_le : b.start + b.size ≤ 65536

abbrev pub Each : (PortBlock → Type 0) → Option PortBlock → Type 0
Each P none = Unit
Each P (some b) = P b

module _ {W : Type 0} (os : Os W) where
  offloaded-Each :
      (P : PortBlock → Type 0) (ports : List ℕ) (b : PortBlock) (r : Bool × W) (s : Sys W)
      → P b
      → Each P (offloaded os ports b r s).0
  unfolding offloaded
  offloaded-Each P ports b (false, w) s h = tt
  offloaded-Each P ports b (true, w) s h = h

  ports_taken-Each :
      (P : PortBlock → Type 0) (addr start size : ℕ) (r : Bool × List ℕ × Sys W)
      → P (new_block os addr start size)
      → Each P (ports_taken os addr start size r).0
  unfolding ports_taken
  ports_taken-Each P addr start size (false, ports, s) h = tt
  ports_taken-Each P addr start size (true, ports, s) h =
      offloaded-Each P ports (new_block os addr start size) _ s h

  with_block-Each :
      (P : PortBlock → Type 0) (start size : ℕ) (r : Option ℕ × W) (s : Sys W)
      → ((addr : ℕ) → P (new_block os addr start size))
      → Each P (with_block os start size r s).0
  unfolding with_block
  with_block-Each P start size (none, w) s h = tt
  with_block-Each P start size (some addr, w) s h = ports_taken-Each P addr start size _ (h addr)

  do_alloc-Placed :
      (start size : ℕ) (s : Sys W)
      → 0 < start
      → start + size ≤ 65536
      → Each Placed (do_port_block_alloc os start size s).0
  unfolding do_port_block_alloc
  do_alloc-Placed start size s h k =
      if_lem (λ (r : Option PortBlock × Sys W). Each Placed r.0)
        (not (bit_and size (65535 - size) == 0)) (none, s) _ (λ e. tt)
        λ e.
          if_lem (λ (r : Option PortBlock × Sys W). Each Placed r.0)
            (port_range_is_free size start s) (with_block os start size (os.malloc s.os) s)
            (none, s)
            (λ f.
              with_block-Each Placed start size (os.malloc s.os) s
                (λ addr. record { positive = h; end_le = k }))
            (λ f. tt)

  scan-Placed :
      (n min max start : ℕ) (s : Sys W)
      → 0 < min
      → min < max
      → max ≤ 64000
      → 0 < start
      → Each Placed (scan_blocks os n min max start s).0
  unfolding scan_blocks
  scan-Placed zero min max start s h k l m = tt
  scan-Placed (suc n) min max start s h k l m =
      let from = if leb max start then min else start in
      let r = do_port_block_alloc os from 64 s in
      let low : 0 < from = ground arith in
      let high : from < max = ground arith in
      if_lem (λ (r : Option PortBlock × Sys W). Each Placed r.0) (is_some r.0 || os.is_ebusy r.1.os)
        r (scan_blocks os n min max (u16 (from + 64)) r.1)
        (λ e. do_alloc-Placed from 64 s low (omega arith))
        (λ e. scan-Placed n min max (u16 (from + 64)) r.1 h k l (omega arith))

  none_left :
      (n min max start : ℕ) (s : Sys W) → n ≡ 0 → Each Placed (scan_blocks os n min max start s).0
  unfolding scan_blocks
  none_left zero min max start s e = tt
  none_left (suc n) min max start s e = absurd (omega arith)

  -- A random block lies between 1 and 65535, when the range does not start at 0 and ends at PORT_MAX or
  -- before, as local_port_range_set makes sure.
  pub random_block-Placed :
      (s : Sys W)
      → 0 < s.pac.min
      → s.pac.min < s.pac.max
      → s.pac.max ≤ 64000
      → Each Placed (port_block_alloc os 0 s).0
  unfolding port_block_alloc random_block
  random_block-Placed s h k l =
      let tsc = (os.rdtsc s.os).0 in
      let within = mod-lt (tsc / 4) (let p : 0 < s.pac.max - s.pac.min = omega arith in p) in
      let min = u16 (align (s.pac.min + 63)) in
      let max = align s.pac.max in
      let low : 0 < min = omega arith in
      elim (Bool-cases (leb max min)) [
        | inl e ↦ none_left _ min max _ _ (let z : max ≤ min = ground (arith, e) in omega arith)
        | inr e ↦ scan-Placed _ min max _ _ low (ground (arith, e)) (omega arith) (omega arith)
      ]
