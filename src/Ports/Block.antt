-- ===== src/Ports/Block.antt =====
-- The blocks of 64 ports that a worker takes at a time (src/port_alloc.c: do_port_block_alloc,
-- port_block_alloc, port_block_free and what they call). The lock `pac.lock` is left out: a call runs to
-- its end before another one starts.
pub mod Rollback
pub mod Placed
use libtpa.Base.{
  is_some, ℕ, zero, suc, ◌+◌, ◌-◌, ◌*◌, ◌/◌, ◌%◌, Bool, true, false, not, ◌||◌, Option, some, none,
  List, [], ◌∷◌, if◌then◌else◌, leb, ◌==◌, bit_and, u16, u64,
}
use libtpa.Ports.{
  PortAllocCtrl, PortBlock, Os, Sys, port_allocated, port_count, port_alloc, port_free,
}

-- `x & ~DEFAULT_PORT_BLOCK_MASK`
abbrev pub align : ℕ → ℕ
align x = x - x % 64

module _ {W : Type 0} where
  -- The first number is that of the ports to look at.
  unfoldable pub port_range_is_free : ℕ → ℕ → Sys W → Bool
  port_range_is_free zero port s = true
  port_range_is_free (suc n) port s =
      let rest = port_range_is_free n (port + 1) s in if port_allocated port s then false else rest

module _ {W : Type 0} (os : Os W) where
  -- The loop over the ports of a block, `n` of them from `port` on; those that it has are in `ports`, the
  -- last one first. `false` is the jump to `fail`.
  unfoldable pub alloc_ports : ℕ → ℕ → List ℕ → Sys W → Bool × List ℕ × Sys W
  alloc_ports zero port ports s = (true, ports, s)
  alloc_ports (suc n) port ports s =
      let (got, s') = port_alloc os (u16 port) s in
      let rest = alloc_ports n (port + 1) (got ∷ ports) s' in
      if got == 0 then (false, ports, s') else rest

  -- The loop after `fail`.
  unfoldable pub free_ports : List ℕ → Sys W → Sys W
  free_ports [] s = s
  free_ports (port ∷ ports) s = free_ports ports (port_free os port s).1

  -- After port_block_offload_create.
  unfoldable pub offloaded : List ℕ → PortBlock → Bool × W → Sys W → Option PortBlock × Sys W
  offloaded ports block (false, w) s =
      (none, free_ports ports (record s { os = os.free block.addr (os.set_ebusy true w) }))
  offloaded ports block (true, w) s = (
    some block,
    record s { pac = record (s.pac) { nr_port_block = u64 (s.pac.nr_port_block + 1) }; os = w },
  )

  abbrev pub new_block : ℕ → ℕ → ℕ → PortBlock
  new_block addr start size = record {
    addr = addr;
    start = start;
    end = u16 (start + size);
    size = size;
    mask = u16 (size + 65535);
    refcnt = 0;
    port_mask = 65535 - u16 (size + 65535);
    armed = false;
  }

  -- After the loop over the ports.
  unfoldable pub ports_taken : ℕ → ℕ → ℕ → Bool × List ℕ × Sys W → Option PortBlock × Sys W
  ports_taken addr start size (false, ports, s) =
      (none, free_ports ports (record s { os = os.free addr s.os }))
  ports_taken addr start size (true, ports, s) =
      let block = new_block addr start size in
      offloaded ports block (os.offload_create block (os.set_ebusy false s.os)) s

  -- After malloc.
  unfoldable pub with_block : ℕ → ℕ → Option ℕ × W → Sys W → Option PortBlock × Sys W
  with_block start size (none, w) s = (none, record s { os = w })
  with_block start size (some addr, w) s =
      ports_taken addr start size (alloc_ports size start [] (record s { os = w }))

  unfoldable pub do_port_block_alloc : ℕ → ℕ → Sys W → Option PortBlock × Sys W
  do_port_block_alloc start size s =
      if not (bit_and size (65535 - size) == 0)
      then (none, s)
      else if port_range_is_free size start s
      then with_block start size (os.malloc s.os) s
      else (none, s)

  -- The loop of port_block_alloc between `min` and `max`; the first number is that of the tries left.
  unfoldable pub scan_blocks : ℕ → ℕ → ℕ → ℕ → Sys W → Option PortBlock × Sys W
  scan_blocks zero min max start s = (none, s)
  scan_blocks (suc n) min max start s =
      let from = if leb max start then min else start in
      let r = do_port_block_alloc from 64 s in
      let rest = scan_blocks n min max (u16 (from + 64)) r.1 in
      if is_some r.0 || os.is_ebusy r.1.os then r else rest

  unfoldable pub random_block : ℕ × W → Sys W → Option PortBlock × Sys W
  random_block (tsc, w) s =
      let min = u16 (align (s.pac.min + 63)) in
      let max = align s.pac.max in
      scan_blocks ((max - min) / 64) min max (u16 (align (tsc / 4 % port_count s + min)))
        (record s { os = w })

  unfoldable pub port_block_alloc : ℕ → Sys W → Option PortBlock × Sys W
  port_block_alloc port s =
      if port == 0 then random_block (os.rdtsc s.os) s else do_port_block_alloc (align port) 64 s
