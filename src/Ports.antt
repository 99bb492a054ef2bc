-- ===== src/Ports.antt =====
-- The local ports (src/port_alloc.c): the map from a port to the kernel socket that holds it, the
-- allocation of a port and its release. The kernel, the memory allocator, the clock and the flow
-- offload are the record Os, on a state of their own. An fd of -1 in the map is `none`. The lock `pac.lock`
-- is held by the callers.
pub mod Alloc
pub mod Block
pub mod Find
pub mod Bind
use libtpa.Base.{
  ℕ, zero, suc, ◌+◌, ◌-◌, ◌%◌, Bool, true, false, not, Option, some, none, if◌then◌else◌, ltb, ◌==◌,
  u16, u64, sub64,
}
use libtpa.Ring.{update}

-- struct port_block; `addr` is its address and `armed` says whether its timer runs. The list of its
-- offload rules is in the state of the system.
pub record PortBlock : Type 0 where
  pub addr : ℕ
  pub start : ℕ  -- uint16_t
  pub end : ℕ  -- uint16_t
  pub size : ℕ  -- uint16_t
  pub mask : ℕ  -- uint16_t
  pub refcnt : ℕ
  pub port_mask : ℕ  -- uint16_t
  pub armed : Bool

-- struct port_alloc_ctrl
pub record PortAllocCtrl : Type 0 where
  pub min : ℕ  -- uint16_t
  pub max : ℕ  -- uint16_t
  pub nr_port_allocated : ℕ  -- uint64_t
  pub nr_port_allocated_total : ℕ  -- uint64_t
  pub nr_socket_failure : ℕ  -- uint64_t
  pub nr_bind_failure : ℕ  -- uint64_t
  pub nr_port_block : ℕ  -- uint64_t
  pub port_map : ℕ → Option ℕ

-- What the allocator calls.
pub record Os (W : Type 0) : Type 0 where
  pub socket : W → Option ℕ × W  -- socket(2)
  pub bind : ℕ → ℕ → W → Bool × W  -- bind(2) of an fd to a port
  pub close : ℕ → W → W
  pub malloc : W → Option ℕ × W
  pub free : ℕ → W → W
  pub rdtsc : W → ℕ × W
  pub offload_create : PortBlock → W → Bool × W  -- port_block_offload_create
  pub offload_destroy : PortBlock → W → W  -- port_block_offload_destroy
  pub is_ebusy : W → Bool  -- errno == EBUSY
  pub set_ebusy : Bool → W → W  -- errno = EBUSY, errno = 0

pub record Sys (W : Type 0) : Type 0 where
  pub pac : PortAllocCtrl
  pub os : W

module _ {W : Type 0} where
  unfoldable pub port_allocated : ℕ → Sys W → Bool
  port_allocated port s = elim (s.pac.port_map port) [ none ↦ false | some fd ↦ true ]

  -- PORT_COUNT
  abbrev pub port_count : Sys W → ℕ
  port_count s = s.pac.max - s.pac.min

  -- The port after the one that was tried.
  unfoldable pub next_port : Sys W → ℕ → ℕ
  next_port s port = let next = u16 (port + 1) in if next == s.pac.max then s.pac.min else next

  -- The port that a scan starts at.
  unfoldable pub start_port : Sys W → ℕ → ℕ
  start_port s tsc = u16 (tsc % port_count s + s.pac.min)

module _ {W : Type 0} (os : Os W) where
  -- After bind(2).
  unfoldable pub bound : ℕ → ℕ → Bool × W → Sys W → ℕ × Sys W
  bound port fd (false, w) s = (
    0,
    record s {
      pac = record (s.pac) { nr_bind_failure = u64 (s.pac.nr_bind_failure + 1) };
      os = os.close fd w;
    },
  )
  bound port fd (true, w) s = (
    port,
    record s {
      pac = record (s.pac) {
        port_map = update s.pac.port_map port (some fd);
        nr_port_allocated = u64 (s.pac.nr_port_allocated + 1);
        nr_port_allocated_total = u64 (s.pac.nr_port_allocated_total + 1);
      };
      os = w;
    },
  )

  -- After socket(2).
  unfoldable pub with_socket : ℕ → Option ℕ × W → Sys W → ℕ × Sys W
  with_socket port (none, w) s = (
    0,
    record s {
      pac = record (s.pac) { nr_socket_failure = u64 (s.pac.nr_socket_failure + 1) };
      os = w;
    },
  )
  with_socket port (some fd, w) s = bound port fd (os.bind fd port w) s

  unfoldable pub do_port_alloc : ℕ → Sys W → ℕ × Sys W
  do_port_alloc port s =
      if port_allocated port s then (0, s) else with_socket port (os.socket s.os) s

  -- The loop of port_alloc; the number is that of the tries left.
  unfoldable pub scan : ℕ → ℕ → Sys W → ℕ × Sys W
  scan zero port s = (0, s)
  scan (suc n) port s =
      let (got, s') = do_port_alloc port s in
      let rest = scan n (next_port s' port) s' in if ltb 0 got then (port, s') else rest

  unfoldable pub random_port : ℕ × W → Sys W → ℕ × Sys W
  random_port (tsc, w) s = scan (port_count s) (start_port s tsc) (record s { os = w })

  unfoldable pub port_alloc : ℕ → Sys W → ℕ × Sys W
  port_alloc port s = if port == 0 then random_port (os.rdtsc s.os) s else do_port_alloc port s

  unfoldable pub freed : ℕ → Option ℕ → Sys W → Bool × Sys W
  freed port none s =
      (false, record s { pac = record (s.pac) { port_map = update s.pac.port_map port none } })
  freed port (some fd) s = (
    true,
    record s {
      pac = record (s.pac) {
        nr_port_allocated = sub64 s.pac.nr_port_allocated 1;
        port_map = update s.pac.port_map port none;
      };
      os = os.close fd s.os;
    },
  )

  unfoldable pub port_free : ℕ → Sys W → Bool × Sys W
  port_free port s = freed port (s.pac.port_map port) s
