-- ===== src/Ports/Bind.antt =====
-- The binding of a socket to a local port (src/port_alloc.c: port_bind, port_unbind and what they call):
-- the blocks of a worker and its table of sockets. Blocks are told apart by their addresses. A count of
-- references never falls below 0, by the debug_assert of port_block_put.
pub mod Tries
pub mod Result
use libtpa.Base.{
  is_some, ℕ, zero, suc, ◌+◌, ◌-◌, ◌/◌, ◌%◌, Bool, true, false, not, ◌&&◌, ◌||◌, Option, some, none,
  List, [], ◌∷◌, ◌++◌, map, if◌then◌else◌, ltb, leb, ◌==◌, length, get_elem?, take, u16,
}
use libtpa.SockTable.{SockKey, Lists}
use libtpa.SockTable
use libtpa.Ports.{PortBlock, Os, Sys, port_free}
use libtpa.Ports.Block.{port_block_alloc}

-- The worker's part of the state: `port_blocks` with `nr_port_block`, and `sock_table`.
pub record Bindings (W A : Type 0) : Type 0 where
  pub sys : Sys W
  pub port_blocks : List PortBlock
  pub socks : Lists A

unfoldable pub block_get : PortBlock → PortBlock
block_get b = record b { refcnt = b.refcnt + 1; armed = false }

unfoldable pub block_put : PortBlock → PortBlock
block_put b = record b { refcnt = b.refcnt - 1; armed = if b.refcnt == 1 then true else b.armed }

-- The update of the block at an address.
unfoldable pub at_block : ℕ → (PortBlock → PortBlock) → List PortBlock → List PortBlock
at_block addr f [] = []
at_block addr f (b ∷ bs) = (if b.addr == addr then f b else b) ∷ at_block addr f bs

unfoldable pub port_block_find : List PortBlock → ℕ → Option PortBlock
port_block_find [] port = none
port_block_find (b ∷ bs) port =
    let rest = port_block_find bs port in
    if leb b.start port && ltb port b.end then some b else rest

-- The first block at the address gets the content of the last one.
unfoldable pub overwrite : ℕ → PortBlock → List PortBlock → List PortBlock
overwrite addr last [] = []
overwrite addr last (b ∷ bs) =
    let rest = overwrite addr last bs in if b.addr == addr then last ∷ bs else b ∷ rest

unfoldable pub worker_drop_port_block : ℕ → List PortBlock → List PortBlock
worker_drop_port_block addr bs = elim (get_elem? bs (length bs - 1)) [
  | none ↦ bs
  | some last ↦ take (length bs - 1) (overwrite addr last bs)
]

-- The loop of port_block_free.
unfoldable pub free_range : {W : Type 0} (os : Os W) → ℕ → ℕ → Sys W → Sys W
free_range os zero port s = s
free_range os (suc n) port s = free_range os n (port + 1) (port_free os port s).1

module _ {W A : Type 0} (os : Os W) (crc : ℕ → ℕ → ℕ) where
  abbrev pub on_os : W → Bindings W A → Bindings W A
  on_os w s = record s { sys = record (s.sys) { os = w } }

  -- sock_table_add, with its malloc.
  unfoldable pub sock_add : SockKey → A → Bindings W A → Bool × Bindings W A
  sock_add key v s = elim (SockTable.lookup crc s.socks key) [
    | some x ↦ (false, s)
    | none ↦
        (let (mem, w) = os.malloc s.sys.os in
          let (ok, t) = SockTable.add crc (is_some mem) s.socks key v in
          (ok, record (on_os w s) { socks = t }))
  ]

  unfoldable pub get_block : ℕ → Bindings W A → Bindings W A
  get_block addr s = record s { port_blocks = at_block addr block_get s.port_blocks }

  -- The loop of bind_from_port_block; the first number is that of the tries left. The key keeps the port
  -- that was tried last.
  unfoldable pub try_ports :
      ℕ → ℕ → PortBlock → SockKey → A → Bindings W A → ℕ × SockKey × Bindings W A
  try_ports zero idx b key v s = (0, key, s)
  try_ports (suc n) idx b key v s =
      let key' = record key { local_port = u16 (b.start + idx) } in
      let (ok, s') = sock_add key' v s in
      let rest = try_ports n (if leb b.size (idx + 1) then 0 else idx + 1) b key' v s' in
      if ok then (u16 (b.start + idx), key', get_block b.addr s') else rest

  unfoldable pub bind_from_port_block :
      Option PortBlock → SockKey → A → Bindings W A → ℕ × SockKey × Bindings W A
  bind_from_port_block none key v s = (0, key, s)
  bind_from_port_block (some b) key v s =
      let (tsc, w) = os.rdtsc s.sys.os in try_ports b.size (tsc / 4 % b.size) b key v (on_os w s)

  -- MAX_PORT_BLOCK_PER_WORKER is 1024.
  unfoldable pub worker_alloc_port_block : ℕ → Bindings W A → Option PortBlock × Bindings W A
  worker_alloc_port_block port s =
      let (block, sys) = port_block_alloc os port s.sys in
      let s' = record s { sys = sys } in
      if leb 1024 (length s.port_blocks) then (none, s) else elim block [
        | none ↦ (none, s')
        | some b ↦ (some b, record s' { port_blocks = s.port_blocks ++ (b ∷ []) })
      ]

  -- The rest of port_bind_on_given_port, once the block is known.
  unfoldable pub bind_in_block :
      SockKey → A → Option PortBlock × Bindings W A → ℕ × SockKey × Bindings W A
  bind_in_block key v (none, s) = (0, key, s)
  bind_in_block key v (some b, s) =
      let (ok, s') = sock_add key v s in
      if ok then (key.local_port, key, get_block b.addr s') else (0, key, s')

  unfoldable pub port_bind_on_given_port : SockKey → A → Bindings W A → ℕ × SockKey × Bindings W A
  port_bind_on_given_port key v s =
      bind_in_block key v (elim (port_block_find s.port_blocks key.local_port) [
        | none ↦ worker_alloc_port_block key.local_port s
        | some b ↦ (some b, s)
      ])

  -- The code after `alloc`.
  unfoldable pub bind_in_new_block : SockKey → A → Bindings W A → ℕ × SockKey × Bindings W A
  bind_in_new_block key v s =
      let (block, s') = worker_alloc_port_block 0 s in bind_from_port_block block key v s'

  -- The loop of port_bind_on_random_port over the blocks of the worker.
  unfoldable pub try_blocks : ℕ → ℕ → SockKey → A → Bindings W A → ℕ × SockKey × Bindings W A
  try_blocks zero idx key v s = bind_in_new_block key v s
  try_blocks (suc n) idx key v s =
      let (port, key', s') = bind_from_port_block (get_elem? s.port_blocks idx) key v s in
      let rest =
        try_blocks n (if leb (length s.port_blocks) (idx + 1) then 0 else idx + 1) key' v s' in
      if ltb 0 port then (port, key', s') else rest

  unfoldable pub port_bind_on_random_port : SockKey → A → Bindings W A → ℕ × SockKey × Bindings W A
  port_bind_on_random_port key v s =
      let nr = length s.port_blocks in
      let (tsc, w) = os.rdtsc s.sys.os in
      if nr == 0 then bind_in_new_block key v s else try_blocks nr (tsc / 4 % nr) key v (on_os w s)

  unfoldable pub port_bind : SockKey → A → Bindings W A → ℕ × SockKey × Bindings W A
  port_bind key v s =
      if key.local_port == 0
      then port_bind_on_random_port key v s
      else port_bind_on_given_port key v s

  unfoldable pub port_unbind : SockKey → Bindings W A → Bool × Bindings W A
  port_unbind key s = elim (port_block_find s.port_blocks key.local_port) [
    | none ↦ (false, s)
    | some b ↦
        (let (ok, t) = SockTable.del crc s.socks key in
          if ok
          then (true, record s { port_blocks = at_block b.addr block_put s.port_blocks; socks = t })
          else (false, s))
  ]

  unfoldable pub port_block_free : PortBlock → Bindings W A → Bindings W A
  port_block_free b s =
      let sys = free_range os (b.end - b.start) b.start s.sys in
      record s {
        sys = record sys { os = os.free b.addr (os.offload_destroy b sys.os) };
        port_blocks = worker_drop_port_block b.addr s.port_blocks;
      }

  unfoldable pub port_block_timeout : PortBlock → Bindings W A → Bindings W A
  port_block_timeout b s = if ltb 0 b.refcnt then s else port_block_free b s
