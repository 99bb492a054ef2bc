-- ===== src/FlexFifo.antt =====
-- The fifo of sockets with work to do (include/flex_fifo.h): a ring, and a list for what does not fit. A
-- node is a number; what its tqe_prev says is a Place: NULL, the index in the ring with one added, or a
-- pointer into the list. A node belongs to one fifo, so the places are part of the fifo. The totals for the
-- statistics are left out, and the versions under the lock run the same functions under it.
pub mod Refine
pub mod Push
pub mod Pop
pub mod Take
use libtpa.Base.{
  ℕ, zero, suc, ◌+◌, ◌-◌, Bool, true, false, not, ◌&&◌, ◌||◌, Option, some, none, List, [], ◌∷◌,
  ◌++◌, if◌then◌else◌, ltb, ◌==◌, bit_and, u32, sub32,
}
use libtpa.Ring.{update}

pub data Place : Type 0 where
  nowhere : Place
  in_ring : ℕ → Place
  in_list : Place

pub record FlexFifo : Type 0 where
  pub list_size : ℕ  -- uint32_t
  pub list : List ℕ
  pub write : ℕ  -- uint32_t
  pub read : ℕ  -- uint32_t
  pub mask : ℕ  -- uint32_t
  pub size : ℕ  -- uint32_t
  pub ring : ℕ → ℕ
  pub places : ℕ → Place

-- RING_MAX_SIZE is 2^16.
abbrev pub is_ring : Place → Bool
is_ring Place.nowhere = false
is_ring (Place.in_ring idx) = ltb 0 idx && ltb idx 65537
is_ring Place.in_list = false

abbrev pub is_list : Place → Bool
is_list Place.nowhere = false
is_list (Place.in_ring idx) = ltb 65537 idx
is_list Place.in_list = true

abbrev pub is_somewhere : Place → Bool
is_somewhere Place.nowhere = false
is_somewhere (Place.in_ring idx) = not (idx == 0)
is_somewhere Place.in_list = true

unfoldable pub node_in_ring : FlexFifo → ℕ → Bool
node_in_ring ff node = is_ring (ff.places node)

unfoldable pub node_in_list : FlexFifo → ℕ → Bool
node_in_list ff node = is_list (ff.places node)

unfoldable pub node_in_fifo : FlexFifo → ℕ → Bool
node_in_fifo ff node = is_somewhere (ff.places node)

unfoldable pub ring_count : FlexFifo → ℕ
ring_count ff = sub32 ff.write ff.read

unfoldable pub ring_free_size : FlexFifo → ℕ
ring_free_size ff = sub32 ff.size (ring_count ff)

unfoldable pub do_ring_push : FlexFifo → ℕ → FlexFifo
do_ring_push ff node = record ff {
  ring = update ff.ring (bit_and ff.write ff.mask) node;
  places = update ff.places node (Place.in_ring (bit_and ff.write ff.mask + 1));
  write = u32 (ff.write + 1);
}

unfoldable pub is_empty : List ℕ → Bool
is_empty [] = true
is_empty (n ∷ ns) = false

-- `false` is -1.
unfoldable pub ring_push : FlexFifo → ℕ → Bool × FlexFifo
ring_push ff node =
    if not (is_empty ff.list) || ring_free_size ff == 0
    then (false, ff)
    else (true, do_ring_push ff node)

unfoldable pub ring_pop : FlexFifo → Option ℕ × FlexFifo
ring_pop ff =
    let node = ff.ring (bit_and ff.read ff.mask) in
    if ff.read == ff.write then (none, ff) else (
      some node,
      record ff { read = u32 (ff.read + 1); places = update ff.places node Place.nowhere },
    )

unfoldable pub ring_peek : FlexFifo → Option ℕ
ring_peek ff = if ff.read == ff.write then none else some (ff.ring (bit_and ff.read ff.mask))

-- The loop of _ff_ring_remove. A pop of an empty ring cannot be met in it.
unfoldable pub ring_rotate : ℕ → ℕ → FlexFifo → FlexFifo
ring_rotate zero node ff = ff
ring_rotate (suc n) node ff =
    let (got, popped) = ring_pop ff in
    elim got [
      | none ↦ popped
      | some curr ↦ ring_rotate n node (if curr == node then popped else do_ring_push popped curr)
    ]

unfoldable pub ring_remove : FlexFifo → ℕ → Bool × FlexFifo
ring_remove ff node =
    if node_in_ring ff node then (true, ring_rotate (ring_count ff) node ff) else (false, ff)

unfoldable pub list_push : FlexFifo → ℕ → FlexFifo
list_push ff node = record ff {
  list = ff.list ++ (node ∷ []);
  places = update ff.places node Place.in_list;
  list_size = u32 (ff.list_size + 1);
}

-- TAILQ_REMOVE
unfoldable pub erase : ℕ → List ℕ → List ℕ
erase node [] = []
erase node (n ∷ ns) = let rest = erase node ns in if n == node then ns else n ∷ rest

unfoldable pub do_list_remove : FlexFifo → ℕ → FlexFifo
do_list_remove ff node = record ff {
  list = erase node ff.list;
  places = update ff.places node Place.nowhere;
  list_size = sub32 ff.list_size 1;
}

unfoldable pub head : List ℕ → Option ℕ
head [] = none
head (n ∷ ns) = some n

unfoldable pub list_pop : FlexFifo → Option ℕ × FlexFifo
list_pop ff = elim (head ff.list) [
  | none ↦ (none, ff)
  | some node ↦ (some node, do_list_remove ff node)
]

unfoldable pub list_remove : FlexFifo → ℕ → Bool × FlexFifo
list_remove ff node = if node_in_list ff node then (true, do_list_remove ff node) else (false, ff)

unfoldable pub push : FlexFifo → ℕ → FlexFifo
push ff node = let (ok, ff') = ring_push ff node in if ok then ff' else list_push ff node

unfoldable pub push_if_not_exist : FlexFifo → ℕ → FlexFifo
push_if_not_exist ff node = if node_in_fifo ff node then ff else push ff node

unfoldable pub pop : FlexFifo → Option ℕ × FlexFifo
pop ff =
    let (got, ff') = ring_pop ff in elim got [ none ↦ list_pop ff | some node ↦ (some node, ff') ]

unfoldable pub peek : FlexFifo → Option ℕ
peek ff = elim (ring_peek ff) [ none ↦ head ff.list | some node ↦ some node ]

unfoldable pub remove : FlexFifo → ℕ → Bool × FlexFifo
remove ff node =
    let (ok, ff') = ring_remove ff node in if ok then (true, ff') else list_remove ff node

unfoldable pub count : FlexFifo → ℕ
count ff = u32 (ring_count ff + ff.list_size)

-- `ring` and `places` are what rte_malloc and the callers give; `none` is NULL.
unfoldable pub create : Bool → (ℕ → ℕ) → ℕ → Option FlexFifo
create mem ring size =
    if not (bit_and size (sub32 size 1) == 0) || ltb 65536 size
    then none
    else if mem
    then some (record {
      list_size = 0;
      list = [];
      write = 0;
      read = 0;
      mask = sub32 size 1;
      size = size;
      ring = ring;
      places = λ n. Place.nowhere;
    })
    else none
