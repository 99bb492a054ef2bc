-- ===== src/Tests/Ports.antt =====
-- The table of sockets and the local ports at small inputs.
use libtpa.Base.{
  ℕ, ◌≡◌, ◌<◌, refl, Bool, true, false, none, some, [], arith, if◌then◌else◌, not, ◌&&◌, is_some,
}
use libtpa.SockTable
use libtpa.SockTable.{SockKey, Lists, key_equal}
use libtpa.SockTable.Refine
use libtpa.SockTable.Refine.{IsValid, init-IsValid}
use libtpa.Ports.{Os, Sys, port_alloc}
use libtpa.Ports.Alloc.{HasRange, InRange, AllocatedAny, port_alloc-AllocatedAny}
use libtpa.Ports.Find.{Grants, port_alloc-finds}
use libtpa.Ports.Block.{do_port_block_alloc}
use libtpa.Ports.Block.Rollback.{BlockResult, do_port_block_alloc-BlockResult}
use libtpa.Ports.Bind.{Bindings, port_bind}
use libtpa.Ports.Bind.Tries.{BindResult}
use libtpa.Ports.Bind.Result
use libtpa.Ports.Bind.Result.{port_bind-BindResult}

-- Not the CRC, but a function of both words.
abbrev mix : ℕ → ℕ → ℕ
mix a b = a

abbrev key : SockKey
key = record {
  local_ip = record { high = 0; low = 1 };
  remote_ip = record { high = 0; low = 2 };
  local_port = 0;
  remote_port = 80;
}

abbrev no_socks : Lists ℕ
no_socks = SockTable.init

del-lookup_example :
    let r = SockTable.del mix (SockTable.add mix true no_socks key 7).1 key in
    (r.0 ≡ is_some (SockTable.lookup mix (SockTable.add mix true no_socks key 7).1 key))
    × ((j : SockKey)
        → SockTable.lookup mix r.1 j ≡ (
            if key_equal key j
            then none
            else SockTable.lookup mix (SockTable.add mix true no_socks key 7).1 j))
del-lookup_example =
    Refine.del-lookup mix (SockTable.add mix true no_socks key 7).1 key
      (Refine.add-IsValid mix true no_socks key 7 (init-IsValid ℕ))

add-lookup_example :
    let r = SockTable.add mix true no_socks key 7 in
    (r.0 ≡ (true && not (is_some (SockTable.lookup mix no_socks key))))
    × ((j : SockKey)
        → SockTable.lookup mix r.1 j
          ≡ (if r.0 && key_equal key j then some 7 else SockTable.lookup mix no_socks j))
add-lookup_example = Refine.add-lookup mix true no_socks key 7

del-add_example :
    ((SockTable.add mix true no_socks key 7).0 ≡ true)
    × (SockTable.del mix (SockTable.add mix true no_socks key 7).1 key ≡ (true, no_socks))
unfolding SockTable.lookup SockTable.find SockTable.init
del-add_example = Refine.del-add mix no_socks key 7 refl

-- A kernel that grants everything, a clock that stands still; the state says whether errno is EBUSY.
abbrev kind_os : Os Bool
kind_os = record {
  socket = λ w. (some 5, w);
  bind = λ fd port w. (true, w);
  close = λ fd w. w;
  malloc = λ w. (some 1000, w);
  free = λ addr w. w;
  rdtsc = λ w. (123456, w);
  offload_create = λ b w. (true, w);
  offload_destroy = λ b w. w;
  is_ebusy = λ w. w;
  set_ebusy = λ e w. e;
}

abbrev sys : Sys Bool
sys = record {
  pac = record {
    min = 41000;
    max = 64000;
    nr_port_allocated = 0;
    nr_port_allocated_total = 0;
    nr_socket_failure = 0;
    nr_bind_failure = 0;
    nr_port_block = 0;
    port_map = λ p. none;
  };
  os = false;
}

sys-HasRange : HasRange sys
sys-HasRange = record { positive = omega arith; not_empty = omega arith; end_lt = omega arith }

kind-Grants : Grants kind_os 50000
kind-Grants = record { socket = λ w. (5, w, refl); bind = λ fd w. (w, refl) }

port_alloc-AllocatedAny_example : AllocatedAny sys (port_alloc kind_os 0 sys)
port_alloc-AllocatedAny_example = port_alloc-AllocatedAny kind_os sys sys-HasRange

in_range : InRange sys 50000
unfolding InRange
in_range = (omega arith, omega arith)

port_alloc-finds_example : 0 < (port_alloc kind_os 0 sys).0
port_alloc-finds_example = port_alloc-finds kind_os 50000 kind-Grants sys sys-HasRange in_range refl

do_port_block_alloc-BlockResult_example :
    BlockResult kind_os 41024 64 sys (do_port_block_alloc kind_os 41024 64 sys)
do_port_block_alloc-BlockResult_example =
    do_port_block_alloc-BlockResult kind_os 41024 64 sys sys-HasRange (omega arith) (omega arith)

abbrev worker : Bindings Bool ℕ
worker = record { sys = sys; port_blocks = []; socks = no_socks }

worker-IsValid : Result.IsValid kind_os mix worker
worker-IsValid = record {
  placed = λ i b e. absurd (ground (arith, e));
  positive = omega arith;
  not_empty = omega arith;
  end_le = omega arith;
}

port_bind-BindResult_example :
    BindResult kind_os mix key 7 worker (port_bind kind_os mix key 7 worker)
port_bind-BindResult_example = port_bind-BindResult kind_os mix key 7 worker worker-IsValid
