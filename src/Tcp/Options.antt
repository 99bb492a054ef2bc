-- ===== src/Tcp/Options.antt =====
-- The TCP options of a segment: the parser (src/tcp/tcp_input.c: parse_tcp_opts) and the writer
-- (include/tcp.h: fill_opt_ts; src/tcp/tcp_output.c: calc_tcp_opt_len, fill_uncommon_opts, fill_opts,
-- calc_snd_mss). The parser reads memory, a function from the offset to the byte; the writer gives the
-- bytes that it writes, in order. What parse_tcp_opts stores in the packet is Tcp.Establish.with_opts.
pub mod Parse
pub mod Echo
pub mod Whole
use libtpa.Base.{
  ℕ, zero, suc, ◌+◌, ◌-◌, ◌*◌, ◌/◌, ◌%◌, Bool, true, false, ◌||◌, Option, some, none, List, [], ◌∷◌,
  ◌++◌, if◌then◌else◌, ltb, ◌==◌, length, min, u16, u32,
}
use libtpa.Tcp.Sack.{Block}
use libtpa.Tcp.Sock.{State, Tsock, Cfg, Worker}
use libtpa.Tcp.Establish.{Opts, is_syn_sent}

-- ERR_INVALID_TCP_OPT_LEN and ERR_INVALID_TCP_OPT_TYPE
pub data OptErr : Type 0 where
  invalid_len invalid_type : OptErr

-- The memory from the `n`-th byte on.
unfoldable pub skip : ℕ → (ℕ → ℕ) → ℕ → ℕ
skip zero p i = p i
skip (suc n) p i = skip n (λ j. p (suc j)) i

-- ntohs and ntohl of the bytes at the pointer.
unfoldable pub read_16 : (ℕ → ℕ) → ℕ
read_16 p = p 0 * 256 + p 1

unfoldable pub read_32 : (ℕ → ℕ) → ℕ
read_32 p = p 0 * 16777216 + p 1 * 65536 + p 2 * 256 + p 3

unfoldable pub read_blocks : ℕ → (ℕ → ℕ) → List Block
read_blocks zero p = []
read_blocks (suc n) p =
    record { start = read_32 p; end = read_32 (skip 4 p) } ∷ read_blocks n (skip 8 p)

-- After memset.
abbrev pub no_opts : Opts
no_opts = record {
  mss = 0;
  has_mss = false;
  has_wscale = false;
  wscale = 0;
  has_ts = false;
  ts_val = 0;
  ts_ecr = 0;
  has_sack_perm = false;
  sack_blocks = [];
}

-- `ret`, and the options so far.
abbrev pub Parsed : Type 0
Parsed = Option OptErr × Opts

-- The switch, for an option of kind `kind` and length `len` whose value starts at `v`. `true` is a
-- return from within. The limit TCP_WSCALE_MAX is 14; three blocks have 26 bytes.
unfoldable pub switch_opt : ℕ → ℕ → (ℕ → ℕ) → Parsed → Bool × Parsed
switch_opt kind len v (ret, o) =
    if kind == 2
    then (false, (ret, record o { mss = read_16 v; has_mss = true }))
    else if kind == 3
    then (false, (ret, record o { has_wscale = true; wscale = min (v 0) 14 }))
    else if kind == 8
    then (false, (ret, record o { has_ts = true; ts_val = read_32 v; ts_ecr = read_32 (skip 4 v) }))
    else if kind == 4
    then (false, (ret, record o { has_sack_perm = true }))
    else if kind == 5
    then if ltb 26 len
      then (true, (some OptErr.invalid_len, o))
      else if (len - 2) % 8 == 0
      then (false, (ret, record o { sack_blocks = read_blocks ((len - 2) / 8) v }))
      else (true, (some OptErr.invalid_len, o))
    else (false, (some OptErr.invalid_type, o))

-- The loop at `p + off`, with `left` bytes up to `len`. Fuel is the number of bytes, since each round
-- moves on by one or more.
unfoldable pub parse_loop : ℕ → (ℕ → ℕ) → ℕ → Parsed → Parsed
parse_loop zero p left r = r
parse_loop (suc n) p left r =
    let (stop, r') = switch_opt (p 0) (p 1) (skip 2 p) r in
    let after_nop = parse_loop n (skip 1 p) (left - 1) r in
    let after_opt = parse_loop n (skip (p 1) p) (left - p 1) r' in
    if left == 0
    then r
    else if p 0 == 0
    then (none, r.1)
    else if p 0 == 1
    then after_nop
    else if ltb (p 1) 2 || ltb left (p 1)
    then (some OptErr.invalid_len, r.1)
    else if stop
    then r'
    else after_opt

unfoldable pub parse_tcp_opts : (ℕ → ℕ) → ℕ → Parsed
parse_tcp_opts p len = parse_loop len p len (none, no_opts)

-- The bits of `opts`; the number of SACK blocks is that of the list.
pub record OptBits : Type 0 where
  pub ts : Bool
  pub mss : Bool
  pub wscale : Bool
  pub sack_perm : Bool
  pub sack : Bool

-- `list` is not empty.
unfoldable pub has_block : List Block → Bool
has_block [] = false
has_block (b ∷ bs) = true

unfoldable pub enabled_opts : Tsock → Bool → OptBits
enabled_opts s syn = record {
  ts = if is_syn_sent s.state then s.ts_enabled else s.ts_ok;
  mss = syn;
  wscale = if syn then s.ws_enabled else false;
  sack_perm = if syn then (if is_syn_sent s.state then s.sack_enabled else s.sack_ok) else false;
  sack = if syn then false else has_block s.sack_blocks;
}

unfoldable pub calc_tcp_opt_len : Tsock → OptBits → ℕ
calc_tcp_opt_len s bits =
    (if bits.ts then 12 else 0)
    + ((if bits.mss then 4 else 0)
        + ((if bits.wscale then 4 else 0)
            + ((if bits.sack_perm then 4 else 0)
                + (if bits.sack then 4 + 8 * length s.sack_blocks else 0))))

-- htons and htonl.
unfoldable pub bytes_16 : ℕ → List ℕ
bytes_16 v = v / 256 % 256 ∷ v % 256 ∷ []

unfoldable pub bytes_32 : ℕ → List ℕ
bytes_32 v = v / 16777216 % 256 ∷ v / 65536 % 256 ∷ v / 256 % 256 ∷ v % 256 ∷ []

unfoldable pub fill_opt_ts : ℕ → ℕ → List ℕ
fill_opt_ts val ecr = 1 ∷ 1 ∷ 8 ∷ 10 ∷ (bytes_32 val ++ bytes_32 ecr)

-- calc_snd_mss of a socket that has not heard of the other side.
unfoldable pub own_mss : Cfg → Tsock → Bool → ℕ
own_mss cfg s has_ts = u16 (
    if cfg.usr_snd_mss == 0
    then (if s.is_ipv6 then 1440 else 1460)
    else cfg.usr_snd_mss + (if has_ts then 12 else 0))

unfoldable pub fill_blocks : List Block → List ℕ
fill_blocks [] = []
fill_blocks (b ∷ bs) = bytes_32 b.start ++ (bytes_32 b.end ++ fill_blocks bs)

-- TCP_WSCALE_DEFAULT is 10.
unfoldable pub fill_uncommon_opts : Cfg → Tsock → OptBits → List ℕ
fill_uncommon_opts cfg s bits =
    (if bits.mss then 2 ∷ 4 ∷ bytes_16 (own_mss cfg s bits.ts) else [])
    ++ ((if bits.wscale then 3 ∷ 3 ∷ 10 ∷ 1 ∷ [] else [])
        ++ ((if bits.sack_perm then 4 ∷ 2 ∷ 1 ∷ 1 ∷ [] else [])
            ++ (if bits.sack
                then 1 ∷ 1 ∷ 5 ∷ (2 + 8 * length s.sack_blocks) ∷ fill_blocks s.sack_blocks
                else [])))

-- us_to_tcp_ts divides by 1024.
unfoldable pub fill_opts : Cfg → Worker → Tsock → OptBits → List ℕ
fill_opts cfg w s bits =
    (if bits.ts then fill_opt_ts (u32 (w.ts_us / 1024)) 0 else []) ++ fill_uncommon_opts cfg s bits
