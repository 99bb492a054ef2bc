-- ===== src/Tcp/Options/Whole.antt =====
-- All the options of a segment, written and read.
use libtpa.Base.{
  ℕ, zero, suc, ◌+◌, ◌*◌, ◌/◌, ◌%◌, ◌≤◌, ◌<◌, ◌≡◌, refl, ap, ap₂, ◌∙◌, Bool, true, false, none,
  List, [], ◌∷◌, ◌++◌, if◌then◌else◌, length, length-append, u32, arith,
}
use libtpa.Tcp.Sack.{Block}
use libtpa.Tcp.Sock.{Tsock, Cfg, Worker}
use libtpa.Tcp.Establish.{Opts}
use libtpa.Tcp.Options.{
  Parsed, parse_loop, parse_tcp_opts, OptBits, has_block, enabled_opts, calc_tcp_opt_len, bytes_16,
  bytes_32, fill_opt_ts, own_mss, fill_blocks, fill_uncommon_opts, fill_opts,
}
use libtpa.Tcp.Options.Parse.{parse_loop-enough}
use libtpa.Tcp.Options.Echo.{
  fed, fed-append, Small, length-fill_blocks, mss_read, wscale_read, sack_perm_read, ts_read,
  sack_read,
}

-- The parser with as much fuel as there are bytes.
full : (ℕ → ℕ) → ℕ → Parsed → Parsed
full p left r = parse_loop left p left r

-- A rest of the fuel that is enough.
settle :
    (n m : ℕ) (q p : ℕ → ℕ) (whole left : ℕ) (r o : Parsed)
    → whole ≡ m
    → parse_loop m q whole r ≡ parse_loop n p left o
    → left ≤ n
    → full q whole r ≡ full p left o
unfolding full
settle n m q p whole left r o e step h =
    ap (λ k. parse_loop k q whole r) e ∙ step ∙ parse_loop-enough n left p left o h (omega arith)

module _ (p : ℕ → ℕ) (left : ℕ) (r : Parsed) where
  ts_part :
      (b : Bool) (v : ℕ)
      → v < 4294967296
      → full (fed (if b then fill_opt_ts v 0 else []) p) ((if b then 12 else 0) + left) r
        ≡ full p left (
          r.0,
          record (r.1) {
            has_ts = if b then true else r.1.has_ts;
            ts_val = if b then v else r.1.ts_val;
            ts_ecr = if b then 0 else r.1.ts_ecr;
          },
        )
  unfolding fed
  ts_part false v h = ap (λ l. full p l r) (omega arith)
  ts_part true v h =
      settle (9 + left) (suc (suc (suc (9 + left)))) _ p (12 + left) left r _ (omega arith)
        (ts_read (9 + left) p left r v 0 h (omega arith)) (omega arith)

  mss_part :
      (b : Bool) (v : ℕ)
      → v < 65536
      → full (fed (if b then 2 ∷ 4 ∷ bytes_16 v else []) p) ((if b then 4 else 0) + left) r
        ≡ full p left (
          r.0,
          record (r.1) {
            mss = if b then v else r.1.mss;
            has_mss = if b then true else r.1.has_mss;
          },
        )
  unfolding fed
  mss_part false v h = ap (λ l. full p l r) (omega arith)
  mss_part true v h =
      settle (3 + left) (suc (3 + left)) _ p (4 + left) left r _ (omega arith)
        (mss_read (3 + left) p left r v h) (omega arith)

  wscale_part :
      (b : Bool)
      → full (fed (if b then 3 ∷ 3 ∷ 10 ∷ 1 ∷ [] else []) p) ((if b then 4 else 0) + left) r
        ≡ full p left (
          r.0,
          record (r.1) {
            has_wscale = if b then true else r.1.has_wscale;
            wscale = if b then 10 else r.1.wscale;
          },
        )
  unfolding fed
  wscale_part false = ap (λ l. full p l r) (omega arith)
  wscale_part true =
      settle (2 + left) (suc (suc (2 + left))) _ p (4 + left) left r _ (omega arith)
        (wscale_read (2 + left) p left r) (omega arith)

  sack_perm_part :
      (b : Bool)
      → full (fed (if b then 4 ∷ 2 ∷ 1 ∷ 1 ∷ [] else []) p) ((if b then 4 else 0) + left) r
        ≡ full p left (r.0, record (r.1) { has_sack_perm = if b then true else r.1.has_sack_perm })
  unfolding fed
  sack_perm_part false = ap (λ l. full p l r) (omega arith)
  sack_perm_part true =
      settle (1 + left) (suc (suc (suc (1 + left)))) _ p (4 + left) left r _ (omega arith)
        (sack_perm_read (1 + left) p left r) (omega arith)

  sack_part :
      (b : Bool) (bs : List Block)
      → Small bs
      → length bs ≤ 3
      → full
          (fed (if b then 1 ∷ 1 ∷ 5 ∷ (2 + 8 * length bs) ∷ fill_blocks bs else []) p)
          ((if b then 4 + 8 * length bs else 0) + left)
          r
        ≡ full p left (r.0, record (r.1) { sack_blocks = if b then bs else r.1.sack_blocks })
  unfolding fed
  sack_part false bs h k = ap (λ l. full p l r) (omega arith)
  sack_part true bs h k =
      settle (1 + 8 * length bs + left) (suc (suc (suc (1 + 8 * length bs + left)))) _ p
        (4 + 8 * length bs + left) left r _ (omega arith)
        (sack_read (1 + 8 * length bs + left) p left r bs h k) (omega arith)

sack_last :
    (p : ℕ → ℕ) (r : Parsed) (b : Bool) (bs : List Block)
    → Small bs
    → length bs ≤ 3
    → full
        (fed (if b then 1 ∷ 1 ∷ 5 ∷ (2 + 8 * length bs) ∷ fill_blocks bs else []) p)
        (if b then 4 + 8 * length bs else 0)
        r
      ≡ (r.0, record (r.1) { sack_blocks = if b then bs else r.1.sack_blocks })
unfolding full parse_loop
sack_last p r b bs h k =
    let size = if b then 4 + 8 * length bs else 0 in
    ap (λ l. full (fed (if b then 1 ∷ 1 ∷ 5 ∷ (2 + 8 * length bs) ∷ fill_blocks bs else []) p) l r)
      (let z : size ≡ size + 0 = omega arith in z)
    ∙ sack_part p 0 r b bs h k

-- What the writer says: the fields as the bits are set.
abbrev pub said : Cfg → Worker → Tsock → OptBits → Opts
said cfg w s bits = record {
  mss = if bits.mss then own_mss cfg s bits.ts else 0;
  has_mss = if bits.mss then true else false;
  has_wscale = bits.wscale;
  wscale = if bits.wscale then 10 else 0;
  has_ts = bits.ts;
  ts_val = if bits.ts then u32 (w.ts_us / 1024) else 0;
  ts_ecr = 0;
  has_sack_perm = bits.sack_perm;
  sack_blocks = if bits.sack then s.sack_blocks else [];
}

-- The bits are read as they are set.
same_bits :
    (o : Opts) (a b c d : Bool)
    → record o {
      has_wscale = if a then true else false;
      has_ts = if b then true else false;
      has_sack_perm = if c then true else false;
      ts_ecr = if d then 0 else 0;
    }
      ≡ record o { has_wscale = a; has_ts = b; has_sack_perm = c; ts_ecr = 0 }
same_bits o a b c d =
    ap₂
      (λ x y. record o {
        has_wscale = x;
        has_ts = y;
        has_sack_perm = if c then true else false;
        ts_ecr = if d then 0 else 0;
      })
      (same a) (same b)
    ∙ ap₂ (λ x y. record o { has_wscale = a; has_ts = b; has_sack_perm = x; ts_ecr = y }) (same c)
        (zero_both d)
  where
    same : (x : Bool) → (if x then true else false) ≡ x
    same true = refl
    same false = refl

    zero_both : (x : Bool) → (if x then zero else zero) ≡ zero
    zero_both true = refl
    zero_both false = refl

own_mss_lt : (cfg : Cfg) (s : Tsock) (b : Bool) → own_mss cfg s b < 65536
unfolding own_mss
own_mss_lt cfg s b = omega arith

-- With at most three SACK blocks of 32-bit edges: the parser, on what the writer writes for any choice
-- of options and whatever follows in memory, ends without an error, and reads the options that the
-- socket says, each with its value. The echo of the timestamp is always 0.
pub parse_tcp_opts-fill_opts :
    (cfg : Cfg) (w : Worker) (s : Tsock) (bits : OptBits) (after : ℕ → ℕ)
    → Small s.sack_blocks
    → length s.sack_blocks ≤ 3
    → parse_tcp_opts (fed (fill_opts cfg w s bits) after) (calc_tcp_opt_len s bits)
      ≡ (none, said cfg w s bits)
unfolding parse_tcp_opts fill_opts fill_uncommon_opts calc_tcp_opt_len full
parse_tcp_opts-fill_opts cfg w s bits after h k =
    let ts : List ℕ = if bits.ts then fill_opt_ts (u32 (w.ts_us / 1024)) 0 else [] in
    let mss : List ℕ = if bits.mss then 2 ∷ 4 ∷ bytes_16 (own_mss cfg s bits.ts) else [] in
    let ws : List ℕ = if bits.wscale then 3 ∷ 3 ∷ 10 ∷ 1 ∷ [] else [] in
    let perm : List ℕ = if bits.sack_perm then 4 ∷ 2 ∷ 1 ∷ 1 ∷ [] else [] in
    let sack : List ℕ =
      if bits.sack
      then 1 ∷ 1 ∷ 5 ∷ (2 + 8 * length s.sack_blocks) ∷ fill_blocks s.sack_blocks
      else [] in
    rw
      (
        fed-append ts (mss ++ (ws ++ (perm ++ sack))) after,
        fed-append mss (ws ++ (perm ++ sack)) after,
        fed-append ws (perm ++ sack) after,
        fed-append perm sack after,
      )
      (ts_part _ _ _ bits.ts (u32 (w.ts_us / 1024)) (omega arith)
        ∙ mss_part _ _ _ bits.mss (own_mss cfg s bits.ts) (own_mss_lt cfg s bits.ts)
        ∙ wscale_part _ _ _ bits.wscale
        ∙ sack_perm_part _ _ _ bits.sack_perm
        ∙ sack_last after _ bits.sack s.sack_blocks h k
        ∙ ap (λ o. (none, o))
            (same_bits (said cfg w s bits) bits.wscale bits.ts bits.sack_perm bits.ts))

one_length :
    (b : Bool) (xs ys : List ℕ) (k n : ℕ)
    → length xs ≡ k
    → length ys ≡ n
    → length ((if b then xs else []) ++ ys) ≡ (if b then k else 0) + n
one_length true xs ys k n e f = length-append xs ys ∙ ap₂ ◌+◌ e f
one_length false xs ys k n e f = f ∙ omega arith

last_length :
    (b : Bool) (xs : List ℕ) (k : ℕ)
    → length xs ≡ k
    → length (if b then xs else []) ≡ (if b then k else 0)
last_length true xs k e = e
last_length false xs k e = refl

-- The length that is computed for the header is the number of bytes that are written, for any choice of
-- options. For the options of a segment of a socket with at most three SACK blocks it fits the 40
-- bytes of a header, and the header ends on a word of 32 bits.
pub fill_opts-length :
    (cfg : Cfg) (w : Worker) (s : Tsock) (bits : OptBits) (syn : Bool)
    → length s.sack_blocks ≤ 3
    → (length (fill_opts cfg w s bits) ≡ calc_tcp_opt_len s bits)
      × (calc_tcp_opt_len s (enabled_opts s syn) ≤ 40)
      × (calc_tcp_opt_len s (enabled_opts s syn) % 4 ≡ 0)
unfolding fill_opts fill_uncommon_opts calc_tcp_opt_len enabled_opts fill_opt_ts bytes_16 bytes_32
    has_block
fill_opts-length cfg w s bits syn h = (
  one_length bits.ts _ _ 12 _ refl (
      one_length bits.mss _ _ 4 _ refl (
        one_length bits.wscale _ _ 4 _ refl (
          one_length bits.sack_perm _ _ 4 _ refl
            (last_length bits.sack _ _ (omega (arith, length-fill_blocks s.sack_blocks)))))),
  ground arith,
  ground arith,
)
