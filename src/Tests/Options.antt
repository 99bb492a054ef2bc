-- ===== src/Tests/Options.antt =====
-- The options of the socket of Tests.Stream.
use libtpa.Base.{ℕ, ◌≡◌, ◌≤◌, ◌%◌, true, false, none, arith, length}
use libtpa.Tcp.Options.{
  no_opts, parse_loop, parse_tcp_opts, OptBits, enabled_opts, calc_tcp_opt_len, fill_opts,
}
use libtpa.Tcp.Options.Parse.{parse_loop-enough}
use libtpa.Tcp.Options.Echo.{fed, Small}
use libtpa.Tcp.Options.Whole.{said, parse_tcp_opts-fill_opts, fill_opts-length}
use libtpa.Tests.Stream.{sock, cfg, worker}

abbrev bits : OptBits
bits = record { ts = true; mss = true; wscale = false; sack_perm = true; sack = false }

abbrev zeros : ℕ → ℕ
zeros i = 0

no_blocks : Small sock.sack_blocks
unfolding Small
no_blocks = tt

parse_tcp_opts-fill_opts_example :
    parse_tcp_opts (fed (fill_opts cfg worker sock bits) zeros) (calc_tcp_opt_len sock bits)
    ≡ (none, said cfg worker sock bits)
parse_tcp_opts-fill_opts_example =
    parse_tcp_opts-fill_opts cfg worker sock bits zeros no_blocks (omega arith)

fill_opts-length_example :
    (length (fill_opts cfg worker sock bits) ≡ calc_tcp_opt_len sock bits)
    × (calc_tcp_opt_len sock (enabled_opts sock true) ≤ 40)
    × (calc_tcp_opt_len sock (enabled_opts sock true) % 4 ≡ 0)
fill_opts-length_example = fill_opts-length cfg worker sock bits true (omega arith)

parse_loop-enough_example :
    parse_loop 9 zeros 4 (none, no_opts) ≡ parse_loop 4 zeros 4 (none, no_opts)
parse_loop-enough_example =
    parse_loop-enough 9 4 zeros 4 (none, no_opts) (omega arith) (omega arith)
