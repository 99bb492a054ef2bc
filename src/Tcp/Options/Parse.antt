-- ===== src/Tcp/Options/Parse.antt =====
-- The parser of options: that it ends, and what one round does.
use libtpa.Base.{ℕ, zero, suc, ◌-◌, ◌≤◌, ◌≡◌, refl, ltb, ◌==◌, arith, Bool-cases, inl, inr}
use libtpa.Tcp.Options.{Parsed, skip, switch_opt, parse_loop}

-- The loop ends within as many rounds as there are bytes left, since each one takes a byte at least:
-- more fuel than that changes nothing, whatever the bytes are.
pub parse_loop-enough :
    (n m : ℕ) (p : ℕ → ℕ) (left : ℕ) (r : Parsed)
    → left ≤ n
    → left ≤ m
    → parse_loop n p left r ≡ parse_loop m p left r
unfolding parse_loop
parse_loop-enough zero zero p left r h k = refl
parse_loop-enough zero (suc m) p left r h k = ground arith
parse_loop-enough (suc n) zero p left r h k = ground arith
parse_loop-enough (suc n) (suc m) p left r h k = elim (Bool-cases (left == 0)) [
  | inl e ↦ ground (arith, e)
  | inr e ↦ elim (Bool-cases (ltb (p 1) 2)) [
    | inl f ↦ ground (
      arith,
      e,
      f,
      parse_loop-enough n m (skip 1 p) (left - 1) r (ground (arith, e)) (ground (arith, e)),
    )
    | inr f ↦ ground (
      arith,
      e,
      f,
      parse_loop-enough n m (skip 1 p) (left - 1) r (ground (arith, e)) (ground (arith, e)),
      parse_loop-enough n m (skip (p 1) p) (left - p 1) (switch_opt (p 0) (p 1) (skip 2 p) r).1
          (ground (arith, e, f)) (ground (arith, e, f)),
    )
  ]
]
