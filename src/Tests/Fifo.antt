-- ===== src/Tests/Fifo.antt =====
-- A fifo with a ring of two slots, and three nodes pushed onto it.
use libtpa.Base.{◌≡◌, refl, [], ◌∷◌, ◌++◌, arith, inl, if◌then◌else◌, u32, length}
use libtpa.FlexFifo.{Place, FlexFifo, push_if_not_exist, pop, count}
use libtpa.FlexFifo.Refine.{mem, contents, Distinct, IsValid}
use libtpa.FlexFifo.Push.{push_if_not_exist-appends}
use libtpa.FlexFifo.Take.{Popped, pop-Popped, Emptied, pop_all, pop_all-contents}

-- The indices are about to wrap.
abbrev empty : FlexFifo
empty = record {
  list_size = 0;
  list = [];
  write = 4294967295;
  read = 4294967295;
  mask = 1;
  size = 2;
  ring = λ i. 0;
  places = λ n. Place.nowhere;
}

empty-IsValid : IsValid empty
unfolding mem Distinct
empty-IsValid = record {
  order = 1;
  order_le = omega arith;
  size_pow = refl;
  size_le = omega arith;
  mask_eq = refl;
  write_lt = omega arith;
  read_lt = omega arith;
  count_le = omega arith;
  list_count = refl;
  ringed = λ j l. absurd (omega arith);
  listed = λ n m. absurd (ground (arith, m));
  placed = λ n. inl refl;
  distinct = tt;
}

abbrev three : FlexFifo
three = push_if_not_exist (push_if_not_exist (push_if_not_exist empty 5) 6) 7

two-IsValid : IsValid (push_if_not_exist (push_if_not_exist empty 5) 6)
two-IsValid =
    (push_if_not_exist-appends (push_if_not_exist empty 5) 6
      (push_if_not_exist-appends empty 5 empty-IsValid).1).1

three-IsValid : IsValid three
three-IsValid =
    (push_if_not_exist-appends (push_if_not_exist (push_if_not_exist empty 5) 6) 7 two-IsValid).1

push_if_not_exist-appends_example :
    (contents (push_if_not_exist three 6)
      ≡ (if mem 6 (contents three) then contents three else contents three ++ (6 ∷ [])))
    × IsValid (push_if_not_exist three 6)
push_if_not_exist-appends_example = push_if_not_exist-appends three 6 three-IsValid

pop-Popped_example : Popped three (pop three)
pop-Popped_example = pop-Popped three three-IsValid

pop_all-contents_example :
    Emptied (contents three) (pop_all (length (contents three)) three)
    × (count three ≡ u32 (length (contents three)))
pop_all-contents_example = pop_all-contents three three-IsValid
