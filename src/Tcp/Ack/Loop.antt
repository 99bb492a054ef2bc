-- ===== src/Tcp/Ack/Loop.antt =====
-- The loop of ack_sent_data (src/tcp/tcp_input.c) over the list of the descriptors.
use libtpa.Base.{
  ℕ, zero, suc, ◌+◌, ◌<◌, ◌≤◌, ◌≡◌, ◌⊎◌, refl, ap, ◌∙◌, Option, some, none, List, [], ◌∷◌,
  if◌then◌else◌, ltb, ◌==◌, arith, length, drop, get_elem?, u16, u32, Bool-cases, inl, inr,
}
use libtpa.TcpQueue.Txq.{Txq}
use libtpa.TcpQueue.Txq.Inv.{IsValid}
use libtpa.TcpQueue.Txq.Refine.{unacked, peeks_read}
use libtpa.Tcp.Sock.{Desc}
use libtpa.Tcp.Ack.{AckRun, ack_desc, ack_partial, ack_loop}

abbrev pub total : List Desc → ℕ
total [] = 0
total (d ∷ ds) = d.len + total ds

abbrev pub HaveData : List Desc → Type 0
HaveData [] = Unit {0}
HaveData (d ∷ ds) = (0 < d.len) × HaveData ds

-- The bytes acknowledged of the first descriptor are fewer than it has.
abbrev pub IsInside : ℕ → List Desc → Type 0
IsInside partial [] = partial ≡ 0
IsInside partial (d ∷ ds) = partial < d.len

-- The loop over the list of the descriptors from the current one on.
pub run_list : ℕ → List Desc → AckRun → Option AckRun
run_list now [] r = none
run_list now (d ∷ ds) r =
    let r' = ack_desc now d r in
    let rest = run_list now ds r' in
    if ltb (u32 (r.partial + r.left)) d.len
    then some (ack_partial r)
    else if r'.left == 0
    then some r'
    else rest

-- What the loop has done when it ends.
pub record Acked (ds : List Desc) (r : AckRun) (out : Option AckRun) : Type 0 where
  pub run : AckRun
  pub ends : out ≡ some run
  pub una : run.una ≡ u32 (r.una + r.left)
  pub count : ℕ
  pub nr : run.nr ≡ u16 (r.nr + count)
  pub count_le : count ≤ length ds
  pub bytes : total (drop count ds) + r.left + r.partial ≡ total ds + run.partial
  pub inside : IsInside run.partial (drop count ds)

data-IsInside : (ds : List Desc) → HaveData ds → IsInside 0 ds
data-IsInside [] h = refl
data-IsInside (d ∷ ds) h = h.0

pub run_list-Acked :
    (now : ℕ) (ds : List Desc) (r : AckRun)
    → HaveData ds
    → total ds < 2147483648
    → IsInside r.partial ds
    → 0 < r.left
    → r.left + r.partial ≤ total ds
    → r.una < 4294967296
    → r.nr < 65536
    → Acked ds r (run_list now ds r)
unfolding run_list ack_partial ack_desc
run_list-Acked now [] r hd t i l b u n = absurd (omega arith)
run_list-Acked now (d ∷ ds) r hd t i l b u n =
    elim (Bool-cases (ltb (u32 (r.partial + r.left)) d.len)) [
      | inl part ↦ rw part (record {
        run = ack_partial r;
        ends = refl;
        una = refl;
        count = 0;
        nr = omega arith;
        count_le = omega arith;
        bytes = omega arith;
        inside = ground (arith, part);
      })
      | inr whole ↦
          let r' = ack_desc now d r in
          let fits : d.len ≤ r.partial + r.left = ground (arith, whole) in
          elim (Bool-cases (r'.left == 0)) [
            | inl done ↦
                rw (whole, done)
                  (record {
                    run = r';
                    ends = refl;
                    una = ground (arith, done);
                    count = 1;
                    nr = refl;
                    count_le = omega arith;
                    bytes = ground (arith, done);
                    inside = data-IsInside ds hd.1;
                  })
            | inr more ↦
                let pos : 0 < r'.left = ground (arith, more) in
                let rest =
                  run_list-Acked now ds r' hd.1 (omega arith) (data-IsInside ds hd.1) pos
                    (omega arith) (omega arith) (omega arith) in
                rw (whole, more)
                  (record {
                    run = rest.run;
                    ends = rest.ends;
                    una = omega (arith, rest.una);
                    count = suc rest.count;
                    nr = omega (arith, rest.nr);
                    count_le = omega (arith, rest.count_le);
                    bytes = omega (arith, rest.bytes);
                    inside = rest.inside;
                  })
          ]
    ]

drop_next :
    {A : Type 0} (xs : List A) (i : ℕ)
    → ((get_elem? xs i ≡ none) × (drop i xs ≡ []))
      ⊎ ((x : A) × ((get_elem? xs i ≡ some x)
            × ((drop i xs ≡ x ∷ drop (suc i) xs) × (i < length xs))))
drop_next [] zero = inl (refl, refl)
drop_next [] (suc i) = inl (refl, refl)
drop_next (x ∷ xs) zero = inr (x, (refl, (refl, omega arith)))
drop_next (x ∷ xs) (suc i) = elim (drop_next xs i) [
  | inl none_there ↦ inl none_there
  | inr (y, (g, (e, l))) ↦ inr (y, (g, (e, omega arith)))
]

next_nr : (now : ℕ) (d : Desc) (r : AckRun) → r.nr < 65535 → (ack_desc now d r).nr ≡ suc r.nr
unfolding ack_desc
next_nr now d r h = omega arith

pub ack_loop-run_list :
    (q : Txq Desc) (v : IsValid q) (now n : ℕ) (r : AckRun)
    → length (unacked q) < r.nr + n
    → r.nr ≤ length (unacked q)
    → length (unacked q) < 65536
    → ack_loop n q now r ≡ run_list now (drop r.nr (unacked q)) r
unfolding ack_loop run_list
ack_loop-run_list q v now zero r f l b = absurd (omega arith)
ack_loop-run_list q v now (suc n) r f l b =
    let peek = (peeks_read q r.nr v).0 in
    elim (drop_next (unacked q) r.nr) [
      | inl (g, e) ↦ rw (peek ∙ g, e, ack_loop) refl
      | inr (d, (g, (e, inb))) ↦
          let r' = ack_desc now d r in
          let next : r'.nr ≡ suc r.nr = next_nr now d r (omega arith) in
          let ih = ack_loop-run_list q v now n r' (omega (arith, next)) (omega (arith, next)) b in
          rw (peek ∙ g, e, ack_loop)
            (ap
              (λ x.
                if ltb (u32 (r.partial + r.left)) d.len
                then some (ack_partial r)
                else if r'.left == 0
                then some r'
                else x)
              (ih ∙ ap (λ k. run_list now (drop k (unacked q)) r') next))
    ]
