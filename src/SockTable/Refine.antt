-- ===== src/SockTable/Refine.antt =====
-- The table of sockets as a map from keys to sockets.
use libtpa.Base.{
  is_some, ℕ, ◌≡◌, refl, ap, ap₂, ◌∙◌, subst, Bool, true, false, not, ◌&&◌, some, none, List, [],
  ◌∷◌, ◌++◌, if◌then◌else◌, ◌==◌, arith, Bool-cases, Option-cases, inl, inr, ==_refl, ==_iff,
}
use libtpa.Ring.{update}
use libtpa.SockTable.{
  Ip, SockKey, SockEntry, Lists, ip_equal, key_equal, hash_idx, find, remove, lookup, add, del,
  init,
}

same_ip : (a b : Ip) → a.high ≡ b.high → a.low ≡ b.low → a ≡ b
same_ip a b e f = ap₂ (λ h l. record { high = h; low = l }) e f

pub key_equal_same : (a b : SockKey) → key_equal a b ≡ true → a ≡ b
unfolding key_equal ip_equal
key_equal_same a b h = cc (
  same_ip a.local_ip b.local_ip (ground arith) (ground arith),
  same_ip a.remote_ip b.remote_ip (ground arith) (ground arith),
  (let e : a.local_port ≡ b.local_port = ground arith in e),
  (let e : a.remote_port ≡ b.remote_port = ground arith in e),
)

key_equal_refl : (a : SockKey) → key_equal a a ≡ true
unfolding key_equal ip_equal
key_equal_refl a = ground arith

key_equal_sym : (a b : SockKey) → key_equal a b ≡ key_equal b a
unfolding key_equal ip_equal
key_equal_sym a b = ground arith

equal_left : (a b j : SockKey) → key_equal a b ≡ true → key_equal a j ≡ key_equal b j
equal_left a b j h = ap (λ x. key_equal x j) (key_equal_same a b h)

equal_right : (e k j : SockKey) → key_equal k j ≡ true → key_equal e k ≡ key_equal e j
equal_right e k j h = ap (key_equal e) (key_equal_same k j h)

module _ {A : Type 0} where
  -- The keys of a list differ.
  pub Distinct : List (SockEntry A) → Type 0
  Distinct [] = Unit
  Distinct (e ∷ es) = (find es e.key ≡ none) × Distinct es

  abbrev entry : SockKey → A → SockEntry A
  entry k v = record { key = k; tsock = v }

  find-append :
      (es : List (SockEntry A)) (k j : SockKey) (v : A)
      → find (es ++ (entry k v ∷ [])) j
        ≡ elim (find es j) [ some w ↦ some w | none ↦ if key_equal k j then some v else none ]
  unfolding find
  find-append [] k j v = refl
  find-append (e ∷ es) k j v = ground (arith, find-append es k j v)

  remove-append :
      (es : List (SockEntry A)) (k : SockKey) (v : A)
      → find es k ≡ none
      → remove (es ++ (entry k v ∷ [])) k ≡ some es
  unfolding find remove
  remove-append [] k v h = ground (arith, key_equal_refl k)
  remove-append (e ∷ es) k v h = ground (arith, remove-append es k v)

  remove-find :
      (es : List (SockEntry A)) (k : SockKey) → is_some (remove es k) ≡ is_some (find es k)
  unfolding find remove
  remove-find [] k = refl
  remove-find (e ∷ es) k = ground (arith, remove-find es k)

  find-equal :
      (es : List (SockEntry A)) (a b : SockKey) → key_equal a b ≡ true → find es a ≡ find es b
  find-equal es a b h = ap (find es) (key_equal_same a b h)

  find-remove :
      (es r : List (SockEntry A)) (k j : SockKey)
      → Distinct es
      → remove es k ≡ some r
      → find r j ≡ (if key_equal k j then none else find es j)
  unfolding find remove Distinct
  find-remove [] r k j d h = ground arith
  find-remove (e ∷ es) r k j d h = elim (Option-cases (remove es k)) [
    | inl none_left ↦ ground (arith, find-equal es e.key k, find-equal es k j, equal_left e.key k j)
    | inr (rest, left) ↦ ground (
      arith,
      find-equal es e.key k,
      find-equal es k j,
      equal_left e.key k j,
      equal_right e.key k j,
      find-remove es rest k j d.1 left,
    )
  ]

  remove-Distinct :
      (es r : List (SockEntry A)) (k : SockKey) → Distinct es → remove es k ≡ some r → Distinct r
  unfolding remove Distinct
  remove-Distinct [] r k d h = ground arith
  remove-Distinct (e ∷ es) r k d h = elim (Option-cases (remove es k)) [
    | inl none_left ↦ elim (Bool-cases (key_equal e.key k)) [
      | inl t ↦ subst Distinct (let q : es ≡ r = ground arith in q) d.1
      | inr f ↦ absurd (ground arith)
    ]
    | inr (rest, left) ↦ elim (Bool-cases (key_equal e.key k)) [
      | inl t ↦ subst Distinct (let q : es ≡ r = ground arith in q) d.1
      | inr f ↦
          subst Distinct (let q : e ∷ rest ≡ r = ground arith in q) (
            ground (arith, find-remove es rest k e.key d.1 left),
            remove-Distinct es rest k d.1 left,
          )
    ]
  ]

  append-Distinct :
      (es : List (SockEntry A)) (k : SockKey) (v : A)
      → Distinct es
      → find es k ≡ none
      → Distinct (es ++ (entry k v ∷ []))
  unfolding find Distinct
  append-Distinct [] k v d h = (refl, tt)
  append-Distinct (e ∷ es) k v d h = (
    ground (arith, find-append es k e.key v, key_equal_sym k e.key),
    append-Distinct es k v d.1 (ground arith),
  )

hash_equal :
    (crc : ℕ → ℕ → ℕ) (a b : SockKey) → key_equal a b ≡ true → hash_idx crc a ≡ hash_idx crc b
hash_equal crc a b h = ap (hash_idx crc) (key_equal_same a b h)

-- No list has a key twice.
abbrev pub IsValid : {A : Type 0} → Lists A → Type 0
IsValid t = (i : ℕ) → Distinct (t i)

pub init-IsValid : (A : Type 0) → IsValid (init {A = A})
unfolding init Distinct
init-IsValid A i = tt

same_bucket :
    {A : Type 0} (t : Lists A) (a b : ℕ) (j : SockKey)
    → (a == b) ≡ true
    → find (t a) j ≡ find (t b) j
same_bucket t a b j h = ap (λ i. find (t i) j) ((==_iff a b).0 h)

module _ {A : Type 0} where
  update-IsValid :
      (t : Lists A) (i : ℕ) (es : List (SockEntry A))
      → IsValid t
      → Distinct es
      → IsValid (update t i es)
  update-IsValid t i es valid d j = elim (Bool-cases (i == j)) [
    | inl e ↦ rw e d
    | inr e ↦ rw e (valid j)
  ]

  update_back : (t : Lists A) (i : ℕ) (es : List (SockEntry A)) → update (update t i es) i (t i) ≡ t
  update_back t i es = λ p j. restored j p
    where
      same_list : (j : ℕ) → (i == j) ≡ true → t i ≡ t j
      same_list j h = ap t ((==_iff i j).0 h)

      restored : (j : ℕ) → update (update t i es) i (t i) j ≡ t j
      restored j = ground (arith, same_list j)

module _ {A : Type 0} (crc : ℕ → ℕ → ℕ) where
  -- An add succeeds exactly when the key is absent and there is memory; then the key has the socket.
  -- Every other key keeps its socket.
  pub add-lookup :
      (mem : Bool) (t : Lists A) (k : SockKey) (v : A)
      → let r = add crc mem t k v in
        (r.0 ≡ (mem && not (is_some (lookup crc t k))))
        × ((j : SockKey)
            → lookup crc r.1 j ≡ (if r.0 && key_equal k j then some v else lookup crc t j))
  unfolding add lookup
  add-lookup mem t k v = (
    ground arith,
    λ j. ground (
      arith,
      find-append (t (hash_idx crc k)) k j v,
      find-equal (t (hash_idx crc k)) k j,
      hash_equal crc k j,
      same_bucket t (hash_idx crc k) (hash_idx crc j) j,
    ),
  )

  pub add_failed :
      (mem : Bool) (t : Lists A) (k : SockKey) (v : A)
      → (add crc mem t k v).0 ≡ false
      → (add crc mem t k v).1 ≡ t
  unfolding add
  add_failed mem t k v h = elim (Option-cases (lookup crc t k)) [
    | inl e ↦ elim (Bool-cases mem) [
      | inl m ↦ absurd (ground (arith, e, m, h))
      | inr m ↦ rw (e, m, add) refl
    ]
    | inr (w, e) ↦ rw (e, add) refl
  ]

  -- In a table where no list has a key twice, a delete succeeds exactly when the key is present; then
  -- the key has no socket. Every other key keeps its socket.
  pub del-lookup :
      (t : Lists A) (k : SockKey)
      → IsValid t
      → let r = del crc t k in
        (r.0 ≡ is_some (lookup crc t k))
        × ((j : SockKey) → lookup crc r.1 j ≡ (if key_equal k j then none else lookup crc t j))
  unfolding del lookup
  del-lookup t k valid = (
    ground (arith, remove-find (t (hash_idx crc k)) k),
    λ j. elim (Option-cases (remove (t (hash_idx crc k)) k)) [
      | inl e ↦ ground (
        arith,
        remove-find (t (hash_idx crc k)) k,
        find-equal (t (hash_idx crc k)) k j,
        hash_equal crc k j,
        same_bucket t (hash_idx crc k) (hash_idx crc j) j,
      )
      | inr (es, e) ↦ ground (
        arith,
        find-remove (t (hash_idx crc k)) es k j (valid (hash_idx crc k)) e,
        hash_equal crc k j,
        same_bucket t (hash_idx crc k) (hash_idx crc j) j,
      )
    ],
  )

  added :
      (t : Lists A) (k : SockKey) (v : A)
      → lookup crc t k ≡ none
      → (add crc true t k v).1 ≡ update t (hash_idx crc k) (t (hash_idx crc k) ++ (entry k v ∷ []))
  unfolding add
  added t k v h = rw (h, add) refl

  deleted :
      (t : Lists A) (k : SockKey) (es : List (SockEntry A))
      → remove (t (hash_idx crc k)) k ≡ some es
      → del crc t k ≡ (true, update t (hash_idx crc k) es)
  unfolding del
  deleted t k es h = rw (h, del) refl

  -- If the key is absent and there is memory for an entry, an add and a delete of the key succeed and
  -- give back the table as it was, the order within each list included.
  pub del-add :
      (t : Lists A) (k : SockKey) (v : A)
      → lookup crc t k ≡ none
      → ((add crc true t k v).0 ≡ true) × (del crc (add crc true t k v).1 k ≡ (true, t))
  unfolding lookup add
  del-add t k v h =
      let i = hash_idx crc k in
      let bucket = t i ++ (entry k v ∷ []) in
      let found : remove (update t i bucket i) k ≡ some (t i) =
        rw (==_refl i) (remove-append (t i) k v h) in
      (
        rw (h, add) refl,
        rw (added t k v h) (
            deleted (update t i bucket) k (t i) found
            ∙ ap (λ x. (true, x)) (update_back t i bucket)),
      )

  -- An add keeps every list free of a key twice.
  pub add-IsValid :
      (mem : Bool) (t : Lists A) (k : SockKey) (v : A) → IsValid t → IsValid (add crc mem t k v).1
  unfolding add lookup
  add-IsValid mem t k v valid = elim (Option-cases (lookup crc t k)) [
    | inl e ↦ elim (Bool-cases mem) [
      | inl m ↦
          rw (e, m, add)
            (update-IsValid t (hash_idx crc k) (t (hash_idx crc k) ++ (entry k v ∷ [])) valid
              (append-Distinct (t (hash_idx crc k)) k v (valid (hash_idx crc k)) e))
      | inr m ↦ rw (e, m, add) valid
    ]
    | inr (w, e) ↦ rw (e, add) valid
  ]

  pub del-IsValid : (t : Lists A) (k : SockKey) → IsValid t → IsValid (del crc t k).1
  unfolding del
  del-IsValid t k valid = elim (Option-cases (remove (t (hash_idx crc k)) k)) [
    | inl e ↦ rw (e, del) valid
    | inr (es, e) ↦
        rw (e, del)
          (update-IsValid t (hash_idx crc k) es valid
            (remove-Distinct (t (hash_idx crc k)) es k (valid (hash_idx crc k)) e))
  ]
