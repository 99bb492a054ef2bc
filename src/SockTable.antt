-- ===== src/SockTable.antt =====
-- The table of sockets (include/sock_table.h): lists of entries under the hash of their key, with the
-- comparison of addresses of include/ip.h. `crc` is rte_crc32_u64. A lookup's NULL is `none`, the result 0
-- of an add or a delete is `true` and -1 is `false`. The versions under the lock run the same function
-- between taking and giving back the lock.
pub mod Refine
use libtpa.Base.{
  ℕ, ◌<◌, ◌-◌, Bool, true, false, ◌&&◌, Option, some, none, List, [], ◌∷◌, ◌++◌, if◌then◌else◌,
  ◌==◌, bit_and, bit_or,
}
use libtpa.Ring.{update}

-- struct tpa_ip, as its two words of 64 bits.
pub record Ip : Type 0 where
  pub high : ℕ
  pub low : ℕ

pub record SockKey : Type 0 where
  pub local_ip : Ip
  pub remote_ip : Ip
  pub local_port : ℕ  -- uint16_t
  pub remote_port : ℕ  -- uint16_t

pub record SockEntry (A : Type 0) : Type 0 where
  pub key : SockKey
  pub tsock : A

-- struct sock_table
abbrev pub Lists : Type 0 → Type 0
Lists A = ℕ → List (SockEntry A)

unfoldable pub ip_equal : Ip → Ip → Bool
ip_equal a b = a.high == b.high && a.low == b.low

-- The union `port` holds the two ports.
unfoldable pub key_equal : SockKey → SockKey → Bool
key_equal a b =
    ip_equal a.local_ip b.local_ip
    && ip_equal a.remote_ip b.remote_ip
    && (a.local_port == b.local_port && a.remote_port == b.remote_port)

module _ (crc : ℕ → ℕ → ℕ) where
  unfoldable pub hash_idx : SockKey → ℕ
  hash_idx k =
      bit_and (crc (bit_or k.remote_ip.high k.local_port) (bit_or k.remote_ip.low k.remote_port))
        4095

module _ {A : Type 0} where
  unfoldable pub find : List (SockEntry A) → SockKey → Option A
  find [] k = none
  find (e ∷ es) k = let rest = find es k in if key_equal e.key k then some e.tsock else rest

  -- TAILQ_REMOVE of the first entry with the key; `none` when there is none.
  unfoldable pub remove : List (SockEntry A) → SockKey → Option (List (SockEntry A))
  remove [] k = none
  remove (e ∷ es) k =
      let rest = remove es k in
      if key_equal e.key k then some es else elim rest [ none ↦ none | some r ↦ some (e ∷ r) ]

  module _ (crc : ℕ → ℕ → ℕ) where
    unfoldable pub lookup : Lists A → SockKey → Option A
    lookup t k = find (t (hash_idx crc k)) k

    -- `mem` says whether malloc gives an entry.
    unfoldable pub add : Bool → Lists A → SockKey → A → Bool × Lists A
    add mem t k v = elim (lookup t k) [
      | some w ↦ (false, t)
      | none ↦
          (if mem
            then (
              true,
              update t (hash_idx crc k)
                  (t (hash_idx crc k) ++ (record { key = k; tsock = v } ∷ [])),
            )
            else (false, t))
    ]

    unfoldable pub del : Lists A → SockKey → Bool × Lists A
    del t k = elim (remove (t (hash_idx crc k)) k) [
      | none ↦ (false, t)
      | some es ↦ (true, update t (hash_idx crc k) es)
    ]

  -- sock_table_init
  unfoldable pub init : Lists A
  init i = []
