-- ===== src/Server/Bloom.antt =====
-- src/server.rs: BloomFilter. The default hasher of the standard library is an argument, and so is the
-- size that `new` computes in floating point.
pub mod Members
use ebutv.Prelude.{
  ℕ, zero, suc, ◌+◌, ◌-◌, ◌*◌, ◌%◌, ◌≤◌, ◌<◌, ◌≡◌, refl, Bool, true, false, ◌&&◌, List, arith,
  length, Bool-cases, ==_refl, if◌then◌else◌, inl, inr,
}
use ebutv.Prelude.BitArray.{get_bit, put_bit}
use ebutv.Server.Store.{Bytes}

pub record BloomFilter : Type 0 where
  pub bits : List ℕ
  pub num_hashes : ℕ

module _ (default_hash : Bytes → ℕ → ℕ) where
  unfoldable pub hash : List ℕ → Bytes → ℕ → ℕ
  hash bits item seed = default_hash item seed % (length bits * 8)

  -- The loop of `insert` from seed `i` on: `fetch_or` of one bit is a write of that bit.
  unfoldable pub insert_loop : ℕ → ℕ → Bytes → List ℕ → List ℕ
  insert_loop zero i item bits = bits
  insert_loop (suc n) i item bits =
      insert_loop n (i + 1) item (put_bit bits (hash bits item i) true)

  unfoldable pub contains_loop : ℕ → ℕ → Bytes → List ℕ → Bool
  contains_loop zero i item bits = true
  contains_loop (suc n) i item bits =
      let rest = contains_loop n (i + 1) item bits in
      if get_bit bits (hash bits item i) then rest else false

  unfoldable pub insert : BloomFilter → Bytes → BloomFilter
  insert filter item = record {
    bits = insert_loop filter.num_hashes 0 item filter.bits;
    num_hashes = filter.num_hashes;
  }

  unfoldable pub contains : BloomFilter → Bytes → Bool
  contains filter item = contains_loop filter.num_hashes 0 item filter.bits
