-- ===== src/Server/Bloom/Members.antt =====
-- src/server.rs: insert and contains of BloomFilter.
use ebutv.Prelude.{
  ℕ, zero, suc, ◌+◌, ◌*◌, ◌<◌, ◌≡◌, refl, ap, ◌∙◌, inl, inr, true, List, arith, length, All,
  if◌then◌else◌, Bool-cases, ==_refl,
}
use ebutv.Prelude.BitArray.{
  IsByte, get_bit, put_bit, length-put_bit, put_bit-IsByte, get_bit-put_bit,
}
use ebutv.Server.Store.{Bytes}
use ebutv.Server.Bloom.{BloomFilter, hash, insert_loop, contains_loop, insert, contains}

-- A filter as `new` makes it and `insert` leaves it: bytes, one at least.
pub record IsFilter (bits : List ℕ) : Type 0 where
  pub bytes : All IsByte bits
  pub nonempty : 0 < length bits

module _ (default_hash : Bytes → ℕ → ℕ) where
  put_bit-IsFilter : (bits : List ℕ) (i : ℕ) → IsFilter bits → IsFilter (put_bit bits i true)
  put_bit-IsFilter bits i f = record {
    bytes = put_bit-IsByte bits i true f.bytes;
    nonempty = omega (arith, f.nonempty, length-put_bit bits i true);
  }

  hash_lt :
      (bits : List ℕ) (item : Bytes) (seed : ℕ)
      → IsFilter bits
      → hash default_hash bits item seed < 8 * length bits
  unfolding hash
  hash_lt bits item seed f = let pos = f.nonempty in omega arith

  -- Inserting keeps the size and the bits that are set.
  pub insert_loop-IsFilter :
      (n i : ℕ) (item : Bytes) (bits : List ℕ)
      → IsFilter bits
      → IsFilter (insert_loop default_hash n i item bits)
  unfolding insert_loop
  insert_loop-IsFilter zero i item bits f = f
  insert_loop-IsFilter (suc n) i item bits f =
      insert_loop-IsFilter n (i + 1) item _ (put_bit-IsFilter bits _ f)

  length-insert_loop :
      (n i : ℕ) (item : Bytes) (bits : List ℕ)
      → length (insert_loop default_hash n i item bits) ≡ length bits
  unfolding insert_loop
  length-insert_loop zero i item bits = refl
  length-insert_loop (suc n) i item bits =
      length-insert_loop n (i + 1) item _ ∙ length-put_bit bits _ true

  insert_loop-set :
      (n i j : ℕ) (item : Bytes) (bits : List ℕ)
      → IsFilter bits
      → get_bit bits j ≡ true
      → get_bit (insert_loop default_hash n i item bits) j ≡ true
  unfolding insert_loop
  insert_loop-set zero i j item bits f h = h
  insert_loop-set (suc n) i j item bits f h =
      let place = hash default_hash bits item i in
      insert_loop-set n (i + 1) j item _ (put_bit-IsFilter bits place f)
        (get_bit-put_bit bits place j true f.bytes (hash_lt bits item i f) ∙ ground (arith, h))

  -- What is contained stays contained.
  contains_loop-insert_loop :
      (m k n i : ℕ) (item other : Bytes) (bits : List ℕ)
      → IsFilter bits
      → contains_loop default_hash m k item bits ≡ true
      → contains_loop default_hash m k item (insert_loop default_hash n i other bits) ≡ true
  unfolding contains_loop hash
  contains_loop-insert_loop zero k n i item other bits f h = refl
  contains_loop-insert_loop (suc m) k n i item other bits f h =
      let place = hash default_hash bits item k in
      elim (Bool-cases (get_bit bits place)) [
        | inr e ↦ absurd (cc (rw e at h))
        | inl e ↦
            let rest = contains_loop-insert_loop m (k + 1) n i item other bits f (rw e at h) in
            rw (length-insert_loop n i other bits, insert_loop-set n i place other bits f e) rest
      ]

  insert_loop-contains :
      (n i : ℕ) (item : Bytes) (bits : List ℕ)
      → IsFilter bits
      → contains_loop default_hash n i item (insert_loop default_hash n i item bits) ≡ true
  unfolding contains_loop insert_loop hash
  insert_loop-contains zero i item bits f = refl
  insert_loop-contains (suc n) i item bits f =
      let place = hash default_hash bits item i in
      let after = put_bit bits place true in
      let ok_after = put_bit-IsFilter bits place f in
      let here : get_bit after place ≡ true =
        get_bit-put_bit bits place place true f.bytes (hash_lt bits item i f)
        ∙ ap (λ b. if b then true else get_bit bits place) (==_refl place) in
      rw
        (
          length-insert_loop n (i + 1) item after,
          length-put_bit bits place true,
          insert_loop-set n (i + 1) place item after ok_after here,
        )
        (insert_loop-contains n (i + 1) item after ok_after)

  -- No false negatives: an item is contained in a filter of bytes, one at least, after it is
  -- inserted.
  pub contains-insert :
      (filter : BloomFilter) (item : Bytes)
      → IsFilter filter.bits
      → contains default_hash (insert default_hash filter item) item ≡ true
  unfolding contains insert
  contains-insert filter item f = insert_loop-contains filter.num_hashes 0 item filter.bits f

  pub contains-insert_other :
      (filter : BloomFilter) (item other : Bytes)
      → IsFilter filter.bits
      → contains default_hash filter item ≡ true
      → contains default_hash (insert default_hash filter other) item ≡ true
  unfolding contains insert
  contains-insert_other filter item other f h =
      contains_loop-insert_loop filter.num_hashes 0 filter.num_hashes 0 item other filter.bits f h
