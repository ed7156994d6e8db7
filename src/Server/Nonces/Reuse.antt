-- ===== src/Server/Nonces/Reuse.antt =====
-- src/server.rs: verify_merkle_nonce, for a nonce that comes again and for the root it is under.
use ebutv.Prelude.{
  ◌≡◌, refl, ap, inl, inr, true, false, List, [], ◌∷◌, bytes_eq, bytes_eq_refl, Bool-cases,
}
use ebutv.Prelude.Results.{ok}
use ebutv.Server.Store.{Bytes}
use ebutv.Server.Nullifiers.{ServerConfig}
use ebutv.Server.Tree.{MerkleProof, climb, verify}
use ebutv.Server.Bloom.{insert, contains}
use ebutv.Server.Bloom.Members.{
  IsFilter, insert_loop-IsFilter, contains-insert, contains-insert_other,
}
use ebutv.Server.Nonces.{
  Host, State, publish_high_privacy_batch, check_merkle_nonce, mark_nonce, verify_merkle_nonce,
}

module _ (host : Host) (config : ServerConfig) where
  open host use {redis, sha256, default_hash}

  -- What other calls do meanwhile: a whole call, the second part of a call whose check ran earlier, a
  -- new batch, and whatever changes the database.
  pub data Action : Type 0 where
    call : Bytes → MerkleProof → Bytes → Action
    late_mark : Bytes → Action
    publish : List Bytes → Action
    database_change : redis.Store → Action

  unfoldable pub act : Action → State host config → State host config
  act (call nonce proof root) s = (verify_merkle_nonce host config nonce proof root s).1
  act (late_mark nonce) s = mark_nonce host config nonce s
  act (publish nonces) s = (publish_high_privacy_batch host config nonces s).1
  act (database_change d) s = record {
    database = d;
    bloom_filter = s.bloom_filter;
    current_root = s.current_root;
    current_tree = s.current_tree;
  }

  unfoldable pub act_all : List Action → State host config → State host config
  act_all [] s = s
  act_all (a ∷ actions) s = act_all actions (act a s)

  -- The filter is one, and has the nonce.
  abbrev Filtered : Bytes → State host config → Type 0
  Filtered nonce s =
      IsFilter s.bloom_filter.bits × (contains default_hash s.bloom_filter nonce ≡ true)

  mark_nonce-Filtered :
      (nonce other : Bytes) (s : State host config)
      → Filtered nonce s
      → Filtered nonce (mark_nonce host config other s)
  unfolding mark_nonce insert
  mark_nonce-Filtered nonce other s (f, h) = (
    insert_loop-IsFilter default_hash s.bloom_filter.num_hashes 0 other s.bloom_filter.bits f,
    contains-insert_other default_hash s.bloom_filter nonce other f h,
  )

  verify_merkle_nonce-Filtered :
      (nonce other : Bytes) (proof : MerkleProof) (root : Bytes) (s : State host config)
      → Filtered nonce s
      → Filtered nonce (verify_merkle_nonce host config other proof root s).1
  unfolding verify_merkle_nonce
  verify_merkle_nonce-Filtered nonce other proof root s h =
      elim (Bool-cases (check_merkle_nonce host config other proof root s)) [
        | inl t ↦ rw t (mark_nonce-Filtered nonce other s h)
        | inr f ↦ rw f h
      ]

  act-Filtered :
      (nonce : Bytes) (a : Action) (s : State host config)
      → Filtered nonce s
      → Filtered nonce (act a s)
  unfolding act publish_high_privacy_batch
  act-Filtered nonce (call other proof root) s h =
      verify_merkle_nonce-Filtered nonce other proof root s h
  act-Filtered nonce (late_mark other) s h = mark_nonce-Filtered nonce other s h
  act-Filtered nonce (publish nonces) s h = h
  act-Filtered nonce (database_change d) s h = h

  act_all-Filtered :
      (nonce : Bytes) (actions : List Action) (s : State host config)
      → Filtered nonce s
      → Filtered nonce (act_all actions s)
  unfolding act_all
  act_all-Filtered nonce [] s h = h
  act_all-Filtered nonce (a ∷ actions) s h =
      act_all-Filtered nonce actions (act a s) (act-Filtered nonce a s h)

  seen :
      (nonce : Bytes) (proof : MerkleProof) (root : Bytes) (s : State host config)
      → Filtered nonce s
      → verify_merkle_nonce host config nonce proof root s ≡ (ok false, s)
  unfolding verify_merkle_nonce check_merkle_nonce
  seen nonce proof root s (_, h) = elim (Bool-cases (verify sha256 proof root)) [
    | inr e ↦ rw e refl
    | inl e ↦ elim (Bool-cases (bytes_eq proof.leaf nonce)) [
      | inr f ↦ rw (e, f) refl
      | inl f ↦ rw (e, f, h) refl
    ]
  ]

  marks :
      (nonce : Bytes) (s : State host config)
      → IsFilter s.bloom_filter.bits
      → Filtered nonce (mark_nonce host config nonce s)
  unfolding mark_nonce insert
  marks nonce s f = (
    insert_loop-IsFilter default_hash s.bloom_filter.num_hashes 0 nonce s.bloom_filter.bits f,
    contains-insert default_hash s.bloom_filter nonce f,
  )

  marked :
      (nonce : Bytes) (proof : MerkleProof) (root : Bytes) (s s' : State host config)
      → IsFilter s.bloom_filter.bits
      → verify_merkle_nonce host config nonce proof root s ≡ (ok true, s')
      → Filtered nonce s'
  unfolding verify_merkle_nonce
  marked nonce proof root s s' f h =
      elim (Bool-cases (check_merkle_nonce host config nonce proof root s)) [
        | inr e ↦ let bad = ap (λ x. x.0) (rw e at h) in absurd (cc bad)
        | inl e ↦
            let same : mark_nonce host config nonce s ≡ s' = ap (λ x. x.1) (rw e at h) in
            rw same at (marks nonce s f)
      ]

  -- After a nonce was accepted with a Merkle proof, and after any calls of other nonces or the same,
  -- late second parts of calls, published batches and changes of the database, the same nonce is
  -- refused under any proof and root, with no change of the state, if the filter before was of
  -- bytes, one at least. Nothing is said of a call whose check ran before the nonce was inserted.
  pub verify_merkle_nonce-once :
      (nonce : Bytes) (proof proof' : MerkleProof) (root root' : Bytes) (actions : List Action)
      (s s' : State host config)
      → IsFilter s.bloom_filter.bits
      → verify_merkle_nonce host config nonce proof root s ≡ (ok true, s')
      → verify_merkle_nonce host config nonce proof' root' (act_all actions s')
        ≡ (ok false, act_all actions s')
  verify_merkle_nonce-once nonce proof proof' root root' actions s s' f h =
      seen nonce proof' root' (act_all actions s')
        (act_all-Filtered nonce actions s' (marked nonce proof root s s' f h))

  -- Any nonce that the filter does not contain is accepted with an empty path, under the root that is
  -- its own digest, whatever root the server has published.
  pub verify_merkle_nonce-any_root :
      (nonce : Bytes) (s : State host config)
      → contains default_hash s.bloom_filter nonce ≡ false
      → (verify_merkle_nonce host config nonce
          (record { leaf = nonce; siblings = []; index = 0 })
          (sha256 nonce)
          s).0
        ≡ ok true
  unfolding verify_merkle_nonce check_merkle_nonce verify climb
  verify_merkle_nonce-any_root nonce s h =
      rw (bytes_eq_refl (sha256 nonce), bytes_eq_refl nonce, h) refl
