-- ===== src/Server/Handlers/Recorded.antt =====
-- src/server.rs: recorded nullifiers, through the two handlers.
use ebutv.Prelude.{
  ℕ, ◌<◌, ◌≡◌, ◌≢◌, inl, inr, Bool, true, false, not, Option, none, some, ltb, ◌==◌, if◌then◌else◌,
  Bool-cases,
}
use ebutv.Prelude.Text.{codes}
use ebutv.Server.Store.{
  Bytes, protocol_error, verification_failed, Step, ◌>>=◌, ◌>>◌, return, fail_when, Keeps,
  return-Keeps, lift-Keeps, >>=-Keeps, fail_when-Keeps,
}
use ebutv.Server.Nullifiers.{
  ServerConfig, nullifier_ttl, add_nullifier, check_epoch_nullifier, check_spend_nullifier, store,
  get,
}
use ebutv.Server.Tree.{MerkleProof}
use ebutv.Server.Nonces.{
  Host, State, on_database, consume_script, verify_and_consume, check_merkle_nonce, mark_nonce,
  verify_merkle_nonce,
}
use ebutv.Server.Handlers.Keys.{Apart}
use ebutv.Server.Handlers.{
  Protocol, Refresh, Spend, Request, answer, cache_response, refresh_uncached, handle_refresh,
  consume_nonce, spend_tail, spend_uncached, handle_spend,
}

-- `n` seconds of the life of a set are left to keep.
module _ (host : Host) (config : ServerConfig) (n : ℕ) (lives : n < nullifier_ttl config)
    (set : Bytes) (member : Bytes) (apart : Apart host set) where
  open host use {redis}

  abbrev pub Recorded : redis.Store → Type 0
  Recorded d = redis.lasts set member n d ≡ true

  abbrev pub Marked : State host config → Type 0
  Marked s = Recorded s.database

  pub refresh_ttl-Keeps :
      (key : Bytes) (added : Bool)
      → Keeps Recorded (
          fail_when
            (not (ltb (nullifier_ttl config) 9223372036854775808))
            (protocol_error (codes "TTL overflow"))
          >> (redis.expire key (nullifier_ttl config) >> return added))
  refresh_ttl-Keeps key added = >>=-Keeps Recorded _ _ (fail_when-Keeps Recorded _ _) λ _.
      >>=-Keeps Recorded _ _ (record { kept = λ d. redis.expire_keeps key set member _ n d lives })
        λ _. return-Keeps Recorded _

  add_nullifier-Keeps :
      (key nullifier : Bytes) → Keeps Recorded (add_nullifier redis config key nullifier)
  unfolding add_nullifier
  add_nullifier-Keeps key nullifier =
      >>=-Keeps Recorded _ _ (record { kept = redis.sadd_keeps key nullifier set member n })
        λ added. refresh_ttl-Keeps key (added == 1)

  check_spend_nullifier-Keeps :
      (k : Bytes) (t_issue : ℕ) → Keeps Recorded (check_spend_nullifier redis config k t_issue)
  unfolding check_spend_nullifier
  check_spend_nullifier-Keeps k t_issue =
      >>=-Keeps Recorded _ _ (lift-Keeps Recorded _) λ epoch. add_nullifier-Keeps _ k

  on_database-Keeps :
      {A : Type 0} (m : Step redis.Store A) → Keeps Recorded m → Keeps Marked (on_database m)
  on_database-Keeps m keeps = record { kept = λ s h. keeps.kept s.database h }

  get-Keeps : (key : Bytes) → Keeps Recorded (get redis config key)
  unfolding get
  get-Keeps key = record { kept = λ d h. rw (redis.fetch_state key d) h }

  consume_script-Keeps :
      (key : Bytes) (ttl : ℕ) → key ≢ set → Keeps Recorded (consume_script host config key ttl)
  unfolding consume_script
  consume_script-Keeps key ttl other =
      >>=-Keeps Recorded _ _ (record { kept = λ d h. rw (redis.exists_state key d) h })
        λ found. branch found
    where
      branch :
          (found : Bool)
          → Keeps {A = ℕ} Recorded
              (if found then return 0 else (redis.set_ex key (codes "1") ttl >> return 1))
      branch true = return-Keeps {A = ℕ} Recorded 0
      branch false =
          >>=-Keeps Recorded _ _
            (record { kept = λ d. redis.set_ex_keeps key (codes "1") set member ttl n d other })
            λ _. return-Keeps Recorded 1

  verify_merkle_nonce-Keeps :
      (nonce : Bytes) (p : MerkleProof) (root : Bytes)
      → Keeps Marked (verify_merkle_nonce host config nonce p root)
  unfolding verify_merkle_nonce mark_nonce
  verify_merkle_nonce-Keeps nonce p root = record { kept = λ s h. steps s h }
    where
      steps :
          (s : State host config)
          → Marked s
          → Marked (verify_merkle_nonce host config nonce p root s).1
      steps s h = elim (Bool-cases (check_merkle_nonce host config nonce p root s)) [
        | inl e ↦ rw e h
        | inr e ↦ rw e h
      ]

  standard :
      (nonce : Bytes)
      → Keeps Marked (
          verify_and_consume host config nonce >>= λ unused.
          fail_when (not unused) (verification_failed (codes "Nonce already used")))
  unfolding verify_and_consume
  standard nonce =
      >>=-Keeps Marked _ _
        (on_database-Keeps _ (
          >>=-Keeps Recorded _ _ (consume_script-Keeps _ _ (apart.nonces config nonce))
            λ result. return-Keeps Recorded _))
        λ unused. fail_when-Keeps Marked _ _

  pub consume_nonce-Keeps :
      (nonce : Bytes) (p : Option MerkleProof) (root : Option Bytes)
      → Keeps Marked (consume_nonce host config nonce p root)
  unfolding consume_nonce
  consume_nonce-Keeps nonce (some p) (some root) =
      >>=-Keeps Marked _ _ (verify_merkle_nonce-Keeps nonce p root)
        λ valid. fail_when-Keeps Marked _ _
  consume_nonce-Keeps nonce none root = standard nonce
  consume_nonce-Keeps nonce (some p) none = standard nonce

  cache_response-Keeps :
      (p : Protocol) (message key : Bytes) (response : p.Response)
      → key ≢ set
      → Keeps Marked (cache_response host config p message key response)
  unfolding cache_response store
  cache_response-Keeps p message key response other =
      >>=-Keeps Marked _ _ (lift-Keeps Marked _) λ bytes.
        >>=-Keeps Marked _ _
          (on_database-Keeps _
            (record { kept = λ d. redis.set_ex_keeps key bytes set member _ n d other }))
          λ _. return-Keeps Marked _

  answer-Keeps :
      (p : Protocol) (message : Bytes) (cached : Option Bytes)
      (rest : Step (State host config) p.Response)
      → Keeps Marked rest
      → Keeps Marked (answer host config p message cached rest)
  answer-Keeps p message none rest h = h
  answer-Keeps p message (some cached) rest h = lift-Keeps Marked _

  -- What follows the nullifier check in `handle_spend`.
  pub spend_tail-Keeps :
      (spend : Spend) (key : Bytes) (req : Request host config spend) (fresh : Bool)
      → key ≢ set
      → Keeps Marked (spend_tail host config spend key req fresh)
  unfolding spend_tail
  spend_tail-Keeps spend key req fresh other =
      >>=-Keeps Marked _ _ (fail_when-Keeps Marked _ _) λ _.
        >>=-Keeps Marked _ _ (lift-Keeps Marked _) λ now.
          >>=-Keeps Marked _ _ (lift-Keeps Marked _)
            λ response. cache_response-Keeps spend.protocol _ key response other

  spend_uncached-Keeps :
      (spend : Spend) (key : Bytes) (req : Request host config spend)
      → key ≢ set
      → Keeps Marked (spend_uncached host config spend key req)
  unfolding spend_uncached
  spend_uncached-Keeps spend key req other = >>=-Keeps Marked _ _ (fail_when-Keeps Marked _ _) λ _.
      >>=-Keeps Marked _ _ (consume_nonce-Keeps _ _ _) λ _.
        >>=-Keeps Marked _ _ (on_database-Keeps _ (check_spend_nullifier-Keeps _ _))
          λ fresh. spend_tail-Keeps spend key req fresh other

  pub handle_spend-Keeps :
      (spend : Spend) (req : Request host config spend)
      → Keeps Marked (handle_spend host config spend req)
  unfolding handle_spend
  handle_spend-Keeps spend req = >>=-Keeps Marked _ _ (on_database-Keeps _ (get-Keeps _)) λ cached.
      answer-Keeps spend.protocol _ cached _ (spend_uncached-Keeps spend _ req (apart.answers _ _))

  pub handle_refresh-Keeps :
      (refresh : Refresh) (run : refresh.protocol.Run) (proof : refresh.protocol.Proof)
      → Keeps Marked (handle_refresh host config refresh run proof)
  unfolding handle_refresh refresh_uncached check_epoch_nullifier
  handle_refresh-Keeps refresh run proof =
      >>=-Keeps Marked _ _ (on_database-Keeps _ (get-Keeps _)) λ cached.
        answer-Keeps refresh.protocol _ cached _ (
          >>=-Keeps Marked _ _ (on_database-Keeps _ (add_nullifier-Keeps _ _)) λ fresh.
            >>=-Keeps Marked _ _ (fail_when-Keeps Marked _ _) λ _.
              >>=-Keeps Marked _ _ (lift-Keeps Marked _) λ now.
                >>=-Keeps Marked _ _ (lift-Keeps Marked _) λ response.
                  cache_response-Keeps refresh.protocol _ _ response (apart.refreshes _))
