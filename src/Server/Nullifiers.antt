-- ===== src/Server/Nullifiers.antt =====
-- src/server.rs: ServerConfig, NullifierManager and IdempotencyCache.
use ebutv.Prelude.{
  ◌≡◌, sym, ◌∙◌, arith, inl, inr, Bool-cases, ==→eq, ℕ, zero, suc, ◌+◌, ◌-◌, ◌/◌, ◌%◌, Bool, ◌&&◌,
  not, Option, [], ◌∷◌, ◌++◌, ltb, ◌==◌, if◌then◌else◌,
}
use ebutv.Prelude.Results.{Result, ok, err}
use ebutv.Prelude.Text.{codes}
use ebutv.Server.Store.{
  Bytes, ActError, verification_failed, protocol_error, Step, ◌>>=◌, ◌>>◌, return, lift, fail_when,
  Redis,
}

-- The fields that the modelled operations read.
pub record ServerConfig : Type 0 where
  pub current_epoch : ℕ
  pub epoch_grace_period_secs : ℕ
  pub idempotency_ttl_secs : ℕ
  pub nonce_ttl_secs : ℕ

-- `{}` of a `u32`: ten digits are enough.
unfoldable pub digits : ℕ → ℕ → Bytes → Bytes
digits zero n acc = acc
digits (suc fuel) n acc =
    let rest = digits fuel (n / 10) ((48 + n % 10) ∷ acc) in
    if ltb n 10 then (48 + n % 10) ∷ acc else rest

unfoldable pub decimal : ℕ → Bytes
decimal n = digits 10 n []

unfoldable pub epoch_nullifier_key : ℕ → Bytes
epoch_nullifier_key epoch = codes "act:epoch:" ++ (decimal epoch ++ codes ":nullifiers")

unfoldable pub spend_nullifier_key : ℕ → Bytes
spend_nullifier_key epoch = codes "act:spend:" ++ (decimal epoch ++ codes ":nullifiers")

-- The time to live of a set of nullifiers, on 64 bits.
unfoldable pub nullifier_ttl : ServerConfig → ℕ
nullifier_ttl config = (config.epoch_grace_period_secs + 86400) % 18446744073709551616

-- The epoch whose set a token's nullifier goes to.
unfoldable pub spend_epoch : ServerConfig → ℕ → Result ActError ℕ
spend_epoch config t_issue =
    if t_issue == config.current_epoch
    then ok config.current_epoch
    else (if ltb 0 config.current_epoch && t_issue == config.current_epoch - 1
        then ok (config.current_epoch - 1)
        else err (verification_failed (codes "Epoch mismatch")))

-- The epoch that a token's nullifier goes to is the token's own, whatever the current epoch.
pub spend_epoch-eq-ok :
    (config : ServerConfig) (t_issue epoch : ℕ)
    → spend_epoch config t_issue ≡ ok epoch
    → epoch ≡ t_issue
unfolding spend_epoch
spend_epoch-eq-ok config t_issue epoch h = elim (Bool-cases (t_issue == config.current_epoch)) [
  | inl e ↦
      let same : config.current_epoch ≡ epoch = ok_number (rw e at h) in
      sym same ∙ sym (==→eq _ _ e)
  | inr e ↦ elim (Bool-cases (ltb 0 config.current_epoch && t_issue == config.current_epoch - 1)) [
    | inl f ↦
        let same : config.current_epoch - 1 ≡ epoch = ok_number (rw (e, f) at h) in ground arith
    | inr f ↦ absurd (cc (rw (e, f) at h))
  ]
]
  where
    ok_number : {a b : ℕ} → ◌≡◌ {A = Result ActError ℕ} (ok a) (ok b) → a ≡ b
    ok_number g = cc g

module _ (redis : Redis) (config : ServerConfig) where
  open redis use {Store, sadd, expire, set_ex, fetch}

  -- The part that the two checks share: add, refresh the time to live, tell whether it was new.
  unfoldable pub add_nullifier : Bytes → Bytes → Step Store Bool
  add_nullifier key nullifier = do
    added ← sadd key nullifier
    fail_when (not (ltb (nullifier_ttl config) 9223372036854775808))
        (protocol_error (codes "TTL overflow"))
    expire key (nullifier_ttl config)
    return (added == 1)

  unfoldable pub check_epoch_nullifier : Bytes → Step Store Bool
  check_epoch_nullifier n_t = add_nullifier (epoch_nullifier_key config.current_epoch) n_t

  unfoldable pub check_spend_nullifier : Bytes → ℕ → Step Store Bool
  check_spend_nullifier k_cur t_issue = do
    epoch_key ← lift (spend_epoch config t_issue)
    add_nullifier (spend_nullifier_key epoch_key) k_cur

  unfoldable pub store : Bytes → Bytes → Step Store (Unit {0})
  store key value = set_ex key value config.idempotency_ttl_secs

  unfoldable pub get : Bytes → Step Store (Option Bytes)
  get key = fetch key

module _ (sha256 hex : Bytes → Bytes) where
  unfoldable pub compute_key : Bytes → Bytes → Bytes
  compute_key proof_bytes nonce = codes "act:idem:" ++ hex (sha256 (proof_bytes ++ nonce))

  unfoldable pub compute_key_no_nonce : Bytes → Bytes
  compute_key_no_nonce proof_bytes = codes "act:idem:" ++ hex (sha256 proof_bytes)
