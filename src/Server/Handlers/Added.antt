-- ===== src/Server/Handlers/Added.antt =====
-- src/server.rs: a nullifier that the manager answers is new, and the life of its set.
use ebutv.Prelude.{ℕ, ◌<◌, not, ltb, ◌≡◌, ap, Bool, true, false, ◌==◌, ==→eq}
use ebutv.Prelude.Results.{ok}
use ebutv.Prelude.Text.{codes}
use ebutv.Server.Store.{
  Bytes, protocol_error, Step, ◌>>=◌, ◌>>◌, return, fail_when, >>=-eq-ok, fail_when-ok,
}
use ebutv.Server.Nullifiers.{
  ServerConfig, nullifier_ttl, spend_epoch, spend_nullifier_key, add_nullifier,
  check_spend_nullifier,
}
use ebutv.Server.Nonces.{Host}

module _ (host : Host) (config : ServerConfig) (n : ℕ) (lives : n < nullifier_ttl config) where
  open host use {redis}

  last_answer :
      {S A B : Type 0} (m : Step S A) (n : Step S B) (b c : Bool) (s s' : S)
      → (m >>= λ _. n >>= λ _. return b) s ≡ (ok c, s')
      → b ≡ c
  last_answer m n b c s s' h =
      let (_, t, _, h1) = >>=-eq-ok m (λ _. n >>= λ _. return b) c s s' h in
      let (_, u, _, h2) = >>=-eq-ok n (λ _. return b) c t s' h1 in let e = ap (λ x. x.0) h2 in cc

  new_member :
      (key nullifier : Bytes) (added : ℕ) (d d' : redis.Store)
      → redis.sadd key nullifier d ≡ (ok added, d')
      → (added == 1) ≡ true
      → redis.lasts key nullifier 0 d ≡ false
  new_member key nullifier added d d' h one =
      let e : added ≡ 1 = ==→eq added 1 one in redis.sadd_new key nullifier d d' (rw e at h)

  -- The time to live is set when the command succeeds.
  ttl_set :
      (key nullifier : Bytes) (added b : Bool) (d d' : redis.Store)
      → (fail_when
              (not (ltb (nullifier_ttl config) 9223372036854775808))
              (protocol_error (codes "TTL overflow"))
            >> (redis.expire key (nullifier_ttl config) >> return added))
          d
        ≡ (ok b, d')
      → redis.lasts key nullifier 0 d ≡ true
      → redis.lasts key nullifier n d' ≡ true
  ttl_set key nullifier added b d d' h there =
      let (t, d1, e1, h1) = >>=-eq-ok _ _ b d d' h in
      let (_, same) = fail_when-ok _ _ d d1 t e1 in
      let (u, d2, e2, h2) = >>=-eq-ok _ _ b d1 d' h1 in
      let end = ap (λ x. x.1) h2 in
      rw end at (redis.expire_lasts key nullifier _ n d1 d2 lives e2 (rw same at there))

  -- Adding a nullifier answers that it was new only if it was, and it is recorded then.
  add_nullifier-new :
      (key nullifier : Bytes) (d d' : redis.Store)
      → add_nullifier redis config key nullifier d ≡ (ok true, d')
      → (redis.lasts key nullifier 0 d ≡ false) × (redis.lasts key nullifier n d' ≡ true)
  unfolding add_nullifier
  add_nullifier-new key nullifier d d' h =
      let (added, d1, e1, h1) = >>=-eq-ok _ _ true d d' h in
      (
        new_member key nullifier added d d1 e1 (last_answer _ _ (added == 1) true d1 d' h1),
        ttl_set key nullifier (added == 1) true d1 d' h1
            (redis.sadd_member key nullifier added d d1 e1),
      )

  -- The same for a spend, in the set of the token's epoch.
  pub check_spend_nullifier-new :
      (k : Bytes) (t_issue : ℕ) (d d' : redis.Store)
      → check_spend_nullifier redis config k t_issue d ≡ (ok true, d')
      → (epoch : ℕ) × (spend_epoch config t_issue ≡ ok epoch)
        × (redis.lasts (spend_nullifier_key epoch) k 0 d ≡ false)
        × (redis.lasts (spend_nullifier_key epoch) k n d' ≡ true)
  unfolding check_spend_nullifier
  check_spend_nullifier-new k t_issue d d' h =
      let (epoch, d1, e1, h1) = >>=-eq-ok _ _ true d d' h in
      let same : d ≡ d1 = ap (λ x. x.1) e1 in
      let (absent, present) = add_nullifier-new (spend_nullifier_key epoch) k d1 d' h1 in
      (epoch, ap (λ x. x.0) e1, rw same absent, present)
