-- ===== src/Server/Handlers/Once.antt =====
-- src/server.rs: handle_spend and the spend nullifiers, which are recorded once.
use ebutv.Prelude.{
  ℕ, ◌<◌, All, arith, ◌≡◌, refl, sym, ap, ◌∙◌, ◌≢◌, inl, inr, Bool, true, false, none, List,
  Bool-cases,
}
use ebutv.Prelude.Results.{Result, ok}
use ebutv.Server.Store.{Bytes, ActError, Step, >>=-eq-ok, fail_when-ok, fail_when-Keeps, Keeps}
use ebutv.Server.Nullifiers.{
  ServerConfig, nullifier_ttl, spend_epoch, spend_epoch-eq-ok, spend_nullifier_key,
  check_spend_nullifier, compute_key,
}
use ebutv.Server.Nonces.{Host, State, on_database}
use ebutv.Server.Handlers.{Refresh, Spend, Request, spend_tail, spend_uncached, handle_spend}
use ebutv.Server.Handlers.Added.{check_spend_nullifier-new}
use ebutv.Server.Handlers.Cache.{fetched, missed}
use ebutv.Server.Handlers.Events.{Event, serve, elapsed, IsLonger, serve-lasts}
use ebutv.Server.Handlers.Keys.{spend_nullifier_key-Apart}
use ebutv.Server.Handlers.Recorded.{Marked, consume_nonce-Keeps, spend_tail-Keeps}

module _ (host : Host) (config : ServerConfig) where
  open host use {redis}

  -- The request's answer is not in the cache.
  abbrev pub Uncached : (spend : Spend) → Request host config spend → State host config → Type 0
  Uncached spend req s =
      redis.value (compute_key host.sha256 host.hex (spend.protocol.print req.proof) req.nonce)
        s.database
      ≡ none

-- `n` seconds of the life of the nullifiers are left after a spend.
module _ (host : Host) (config : ServerConfig) (n : ℕ) (lives : n < nullifier_ttl config) where
  open host use {redis}

  positive : 0 < nullifier_ttl config
  positive = omega (arith, lives)

  -- What a step keeps is there after it, and what is not there after it was not there before.
  after :
      {S A : Type 0} (P : S → Type 0) (m : Step S A) (x : Result ActError A) (s s' : S)
      → Keeps P m
      → m s ≡ (x, s')
      → P s
      → P s'
  after P m x s s' keeps h p = rw (ap (λ t. t.1) h) at (keeps.kept s p)

  before :
      {S A : Type 0} (test : S → Bool) (m : Step S A) (x : Result ActError A) (s s' : S)
      → Keeps (λ t. test t ≡ true) m
      → m s ≡ (x, s')
      → test s' ≡ false
      → test s ≡ false
  before test m x s s' keeps h absent = elim (Bool-cases (test s)) [
    | inl e ↦ absurd (cc (after (λ t. test t ≡ true) m x s s' keeps h e))
    | inr e ↦ e
  ]

  -- A nullifier of an epoch is spent, and stays so for more than some seconds.
  abbrev pub Spent : ℕ → Bytes → ℕ → State host config → Type 0
  Spent epoch k seconds s = redis.lasts (spend_nullifier_key epoch) k seconds s.database ≡ true

  spend_tail-fresh :
      (spend : Spend) (key : Bytes) (req : Request host config spend) (fresh : Bool)
      (s s' : State host config) (response : spend.protocol.Response)
      → spend_tail host config spend key req fresh s ≡ (ok response, s')
      → fresh ≡ true
  unfolding spend_tail
  spend_tail-fresh spend key req true s s' response h = refl
  spend_tail-fresh spend key req false s s' response h =
      let (t, s1, e1, _) = >>=-eq-ok _ _ response s s' h in
      let (never, _) = fail_when-ok true _ s s1 t e1 in absurd (cc never)

  spend_uncached-Spent :
      (spend : Spend) (key : Bytes) (req : Request host config spend) (s s' : State host config)
      (response : spend.protocol.Response)
      → ((epoch : ℕ) → key ≢ spend_nullifier_key epoch)
      → spend_uncached host config spend key req s ≡ (ok response, s')
      → (epoch : ℕ) × (spend_epoch config (spend.t_issue req.proof) ≡ ok epoch)
        × (redis.lasts (spend_nullifier_key epoch) (spend.k_cur req.proof) 0 s.database ≡ false)
        × Spent epoch (spend.k_cur req.proof) n s'
  unfolding spend_uncached
  spend_uncached-Spent spend key req s s' response other h =
      let (_, s1, e1, h1) = >>=-eq-ok _ _ response s s' h in
      let (_, s2, e2, h2) = >>=-eq-ok _ _ response s1 s' h1 in
      let (fresh, s3, e3, h3) = >>=-eq-ok _ _ response s2 s' h2 in
      let k = spend.k_cur req.proof in
      let (epoch, in_time, absent, present) =
        checked spend fresh req s2 s3 e3 (spend_tail-fresh spend key req fresh s3 s' response h3) in
      let set = spend_nullifier_key epoch in
      let apart = spend_nullifier_key-Apart host epoch in
      let absent1 =
        before (λ t. redis.lasts set k 0 t.database) _ _ s1 s2
          (consume_nonce-Keeps host config 0 positive set k apart _ _ _) e2 absent in
      let absent0 =
        before (λ t. redis.lasts set k 0 t.database) _ _ s s1 (fail_when-Keeps _ _ _) e1 absent1 in
      (
        epoch,
        in_time,
        absent0,
        after (Marked host config n lives set k apart) _ _ s3 s'
            (spend_tail-Keeps host config n lives set k apart spend key req fresh (other epoch)) h3
            present,
      )
    where
      checked :
          (spend : Spend) (fresh : Bool) (req : Request host config spend)
          (s s' : State host config)
          → on_database
              (check_spend_nullifier redis config (spend.k_cur req.proof) (spend.t_issue req.proof))
              s
            ≡ (ok fresh, s')
          → fresh ≡ true
          → (epoch : ℕ) × (spend_epoch config (spend.t_issue req.proof) ≡ ok epoch)
            × (redis.lasts (spend_nullifier_key epoch) (spend.k_cur req.proof) 0 s.database ≡ false)
            × Spent epoch (spend.k_cur req.proof) n s'
      checked spend fresh req s s' h is_fresh =
          check_spend_nullifier-new host config n lives _ _ s.database s'.database
            (ap (λ x. (x.0, x.1.database)) h ∙ ap (λ (b : Bool). (ok b, s'.database)) is_fresh)

  -- A spend that is answered, and not from the cache, is of an epoch in time; its nullifier was
  -- not recorded in that epoch before, and is after, for every number of seconds below the time to
  -- live of the nullifiers.
  pub handle_spend-Spent :
      (spend : Spend) (req : Request host config spend) (s s' : State host config)
      (response : spend.protocol.Response)
      → Uncached host config spend req s
      → handle_spend host config spend req s ≡ (ok response, s')
      → (epoch : ℕ) × (spend_epoch config (spend.t_issue req.proof) ≡ ok epoch)
        × (redis.lasts (spend_nullifier_key epoch) (spend.k_cur req.proof) 0 s.database ≡ false)
        × Spent epoch (spend.k_cur req.proof) n s'
  unfolding handle_spend
  handle_spend-Spent spend req s s' response uncached h =
      let (cached, s1, e1, h1) = >>=-eq-ok _ _ response s s' h in
      let (miss, same) = fetched host config _ cached s s1 e1 uncached in
      let (epoch, in_time, absent, present) =
        spend_uncached-Spent spend _ req s1 s' response
          (λ epoch. (spend_nullifier_key-Apart host epoch).answers _ _)
          (missed host config spend.protocol _ cached _ s1 _ miss h1) in
      (epoch, in_time, rw same absent, present)

module _ (host : Host) (config config' : ServerConfig) (spend : Spend) (refresh : Refresh) where
  clash :
      (epoch epoch' : ℕ) (k k' : Bytes) (t : State host config)
      → epoch' ≡ epoch
      → k' ≡ k
      → host.redis.lasts (spend_nullifier_key epoch) k 0 t.database ≡ true
      → host.redis.lasts (spend_nullifier_key epoch') k' 0 t.database ≡ false
      → ⊥
  clash epoch epoch' k k' t e f present absent = absurd (cc (rw (e, f) at absent))

  -- No double spend: once a request is answered, no later request for a token of the same
  -- nullifier and issue epoch is, whatever its nonce and proof and the epoch then, after any spend
  -- and refresh requests, published batches, restarts of the nonce manager and seconds that pass, if
  -- neither answer is in the cache beforehand, fewer seconds pass than the time to live of the
  -- nullifiers in the first request's configuration and in those of the requests in between, and
  -- that time is positive in the last request's configuration. Requests are served one at a time.
  pub handle_spend-once :
      (req : Request host config spend) (req' : Request host config' spend)
      (between : List (Event host config spend refresh)) (s s' : State host config)
      (response response' : spend.protocol.Response)
      → elapsed host config spend refresh between < nullifier_ttl config
      → All (IsLonger host config spend refresh (elapsed host config spend refresh between)) between
      → 0 < nullifier_ttl config'
      → spend.k_cur req'.proof ≡ spend.k_cur req.proof
      → spend.t_issue req'.proof ≡ spend.t_issue req.proof
      → Uncached host config spend req s
      → handle_spend host config spend req s ≡ (ok response, s')
      → Uncached host config' spend req' (serve host config spend refresh between s')
      → (handle_spend host config' spend req' (serve host config spend refresh between s')).0
        ≢ ok response'
  handle_spend-once req req' between s s' response response' lives longer lives' same_k same_t un h
        un' again =
      let left = elapsed host config spend refresh between in
      let k = spend.k_cur req.proof in
      let (epoch, in_time, _, present) =
        handle_spend-Spent host config left lives spend req s s' response un h in
      let s2 = serve host config spend refresh between s' in
      let (epoch', in_time', absent, _) =
        handle_spend-Spent host config' 0 lives' spend req' s2 _ response' un'
          (ap (λ r. (r, (handle_spend host config' spend req' s2).1)) again) in
      let kept =
        serve-lasts host config spend refresh (spend_nullifier_key epoch) k left between s'
          (spend_nullifier_key-Apart host epoch) (omega arith) longer present in
      let same_epoch =
        spend_epoch-eq-ok config' _ epoch' in_time'
        ∙ same_t
        ∙ sym (spend_epoch-eq-ok config _ epoch in_time) in
      clash epoch epoch' k (spend.k_cur req'.proof) s2 same_epoch same_k kept absent
