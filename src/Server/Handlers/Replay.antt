-- ===== src/Server/Handlers/Replay.antt =====
-- src/server.rs: handle_spend and the idempotency cache.
use ebutv.Prelude.{◌≡◌, refl, sym, ap, ◌∙◌, Option, none, some}
use ebutv.Prelude.Results.{Result, ok}
use ebutv.Server.Store.{Bytes, ActError, ◌>>=◌, >>=-eq-ok}
use ebutv.Server.Nullifiers.{ServerConfig, store, get, compute_key}
use ebutv.Server.Nonces.{Host, State}
use ebutv.Server.Handlers.{
  Protocol, Spend, Request, or_error, cache_response, spend_tail, spend_uncached, handle_spend,
}
use ebutv.Server.Handlers.Cache.{fetched, missed}

module _ (host : Host) (config : ServerConfig) where
  open host use {redis}

  -- What is under a key is the stored form of a response.
  abbrev pub Answered : (p : Protocol) → Bytes → p.Response → State host config → Type 0
  Answered p key response s =
      (bytes : Bytes) × (p.serialize response ≡ some bytes)
      × (redis.value key s.database ≡ some bytes)

  or_error-ok :
      {A : Type 0} (o : Option A) (e : ActError) (a : A) → or_error o e ≡ ok a → o ≡ some a
  or_error-ok none e a h = absurd (cc h)
  or_error-ok (some b) e a h = cc h

  -- A cached response answers its request again, with no change of the state, if the cache can be
  -- read and reading back undoes the serialization.
  pub handle_spend-Answered :
      (spend : Spend) (req : Request host config spend) (s : State host config)
      (response : spend.protocol.Response)
      → ((r : spend.protocol.Response) (b : Bytes)
          → spend.protocol.serialize r ≡ some b
          → spend.protocol.deserialize b ≡ some r)
      → Answered spend.protocol
          (compute_key host.sha256 host.hex (spend.protocol.print req.proof) req.nonce)
          response
          s
      → (read : Option Bytes)
      → (redis.fetch
          (compute_key host.sha256 host.hex (spend.protocol.print req.proof) req.nonce)
          s.database).0
        ≡ ok read
      → handle_spend host config spend req s ≡ (ok response, s)
  unfolding handle_spend get ◌>>=◌
  handle_spend-Answered spend req s response inverse (bytes, form, held) read reads =
      let key = compute_key host.sha256 host.hex (spend.protocol.print req.proof) req.nonce in
      let same = redis.fetch_value key s.database read reads ∙ held in
      let kept = redis.fetch_state key s.database in
      let back = inverse response bytes form in rw (reads, same, kept, back) refl

  same_answer : {A : Type 0} (a b : A) → ◌≡◌ {A = Result ActError A} (ok a) (ok b) → a ≡ b
  same_answer a b h = cc h

  cache_response-Answered :
      (p : Protocol) (message key : Bytes) (r response : p.Response) (s s' : State host config)
      → cache_response host config p message key r s ≡ (ok response, s')
      → Answered p key response s'
  unfolding cache_response store
  cache_response-Answered p message key r response s s' h =
      let (bytes, s1, e1, h1) = >>=-eq-ok _ _ response s s' h in
      let (t, s2, e2, h2) = >>=-eq-ok _ _ response s1 s' h1 in
      let form : p.serialize r ≡ some bytes = or_error-ok _ _ bytes (ap (λ x. x.0) e1) in
      let held : redis.value key s2.database ≡ some bytes =
        redis.set_ex_value key bytes _ s1.database s2.database (ap (λ x. (x.0, x.1.database)) e2) in
      let same = same_answer r response (ap (λ x. x.0) h2) in
      (
        bytes,
        sym (ap p.serialize same) ∙ form,
        sym (ap (λ x. redis.value key x.1.database) h2) ∙ held,
      )

  spend_uncached-Answered :
      (spend : Spend) (key : Bytes) (req : Request host config spend) (s s' : State host config)
      (response : spend.protocol.Response)
      → spend_uncached host config spend key req s ≡ (ok response, s')
      → Answered spend.protocol key response s'
  unfolding spend_uncached spend_tail
  spend_uncached-Answered spend key req s s' response h =
      let (_, s1, _, h1) = >>=-eq-ok _ _ response s s' h in
      let (_, s2, _, h2) = >>=-eq-ok _ _ response s1 s' h1 in
      let (_, s3, _, h3) = >>=-eq-ok _ _ response s2 s' h2 in
      let (_, s4, _, h4) = >>=-eq-ok _ _ response s3 s' h3 in
      let (_, s5, _, h5) = >>=-eq-ok _ _ response s4 s' h4 in
      let (r, s6, _, h6) = >>=-eq-ok _ _ response s5 s' h5 in
      cache_response-Answered spend.protocol _ key r response s6 s' h6

  -- A request that was answered, and not from the cache, gets the same answer when it is sent again
  -- at once, with no change of the state, if the cache can be read then and reading back undoes
  -- the serialization.
  pub handle_spend-replay :
      (spend : Spend) (req : Request host config spend) (s s' : State host config)
      (response : spend.protocol.Response)
      → ((r : spend.protocol.Response) (b : Bytes)
          → spend.protocol.serialize r ≡ some b
          → spend.protocol.deserialize b ≡ some r)
      → redis.value
          (compute_key host.sha256 host.hex (spend.protocol.print req.proof) req.nonce)
          s.database
        ≡ none
      → handle_spend host config spend req s ≡ (ok response, s')
      → (read : Option Bytes)
      → (redis.fetch
          (compute_key host.sha256 host.hex (spend.protocol.print req.proof) req.nonce)
          s'.database).0
        ≡ ok read
      → handle_spend host config spend req s' ≡ (ok response, s')
  unfolding handle_spend
  handle_spend-replay spend req s s' response inverse uncached h read reads =
      let (cached, s1, e1, h1) = >>=-eq-ok _ _ response s s' h in
      let (miss, _) = fetched host config _ cached s s1 e1 uncached in
      handle_spend-Answered spend req s' response inverse
        (spend_uncached-Answered spend _ req s1 s' response
          (missed host config spend.protocol _ cached _ s1 _ miss h1))
        read reads
