-- ===== src/Server/Handlers/Cache.antt =====
-- src/server.rs: a look into the idempotency cache that finds nothing.
use ebutv.Prelude.{◌≡◌, sym, ap, ◌∙◌, Option, none, some}
use ebutv.Prelude.Results.{Result, ok}
use ebutv.Server.Store.{Bytes, ActError, Step}
use ebutv.Server.Nullifiers.{ServerConfig, get}
use ebutv.Server.Nonces.{Host, State, on_database}
use ebutv.Server.Handlers.{Protocol, answer}

module _ (host : Host) (config : ServerConfig) where
  open host use {redis}

  pub fetched :
      (key : Bytes) (cached : Option Bytes) (s s1 : State host config)
      → on_database (get redis config key) s ≡ (ok cached, s1)
      → redis.value key s.database ≡ none
      → (cached ≡ none) × (s.database ≡ s1.database)
  unfolding get
  fetched key cached s s1 h absent = (
    redis.fetch_value key s.database cached (ap (λ x. x.0) h) ∙ absent,
    sym (redis.fetch_state key s.database) ∙ ap (λ x. x.1.database) h,
  )

  pub missed :
      (p : Protocol) (message : Bytes) (cached : Option Bytes)
      (m : Step (State host config) p.Response) (s : State host config)
      (z : Result ActError p.Response × State host config)
      → cached ≡ none
      → answer host config p message cached m s ≡ z
      → m s ≡ z
  missed p message none m s z e h = h
  missed p message (some c) m s z e h = absurd (cc e)
