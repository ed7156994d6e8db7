-- ===== src/Server/Handlers/Events.antt =====
-- src/server.rs: what happens between two spends, as a sequence of events. A request is served before
-- the next one begins, and its time passes before or after it. The configuration is the event's own:
-- an operator changes the epoch.
use ebutv.Prelude.{ℕ, ◌+◌, ◌<◌, ◌≤◌, ◌≡◌, arith, true, none, List, [], ◌∷◌, All}
use ebutv.Server.Store.{Bytes}
use ebutv.Server.Nullifiers.{ServerConfig, nullifier_ttl}
use ebutv.Server.Bloom.{BloomFilter}
use ebutv.Server.Nonces.{Host, State, publish_high_privacy_batch}
use ebutv.Server.Handlers.{Refresh, Spend, Request, handle_refresh, handle_spend}
use ebutv.Server.Handlers.Keys.{Apart}
use ebutv.Server.Handlers.Recorded.{handle_spend-Keeps, handle_refresh-Keeps}

module _ (host : Host) (config : ServerConfig) (spend : Spend) (refresh : Refresh) where
  open host use {redis}

  pub data Event : Type 0 where
    spend_request : (c : ServerConfig) → Request host c spend → Event
    refresh_request : (c : ServerConfig) → refresh.protocol.Run → refresh.protocol.Proof → Event
    publish_batch : List Bytes → Event
    -- The nonce manager starts anew, with this filter.
    restart : BloomFilter → Event
    seconds : ℕ → Event

  unfoldable pub serve : List Event → State host config → State host config
  serve [] s = s
  serve (spend_request c req ∷ events) s = serve events (handle_spend host c spend req s).1
  serve (refresh_request c run proof ∷ events) s =
      serve events (handle_refresh host c refresh run proof s).1
  serve (publish_batch nonces ∷ events) s =
      serve events (publish_high_privacy_batch host config nonces s).1
  serve (restart filter ∷ events) s = serve events (record {
    database = s.database;
    bloom_filter = filter;
    current_root = none;
    current_tree = none;
  })
  serve (seconds t ∷ events) s = serve events (record {
    database = redis.pass t s.database;
    bloom_filter = s.bloom_filter;
    current_root = s.current_root;
    current_tree = s.current_tree;
  })

  unfoldable pub elapsed : List Event → ℕ
  elapsed [] = 0
  elapsed (spend_request c req ∷ events) = elapsed events
  elapsed (refresh_request c run proof ∷ events) = elapsed events
  elapsed (publish_batch nonces ∷ events) = elapsed events
  elapsed (restart filter ∷ events) = elapsed events
  elapsed (seconds t ∷ events) = t + elapsed events

  -- The time to live of the nullifiers is longer than so many seconds in the event's configuration.
  unfoldable pub IsLonger : ℕ → Event → Type 0
  IsLonger limit (spend_request c req) = limit < nullifier_ttl c
  IsLonger limit (refresh_request c run proof) = limit < nullifier_ttl c
  IsLonger limit (publish_batch nonces) = Unit
  IsLonger limit (restart filter) = Unit
  IsLonger limit (seconds t) = Unit

  -- A member of a set that outlasts the events is there after them.
  pub serve-lasts :
      (set member : Bytes) (limit : ℕ) (events : List Event) (s : State host config)
      → Apart host set
      → elapsed events ≤ limit
      → All (IsLonger limit) events
      → redis.lasts set member (elapsed events) s.database ≡ true
      → redis.lasts set member 0 (serve events s).database ≡ true
  unfolding serve elapsed IsLonger publish_high_privacy_batch
  serve-lasts set member limit [] s apart enough longer h = h
  serve-lasts set member limit (spend_request c req ∷ events) s apart enough longer h =
      serve-lasts set member limit events _ apart enough longer.1 (
        (handle_spend-Keeps host c (elapsed events) (omega (arith, longer.0)) set member apart spend
            req).kept
          s h)
  serve-lasts set member limit (refresh_request c run proof ∷ events) s apart enough longer h =
      serve-lasts set member limit events _ apart enough longer.1 (
        (handle_refresh-Keeps host c (elapsed events) (omega (arith, longer.0)) set member apart
            refresh run proof).kept
          s h)
  serve-lasts set member limit (publish_batch nonces ∷ events) s apart enough longer h =
      serve-lasts set member limit events _ apart enough longer.1 h
  serve-lasts set member limit (restart filter ∷ events) s apart enough longer h =
      serve-lasts set member limit events _ apart enough longer.1 h
  serve-lasts set member limit (seconds t ∷ events) s apart enough longer h =
      serve-lasts set member limit events _ apart (omega (arith, enough)) longer.1
        (redis.pass_lasts set member t (elapsed events) s.database h)
