-- ===== src/Samples/Service.antt =====
-- The theorems on the service, applied to the store of two lists.
use ebutv.Prelude.{
  ℕ, ◌+◌, All, ◌≡◌, refl, sym, ◌≢◌, ◌<◌, true, false, none, some, List, [], ◌∷◌, arith, length,
}
use ebutv.Prelude.Lists.{bytes_eq}
use ebutv.Prelude.Results.{ok}
use ebutv.Prelude.BitArray.{get_bit}
use ebutv.Prelude.Text.{codes}
use ebutv.Server.Store.{Bytes, ◌>>=◌}
use ebutv.Samples.Database.{lists, has}
use ebutv.Server.Nullifiers.{
  ServerConfig, nullifier_ttl, spend_epoch, spend_nullifier_key, add_nullifier,
  check_spend_nullifier, store, get, compute_key, compute_key_no_nonce, epoch_nullifier_key,
  check_epoch_nullifier, digits, decimal,
}
use ebutv.Server.Tree.{MerkleProof, climb, verify}
use ebutv.Server.Bloom.{insert, contains, contains_loop, hash}
use ebutv.Server.Nonces.{
  Host, State, nonce_key, consume_script, verify_and_consume, check_merkle_nonce, mark_nonce,
  verify_merkle_nonce, publish_high_privacy_batch,
}
use ebutv.Server.Nonces.Reuse.{
  Action, call, late_mark, publish, act_all, verify_merkle_nonce-once, verify_merkle_nonce-any_root,
}
use ebutv.Server.Handlers.{
  Protocol, Refresh, Spend, Request, handle_refresh, refresh_uncached, cache_response,
  consume_nonce, spend_tail, spend_uncached, handle_spend,
}
use ebutv.Server.Handlers.Replay.{handle_spend-replay}
use ebutv.Server.Handlers.Once.{Uncached, handle_spend-Spent, handle_spend-once}
use ebutv.Server.Handlers.Events.{
  Event, seconds, restart, publish_batch, refresh_request, spend_request, serve, elapsed, IsLonger,
}

abbrev host : Host
host = record {
  redis = lists;
  sha256 = λ x. x;
  hex = λ x. x;
  default_hash = λ item seed. seed + length item;
}

abbrev config : ServerConfig
config = record {
  current_epoch = 7;
  epoch_grace_period_secs = 300;
  idempotency_ttl_secs = 60;
  nonce_ttl_secs = 60;
}

-- A proof is its nullifier and epoch; every proof verifies.
abbrev plain : Protocol
plain = record {
  Proof = Bytes × ℕ;
  Response = Bytes;
  Run = ℕ;
  print = λ p. p.1 ∷ p.0;
  serialize = λ r. some r;
  deserialize = λ b. some b;
  now = λ t. ok t;
}

abbrev spending : Spend
spending = record {
  protocol = plain;
  k_cur = λ p. p.0;
  k_cur_is_zero = λ p. false;
  t_issue = λ p. p.1;
  verify_spend = λ run p epoch now nonce. some (ok (1 ∷ []));
}

-- A proof is its nullifier.
abbrev refreshing : Refresh
refreshing = record {
  protocol = record {
    Proof = Bytes;
    Response = Bytes;
    Run = ℕ;
    print = λ p. p;
    serialize = λ r. some r;
    deserialize = λ b. some b;
    now = λ t. ok t;
  };
  n_t = λ p. p;
  verify_refresh = λ run p epoch now. some (ok (2 ∷ []));
}

abbrev following : ServerConfig
following = record {
  current_epoch = 8;
  epoch_grace_period_secs = 300;
  idempotency_ttl_secs = 60;
  nonce_ttl_secs = 60;
}

abbrev request : (c : ServerConfig) → ℕ → Request host c spending
request c n = record {
  run = 100;
  proof = (5 ∷ [], 7);
  nonce = n ∷ [];
  merkle_proof = none;
  merkle_root = none;
}

abbrev start : State host config
start = record {
  database = ([], []);
  bloom_filter = record { bits = 0 ∷ []; num_hashes = 2 };
  current_root = none;
  current_tree = none;
}

-- The state after the first request.
abbrev served : State host config
served = record {
  database = (
    (spend_nullifier_key 7, 5 ∷ [], some 86700) ∷ [],
    (compute_key (λ x. x) (λ x. x) (7 ∷ 5 ∷ []) (1 ∷ []), 1 ∷ [])
        ∷ (nonce_key host config (1 ∷ []), codes "1")
        ∷ [],
  );
  bloom_filter = record { bits = 0 ∷ []; num_hashes = 2 };
  current_root = none;
  current_tree = none;
}

lives : 86699 < nullifier_ttl config
unfolding nullifier_ttl
lives = omega arith

first_served : handle_spend host config spending (request config 1) start ≡ (ok (1 ∷ []), served)
unfolding handle_spend spend_uncached consume_nonce verify_and_consume consume_script
    check_spend_nullifier spend_epoch add_nullifier spend_tail cache_response store get ◌>>=◌
    nullifier_ttl nonce_key compute_key spend_nullifier_key digits decimal codes bytes_eq
first_served = refl

-- The epoch changes, an hour passes, another token is refreshed, and the nonce manager starts anew.
abbrev between : List (Event host config spending refreshing)
between =
    seconds 3600
    ∷ refresh_request following 200 (6 ∷ [])
    ∷ restart start.bloom_filter
    ∷ publish_batch ((9 ∷ []) ∷ [])
    ∷ spend_request following (request following 3)
    ∷ seconds 50
    ∷ []

elapsed_lt : elapsed host config spending refreshing between < nullifier_ttl config
unfolding elapsed nullifier_ttl
elapsed_lt = omega arith

between-IsLonger :
    All
      (IsLonger host config spending refreshing (elapsed host config spending refreshing between))
      between
unfolding elapsed nullifier_ttl IsLonger
between-IsLonger = (tt, (omega arith, (tt, (tt, (omega arith, (tt, tt))))))

next_lives : 0 < nullifier_ttl following
unfolding nullifier_ttl
next_lives = omega arith

not_cached :
    Uncached host following spending
      (request following 2)
      (serve host config spending refreshing between served)
unfolding serve handle_spend spend_uncached consume_nonce verify_and_consume consume_script
    check_spend_nullifier spend_epoch add_nullifier spend_tail cache_response store get ◌>>=◌
    nullifier_ttl nonce_key compute_key spend_nullifier_key digits decimal codes bytes_eq
    handle_refresh refresh_uncached check_epoch_nullifier compute_key_no_nonce epoch_nullifier_key
    publish_high_privacy_batch
not_cached = refl

once_example :
    (handle_spend host following spending
      (request following 2)
      (serve host config spending refreshing between served)).0
    ≢ ok (9 ∷ [])
once_example =
    handle_spend-once host config following spending refreshing (request config 1)
      (request following 2) between start served (1 ∷ []) (9 ∷ []) elapsed_lt between-IsLonger
      next_lives refl refl refl first_served not_cached

abbrev own_path : MerkleProof
own_path = record { leaf = 4 ∷ []; siblings = []; index = 0 }

abbrev marked_state : State host config
marked_state = record {
  database = ([], []);
  bloom_filter = insert (λ item seed. seed + length item) start.bloom_filter (4 ∷ []);
  current_root = none;
  current_tree = none;
}

accepted_nonce :
    verify_merkle_nonce host config (4 ∷ []) own_path (4 ∷ []) start ≡ (ok true, marked_state)
unfolding verify_merkle_nonce check_merkle_nonce mark_nonce verify climb contains contains_loop hash
    get_bit bytes_eq
accepted_nonce = refl

abbrev meanwhile : List (Action host config)
meanwhile =
    call (4 ∷ []) own_path (4 ∷ [])
    ∷ late_mark (4 ∷ [])
    ∷ publish ((9 ∷ []) ∷ (8 ∷ []) ∷ [])
    ∷ late_mark (9 ∷ [])
    ∷ []

nonce_once_example :
    verify_merkle_nonce host config
      (4 ∷ [])
      own_path
      (8 ∷ [])
      (act_all host config meanwhile marked_state)
    ≡ (ok false, act_all host config meanwhile marked_state)
nonce_once_example =
    verify_merkle_nonce-once host config (4 ∷ []) own_path own_path (4 ∷ []) (8 ∷ []) meanwhile
      start marked_state (record { bytes = (omega arith, tt); nonempty = omega arith })
      accepted_nonce

fresh_nonce : contains (λ item seed. seed + length item) start.bloom_filter (6 ∷ []) ≡ false
unfolding contains contains_loop hash get_bit
fresh_nonce = refl

any_root_example :
    (verify_merkle_nonce host config
      (6 ∷ [])
      (record { leaf = 6 ∷ []; siblings = []; index = 0 })
      (6 ∷ [])
      start).0
    ≡ ok true
any_root_example = verify_merkle_nonce-any_root host config (6 ∷ []) start fresh_nonce

start-Uncached : Uncached host config spending (request config 1) start
start-Uncached = refl

spent_example :
    (epoch : ℕ) × (spend_epoch config 7 ≡ ok epoch)
    × (has (spend_nullifier_key epoch) (5 ∷ []) 0 start.database.0 ≡ false)
    × (has (spend_nullifier_key epoch) (5 ∷ []) 86699 served.database.0 ≡ true)
spent_example =
    handle_spend-Spent host config 86699 lives spending (request config 1) start served (1 ∷ [])
      start-Uncached first_served

some_injective : (r b : Bytes) → some r ≡ some b → some b ≡ some r
some_injective r b h = sym h

cached_answer :
    (lists.fetch (compute_key (λ x. x) (λ x. x) (7 ∷ 5 ∷ []) (1 ∷ [])) served.database).0
    ≡ ok (some (1 ∷ []))
unfolding compute_key bytes_eq codes
cached_answer = refl

-- The first request again.
replay_example : handle_spend host config spending (request config 1) served ≡ (ok (1 ∷ []), served)
replay_example =
    handle_spend-replay host config spending (request config 1) start served (1 ∷ []) some_injective
      refl first_served (some (1 ∷ [])) cached_answer
