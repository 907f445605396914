-- ===== src/RateLimit/Global.antt =====
-- The limiter that `Global` makes: the middleware over a store of its own, with the goroutine that
-- sweeps that store every five minutes.
use mathlib.Core.Option
use be_aether_node.Base.{
  ℕ, ◌+◌, ◌*◌, String, false, Option, none, List, [], ◌∷◌, if◌then◌else◌, minute, str_eq,
}
use be_aether_node.RateLimit.{TokenBucketStore, Reply, allow, cleanup}
use be_aether_node.RateLimit.Bound.{Request, granted}
use be_aether_node.RateLimit.Clean.{Event, ask, sweep}
use be_aether_node.RateLimit.Handler.{StoreReply, Config, Handled, next, limit_request}

-- `store.Allow` of the token buckets, as the interface gives it.
unfoldable pub token_store :
    ℕ → String → ℕ → ℕ → TokenBucketStore → Option StoreReply × TokenBucketStore
token_store now id limit window s =
    let (r, s') = allow id limit window now s in
    (Option.map (λ (a : Reply). record { allowed = a.0; remaining = a.1; error = none }) r, s')

-- A middleware over a store, and the interval of the ticker in `cleanup` of that store.
pub record Limiter : Type 0 where
  pub config : Config String TokenBucketStore
  pub cleanup_interval : ℕ
  pub store : TokenBucketStore

-- The interval of `DefaultStore`.
abbrev default_interval : ℕ
default_interval = 5 * minute

-- `NewTokenBucketStore` with the interval of `DefaultStore`, under a middleware.
unfoldable pub over_default_store : Config String TokenBucketStore → Limiter
over_default_store c = record { config = c; cleanup_interval = default_interval; store = [] }

-- `Global`, whose context is the client's address.
unfoldable pub global : ℕ → ℕ → Limiter
unfolding token_store over_default_store
global requests_per_unit unit = over_default_store (record {
  skipper = none;
  real_ip = λ ip. ip;
  identifier_extractor = none;
  store = token_store;
  requests_per_unit = requests_per_unit;
  unit = unit;
  burst = requests_per_unit;
  error_message = "";
  error_handler = false;
  deny_handler = false;
})

abbrev is_next : Handled → ℕ
is_next next = 1
is_next _ = 0

-- The requests of `id` that reach the handler, of a series of requests and of sweeps.
unfoldable pub count_from : Limiter → String → List Event → TokenBucketStore → ℕ
count_from l id [] s = 0
count_from l id (ask ip now ∷ es) s =
    let (h, s') = limit_request l.config now ip s in
    (if str_eq ip id then is_next h.0 else 0) + count_from l id es s'
count_from l id (sweep now ∷ es) s = count_from l id es (cleanup l.cleanup_interval now s)

unfoldable pub count_next : Limiter → String → List Event → ℕ
count_next l id es = count_from l id es l.store

-- The requests of `id` that replies allow.
granted_of : String → List Event → List (Option Reply) → ℕ
granted_of id [] rs = 0
granted_of id (ask ip now ∷ es) [] = 0
granted_of id (ask ip now ∷ es) (r ∷ rs) =
    (if str_eq ip id then granted r else 0) + granted_of id es rs
granted_of id (sweep now ∷ es) rs = granted_of id es rs

requests_of : List Event → List Request
requests_of [] = []
requests_of (ask ip now ∷ es) = (ip, now) ∷ requests_of es
requests_of (sweep now ∷ es) = requests_of es
