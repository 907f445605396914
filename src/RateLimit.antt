-- ===== src/RateLimit.antt =====
-- internal/ratelimit/ratelimit.go: the store of token buckets, its cleanup and the middleware.
-- Times and durations are nanoseconds, read from a clock that does not go back; limits, windows and
-- bursts are taken to be non-negative, and products and sums of tokens wrap at 64 bits.
pub mod Window
pub mod Bound
pub mod Clean
pub mod Decimal
pub mod Handler
pub mod Global
mod Scenarios
use Prim.Native.Nat.{min}
use be_aether_node.Base.{
  ℕ, ◌+◌, ◌-◌, ◌*◌, ◌/◌, String, Bool, true, false, Option, none, some, List, [], ◌∷◌, ltb, ◌==◌,
  if◌then◌else◌, max_int64, Dict, lookup, insert,
}
use be_aether_node.Base.Int.{ℤ, pos, negsuc, ◌+ℤ◌, ◌-ℤ◌, ltb_ℤ, to_int64}

pub record TokenBucket : Type 0 where
  pub tokens : ℤ
  pub last_check : ℕ

-- The store is its map of buckets.
abbrev pub TokenBucketStore : Type 0
TokenBucketStore = Dict TokenBucket

-- Whether the request is allowed, and the requests that remain. The error is always nil.
abbrev pub Reply : Type 0
Reply = Bool × ℤ

-- Go's `min` on int.
abbrev min_ℤ : ℤ → ℤ → ℤ
min_ℤ a b = if ltb_ℤ b a then b else a

-- `now.Sub(last)`, which saturates.
abbrev pub elapsed : ℕ → ℕ → ℕ
elapsed now last = min (now - last) max_int64

add_tokens : ℕ → ℕ → ℤ → TokenBucket → TokenBucket
unfolding to_int64 ◌+ℤ◌
add_tokens limit now tokens_to_add b =
    if ltb_ℤ (pos 0) tokens_to_add
    then record {
      tokens = min_ℤ (to_int64 (b.tokens +ℤ tokens_to_add)) (pos limit);
      last_check = now;
    }
    else b

-- The tokens that the elapsed time adds to a bucket.
unfoldable pub refill : ℕ → ℕ → ℕ → TokenBucket → TokenBucket
unfolding add_tokens to_int64
refill limit window now b =
    add_tokens limit now (to_int64 (pos (elapsed now b.last_check / window * limit))) b

unfoldable pub take_token : TokenBucket → Reply × TokenBucket
unfolding ◌-ℤ◌
take_token b =
    if ltb_ℤ (pos 0) b.tokens
    then ((true, b.tokens -ℤ pos 1), record b { tokens = b.tokens -ℤ pos 1 })
    else ((false, pos 0), b)

unfoldable pub allow_bucket : ℕ → ℕ → ℕ → TokenBucket → Reply × TokenBucket
unfolding refill take_token
allow_bucket limit window now b = take_token (refill limit window now b)

first_bucket : ℕ → ℕ → TokenBucket
unfolding ◌-ℤ◌
first_bucket limit now = record { tokens = pos limit -ℤ pos 1; last_check = now }

-- `Allow`. The reply is `none` where the division by a window of zero panics; the locks are
-- released then too, and nothing has changed.
unfoldable pub allow : String → ℕ → ℕ → ℕ → TokenBucketStore → Option Reply × TokenBucketStore
unfolding first_bucket
allow identifier limit window now s = elim (lookup identifier s) [
  | none ↦ (some (true, pos limit -ℤ pos 1), insert identifier (first_bucket limit now) s)
  | some b ↦
      let (r, b') = allow_bucket limit window now b in
      if window == 0 then (none, s) else (some r, insert identifier b' s)
]

-- One round of the loop in `cleanup`: `delete` in a range over the map.
unfoldable pub cleanup : ℕ → ℕ → TokenBucketStore → TokenBucketStore
cleanup interval now [] = []
cleanup interval now ((k, b) ∷ s) =
    let rest = cleanup interval now s in
    if ltb b.last_check (now - interval * 2) then rest else (k, b) ∷ rest
