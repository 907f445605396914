-- ===== src/RateLimit/Scenarios.antt =====
-- Runs of the limiter, and each theorem at one of them.
use be_aether_node.Base.{
  ◌+◌, ◌-◌, ◌*◌, ◌/◌, ◌≤◌, ◌≡◌, refl, ◌↔◌, ◌⊎◌, true, some, List, [], ◌∷◌, arith, leb,
  if◌then◌else◌, minute, lookup, insert,
}
use be_aether_node.Base.Int.{negsuc, ◌-ℤ◌}
use be_aether_node.RateLimit.{TokenBucketStore, allow_bucket, allow}
use be_aether_node.RateLimit.Window.{bucket, counted, allow_bucket_lem}
use be_aether_node.RateLimit.Bound.{Request, count_granted, count_granted_bound}
use be_aether_node.RateLimit.Clean.{Event, ask, sweep, replies, without_sweeps, sweeps_unobservable}
use be_aether_node.RateLimit.Decimal.{itoa, parse_decimal, parse-itoa}
use be_aether_node.RateLimit.Handler.{next, limit_request, identify, skips, Admits, next_iff}
use be_aether_node.RateLimit.Global.{global}

abbrev no_buckets : TokenBucketStore
no_buckets = []

-- A limit of zero lets the first request of a client through, with -1 requests remaining.
zero_limit_first : (allow "a" 0 minute 5 no_buckets).0 ≡ some (true, negsuc 0)
unfolding allow lookup ◌-ℤ◌
zero_limit_first = refl

allow_bucket_lem_example :
    allow_bucket 2 60 70 (bucket 0 10) ≡ (if leb 60 (70 - 10) then counted 2 70 else counted 0 10)
allow_bucket_lem_example =
    allow_bucket_lem 2 60 70 0 10 (omega arith) (omega arith) (omega arith) (omega arith)

abbrev burst : List Request
burst = ("a", 1) ∷ ("b", 1) ∷ ("a", 2) ∷ ("a", 3) ∷ ("a", 61) ∷ ("a", 62) ∷ ("a", 63) ∷ []

burst_bounded : count_granted 2 60 "a" burst [] ≤ 2 * (1 + (63 - 1) / 60)
unfolding lookup
burst_bounded =
    count_granted_bound 2 60 1 63 "a" burst [] (omega arith) (omega arith) (omega arith) refl
      (omega arith)

burst_granted : count_granted 2 60 "a" burst [] ≡ 4
unfolding count_granted allow lookup insert allow_bucket ◌-ℤ◌
burst_granted = refl

abbrev day : List Event
day = ask "a" 1 ∷ ask "a" 2 ∷ ask "a" 3 ∷ sweep 100 ∷ ask "a" 101 ∷ sweep 130 ∷ ask "a" 131 ∷ []

sweeps_unobservable_example : replies 30 2 60 day [] ≡ replies 30 2 60 (without_sweeps day) []
sweeps_unobservable_example =
    sweeps_unobservable 30 2 60 200 day (omega arith) (omega arith) (omega arith) (omega arith)
      (omega arith)

parse-itoa_example : parse_decimal (itoa (negsuc 1203)) ≡ negsuc 1203
parse-itoa_example = parse-itoa (negsuc 1203) (omega arith)

next_iff_example : ((limit_request (global 100 minute).config 5 "a" no_buckets).0.0 ≡ next) ↔ (
    (skips (global 100 minute).config.skipper "a" ≡ true)
    ⊎ Admits (global 100 minute).config 5 no_buckets (identify (global 100 minute).config "a"))
next_iff_example = next_iff (global 100 minute).config 5 "a" no_buckets

-- Two requests a minute, with a sweep that deletes the bucket.
abbrev swept_minutes : List Event
swept_minutes =
    ask "a" 1
    ∷ (ask "b" 1
        ∷ (ask "a" 2
            ∷ (ask "a" 3
                ∷ (sweep (5 * minute) ∷ (sweep (15 * minute) ∷ (ask "a" (15 * minute) ∷ []))))))
