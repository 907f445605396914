-- ===== src/Breaker/Group.antt =====
-- `CircuitBreakerGroup`: one breaker for each name, made at the first call of `Get`.
use mathlib.Core.Option
use be_aether_node.Base.{
  ◌≡◌, refl, ◌≢◌, String, none, some, [], ◌∷◌, arith, Dict, lookup, insert, lookup-insert, eq_iff,
}
use be_aether_node.Breaker.{Config, CircuitBreaker, new, Stats, stats}

pub record CircuitBreakerGroup : Type 0 where
  pub breakers : Dict CircuitBreaker
  pub default_config : Config

unfoldable pub new_group : Config → CircuitBreakerGroup
new_group config = record { breakers = []; default_config = config }

-- The part of `Get` under the write lock, with its second look at the map.
unfoldable pub get_locked : String → CircuitBreakerGroup → CircuitBreaker × CircuitBreakerGroup
get_locked name g = elim (lookup name g.breakers) [
  | some cb ↦ (cb, g)
  | none ↦
      let cb = new (record g.default_config { name = name }) in
      (cb, record g { breakers = insert name cb g.breakers })
]

unfoldable pub get : String → CircuitBreakerGroup → CircuitBreaker × CircuitBreakerGroup
unfolding get_locked
get name g = elim (lookup name g.breakers) [ some cb ↦ (cb, g) | none ↦ get_locked name g ]

-- `(*CircuitBreakerGroup).Stats`
unfoldable pub group_stats : Dict CircuitBreaker → Dict Stats
group_stats [] = []
group_stats ((k, cb) ∷ m) = (k, stats cb) ∷ group_stats m

-- Two goroutines that both missed the name under the read lock get the same breaker: the second
-- finds the one that the first has made, and changes nothing.
pub get_locked_again :
    (name : String) (g : CircuitBreakerGroup)
    → let (cb, g') = get_locked name g in get_locked name g' ≡ (cb, g')
unfolding get_locked
get_locked_again name g = ground (
  arith,
  lookup-insert name name (new (record g.default_config { name = name })) g.breakers,
  eq_iff name name,
)

-- `Get` returns the breaker that the group then holds under the name, a new one only if it held
-- none, and leaves the breakers of all other names alone.
pub get_lem :
    (name other : String) (g : CircuitBreakerGroup)
    → let (cb, g') = get name g in
      (lookup name g'.breakers ≡ some cb)
      × ((c : CircuitBreaker) → lookup name g.breakers ≡ some c → cb ≡ c)
      × (name ≢ other → lookup other g'.breakers ≡ lookup other g.breakers)
unfolding get
get_lem name other g =
    let made = new (record g.default_config { name = name }) in
    let found = lookup-insert name name made g.breakers in
    let kept = lookup-insert name other made g.breakers in
    let same = eq_iff name name in
    let differ = eq_iff name other in (ground arith, λ c e. ground arith, λ n. ground arith)

lookup-group_stats :
    (k : String) (m : Dict CircuitBreaker)
    → lookup k (group_stats m) ≡ Option.map stats (lookup k m)
unfolding lookup group_stats
lookup-group_stats k [] = refl
lookup-group_stats k ((j, cb) ∷ m) = ground (arith, lookup-group_stats k m)
