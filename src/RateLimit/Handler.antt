-- ===== src/RateLimit/Handler.antt =====
-- The middleware that `NewRateLimiter` makes, over any store. The functions of the configuration
-- are `none` where they are nil; a handler of errors or denials is only counted as called.
use Prim.Native.Nat.{max}
use be_aether_node.Base.{
  ℕ, ◌/◌, ◌≡◌, refl, ◌⊎◌, ◌↔◌, inl, inr, String, Bool, true, false, Option, none, some, arith, ltb,
  if◌then◌else◌, second, str_eq, Bool-cases,
}
use be_aether_node.Base.Int.{ℤ, pos}
use be_aether_node.RateLimit.Decimal.{Bytes, itoa}

-- The answer of `Store.Allow`: allowed, remaining, error.
pub record StoreReply : Type 0 where
  pub allowed : Bool
  pub remaining : ℤ
  pub error : Option String

-- A context is `Ctx`, a state of the store is `S`. The store is called at a time, for a client,
-- with a limit and a window; `none` is a panic.
pub record Config (Ctx S : Type 0) : Type 0 where
  pub skipper : Option (Ctx → Bool)
  pub real_ip : Ctx → String
  pub identifier_extractor : Option (Ctx → Option String)
  pub store : ℕ → String → ℕ → ℕ → S → Option StoreReply × S
  pub requests_per_unit : ℕ
  pub unit : ℕ
  pub burst : ℕ
  pub error_message : String
  pub error_handler : Bool
  pub deny_handler : Bool

pub record Headers : Type 0 where
  pub limit : Option Bytes
  pub remaining : Option Bytes
  pub retry_after : Option Bytes
  pub retry : Bool

-- What the middleware does with a request.
pub data Handled : Type 0 where
  next : Handled
  error_handled : String → Handled
  deny_handled : Handled
  json : ℕ → String → Handled
  panicked : Handled

-- `int(config.Unit.Seconds())`
abbrev unit_seconds : ℕ → ℤ
unit_seconds unit = pos (unit / second)

no_headers : Headers
no_headers = record { limit = none; remaining = none; retry_after = none; retry = false }

abbrev pub skips : {Ctx : Type 0} → Option (Ctx → Bool) → Ctx → Bool
skips none ctx = false
skips (some f) ctx = f ctx

module _ {Ctx S : Type 0} where
  message : Config Ctx S → String
  message c = if str_eq c.error_message "" then "rate limit exceeded" else c.error_message

  -- `none` where the extractor fails.
  unfoldable pub identify : Config Ctx S → Ctx → Option String
  identify c ctx = elim c.identifier_extractor [ none ↦ some (c.real_ip ctx) | some f ↦ f ctx ]

  unfoldable pub effective_limit : Config Ctx S → ℕ
  effective_limit c = if ltb c.requests_per_unit c.burst then c.burst else c.requests_per_unit

  deny : Config Ctx S → Headers → Handled × Headers
  unfolding message
  deny c h =
      let h' = record h { retry_after = some (itoa (unit_seconds c.unit)); retry = true } in
      if c.deny_handler then (deny_handled, h') else (json 429 (message c), h')

  decide_allowed : Config Ctx S → StoreReply → Headers → Handled × Headers
  unfolding deny
  decide_allowed c r h = if r.allowed then (next, h) else deny c h

  answer_error : Config Ctx S → StoreReply → Headers → Option String → Handled × Headers
  unfolding decide_allowed
  answer_error c r h none = decide_allowed c r h
  answer_error c r h (some e) =
      if c.error_handler then (error_handled e, h) else decide_allowed c r h

  -- What follows the call of `Store.Allow`, which may panic.
  unfoldable pub answer : Config Ctx S → ℕ → Option StoreReply → Handled × Headers
  unfolding answer_error no_headers
  answer c limit none = (panicked, no_headers)
  answer c limit (some r) =
      answer_error c r
        (record no_headers { limit = some (itoa (pos limit)); remaining = some (itoa r.remaining) })
        r.error

  limit_client : Config Ctx S → ℕ → Option String → S → (Handled × Headers) × S
  unfolding answer effective_limit
  limit_client c now none s = ((next, no_headers), s)
  limit_client c now (some id) s =
      let (r, s') = c.store now id (effective_limit c) c.unit s in
      (answer c (effective_limit c) r, s')

  -- The handler that the middleware puts before `next`, at the time `now`.
  unfoldable pub limit_request : Config Ctx S → ℕ → Ctx → S → (Handled × Headers) × S
  unfolding limit_client identify
  limit_request c now ctx s =
      if skips c.skipper ctx then ((next, no_headers), s) else limit_client c now (identify c ctx) s

  -- The store allows the request, with no error that a handler takes.
  abbrev pub Passes : Config Ctx S → Option StoreReply → Type 0
  Passes c none = ⊥
  Passes c (some r) = (r.allowed ≡ true) × ((r.error ≡ none) ⊎ (c.error_handler ≡ false))

  -- The client is unknown, or the store lets it pass under the greater of the two limits.
  abbrev pub Admits : Config Ctx S → ℕ → S → Option String → Type 0
  Admits c now s none = Unit
  Admits c now s (some id) = Passes c (c.store now id (max c.requests_per_unit c.burst) c.unit s).0

  effective_limit-eq-max : (c : Config Ctx S) → effective_limit c ≡ max c.requests_per_unit c.burst
  unfolding effective_limit
  effective_limit-eq-max c = ground arith

  answer_next_iff :
      (c : Config Ctx S) (limit : ℕ) (r : Option StoreReply)
      → ((answer c limit r).0 ≡ next) ↔ Passes c r
  unfolding answer
  answer_next_iff c limit none = (λ e. cc, λ p. absurd p)
  answer_next_iff c limit (some r) = (λ e. ground arith, λ p. ground arith)

  client_next_iff :
      (c : Config Ctx S) (now : ℕ) (id : Option String) (s : S)
      → ((limit_client c now id s).0.0 ≡ next) ↔ Admits c now s id
  unfolding limit_client
  client_next_iff c now none s = (λ _. tt, λ _. refl)
  client_next_iff c now (some id) s =
      rw (← effective_limit-eq-max c)
        (answer_next_iff c (effective_limit c) (c.store now id (effective_limit c) c.unit s).0)

  -- A request reaches the handler exactly if it is skipped, or its client cannot be identified, or
  -- the store, asked with the greater of the rate and the burst, allows it and reports no error for
  -- which there is a handler.
  pub next_iff :
      (c : Config Ctx S) (now : ℕ) (ctx : Ctx) (s : S)
      → ((limit_request c now ctx s).0.0 ≡ next)
        ↔ ((skips c.skipper ctx ≡ true) ⊎ Admits c now s (identify c ctx))
  unfolding limit_request
  next_iff c now ctx s = elim (Bool-cases (skips c.skipper ctx)) [
    | inl skipped ↦ rw skipped (λ _. inl refl, λ _. refl)
    | inr limited ↦ rw limited (
      λ e. inr ((client_next_iff c now (identify c ctx) s).0 e),
      λ h. elim h [ inl n ↦ cc | inr a ↦ (client_next_iff c now (identify c ctx) s).1 a ],
    )
  ]
