-- ===== src/Store/Announces.antt =====
-- The events of an operation that announces what it has done: one with its last part, if it returns,
-- and none if it does not.
use mathlib.Core.List.{append-nil}
use be_aether_node.Base.{List, [], ◌∷◌, ◌++◌, ◌≡◌, refl, sym, ◌∙◌, inl, inr}
use be_aether_node.Store.{M, Env, World, Event, Result, ok, err, emit, pure, ◌>>=◌}
use be_aether_node.Store.Keeps.{Keeps, Result-cases, IgnoresSteps}

-- The events are those of before.
abbrev pub HasEvents : List Event → World → Type 0
HasEvents es w = w.events ≡ es

pub HasEvents-ignores : (es : List Event) → IgnoresSteps (HasEvents es)
HasEvents-ignores es w h = h

-- What was told on top of the events before, `told` for the value that came back.
abbrev pub Told : {A : Type 0} → (A → List Event → Type 0) → List Event → Result A × World → Type 0
Told told es (ok a, w) = (new : List Event) × (w.events ≡ es ++ new) × told a new
Told told es (err e, w) = w.events ≡ es

module _ (env : Env) (es : List Event) where
  pub record Announces {A : Type 0} (told : A → List Event → Type 0) (m : M A) : Type 0 where
    pub announced : (w : World) → HasEvents es w → Told told es (m env w)

  pub Announces->>= :
      {A B : Type 0} {told : B → List Event → Type 0} {m : M A} {f : A → M B}
      → Keeps env (HasEvents es) m
      → ((a : A) → Announces told (f a))
      → Announces told (m >>= f)
  unfolding ◌>>=◌
  Announces->>= {m = m} hm hf = record {
    announced = λ w p. elim (Result-cases (m env w).0) [
      | inl (a, e) ↦ rw (e, ◌>>=◌) ((hf a).announced (m env w).1 (hm.kept w p))
      | inr (x, e) ↦ rw (e, ◌>>=◌) (hm.kept w p)
    ];
  }

  -- The event, and then the value.
  pub Announces-emit :
      {A : Type 0} (told : A → List Event → Type 0) (event : Event) (a : A)
      → told a (event ∷ [])
      → Announces told (emit event >>= λ _. pure a)
  unfolding ◌>>=◌ emit pure
  Announces-emit told event a t = record { announced = λ w p. (event ∷ [], rw p refl, t) }

  -- Nobody listens.
  pub Announces-pure :
      {A : Type 0} (told : A → List Event → Type 0) (a : A) → told a [] → Announces told (pure a)
  unfolding pure
  Announces-pure told a t = record { announced = λ w p. ([], p ∙ sym (append-nil es), t) }

  pub Announces-emit_last :
      (told : Unit {0} → List Event → Type 0) (event : Event)
      → told tt (event ∷ [])
      → Announces told (emit event)
  unfolding emit
  Announces-emit_last told event t = record { announced = λ w p. (event ∷ [], rw p refl, t) }
