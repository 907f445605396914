-- ===== src/Store/Raises.antt =====
-- The errors that an operation can return, from those of its parts.
use be_aether_node.Base.{
  if◌then◌else◌, true, false, String, Bool, Option, List, [], ◌∷◌, ◌≡◌, refl, ap, subst, ◌∙◌, arith,
  inl, inr, Bool-cases, Option-cases,
}
use be_aether_node.Store.{
  M, Env, World, Err, Result, err, db_error, no_rows, bcrypt_error, query, query_row, exec,
  on_error, or_raise, ask, pure, raise, ◌>>=◌, hash_password, fresh_if_empty, fresh_uuid, now, emit,
  Event,
}
use be_aether_node.Store.Keeps.{Result-cases}

pub err-injective : {A : Type 0} {x y : Err} → ◌≡◌ {A = Result A} (err x) (err y) → x ≡ y
err-injective h = cc h

module _ (Q : Err → Type 0) where
  -- Every error of every run has the property.
  pub record Raises {A : Type 0} (m : M A) : Type 0 where
    pub raised : (env : Env) (w : World) (x : Err) → (m env w).0 ≡ err x → Q x

  pub Raises->>= :
      {A B : Type 0} {m : M A} {f : A → M B}
      → Raises m
      → ((a : A) → Raises (f a))
      → Raises (m >>= f)
  unfolding ◌>>=◌
  Raises->>= {m = m} hm hf = record {
    raised = λ env w x h. elim (Result-cases (m env w).0) [
      | inl (a, e) ↦ (hf a).raised env (m env w).1 x (rw (e, ◌>>=◌) at h)
      | inr (y, e) ↦ hm.raised env w x (e ∙ ap err (err-injective (rw (e, ◌>>=◌) at h)))
    ];
  }

  pub Raises-pure : {A : Type 0} (a : A) → Raises (pure a)
  unfolding pure
  Raises-pure a = record { raised = λ env w x h. cc h }

  pub Raises-raise : {A : Type 0} (e : Err) → Q e → Raises {A = A} (raise e)
  unfolding raise
  Raises-raise e q = record { raised = λ env w x h. subst Q (err-injective h) q }

  pub Raises-ask : {A : Type 0} (f : Env → A) → Raises (ask f)
  unfolding ask
  Raises-ask f = record { raised = λ env w x h. cc h }

  pub Raises-now : Raises now
  unfolding now
  Raises-now = record { raised = λ env w x h. cc h }

  pub Raises-fresh_if_empty : (s : String) → Raises (fresh_if_empty s)
  unfolding fresh_if_empty fresh_uuid pure
  Raises-fresh_if_empty s = record { raised = λ env w x h. ground (arith, h) }

  pub Raises-or_raise : {A : Type 0} (f : Env → Option A) (e : Err) → Q e → Raises (or_raise f e)
  unfolding or_raise
  Raises-or_raise f e q = record {
    raised = λ env w x h. elim (Option-cases (f env)) [
      | inl n ↦ subst Q (err-injective (rw (n, or_raise) at h)) q
      | inr (a, s) ↦ ground (arith, h, s)
    ];
  }

  pub Raises-on_error :
      {A : Type 0} (g : Err → Err) {m : M A}
      → ((x : Err) → Q x → Q (g x))
      → Raises m
      → Raises (on_error g m)
  unfolding on_error
  Raises-on_error g {m = m} hg hm = record {
    raised = λ env w x h. elim (Result-cases (m env w).0) [
      | inl (a, e) ↦ ground (arith, h, e)
      | inr (y, e) ↦ subst Q (err-injective (rw (e, on_error) at h)) (hg y (hm.raised env w y e))
    ];
  }

  pub Raises-emit : (e : Event) → Raises (emit e)
  unfolding emit
  Raises-emit e = record { raised = λ env w x h. cc h }

  pub Raises-if :
      {A : Type 0} (b : Bool) (m n : M A) → Raises m → Raises n → Raises (if b then m else n)
  Raises-if true m n hm hn = hm
  Raises-if false m n hm hn = hn

  module _ (db : Q db_error) where
    pub Raises-query : {A : Type 0} (f : Env → World → A) → Raises (query f)
    unfolding query
    Raises-query f = record {
      raised = λ env w x h. elim (Bool-cases (env.fault w.steps)) [
        | inl e ↦ subst Q (err-injective (rw (e, query) at h)) db
        | inr e ↦ ground (arith, h, e)
      ];
    }

    pub Raises-exec : (allowed : World → Bool) (f : World → World) → Raises (exec allowed f)
    unfolding exec
    Raises-exec allowed f = record {
      raised = λ env w x h. elim (Bool-cases (env.fault w.steps)) [
        | inl e ↦ subst Q (err-injective (rw (e, exec) at h)) db
        | inr e ↦ elim (Bool-cases (allowed w)) [
          | inl a ↦ ground (arith, h, e, a)
          | inr a ↦ subst Q (err-injective (rw (e, a, exec) at h)) db
        ]
      ];
    }

    pub Raises-query_row : {A : Type 0} (f : World → List A) → Q no_rows → Raises (query_row f)
    unfolding query_row
    Raises-query_row f q = record {
      raised = λ env w x h. elim (Bool-cases (env.fault w.steps)) [
        | inl e ↦ subst Q (err-injective (rw (e, query_row) at h)) db
        | inr e ↦
            elim (f w) as (λ l. f w ≡ l → Q x) [
              | [] ↦ λ s. subst Q (err-injective (rw (e, s, query_row) at h)) q
              | ◌∷◌ a rows ↦ λ s. ground (arith, h, e, s)
            ]
              refl
      ];
    }

  pub Raises-hash_password : (password : String) → Q bcrypt_error → Raises (hash_password password)
  unfolding hash_password
  Raises-hash_password password q = record {
    raised = λ env w x h. elim (Option-cases (env.bcrypt_hash w.steps password)) [
      | inl n ↦ subst Q (err-injective (rw (n, hash_password) at h)) q
      | inr (a, s) ↦ ground (arith, h, s)
    ];
  }

pub ruleset raises = (
  Raises->>=, Raises-pure, Raises-raise, Raises-ask, Raises-now, Raises-fresh_if_empty,
  Raises-or_raise, Raises-on_error, Raises-emit, Raises-query, Raises-exec, Raises-query_row, refl,
)
