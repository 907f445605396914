-- ===== src/Store/Keeps.antt =====
-- Invariants of the tables: an operation keeps a predicate if each part of it does.
use be_aether_node.Base.{
  ◌⊎◌, str_eq, String, Bool, true, false, Option, some, Option-cases, List, [], ◌∷◌, ◌≡◌, refl,
  if◌then◌else◌, Bool-cases, inl, inr, All, All-append,
}
use be_aether_node.Base.Int.{ℤ, pos, negsuc}
use be_aether_node.Store.{
  M, Env, World, Err, Result, ok, err, tick, query, query_row, refused, limit_offset, exec,
  exec_returning, on_error, or_raise, ask, pure, raise, ◌>>=◌, random_bytes, fresh_if_empty,
  fresh_uuid, now,
}
use be_aether_node.Store.Sql.{select, update, append_row}

-- The predicate does not read the number of steps.
abbrev pub IgnoresSteps : (World → Type 0) → Type 0
IgnoresSteps P = (w : World) → P w → P (tick w)

pub Result-cases : {A : Type 0} (r : Result A) → ((a : A) × (r ≡ ok a)) ⊎ ((e : Err) × (r ≡ err e))
Result-cases (ok a) = inl (a, refl)
Result-cases (err e) = inr (e, refl)

module _ (env : Env) where
  -- What an operation can return.
  abbrev pub Returns : {A : Type 0} → M A → A → Type 0
  Returns m a = (w : World) × ((m env w).0 ≡ ok a)

  module _ (P : World → Type 0) where
    -- Every run of the operation keeps the predicate, with or without an error.
    pub record Keeps {A : Type 0} (m : M A) : Type 0 where
      pub kept : (w : World) → P w → P (m env w).1

    pub Keeps->>= :
        {A B : Type 0} {m : M A} {f : A → M B}
        → Keeps m
        → ((a : A) → Returns m a → Keeps (f a))
        → Keeps (m >>= f)
    unfolding ◌>>=◌
    Keeps->>= {m = m} hm hf = record {
      kept = λ w p. elim (Result-cases (m env w).0) [
        | inl (a, e) ↦ rw (e, ◌>>=◌) ((hf a (w, e)).kept (m env w).1 (hm.kept w p))
        | inr (x, e) ↦ rw (e, ◌>>=◌) (hm.kept w p)
      ];
    }

    pub Keeps-pure : {A : Type 0} (a : A) → Keeps (pure a)
    unfolding pure
    Keeps-pure a = record { kept = λ w p. p }

    pub Keeps-raise : {A : Type 0} (e : Err) → Keeps {A = A} (raise e)
    unfolding raise
    Keeps-raise e = record { kept = λ w p. p }

    pub Keeps-ask : {A : Type 0} (f : Env → A) → Keeps (ask f)
    unfolding ask
    Keeps-ask f = record { kept = λ w p. p }

    pub Keeps-or_raise : {A : Type 0} (f : Env → Option A) (e : Err) → Keeps (or_raise f e)
    unfolding or_raise
    Keeps-or_raise f e = record { kept = λ w p. p }

    pub Keeps-on_error : {A : Type 0} (g : Err → Err) {m : M A} → Keeps m → Keeps (on_error g m)
    unfolding on_error
    Keeps-on_error g hm = record { kept = hm.kept }

    pub Keeps-if :
        {A : Type 0} (b : Bool) (m n : M A) → Keeps m → Keeps n → Keeps (if b then m else n)
    Keeps-if true m n hm hn = hm
    Keeps-if false m n hm hn = hn

    module _ (ignores : IgnoresSteps P) where
      pub Keeps-now : Keeps now
      unfolding now
      Keeps-now = record { kept = ignores }

      pub Keeps-fresh_uuid : Keeps fresh_uuid
      unfolding fresh_uuid
      Keeps-fresh_uuid = record { kept = ignores }

      pub Keeps-random_bytes : Keeps random_bytes
      unfolding random_bytes
      Keeps-random_bytes = record { kept = ignores }

      pub Keeps-fresh_if_empty : (s : String) → Keeps (fresh_if_empty s)
      unfolding fresh_if_empty
      Keeps-fresh_if_empty s = elim (Bool-cases (str_eq s "")) [
        | inl e ↦ rw e Keeps-fresh_uuid
        | inr e ↦ rw e (Keeps-pure s)
      ]

      pub Keeps-query : {A : Type 0} (f : Env → World → A) → Keeps (query f)
      unfolding query
      Keeps-query f = record { kept = ignores }

      pub Keeps-refused : {A : Type 0} → Keeps {A = A} refused
      unfolding refused
      Keeps-refused = record { kept = ignores }

      pub Keeps-limit_offset :
          {A : Type 0} (limit offset : ℤ) (f : Env → World → List A)
          → Keeps (limit_offset limit offset f)
      unfolding limit_offset
      Keeps-limit_offset (pos _) (pos _) f = Keeps-query _
      Keeps-limit_offset (pos _) (negsuc _) f = Keeps-refused
      Keeps-limit_offset (negsuc _) _ f = Keeps-refused

      pub Keeps-query_row : {A : Type 0} (f : World → List A) → Keeps (query_row f)
      unfolding query_row
      Keeps-query_row f = record { kept = ignores }

      pub Keeps-exec :
          (allowed : World → Bool) (f : World → World)
          → ((w : World) → P w → P (f w))
          → Keeps (exec allowed f)
      unfolding exec
      Keeps-exec allowed f h = record {
        kept = λ w p. elim (Bool-cases (env.fault w.steps)) [
          | inl e ↦ rw e (ignores w p)
          | inr e ↦ rw e (elim (Bool-cases (allowed w)) [
            | inl a ↦ rw a (ignores (f w) (h w p))
            | inr a ↦ rw a (ignores w p)
          ])
        ];
      }

      pub Keeps-exec_returning :
          {A : Type 0} (allowed : Env → World → Bool) (f : Env → World → Option (A × World))
          → ((w : World) → P w → (a : A) (w' : World) → f env w ≡ some (a, w') → P w')
          → Keeps (exec_returning allowed f)
      unfolding exec_returning
      Keeps-exec_returning allowed f h = record {
        kept = λ w p. elim (Bool-cases (env.fault w.steps)) [
          | inl e ↦ rw e (ignores w p)
          | inr e ↦ rw e (elim (Bool-cases (allowed env w)) [
            | inl a ↦ rw a (elim (Option-cases (f env w)) [
              | inl n ↦ rw n (ignores w p)
              | inr (r, s) ↦ rw s (ignores r.1 (h w p r.0 r.1 s))
            ])
            | inr a ↦ rw a (ignores w p)
          ])
        ];
      }

module _ {A : Type 0} (P : A → Type 0) where
  pub All-append_row : (x : A) (xs : List A) → P x → All P xs → All P (append_row x xs)
  All-append_row x xs p h = All-append P xs (x ∷ []) h (p, tt)

  pub All-update :
      (q : A → Bool) (f : A → A) (xs : List A)
      → ((x : A) → P x → P (f x))
      → All P xs
      → All P (update q f xs)
  unfolding update
  All-update q f [] h _ = tt
  All-update q f (x ∷ xs) h (p, ps) =
      (elim (Bool-cases (q x)) [ inl e ↦ rw e (h x p) | inr e ↦ rw e p ], All-update q f xs h ps)

  pub All-select : (q : A → Bool) (xs : List A) → All P xs → All P (select q xs)
  unfolding select
  All-select q [] _ = tt
  All-select q (x ∷ xs) (p, ps) = elim (Bool-cases (q x)) [
    | inl e ↦ rw e (p, All-select q xs ps)
    | inr e ↦ rw e (All-select q xs ps)
  ]

-- The parts that read at most the environment and the tables.
pub ruleset keeps = (
  Keeps->>=, Keeps-pure, Keeps-raise, Keeps-ask, Keeps-or_raise, Keeps-on_error, Keeps-now,
  Keeps-fresh_uuid, Keeps-random_bytes, Keeps-fresh_if_empty, Keeps-query, Keeps-query_row,
  Keeps-limit_offset,
)
