-- ===== src/Store/Bind.antt =====
-- Inversion of a chain of operations that returns.
use be_aether_node.Base.{ap, ◌≡◌, refl, sym, subst, ◌∙◌, inl, inr, ◌≢◌}
use be_aether_node.Store.{M, Env, World, Err, Result, ok, err, ◌>>=◌, on_error}
use be_aether_node.Store.Keeps.{Result-cases}

err≢ok : {A : Type 0} {e : Err} {a : A} → ◌≢◌ {A = Result A} (err e) (ok a)
err≢ok h = cc h

module _ {A B : Type 0} (m : M A) (f : A → M B) (env : Env) (w : World) where
  -- The first part returned, and the rest ran after it.
  pub >>=-ok :
      {b : B}
      → ((m >>= f) env w).0 ≡ ok b
      → (a : A) × ((m env w).0 ≡ ok a)
        × ((f a env (m env w).1).0 ≡ ok b)
        × (((m >>= f) env w).1 ≡ (f a env (m env w).1).1)
  unfolding ◌>>=◌
  >>=-ok h = elim (Result-cases (m env w).0) [
    | inl (a, e) ↦ (a, e, rw (e, ◌>>=◌) at h, rw (e, ◌>>=◌) refl)
    | inr (x, e) ↦ absurd (err≢ok (rw (e, ◌>>=◌) at h))
  ]

-- The same, for a property of the world that is left.
pub >>=-elim :
    {A B : Type 0} (m : M A) (f : A → M B) (env : Env) (w : World) {b : B} (Q : World → Type 0)
    → ((m >>= f) env w).0 ≡ ok b
    → ((a : A) → (m env w).0 ≡ ok a → (f a env (m env w).1).0 ≡ ok b → Q (f a env (m env w).1).1)
    → Q ((m >>= f) env w).1
>>=-elim m f env w Q h k =
    let (a, e, h', same) = >>=-ok m f env w h in subst Q (sym same) (k a e h')

-- What a run that returns shows, from what its parts show.
pub >>=-result :
    {A B : Type 0} (m : M A) (f : A → M B) (env : Env) (w : World) {b : B} {C : Type 0}
    → ((m >>= f) env w).0 ≡ ok b
    → ((a : A) → (m env w).0 ≡ ok a → (f a env (m env w).1).0 ≡ ok b → C)
    → C
>>=-result m f env w h k = let (a, e, h', same) = >>=-ok m f env w h in k a e h'

pub on_error-ok :
    {A : Type 0} (g : Err → Err) (m : M A) (env : Env) (w : World) {a : A}
    → (on_error g m env w).0 ≡ ok a
    → (m env w).0 ≡ ok a
unfolding on_error
on_error-ok g m env w h = elim (Result-cases (m env w).0) [
  | inl (a, e) ↦ e ∙ (rw (e, on_error) at h)
  | inr (x, e) ↦ absurd (err≢ok (rw (e, on_error) at h))
]

-- What follows a part that returned.
pub >>=-runs :
    {A B : Type 0} (m : M A) (f : A → M B) (env : Env) (w w' : World) (a : A)
    → m env w ≡ (ok a, w')
    → (m >>= f) env w ≡ f a env w'
unfolding ◌>>=◌
>>=-runs m f env w w' a e = ap (λ p. elim p.0 [ ok a ↦ f a env p.1 | err x ↦ (err x, p.1) ]) e
