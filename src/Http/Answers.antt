-- ===== src/Http/Answers.antt =====
-- Status codes that a handler does not answer with, since its service does not return the errors.
use be_aether_node.Base.{ℕ, Bool, true, false, ◌≡◌, ◌≢◌, inl, inr, arith}
use be_aether_node.Store.{
  M, Env, World, Err, api_key_not_found, user_not_found, device_not_found, location_not_found,
  installation_point_not_found,
}
use be_aether_node.Store.Keeps.{Result-cases}
use be_aether_node.Store.Raises.{Raises}
use be_aether_node.Http.{Reply, status, answer}

-- The errors of the domain packages with which handlers compare, and which no repository returns.
abbrev pub is_domain : Err → Bool
is_domain api_key_not_found = true
is_domain user_not_found = true
is_domain device_not_found = true
is_domain location_not_found = true
is_domain installation_point_not_found = true
is_domain _ = false

abbrev pub NotDomain : Err → Type 0
NotDomain e = is_domain e ≡ false

pub answer-status :
    {A B : Type 0} (n : ℕ) (m : M A) (on_ok : A → Reply B) (on_err : Err → Reply B) (env : Env)
    (w : World)
    → ((a : A) → status (on_ok a) ≢ n)
    → ((e : Err) → NotDomain e → status (on_err e) ≢ n)
    → Raises NotDomain m
    → status (answer m on_ok on_err env w).0 ≢ n
answer-status n m on_ok on_err env w good bad hm h = elim (Result-cases (m env w).0) [
  | inl (a, e) ↦ good a (rw e at h)
  | inr (x, e) ↦ bad x (hm.raised env w x e) (rw e at h)
]

pub ok≢not_found : ◌≢◌ {A = ℕ} 200 404
ok≢not_found h = omega (arith, h)
