-- ===== src/Store/Samples.antt =====
-- A small world for tests: an environment whose statements all answer.
use Prim.Native.String.{count, ◌++◌ as text_append}
use text.Mathlib.TextLemmas.{length-append}
use be_aether_node.Base.{
  ℕ, zero, suc, ◌+◌, ◌-◌, String, true, false, none, some, List, [], ◌∷◌, ◌≡◌, refl, ap, ◌∙◌, arith,
  str_eq,
}
use be_aether_node.Store.{Env, World}

-- A GUID is written in unary.
abbrev pub unary : ℕ → String
unary zero = "g"
unary (suc u) = text_append "g" (unary u)

count-unary : (u : ℕ) → count (unary u) ≡ suc u
count-unary zero = refl
count-unary (suc u) = length-append "g" (unary u) ∙ omega (arith, count-unary u)

abbrev pub zeros : ℕ → List ℕ
zeros zero = []
zeros (suc n) = 0 ∷ zeros n

abbrev pub small_env : Env
small_env = record {
  fault = λ n. false;
  ilike = λ s p. true;
  clock = λ n. 100 + n;
  random = λ n. some (zeros 32);
  uuid_new = λ n. n;
  uuid_parse = λ s. some (count s - 1);
  uuid_string = unary;
  sha256 = λ s. zeros 32;
  parse_time = λ s. some 500;
  bcrypt_hash = λ n p. some p;
  bcrypt_compare = λ h p. str_eq h p;
  signed_string = λ secret claims. some claims.user_guid;
  parse_claims = λ secret t token. none;
  db_now = λ n. 200 + n;
  db_uuid = λ n. n;
  text_leb = λ s t. true;
  group_rank = λ n s. 0;
  row_rank = λ n u. 0;
  commit_kept = λ n. false;
}

pub small_env-ParsesBack : (u : ℕ) → small_env.uuid_parse (small_env.uuid_string u) ≡ some u
small_env-ParsesBack u = ap some (omega (arith, count-unary u))

abbrev pub empty_world : World
empty_world = record {
  api_keys = [];
  users = [];
  refresh_tokens = [];
  devices = [];
  locations = [];
  installation_points = [];
  thresholds = [];
  alarms = [];
  events = [];
  steps = 0;
}
