-- ===== src/Threshold/Replies.antt =====
-- When internal/handler/threshold_handler.go answers 404.
use be_aether_node.Base.{
  ℕ, String, true, false, none, some, List, [], ◌∷◌, ◌≡◌, ◌≢◌, refl, sym, ap, subst, ◌∙◌, arith,
  ◌⊎◌, ◌↔◌, inl, inr, Option-cases,
}
use be_aether_node.Store.{
  Env, World, M, Err, ThresholdRow, threshold_not_found, tick, ask, or_raise, on_error, query_row,
  exec, exec_returning, ◌>>=◌, ok, err, Result, parse_uuid,
}
use be_aether_node.Store.Sql.{select}
use be_aether_node.Store.Laws.{List-cases, select-head}
use be_aether_node.Store.Keeps.{Result-cases}
use be_aether_node.Store.Bind.{>>=-runs}
use be_aether_node.Store.Raises.{Raises, Raises-if, err-injective, raises}
use be_aether_node.Http.{Reply, status, answer}
use be_aether_node.Http.Answers.{ok≢not_found}
use be_aether_node.Threshold.{
  Threshold, threshold_from_db, get_by_guid, get_threshold_row, live_threshold,
  update_threshold_record, update_row, delete_threshold_record, delete_row,
}
use be_aether_node.Threshold.Service.{
  ThresholdService, UpdateThresholdRequest, get_threshold, update_threshold, delete_threshold,
  publish_update,
}
use be_aether_node.Threshold.Handler.{
  handle_get, handle_update, handle_delete, not_found_or_internal,
}

-- The GUID does not parse, or no threshold that is not deleted has it.
abbrev pub Missing : String → Env → World → Type 0
Missing guid env w =
    (env.uuid_parse guid ≡ none)
    ⊎ ((id : ℕ) × (env.uuid_parse guid ≡ some id) × (select (live_threshold id) w.thresholds ≡ []))

abbrev Found : String → Env → World → Type 0
Found guid env w =
    (id : ℕ) × (row : ThresholdRow) × (rows : List ThresholdRow) × (env.uuid_parse guid ≡ some id)
    × (select (live_threshold id) w.thresholds ≡ row ∷ rows)

lookup_cases : (guid : String) (env : Env) (w : World) → Missing guid env w ⊎ Found guid env w
lookup_cases guid env w = elim (Option-cases (env.uuid_parse guid)) [
  | inl e ↦ inl (inl e)
  | inr (id, e) ↦ elim (List-cases (select (live_threshold id) w.thresholds)) [
    | inl n ↦ inl (inr (id, e, n))
    | inr (row, rows, f) ↦ inr (id, row, rows, e, f)
  ]
]

not_both : (guid : String) (env : Env) (w : World) → Missing guid env w → Found guid env w → ⊥
not_both guid env w (inl n) (id, row, rows, e, f) = cc (n, e)
not_both guid env w (inr (i, n, m)) (id, row, rows, e, f) = ground (arith, n, m, e, f)

get-Missing :
    (guid : String) (env : Env) (w : World)
    → env.fault w.steps ≡ false
    → Missing guid env w
    → (get_by_guid guid env w).0 ≡ err threshold_not_found
unfolding get_by_guid get_threshold_row ◌>>=◌ or_raise on_error query_row
get-Missing guid env w answers (inl n) = rw n refl
get-Missing guid env w answers (inr (id, e, n)) = ground (arith, answers, e, n)

get-Found :
    (guid : String) (env : Env) (w : World) (id : ℕ) (row : ThresholdRow) (rows : List ThresholdRow)
    → env.fault w.steps ≡ false
    → env.uuid_parse guid ≡ some id
    → select (live_threshold id) w.thresholds ≡ row ∷ rows
    → get_by_guid guid env w ≡ (ok (threshold_from_db env row), tick w)
unfolding get_by_guid get_threshold_row ◌>>=◌ or_raise on_error query_row ask
get-Found guid env w id row rows answers e f = ground (arith, answers, e, f)

abbrev Other : Err → Type 0
Other e = e ≢ threshold_not_found

status-Other : (A : Type 0) (e : Err) → Other e → status (not_found_or_internal {A = A} e) ≢ 404
status-Other A threshold_not_found n h = n refl
status-Other A _ n h = omega (arith, h)

ok≢err : {A : Type 0} {a : A} {e : Err} → ◌≢◌ {A = Result A} (ok a) (err e)
ok≢err h = cc h

publish-Other :
    (s : ThresholdService) (action device : String) → Raises Other (publish_update s action device)
unfolding publish_update
publish-Other s action device = Raises-if Other s.connected _ _ (search raises) (search raises)

update_row-Other : (id : ℕ) (t : Threshold) → Raises Other (update_row id t)
unfolding update_row exec_returning
update_row-Other id t = record {
  raised = λ env w x h. elim (List-cases (select (live_threshold id) w.thresholds)) [
    | inl n ↦ ground (arith, h, n)
    | inr (row, rows, f) ↦ ground (arith, h, f)
  ];
}

delete_row-Other : (id : ℕ) → Raises Other (delete_row id)
unfolding delete_row exec
delete_row-Other id = record { raised = λ env w x h. ground (arith, h) }

-- The answer to a call that fails with the error of a missing threshold exactly if it is missing.
answer-404_iff :
    {A B : Type 0} (guid : String) (m : M A) (on_ok : A → Reply B) (env : Env) (w : World)
    → ((a : A) → status (on_ok a) ≢ 404)
    → (Missing guid env w → (m env w).0 ≡ err threshold_not_found)
    → (Found guid env w → (x : Err) → (m env w).0 ≡ err x → Other x)
    → (status (answer m on_ok not_found_or_internal env w).0 ≡ 404) ↔ Missing guid env w
answer-404_iff guid m on_ok env w good missing found = (
  λ h. elim (lookup_cases guid env w) [
    | inl n ↦ n
    | inr f ↦ elim (Result-cases (m env w).0) [
      | inl (a, e) ↦ absurd (good a (rw e at h))
      | inr (x, e) ↦ absurd (status-Other _ x (found f x e) (rw e at h))
    ]
  ],
  λ n. rw (missing n) refl,
)

bind-Missing :
    {A : Type 0} (guid : String) (f : Threshold → M A) (env : Env) (w : World)
    → env.fault w.steps ≡ false
    → Missing guid env w
    → ((get_by_guid guid >>= f) env w).0 ≡ err threshold_not_found
unfolding ◌>>=◌ get_by_guid or_raise
bind-Missing guid f env w answers n = rw (get-Missing guid env w answers n) refl

-- What follows the lookup fails with another error.
bind-Found :
    {A : Type 0} (guid : String) (f : Threshold → M A) (env : Env) (w : World)
    → env.fault w.steps ≡ false
    → ((id : ℕ) (row : ThresholdRow) (x : Err)
        → env.uuid_parse guid ≡ some id
        → live_threshold id row ≡ true
        → (f (threshold_from_db env row) env (tick w)).0 ≡ err x
        → Other x)
    → Found guid env w
    → (x : Err) → ((get_by_guid guid >>= f) env w).0 ≡ err x
    → Other x
bind-Found guid f env w answers rest (id, row, rows, e, s) x h =
    rest id row x e (select-head (live_threshold id) w.thresholds row rows s) (
      ap (λ p. p.0)
        (sym (
          >>=-runs (get_by_guid guid) f env w (tick w) _
            (get-Found guid env w id row rows answers e s)))
      ∙ h)

get-Other :
    (guid : String) (env : Env) (w : World)
    → env.fault w.steps ≡ false
    → Found guid env w
    → (x : Err) → (get_by_guid guid env w).0 ≡ err x
    → Other x
get-Other guid env w answers (id, row, rows, e, s) x h =
    absurd (ok≢err (rw (get-Found guid env w id row rows answers e s) at h))

-- A GUID that parses is no missing threshold.
parsed-Other :
    {A : Type 0} (guid : String) (id : ℕ) (f : ℕ → M A) (env : Env) (w : World) (x : Err)
    → env.uuid_parse guid ≡ some id
    → Raises Other (f id)
    → ((parse_uuid guid threshold_not_found >>= f) env w).0 ≡ err x
    → Other x
unfolding ◌>>=◌ or_raise
parsed-Other guid id f env w x e r h = r.raised env w x (rw e at h)

>>=-Other :
    {A B : Type 0} (m : M A) (f : A → M B) (env : Env) (w : World) (x : Err)
    → ((y : Err) → (m env w).0 ≡ err y → Other y)
    → ((a : A) → Raises Other (f a))
    → ((m >>= f) env w).0 ≡ err x
    → Other x
unfolding ◌>>=◌
>>=-Other m f env w x hm hf h = elim (Result-cases (m env w).0) [
  | inl (a, e) ↦ (hf a).raised env (m env w).1 x (rw (e, ◌>>=◌) at h)
  | inr (y, e) ↦ subst Other (err-injective (rw (e, ◌>>=◌) at h)) (hm y e)
]

guid-parses :
    (env : Env) (id : ℕ) (row : ThresholdRow)
    → ((u : ℕ) → env.uuid_parse (env.uuid_string u) ≡ some u)
    → live_threshold id row ≡ true
    → (u : ℕ) × (env.uuid_parse (threshold_from_db env row).guid ≡ some u)
unfolding threshold_from_db live_threshold
guid-parses env id row back live = elim (Option-cases row.guid) [
  | inl e ↦ ground (arith, live, e)
  | inr (u, e) ↦ (u, rw e (back u))
]

update-Other :
    (s : ThresholdService) (guid : String) (req : UpdateThresholdRequest) (env : Env) (w : World)
    → ((u : ℕ) → env.uuid_parse (env.uuid_string u) ≡ some u)
    → env.fault w.steps ≡ false
    → Found guid env w
    → (x : Err) → (update_threshold s guid req env w).0 ≡ err x
    → Other x
unfolding update_threshold update_threshold_record
update-Other s guid req env w back answers = bind-Found guid _ env w answers (λ id row x e live h.
    let (u, parsed) = guid-parses env id row back live in
    >>=-Other (update_threshold_record _) _ env (tick w) x
      (λ y. parsed-Other _ u _ env (tick w) y parsed (search (raises, update_row-Other)))
      (λ t. search (raises, publish-Other)) h)

delete-Other :
    (s : ThresholdService) (guid : String) (env : Env) (w : World)
    → env.fault w.steps ≡ false
    → Found guid env w
    → (x : Err) → (delete_threshold s guid env w).0 ≡ err x
    → Other x
unfolding delete_threshold delete_threshold_record
delete-Other s guid env w answers = bind-Found guid _ env w answers (λ id row x e live h.
    >>=-Other (delete_threshold_record guid) _ env (tick w) x
      (λ y. parsed-Other guid id _ env (tick w) y e (delete_row-Other id))
      (λ _. publish-Other s "delete" _) h)

-- If the lookup of the threshold is answered, and uuid.Parse reads back what String writes: GET,
-- PATCH with a body that binds, and DELETE /threshold/:guid answer 404 exactly if the GUID does not
-- parse or no threshold that is not deleted has it.
pub handlers-404_iff :
    (s : ThresholdService) (guid : String) (req : UpdateThresholdRequest) (env : Env) (w : World)
    → ((u : ℕ) → env.uuid_parse (env.uuid_string u) ≡ some u)
    → env.fault w.steps ≡ false
    → ((status (handle_get guid env w).0 ≡ 404) ↔ Missing guid env w)
      × ((status (handle_update s guid (some req) env w).0 ≡ 404) ↔ Missing guid env w)
      × ((status (handle_delete s guid env w).0 ≡ 404) ↔ Missing guid env w)
unfolding handle_get handle_update handle_delete get_threshold update_threshold delete_threshold
handlers-404_iff s guid req env w back answers = (
  answer-404_iff guid (get_by_guid guid) _ env w (λ _. ok≢not_found)
      (get-Missing guid env w answers) (get-Other guid env w answers),
  answer-404_iff guid (update_threshold s guid req) _ env w (λ _. ok≢not_found)
      (bind-Missing guid _ env w answers) (update-Other s guid req env w back answers),
  answer-404_iff guid (delete_threshold s guid) _ env w (λ _. ok≢not_found)
      (bind-Missing guid _ env w answers) (delete-Other s guid env w answers),
)
