-- ===== src/Alarm/Lifecycle.antt =====
-- The states of an alarm and the times that they leave, over any calls of internal/service/alarm.
use be_aether_node.Base.{
  none≢some, ℕ, String, true, false, Option, none, some, List, [], ◌∷◌, ◌≡◌, refl, All, str_eq, inl,
  inr, subst,
}
use be_aether_node.Store.{Env, World, AlarmRow, tick}
use be_aether_node.Store.Sql.{select}
use be_aether_node.Store.Laws.{List-cases}
use be_aether_node.Store.Keeps.{
  Keeps, Keeps->>=, Keeps-exec_returning, All-append_row, All-update, keeps,
}
use be_aether_node.Alarm.{
  Alarm, create, insert_alarm, new_row, get_by_guid, get_alarm_row, update_status,
  update_status_row, set_status, live_alarm, is_status, parse_pointer,
}
use be_aether_node.Alarm.Service.{
  CreateAlarmRequest, new_alarm, create_alarm, get_alarm, acknowledge_alarm, resolve_alarm,
}

-- The calls of AlarmService that change alarms, and one that reads.
pub data Call : Type 0 where
  create_call : CreateAlarmRequest → Call
  acknowledge_call : String → String → Call
  resolve_call : String → Call
  get_call : String → Call

-- The world that a call leaves, with or without an error.
unfoldable pub run_call : Env → Call → World → World
run_call env (create_call req) w = (create_alarm req env w).1
run_call env (acknowledge_call guid user) w = (acknowledge_alarm guid user env w).1
run_call env (resolve_call guid) w = (resolve_alarm guid env w).1
run_call env (get_call guid) w = (get_alarm guid env w).1

unfoldable pub run_calls : Env → List Call → World → World
run_calls env [] w = w
run_calls env (c ∷ cs) w = run_calls env cs (run_call env c w)

-- A call that creates an alarm creates an active one.
abbrev pub Opens : Call → Type 0
Opens (create_call req) = req.status ≡ "active"
Opens _ = Unit

-- The status is one of three; an active alarm has no time of the other two, an acknowledged and a
-- resolved one has its time; and there is no user without a time of acknowledgement.
pub record IsStamped (row : AlarmRow) : Type 0 where
  pub known : is_status row.status ≡ true
  pub active :
      str_eq row.status "active" ≡ true → (row.acknowledged_at ≡ none) × (row.resolved_at ≡ none)
  pub acknowledged :
      str_eq row.status "acknowledged" ≡ true → (t : ℕ) × (row.acknowledged_at ≡ some t)
  pub resolved : str_eq row.status "resolved" ≡ true → (t : ℕ) × (row.resolved_at ≡ some t)
  pub by_whom : row.acknowledged_at ≡ none → row.acknowledged_by ≡ none

-- An active status is none of the other two.
apart : (t : String) {s : String} → s ≡ "active" → str_eq s t ≡ true → str_eq "active" t ≡ false → ⊥
apart t e h n = cc (rw e at h, n)

written :
    {A : Type 0} {a b : A} {w w' : World}
    → ◌≡◌ {A = Option (A × World)} (some (a, w)) (some (b, w'))
    → w ≡ w'
written h = cc h

new_row-IsStamped :
    (device : ℕ) (threshold : Option ℕ) (a : Alarm) (env : Env) (w : World)
    → a.status ≡ "active"
    → IsStamped (new_row device threshold a env w)
unfolding is_status
new_row-IsStamped device threshold a env w e = record {
  known = rw e refl;
  active = λ _. (refl, refl);
  acknowledged = λ h. absurd (apart "acknowledged" e h refl);
  resolved = λ h. absurd (apart "resolved" e h refl);
  by_whom = λ _. refl;
}

acknowledged-IsStamped :
    (user : Option ℕ) (now : ℕ) (row : AlarmRow)
    → IsStamped row
    → IsStamped (set_status "acknowledged" user now row)
unfolding set_status is_status
acknowledged-IsStamped user now row s = record {
  known = refl;
  active = λ h. cc h;
  acknowledged = λ _. (now, refl);
  resolved = λ h. cc h;
  by_whom = λ h. cc h;
}

resolved-IsStamped :
    (user : Option ℕ) (now : ℕ) (row : AlarmRow)
    → IsStamped row
    → IsStamped (set_status "resolved" user now row)
unfolding set_status is_status
resolved-IsStamped user now row s = record {
  known = refl;
  active = λ h. cc h;
  acknowledged = λ h. cc h;
  resolved = λ _. (now, refl);
  by_whom = s.by_whom;
}

abbrev pub AllStamped : World → Type 0
AllStamped w = All IsStamped w.alarms

ignores : (w : World) → AllStamped w → AllStamped (tick w)
ignores w p = p

module _ (env : Env) where
  insert-Keeps :
      (device : ℕ) (threshold : Option ℕ) (a : Alarm)
      → a.status ≡ "active"
      → Keeps env AllStamped (insert_alarm device threshold a)
  unfolding insert_alarm
  insert-Keeps device threshold a e =
      Keeps-exec_returning env AllStamped ignores _ _ (λ w p row w' h.
        subst AllStamped (written h)
          (All-append_row IsStamped _ w.alarms (new_row-IsStamped device threshold a env w e) p))

  pointer-Keeps : (p : Option String) → Keeps env AllStamped (parse_pointer p)
  pointer-Keeps none = search keeps
  pointer-Keeps (some s) = search keeps

  create-Keeps : (a : Alarm) → a.status ≡ "active" → Keeps env AllStamped (create a)
  unfolding create
  create-Keeps a e = search (keeps, pointer-Keeps, insert-Keeps, e)

  update_row-Keeps :
      (id : ℕ) (status : String) (user : Option ℕ)
      → ((now : ℕ) (row : AlarmRow) → IsStamped row → IsStamped (set_status status user now row))
      → Keeps env AllStamped (update_status_row id status user)
  unfolding update_status_row
  update_row-Keeps id status user step =
      Keeps-exec_returning env AllStamped ignores _ _ (λ w p row w' h.
        elim (List-cases (select (live_alarm id) w.alarms)) [
          | inl e ↦ absurd (none≢some (rw e at h))
          | inr (r, rows, e) ↦
              subst AllStamped (written (rw e at h))
                (All-update IsStamped (live_alarm id) _ w.alarms (step (env.db_now w.steps)) p)
        ])

  get-Keeps : (guid : String) → Keeps env AllStamped (get_by_guid guid)
  unfolding get_by_guid get_alarm_row
  get-Keeps guid = search (keeps, ignores)

  update-Keeps :
      (guid status : String) (user : Option String)
      → ((u : Option ℕ) (now : ℕ) (row : AlarmRow)
          → IsStamped row
          → IsStamped (set_status status u now row))
      → Keeps env AllStamped (update_status guid status user)
  unfolding update_status
  update-Keeps guid status user step = Keeps->>= env AllStamped (search keeps) (λ id _.
      Keeps->>= env AllStamped (pointer-Keeps user) (λ u _.
        Keeps->>= env AllStamped (update_row-Keeps id status u (step u)) (λ row _. search keeps)))

  run_call-AllStamped :
      (c : Call) (w : World) → Opens c → AllStamped w → AllStamped (run_call env c w)
  unfolding run_call create_alarm acknowledge_alarm resolve_alarm get_alarm
  run_call-AllStamped (create_call req) w opens = (create-Keeps (new_alarm req) opens).kept w
  run_call-AllStamped (acknowledge_call guid user) w _ =
      (update-Keeps guid "acknowledged" (some user) acknowledged-IsStamped).kept w
  run_call-AllStamped (resolve_call guid) w _ =
      (update-Keeps guid "resolved" none resolved-IsStamped).kept w
  run_call-AllStamped (get_call guid) w _ = (get-Keeps guid).kept w

-- Whatever calls of the service follow, if those that create an alarm create an active one: alarms
-- whose times fit their states keep doing so, whether the calls return or fail.
pub run_calls-AllStamped :
    (env : Env) (cs : List Call) (w : World)
    → All Opens cs
    → AllStamped w
    → AllStamped (run_calls env cs w)
unfolding run_calls
run_calls-AllStamped env [] w _ p = p
run_calls-AllStamped env (c ∷ cs) w (o, os) p =
    run_calls-AllStamped env cs (run_call env c w) os (run_call-AllStamped env c w o p)
