-- ===== src/Threshold/Events.antt =====
-- When the threshold service publishes a message.
use mathlib.Core.List.{append-nil}
use be_aether_node.Base.{
  arith, ℕ, String, List, [], ◌∷◌, ◌≡◌, refl, sym, ◌∙◌, inl, inr, Bool-cases, if◌then◌else◌,
}
use be_aether_node.Store.{
  Env, World, Event, threshold_updated, emit, pure, now, ◌>>=◌, exec_returning, tick,
}
use be_aether_node.Store.Sql.{select}
use be_aether_node.Store.Laws.{List-cases}
use be_aether_node.Store.Keeps.{Keeps, Keeps-exec, keeps}
use be_aether_node.Store.Announces.{HasEvents, HasEvents-ignores, Told, Announces, Announces->>=}
use be_aether_node.Threshold.{
  Threshold, create, insert_threshold, get_by_guid, get_threshold_row, update_threshold_record,
  update_row, delete_threshold_record, delete_row, live_threshold,
}
use be_aether_node.Threshold.Service.{
  ThresholdService, CreateThresholdRequest, UpdateThresholdRequest, create_threshold,
  update_threshold, delete_threshold, publish_update,
}

-- One message with the action and the device, where there is a connection.
abbrev pub Published : ThresholdService → String → String → List Event → Type 0
Published s action device new =
    (t : ℕ) × (new ≡ (if s.connected then threshold_updated action device t ∷ [] else []))

-- The message of a threshold that came back.
abbrev pub ToldOf : ThresholdService → String → Threshold → List Event → Type 0
ToldOf s action t new = Published s action t.device_guid new

-- The message of some device.
abbrev pub ToldDeleted : ThresholdService → Unit {0} → List Event → Type 0
ToldDeleted s _ new = (device : String) × Published s "delete" device new

module _ (env : Env) (es : List Event) where
  abbrev P : World → Type 0
  P = HasEvents es

  ignores : (w : World) → P w → P (tick w)
  ignores = HasEvents-ignores es

  insert-Keeps : (device : ℕ) (t : Threshold) → Keeps env P (insert_threshold device t)
  unfolding insert_threshold exec_returning
  insert-Keeps device t = record { kept = λ w p. ground (arith, p) }

  create-Keeps : (t : Threshold) → Keeps env P (create t)
  unfolding create
  create-Keeps t = search (keeps, insert-Keeps)

  get-Keeps : (guid : String) → Keeps env P (get_by_guid guid)
  unfolding get_by_guid get_threshold_row
  get-Keeps guid = search (keeps, ignores)

  update_row-Keeps : (id : ℕ) (t : Threshold) → Keeps env P (update_row id t)
  unfolding update_row exec_returning
  update_row-Keeps id t = record {
    kept = λ w p. elim (List-cases (select (live_threshold id) w.thresholds)) [
      | inl e ↦ rw e (ground (arith, p))
      | inr (row, rows, e) ↦ rw e (ground (arith, p))
    ];
  }

  update_record-Keeps : (t : Threshold) → Keeps env P (update_threshold_record t)
  unfolding update_threshold_record
  update_record-Keeps t = search (keeps, update_row-Keeps)

  delete_row-Keeps : (id : ℕ) → Keeps env P (delete_row id)
  unfolding delete_row
  delete_row-Keeps id = record { kept = λ w p. (Keeps-exec env P ignores _ _ (λ w h. h)).kept w p }

  delete_record-Keeps : (guid : String) → Keeps env P (delete_threshold_record guid)
  unfolding delete_threshold_record
  delete_record-Keeps guid = search (keeps, delete_row-Keeps)

  publish-Announces :
      (s : ThresholdService) (action : String) (t : Threshold)
      → Announces env es (ToldOf s action) (publish_update s action t.device_guid >>= λ _. pure t)
  unfolding publish_update ◌>>=◌ pure now emit
  publish-Announces s action t = record {
    announced = λ w p. elim (Bool-cases s.connected) [
      | inl e ↦ rw e (
        threshold_updated action t.device_guid (env.clock w.steps) ∷ [],
        rw p refl,
        (env.clock w.steps, refl),
      )
      | inr e ↦ rw e ([], p ∙ sym (append-nil es), (0, refl))
    ];
  }

  publish_last-Announces :
      (s : ThresholdService) (device : String)
      → Announces env es (ToldDeleted s) (publish_update s "delete" device)
  unfolding publish_update ◌>>=◌ pure now emit
  publish_last-Announces s device = record {
    announced = λ w p. elim (Bool-cases s.connected) [
      | inl e ↦ rw e (
        threshold_updated "delete" device (env.clock w.steps) ∷ [],
        rw p refl,
        (device, (env.clock w.steps, refl)),
      )
      | inr e ↦ rw e ([], p ∙ sym (append-nil es), (device, (0, refl)))
    ];
  }

  create-Announces :
      (s : ThresholdService) (req : CreateThresholdRequest)
      → Announces env es (ToldOf s "create") (create_threshold s req)
  unfolding create_threshold
  create-Announces s req = search (Announces->>=, publish-Announces, create-Keeps)

  update-Announces :
      (s : ThresholdService) (guid : String) (req : UpdateThresholdRequest)
      → Announces env es (ToldOf s "update") (update_threshold s guid req)
  unfolding update_threshold
  update-Announces s guid req =
      search (Announces->>=, publish-Announces, get-Keeps, update_record-Keeps)

  delete-Announces :
      (s : ThresholdService) (guid : String)
      → Announces env es (ToldDeleted s) (delete_threshold s guid)
  unfolding delete_threshold
  delete-Announces s guid =
      search (Announces->>=, publish_last-Announces, get-Keeps, delete_record-Keeps)

-- CreateThreshold and UpdateThreshold publish one message with their action and the device of the
-- threshold that they return, DeleteThreshold one with its action and a device; a call that fails
-- publishes nothing, nor does one without a connection.
pub threshold_changes_publish :
    (s : ThresholdService) (create_req : CreateThresholdRequest) (guid : String)
    (update_req : UpdateThresholdRequest) (env : Env) (w : World)
    → Told (ToldOf s "create") w.events (create_threshold s create_req env w)
      × Told (ToldOf s "update") w.events (update_threshold s guid update_req env w)
      × Told (ToldDeleted s) w.events (delete_threshold s guid env w)
threshold_changes_publish s create_req guid update_req env w = (
  (create-Announces env w.events s create_req).announced w refl,
  (update-Announces env w.events s guid update_req).announced w refl,
  (delete-Announces env w.events s guid).announced w refl,
)
