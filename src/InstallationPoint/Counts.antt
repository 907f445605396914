-- ===== src/InstallationPoint/Counts.antt =====
-- The number of devices of a location, after an installation point is created.
use be_aether_node.Base.{
  ℕ, suc, ◌+◌, String, Bool, true, some, List, ◌∷◌, ◌≡◌, refl, ap, ◌∙◌, sym, arith, inl, inr,
  length, Option-cases, Bool-cases, if◌then◌else◌, ◌==◌,
}
use be_aether_node.Store.{
  to_micros, Env, World, LocationRow, InstallationPointRow, ok, ask, or_raise, now, exec, pure,
  fresh_uuid, fresh_if_empty, query_row, on_error, or_nil, ◌>>=◌,
}
use be_aether_node.Store.Sql.{select, append_row}
use be_aether_node.Store.Laws.{List-cases, select-head, select-append_none, length-select-append}
use be_aether_node.Location.{
  Location, live_location, installed_at, counted, location_from_db, get_by_guid, get_location_row,
}
use be_aether_node.Location.Service.{get_location}
use be_aether_node.InstallationPoint.{InstallationPoint, create, insert_point, row_of}
use be_aether_node.InstallationPoint.Service.{
  CreateInstallationPointRequest, create_installation_point, new_point,
}

-- A location that was found is the first live row of its GUID, with its points counted.
get-found :
    (guid : String) (id : ℕ) (env : Env) (w : World) {l : Location}
    → env.uuid_parse guid ≡ some id
    → (get_location guid env w).0 ≡ ok l
    → (row : LocationRow) × (rows : List LocationRow) × (select (live_location id) w.locations
        ≡ row ∷ rows)
      × (l ≡ location_from_db env (counted w row))
unfolding get_location get_by_guid get_location_row on_error query_row or_raise ask ◌>>=◌
get-found guid id env w parsed h = elim (List-cases (select (live_location id) w.locations)) [
  | inl e ↦ ground (arith, h, e, parsed)
  | inr (row, rows, e) ↦ (row, rows, e, ground (arith, h, e, parsed))
]

create-adds :
    (req : CreateInstallationPointRequest) (env : Env) (w : World) {p : InstallationPoint}
    → (create_installation_point req env w).0 ≡ ok p
    → let w' = (create_installation_point req env w).1 in
      (guid : ℕ) × (t : ℕ) × (w'.locations ≡ w.locations)
      × (w'.installation_points
          ≡ append_row
              (row_of guid
                (or_nil (env.uuid_parse req.device_guid))
                (or_nil (env.uuid_parse req.location_guid))
                (some (to_micros t))
                t
                (new_point req))
              w.installation_points)
unfolding create_installation_point create insert_point fresh_if_empty fresh_uuid ask now exec pure
    ◌>>=◌
create-adds req env w h = (
  or_nil (env.uuid_parse (env.uuid_string (env.uuid_new w.steps))),
  env.clock (suc w.steps),
  ground (arith, h),
  ground (arith, h),
)

abbrev pub with_more : Location → ℕ → Location
with_more l k = record l { device_count = l.device_count + k }

abbrev pub one_if : Bool → ℕ
one_if b = if b then 1 else 0

installed-new :
    (id l guid device t : ℕ) (ip : InstallationPoint) (row : LocationRow)
    → live_location id row ≡ true
    → installed_at row.guid (row_of guid device l (some (to_micros t)) t ip) ≡ (l == id)
unfolding installed_at live_location
installed-new id l guid device t ip row live = elim (Option-cases row.guid) [
  | inl e ↦ ground (arith, live, e)
  | inr (g, e) ↦ ground (arith, live, e)
]

-- The new point is counted at its own location alone.
counted-append :
    (id l guid device t : ℕ) (ip : InstallationPoint) (row : LocationRow)
    (points : List InstallationPointRow)
    → live_location id row ≡ true
    → length (
        select
          (installed_at row.guid)
          (append_row (row_of guid device l (some (to_micros t)) t ip) points))
      ≡ length (select (installed_at row.guid) points) + one_if (l == id)
counted-append id l guid device t ip row points live = elim (Bool-cases (l == id)) [
  | inl e ↦ rw e (
      length-select-append (installed_at row.guid) _ points
        (installed-new id l guid device t ip row live ∙ e)
      ∙ omega arith)
  | inr e ↦ rw e (
      ap length (
        select-append_none (installed_at row.guid) _ points
          (installed-new id l guid device t ip row live ∙ e))
      ∙ omega arith)
]

counted-changed :
    (env : Env) (w w' : World) (row : LocationRow) (k : ℕ)
    → length (select (installed_at row.guid) w'.installation_points)
      ≡ length (select (installed_at row.guid) w.installation_points) + k
    → location_from_db env (counted w' row) ≡ with_more (location_from_db env (counted w row)) k
unfolding location_from_db counted
counted-changed env w w' row k h = rw h refl

same-head :
    {xs ys rows rows' : List LocationRow} {row row' : LocationRow}
    → xs ≡ row ∷ rows
    → ys ≡ row' ∷ rows'
    → ys ≡ xs
    → row' ≡ row
same-head h h' e = cc (h, h', e)

-- After CreateInstallationPoint has returned, GetLocation of the point's location counts one device
-- more than before, and GetLocation of any other location returns what it returned before.
pub create_point-get_location :
    (req : CreateInstallationPointRequest) (guid : String) (id : ℕ) (env : Env) (w : World)
    (p : InstallationPoint) (before after : Location)
    → env.uuid_parse guid ≡ some id
    → (get_location guid env w).0 ≡ ok before
    → (create_installation_point req env w).0 ≡ ok p
    → (get_location guid env (create_installation_point req env w).1).0 ≡ ok after
    → after ≡ with_more before (one_if (or_nil (env.uuid_parse req.location_guid) == id))
create_point-get_location req guid id env w p before after parsed got created got' =
    let (g, t, locations, points) = create-adds req env w created in
    let (row, rows, found, is_before) = get-found guid id env w parsed got in
    let (row', rows', found', is_after) = get-found guid id env _ parsed got' in
    let new_row =
      row_of g (or_nil (env.uuid_parse req.device_guid)) (or_nil (env.uuid_parse req.location_guid))
        (some (to_micros t)) t (new_point req) in
    is_after
    ∙ ap (λ r. location_from_db env (counted (create_installation_point req env w).1 r))
        (same-head found found' (ap (select (live_location id)) locations))
    ∙ counted-changed env w (create_installation_point req env w).1 row _ (
        ap (λ ps. length (select (installed_at row.guid) ps)) points
        ∙ counted-append id (or_nil (env.uuid_parse req.location_guid)) g _ t (new_point req) row
            w.installation_points (select-head (live_location id) w.locations row rows found))
    ∙ ap (λ l. with_more l (one_if (or_nil (env.uuid_parse req.location_guid) == id)))
        (sym is_before)
