-- ===== src/Alarm/Statistics.antt =====
-- What GetAlarmStats counts: the groups of the statement against the rows of the table.
use be_aether_node.Base.{
  ℕ, ◌+◌, String, false, Option, none, some, List, [], ◌∷◌, ◌≡◌, refl, ap, ◌∙◌, arith, inl, inr,
  Bool-cases, Option-cases, if◌then◌else◌, length, Dict, lookup, insert, IsMap, insert-IsMap,
  lookup-insert, str_eq, eq_iff,
}
use be_aether_node.Store.{Env, World, AlarmRow, ok, query, ask, pure, tick}
use be_aether_node.Store.Bind.{>>=-runs}
use be_aether_node.Store.Sql.{select, order_desc}
use be_aether_node.Alarm.{
  Stats, amount, group_by_status, count_by_status, add_groups, get_stats, in_stats, is_all,
  uuid_filter,
}
use be_aether_node.Alarm.Service.{get_alarm_stats}
use be_aether_node.Alarm.Groups.{
  total_of, or_old, add_groups-total, add_groups-active, add_groups-acknowledged,
  add_groups-resolved, order_desc-lookup, total_of-order_desc,
}

group_by_status-IsMap : (rows : List AlarmRow) → IsMap (group_by_status rows)
unfolding group_by_status
group_by_status-IsMap [] = tt
group_by_status-IsMap (row ∷ rows) =
    insert-IsMap row.status _ (group_by_status rows) (group_by_status-IsMap rows)

amount-group_by_status :
    (k : String) (rows : List AlarmRow)
    → amount k (group_by_status rows) ≡ length (select (λ r. str_eq r.status k) rows)
unfolding group_by_status select lookup
amount-group_by_status k [] = refl
amount-group_by_status k (row ∷ rows) = ground (
  arith,
  lookup-insert row.status k (amount row.status (group_by_status rows) + 1) (group_by_status rows),
  eq_iff row.status k,
  amount-group_by_status k rows,
)

total_of-insert :
    (k : String) (g : Dict ℕ) → total_of (insert k (amount k g + 1) g) ≡ total_of g + 1
unfolding insert lookup
total_of-insert k [] = refl
total_of-insert k (x ∷ g) = ground (arith, total_of-insert k g)

total_of-group_by_status : (rows : List AlarmRow) → total_of (group_by_status rows) ≡ length rows
unfolding group_by_status
total_of-group_by_status [] = refl
total_of-group_by_status (row ∷ rows) =
    omega (arith, total_of-insert row.status (group_by_status rows), total_of-group_by_status rows)

-- The device whose alarms GetAlarmStats counts, none for all devices.
abbrev pub device_of : Env → Option String → Option ℕ
device_of env none = none
device_of env (some s) = if is_all s then none else env.uuid_parse s

abbrev pub with_status : String → List AlarmRow → ℕ
with_status status rows = length (select (λ r. str_eq r.status status) rows)

abbrev zero_stats : Stats
zero_stats = record { total = 0; active = 0; acknowledged = 0; resolved = 0 }

counted-by :
    (k : String) (g : Dict ℕ) (rows : List AlarmRow)
    → lookup k g ≡ lookup k (group_by_status rows)
    → or_old 0 (lookup k g) ≡ with_status k rows
counted-by k g rows e = elim (Option-cases (lookup k (group_by_status rows))) [
  | inl n ↦ ground (arith, e, n, amount-group_by_status k rows)
  | inr (n, s) ↦ ground (arith, e, s, amount-group_by_status k rows)
]

counts_lem :
    (rank : String × ℕ → ℕ) (rows : List AlarmRow)
    → add_groups zero_stats (order_desc rank (group_by_status rows)) ≡ record {
      total = length rows;
      active = with_status "active" rows;
      acknowledged = with_status "acknowledged" rows;
      resolved = with_status "resolved" rows;
    }
counts_lem rank rows =
    let groups = order_desc rank (group_by_status rows) in
    let (ordered, same) =
      order_desc-lookup rank (group_by_status rows) (group_by_status-IsMap rows) in
    ground (
      arith,
      add_groups-total zero_stats groups,
      total_of-order_desc rank (group_by_status rows),
      total_of-group_by_status rows,
      add_groups-active zero_stats groups ordered,
      counted-by "active" groups rows (same "active"),
      add_groups-acknowledged zero_stats groups ordered,
      counted-by "acknowledged" groups rows (same "acknowledged"),
      add_groups-resolved zero_stats groups ordered,
      counted-by "resolved" groups rows (same "resolved"),
    )

filter-runs :
    (device_guid : Option String) (env : Env) (w : World)
    → uuid_filter device_guid env w ≡ (ok (device_of env device_guid), w)
unfolding pure ask
filter-runs none env w = refl
filter-runs (some s) env w = elim (Bool-cases (is_all s)) [ inl e ↦ rw e refl | inr e ↦ rw e refl ]

groups-run :
    (device : Option ℕ) (env : Env) (w : World)
    → env.fault w.steps ≡ false
    → count_by_status device env w ≡ (
      ok (
          order_desc
            (λ g. env.group_rank w.steps g.0)
            (group_by_status (select (in_stats device) w.alarms))),
      tick w,
    )
unfolding count_by_status query
groups-run device env w answers = rw answers refl

-- With the database answering, and whatever the order in which it returns the groups: GetAlarmStats
-- returns the number of alarms that are not deleted, of the device or of all, and of these the
-- numbers of the active, the acknowledged and the resolved ones.
pub get_alarm_stats-counts :
    (device_guid : Option String) (env : Env) (w : World)
    → env.fault w.steps ≡ false
    → let rows = select (in_stats (device_of env device_guid)) w.alarms in
      (get_alarm_stats device_guid env w).0
      ≡ ok (record {
        total = length rows;
        active = with_status "active" rows;
        acknowledged = with_status "acknowledged" rows;
        resolved = with_status "resolved" rows;
      })
unfolding get_alarm_stats get_stats pure
get_alarm_stats-counts device_guid env w answers =
    let device = device_of env device_guid in
    ap (λ p. p.0)
      (>>=-runs (uuid_filter device_guid) _ env w w device (filter-runs device_guid env w)
        ∙ >>=-runs (count_by_status device) _ env w (tick w) _ (groups-run device env w answers))
    ∙ ap ok (counts_lem (λ g. env.group_rank w.steps g.0) (select (in_stats device) w.alarms))
