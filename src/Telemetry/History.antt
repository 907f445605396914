-- ===== src/Telemetry/History.antt =====
-- parseTelemetryHistory: the rows of all series, grouped by their time and sorted.
use mathlib.Core.List.{Perm}
use mathlib.Core.List.Perm
use be_aether_node.Base.{
  ℕ, String, ◌||◌, Option, none, some, List, [], ◌∷◌, ◌≡◌, refl, ap, ◌∙◌, arith, inl, inr, map,
  length, All, if◌then◌else◌, str_eq, Dict, lookup, insert, IsMap, insert-IsMap, subst,
  Option-cases, eq_iff, Bool-cases, ◌==◌,
}
use be_aether_node.Telemetry.{
  Value, nil, text, Time, zero_time, Formats, Series, cell, column_index,
}
use be_aether_node.Telemetry.Sorting.{
  exchange_sort, Ascending, exchange_sort-Ascending, exchange_sort-Perm,
}

pub record TelemetryRecord (F : Type 0) : Type 0 where
  pub timestamp : Time
  pub fields : Dict (Value F)

module _ {F : Type 0} (fmt : Formats F) where
  -- `toString`
  unfoldable pub to_string : Value F → String
  to_string nil = ""
  to_string (text s) = s
  to_string v = fmt.sprint v

  abbrev first_time : Option Time → Option Time → Time
  first_time (some t) _ = t
  first_time none (some t) = t
  first_time none none = zero_time

  -- The time of a cell: the zero time if it is no text or does not parse.
  unfoldable pub time_of : Option (Value F) → Time
  time_of (some (text ts)) = first_time (fmt.parse_nano ts) (fmt.parse_rfc3339 ts)
  time_of _ = zero_time

  abbrev name_of : Option (Value F) → String
  name_of none = ""
  name_of (some v) = to_string v

  abbrev value_of : Option (Value F) → Value F
  value_of none = nil
  value_of (some v) = v

  -- The record of a time, an empty one if there is none yet.
  abbrev record_or_new : Time → Option (TelemetryRecord F) → TelemetryRecord F
  record_or_new t none = record { timestamp = t; fields = [] }
  record_or_new t (some r) = r

  -- `if fieldName != "" { ... }`
  unfoldable pub set_field : String → Value F → TelemetryRecord F → TelemetryRecord F
  set_field name value r =
      if str_eq name "" then r else record r { fields = insert name value r.fields }

  unfoldable pub add_row :
      Dict ℕ → List (Value F) → Dict (TelemetryRecord F) → Dict (TelemetryRecord F)
  add_row index row groups =
      let t = time_of (cell index "timestamp" row) in
      let key = fmt.format_nano t in
      insert key
        (set_field (name_of (cell index "_field" row)) (value_of (cell index "_value" row))
          (record_or_new t (lookup key groups)))
        groups

  unfoldable pub add_rows :
      Dict ℕ → List (List (Value F)) → Dict (TelemetryRecord F) → Dict (TelemetryRecord F)
  add_rows index [] groups = groups
  add_rows index (row ∷ rows) groups = add_rows index rows (add_row index row groups)

  -- A series without columns or rows is left out.
  unfoldable pub add_series : List (Series F) → Dict (TelemetryRecord F) → Dict (TelemetryRecord F)
  add_series [] groups = groups
  add_series (s ∷ series) groups = add_series series (
      if length s.columns == 0 || length s.values == 0
      then groups
      else add_rows (column_index s.columns) s.values groups)

  -- Go ranges over a map in an order of its own, which `order` makes of the records.
  unfoldable pub parse_telemetry_history :
      (List (TelemetryRecord F) → List (TelemetryRecord F))
      → List (Series F)
      → List (TelemetryRecord F)
  parse_telemetry_history order series =
      let records = order (map (λ p. p.1) (add_series series [])) in
      exchange_sort (λ r. r.timestamp.instant) (length records) records

module _ {V : Type 0} (P : String × V → Type 0) where
  insert-All : (k : String) (v : V) (m : Dict V) → P (k, v) → All P m → All P (insert k v m)
  unfolding insert
  insert-All k v [] p _ = (p, tt)
  insert-All k v ((j, w) ∷ m) p (h, hs) = elim (Bool-cases (str_eq j k)) [
    | inl e ↦ rw e (p, hs)
    | inr e ↦ rw e (h, insert-All k v m p hs)
  ]

  lookup-All : (k : String) (m : Dict V) (v : V) → lookup k m ≡ some v → All P m → P (k, v)
  unfolding lookup
  lookup-All k [] v e _ = cc e
  lookup-All k ((j, w) ∷ m) v e (h, hs) = elim (Bool-cases (str_eq j k)) [
    | inl s ↦ subst P (cc ((eq_iff j k).0 s, rw s at e)) h
    | inr s ↦ lookup-All k m v (rw s at e) hs
  ]

module _ {F : Type 0} (fmt : Formats F) where
  -- A record stands under the text of its time.
  abbrev pub Keyed : String × TelemetryRecord F → Type 0
  Keyed p = fmt.format_nano p.1.timestamp ≡ p.0

  set_field-timestamp :
      (name : String) (value : Value F) (r : TelemetryRecord F)
      → (set_field fmt name value r).timestamp ≡ r.timestamp
  unfolding set_field
  set_field-timestamp name value r = ground arith

  record_or_new-Keyed :
      (t : Time) (groups : Dict (TelemetryRecord F))
      → All Keyed groups
      → Keyed (fmt.format_nano t, record_or_new fmt t (lookup (fmt.format_nano t) groups))
  record_or_new-Keyed t groups h = elim (Option-cases (lookup (fmt.format_nano t) groups)) [
    | inl e ↦ rw e refl
    | inr (r, e) ↦ rw e (lookup-All Keyed (fmt.format_nano t) groups r e h)
  ]

  abbrev IsGrouped : Dict (TelemetryRecord F) → Type 0
  IsGrouped groups = IsMap groups × All Keyed groups

  add_row-IsGrouped :
      (index : Dict ℕ) (row : List (Value F)) (groups : Dict (TelemetryRecord F))
      → IsGrouped groups
      → IsGrouped (add_row fmt index row groups)
  unfolding add_row
  add_row-IsGrouped index row groups (m, k) = (
    insert-IsMap _ _ groups m,
    insert-All Keyed _ _ groups
        (ap fmt.format_nano (set_field-timestamp _ _ _) ∙ record_or_new-Keyed _ groups k) k,
  )

  add_rows-IsGrouped :
      (index : Dict ℕ) (rows : List (List (Value F))) (groups : Dict (TelemetryRecord F))
      → IsGrouped groups
      → IsGrouped (add_rows fmt index rows groups)
  unfolding add_rows
  add_rows-IsGrouped index [] groups h = h
  add_rows-IsGrouped index (row ∷ rows) groups h =
      add_rows-IsGrouped index rows _ (add_row-IsGrouped index row groups h)

  add_series-IsGrouped :
      (series : List (Series F)) (groups : Dict (TelemetryRecord F))
      → IsGrouped groups
      → IsGrouped (add_series fmt series groups)
  unfolding add_series
  add_series-IsGrouped [] groups h = h
  add_series-IsGrouped (s ∷ series) groups h =
      elim (Bool-cases (length s.columns == 0 || length s.values == 0)) [
        | inl e ↦ rw e (add_series-IsGrouped series groups h)
        | inr e ↦ rw e (
            add_series-IsGrouped series _
              (add_rows-IsGrouped (column_index s.columns) s.values groups h))
      ]

  -- Whatever the order in which the map is read: the history ascends in time, it consists of the
  -- records of the groups, no two groups have one text of a time, and each record has the time of its
  -- group.
  pub parse_telemetry_history-Ascending :
      (order : List (TelemetryRecord F) → List (TelemetryRecord F)) (series : List (Series F))
      → ((rs : List (TelemetryRecord F)) → Perm (order rs) rs)
      → let history = parse_telemetry_history fmt order series in
        let groups = add_series fmt series [] in
        Ascending (λ r. r.timestamp.instant) history
        × Perm history (map (λ p. p.1) groups)
        × IsMap groups
        × All Keyed groups
  unfolding parse_telemetry_history
  parse_telemetry_history-Ascending order series perm =
      let groups = add_series fmt series [] in
      let records = order (map (λ p. p.1) groups) in
      (
        exchange_sort-Ascending (λ r. r.timestamp.instant) (length records) records (omega arith),
        Perm.trans (exchange_sort-Perm (λ r. r.timestamp.instant) (length records) records)
            (perm _),
        (add_series-IsGrouped series [] (tt, tt)).0,
        (add_series-IsGrouped series [] (tt, tt)).1,
      )
