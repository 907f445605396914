-- ===== src/Telemetry/Sightings.antt =====
-- The sightings of devices in what InfluxDB answers, and what the map of parseHealthResult keeps of them.
use mathlib.Core.List.{append-nil, append_assoc}
use be_aether_node.Base.{
  ℕ, ◌||◌, String, Bool, true, false, Option, none, some, List, [], ◌∷◌, ◌++◌, length, ◌≡◌, refl,
  sym, ap, ◌∙◌, subst, arith, inl, inr, Bool-cases, str_eq, eq_iff, ltb, ◌==◌, Dict, lookup, insert,
  lookup-insert, lookup-insert_self, IsMap, insert-IsMap, if◌then◌else◌,
}
use be_aether_node.Base.Int.{ℤ}
use be_aether_node.Telemetry.{Value, Time, Formats, Series, cell, column_index}
use be_aether_node.Telemetry.Dashboard.{HealthData}
use be_aether_node.Telemetry.Latest.{
  name_of, seen_at, later_of, set_health_field, health_row, health_or_new, add_health_row,
  add_health_rows, add_health_series,
}

abbrev greater : ℕ → ℕ → ℕ
greater a b = if ltb a b then b else a

-- The latest instant at which the device was seen, 0 if it never was.
abbrev pub newest : String → List (String × ℕ) → ℕ
newest sn [] = 0
newest sn ((k, t) ∷ rest) = if str_eq k sn then greater t (newest sn rest) else newest sn rest

newest-append :
    (sn : String) (xs ys : List (String × ℕ))
    → newest sn (xs ++ ys) ≡ greater (newest sn xs) (newest sn ys)
newest-append sn [] ys = ground arith
newest-append sn ((k, t) ∷ xs) ys = ground (arith, newest-append sn xs ys)

abbrev instant_of : Option Time → ℕ
instant_of none = 0
instant_of (some t) = t.instant

later_of-instant :
    (o : Option Time) (old : Time) → (later_of o old).instant ≡ greater old.instant (instant_of o)
unfolding later_of
later_of-instant none old = ground arith
later_of-instant (some t) old = ground arith

module _ {F : Type 0} (fmt : Formats F) where
  -- What a row says: its device, and the instant of its timestamp or 0.
  abbrev pub sighting : Dict ℕ → List (Value F) → List (String × ℕ)
  sighting index row =
      let sn = name_of fmt (cell index "device_sn" row) in
      if str_eq sn "" then [] else (sn, instant_of (seen_at fmt (cell index "timestamp" row))) ∷ []

  abbrev pub row_sightings : Dict ℕ → List (List (Value F)) → List (String × ℕ)
  row_sightings index [] = []
  row_sightings index (row ∷ rows) = sighting index row ++ row_sightings index rows

  abbrev pub sightings : List (Series F) → List (String × ℕ)
  sightings [] = []
  sightings (s ∷ series) =
      (if length s.columns == 0 || length s.values == 0
        then []
        else row_sightings (column_index s.columns) s.values)
      ++ sightings series

module _ {F : Type 0} (fmt : Formats F) (zero : F) (of_int : ℤ → F) where
  set_health_field-same :
      (name : String) (value : Value F) (dev : HealthData F)
      → ((set_health_field fmt zero of_int name value dev).last_seen ≡ dev.last_seen)
        × ((set_health_field fmt zero of_int name value dev).device_sn ≡ dev.device_sn)
  unfolding set_health_field
  set_health_field-same name value dev = (ground arith, ground arith)

  health_row-same :
      (index : Dict ℕ) (row : List (Value F)) (dev : HealthData F)
      → ((health_row fmt zero of_int index row dev).last_seen.instant
          ≡ greater dev.last_seen.instant (instant_of (seen_at fmt (cell index "timestamp" row))))
        × ((health_row fmt zero of_int index row dev).device_sn ≡ dev.device_sn)
  unfolding health_row
  health_row-same index row dev = (
    later_of-instant (seen_at fmt (cell index "timestamp" row)) _
        ∙ ap (λ t. greater t.instant (instant_of (seen_at fmt (cell index "timestamp" row))))
            (set_health_field-same _ _ _).0,
    (set_health_field-same _ _ _).1,
  )

  -- What the map says of a device, once the sightings have been read.
  abbrev pub Recorded : List (String × ℕ) → String → Option (HealthData F) → Type 0
  Recorded done sn none = newest sn done ≡ 0
  Recorded done sn (some dev) = (dev.device_sn ≡ sn) × (dev.last_seen.instant ≡ newest sn done)

  pub record HasRead (done : List (String × ℕ)) (m : Dict (HealthData F)) : Type 0 where
    pub recorded : (sn : String) → Recorded done sn (lookup sn m)
    pub is_map : IsMap m

  found-Recorded :
      (done : List (String × ℕ)) (sn : String) (o : Option (HealthData F))
      → Recorded done sn o
      → ((health_or_new fmt zero of_int sn o).device_sn ≡ sn)
        × ((health_or_new fmt zero of_int sn o).last_seen.instant ≡ newest sn done)
  found-Recorded done sn none h = (refl, sym h)
  found-Recorded done sn (some dev) h = h

  -- One more sighting of the device.
  newest-once :
      (sn : String) (t : ℕ) (done : List (String × ℕ))
      → newest sn (done ++ ((sn, t) ∷ [])) ≡ greater (newest sn done) t
  newest-once sn t done =
      ground (arith, newest-append sn done ((sn, t) ∷ []), (eq_iff sn sn).1 refl)

  newest-other :
      (k sn : String) (t : ℕ) (done : List (String × ℕ))
      → str_eq k sn ≡ false
      → newest sn (done ++ ((k, t) ∷ [])) ≡ newest sn done
  newest-other k sn t done b = ground (arith, newest-append sn done ((k, t) ∷ []), b)

  Recorded-other :
      (k sn : String) (t : ℕ) (done : List (String × ℕ)) (o : Option (HealthData F))
      → str_eq k sn ≡ false
      → Recorded done sn o
      → Recorded (done ++ ((k, t) ∷ [])) sn o
  Recorded-other k sn t done none b h = newest-other k sn t done b ∙ h
  Recorded-other k sn t done (some dev) b (same, seen) =
      (same, seen ∙ sym (newest-other k sn t done b))

  insert-HasRead :
      (index : Dict ℕ) (row : List (Value F)) (sn : String) (done : List (String × ℕ))
      (m : Dict (HealthData F))
      → HasRead done m
      → HasRead (done ++ ((sn, instant_of (seen_at fmt (cell index "timestamp" row))) ∷ [])) (
          insert sn
            (health_row fmt zero of_int index row (health_or_new fmt zero of_int sn (lookup sn m)))
            m)
  insert-HasRead index row sn done m h =
      let old = health_or_new fmt zero of_int sn (lookup sn m) in
      let t = instant_of (seen_at fmt (cell index "timestamp" row)) in
      let (same, seen) = found-Recorded done sn (lookup sn m) (h.recorded sn) in
      record {
        recorded = λ k. elim (Bool-cases (str_eq sn k)) [
          | inl b ↦ rw (← (eq_iff sn k).0 b) (
              subst (Recorded (done ++ ((sn, t) ∷ [])) sn)
                (sym (lookup-insert_self sn (health_row fmt zero of_int index row old) m))
                (
                  (health_row-same index row old).1 ∙ same,
                  (health_row-same index row old).0
                      ∙ ap (λ n. greater n t) seen
                      ∙ sym (newest-once sn t done),
                ))
          | inr b ↦
              subst (Recorded (done ++ ((sn, t) ∷ [])) k)
                (sym (lookup-insert sn k (health_row fmt zero of_int index row old) m ∙ rw b refl))
                (Recorded-other sn k t done (lookup k m) b (h.recorded k))
        ];
        is_map = insert-IsMap sn _ m h.is_map;
      }

  row-HasRead :
      (index : Dict ℕ) (row : List (Value F)) (done : List (String × ℕ)) (m : Dict (HealthData F))
      → HasRead done m
      → HasRead (done ++ sighting fmt index row) (add_health_row fmt zero of_int index row m)
  unfolding add_health_row
  row-HasRead index row done m h =
      elim (Bool-cases (str_eq (name_of fmt (cell index "device_sn" row)) "")) [
        | inl b ↦ rw (b, append-nil done) h
        | inr b ↦ rw b (insert-HasRead index row _ done m h)
      ]

  rows-HasRead :
      (index : Dict ℕ) (rows : List (List (Value F))) (done : List (String × ℕ))
      (m : Dict (HealthData F))
      → HasRead done m
      → HasRead
          (done ++ row_sightings fmt index rows)
          (add_health_rows fmt zero of_int index rows m)
  unfolding add_health_rows
  rows-HasRead index [] done m h = rw (append-nil done) h
  rows-HasRead index (row ∷ rows) done m h =
      rw (← append_assoc done (sighting fmt index row) (row_sightings fmt index rows)) (
        rows-HasRead index rows (done ++ sighting fmt index row) _ (row-HasRead index row done m h))

  one_series-HasRead :
      (s : Series F) (done : List (String × ℕ)) (m : Dict (HealthData F)) (b : Bool)
      → HasRead done m
      → HasRead
          (done ++ (if b then [] else row_sightings fmt (column_index s.columns) s.values))
          (if b then m else add_health_rows fmt zero of_int (column_index s.columns) s.values m)
  one_series-HasRead s done m true h = rw (append-nil done) h
  one_series-HasRead s done m false h = rows-HasRead (column_index s.columns) s.values done m h

  pub series-HasRead :
      (series : List (Series F)) (done : List (String × ℕ)) (m : Dict (HealthData F))
      → HasRead done m
      → HasRead (done ++ sightings fmt series) (add_health_series fmt zero of_int series m)
  unfolding add_health_series
  series-HasRead [] done m h = rw (append-nil done) h
  series-HasRead (s ∷ series) done m h =
      rw (← append_assoc done _ (sightings fmt series))
        (series-HasRead series _ _ (one_series-HasRead s done m _ h))
