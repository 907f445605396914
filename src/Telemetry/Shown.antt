-- ===== src/Telemetry/Shown.antt =====
-- Which records a page of the history shows: internal/handler/telemetry_handler.go.
use mathlib.Core.List.{Perm}
use be_aether_node.Base.{
  ◌⊎◌, inl, inr, ℕ, suc, zero, ◌≤◌, ◌-◌, String, true, ◌||◌, Option, none, some, List, [], ◌∷◌,
  ◌++◌, ltb, length, str_eq, ◌≡◌, ◌≢◌, ◌↔◌, refl, ap, arith, All, Bool-cases, subst,
}
use be_aether_node.Http.{Pagination}
use be_aether_node.Telemetry.{Time, Formats, Series}
use be_aether_node.Telemetry.Sorting.{Ascending}
use be_aether_node.Telemetry.History.{
  TelemetryRecord, parse_telemetry_history, parse_telemetry_history-Ascending,
}
use be_aether_node.Telemetry.Handler.{
  HistoryFilter, HistoryQuery, HistoryRequest, HistoryReply, http_error, page_of, take,
  history_page, reply_of, get_telemetry_history, history_between, handle_history,
  build_history_query, history_filter,
}

module _ {A : Type 0} where
  unfoldable drop : ℕ → List A → List A
  drop zero xs = xs
  drop (suc n) [] = []
  drop (suc n) (x ∷ xs) = drop n xs

  take-drop : (n : ℕ) (xs : List A) → take n xs ++ drop n xs ≡ xs
  unfolding take drop
  take-drop zero xs = refl
  take-drop (suc n) [] = refl
  take-drop (suc n) (x ∷ xs) = ap (λ ys. x ∷ ys) (take-drop n xs)

  drop-All : (P : A → Type 0) (n : ℕ) (xs : List A) → All P xs → All P (drop n xs)
  unfolding drop
  drop-All P zero xs h = h
  drop-All P (suc n) [] h = tt
  drop-All P (suc n) (x ∷ xs) (h, hs) = drop-All P n xs hs

  length-drop : (n : ℕ) (xs : List A) → length (drop n xs) ≡ length xs - n
  unfolding drop
  length-drop zero xs = omega arith
  length-drop (suc n) [] = omega arith
  length-drop (suc n) (x ∷ xs) = omega (arith, length-drop n xs)

  module _ (time : A → ℕ) where
    take-earlier :
        (n : ℕ) (xs : List A)
        → Ascending time xs
        → All (λ x. All (λ y. time x ≤ time y) (drop n xs)) (take n xs)
    unfolding take drop
    take-earlier zero xs h = tt
    take-earlier (suc n) [] h = tt
    take-earlier (suc n) (x ∷ xs) (h, hs) = (drop-All _ n xs h, take-earlier n xs hs)

    All-nil : (xs : List A) → All (λ x. All (λ y. time x ≤ time y) []) xs
    All-nil [] = tt
    All-nil (x ∷ xs) = (tt, All-nil xs)

append-nil : {A : Type 0} (xs : List A) → xs ++ [] ≡ xs
append-nil [] = refl
append-nil (x ∷ xs) = ap (λ ys. x ∷ ys) (append-nil xs)

some_left : {A : Type 0} (n : ℕ) (xs : List A) → ltb n (length xs) ≡ true → drop n xs ≢ []
some_left n xs h e = ground (arith, h, length-drop n xs, ap length e)

module _ {F : Type 0} where
  -- No shown record is later than a hidden one, and more are announced exactly if some are hidden.
  abbrev pub HidesLatest : List (TelemetryRecord F) → List (TelemetryRecord F) → Pagination → Type 0
  HidesLatest records shown p =
      (hidden : List (TelemetryRecord F)) × (shown ++ hidden ≡ records)
      × ((p.has_more ≡ true) ↔ (hidden ≢ []))
      × All (λ s. All (λ h. s.timestamp.instant ≤ h.timestamp.instant) hidden) shown

  abbrev Shown : List (TelemetryRecord F) → HistoryReply F → Type 0
  Shown records (http_error code message) = Unit
  Shown records (page_of shown p) = HidesLatest records shown p

  history_page-Shown :
      (page limit : ℕ) (records : List (TelemetryRecord F))
      → Ascending (λ r. r.timestamp.instant) records
      → Shown records (history_page page limit records)
  unfolding history_page
  history_page-Shown page limit records ascends = elim (Bool-cases (ltb limit (length records))) [
    | inl e ↦ rw e (
      drop limit records,
      take-drop limit records,
      (λ _. some_left limit records e, λ _. refl),
      take-earlier (λ r. r.timestamp.instant) limit records ascends,
    )
    | inr e ↦ rw e (
      [],
      append-nil records,
      (λ h. cc h, λ n. absurd (n refl)),
      All-nil (λ r. r.timestamp.instant) records,
    )
  ]

error≢page :
    {F : Type 0} {code : ℕ} {message : String} {shown : List (TelemetryRecord F)} {p : Pagination}
    → http_error code message ≢ page_of shown p
error≢page h = cc h

module _ {F : Type 0} (fmt : Formats F) where
  module _ (order : List (TelemetryRecord F) → List (TelemetryRecord F))
      (influx : HistoryQuery → String ⊎ List (Series F)) where
    -- The page is one of what InfluxDB answered to the query of a filter.
    abbrev pub IsPageOf : HistoryFilter → List (TelemetryRecord F) → Pagination → Type 0
    IsPageOf filter shown p =
        (series : List (Series F)) × (influx (build_history_query filter) ≡ inr series)
        × HidesLatest (parse_telemetry_history fmt order series) shown p

    module _ (perm : (rs : List (TelemetryRecord F)) → Perm (order rs) rs) where
      reply_of-IsPageOf :
          (page limit : ℕ) (filter : HistoryFilter) (shown : List (TelemetryRecord F))
          (p : Pagination)
          → reply_of fmt order influx page limit (get_telemetry_history fmt order influx filter)
            ≡ page_of shown p
          → IsPageOf filter shown p
      unfolding reply_of get_telemetry_history
      reply_of-IsPageOf page limit filter shown p =
          elim (influx (build_history_query filter))
              as (λ r.
                influx (build_history_query filter) ≡ r
                → reply_of fmt order influx page limit (elim r [
                  | inl e ↦ inl e
                  | inr series ↦ inr (parse_telemetry_history fmt order series)
                ])
                  ≡ page_of shown p
                → IsPageOf filter shown p) [
                  | inl e ↦ λ _ h. cc h
                  | inr series ↦ λ e h. (
                    series,
                    e,
                    subst (Shown (parse_telemetry_history fmt order series)) h (
                        history_page-Shown page limit _
                          (parse_telemetry_history-Ascending fmt order series perm).0),
                  )
                ]
            refl

      history_between-IsPageOf :
          (project device_sn : String) (req : HistoryRequest) (from to : Option Time)
          (shown : List (TelemetryRecord F)) (p : Pagination)
          → history_between fmt order influx project device_sn req from to ≡ page_of shown p
          → (start : Time) × (stop : Time) × (from ≡ some start)
            × (to ≡ some stop)
            × (start.instant ≤ stop.instant)
            × IsPageOf (history_filter project device_sn req start stop) shown p
      unfolding history_between
      history_between-IsPageOf project device_sn req none to shown p = λ h. cc h
      history_between-IsPageOf project device_sn req (some start) none shown p = λ h. cc h
      history_between-IsPageOf project device_sn req (some start) (some stop) shown p = λ h.
          elim (Bool-cases (ltb stop.instant start.instant)) [
            | inl e ↦ absurd (error≢page (rw e at h))
            | inr e ↦ (
              start,
              stop,
              refl,
              refl,
              ground (arith, e),
              reply_of-IsPageOf _ _ _ shown p (rw e at h),
            )
          ]

      -- Whatever the order in which the map is read: a page that POST /history/:device_sn answers is
      -- one of what InfluxDB answered for the times of the request, whichever order it asks for: the
      -- page and some hidden records are together the history in ascending time, HasMore tells exactly
      -- if a record is hidden, and no shown record is later than a hidden one.
      pub handle_history-hides_latest :
          (project device_sn : String) (req : HistoryRequest) (shown : List (TelemetryRecord F))
          (p : Pagination)
          → handle_history fmt order influx project device_sn (some req) ≡ page_of shown p
          → (start : Time) × (stop : Time) × (fmt.parse_rfc3339 req.start ≡ some start)
            × (fmt.parse_rfc3339 req.stop ≡ some stop)
            × (start.instant ≤ stop.instant)
            × IsPageOf (history_filter project device_sn req start stop) shown p
      unfolding handle_history
      handle_history-hides_latest project device_sn req shown p h =
          elim (Bool-cases (str_eq device_sn "")) [
            | inl e ↦ absurd (error≢page (rw e at h))
            | inr e ↦ elim (Bool-cases (str_eq req.start "" || str_eq req.stop "")) [
              | inl f ↦ absurd (error≢page (rw (e, f) at h))
              | inr f ↦ history_between-IsPageOf project device_sn req _ _ shown p (rw (e, f) at h)
            ]
          ]
