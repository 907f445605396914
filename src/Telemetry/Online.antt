-- ===== src/Telemetry/Online.antt =====
-- When parseHealthResult finds a device online.
use mathlib.Core.List.{Perm}
use mathlib.Core.List.Perm
use be_aether_node.Base.{
  All-values, All-map, ℕ, ◌+◌, ◌<◌, ◌≤◌, String, some, List, [], map, ◌≡◌, ◌≢◌, refl, subst, arith,
  inl, inr, ◌↔◌, Bool-cases, All, ltb, ◌==◌, lookup,
}
use be_aether_node.Base.Int.{ℤ}
use be_aether_node.Telemetry.{Time, Formats, Series}
use be_aether_node.Telemetry.Dashboard.{HealthData}
use be_aether_node.Telemetry.Latest.{
  add_health_series, status_at, offline_threshold, parse_health_result,
}
use be_aether_node.Telemetry.Sightings.{newest, sightings, Recorded, HasRead, series-HasRead}

apart : ◌≢◌ {A = String} "offline" "online"
apart h = cc h

status_at-online :
    (now : ℕ) (t : Time)
    → (status_at now t ≡ "online") ↔ ((0 < t.instant) × (now ≤ t.instant + offline_threshold))
unfolding status_at
status_at-online now t = elim (Bool-cases (t.instant == 0)) [
  | inl e ↦ rw e (λ h. absurd (apart h), λ p. ground (arith, e, p))
  | inr e ↦ elim (Bool-cases (ltb (t.instant + offline_threshold) now)) [
    | inl b ↦ rw (e, b) (λ h. absurd (apart h), λ p. ground (arith, b, p))
    | inr b ↦ rw (e, b) (λ _. (ground (arith, e), ground (arith, b)), λ _. refl)
  ]
]

module _ {F : Type 0} (fmt : Formats F) (zero : F) (of_int : ℤ → F) where
  -- Online exactly if the last sighting is there and no more than 30 seconds ago.
  abbrev pub OnlineIffSeen : ℕ → List (Series F) → HealthData F → Type 0
  OnlineIffSeen now series dev =
      let seen = newest dev.device_sn (sightings fmt series) in
      (dev.status ≡ "online") ↔ ((0 < seen) × (now ≤ seen + offline_threshold))

  abbrev with_status : ℕ → HealthData F → HealthData F
  with_status now dev = record dev { status = status_at now dev.last_seen }

  read-HasRead :
      (series : List (Series F))
      → HasRead fmt zero of_int (sightings fmt series) (add_health_series fmt zero of_int series [])
  unfolding lookup
  read-HasRead series =
      series-HasRead fmt zero of_int series [] [] (record { recorded = λ sn. refl; is_map = tt })

  with_status-OnlineIffSeen :
      (now : ℕ) (series : List (Series F)) (sn : String) (dev : HealthData F)
      → lookup sn (add_health_series fmt zero of_int series []) ≡ some dev
      → OnlineIffSeen now series (with_status now dev)
  with_status-OnlineIffSeen now series sn dev found =
      let (same, seen) =
        subst (Recorded fmt zero of_int (sightings fmt series) sn) found
          ((read-HasRead series).recorded sn) in
      rw same (rw (← seen) (status_at-online now dev.last_seen))

-- Whatever the order in which the map is read: parseHealthResult returns devices of which each is
-- online exactly if a timestamp of its rows that parses is later than the zero time and no more than
-- 30 seconds before now.
pub parse_health_result-online :
    {F : Type 0} (fmt : Formats F) (zero : F) (of_int : ℤ → F)
    (order : List (HealthData F) → List (HealthData F)) (now : ℕ) (series : List (Series F))
    → ((devices : List (HealthData F)) → Perm (order devices) devices)
    → (devices : List (HealthData F)) × Perm
        (parse_health_result fmt zero of_int order now series)
        devices
      × All (OnlineIffSeen fmt zero of_int now series) devices
unfolding parse_health_result
parse_health_result-online fmt zero of_int order now series permutes =
    let found = add_health_series fmt zero of_int series [] in
    (
      map (with_status fmt zero of_int now) (map (λ p. p.1) found),
      Perm.map (with_status fmt zero of_int now) (permutes (map (λ p. p.1) found)),
      All-map (with_status fmt zero of_int now) (OnlineIffSeen fmt zero of_int now series)
          (map (λ p. p.1) found)
          (All-values _ found (read-HasRead fmt zero of_int series).is_map
            (with_status-OnlineIffSeen fmt zero of_int now series)),
    )
