-- ===== src/Telemetry/Runs.antt =====
-- Runs of the streams and of the payload of all devices.
use mathlib.Core.List.{Perm}
use mathlib.Core.List.Perm
use be_aether_node.Base.Int.{pos}
use be_aether_node.Base.{
  All, ℕ, String, true, none, some, List, [], ◌∷◌, ◌≡◌, refl, ◌↔◌, ◌⊎◌, inr, Dict,
}
use be_aether_node.Store.{World, DeviceRow}
use be_aether_node.Store.Sql as Sql
use be_aether_node.Store.Samples.{empty_world}
use be_aether_node.Device.{Device}
use be_aether_node.Telemetry.Dashboard.{HealthData, DeviceEntry, Source, offline}
use be_aether_node.Telemetry.{Value, Formats, Series, text, float}
use be_aether_node.Telemetry.Latest.{parse_health_result}
use be_aether_node.Breaker.{state_half_open, CircuitBreaker}
use be_aether_node.Breaker as Breaker
use be_aether_node.Telemetry.Query.{
  DeviceFilter, Answer, responded, returned, new_influx_breaker, get_latest_telemetry,
  get_latest_telemetry_sse, get_latest_health, get_latest_health_sse,
}
use be_aether_node.Telemetry.Bypass.{HasSlot, latest-records_iff}
use be_aether_node.Telemetry.Line.{Telemetry, escape_tag, Numbers, line_of}
use be_aether_node.Telemetry.Splitting.{has_char}
use be_aether_node.Telemetry.Fields.{AllPlain, columns, fields_of, read_line, read_line-line_of}
use be_aether_node.Telemetry.Online.{OnlineIffSeen, parse_health_result-online}
use be_aether_node.Telemetry.Streams.{
  Streams, Action, stream_device, publish_device, publish_all, stream_all, take, put, leave, new,
  run, act, next,
}
use be_aether_node.Telemetry.Channels.{IsSafe, Streaming}
use be_aether_node.Telemetry.Interleaving.{run-new-IsSafe, second_stream_lost}

abbrev some_actions : List (Action ℕ)
some_actions =
    stream_device "s1"
    ∷ (stream_all ∷ (publish_all 7 ∷ (take 1 ∷ (publish_device "s1" 7 ∷ (put 1 ∷ (leave 0 ∷ []))))))

run-new-IsSafe_example : (st : Streams ℕ) × (run some_actions (some new) ≡ some st) × IsSafe st
run-new-IsSafe_example = run-new-IsSafe some_actions

abbrev start : Streams ℕ
start = new

second_stream_lost_example :
    (st' : Streams ℕ) × (run
        (stream_device "s1" ∷ (stream_device "s1" ∷ (leave 0 ∷ [])))
        (some start)
      ≡ some st')
    × Streaming "s1" 1 st'
    × ((t : ℕ) → act (publish_device "s1" t) st' ≡ next st')
second_stream_lost_example = second_stream_lost "s1" start

abbrev probe : DeviceRow
probe = record {
  guid = some 4;
  type = "air";
  serial_number = "s1";
  alias = some "hall";
  notes = none;
  is_active = true;
  created_at = some 1;
  updated_at = some 1;
  deleted_at = none;
}

abbrev one_device : World
one_device = record empty_world { devices = probe ∷ [] }

abbrev probe_device : Device
probe_device = record {
  guid = "ggggg";
  type = "air";
  serial_number = "s1";
  alias = "hall";
  notes = "";
  is_active = true;
  created_at = 1;
  updated_at = 1;
  deleted_at = none;
}

abbrev silent : Source ℕ ℕ
silent = record { health = some []; telemetry = some (("s1", 9) ∷ []) }

abbrev payload : Dict (List (DeviceEntry ℕ ℕ))
payload = ("air", record { health = offline 0 probe_device "air"; telemetry = 9 } ∷ []) ∷ []

abbrev formats : Formats ℕ
formats = record {
  atoi = λ s. none;
  parse_float = λ s. none;
  sprint = λ v. "v";
  parse_nano = λ s. none;
  parse_rfc3339 = λ s. some (record { instant = 5000000000; zone = pos 0 });
  format_nano = λ t. "t";
}

abbrev health_series : Series ℕ
health_series = record {
  name = "health";
  tags = [];
  columns = "device_sn" ∷ ("_field" ∷ ("_value" ∷ ("timestamp" ∷ [])));
  values = (text "s1" ∷ (text "temp" ∷ (float 21 ∷ (text "2026" ∷ [])))) ∷ [];
}

parse_health_result-online_example :
    (devices : List (HealthData ℕ)) × Perm
      (parse_health_result formats 0 (λ n. 0) (λ ds. ds) 9000000000 (health_series ∷ []))
      devices
    × All (OnlineIffSeen formats 0 (λ n. 0) 9000000000 (health_series ∷ [])) devices
parse_health_result-online_example =
    parse_health_result-online formats 0 (λ n. 0) (λ ds. ds) 9000000000 (health_series ∷ [])
      (λ ds. Perm.rfl)

abbrev half_open : CircuitBreaker
unfolding Breaker.new new_influx_breaker
half_open = record new_influx_breaker { state = state_half_open }

abbrev csv_records : String → String ⊎ List (List String)
csv_records body = inr (
    ("" ∷ ("result" ∷ ("table" ∷ ("device_sn" ∷ ("_field" ∷ ("_value" ∷ []))))))
    ∷ (("" ∷ ("" ∷ ("0" ∷ ("s1" ∷ ("temp" ∷ ("hot" ∷ [])))))) ∷ []))

abbrev answers_ok : String → Answer
answers_ok flux_query = responded 200 "csv"

abbrev of_s1 : DeviceFilter
of_s1 = record { project = ""; device_sn = "s1" }

abbrev found_temp : Dict (Dict (Value ℕ))
found_temp = ("s1", ("temp", text "hot") ∷ []) ∷ []

latest-records_iff_example :
    (((cb' : CircuitBreaker) × (get_latest_telemetry formats csv_records "b" answers_ok 5 6 of_s1
            half_open
          ≡ returned (inr found_temp) cb'))
      ↔ ((get_latest_telemetry_sse formats csv_records "b" answers_ok 5 6 of_s1 half_open
            ≡ returned (inr found_temp) half_open)
          × HasSlot half_open))
    × (((cb' : CircuitBreaker) × (get_latest_health formats csv_records "b" answers_ok 5 6 0
              (λ n. 0)
              (λ ds. ds)
              7
              of_s1
              half_open
            ≡ returned (inr []) cb'))
        ↔ ((get_latest_health_sse formats csv_records "b" answers_ok 5 6 0
                (λ n. 0)
                (λ ds. ds)
                7
                of_s1
                half_open
              ≡ returned (inr []) half_open)
            × HasSlot half_open))
unfolding half_open
latest-records_iff_example =
    latest-records_iff formats csv_records "b" answers_ok 5 6 0 (λ n. 0) (λ ds. ds) 7 of_s1
      half_open found_temp [] (λ held. refl)

abbrev numbers : Numbers ℕ
numbers = record { two_places = λ f. "1.50"; decimal = λ n. "7" }

abbrev reading : Telemetry ℕ
reading = record {
  device_sn = "s 1,a";
  device_type = "air";
  location_name = "x=y";
  temperature = 1;
  humidity = 2;
  air_quality_index = pos 3;
  pm25 = 4;
  pm10 = 5;
  co2 = pos 6;
  voc = 7;
  timestamp = record { instant = 8; zone = pos 0 };
}

numbers-AllPlain : AllPlain numbers
unfolding has_char
numbers-AllPlain = (λ f. (refl, refl, refl), λ n. (refl, refl, refl))

read_line-line_of_example :
    read_line (line_of numbers (λ t. pos t.instant) reading)
    ≡ (("telemetry" ∷ [])
        ∷ (("device_sn" ∷ ("s_1_a" ∷ []))
            ∷ (("device_type" ∷ ("air" ∷ [])) ∷ (("location_name" ∷ ("x_y" ∷ [])) ∷ []))))
      ∷ (columns (fields_of numbers (λ t. pos t.instant) reading) ∷ ((("7" ∷ []) ∷ []) ∷ []))
unfolding escape_tag
read_line-line_of_example = read_line-line_of numbers (λ t. pos t.instant) reading numbers-AllPlain
