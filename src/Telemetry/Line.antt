-- ===== src/Telemetry/Line.antt =====
-- WriteTelemetry of internal/handler/telemetry_handler.go and internal/repository/telemetry: a reading is
-- written to InfluxDB as one line of its line protocol. What InfluxDB answers to a line is a parameter, and so
-- are the texts of numbers (`%.2f`, `%d`), which are those of the type of floats and of ints.
use be_aether_node.Base.{ℕ, ◌==◌, ◌||◌, String, Bool, Option, none, some, leb, if◌then◌else◌}
use be_aether_node.Base.Int.{ℤ, pos}
use Prim.Native.Char.{Char, code}
use Prim.Native.String.{[], ◌∷◌, ◌++◌}
use be_aether_node.Http.{Reply, success, error, text, bad_request}
use be_aether_node.Telemetry.{Time}
use be_aether_node.Telemetry.Query.{Answer, failed, responded, cut_off}

pub record Telemetry (F : Type 0) : Type 0 where
  pub device_sn : String
  pub device_type : String
  pub location_name : String
  pub temperature : F
  pub humidity : F
  pub air_quality_index : ℤ
  pub pm25 : F
  pub pm10 : F
  pub co2 : ℤ
  pub voc : F
  pub timestamp : Time

-- The body of POST /telemetry.
pub record WriteBody (F : Type 0) : Type 0 where
  pub device_sn : String
  pub device_type : String
  pub location_name : String
  pub temperature : F
  pub humidity : F
  pub air_quality_index : ℤ
  pub pm25 : F
  pub pm10 : F
  pub co2 : ℤ
  pub voc : F

-- `,`, a space, `=`, a line feed, a carriage return, a tab.
abbrev pub is_special : ℕ → Bool
is_special n = n == b',' || (n == b' ' || (n == b'=' || (n == b'\n' || (n == b'\r' || n == b'\t'))))

abbrev underscore : Char
underscore = "_"

abbrev pub escape_char : Char → Char
escape_char c = if is_special (code c) then underscore else c

unfoldable pub escape_tag : String → String
escape_tag [] = ""
escape_tag (c ∷ s) = escape_char c ∷ escape_tag s

-- `name=value`
abbrev pub pair : String → String → String
pair name value = name ++ ("=" ++ value)

-- fmt.Sprintf of `%.2f` and of `%d`.
pub record Numbers (F : Type 0) : Type 0 where
  pub two_places : F → String
  pub decimal : ℤ → String

-- The result of a write: the text of an error, or `none`.
unfoldable pub written : {F : Type 0} → Numbers F → Answer → Option String
written numbers (failed e) = some e
written numbers (responded code body) =
    if leb 400 code
    then some
        ("influxdb write error: status=" ++ (numbers.decimal (pos code) ++ (" body=" ++ body)))
    else none
written numbers (cut_off code body e) =
    if leb 400 code
    then some
        ("influxdb write error: status=" ++ (numbers.decimal (pos code) ++ (" body=" ++ body)))
    else none

module _ {F : Type 0} (numbers : Numbers F) (unix_nano : Time → ℤ) where
  unfoldable pub tag_part : Telemetry F → String
  tag_part t =
      "telemetry"
      ++ (","
          ++ (pair "device_sn" (escape_tag t.device_sn)
              ++ (","
                  ++ (pair "device_type" (escape_tag t.device_type)
                      ++ ("," ++ pair "location_name" (escape_tag t.location_name))))))

  unfoldable pub field_part : Telemetry F → String
  field_part t =
      pair "temperature" (numbers.two_places t.temperature)
      ++ (","
          ++ (pair "humidity" (numbers.two_places t.humidity)
              ++ (","
                  ++ (pair "aqi" (numbers.decimal t.air_quality_index)
                      ++ (","
                          ++ (pair "pm25" (numbers.two_places t.pm25)
                              ++ (","
                                  ++ (pair "pm10" (numbers.two_places t.pm10)
                                      ++ (","
                                          ++ (pair "co2" (numbers.decimal t.co2)
                                              ++ (","
                                                  ++ pair "voc"
                                                      (numbers.two_places t.voc))))))))))))

  -- The line of WriteTelemetry of the repository.
  unfoldable pub line_of : Telemetry F → String
  line_of t =
      tag_part t ++ (" " ++ (field_part t ++ (" " ++ numbers.decimal (unix_nano t.timestamp))))

  -- WriteTelemetry of the repository.
  unfoldable pub write_telemetry : (String → Answer) → Telemetry F → Option String
  write_telemetry influx t = written numbers (influx (line_of t))

  -- WriteTelemetry of the service: the error, or what it hands to the streams.
  unfoldable pub write_and_publish :
      (String → Answer) → Telemetry F → Option String × Option (Telemetry F)
  write_and_publish influx t = elim (write_telemetry influx t) [
    | some e ↦ (some e, none)
    | none ↦ (none, some t)
  ]

  abbrev reading : Time → WriteBody F → Telemetry F
  reading now req = record {
    device_sn = req.device_sn;
    device_type = req.device_type;
    location_name = req.location_name;
    temperature = req.temperature;
    humidity = req.humidity;
    air_quality_index = req.air_quality_index;
    pm25 = req.pm25;
    pm10 = req.pm10;
    co2 = req.co2;
    voc = req.voc;
    timestamp = now;
  }

  abbrev reply_of : Option String → Reply Unit
  reply_of (some e) = error 500 "INTERNAL_ERROR" (text e)
  reply_of none = success 201 tt "Telemetry data received successfully"

  -- WriteTelemetry of the handler: the reply, and what is handed to the streams. The body is `none`
  -- where it does not bind.
  unfoldable pub handle_write :
      (String → Answer) → Time → Option (WriteBody F) → Reply Unit × Option (Telemetry F)
  handle_write influx now none = (bad_request, none)
  handle_write influx now (some req) =
      let (e, published) = write_and_publish influx (reading now req) in (reply_of e, published)
