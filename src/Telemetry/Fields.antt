-- ===== src/Telemetry/Fields.antt =====
-- The line of WriteTelemetry of internal/repository/telemetry, read back as tags, fields and a timestamp.
use be_aether_node.Base.{All, ℕ, ◌≡◌, refl, ap, ◌∙◌, String, List, [], ◌∷◌, map}
use be_aether_node.Base.Int.{ℤ}
use be_aether_node.Telemetry.{Time}
use be_aether_node.Telemetry.Line.{
  Telemetry, escape_tag, pair, Numbers, tag_part, field_part, line_of,
}
use be_aether_node.Telemetry.Splitting.{
  split, has_char, Lacks, join, escape_tag-has_char, append-Lacks, join-Lacks, split-single,
  split-append, split-join,
}

-- Without a comma, a space and an equals sign.
abbrev pub Plain : String → Type 0
Plain s = Lacks b',' s × Lacks b' ' s × Lacks b'=' s

abbrev pub AllPlain : {F : Type 0} → Numbers F → Type 0
AllPlain {F = F} numbers =
    ((f : F) → Plain (numbers.two_places f)) × ((n : ℤ) → Plain (numbers.decimal n))

escape_tag-Plain : (s : String) → Plain (escape_tag s)
escape_tag-Plain s = (
  escape_tag-has_char b',' s refl,
  escape_tag-has_char b' ' s refl,
  escape_tag-has_char b'=' s refl,
)

abbrev pub Entry : Type 0
Entry = String × String

abbrev texts : List Entry → List String
texts entries = map (λ p. pair p.0 p.1) entries

-- A name and a value, each for itself.
abbrev pub columns : List Entry → List (List String)
columns entries = map (λ p. p.0 ∷ (p.1 ∷ [])) entries

abbrev PlainEntry : Entry → Type 0
PlainEntry p = Plain p.0 × Plain p.1

-- Parts at spaces, their parts at commas, and the parts of these at equals signs.
unfoldable pub read_part : String → List (List String)
read_part part = map (λ entry. split b'=' entry) (split b',' part)

unfoldable pub read_line : String → List (List (List String))
read_line line = map read_part (split b' ' line)

pair-Lacks :
    (n : ℕ) (name value : String)
    → Lacks n "="
    → Lacks n name
    → Lacks n value
    → Lacks n (pair name value)
pair-Lacks n name value e ln lv = append-Lacks n name _ ln (append-Lacks n "=" value e lv)

split-pair : (p : Entry) → PlainEntry p → split b'=' (pair p.0 p.1) ≡ p.0 ∷ (p.1 ∷ [])
split-pair p (n, v) =
    split-append b'=' "=" p.0 p.1 refl n.2 ∙ ap (λ parts. p.0 ∷ parts) (split-single b'=' p.1 v.2)

texts-Lacks_comma :
    (entries : List Entry) → All PlainEntry entries → All (Lacks b',') (texts entries)
texts-Lacks_comma [] h = tt
texts-Lacks_comma (p ∷ ps) ((n, v), h) =
    (pair-Lacks b',' p.0 p.1 (unfold has_char in refl) n.0 v.0, texts-Lacks_comma ps h)

texts-Lacks_space :
    (entries : List Entry) → All PlainEntry entries → All (Lacks b' ') (texts entries)
texts-Lacks_space [] h = tt
texts-Lacks_space (p ∷ ps) ((n, v), h) =
    (pair-Lacks b' ' p.0 p.1 (unfold has_char in refl) n.1 v.1, texts-Lacks_space ps h)

split-texts :
    (entries : List Entry)
    → All PlainEntry entries
    → map (λ entry. split b'=' entry) (texts entries) ≡ columns entries
split-texts [] h = refl
split-texts (p ∷ ps) (q, h) = rw (split-pair p q, split-texts ps h) refl

read_part-join :
    (p : Entry) (ps : List Entry)
    → All PlainEntry (p ∷ ps)
    → read_part (join "," (pair p.0 p.1) (texts ps)) ≡ columns (p ∷ ps)
unfolding read_part
read_part-join p ps h =
    let (first, rest) = texts-Lacks_comma (p ∷ ps) h in
    rw (split-join b',' "," (pair p.0 p.1) (texts ps) refl first rest) (split-texts (p ∷ ps) h)

read_part-named :
    (name : String) (ps : List Entry)
    → Plain name
    → All PlainEntry ps
    → read_part (join "," name (texts ps)) ≡ (name ∷ []) ∷ columns ps
unfolding read_part
read_part-named name ps n h =
    rw
      (
        split-join b',' "," name (texts ps) refl n.0 (texts-Lacks_comma ps h),
        split-single b'=' name n.2,
        split-texts ps h,
      )
      refl

read_part-single : (s : String) → Plain s → read_part s ≡ (s ∷ []) ∷ []
unfolding read_part
read_part-single s p = rw (split-single b',' s p.0, split-single b'=' s p.2) refl

module _ {F : Type 0} (numbers : Numbers F) (unix_nano : Time → ℤ) where
  abbrev pub tags_of : Telemetry F → List Entry
  tags_of t =
      ("device_sn", escape_tag t.device_sn)
      ∷ (("device_type", escape_tag t.device_type)
          ∷ (("location_name", escape_tag t.location_name) ∷ []))

  abbrev pub later_fields : Telemetry F → List Entry
  later_fields t =
      ("humidity", numbers.two_places t.humidity)
      ∷ (("aqi", numbers.decimal t.air_quality_index)
          ∷ (("pm25", numbers.two_places t.pm25)
              ∷ (("pm10", numbers.two_places t.pm10)
                  ∷ (("co2", numbers.decimal t.co2) ∷ (("voc", numbers.two_places t.voc) ∷ [])))))

  abbrev pub fields_of : Telemetry F → List Entry
  fields_of t = ("temperature", numbers.two_places t.temperature) ∷ later_fields t

  tags-AllPlain : (t : Telemetry F) → All PlainEntry (tags_of t)
  unfolding has_char
  tags-AllPlain t = (
    ((refl, refl, refl), escape_tag-Plain t.device_sn),
    (
      ((refl, refl, refl), escape_tag-Plain t.device_type),
      (((refl, refl, refl), escape_tag-Plain t.location_name), tt),
    ),
  )

  fields-AllPlain : AllPlain numbers → (t : Telemetry F) → All PlainEntry (fields_of t)
  unfolding has_char
  fields-AllPlain (floats, ints) t = (
    ((refl, refl, refl), floats t.temperature),
    (
      ((refl, refl, refl), floats t.humidity),
      (
        ((refl, refl, refl), ints t.air_quality_index),
        (
          ((refl, refl, refl), floats t.pm25),
          (
            ((refl, refl, refl), floats t.pm10),
            (((refl, refl, refl), ints t.co2), (((refl, refl, refl), floats t.voc), tt)),
          ),
        ),
      ),
    ),
  )

  tag_part-Lacks_space : (t : Telemetry F) → Lacks b' ' (join "," "telemetry" (texts (tags_of t)))
  unfolding has_char
  tag_part-Lacks_space t =
      join-Lacks b' ' "," "telemetry" _ refl refl (texts-Lacks_space (tags_of t) (tags-AllPlain t))

  field_part-Lacks_space :
      AllPlain numbers
      → (t : Telemetry F)
      → Lacks b' ' (
          join "," (pair "temperature" (numbers.two_places t.temperature)) (texts (later_fields t)))
  unfolding has_char
  field_part-Lacks_space plain t =
      let (first, rest) = texts-Lacks_space (fields_of t) (fields-AllPlain plain t) in
      join-Lacks b' ' "," (pair "temperature" (numbers.two_places t.temperature)) _ refl first rest

  -- Where the texts of numbers have no comma, space or equals sign: the line that WriteTelemetry
  -- sends, split at spaces, commas and equals signs, is the measurement with the three escaped tags,
  -- then the seven fields, then the timestamp, whatever the tags of the reading are.
  pub read_line-line_of :
      (t : Telemetry F)
      → AllPlain numbers
      → read_line (line_of numbers unix_nano t)
        ≡ (("telemetry" ∷ []) ∷ columns (tags_of t))
          ∷ (columns (fields_of t) ∷ (((numbers.decimal (unix_nano t.timestamp) ∷ []) ∷ []) ∷ []))
  unfolding read_line line_of tag_part field_part join
  read_line-line_of t plain =
      rw
        (
          split-join b' ' " " (tag_part numbers unix_nano t)
              (field_part numbers unix_nano t ∷ (numbers.decimal (unix_nano t.timestamp) ∷ [])) refl
              (tag_part-Lacks_space t)
              (field_part-Lacks_space plain t, ((plain.1 (unix_nano t.timestamp)).1, tt)),
          read_part-named "telemetry" (tags_of t) (unfold has_char in (refl, refl, refl))
              (tags-AllPlain t),
          read_part-join ("temperature", numbers.two_places t.temperature) (later_fields t)
              (fields-AllPlain plain t),
          read_part-single (numbers.decimal (unix_nano t.timestamp))
              (plain.1 (unix_nano t.timestamp)),
        )
        refl
