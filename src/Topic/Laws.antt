-- ===== src/Topic/Laws.antt =====
-- The two parsers of telemetry topics agree with one another and with the printer.
use Prim.Native.Char.{Char}
use Prim.Native.String
use text.Mathlib.TextLemmas.{nil-append, cons-append, append_assoc}
use iot_backend.Base.{
  String, List, [], ◌∷◌, Option, none, some, eq_iff, All, ◌≡◌, ◌≢◌, arith, ap, refl, sym, ◌∙◌,
  ◌≡⟨◌⟩◌, ◌∎,
}
use iot_backend.Text.{◌<>◌, split}
use iot_backend.Text.Split.{IsFree, join, split-append_sep, split_free, split-IsFree, join-split}
use iot_backend.Topic.{
  slash, parse_parts, parse_telemetry_topic, telemetry_topic, identifier_of_parts,
  device_identifier_from_topic,
}

abbrev sep : Char
sep = Prim.Native.String.char_at "/" 0

-- A nonempty text without a slash: what may stand as a level of a topic.
abbrev pub IsLevel : String → Type 0
IsLevel s = (s ≢ "") × IsFree slash s

abbrev pub second : Option (String × String) → String
second none = ""
second (some (a, b)) = b

identifier-parse_parts : (ps : List String) → identifier_of_parts ps ≡ second (parse_parts ps)
unfolding identifier_of_parts parse_parts
identifier-parse_parts (a ∷ b ∷ c ∷ d ∷ e ∷ []) = ground arith
identifier-parse_parts [] = refl
identifier-parse_parts (a ∷ []) = refl
identifier-parse_parts (a ∷ b ∷ []) = refl
identifier-parse_parts (a ∷ b ∷ c ∷ []) = refl
identifier-parse_parts (a ∷ b ∷ c ∷ d ∷ []) = refl
identifier-parse_parts (a ∷ b ∷ c ∷ d ∷ e ∷ f ∷ r) = refl

parse_parts_lem :
    (b d : String)
    → b ≢ ""
    → d ≢ ""
    → parse_parts ("org" ∷ b ∷ "device" ∷ d ∷ "telemetry" ∷ []) ≡ some (b, d)
unfolding parse_parts
parse_parts_lem b d hb hd = ground (arith, eq_iff b "", eq_iff d "")

-- A word with its slash, then a text: the word is the first part.
split_word : (w s : String) → IsFree slash w → split slash ((w <> "/") <> s) ≡ w ∷ split slash s
split_word w s h = rw (append_assoc, cons-append, nil-append) (split-append_sep sep w s h)

split-telemetry_topic :
    (o d : String)
    → IsFree slash o
    → IsFree slash d
    → split slash (telemetry_topic o d) ≡ "org" ∷ o ∷ "device" ∷ d ∷ "telemetry" ∷ []
unfolding telemetry_topic
split-telemetry_topic o d ho hd =
    let rest = d <> "/telemetry" in
    let words : IsFree slash "org" × IsFree slash "device" × IsFree slash "telemetry" =
      omega arith in
    split slash ("org/" <> (o <> ("/device/" <> rest)))
    ≡⟨ split_word "org" (o <> ("/device/" <> rest)) words.0 ⟩
      "org" ∷ split slash (o <> ("/device/" <> rest))
    ≡⟨ ap (λ t. "org" ∷ split slash (o <> t)) (cons-append sep "device/" rest) ⟩
      "org" ∷ split slash (o <> (Prim.Native.String.◌∷◌ sep ("device/" <> rest)))
    ≡⟨ ap (λ ps. "org" ∷ ps) (split-append_sep sep o ("device/" <> rest) ho) ⟩
      "org" ∷ o ∷ split slash ("device/" <> rest)
    ≡⟨ ap (λ ps. "org" ∷ o ∷ ps) (split_word "device" rest words.1) ⟩
      "org" ∷ o ∷ "device" ∷ split slash rest
    ≡⟨ ap (λ ps. "org" ∷ o ∷ "device" ∷ ps) (split-append_sep sep d "telemetry" hd) ⟩
      "org" ∷ o ∷ "device" ∷ d ∷ split slash "telemetry"
    ≡⟨ ap (λ ps. "org" ∷ o ∷ "device" ∷ d ∷ ps) (split_free slash "telemetry" words.2) ⟩
      "org" ∷ o ∷ "device" ∷ d ∷ "telemetry" ∷ [] ∎

-- Two nonempty texts without slashes, printed as a topic and parsed, come back.
pub parse-telemetry_topic :
    (o d : String)
    → IsLevel o
    → IsLevel d
    → parse_telemetry_topic (telemetry_topic o d) ≡ some (o, d)
unfolding parse_telemetry_topic
parse-telemetry_topic o d (ho, fo) (hd, fd) =
    rw (split-telemetry_topic o d fo fd) (parse_parts_lem o d ho hd)

parse_parts_sound :
    (ps : List String) (o d : String)
    → All (IsFree slash) ps
    → parse_parts ps ≡ some (o, d)
    → IsLevel o × IsLevel d × (ps ≡ "org" ∷ o ∷ "device" ∷ d ∷ "telemetry" ∷ [])
unfolding parse_parts
parse_parts_sound (a ∷ b ∷ c ∷ d ∷ e ∷ []) o i h p =
    ground
      (arith, eq_iff a "org", eq_iff c "device", eq_iff e "telemetry", eq_iff b "", eq_iff d "")
parse_parts_sound [] o i h p = cc
parse_parts_sound (a ∷ []) o i h p = cc
parse_parts_sound (a ∷ b ∷ []) o i h p = cc
parse_parts_sound (a ∷ b ∷ c ∷ []) o i h p = cc
parse_parts_sound (a ∷ b ∷ c ∷ d ∷ []) o i h p = cc
parse_parts_sound (a ∷ b ∷ c ∷ d ∷ e ∷ f ∷ r) o i h p = cc

-- A topic that parses is the topic printed from its two parts, each nonempty and without a slash.
pub parse_telemetry_topic_sound :
    (topic o d : String)
    → parse_telemetry_topic topic ≡ some (o, d)
    → IsLevel o × IsLevel d × (topic ≡ telemetry_topic o d)
unfolding parse_telemetry_topic
parse_telemetry_topic_sound topic o d p =
    let (lo, ld, e) = parse_parts_sound (split slash topic) o d (split-IsFree slash topic) p in
    (
      lo,
      ld,
      sym (join-split sep topic)
          ∙ ap (join sep) (e ∙ sym (split-telemetry_topic o d lo.1 ld.1))
          ∙ join-split sep (telemetry_topic o d),
    )

-- The ingestor's own reading of a topic is the device part of ParseTelemetryTopic's, and empty
-- where that refuses.
pub device_identifier_from_topic-parse :
    (topic : String) → device_identifier_from_topic topic ≡ second (parse_telemetry_topic topic)
unfolding device_identifier_from_topic parse_telemetry_topic
device_identifier_from_topic-parse topic = identifier-parse_parts (split slash topic)
