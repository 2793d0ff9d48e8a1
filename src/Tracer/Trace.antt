-- ===== src/Tracer/Trace.antt =====
-- tracer/app.py: a trace is started, followed through Kafka and Redis, and forgotten.
use Prim.Native.String.{◌++◌ as str_append}
use ott_ad_pipeline.Base.{
  ℕ, suc, String, str_eq, Bool, false, ◌&&◌, Option, none, some, List, [], ◌∷◌, ◌++◌, any,
  if◌then◌else◌, or_else, is_some,
}
use ott_ad_pipeline.Base.Int.{ℤ, pos, ◌-ℤ◌}
use ott_ad_pipeline.Base.Dict.{Dict, get, put}
use ott_ad_pipeline.Base.Evict.{put_newest}
use ott_ad_pipeline.Calendar.{minute_key_ms, day_ms, hour_ms}
use ott_ad_pipeline.Event.{num, text, Event, get_text}
use ott_ad_pipeline.Player.{Found}
use ott_ad_pipeline.Player.Trace.{put_offset, count_field}
use ott_ad_pipeline.Tracer.Kinds.{Kind, kind_of}
use ott_ad_pipeline.Tracer.{Target, Services, Sent, send}

-- Where a partition is: its topic and number.
abbrev pub Offsets : Type 0
Offsets = List ((String × ℕ) × ℕ)

abbrev pub watch_topics : List String
watch_topics =
    "ad.impression" ∷ "ad.quartile" ∷ "ad.click" ∷ "ad.request" ∷ "user.behavior" ∷ "dlq.invalid"
    ∷ "late.events" ∷ []

-- The ends of a topic's partitions, without those that could not be read.
unfoldable pub topic_ends : (String → ℕ → Option ℕ) → String → List ℕ → Offsets → Offsets
topic_ends watermark t [] out = out
topic_ends watermark t (p ∷ ps) out =
    topic_ends watermark t ps
      (elim (watermark t p) [ none ↦ out | some hi ↦ put_offset t p hi out ])

-- `end_offsets`, for the partitions of the topics, if they could be listed, and their watermarks.
unfoldable pub end_offsets :
    List String → Option (Dict (List ℕ)) → (String → ℕ → Option ℕ) → Offsets → Offsets
unfolding topic_ends get
end_offsets topics none watermark out = out
end_offsets [] (some md) watermark out = out
end_offsets (t ∷ ts) (some md) watermark out =
    end_offsets ts (some md) watermark (topic_ends watermark t (or_else (get t md) []) out)

-- What `check_redis` reads of a minute's hash.
pub record Counts : Type 0 where
  pub key : String
  pub impressions : ℕ
  pub requests : ℕ
  pub ssai_dupes : ℕ

-- The state of a trace, an entry of `TRACES`.
pub record Trace : Type 0 where
  pub trace_id : String
  pub campaign : String
  pub kind : Kind
  pub sent : Sent
  pub offsets : Offsets
  pub kafka : List Found
  pub minute : String
  pub dt : String
  pub hour : String
  pub redis_base : Option Counts
  pub nudges : ℕ

-- `check_redis`, for the answer of HGETALL, if it came. `read` is `int(float(x))` of a count.
unfoldable pub check_redis :
    (String → ℕ) → (String → Option (Dict String)) → String → String → Option Counts
check_redis read hgetall campaign minute =
    let key = str_append "agg:1m:" (str_append campaign (str_append ":" minute)) in
    elim (hgetall key) [
      | none ↦ none
      | some [] ↦ none
      | some (kv ∷ h) ↦ some record {
        key = key;
        impressions = count_field read (kv ∷ h) "impressions";
        requests = count_field read (kv ∷ h) "requests";
        ssai_dupes = count_field read (kv ∷ h) "ssai_dupes";
      }
    ]

-- The trace that `api_send` begins.
unfoldable pub new_trace :
    Services
    → (String → ℕ)
    → (String → Option (Dict String))
    → (trace_id : String) → Kind
    → (ts : ℕ) → Offsets
    → Trace
unfolding check_redis
new_trace s read hgetall trace_id kind ts offsets =
    let campaign = str_append "cmp-tr-" trace_id in
    record {
      trace_id = trace_id;
      campaign = campaign;
      kind = kind;
      sent = send s kind campaign ts;
      offsets = offsets;
      kafka = [];
      minute = minute_key_ms ts;
      dt = day_ms ts;
      hour = hour_ms ts;
      redis_base = check_redis read hgetall campaign (minute_key_ms ts);
      nudges = 0;
    }

-- `api_send`: `none` is the answer 400 for a kind that there is not.
unfoldable pub api_send :
    Services
    → (String → ℕ)
    → (String → Option (Dict String))
    → (trace_id : String) → (kind : String) → (ts : ℕ) → Offsets
    → Dict Trace
    → Option Trace × Dict Trace
unfolding new_trace put_newest kind_of
api_send s read hgetall trace_id kind ts offsets traces = elim (kind_of kind) [
  | none ↦ (none, traces)
  | some k ↦
      let tr = new_trace s read hgetall trace_id k ts offsets in
      (some tr, put_newest 20 trace_id tr traces)
]

-- A message that a poll gives, its dict if it is JSON, and the dict under `raw` if there is one.
-- The topics hold no JSON that is not a dict.
pub record Message : Type 0 where
  pub topic : String
  pub partition : ℕ
  pub offset : ℕ
  pub body : Option Event
  pub raw : Option Event

abbrev pub field_of : String → Option Event → Option String
field_of k none = none
field_of k (some d) = get_text k d

-- `cand`: the ids that a message names.
unfoldable pub candidates : String → Option Event → Option Event → List (Option String)
candidates match_field d raw =
    field_of match_field d
    ∷ field_of "event_id" d
    ∷ field_of "ad_request_id" d
    ∷ field_of "event_id" raw
    ∷ field_of "eid" raw
    ∷ field_of "ad_request_id" raw
    ∷ []

abbrev pub is_target : List Target → Option String → Bool
is_target targets none = false
is_target targets (some id) = any (λ t. str_eq t.event_id id) targets

-- `tr["ids"][0].get("match", "event_id") if tr["ids"] else "event_id"`
abbrev pub match_field_of : List Target → String
match_field_of [] = "event_id"
match_field_of (t ∷ ts) = or_else t.match_field "event_id"

-- `cand & targets`, for a message that is JSON.
unfoldable pub is_hit : List Target → Message → Bool
unfolding candidates
is_hit targets m =
    is_some m.body && any (is_target targets) (candidates (match_field_of targets) m.body m.raw)

abbrev pub found_of : Message → Found
found_of m = record { topic = m.topic; partition = m.partition; offset = m.offset }

-- One message in the loop of `scan_kafka`.
unfoldable pub scan_message : Message → Trace → Trace
unfolding put_offset is_hit
scan_message m tr = record tr {
  offsets = put_offset m.topic m.partition (suc m.offset) tr.offsets;
  kafka = if is_hit tr.sent.ids m then tr.kafka ++ found_of m ∷ [] else tr.kafka;
}

-- The loop of `scan_kafka`, for the messages that are polled before the deadline.
unfoldable pub scan_kafka : List Message → Trace → Trace
scan_kafka [] tr = tr
scan_kafka (m ∷ ms) tr = scan_kafka ms (scan_message m tr)

-- What `api_trace` shows of Redis: the counts since the trace began.
pub record Delta : Type 0 where
  pub key : String
  pub impressions : ℤ
  pub requests : ℤ
  pub ssai_dupes : ℕ

abbrev pub base_of : (Counts → ℕ) → Option Counts → ℕ
base_of f none = 0
base_of f (some c) = f c

unfoldable pub delta : Option Counts → Option Counts → Option Delta
delta none base = none
delta (some c) base = some record {
  key = c.key;
  impressions = pos c.impressions -ℤ pos (base_of (λ b. b.impressions) base);
  requests = pos c.requests -ℤ pos (base_of (λ b. b.requests) base);
  ssai_dupes = c.ssai_dupes;
}

-- `api_trace` as far as Kafka and Redis go: `none` is the answer 404 for a trace that is gone.
unfoldable pub api_trace :
    (String → ℕ)
    → (String → Option (Dict String))
    → String
    → List Message
    → Dict Trace
    → Option (Trace × Option Delta) × Dict Trace
unfolding get put scan_kafka check_redis delta
api_trace read hgetall trace_id ms traces = elim (get trace_id traces) [
  | none ↦ (none, traces)
  | some tr ↦
      let tr' = scan_kafka ms tr in
      (
        some (tr', delta (check_redis read hgetall tr'.campaign tr'.minute) tr'.redis_base),
        put trace_id tr' traces,
      )
]

unfoldable pub nudge_event : ℕ → String → Event
nudge_event ts tag =
    ("event_id", text (str_append "evt-nudge-" tag))
    ∷ ("event_type", text "impression")
    ∷ ("campaign_id", text "cmp-9999")
    ∷ ("event_time", num ts)
    ∷ ("ad_request_id", text (str_append "req-nudge-" tag))
    ∷ ("source", text "client")
    ∷ []

-- A turn of the loop of `nudge_watermark`, after its wait: the event that it posts, and the trace
-- that counts it. A trace that is gone `before` ends the loop; the traces may change while the
-- event is posted, so that it can be gone `after`.
unfoldable pub nudge : String → ℕ → String → (before after : Dict Trace) → Option Event × Dict Trace
unfolding get put nudge_event
nudge trace_id ts tag before after = elim (get trace_id before) [
  | none ↦ (none, after)
  | some old ↦ (
    some (nudge_event ts tag),
    elim (get trace_id after) [
      | none ↦ after
      | some tr ↦ put trace_id (record tr { nudges = suc tr.nudges }) after
    ],
  )
]
