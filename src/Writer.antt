-- ===== src/Writer.antt =====
-- redis-writer/writer.py: the consumer that copies aggregates, late events and alerts to Redis.
-- Redis is a parameter: a store with the commands that the program sends and the reads that it
-- makes. `datetime.fromisoformat` is the parameter `instant`, and `json.dumps` is `dump`.
pub mod Steps
pub mod Clock
pub mod Queue
pub mod Upsert
pub mod Tally
pub mod Api
pub mod Summary
pub mod Sums
pub mod Windows
mod Tests
use Prim.Native.String.{◌++◌ as str_append}
use ott_ad_pipeline.Base.{
  ℕ, zero, suc, ◌+◌, ◌-◌, ◌≡◌, ◌≢◌, String, str_eq, Bool, true, false, Option, none, some, List, [],
  ◌∷◌, take, if◌then◌else◌, or_else, ◌>>=◌,
}
use ott_ad_pipeline.Base.Dict.{Dict, get}
use ott_ad_pipeline.Event.{Value, null, num, text, flag, Event, get_text}
use ott_ad_pipeline.Calendar.{minute_stamp}
use ott_ad_pipeline.Signing.{show}

-- The commands of Redis that the program uses. A pipeline is sent as one transaction, so it is the
-- composition of its commands; every pipeline is taken to be executed and answered. `wait` is no
-- command: with it the server's clock, which is taken to be the program's, reaches an instant in
-- seconds, and the keys whose time to live has ended by then are gone.
pub record Redis : Type 1 where
  pub Store : Type 0
  pub wait : ℕ → Store → Store
  pub hset : String → Dict String → Store → Store
  pub expire : String → ℕ → Store → Store
  pub sadd : String → String → Store → Store
  pub zadd : String → String → ℕ → Store → Store
  pub zremrangebyscore : String → ℕ → ℕ → Store → Store
  pub incr : String → Store → Store
  pub lpush : String → String → Store → Store
  pub ltrim : String → ℕ → ℕ → Store → Store
  pub hgetall : String → Store → Dict String
  pub zrangebyscore : String → ℕ → ℕ → Store → List (String × ℕ)
  pub count_at : String → Store → ℕ
  pub list_at : String → Store → List String

abbrev pub ttl_seconds : ℕ
ttl_seconds = 172800

-- `STATS`
pub record Counts : Type 0 where
  pub agg : ℕ
  pub late : ℕ
  pub alert : ℕ
  pub err : ℕ

-- What redis-py sends for a value; `none` is its DataError for `None` and for a truth value.
abbrev pub encode : Value → Option String
unfolding show
encode null = none
encode (flag b) = none
encode (num n) = some (show (num n))
encode (text s) = some s

-- `d.get(k) or default`, as redis-py sends it.
unfoldable pub field_or : String → String → Event → Option String
unfolding get encode
field_or k default d = elim (get k d) [
  | none ↦ some default
  | some null ↦ some default
  | some (num zero) ↦ some default
  | some (num (suc n)) ↦ encode (num (suc n))
  | some (text s) ↦ some (if str_eq s "" then default else s)
  | some (flag true) ↦ none
  | some (flag false) ↦ some default
]

-- `"" if d.get("imp_req_ratio") is None else d["imp_req_ratio"]`: a ratio of 0 stays.
unfoldable pub ratio_field : Event → Option String
unfolding get encode
ratio_field d = elim (get "imp_req_ratio" d) [
  | none ↦ some ""
  | some null ↦ some ""
  | some v ↦ encode v
]

-- `d[k]`, as redis-py sends it; `none` is a KeyError too.
unfoldable pub required : String → Event → Option String
unfolding get encode
required k d = elim (get k d) [ none ↦ none | some v ↦ encode v ]

-- A mapping of HSET, if all of its values can be sent.
unfoldable pub sent : List (String × Option String) → Option (Dict String)
sent [] = some []
sent ((k, v) ∷ rest) = elim v [
  | none ↦ none
  | some t ↦ elim (sent rest) [ none ↦ none | some h ↦ some ((k, t) ∷ h) ]
]

abbrev pub hash_fields : Event → String → String → List (String × Option String)
hash_fields d start now =
    ("campaign_id", required "campaign_id" d)
    ∷ ("advertiser", field_or "advertiser" "" d)
    ∷ ("campaign_name", field_or "campaign_name" "" d)
    ∷ ("impressions", field_or "impressions" "0" d)
    ∷ ("clicks", field_or "clicks" "0" d)
    ∷ ("completes", field_or "completes" "0" d)
    ∷ ("requests", field_or "requests" "0" d)
    ∷ ("imp_req_ratio", ratio_field d)
    ∷ ("ssai_dupes", field_or "ssai_dupes" "0" d)
    ∷ ("window_start", some start)
    ∷ ("window_end", required "window_end" d)
    ∷ ("updated_at", some now)
    ∷ []

-- What `handle_agg` reads of a message: the campaign, the minute in seconds, and the hash.
pub record Aggregate : Type 0 where
  pub cid : String
  pub epoch : ℕ
  pub hash : Dict String

-- `none` is a time that is no text or does not parse, a missing field, or a value that redis-py
-- does not send; it raises before anything is sent.
unfoldable pub aggregate_of : (String → Option ℕ) → Event → String → Option Aggregate
unfolding get_text required sent
aggregate_of instant d now = do
  start ← get_text "window_start" d
  epoch ← instant start
  cid ← required "campaign_id" d
  hash ← sent (hash_fields d start now)
  some record { cid = cid; epoch = epoch; hash = hash }

-- The minute of a late event: `none` is an exception, `some none` an event without a time.
unfoldable pub late_epoch : (String → Option ℕ) → Event → Option (Option ℕ)
unfolding get
late_epoch instant d = elim (get "event_time" d) [
  | none ↦ some none
  | some null ↦ some none
  | some (num zero) ↦ some none
  | some (num (suc n)) ↦ none
  | some (flag true) ↦ none
  | some (flag false) ↦ some none
  | some (text ts) ↦
      if str_eq ts "" then some none else elim (instant ts) [ none ↦ none | some m ↦ some (some m) ]
]

abbrev pub agg_key : String → ℕ → String
agg_key cid epoch = str_append "agg:1m:" (str_append cid (str_append ":" (minute_stamp epoch)))

-- What a `poll` of the consumer gives. A message has a topic and, if it is JSON, a dict.
pub data Poll : Type 0 where
  nothing : Poll
  kafka_error : (partition_eof : Bool) → Poll
  message : String → Option Event → ℕ → String → Poll

module _ (r : Redis) (instant : String → Option ℕ) (dump : Event → String) where
  open r use {Store, wait, hset, expire, sadd, zadd, zremrangebyscore, incr, lpush, ltrim}

  -- What a handler leaves: the store, the counts, and whether it raised.
  abbrev pub Handled : Type 0
  Handled = Option (Store × Counts)

  -- The pipeline of `handle_agg`, at a time in seconds.
  unfoldable pub write_agg : Aggregate → ℕ → Store → Store
  write_agg a now s =
      let key = agg_key a.cid a.epoch in
      let s1 = expire key ttl_seconds (hset key a.hash s) in
      let s2 = expire "agg:campaigns" ttl_seconds (sadd "agg:campaigns" a.cid s1) in
      zremrangebyscore "agg:index" 0 (now - ttl_seconds) (zadd "agg:index" key a.epoch s2)

  unfoldable pub handle_agg : Event → ℕ → String → Store → Counts → Handled
  unfolding aggregate_of
  handle_agg d now now_text s c = elim (aggregate_of instant d now_text) [
    | none ↦ none
    | some a ↦ some (write_agg a now s, record c { agg = c.agg + 1 })
  ]

  unfoldable pub write_late : ℕ → Store → Store
  write_late epoch s =
      let key = str_append "late:1m:" (minute_stamp epoch) in
      incr "late:total" (expire key ttl_seconds (incr key s))

  -- An event without a time is passed over.
  unfoldable pub handle_late : Event → Store → Counts → Handled
  unfolding late_epoch
  handle_late d s c = elim (late_epoch instant d) [
    | none ↦ none
    | some none ↦ some (s, c)
    | some (some epoch) ↦ some (write_late epoch s, record c { late = c.late + 1 })
  ]

  unfoldable pub write_alert : Event → Store → Store
  write_alert d s = incr "alerts:total" (
      expire "alerts:recent" ttl_seconds
        (ltrim "alerts:recent" 0 99 (lpush "alerts:recent" (dump d) s)))

  unfoldable pub handle_alert : Event → Store → Counts → Handled
  handle_alert d s c = some (write_alert d s, record c { alert = c.alert + 1 })

  -- `handlers[topic](r, d)`; another topic is a KeyError.
  unfoldable pub dispatch : String → Event → ℕ → String → Store → Counts → Handled
  dispatch topic d now now_text s c =
      if str_eq topic "agg.minute"
      then handle_agg d now now_text s c
      else if str_eq topic "late.events"
      then handle_late d s c
      else if str_eq topic "alert.anomaly"
      then handle_alert d s c
      else none

  abbrev pub failed : Store → Counts → Store × Counts
  failed s c = (s, record c { err = c.err + 1 })

  abbrev pub settle : Handled → Store → Counts → Store × Counts
  settle none s c = failed s c
  settle (some p) s c = p

  -- One round of the loop of `main`. A message is handled at its time `now`.
  unfoldable pub consume : Poll → Store × Counts → Store × Counts
  consume nothing (s, c) = (s, c)
  consume (kafka_error true) (s, c) = (s, c)
  consume (kafka_error false) (s, c) = failed s c
  consume (message topic none now now_text) (s, c) = failed s c
  consume (message topic (some d) now now_text) (s, c) =
      settle (dispatch topic d now now_text (wait now s) c) s c

  unfoldable pub consume_all : List Poll → Store × Counts → Store × Counts
  consume_all [] p = p
  consume_all (m ∷ ms) p = consume_all ms (consume m p)
