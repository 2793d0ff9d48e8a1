-- ===== src/Writer/Tests/Runs.antt =====
-- Runs of the consumer of redis-writer/writer.py on the test store: what its hashes hold, messages
-- that come twice, messages that are refused, and the alerts that are given out again.
use ott_ad_pipeline.Base.{
  true, ℕ, ◌≡◌, refl, arith, String, false, Option, none, some, List, [], ◌∷◌, take, All,
}
use ott_ad_pipeline.Base.Int.{pos}
use ott_ad_pipeline.Base.Dict.{get}
use ott_ad_pipeline.Event.{Event, num, text, flag}
use ott_ad_pipeline.Writer.{
  Poll, nothing, kafka_error, message, consume_all, agg_key, consume, dispatch, handle_agg,
  handle_late, aggregate_of, late_epoch, sent, field_or, required, ratio_field,
}
use ott_ad_pipeline.Calendar.{minute_stamp}
use ott_ad_pipeline.Writer.Upsert.{latest, shown, InHash}
use ott_ad_pipeline.Writer.Upsert.Lasting.{field-consume_all}
use ott_ad_pipeline.Writer.Tests.Memory.{redis, clock_laws, redis_laws, hash_laws, list_of}
use ott_ad_pipeline.Writer.Queue.{recent}
use ott_ad_pipeline.Writer.Api.{alerts, Parsers, do_get}
use ott_ad_pipeline.Writer.Api.Alerts.{Reads, alert_events, do_get-alerts}
use ott_ad_pipeline.Writer.Tests.{store, no_counts}

abbrev pub aggregate : Event
aggregate =
    ("window_start", text "2026-09-12T10:22:00Z")
    ∷ ("window_end", text "2026-09-12T10:23:00Z")
    ∷ ("campaign_id", text "cmp-1001")
    ∷ ("impressions", num 3)
    ∷ []

-- `fromisoformat` for a program that reads one minute.
abbrev pub at_minute : String → Option ℕ
at_minute t = some 1789208520

abbrev pub no_dump : Event → String
no_dump d = "alert"

abbrev messages : List Poll
messages =
    message "agg.minute" (some aggregate) 1789208600 "10:23:20"
    ∷ nothing
    ∷ message "agg.minute" (some []) 1789208600 "10:23:20"
    ∷ kafka_error false
    ∷ []

the_field : InHash "impressions"
unfolding get
the_field d start now = refl

field-consume_all_example :
    get "impressions" (
      redis.hgetall
        (agg_key "cmp-1001" 1789208520)
        (redis.wait 1789300000 (consume_all redis at_minute no_dump messages (store, no_counts)).0))
    ≡ shown "impressions" 1789300000 (latest at_minute (agg_key "cmp-1001" 1789208520) messages) (
        get "impressions"
          (redis.hgetall (agg_key "cmp-1001" 1789208520) (redis.wait 1789300000 store)))
field-consume_all_example =
    field-consume_all redis clock_laws hash_laws at_minute no_dump "impressions" "cmp-1001"
      1789208520 1789300000 0 messages store no_counts the_field (omega arith)
      (omega arith, (omega arith, omega arith))

-- What is read of the minute before its time to live is over, and when it is.
alive_run :
    shown "impressions" 1789300000 (latest at_minute "agg:1m:cmp-1001:202609121022" messages) none
    ≡ some "3"
unfolding aggregate_of sent field_or required ratio_field minute_stamp get
alive_run = refl

gone_run :
    shown "impressions" 1789381400 (latest at_minute "agg:1m:cmp-1001:202609121022" messages) none
    ≡ none
unfolding aggregate_of sent field_or required ratio_field minute_stamp get
gone_run = refl

-- A number for a time is an error, and so is a truth value for a count; an empty time is not.
errors_run :
    (consume_all redis at_minute no_dump
      (message "late.events" (some (("event_time", num 5) ∷ [])) 0 ""
        ∷ message "late.events" (some (("event_time", text "") ∷ [])) 0 ""
        ∷ message "agg.minute" (some (("clicks", flag true) ∷ aggregate)) 0 ""
        ∷ [])
      (store, no_counts)).1.err
    ≡ 2
unfolding consume_all consume dispatch handle_agg handle_late aggregate_of late_epoch sent field_or
    required ratio_field get
errors_run = refl

abbrev alert : Event
alert = ("id", num 1) ∷ []

abbrev alarms : List Poll
alarms = message "alert.anomaly" (some alert) 0 "" ∷ message "other" (some []) 0 "" ∷ []

abbrev parsers : Parsers
parsers = record {
  read = λ t. some 0;
  int_of = λ t. some (pos 20);
  day_start = λ t. none;
  loads = λ t. some alert;
}

no_alerts_yet : list_of recent store ≡ []
unfolding get
no_alerts_yet = refl

alarms-Reads : All (Reads parsers.loads no_dump) (alert_events 60 alarms [] none)
unfolding alert_events
alarms-Reads = (refl, tt)

do_get-alerts_example :
    do_get parsers redis "/alerts" [] no_counts 5 "2026-09-12" 60
      (some (redis.wait 60 (consume_all redis at_minute no_dump alarms (store, no_counts)).0))
    ≡ alerts (take 20 (alert_events 60 alarms [] none))
do_get-alerts_example =
    do_get-alerts parsers redis clock_laws redis_laws at_minute no_dump 0 alarms store no_counts []
      19 5 "2026-09-12" 60 (omega arith) (omega arith, (omega arith, omega arith)) alarms-Reads
      no_alerts_yet refl (omega arith)
