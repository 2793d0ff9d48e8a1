-- ===== src/Player/Tests.antt =====
-- The server of player/app.py on small inputs.
use ott_ad_pipeline.Base.{
  ℕ, ◌≡◌, refl, String, false, none, some, List, [], ◌∷◌, ◌++◌, drop, length, ◌-◌, All,
}
use ott_ad_pipeline.Base.Dict.{Dict, get, put}
use ott_ad_pipeline.Event.{text, Event}
use ott_ad_pipeline.Player.{Play, Collector, follow, events}
use ott_ad_pipeline.Player.Trace.{Message, scan_message, scan_kafka}
use ott_ad_pipeline.Player.Tracking.{follow_lem}
use ott_ad_pipeline.Player.Sending.{pixels, batched, batch_rows, events_lem}
use ott_ad_pipeline.Player.Scanning.{is_new, scan_kafka_lem}
use ott_ad_pipeline.Player.Inspect.{through_cache}
use ott_ad_pipeline.Player.Inspect.Cache.{Ask, Spaced, read_times, read_times-Spaced}

abbrev play_of : String → Play
play_of arid = record {
  ad_request_id = arid;
  campaign = some "cmp-1001";
  minute = "202609121022";
  offsets = [];
  kafka = [];
  event_ids = [];
  redis_base = none;
}

abbrev message_of : ℕ → String → Message
message_of offset id = record {
  topic = "ad.impression";
  partition = 0;
  offset = offset;
  ids = some (id ∷ []);
}

abbrev messages : List Message
messages = message_of 7 "req-1" ∷ message_of 8 "req-2" ∷ message_of 9 "evt-1" ∷ []

abbrev targets : List String
targets = "evt-1" ∷ []

scan_kafka_lem_example :
    All
      (λ m. is_new "req-1" targets (scan_kafka targets messages (play_of "req-1")).kafka m ≡ false)
      messages
scan_kafka_lem_example = scan_kafka_lem targets messages (play_of "req-1")

scan_run : length (scan_kafka targets messages (play_of "req-1")).kafka ≡ 2
unfolding scan_kafka scan_message
scan_run = refl

abbrev followed : Dict Play
followed = ("req-1", play_of "req-1") ∷ []

absent : get "req-2" followed ≡ none
unfolding get
absent = refl

follow_lem_example :
    follow (play_of "req-2") followed
    ≡ drop (length followed - 39) followed ++ ("req-2", play_of "req-2") ∷ []
follow_lem_example = follow_lem (play_of "req-2") followed absent

abbrev collector : Collector
collector = record { send_pixel = λ ev forged. 200; post_events = λ evs. 202 }

abbrev two_events : List Event
two_events =
    (("event_id", text "evt-1") ∷ [])
    ∷ (("event_id", text "evt-2") ∷ ("event_type", text "click") ∷ [])
    ∷ []

events_lem_example :
    (events collector (λ t. t) ("evt-1" ∷ []) [] two_events followed).0
    ≡ pixels collector (λ t. t) ("evt-1" ∷ []) [] two_events
      ++ batch_rows collector
          (λ t. t)
          ("evt-1" ∷ [])
          []
          (batched collector (λ t. t) ("evt-1" ∷ []) [] two_events)
events_lem_example = events_lem collector (λ t. t) ("evt-1" ∷ []) [] two_events followed

-- The second request is answered from the cache; the third asks five seconds after the first was done.
abbrev asks : List (Ask ℕ)
asks =
    (1000, (1400, none))
    ∷ (6200, (6300, some 1))
    ∷ (6400, (6500, some 1))
    ∷ (7000, (7100, some 2))
    ∷ []

read_times-Spaced_example : Spaced (read_times "req-1" asks [])
read_times-Spaced_example = read_times-Spaced "req-1" asks []

read_times_run : read_times "req-1" asks [] ≡ (1000, 1400) ∷ (6400, 6500) ∷ []
unfolding read_times through_cache get put
read_times_run = refl
