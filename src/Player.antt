-- ===== src/Player.antt =====
-- player/app.py: the demonstration player's server. It asks for an advertisement, passes events on
-- to the collector, and follows an advertisement through Kafka and Redis. The answers of the other
-- services are arguments.
pub mod Trace
pub mod Page
pub mod Tracking
pub mod Sending
pub mod Scanning
pub mod Http
pub mod Inspect
mod Tests
use Prim.Native.String.{◌++◌ as str_append}
use ott_ad_pipeline.Base.{
  ℕ, zero, suc, ◌+◌, ◌-◌, ◌≤◌, ◌≡◌, refl, String, str_eq, Bool, true, false, ◌||◌, ◌&&◌, not,
  Option, none, some, List, [], ◌∷◌, ◌++◌, map, drop, take, length, any, is_some, or_else,
  if◌then◌else◌, ◌==◌,
}
use ott_ad_pipeline.Base.Int.{ℤ, pos, ◌-ℤ◌}
use ott_ad_pipeline.Base.Dict.{Dict, get, put}
use ott_ad_pipeline.Base.Evict.{put_newest}
use ott_ad_pipeline.Event.{Value, null, num, text, flag, Event, get_text}
use ott_ad_pipeline.Signing.{keys}

-- `TOPIC_OF`
unfoldable pub topic_of : Dict String
topic_of =
    ("impression", "ad.impression")
    ∷ ("ad_impression", "ad.impression")
    ∷ ("quartile", "ad.quartile")
    ∷ ("start", "ad.quartile")
    ∷ ("first_quartile", "ad.quartile")
    ∷ ("midpoint", "ad.quartile")
    ∷ ("third_quartile", "ad.quartile")
    ∷ ("complete", "ad.quartile")
    ∷ ("click", "ad.click")
    ∷ ("ad_click", "ad.click")
    ∷ ("ad_request", "ad.request")
    ∷ ("ad_response", "ad.request")
    ∷ ("progress", "user.behavior")
    ∷ ("play", "user.behavior")
    ∷ ("pause", "user.behavior")
    ∷ ("resume", "user.behavior")
    ∷ ("seek", "user.behavior")
    ∷ ("session_start", "user.behavior")
    ∷ ("session_end", "user.behavior")
    ∷ ("content_start", "user.behavior")
    ∷ ("content_end", "user.behavior")
    ∷ []

-- What is kept of an event that was sent for an advertisement.
pub record Sent : Type 0 where
  pub event_id : Option Value
  pub kind : Option Value
  pub quartile : Option Value
  pub source : Value

-- A message that was found in Kafka.
pub record Found : Type 0 where
  pub topic : String
  pub partition : ℕ
  pub offset : ℕ

-- What a minute's hash in Redis says of a campaign.
pub record Agg : Type 0 where
  pub key : String
  pub impressions : ℕ
  pub clicks : ℕ
  pub completes : ℕ
  pub requests : ℕ
  pub ssai_dupes : ℕ

-- The state of one advertisement, an entry of `PLAYS`.
pub record Play : Type 0 where
  pub ad_request_id : String
  pub campaign : Option String
  pub minute : String
  pub offsets : List ((String × ℕ) × ℕ)
  pub kafka : List Found
  pub event_ids : List Sent
  pub redis_base : Option Agg

abbrev pub sent_entry : Event → Sent
sent_entry ev = record {
  event_id = get "event_id" ev;
  kind = get "event_type" ev;
  quartile = get "quartile" ev;
  source = or_else (get "source" ev) (text "client");
}

-- `remember`: an event of an advertisement that is followed. An empty id is no id.
unfoldable pub remember : Event → Dict Play → Dict Play
unfolding get put get_text
remember ev plays = elim (get_text "ad_request_id" ev) [
  | none ↦ plays
  | some arid ↦ if str_eq arid "" then plays else elim (get arid plays) [
    | none ↦ plays
    | some play ↦ put arid (record play { event_ids = play.event_ids ++ sent_entry ev ∷ [] }) plays
  ]
]

-- What `ad_request` does to `PLAYS` for a decision: the new advertisement is followed, and the
-- ones before the newest forty are not any more.
unfoldable pub follow : Play → Dict Play → Dict Play
unfolding put_newest
follow play plays = put_newest 40 play.ad_request_id play plays

-- A field that is missing, null, or the empty text.
unfoldable pub is_missing : String → Event → Bool
unfolding get
is_missing k ev = elim (get k ev) [
  | none ↦ true
  | some null ↦ true
  | some (text s) ↦ str_eq s ""
  | some (num n) ↦ false
  | some (flag b) ↦ false
]

unfoldable pub is_invalid : Event → Bool
unfolding is_missing
is_invalid ev =
    any (λ f. is_missing f ev) ("event_id" ∷ "event_type" ∷ "campaign_id" ∷ "event_time" ∷ [])

pub data Transport : Type 0 where
  pixel : (forged : Bool) → Transport
  batch : Transport

-- A row of the answer, with the status of the collector.
pub record ResultRow : Type 0 where
  pub event : Event
  pub topic : String
  pub transport : Transport
  pub status : ℕ

-- Whether `eid in ids`. An event without an id is in neither list.
abbrev pub has_id : Option String → List String → Bool
has_id none ids = false
has_id (some id) ids = any (λ j. str_eq j id) ids

-- The topic that a row shows for an event that is not forged.
unfoldable pub shown_topic : (lower : String → String) → Event → String
unfolding is_invalid get get_text topic_of
shown_topic lower ev =
    if is_invalid ev
    then "dlq.invalid (검증 실패)"
    else or_else (get (lower (or_else (get_text "event_type" ev) "")) topic_of)
        "dlq.invalid (알 수 없는 타입)"

-- The collector: a pixel's answer, which is for one event, and a batch's.
pub record Collector : Type 0 where
  pub send_pixel : Event → (forged : Bool) → ℕ
  pub post_events : List Event → ℕ

module _ (c : Collector) (lower : String → String) (pixel_ids forge_ids : List String) where
  open c use {send_pixel, post_events}

  -- One event of `events`: a row, or an entry of `post_buf`.
  unfoldable pub pixel_row : Event → Bool → ResultRow
  unfolding shown_topic
  pixel_row ev forged = record {
    event = ev;
    topic = if forged then "dlq.invalid (서명 위조)" else shown_topic lower ev;
    transport = pixel forged;
    status = send_pixel ev forged;
  }

  -- The loop of `events`: the rows of the pixels, and the events of the batch.
  unfoldable pub sort_out :
      List Event
      → Dict Play
      → List ResultRow
      → List Event
      → (List ResultRow × List Event) × Dict Play
  unfolding remember get_text pixel_row
  sort_out [] plays results buffered = ((results, buffered), plays)
  sort_out (ev ∷ evs) plays results buffered =
      let eid = get_text "event_id" ev in
      let forged = has_id eid forge_ids in
      let by_pixel = has_id eid pixel_ids || forged in
      sort_out evs (remember ev plays)
        (if by_pixel then results ++ pixel_row ev forged ∷ [] else results)
        (if by_pixel then buffered else buffered ++ ev ∷ [])

  unfoldable pub batch_row : ℕ → Event → ResultRow
  unfolding shown_topic
  batch_row status ev = record {
    event = ev;
    topic = shown_topic lower ev;
    transport = batch;
    status = status;
  }

  -- `if post_buf:` and the rows of the batch after it.
  unfoldable pub post_rest : List ResultRow → List Event → List ResultRow
  post_rest results [] = results
  post_rest results (ev ∷ evs) = results ++ map (batch_row (post_events (ev ∷ evs))) (ev ∷ evs)

  -- `events`
  unfoldable pub events : List Event → Dict Play → List ResultRow × Dict Play
  unfolding sort_out post_rest
  events batch_events plays =
      let ((results, buffered), next) = sort_out batch_events plays [] [] in
      (post_rest results buffered, next)
