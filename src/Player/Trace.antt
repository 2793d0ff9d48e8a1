-- ===== src/Player/Trace.antt =====
-- player/app.py: an advertisement is asked for, and followed through Redis and Kafka.
use Prim.Native.String.{◌++◌ as str_append}
use ott_ad_pipeline.Base.{
  ℕ, suc, String, str_eq, Bool, false, ◌||◌, ◌&&◌, not, Option, none, some, List, [], ◌∷◌, ◌++◌,
  any, or_else, if◌then◌else◌, ◌==◌,
}
use ott_ad_pipeline.Base.Int.{ℤ, pos, ◌-ℤ◌}
use ott_ad_pipeline.Base.Dict.{Dict, get, put}
use ott_ad_pipeline.Event.{text, Event, get_text}
use ott_ad_pipeline.Player.{Agg, Found, Play, follow}

-- `_redis_agg`: the hash of the campaign and minute, or nothing if there is none. `read` is
-- `int(float(x))` of a count that was stored, and a failed read is `none` like a missing hash.
abbrev pub count_field : (String → ℕ) → Dict String → String → ℕ
count_field read h f = elim (get f h) [ none ↦ 0 | some t ↦ if str_eq t "" then 0 else read t ]

unfoldable pub redis_agg :
    (String → ℕ) → (String → Option (Dict String)) → Option String → String → Option Agg
unfolding get
redis_agg read hgetall none minute = none
redis_agg read hgetall (some campaign) minute =
    let key = str_append "agg:1m:" (str_append campaign (str_append ":" minute)) in
    if str_eq campaign "" then none else elim (hgetall key) [
      | none ↦ none
      | some [] ↦ none
      | some (kv ∷ h) ↦
          let n = count_field read (kv ∷ h) in
          some record {
            key = key;
            impressions = n "impressions";
            clicks = n "clicks";
            completes = n "completes";
            requests = n "requests";
            ssai_dupes = n "ssai_dupes";
          }
    ]

-- `ad_request`, for the decision that came, if one did: without one the answer is a 502. `minute`
-- and `offsets` are those of now.
unfoldable pub ad_request :
    (String → ℕ)
    → (String → Option (Dict String))
    → (arid : String) → (decision : Option Event) → (minute : String) → List ((String × ℕ) × ℕ)
    → Dict Play
    → Option Event × Dict Play
unfolding redis_agg get_text get put follow
ad_request read hgetall arid none minute offsets plays = (none, plays)
ad_request read hgetall arid (some decision) minute offsets plays =
    let campaign = get_text "campaign_id" decision in
    let play : Play = record {
      ad_request_id = arid;
      campaign = campaign;
      minute = minute;
      offsets = offsets;
      kafka = [];
      event_ids = [];
      redis_base = redis_agg read hgetall campaign minute;
    } in
    let given = or_else (get_text "ad_request_id" decision) "" in
    let shown = if str_eq given "" then arid else given in
    (some (put "ad_request_id" (text shown) decision), follow play plays)

-- A message that a poll of Kafka gives, with its ids if it is JSON.
pub record Message : Type 0 where
  pub topic : String
  pub partition : ℕ
  pub offset : ℕ
  pub ids : Option (List String)

abbrev pub same_place : String → ℕ → String → ℕ → Bool
same_place t p u q = str_eq t u && p == q

-- `tr["offsets"][..] = n`
unfoldable pub put_offset : String → ℕ → ℕ → List ((String × ℕ) × ℕ) → List ((String × ℕ) × ℕ)
put_offset t p n [] = ((t, p), n) ∷ []
put_offset t p n (((u, q), m) ∷ rest) =
    if same_place t p u q then ((u, q), n) ∷ rest else ((u, q), m) ∷ put_offset t p n rest

-- `k in seen`
unfoldable pub was_found : Message → List Found → Bool
was_found m found =
    any (λ f. same_place m.topic m.partition f.topic f.partition && m.offset == f.offset) found

-- Whether a message is about the advertisement or one of its events.
unfoldable pub is_about : String → List String → List String → Bool
is_about arid targets ids = any (λ id. str_eq id arid || any (λ t. str_eq id t) targets) ids

-- One message in the loop of `scan_kafka`.
unfoldable pub scan_message : List String → Message → Play → Play
unfolding put_offset is_about was_found
scan_message targets m play =
    let moved = put_offset m.topic m.partition (suc m.offset) play.offsets in
    let hit : Bool = elim m.ids [
      | none ↦ false
      | some ids ↦ is_about play.ad_request_id targets ids
    ] in
    if hit && not (was_found m play.kafka)
    then record play {
      offsets = moved;
      kafka =
          play.kafka ++ record { topic = m.topic; partition = m.partition; offset = m.offset } ∷ [];
    }
    else record play { offsets = moved }

-- The loop of `scan_kafka`, for the messages that are polled before the deadline.
unfoldable pub scan_kafka : List String → List Message → Play → Play
scan_kafka targets [] play = play
scan_kafka targets (m ∷ ms) play = scan_kafka targets ms (scan_message targets m play)

-- The counts of `inspect` since the advertisement was asked for.
pub record Delta : Type 0 where
  pub key : String
  pub ssai_dupes : ℕ
  pub impressions : ℤ
  pub clicks : ℤ
  pub completes : ℤ
  pub requests : ℤ

unfoldable pub delta : Option Agg → Option Agg → Option Delta
delta none base = none
delta (some agg) none = some record {
  key = agg.key;
  ssai_dupes = agg.ssai_dupes;
  impressions = pos agg.impressions;
  clicks = pos agg.clicks;
  completes = pos agg.completes;
  requests = pos agg.requests;
}
delta (some agg) (some base) = some record {
  key = agg.key;
  ssai_dupes = agg.ssai_dupes;
  impressions = pos agg.impressions -ℤ pos base.impressions;
  clicks = pos agg.clicks -ℤ pos base.clicks;
  completes = pos agg.completes -ℤ pos base.completes;
  requests = pos agg.requests -ℤ pos base.requests;
}
