-- ===== src/Tracer.antt =====
-- tracer/app.py: the server that sends one test event of a kind and follows it. What the services
-- answer, the digits of `uuid.uuid4` and the times are arguments.
pub mod Kinds
pub mod Trace
pub mod Sending
pub mod Scanning
pub mod Keeping
pub mod Inspect
mod Tests
use Prim.Native.String.{◌++◌ as str_append}
use ott_ad_pipeline.Base.{
  ℕ, ◌+◌, ◌-◌, ◌/◌, String, Bool, true, false, Option, none, some, List, [], ◌∷◌, ◌++◌,
}
use ott_ad_pipeline.Base.Dict.{Dict, put, pop}
use ott_ad_pipeline.Event.{Value, num, text, flag, Event}
use ott_ad_pipeline.Signing.{show}
use ott_ad_pipeline.Tracer.Kinds.{
  Kind, normal, duplicate, ssai, late, bad_schema, forged, ad_request,
}

-- An id that the trace looks for, with its role on the page and the field that it stands in, where
-- that is not `event_id`.
pub record Target : Type 0 where
  pub event_id : String
  pub role : String
  pub match_field : Option String

-- What a call of a service gave; status 0 stands for an exception.
pub record Answer : Type 0 where
  pub status : ℕ
  pub body : String

pub data Decided : Type 0 where
  replied : (status : ℕ) (body : String) → Decided
  raised : String → Decided

-- The services, by the number of the call: the answer to two equal calls need not be the same.
pub record Services : Type 0 where
  pub post_events : ℕ → List Event → Answer
  pub track : Dict String → Answer
  pub decide : String → Decided
  -- the digits of the n-th `uuid4` of a call of `send`, cut to a length
  pub hex : ℕ → ℕ → String
  -- the time in seconds when the forged pixel is built
  pub seconds : ℕ

-- What `send` returns, and the calls that it made.
pub record Sent : Type 0 where
  pub ts : ℕ
  pub arid : String
  pub ids : List Target
  pub http : List Answer
  pub posted : List (List Event)
  pub tracked : List (Dict String)

unfoldable pub base_event : String → String → ℕ → String → String → Event
base_event campaign event_id ts arid source =
    ("event_id", text event_id)
    ∷ ("event_type", text "impression")
    ∷ ("campaign_id", text campaign)
    ∷ ("event_time", num ts)
    ∷ ("ad_request_id", text arid)
    ∷ ("creative_id", text "crt-trace-a")
    ∷ ("session_id", text "sess-trace")
    ∷ ("user_id", text "user-trace")
    ∷ ("device", text "smart_tv")
    ∷ ("content_id", text "ct-trace")
    ∷ ("source", text source)
    ∷ []

abbrev pub target : String → String → Target
target event_id role = record { event_id = event_id; role = role; match_field = none }

-- The branch of `ad_request` after its call.
unfoldable pub asked_decision : String → ℕ → Decided → Sent
asked_decision arid ts (replied status body) = record {
  ts = ts;
  arid = arid;
  ids =
      record {
        event_id = arid;
        role = "ad_request_id (Outbox 로 나간다)";
        match_field = some "ad_request_id";
      }
      ∷ [];
  http = record { status = status; body = body } ∷ [];
  posted = [];
  tracked = [];
}
asked_decision arid ts (raised error) = record {
  ts = ts;
  arid = arid;
  ids = [];
  http = record { status = 0; body = error } ∷ [];
  posted = [];
  tracked = [];
}

module _ (s : Services) where
  abbrev pub new_id : ℕ → String
  new_id n = str_append "evt-trace-" (s.hex 12 n)

  -- `send` of one batch, which holds an event of the first new id.
  abbrev pub one_batch : ℕ → String → String → Event → Sent
  one_batch ts arid role ev = record {
    ts = ts;
    arid = arid;
    ids = target (new_id 1) role ∷ [];
    http = s.post_events 0 (ev ∷ []) ∷ [];
    posted = (ev ∷ []) ∷ [];
    tracked = [];
  }

  -- The parameters of the forged pixel, at a time in seconds; the signature is made up.
  unfoldable pub forged_params : String → ℕ → String → Dict String
  unfolding show
  forged_params campaign ts arid =
      ("eid", new_id 1)
      ∷ ("et", "impression")
      ∷ ("cid", campaign)
      ∷ ("ts", show (num ts))
      ∷ ("arid", arid)
      ∷ ("sid", "sess-trace")
      ∷ ("src", "client")
      ∷ ("exp", show (num (s.seconds + 300)))
      ∷ ("sig", str_append "deadbeef" (s.hex 24 2))
      ∷ []

  -- `send`, at a time in milliseconds, which is later than the first 90 seconds of 1970.
  unfoldable pub send : Kind → String → ℕ → Sent
  unfolding base_event put pop forged_params asked_decision
  send normal campaign ts =
      let arid = str_append "req-trace-" (s.hex 10 0) in
      one_batch ts arid "임프레션" (base_event campaign (new_id 1) ts arid "client")
  send duplicate campaign ts =
      let arid = str_append "req-trace-" (s.hex 10 0) in
      let batch = base_event campaign (new_id 1) ts arid "client" ∷ [] in
      record {
        ts = ts;
        arid = arid;
        ids = target (new_id 1) "원본 + 재전송 (같은 event_id)" ∷ [];
        http = s.post_events 0 batch ∷ s.post_events 1 batch ∷ [];
        posted = batch ∷ batch ∷ [];
        tracked = [];
      }
  send ssai campaign ts =
      let arid = str_append "req-trace-" (s.hex 10 0) in
      let ev_a = base_event campaign (new_id 1) ts arid "client" in
      let ev_b =
        put "ssai_twin_of" (text (new_id 1)) (base_event campaign (new_id 2) ts arid "server") in
      let batch = ev_a ∷ ev_b ∷ [] in
      record {
        ts = ts;
        arid = arid;
        ids = target (new_id 1) "클라이언트 경로" ∷ target (new_id 2) "서버 경로 (SSAI 스티처)" ∷ [];
        http = s.post_events 0 batch ∷ [];
        posted = batch ∷ [];
        tracked = [];
      }
  send late campaign ts =
      let arid = str_append "req-trace-" (s.hex 10 0) in
      one_batch ts arid "90초 지연 임프레션"
        (put "_late" (flag true) (base_event campaign (new_id 1) (ts - 90000) arid "client"))
  send bad_schema campaign ts =
      let arid = str_append "req-trace-" (s.hex 10 0) in
      one_batch ts arid "campaign_id 없는 임프레션"
        (pop "campaign_id" (base_event campaign (new_id 1) ts arid "client"))
  send forged campaign ts =
      let arid = str_append "req-trace-" (s.hex 10 0) in
      let params = forged_params campaign ts arid in
      record {
        ts = ts;
        arid = arid;
        ids = target (new_id 1) "서명 위조 픽셀" ∷ [];
        http = s.track params ∷ [];
        posted = [];
        tracked = params ∷ [];
      }
  send ad_request campaign ts =
      let arid = str_append "req-trace-" (s.hex 10 0) in asked_decision arid ts (s.decide arid)
