-- ===== src/Tracer/Tests.antt =====
-- The tracer of tracer/app.py on small inputs.
use ott_ad_pipeline.Base.{ℕ, String, Option, none, some, List, [], ◌∷◌, arith}
use ott_ad_pipeline.Event.{text}
use ott_ad_pipeline.Player.Trace.{put_offset}
use ott_ad_pipeline.Tracer.{Services, replied}
use ott_ad_pipeline.Tracer.Kinds.{normal}
use ott_ad_pipeline.Tracer.Trace.{Message, Trace, new_trace, scan_kafka}
use ott_ad_pipeline.Tracer.Scanning.{Delivered, IsOnce, scan_kafka-IsOnce}

abbrev services : Services
services = record {
  post_events = λ n evs. record { status = 202; body = "ok" };
  track = λ params. record { status = 200; body = "gif" };
  decide = λ arid. replied 200 "{}";
  hex = λ cut n. "0a";
  seconds = 1789200120;
}

abbrev no_hash : String → Option (List (String × String))
no_hash k = none

abbrev no_count : String → ℕ
no_count t = 0

abbrev offsets : List ((String × ℕ) × ℕ)
offsets = (("ad.impression", 0), 5) ∷ []

abbrev trace : Trace
trace = new_trace services no_count no_hash "1" normal 1789200120000 offsets

abbrev arrived : List Message
arrived =
    record {
      topic = "ad.impression";
      partition = 0;
      offset = 6;
      body = some (("event_id", text "evt-trace-0a") ∷ []);
      raw = none;
    }
    ∷ record { topic = "ad.impression"; partition = 0; offset = 9; body = none; raw = none }
    ∷ []

arrived-Delivered : Delivered trace.offsets arrived
unfolding put_offset new_trace
arrived-Delivered = (omega arith, (omega arith, tt))

scan_kafka-IsOnce_example : IsOnce (scan_kafka arrived trace)
unfolding new_trace
scan_kafka-IsOnce_example =
    scan_kafka-IsOnce arrived trace arrived-Delivered (record { once = tt; before = tt })
