-- ===== src/Player/Http.antt =====
-- player/app.py: the calls of the collector, and the snapshot of Kafka's ends that a thread keeps.
-- The answers of the services are arguments; `none` is an exception.
use ott_ad_pipeline.Base.{ℕ, ◌+◌, String, Bool, Option, none, some, List, [], ◌∷◌, if◌then◌else◌}
use ott_ad_pipeline.Base.Dict.{Dict, get, put}
use ott_ad_pipeline.Event.{num, Event}
use ott_ad_pipeline.Signing.{Params, show, pixel_fields, sign}
use ott_ad_pipeline.Player.Trace.{put_offset}

pub record Reply : Type 0 where
  pub status : ℕ
  pub body : String

-- `post_events`, for the answer that came; `cut` is `text[:200]`.
unfoldable pub post_events :
    (cut : String → String) → (error : String) → Option (ℕ × String) → Reply
post_events cut error none = record { status = 0; body = cut error }
post_events cut error (some (status, text)) = record { status = status; body = cut text }

abbrev pub pixel_map : List (String × String)
pixel_map =
    ("eid", "event_id")
    ∷ ("et", "event_type")
    ∷ ("cid", "campaign_id")
    ∷ ("ts", "event_time")
    ∷ ("arid", "ad_request_id")
    ∷ ("crid", "creative_id")
    ∷ ("q", "quartile")
    ∷ ("sid", "session_id")
    ∷ ("src", "source")
    ∷ []

-- The parameters of `send_pixel`, at a time in seconds; a forged signature is a `uuid4`.
unfoldable pub send_params :
    (hmac : String → String → String) (secret : String) → Event → Bool → ℕ → String → Params
unfolding put
send_params hmac secret ev forge seconds hex =
    let params = put "exp" (show (num (seconds + 300))) (pixel_fields ev pixel_map []) in
    put "sig" (if forge then hex else sign hmac secret params) params

-- `send_pixel`, for what the collector answers to its parameters.
unfoldable pub send_pixel :
    (cut : String → String) → (error : String) → (Params → Option (ℕ × String)) → Params → Reply
send_pixel cut error track params = elim (track params) [
  | none ↦ record { status = 0; body = cut error }
  | some (status, described) ↦ record { status = status; body = described }
]

abbrev pub Ends : Type 0
Ends = List ((String × ℕ) × ℕ)

-- The ends of the partitions of a topic; one that cannot be read is left out.
unfoldable pub partition_ends : (String → ℕ → Option ℕ) → String → List ℕ → Ends → Ends
unfolding put_offset
partition_ends watermark t [] out = out
partition_ends watermark t (p ∷ ps) out =
    partition_ends watermark t ps
      (elim (watermark t p) [ none ↦ out | some hi ↦ put_offset t p hi out ])

unfoldable pub all_ends : List String → Dict (List ℕ) → (String → ℕ → Option ℕ) → Ends → Ends
unfolding get partition_ends
all_ends [] md watermark out = out
all_ends (t ∷ ts) md watermark out =
    all_ends ts md watermark
      (elim (get t md) [ none ↦ out | some ps ↦ partition_ends watermark t ps out ])

-- A round of `refresh_offsets`: the snapshot is replaced if the topics could be listed and an end
-- was read.
unfoldable pub refresh_offsets :
    List String → Option (Dict (List ℕ)) → (String → ℕ → Option ℕ) → Ends → Ends
unfolding all_ends
refresh_offsets topics none watermark snapshot = snapshot
refresh_offsets topics (some md) watermark snapshot = elim (all_ends topics md watermark []) [
  | [] ↦ snapshot
  | e ∷ es ↦ e ∷ es
]
