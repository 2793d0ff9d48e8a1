-- ===== src/Tracer/Sending.antt =====
-- What the test events of the tracer are.
use Prim.Native.String.{◌++◌ as str_append}
use ott_ad_pipeline.Base.{
  ℕ, ◌+◌, ◌-◌, ◌*◌, ◌/◌, ◌≤◌, ◌≡◌, refl, String, true, none, some, List, [], ◌∷◌, All, ◌⊎◌, arith,
}
use ott_ad_pipeline.Base.Dict.{get, put}
use ott_ad_pipeline.Event.{num, text, flag, Event, get_text}
use ott_ad_pipeline.Tracer.{Services, Target, Sent, base_event, send}
use ott_ad_pipeline.Tracer.Kinds.{late}
use ott_ad_pipeline.Tracer.Trace.{is_target}

-- An event of a trace: it has the trace's request id and one of the ids that the trace looks for,
-- and the trace's own campaign or none.
pub record IsOwn (campaign arid : String) (ids : List Target) (ev : Event) : Type 0 where
  pub own_request : get_text "ad_request_id" ev ≡ some arid
  pub is_sought : is_target ids (get_text "event_id" ev) ≡ true
  pub own_campaign : (get "campaign_id" ev ≡ some (text campaign)) ⊎ (get "campaign_id" ev ≡ none)

abbrev pub AllOwn : String → Sent → Type 0
AllOwn campaign sent = All (All (IsOwn campaign sent.arid sent.ids)) sent.posted

-- The late event is posted alone, with a time whose minute was over at least thirty seconds ago.
pub send-late :
    (s : Services) (campaign : String) (ts : ℕ)
    → 90000 ≤ ts
    → (ev : Event) × (t : ℕ) × ((send s late campaign ts).posted ≡ (ev ∷ []) ∷ [])
      × (get "event_time" ev ≡ some (num t))
      × (get "_late" ev ≡ some (flag true))
      × ((t / 60000 + 1) * 60000 + 30000 ≤ ts)
unfolding send base_event get put
send-late s campaign ts h = (_, ts - 90000, refl, refl, refl, omega arith)
