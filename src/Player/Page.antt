-- ===== src/Player/Page.antt =====
-- player/app.py and player/catalog.py: what the page shows of the campaigns, and the events that
-- push the watermark.
use Prim.Native.String.{◌++◌ as str_append}
use ott_ad_pipeline.Base.{ℕ, ltb, String, Option, List, [], ◌∷◌, map, select, or_else}
use ott_ad_pipeline.Base.Dict.{Dict, get}
use ott_ad_pipeline.Event.{num, text, Event}

pub record Style : Type 0 where
  pub colors : String × String
  pub tagline : String

unfoldable pub vertical_style : Dict Style
vertical_style =
    ("telco", record { colors = ("#1b3a8f", "#4f7ce8"); tagline = "지금 가입하면 6개월 반값" })
    ∷ ("finance", record { colors = ("#0f3f35", "#2f8f76"); tagline = "첫 거래 고객 우대금리" })
    ∷ ("auto", record { colors = ("#2a2a2a", "#7a5a2a"); tagline = "사전예약 고객 한정 혜택" })
    ∷ ("commerce", record { colors = ("#5a1f3a", "#b8467a"); tagline = "가을 정기세일 최대 70%" })
    ∷ ("fmcg", record { colors = ("#3a2a0f", "#a8842f"); tagline = "3분이면 완성되는 한 끼" })
    ∷ ("trace", record { colors = ("#333", "#666"); tagline = "추적용 캠페인" })
    ∷ []

unfoldable pub default_style : Style
default_style = record { colors = ("#24303f", "#4a5a70"); tagline = "광고" }

unfoldable pub style_for : Option String → Style
unfolding get vertical_style default_style
style_for vertical = or_else (get (or_else vertical "") vertical_style) default_style

-- A campaign of the decision service. A budget is not negative, and a missing one is 0.
pub record Campaign : Type 0 where
  pub campaign_id : String
  pub daily_budget : ℕ
  pub vertical : Option String

-- The campaigns of `bootstrap`: those with a budget, each with its style.
unfoldable pub shown_campaigns : List Campaign → List (Campaign × Style)
unfolding style_for
shown_campaigns campaigns =
    map (λ c. (c, style_for c.vertical)) (select (λ c. ltb 0 c.daily_budget) campaigns)

-- The events of `nudge`, for the digits that `uuid4` gives each, at a time.
unfoldable pub nudge_event : ℕ → String → Event
nudge_event ts tag =
    ("event_id", text (str_append "evt-nudge-" tag))
    ∷ ("event_type", text "impression")
    ∷ ("campaign_id", text "cmp-9999")
    ∷ ("event_time", num ts)
    ∷ ("ad_request_id", text (str_append "req-nudge-" tag))
    ∷ ("source", text "client")
    ∷ []

unfoldable pub nudge : ℕ → String → String → String → List Event
nudge ts a b c = map (nudge_event ts) (a ∷ b ∷ c ∷ [])
