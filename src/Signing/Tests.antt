-- ===== src/Signing/Tests.antt =====
-- Signed pixels on small inputs.
use ott_ad_pipeline.Base.{◌≡◌, some, [], ◌∷◌, false}
use ott_ad_pipeline.Base.Dict.{get}
use ott_ad_pipeline.Event.{num, text, Event}
use ott_ad_pipeline.Signing.{sign, pixel_params}
use ott_ad_pipeline.Signing.Laws.{get-pixel_params}

abbrev pixel_event : Event
pixel_event = ("event_id", text "evt-1") ∷ ("event_time", num 1789200120000) ∷ []

get-pixel_params_example :
    get "sig" (pixel_params (λ s t. t) "secret" pixel_event false 1789200120 "0a")
    ≡ some (
        sign
          (λ s t. t)
          "secret"
          (pixel_params (λ s t. t) "secret" pixel_event false 1789200120 "0a"))
get-pixel_params_example = get-pixel_params (λ s t. t) "secret" pixel_event 1789200120 "0a"
