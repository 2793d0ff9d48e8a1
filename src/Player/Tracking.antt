-- ===== src/Player/Tracking.antt =====
-- Which advertisements the server keeps following.
use ott_ad_pipeline.Base.{◌-◌, ◌≡◌, ◌∙◌, ap, none, [], ◌∷◌, ◌++◌, drop, length, arith}
use ott_ad_pipeline.Base.Dict.{Dict, get}
use ott_ad_pipeline.Base.Evict.{put_newest_lem}
use ott_ad_pipeline.Player.{Play, follow}

-- An advertisement whose id is not followed yet is followed last, behind the newest thirty-nine of
-- those that were, which stay as they are and in their order: only the ones before them go.
pub follow_lem :
    (play : Play) (plays : Dict Play)
    → get play.ad_request_id plays ≡ none
    → follow play plays ≡ drop (length plays - 39) plays ++ (play.ad_request_id, play) ∷ []
unfolding follow
follow_lem play plays h =
    put_newest_lem 40 play.ad_request_id play plays (omega arith) h
    ∙ ap (λ n. drop n plays ++ (play.ad_request_id, play) ∷ []) (omega arith)
