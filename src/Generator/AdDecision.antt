-- ===== src/Generator/AdDecision.antt =====
-- generator/addecision.py: the client of the advertisement decision service. What the service
-- answers is an argument.
use ott_ad_pipeline.Base.{ℕ, String, Bool, ◌==◌, Option, none, some, if◌then◌else◌}
use ott_ad_pipeline.Generator.Stats.{Stats, bump, latency_ad}

-- The body of an answer, as far as the generator reads it.
pub record Decision : Type 0 where
  pub fill : Bool
  pub campaign_id : String
  pub creative_id : Option String
  pub ad_duration_s : Option ℕ

pub data Reply : Type 0 where
  replied : (status ms : ℕ) → Decision → Reply
  no_reply : Reply

unfoldable pub request : Reply → Stats → Option Decision × Stats
unfolding bump latency_ad
request no_reply s = (none, bump "ad.err" 1 s)
request (replied status ms d) s =
    if status == 200
    then (
      some d,
      bump (if d.fill then "ad.fill" else "ad.nofill") 1 (bump "ad.call" 1 (latency_ad ms s)),
    )
    else (none, bump "ad.err" 1 s)
