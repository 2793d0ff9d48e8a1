-- ===== src/Generator/Tests/Runs.antt =====
-- A session of generator/users.py, and the reporter and the bursts of generator/main.py, on small
-- inputs.
use ott_ad_pipeline.Base.{ℕ, ◌≤◌, leb, none, some, ◌+◌, ◌*◌, ◌≡◌, refl, true, [], ◌∷◌, arith}
use ott_ad_pipeline.Generator.Catalog.{Content}
use ott_ad_pipeline.Generator.Users.{World, Done}
use ott_ad_pipeline.Generator.Users.Running.{run}
use ott_ad_pipeline.Generator.Users.Watch.{timeline, follow, finish_session, slots}
use ott_ad_pipeline.Generator.Users.Ads.{labels}
use ott_ad_pipeline.Generator.Users.Stops.{labels_stopped}
use ott_ad_pipeline.Generator.Users.Typed.{AllTyped}
use ott_ad_pipeline.Generator.Users.Typed.Sessions.{run-AllTyped}
use ott_ad_pipeline.Generator.Main.Speed.{Pace, report, reports, corrected}
use ott_ad_pipeline.Generator.Main.Pacing.{InRange, reports-InRange}
use ott_ad_pipeline.Generator.Tests.{world, viewer, nothing_done}

abbrev a_short : Content
a_short = record { content_id = "ct-1"; kind = "vod"; duration_s = 90; ad_breaks = 30 ∷ [] }

abbrev too_fast : Pace
too_fast = record { tick = 2; speed = (9000, 1) }

reports-InRange_example : InRange (reports 200 (500 ∷ 100 ∷ []) too_fast).speed
reports-InRange_example = reports-InRange 200 500 (100 ∷ []) too_fast (omega arith)

abbrev steady : Pace
steady = record { tick = 2; speed = (20, 1) }

-- Half the target was sent, so the speed grows by 35 percent.
report_run : (report 200 100 steady).speed ≡ (20 * (65 * 100 + 35 * 200), 1 * (100 * 100))
unfolding report corrected
report_run = refl

-- A world in which the stop event is set from the third look on.
abbrev ending : World
ending = record world { stop = λ n. leb 2 n }

ending_stops : (k : ℕ) → 2 ≤ k → ending.stop k ≡ true
ending_stops k h = ground (arith, h)

abbrev stopped_now : Done
stopped_now = record nothing_done { checks = 2 }

labels_stopped_example :
    (labels (
        finish_session ending viewer a_short
          (follow ending viewer 0 none (timeline a_short) stopped_now))
      ≡ labels stopped_now)
    × (labels (slots ending viewer "pod-1" 2 0 30 stopped_now) ≡ labels stopped_now)
labels_stopped_example =
    labels_stopped ending viewer a_short 0 none (timeline a_short) "pod-1" 2 0 30 stopped_now
      ending_stops

run-AllTyped_example : (t : Done) × (run (2 + 1) ending viewer nothing_done ≡ some t) × AllTyped t
run-AllTyped_example = run-AllTyped 2 ending viewer nothing_done tt ending_stops
