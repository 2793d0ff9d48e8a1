-- ===== src/Settlement/Tests/Days.antt =====
-- Which rows daily_settlement of spark/batch_settlement.py has for a small archive.
use mathlib.Core.List.{Memᴰ}
use ott_ad_pipeline.Base.{◌≤◌, ◌≡◌, ◌↔◌, refl, false, none, some, [], ◌∷◌}
use ott_ad_pipeline.Settlement.Batch.{Cell, Daily}
use ott_ad_pipeline.Settlement.Batch.Days.{raw_count, daily_rows}
use ott_ad_pipeline.Settlement.Engine.{engine, engine_laws}
use ott_ad_pipeline.Settlement.Engine.Left.{left_laws}
use ott_ad_pipeline.Settlement.Engine.Outer.{outer_laws}
use ott_ad_pipeline.Settlement.Tests.{archive, priorities, the_day, table_run}

abbrev day : Cell
day = (some 20708, some "cmp-1001")

daily_rows_example : ((d : Daily) × Memᴰ d (the_day ∷ []) × (d.cell ≡ day)) ↔ (
    1
    ≤ raw_count engine engine_laws outer_laws left_laws (λ a b. false) priorities archive day refl)
daily_rows_example =
    daily_rows engine engine_laws outer_laws left_laws (λ a b. false) priorities archive day refl
      (λ c. none) (λ n cpm. 0) (the_day ∷ []) table_run
