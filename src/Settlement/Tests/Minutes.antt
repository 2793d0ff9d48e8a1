-- ===== src/Settlement/Tests/Minutes.antt =====
-- The minute table of spark/batch_settlement.py for a small archive.
use mathlib.Core.List.Memᴰ.{head}
use mathlib.Core.List.{Memᴰ}
use ott_ad_pipeline.Base.{ℕ, subst, sym, ◌+◌, ◌≤◌, ◌≡◌, refl, false, some, List, [], ◌∷◌, arith}
use ott_ad_pipeline.Settlement.Batch.{
  Row, Cell, minute_table, dedup, one_path, base, imp_all, raw_rows, by_time, by_prio, earlier,
  prio, prio_loop, is_campaign, is_complete, is_filled,
}
use ott_ad_pipeline.Settlement.Batch.Minutes.{
  counted, kept, settled, clicks, completes, requests, Present, minute_table_rows,
  minute_table-Present,
}
use ott_ad_pipeline.Settlement.Engine.{engine, engine_laws}
use ott_ad_pipeline.Settlement.Engine.Outer.{outer_laws}
use ott_ad_pipeline.Settlement.Tests.{archive, priorities}

abbrev the_minute : Cell
the_minute = (some 29820002, some "cmp-1001")

-- The counts of the minute among the rows of a kind.
abbrev count_in : List Row → ℕ
count_in rows = counted engine engine_laws outer_laws the_minute refl rows

abbrev impressions : List Row
impressions =
    settled engine engine_laws outer_laws the_minute refl (λ a b. false) priorities archive

abbrev all_impressions : List Row
all_impressions =
    imp_all (kept engine engine_laws outer_laws the_minute refl (λ a b. false) priorities archive)

abbrev all_clicks : List Row
all_clicks = clicks engine engine_laws outer_laws the_minute refl (λ a b. false) priorities archive

abbrev all_completes : List Row
all_completes =
    completes engine engine_laws outer_laws the_minute refl (λ a b. false) priorities archive

abbrev all_requests : List Row
all_requests =
    requests engine engine_laws outer_laws the_minute refl (λ a b. false) priorities archive

-- Both paths of the impression are raw, and one is settled.
minute_run :
    minute_table engine (λ a b. false) priorities archive ≡ (the_minute, ((((1, 2), 0), 0), 0)) ∷ []
unfolding minute_table dedup one_path base imp_all raw_rows by_time by_prio earlier prio prio_loop
    is_campaign is_complete is_filled
minute_run = refl

is_there :
    Memᴰ {A = Cell × ((((ℕ × ℕ) × ℕ) × ℕ) × ℕ)}
      (the_minute, ((((1, 2), 0), 0), 0))
      (minute_table engine (λ a b. false) priorities archive)
is_there =
    subst (λ t. Memᴰ {A = Cell × ((((ℕ × ℕ) × ℕ) × ℕ) × ℕ)} (the_minute, ((((1, 2), 0), 0), 0)) t)
      (sym minute_run) (head refl)

minute_table_rows_example :
    (1 ≡ count_in impressions)
    × (2 ≡ count_in all_impressions)
    × (0 ≡ count_in all_clicks)
    × (0 ≡ count_in all_completes)
    × (0 ≡ count_in all_requests)
minute_table_rows_example =
    minute_table_rows engine engine_laws outer_laws the_minute refl (λ a b. false) priorities
      archive 1 2 0 0 0 is_there

one_at_least :
    1
    ≤ count_in impressions
      + count_in all_impressions
      + count_in all_clicks
      + count_in all_completes
      + count_in all_requests
one_at_least =
    let (i, r, c, m, q) =
      minute_table_rows engine engine_laws outer_laws the_minute refl (λ a b. false) priorities
        archive 1 2 0 0 0 is_there in
    omega (arith, i, r, c, m, q)

minute_table-Present_example :
    Present the_minute (minute_table engine (λ a b. false) priorities archive)
minute_table-Present_example =
    minute_table-Present engine engine_laws outer_laws the_minute refl (λ a b. false) priorities
      archive one_at_least
