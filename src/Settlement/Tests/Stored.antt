-- ===== src/Settlement/Tests/Stored.antt =====
-- The table of minutes for a small archive, written by one job and compared by the other.
use ott_ad_pipeline.Base.{ℕ, ◌≤◌, ◌≡◌, refl, true, false, some, List, [], ◌∷◌, length, select}
use ott_ad_pipeline.Base.Int.{pos, ◌-ℤ◌}
use ott_ad_pipeline.Settlement.Batch.{
  Row, minute_table, dedup, one_path, base, imp_all, raw_rows, by_time, by_prio, earlier, prio,
  prio_loop, is_campaign, is_complete, is_filled,
}
use ott_ad_pipeline.Settlement.Engine.{engine, engine_laws}
use ott_ad_pipeline.Settlement.Engine.Outer.{outer_laws}
use ott_ad_pipeline.Settlement.Engine.Distinct.{distinct_laws}
use ott_ad_pipeline.Settlement.Reconcile.{parse_utc, compare_one}
use ott_ad_pipeline.Settlement.Reconcile.Fetch.{Minute, fetch_batch, fetch_late_dropped}
use ott_ad_pipeline.Settlement.Reconcile.Fetch.Window.{dropped_in}
use ott_ad_pipeline.Settlement.Stored.{minute_row, stored}
use ott_ad_pipeline.Settlement.Stored.Ranges.{happened}
use ott_ad_pipeline.Settlement.Stored.Compared.{settled_imps, all_imps, compare_one-stored}
use ott_ad_pipeline.Settlement.Tests.{archive, priorities, dropped_rows}

abbrev minutes : List Minute
minutes = minute_row 29820002 "cmp-1001" ((((1, 2), 0), 0), 0) ∷ []

written : stored (minute_table engine (λ a b. false) priorities archive) ≡ some minutes
unfolding stored minute_table dedup one_path base imp_all raw_rows by_time by_prio earlier prio
    prio_loop is_campaign is_complete is_filled
written = refl

-- Of the range, which is cut to the minute of the two impressions.
abbrev in_range : List Row → ℕ
in_range rows =
    length (select (happened "cmp-1001" (parse_utc 1789200125) (parse_utc 1789200200)) rows)

compare_one-stored_example :
    let t0 = parse_utc 1789200125 in
    let t1 = parse_utc 1789200200 in
    let row =
      compare_one []
        (fetch_batch true "" t0 t1 minutes [])
        (fetch_late_dropped (some dropped_rows) t0 t1)
        "cmp-1001" in
    let settled =
      settled_imps engine engine_laws outer_laws distinct_laws (λ a b. false) priorities archive in
    let imps =
      all_imps engine engine_laws outer_laws distinct_laws (λ a b. false) priorities archive in
    (row.batch_impressions ≡ in_range settled)
    × (row.ssai ≡ pos (in_range imps) -ℤ pos (in_range settled))
    × (in_range settled ≤ in_range imps)
    × (row.late ≡ dropped_in "cmp-1001" t0 t1 dropped_rows)
compare_one-stored_example =
    compare_one-stored engine engine_laws outer_laws distinct_laws (λ a b. false) priorities archive
      minutes "cmp-1001" 1789200125 1789200200 written [] dropped_rows [] "" refl
