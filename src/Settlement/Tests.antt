-- ===== src/Settlement/Tests.antt =====
-- The settlement jobs on small inputs, with an engine that has the documented laws.
mod Minutes
mod Days
mod Paid
mod Stored
use mathlib.Core.List.Memᴰ.{head}
use ott_ad_pipeline.Base.{ℕ, ◌+◌, ◌≡◌, refl, String, true, false, ◌||◌, none, some, List, [], ◌∷◌}
use ott_ad_pipeline.Base.Int.{pos, ◌-ℤ◌}
use ott_ad_pipeline.Base.Dict.{Dict, get}
use ott_ad_pipeline.Base.Sort.{IsSorted}
use ott_ad_pipeline.Base.Text.{text_le}
use ott_ad_pipeline.Signing.{keys}
use ott_ad_pipeline.Settlement.Reconcile.{
  Settled, compare_one, classify, settled_of, compare_all, campaigns, totals, total_residual, parts,
}
use ott_ad_pipeline.Settlement.Reconcile.Causes.{Explains, compare_one-Explains, no_parts-eq}
use ott_ad_pipeline.Settlement.Reconcile.Rows.{
  has, NoRepeat, campaigns_lem, sum_diff, sum_residual, totals-compare_all,
}
use ott_ad_pipeline.Settlement.Batch.{
  prio, prio_loop, Row, Daily, daily, priced, joined, dedup, one_path, base, imp_all, raw_rows,
  by_time, by_prio, earlier, is_campaign, is_complete, is_filled,
}
use ott_ad_pipeline.Settlement.Batch.Laws.{IsSettled, daily-IsSettled}
use ott_ad_pipeline.Settlement.Engine.{engine, engine_laws}
use ott_ad_pipeline.Settlement.Batch.Priority.{place, prio_lem}
use ott_ad_pipeline.Settlement.Reconcile.Fetch.{Dropped, Minute, fetch_batch, fetch_late_dropped}
use ott_ad_pipeline.Settlement.Reconcile.Fetch.Window.{
  summed_in, raw_summed_in, dropped_in, compare_one-fetch,
}

abbrev realtime : Dict ℕ
realtime = ("cmp-1001", 10) ∷ ("cmp-1002", 4) ∷ []

abbrev settled : Dict Settled
settled =
    ("cmp-1002", record { impressions = some 4; raw_impressions = some 4 })
    ∷ ("cmp-1001", record { impressions = some 9; raw_impressions = some 12 })
    ∷ []

abbrev late : Dict ℕ
late = ("cmp-1001", 2) ∷ []

compare_one-Explains_example :
    Explains
      (compare_one realtime settled late "cmp-1001").likely_cause
      (compare_one realtime settled late "cmp-1001")
compare_one-Explains_example = compare_one-Explains realtime settled late "cmp-1001"

campaigns_lem_example :
    ((c : String)
      → has c (campaigns realtime settled) ≡ (has c (keys realtime) || has c (keys settled)))
    × NoRepeat (campaigns realtime settled)
    × IsSorted text_le (campaigns realtime settled)
campaigns_lem_example = campaigns_lem realtime settled

abbrev two_cids : List String
two_cids = "cmp-1001" ∷ "cmp-1002" ∷ []

totals-compare_all_example :
    let rows = compare_all realtime settled late two_cids in
    let t = totals (record { t_rt = 0; t_bt = 0; t_late = 0; t_ssai = pos 0 }) rows in
    (pos t.t_bt -ℤ pos t.t_rt ≡ sum_diff rows) × (total_residual t ≡ sum_residual rows)
totals-compare_all_example = totals-compare_all realtime settled late two_cids

prio_lem_example :
    prio ("server" ∷ "client" ∷ []) (some "client")
    ≡ place 0 ("server" ∷ "client" ∷ []) (2 + 1) (some "client")
prio_lem_example = prio_lem ("server" ∷ "client" ∷ []) (some "client")

abbrev impression_of : String → String → String → Row
impression_of id request source = record {
  event_id = some id;
  event_time = some 1789200120;
  source_topic = "ad.impression";
  event_type = "impression";
  campaign_id = some "cmp-1001";
  ad_request_id = some request;
  source = some source;
  quartile = none;
  fill = none;
  late_flag = none;
}

-- One impression that came on both paths.
abbrev archive : List Row
archive = impression_of "evt-1" "req-1" "client" ∷ impression_of "evt-2" "req-1" "server" ∷ []

abbrev the_day : Daily
the_day = record {
  cell = (some 20708, some "cmp-1001");
  requests = 0;
  impressions = 1;
  clicks = 0;
  completes = 0;
  raw_impressions = 2;
  dupes_removed = pos 0;
  late_impressions = 0;
  cpm = 0;
  amount = 0;
}

abbrev priorities : List String
priorities = "server" ∷ "client" ∷ []

table_run :
    daily (λ c. none) (λ n cpm. 0) engine (λ a b. false) priorities archive ≡ some (the_day ∷ [])
unfolding daily priced joined dedup one_path base imp_all raw_rows by_time by_prio earlier prio
    prio_loop is_campaign is_complete is_filled ◌-ℤ◌
table_run = refl

daily-IsSettled_example : IsSettled engine engine_laws (λ a b. false) priorities archive the_day
daily-IsSettled_example =
    daily-IsSettled engine engine_laws (λ a b. false) priorities archive (λ c. none) (λ n cpm. 0)
      (the_day ∷ []) the_day table_run (head refl) refl

abbrev dropped_rows : List Dropped
dropped_rows =
    record { kind = "impression"; campaign_id = "cmp-1001"; event_time = 130 }
    ∷ record { kind = "click"; campaign_id = "cmp-1001"; event_time = 140 }
    ∷ record { kind = "impression"; campaign_id = "cmp-1001"; event_time = 200 }
    ∷ []

window_run : dropped_in "cmp-1001" 120 180 dropped_rows ≡ 1
window_run = refl
