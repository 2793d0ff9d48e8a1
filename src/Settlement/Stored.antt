-- ===== src/Settlement/Stored.antt =====
-- spark/batch_settlement.py writes minute_settlement, which spark/reconcile.py reads.
pub mod Ranges
pub mod Compared
use mathlib.Core.List.{Memᴰ}
use mathlib.Core.Option.{some-injective, none-ne-some}
use ott_ad_pipeline.Base.{
  ℕ, zero, suc, ◌+◌, ◌*◌, ◌/◌, ◌%◌, ◌-◌, ◌≤◌, ◌≡◌, refl, ap, sym, ◌∙◌, subst, ◌&&◌, String, str_eq,
  Bool, true, false, Option, none, some, List, [], ◌∷◌, length, select, if◌then◌else◌, Bool-cases,
  inl, inr, arith, or_else, ◌>>=◌,
}
use ott_ad_pipeline.Base.Int.{pos, neg_part, ◌-ℤ◌}
use ott_ad_pipeline.Base.Dict.{Dict}
use ott_ad_pipeline.Settlement.Batch.{
  Row, Cell, Spark, raw_rows, dedup, imp_all, one_path, minute_of, minute_table,
}
use ott_ad_pipeline.Settlement.Batch.Laws.{SparkLaws, no_null}
use ott_ad_pipeline.Settlement.Batch.Minutes.{
  OuterLaws, kept, settled, minute_table_rows, minute_table-Present,
}
use ott_ad_pipeline.Settlement.Batch.Sums.{Distinct, total, passing, Counts, total-Counts}
use ott_ad_pipeline.Settlement.Reconcile.{parse_utc, compare_one}
use ott_ad_pipeline.Settlement.Reconcile.Fetch.{
  within, Minute, Day, Dropped, fetch_batch, fetch_late_dropped,
}
use ott_ad_pipeline.Settlement.Reconcile.Fetch.Window.{
  is_of, column_in, summed_in, raw_summed_in, compare_one-fetch,
}

-- The counts of a row: settled and raw impressions, clicks, completed plays and requests.
abbrev pub Five : Type 0
Five = (((ℕ × ℕ) × ℕ) × ℕ) × ℕ

-- A row with the columns that the comparison reads.
abbrev pub minute_row : ℕ → String → Five → Minute
minute_row m c n = record {
  minute_ts = m * 60;
  campaign_id = some c;
  impressions = some (n.0.0.0.0);
  raw_impressions = some (n.0.0.0.1);
}

-- The rows of minute_settlement after the write. Its key columns are NOT NULL, so that a row
-- without a minute or a campaign fails it.
unfoldable pub stored : List (Cell × Five) → Option (List Minute)
stored [] = some []
stored (((some m, some c), counts) ∷ table) =
    stored table >>= λ minutes. some (minute_row m c counts ∷ minutes)
stored (((some m, none), counts) ∷ table) = none
stored (((none, c), counts) ∷ table) = none
