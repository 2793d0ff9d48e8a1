-- ===== src/Settlement/Stored/Compared.antt =====
-- What the comparison of a range in spark/reconcile.py sees of the events in the archive, by way of
-- the table that spark/batch_settlement.py writes.
use ott_ad_pipeline.Base.{
  ℕ, ◌≤◌, ◌≡◌, refl, ap, ◌∙◌, String, str_eq, Bool, true, false, Option, some, List, length, select,
  arith, or_else,
}
use ott_ad_pipeline.Base.Int.{pos, ◌-ℤ◌}
use ott_ad_pipeline.Base.Dict.{Dict}
use ott_ad_pipeline.Settlement.Batch.{
  Row, Cell, Spark, raw_rows, dedup, imp_all, one_path, minute_of, minute_table,
}
use ott_ad_pipeline.Settlement.Batch.Laws.{SparkLaws, no_null}
use ott_ad_pipeline.Settlement.Batch.Minutes.{OuterLaws, minute_table_rows, minute_table-Present}
use ott_ad_pipeline.Settlement.Batch.Sums.{Distinct, Counts, total-Counts}
use ott_ad_pipeline.Settlement.Reconcile.{parse_utc, compare_one}
use ott_ad_pipeline.Settlement.Reconcile.Fetch.{
  Minute, Day, Dropped, fetch_batch, fetch_late_dropped,
}
use ott_ad_pipeline.Settlement.Reconcile.Fetch.Window.{
  dropped_in, column_in, summed_in, raw_summed_in, compare_one-fetch,
}
use ott_ad_pipeline.Settlement.Stored.{Five, minute_row, stored}
use ott_ad_pipeline.Settlement.Stored.Ranges.{
  in_window, in_window-whole, happened, passing-happened, column_in-stored,
}

-- What Spark documents of keys: there is one row for each group, and a full outer join of tables
-- with one row for each key has one row for each key.
pub record DistinctLaws (spark : Spark) : Type 1 where
  pub group_distinct :
      (cell : Row → Cell) (rows : List Row) → Distinct (spark.group_count cell rows)
  pub outer_distinct :
      {A : Type 0} (d : A) (xs : List (Cell × A)) (ys : List (Cell × ℕ))
      → Distinct xs
      → Distinct ys
      → Distinct (spark.full_join d xs ys)

module _ (spark : Spark) (laws : SparkLaws spark) (outer : OuterLaws spark)
    (distinct : DistinctLaws spark) (text_lt : String → String → Bool) (names : List String)
    (rows : List Row) where
  open distinct use {group_distinct, outer_distinct}

  minute_table-Distinct : Distinct (minute_table spark text_lt names rows)
  unfolding minute_table
  minute_table-Distinct =
      outer_distinct _ _ _
        (outer_distinct _ _ _
          (outer_distinct _ _ _ (outer_distinct _ _ _ (group_distinct _ _) (group_distinct _ _))
            (group_distinct _ _))
          (group_distinct _ _))
        (group_distinct _ _)

  abbrev pub all_imps : List Row
  all_imps = imp_all (dedup spark text_lt names (raw_rows rows))

  abbrev pub settled_imps : List Row
  settled_imps = one_path spark text_lt names all_imps

  module _ (p : Cell → Bool) (whole : (k : Cell) → p k ≡ true → no_null k ≡ true) where
    settled-Counts :
        Counts minute_of p
          (λ (n : Five). n.0.0.0.0)
          (minute_table spark text_lt names rows)
          settled_imps
    settled-Counts = record {
      sound = λ k n m h.
          (minute_table_rows spark laws outer k (whole k h) text_lt names rows n.0.0.0.0 n.0.0.0.1
            n.0.0.1 n.0.1 n.1 m).0;
      complete = λ k h n.
          minute_table-Present spark laws outer k (whole k h) text_lt names rows (omega (arith, n));
    }

    raw-Counts :
        Counts minute_of p
          (λ (n : Five). n.0.0.0.1)
          (minute_table spark text_lt names rows)
          all_imps
    raw-Counts = record {
      sound = λ k n m h.
          (minute_table_rows spark laws outer k (whole k h) text_lt names rows n.0.0.0.0 n.0.0.0.1
            n.0.0.1 n.0.1 n.1 m).1;
      complete = λ k h n.
          minute_table-Present spark laws outer k (whole k h) text_lt names rows (omega (arith, n));
    }

  module _ (minutes : List Minute) (cid : String) (from to : ℕ)
      (written : stored (minute_table spark text_lt names rows) ≡ some minutes) where
    -- The sum of a column in the range counts the events of the range.
    column_in-happened :
        (column : Minute → Option ℕ) (f : Five → ℕ) (counted : List Row)
        → ((m : ℕ) (c : String) (n : Five) → or_else (column (minute_row m c n)) 0 ≡ f n)
        → Counts minute_of
            (in_window cid (parse_utc from) (parse_utc to))
            f
            (minute_table spark text_lt names rows)
            counted
        → column_in column cid (parse_utc from) (parse_utc to) minutes
          ≡ length (select (happened cid (parse_utc from) (parse_utc to)) counted)
    column_in-happened column f counted reads c =
        let t0 = parse_utc from in
        let t1 = parse_utc to in
        column_in-stored column f reads cid t0 t1 (minute_table spark text_lt names rows) minutes
          written
        ∙ total-Counts minute_of (in_window cid t0 t1) (in_window-whole cid t0 t1) f
            (minute_table spark text_lt names rows) counted minute_table-Distinct c
        ∙ passing-happened cid from to counted

    -- For an engine with the documented laws: the comparison of a campaign over a range, which is cut
    -- to whole minutes, has as its settled count the settled impressions of the campaign whose time
    -- is in the range, and as its second paths the impressions in the range, one for each event id,
    -- less the settled ones, which are not more; and as its late ones the impressions in the range
    -- that the real-time path dropped. A campaign has a name, and the table was written.
    pub compare_one-stored :
        (rt : Dict ℕ) (dropped : List Dropped) (daily : List Day) (dt : String)
        → str_eq cid "" ≡ false
        → let t0 = parse_utc from in
          let t1 = parse_utc to in
          let row =
            compare_one rt
              (fetch_batch true dt t0 t1 minutes daily)
              (fetch_late_dropped (some dropped) t0 t1)
              cid in
          let paid = length (select (happened cid t0 t1) settled_imps) in
          let all = length (select (happened cid t0 t1) all_imps) in
          (row.batch_impressions ≡ paid)
          × (row.ssai ≡ pos all -ℤ pos paid)
          × (paid ≤ all)
          × (row.late ≡ dropped_in cid t0 t1 dropped)
    unfolding one_path
    compare_one-stored rt dropped daily dt h =
        let t0 = parse_utc from in
        let t1 = parse_utc to in
        let whole = in_window-whole cid t0 t1 in
        let fetched = compare_one-fetch rt dropped minutes daily dt cid t0 t1 h in
        let imp : summed_in cid t0 t1 minutes ≡ length (select (happened cid t0 t1) settled_imps) =
          column_in-happened (λ m. m.impressions) (λ n. n.0.0.0.0) settled_imps (λ m c n. refl)
            (settled-Counts (in_window cid t0 t1) whole) in
        let raw : raw_summed_in cid t0 t1 minutes ≡ length (select (happened cid t0 t1) all_imps) =
          column_in-happened (λ m. m.raw_impressions) (λ n. n.0.0.0.1) all_imps (λ m c n. refl)
            (raw-Counts (in_window cid t0 t1) whole) in
        (
          fetched.0 ∙ imp,
          fetched.1
              ∙ ap (λ n. pos n -ℤ pos (summed_in cid t0 t1 minutes)) raw
              ∙ ap (λ n. pos (length (select (happened cid t0 t1) all_imps)) -ℤ pos n) imp,
          laws.first_part _ _ _ _,
          fetched.2,
        )
