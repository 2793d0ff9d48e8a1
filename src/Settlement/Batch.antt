-- ===== src/Settlement/Batch.antt =====
-- spark/batch_settlement.py: the daily and the minute settlement of the archived events. Spark is a parameter,
-- with the operations on tables that the job uses; a filter is written out, and drops a row whose
-- condition is null. The price of a row is the parameter `price`.
pub mod Laws
pub mod Priority
pub mod Minutes
pub mod Days
pub mod Paid
pub mod Sums
use ott_ad_pipeline.Base.{
  ℕ, zero, suc, ◌+◌, ◌-◌, ◌*◌, ◌/◌, ltb, ◌==◌, ◌&&◌, ◌||◌, not, String, str_eq, Bool, true, false,
  Option, none, some, List, [], ◌∷◌, map, if◌then◌else◌, or_else, is_some, select, length,
}
use ott_ad_pipeline.Base.Int.{ℤ, pos, ◌-ℤ◌}

-- A row of the archive: the columns that the job reads, a time in seconds.
pub record Row : Type 0 where
  pub event_id : Option String
  pub event_time : Option ℕ
  pub source_topic : String
  pub event_type : String
  pub campaign_id : Option String
  pub ad_request_id : Option String
  pub source : Option String
  pub quartile : Option String
  pub fill : Option Bool
  pub late_flag : Option Bool

-- A group: a time (a day, or a minute) and a campaign.
abbrev pub Cell : Type 0
Cell = Option ℕ × Option String

-- `row_number()` over a window, with the filter on 1; `groupBy(..).count()`; a left join on the
-- group, with the missing counts filled by 0; and a full outer one, which also
-- fills the left side, by its first argument.
pub record Spark : Type 1 where
  pub first_of : (Row → Option String) → (Row → Row → Bool) → List Row → List Row
  pub group_count : (Row → Cell) → List Row → List (Cell × ℕ)
  pub left_join : {A : Type 0} → List (Cell × A) → List (Cell × ℕ) → List (Cell × (A × ℕ))
  pub full_join : {A : Type 0} → A → List (Cell × A) → List (Cell × ℕ) → List (Cell × (A × ℕ))

-- `F.col(c) == value`, a null column gives null and the row goes.
abbrev pub is_text : String → Option String → Bool
is_text v none = false
is_text v (some c) = str_eq c v

abbrev pub is_true : Option Bool → Bool
is_true none = false
is_true (some b) = b

-- `~F.col("campaign_id").isin(NON_CAMPAIGN)`
unfoldable pub is_campaign : Option String → Bool
is_campaign none = false
is_campaign (some c) = not (str_eq c "none" || str_eq c "nofill" || str_eq c "pending")

-- `prio`: each turn of the loop puts a test in front, for `n` priorities, at turn `i`.
unfoldable pub prio_loop : ℕ → ℕ → List String → (Option String → ℕ) → Option String → ℕ
prio_loop n i [] prio = prio
prio_loop n i (src ∷ rest) prio =
    prio_loop n (suc i) rest (λ source. if is_text src source then n - 1 - i else prio source)

abbrev pub reverse_onto : List String → List String → List String
reverse_onto [] done = done
reverse_onto (x ∷ xs) done = reverse_onto xs (x ∷ done)

-- The names of `SSAI_SOURCE_PRIORITY` come without the blanks around them.
unfoldable pub prio : List String → Option String → ℕ
unfolding prio_loop
prio names = prio_loop (length names) 0 (reverse_onto names []) (λ source. length names + 1)

-- `asc_nulls_last` on times.
unfoldable pub earlier : Option ℕ → Option ℕ → Bool
earlier (some a) (some b) = ltb a b
earlier (some a) none = true
earlier none t = false

abbrev pub same_time : Option ℕ → Option ℕ → Bool
same_time none none = true
same_time (some a) (some b) = a == b
same_time _ _ = false

abbrev pub is_event : String → Row → Bool
is_event kind e = str_eq e.event_type kind

unfoldable pub is_complete : Row → Bool
is_complete e = is_event "quartile" e && is_text "complete" e.quartile

unfoldable pub is_filled : Row → Bool
is_filled e = is_event "ad_response" e && is_true e.fill

-- `raw`: the rows with an event id.
unfoldable pub raw_rows : List Row → List Row
raw_rows rows = select (λ e. is_some e.event_id) rows

-- `imp_all`: the impressions of campaigns.
unfoldable pub imp_all : List Row → List Row
imp_all rows = select (λ e. is_event "impression" e && is_campaign e.campaign_id) rows

abbrev pub request_key : Row → Option String
request_key e = elim e.ad_request_id [ none ↦ e.event_id | some id ↦ some id ]

-- `base`
unfoldable pub base : List Row → List Row
base rows = select (λ e. is_campaign e.campaign_id) rows

-- `to_date`, and `date_trunc("minute", ..)`.
abbrev pub day_of : Row → Cell
day_of e = (elim e.event_time [ none ↦ none | some t ↦ some (t / 86400) ], e.campaign_id)

abbrev pub minute_of : Row → Cell
minute_of e = (elim e.event_time [ none ↦ none | some t ↦ some (t / 60) ], e.campaign_id)

module _ (spark : Spark) (text_lt : String → String → Bool) (names : List String) where
  open spark use {first_of, group_count, left_join, full_join}

  -- The order of `w_evt`.
  unfoldable pub by_time : Row → Row → Bool
  unfolding earlier
  by_time a b =
      earlier a.event_time b.event_time
      || (same_time a.event_time b.event_time && text_lt a.source_topic b.source_topic)

  -- The order of `w_ssai`.
  unfoldable pub by_prio : Row → Row → Bool
  unfolding earlier prio
  by_prio a b =
      let p = prio names a.source in
      let q = prio names b.source in
      ltb p q
      || (p == q
          && (earlier a.event_time b.event_time
              || (same_time a.event_time b.event_time
                  && text_lt (or_else a.event_id "") (or_else b.event_id ""))))

  -- `dedup`: one row for each event id.
  unfoldable pub dedup : List Row → List Row
  dedup raw = first_of (λ e. e.event_id) by_time raw

  -- `imp`: of the two ways that an impression comes, the one that is named first.
  unfoldable pub one_path : List Row → List Row
  one_path imps = first_of request_key by_prio imps

  -- `agg`: the days and campaigns with an impression, and the six counts joined to theirs.
  unfoldable pub joined : List Row → List (Cell × ((((((ℕ × ℕ) × ℕ) × ℕ) × ℕ) × ℕ) × ℕ))
  joined rows =
      let raw = raw_rows rows in
      let events = dedup raw in
      let imps = imp_all events in
      let imp = one_path imps in
      let count_of = group_count day_of in
      left_join
        (left_join
          (left_join
            (left_join
              (left_join (left_join (count_of imps) (count_of imp))
                (count_of (select (λ e. is_event "click" e) (base events))))
              (count_of (select is_complete (base events))))
            (count_of (select is_filled (base events))))
          (count_of (imp_all raw)))
        (count_of (select (λ e. is_true e.late_flag) imp))

  -- `minute_df`: a minute and campaign with any of the counts has a row.
  unfoldable pub minute_table : List Row → List (Cell × ((((ℕ × ℕ) × ℕ) × ℕ) × ℕ))
  minute_table rows =
      let events = dedup (raw_rows rows) in
      let imps = imp_all events in
      let count_of = group_count minute_of in
      full_join (((0, 0), 0), 0)
        (full_join ((0, 0), 0)
          (full_join (0, 0) (full_join 0 (count_of (one_path imps)) (count_of imps))
            (count_of (select (λ e. is_event "click" e) (base events))))
          (count_of (select is_complete (base events))))
        (count_of (select is_filled (base events)))

-- A row of `daily_settlement`.
pub record Daily : Type 0 where
  pub cell : Cell
  pub requests : ℕ
  pub impressions : ℕ
  pub clicks : ℕ
  pub completes : ℕ
  pub raw_impressions : ℕ
  pub dupes_removed : ℤ
  pub late_impressions : ℕ
  pub cpm : ℕ
  pub amount : ℕ

module _ (rates : Option String → Option ℕ) (price : ℕ → ℕ → ℕ) where
  -- `final`: the price of a campaign that has none is 0.
  unfoldable pub priced : Cell × ((((((ℕ × ℕ) × ℕ) × ℕ) × ℕ) × ℕ) × ℕ) → Daily
  priced (cell, ((((((raw, imp), clk), cmpl), req), rows), late)) =
      let cpm = or_else (rates cell.1) 0 in
      record {
        cell = cell;
        requests = req;
        impressions = imp;
        clicks = clk;
        completes = cmpl;
        raw_impressions = raw;
        dupes_removed = pos rows -ℤ pos raw;
        late_impressions = late;
        cpm = cpm;
        amount = price imp cpm;
      }

  -- The table that the job writes; `none` is an archive with no event, which ends the job early.
  unfoldable pub daily :
      Spark → (String → String → Bool) → List String → List Row → Option (List Daily)
  unfolding raw_rows
  daily spark text_lt names rows = elim (raw_rows rows) [
    | [] ↦ none
    | e ∷ es ↦ some (map priced (joined spark text_lt names rows))
  ]
