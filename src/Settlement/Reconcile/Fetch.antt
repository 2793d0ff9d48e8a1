-- ===== src/Settlement/Reconcile/Fetch.antt =====
-- spark/reconcile.py: what `main` compares. The window, the counts that the real-time path dropped,
-- and the settled counts, over the rows of PostgreSQL's tables. Times are in seconds since 1970.
pub mod Window
use ott_ad_pipeline.Base.{
  ℕ, ◌+◌, ltb, leb, ◌&&◌, not, String, str_eq, Bool, true, false, Option, none, some, List, [], ◌∷◌,
  select, if◌then◌else◌, or_else,
}
use ott_ad_pipeline.Base.Dict.{Dict, get, put, Counter, add}
use ott_ad_pipeline.Settlement.Reconcile.{Settled, Row, Totals, parse_utc, reconcile}

-- The window: from RECON_FROM to RECON_TO, cut to the minute, if both are given, or the day that
-- starts at `day_start`. The flag is `ranged`.
unfoldable pub window : Option ℕ → Option ℕ → ℕ → Bool × (ℕ × ℕ)
unfolding parse_utc
window (some from) (some to) day_start = (true, (parse_utc from, parse_utc to))
window (some from) none day_start = (false, (day_start, day_start + 86400))
window none to day_start = (false, (day_start, day_start + 86400))

abbrev pub within : ℕ → ℕ → ℕ → Bool
within t0 t1 at = leb t0 at && ltb at t1

-- A row of `late_dropped`.
pub record Dropped : Type 0 where
  pub kind : String
  pub campaign_id : String
  pub event_time : ℕ

abbrev pub is_dropped : ℕ → ℕ → Dropped → Bool
is_dropped t0 t1 r = str_eq r.kind "impression" && within t0 t1 r.event_time

-- `groupBy("campaign_id").count()`
unfoldable pub count_dropped : List Dropped → Counter → Counter
unfolding add
count_dropped [] out = out
count_dropped (r ∷ rows) out = count_dropped rows (add r.campaign_id 1 out)

-- `fetch_late_dropped`; a table that cannot be read counts nothing.
unfoldable pub fetch_late_dropped : Option (List Dropped) → ℕ → ℕ → Counter
unfolding count_dropped
fetch_late_dropped none t0 t1 = []
fetch_late_dropped (some rows) t0 t1 = count_dropped (select (is_dropped t0 t1) rows) []

-- A row of `minute_settlement`.
pub record Minute : Type 0 where
  pub minute_ts : ℕ
  pub campaign_id : Option String
  pub impressions : Option ℕ
  pub raw_impressions : Option ℕ

-- A sum over a group, in which a null counts nothing.
abbrev pub sum_null : Option ℕ → Option ℕ → Option ℕ
sum_null none b = b
sum_null (some a) none = some a
sum_null (some a) (some b) = some (a + b)

abbrev pub no_settled : Settled
no_settled = record { impressions = none; raw_impressions = none }

-- One row in the sums of its campaign; a row without a campaign, or with an empty one, is left out.
unfoldable pub add_to : Minute → Option String → Dict Settled → Dict Settled
unfolding get put
add_to m none out = out
add_to m (some cid) out =
    let s = or_else (get cid out) no_settled in
    let t : Settled = record {
      impressions = sum_null s.impressions m.impressions;
      raw_impressions = sum_null s.raw_impressions m.raw_impressions;
    } in
    if str_eq cid "" then out else put cid t out

-- The sums for each campaign.
unfoldable pub sum_minutes : List Minute → Dict Settled → Dict Settled
unfolding add_to
sum_minutes [] out = out
sum_minutes (m ∷ rows) out = sum_minutes rows (add_to m m.campaign_id out)

-- A row of `daily_settlement`, of which there is one for a day and campaign.
pub record Day : Type 0 where
  pub dt : String
  pub campaign_id : Option String
  pub settled : Settled

unfoldable pub days : String → List Day → Dict Settled → Dict Settled
unfolding put
days dt [] out = out
days dt (d ∷ rows) out = days dt rows (elim d.campaign_id [
  | none ↦ out
  | some cid ↦ if str_eq d.dt dt && not (str_eq cid "") then put cid d.settled out else out
])

-- `fetch_batch`
unfoldable pub fetch_batch : Bool → String → ℕ → ℕ → List Minute → List Day → Dict Settled
unfolding sum_minutes days
fetch_batch true dt t0 t1 minutes daily =
    sum_minutes (select (λ m. within t0 t1 m.minute_ts) minutes) []
fetch_batch false dt t0 t1 minutes daily = days dt daily []

-- What `main` reads: the real-time counts between two times, and the three tables.
pub record Sources : Type 0 where
  pub realtime : ℕ → ℕ → Option (Dict ℕ)
  pub late_dropped : Option (List Dropped)
  pub minute_settlement : List Minute
  pub daily_settlement : List Day

-- `main`: the rows that it appends and the totals that it prints. `none` is the exit with 1.
unfoldable pub main :
    Sources → Option ℕ → Option ℕ → (dt : String) → (day_start : ℕ) → Option (List Row × Totals)
unfolding window fetch_batch fetch_late_dropped
main s from to dt day_start =
    let (ranged, (t0, t1)) = window from to day_start in
    reconcile (s.realtime t0 t1)
      (fetch_batch ranged dt t0 t1 s.minute_settlement s.daily_settlement)
      (fetch_late_dropped s.late_dropped t0 t1)
