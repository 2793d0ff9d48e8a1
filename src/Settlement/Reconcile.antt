-- ===== src/Settlement/Reconcile.antt =====
-- spark/reconcile.py: the comparison of the real-time counts with the settled ones. What the three
-- sources return are arguments. The texts of a cause are its parts, as data; a rate is a fraction.
pub mod Causes
pub mod Rows
pub mod Fetch
use ott_ad_pipeline.Base.{
  ℕ, zero, suc, ◌+◌, ◌-◌, ◌*◌, ◌%◌, max, ltb, ◌==◌, ◌&&◌, String, str_eq, Bool, true, false, Option,
  none, some, List, [], ◌∷◌, ◌++◌, if◌then◌else◌, or_else, any,
}
use ott_ad_pipeline.Base.Int.{ℤ, pos, negsuc, pos_part, neg_part, ◌+ℤ◌, ◌-ℤ◌, ltb_ℤ}
use ott_ad_pipeline.Base.Dict.{Dict, get}
use ott_ad_pipeline.Base.Sort.{sort}
use ott_ad_pipeline.Base.Text.{text_le}
use ott_ad_pipeline.Signing.{keys}

-- `parse_utc`: an instant in seconds, cut to the minute.
unfoldable pub parse_utc : ℕ → ℕ
parse_utc seconds = seconds - seconds % 60

-- A part of `likely_cause`: events that came late, second paths, and the rest, by its sign.
pub data Part : Type 0 where
  late_part : ℕ → Part
  ssai_part : ℤ → Part
  surplus : ℕ → Part
  deficit : ℕ → Part

pub data Cause : Type 0 where
  not_realtime : Cause
  not_batch : Cause
  parts : List Part → Cause

unfoldable pub late_parts : ℕ → List Part
late_parts zero = []
late_parts (suc n) = late_part (suc n) ∷ []

unfoldable pub ssai_parts : ℤ → List Part
ssai_parts (pos zero) = []
ssai_parts s = ssai_part s ∷ []

-- The rest; a negative one is printed with its sign.
unfoldable pub residual_parts : ℤ → List Part
residual_parts (pos zero) = []
residual_parts (pos (suc n)) = surplus (suc n) ∷ []
residual_parts (negsuc n) = deficit (suc n) ∷ []

unfoldable pub classify : ℤ → ℕ → ℤ → ℕ → ℕ → Cause
unfolding late_parts ssai_parts residual_parts
classify ssai late residual rt bt =
    if rt == 0 && ltb 0 bt
    then not_realtime
    else if bt == 0 && ltb 0 rt
    then not_batch
    else parts (late_parts late ++ (ssai_parts ssai ++ residual_parts residual))

-- A settled row, where a null counts 0.
pub record Settled : Type 0 where
  pub impressions : Option ℕ
  pub raw_impressions : Option ℕ

pub record Row : Type 0 where
  pub campaign_id : String
  pub realtime_impressions : ℕ
  pub batch_impressions : ℕ
  pub late : ℕ
  pub ssai : ℤ
  pub diff : ℤ
  pub residual : ℤ
  -- the denominator of `diff_rate`
  pub base : ℕ
  pub likely_cause : Cause

unfoldable pub settled_of : String → Dict Settled → Settled
unfolding get
settled_of cid b_rows =
    or_else (get cid b_rows) (record { impressions = none; raw_impressions = none })

-- The body of the loop over the campaigns.
unfoldable pub compare_one : Dict ℕ → Dict Settled → Dict ℕ → String → Row
compare_one rt_camps b_rows late_by cid =
    let r_imp = or_else (get cid rt_camps) 0 in
    let b = settled_of cid b_rows in
    let b_imp = or_else b.impressions 0 in
    let ssai = pos (or_else b.raw_impressions 0) -ℤ pos b_imp in
    let late = or_else (get cid late_by) 0 in
    let diff = pos b_imp -ℤ pos r_imp in
    let residual = diff -ℤ (pos late -ℤ ssai) in
    record {
      campaign_id = cid;
      realtime_impressions = r_imp;
      batch_impressions = b_imp;
      late = late;
      ssai = ssai;
      diff = diff;
      residual = residual;
      base = max (max r_imp b_imp) 1;
      likely_cause = classify ssai late residual r_imp b_imp;
    }

-- `set(xs)` as a list.
unfoldable pub distinct : List String → List String
distinct [] = []
distinct (x ∷ xs) = let rest = distinct xs in if any (λ y. str_eq y x) rest then rest else x ∷ rest

-- `sorted(set(rt_camps) | set(b_rows))`
unfoldable pub campaigns : Dict ℕ → Dict Settled → List String
unfolding keys sort text_le distinct
campaigns rt_camps b_rows = sort text_le (distinct (keys rt_camps ++ keys b_rows))

unfoldable pub compare_all : Dict ℕ → Dict Settled → Dict ℕ → List String → List Row
unfolding compare_one
compare_all rt_camps b_rows late_by [] = []
compare_all rt_camps b_rows late_by (cid ∷ cids) =
    compare_one rt_camps b_rows late_by cid ∷ compare_all rt_camps b_rows late_by cids

-- The four totals that the loop keeps.
pub record Totals : Type 0 where
  pub t_rt : ℕ
  pub t_bt : ℕ
  pub t_late : ℕ
  pub t_ssai : ℤ

unfoldable pub add_row : Totals → Row → Totals
unfolding ◌+ℤ◌
add_row t r = record {
  t_rt = t.t_rt + r.realtime_impressions;
  t_bt = t.t_bt + r.batch_impressions;
  t_late = t.t_late + r.late;
  t_ssai = t.t_ssai +ℤ r.ssai;
}

unfoldable pub totals : Totals → List Row → Totals
unfolding add_row
totals t [] = t
totals t (r ∷ rs) = totals (add_row t r) rs

-- The rest in the line of the totals.
unfoldable pub total_residual : Totals → ℤ
unfolding ◌-ℤ◌
total_residual t = (pos t.t_bt -ℤ pos t.t_rt) -ℤ (pos t.t_late -ℤ t.t_ssai)

-- `main`: the rows that it writes and the totals that it prints, or none if there is nothing to
-- compare. `none` for the real-time counts is a failed request.
unfoldable pub reconcile : Option (Dict ℕ) → Dict Settled → Dict ℕ → Option (List Row × Totals)
unfolding campaigns compare_all totals
reconcile none b_rows late_by = none
reconcile (some []) [] late_by = none
reconcile (some rt_camps) b_rows late_by =
    let rows = compare_all rt_camps b_rows late_by (campaigns rt_camps b_rows) in
    some (rows, totals (record { t_rt = 0; t_bt = 0; t_late = 0; t_ssai = pos 0 }) rows)
