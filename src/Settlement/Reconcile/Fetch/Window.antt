-- ===== src/Settlement/Reconcile/Fetch/Window.antt =====
-- That the counts of spark/reconcile.py are those of the window, whatever the tables hold beside it.
use ott_ad_pipeline.Base.{
  ℕ, ◌+◌, ◌≡◌, refl, ap, ◌∙◌, sym, arith, ◌&&◌, String, str_eq, eq_iff, Bool, true, false, Option,
  none, some, List, [], ◌∷◌, length, select, if◌then◌else◌, or_else, Bool-cases, inl, inr,
}
use ott_ad_pipeline.Base.Int.{pos, ◌-ℤ◌}
use ott_ad_pipeline.Base.Dict.{Dict, get, put, get-put, Counter, count, add, count-add}
use ott_ad_pipeline.Settlement.Reconcile.{Settled, settled_of, compare_one}
use ott_ad_pipeline.Settlement.Reconcile.Fetch.{
  within, Dropped, is_dropped, count_dropped, fetch_late_dropped, Minute, sum_null, add_to,
  sum_minutes, Day, fetch_batch,
}

-- The impressions of a campaign that were dropped in a window.
abbrev pub dropped_in : String → ℕ → ℕ → List Dropped → ℕ
dropped_in cid t0 t1 rows =
    length (select (λ r. is_dropped t0 t1 r && str_eq r.campaign_id cid) rows)

count-count_dropped :
    (cid : String) (t0 t1 : ℕ) (rows : List Dropped) (out : Counter)
    → count cid (count_dropped (select (is_dropped t0 t1) rows) out)
      ≡ count cid out + dropped_in cid t0 t1 rows
unfolding count_dropped
count-count_dropped cid t0 t1 [] out = omega arith
count-count_dropped cid t0 t1 (r ∷ rows) out = elim (Bool-cases (is_dropped t0 t1 r)) [
  | inl e ↦
      rw (e, count_dropped)
        (count-count_dropped cid t0 t1 rows _
          ∙ go (str_eq r.campaign_id cid) (count-add r.campaign_id cid 1 out))
  | inr e ↦ rw (e, count_dropped) (count-count_dropped cid t0 t1 rows out)
]
  where
    go :
        (b : Bool)
        → count cid (add r.campaign_id 1 out) ≡ (if b then count cid out + 1 else count cid out)
        → count cid (add r.campaign_id 1 out) + dropped_in cid t0 t1 rows
          ≡ count cid out
            + length (
                if b
                then r ∷ select (λ r. is_dropped t0 t1 r && str_eq r.campaign_id cid) rows
                else select (λ r. is_dropped t0 t1 r && str_eq r.campaign_id cid) rows)
    go true h = omega (arith, h)
    go false h = omega (arith, h)

abbrev pub is_of : String → Option String → Bool
is_of cid none = false
is_of cid (some c) = str_eq c cid

-- The sum of a column over a campaign's minutes in a window; a null counts nothing.
abbrev pub column_in : (Minute → Option ℕ) → String → ℕ → ℕ → List Minute → ℕ
column_in column cid t0 t1 [] = 0
column_in column cid t0 t1 (m ∷ rows) =
    let rest = column_in column cid t0 t1 rows in
    if within t0 t1 m.minute_ts && is_of cid m.campaign_id
    then or_else (column m) 0 + rest
    else rest

-- The impressions, and the raw ones.
abbrev pub summed_in : String → ℕ → ℕ → List Minute → ℕ
summed_in = column_in (λ m. m.impressions)

abbrev pub raw_summed_in : String → ℕ → ℕ → List Minute → ℕ
raw_summed_in = column_in (λ m. m.raw_impressions)

sum_null_lem : (a b : Option ℕ) → or_else (sum_null a b) 0 ≡ or_else a 0 + or_else b 0
sum_null_lem none b = omega arith
sum_null_lem (some a) none = omega arith
sum_null_lem (some a) (some b) = refl

-- One of the two columns, with its sum.
module _ (column : Minute → Option ℕ) (sum_of : Settled → Option ℕ)
    (adds : (s : Settled) (m : Minute)
      → sum_of (record {
        impressions = sum_null s.impressions m.impressions;
        raw_impressions = sum_null s.raw_impressions m.raw_impressions;
      })
        ≡ sum_null (sum_of s) (column m)) where
  -- What is kept of it for a campaign.
  abbrev kept : String → Dict Settled → ℕ
  kept cid out = or_else (sum_of (settled_of cid out)) 0

  kept-put :
      (c cid : String) (s : Settled) (out : Dict Settled)
      → kept cid (put c s out) ≡ (if str_eq c cid then or_else (sum_of s) 0 else kept cid out)
  unfolding settled_of
  kept-put c cid s out = elim (Bool-cases (str_eq c cid)) [
    | inl e ↦ rw (get-put c cid s out) (rw e refl)
    | inr e ↦ rw (get-put c cid s out) (rw e refl)
  ]

  kept-add_to :
      (cid : String) (m : Minute) (o : Option String) (out : Dict Settled)
      → str_eq cid "" ≡ false
      → kept cid (add_to m o out) ≡ kept cid out + (if is_of cid o then or_else (column m) 0 else 0)
  unfolding add_to settled_of
  kept-add_to cid m none out h = omega arith
  kept-add_to cid m (some c) out h = elim (Bool-cases (str_eq c "")) [
    | inl e ↦ rw ((eq_iff c "").0 e) (elim (Bool-cases (str_eq "" cid)) [
      | inl q ↦ absurd (cc (h, (eq_iff cid "").1 (sym ((eq_iff "" cid).0 q))))
      | inr q ↦ rw q (omega arith)
    ])
    | inr e ↦
        rw (e, add_to)
          (kept-put c cid _ out ∙ elim (Bool-cases (str_eq c cid)) [
            | inl q ↦ rw q (
                ap (λ n. or_else n 0) (adds (settled_of c out) m)
                ∙ sum_null_lem (sum_of (settled_of c out)) (column m)
                ∙ ap (λ j. kept j out + or_else (column m) 0) ((eq_iff c cid).0 q))
            | inr q ↦ rw q (omega arith)
          ])
  ]

  kept-sum_minutes :
      (cid : String) (t0 t1 : ℕ) (rows : List Minute) (out : Dict Settled)
      → str_eq cid "" ≡ false
      → kept cid (sum_minutes (select (λ m. within t0 t1 m.minute_ts) rows) out)
        ≡ kept cid out + column_in column cid t0 t1 rows
  unfolding sum_minutes
  kept-sum_minutes cid t0 t1 [] out h = omega arith
  kept-sum_minutes cid t0 t1 (m ∷ rows) out h = elim (Bool-cases (within t0 t1 m.minute_ts)) [
    | inr e ↦ rw (e, sum_minutes, column_in) (kept-sum_minutes cid t0 t1 rows out h)
    | inl e ↦
        rw (e, sum_minutes, column_in)
          (kept-sum_minutes cid t0 t1 rows _ h
            ∙ go (is_of cid m.campaign_id) (kept-add_to cid m m.campaign_id out h))
  ]
    where
      go :
          (b : Bool)
          → kept cid (add_to m m.campaign_id out)
            ≡ kept cid out + (if b then or_else (column m) 0 else 0)
          → kept cid (add_to m m.campaign_id out) + column_in column cid t0 t1 rows
            ≡ kept cid out
              + (if b
                  then or_else (column m) 0 + column_in column cid t0 t1 rows
                  else column_in column cid t0 t1 rows)
      go true k = omega (arith, k)
      go false k = omega (arith, k)

-- The row of a campaign compares what the window holds: its settled impressions are summed over
-- exactly the minutes in it, its second paths are the raw impressions of these minutes less the
-- settled ones, and the late ones are exactly the impressions in it that the real-time
-- path dropped. A campaign has a name.
pub compare_one-fetch :
    (rt : Dict ℕ) (dropped : List Dropped) (minutes : List Minute) (daily : List Day)
    (dt cid : String) (t0 t1 : ℕ)
    → str_eq cid "" ≡ false
    → let row =
        compare_one rt
          (fetch_batch true dt t0 t1 minutes daily)
          (fetch_late_dropped (some dropped) t0 t1)
          cid in
      (row.batch_impressions ≡ summed_in cid t0 t1 minutes)
      × (row.ssai ≡ pos (raw_summed_in cid t0 t1 minutes) -ℤ pos (summed_in cid t0 t1 minutes))
      × (row.late ≡ dropped_in cid t0 t1 dropped)
unfolding compare_one fetch_batch fetch_late_dropped settled_of get count
compare_one-fetch rt dropped minutes daily dt cid t0 t1 h =
    let sums = sum_minutes (select (λ m. within t0 t1 m.minute_ts) minutes) [] in
    let imps = or_else (settled_of cid sums).impressions 0 in
    let imp : imps ≡ summed_in cid t0 t1 minutes =
      kept-sum_minutes (λ m. m.impressions) (λ s. s.impressions) (λ s m. refl) cid t0 t1 minutes []
        h
      ∙ omega arith in
    let raw : or_else (settled_of cid sums).raw_impressions 0 ≡ raw_summed_in cid t0 t1 minutes =
      kept-sum_minutes (λ m. m.raw_impressions) (λ s. s.raw_impressions) (λ s m. refl) cid t0 t1
        minutes [] h
      ∙ omega arith in
    (
      imp,
      ap (λ n. pos n -ℤ pos imps) raw
          ∙ ap (λ n. pos (raw_summed_in cid t0 t1 minutes) -ℤ pos n) imp,
      count-count_dropped cid t0 t1 dropped [] ∙ omega arith,
    )
