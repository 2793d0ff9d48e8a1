-- ===== src/Writer/Api.antt =====
-- redis-writer/writer.py: `Api.do_GET`, the answers of the HTTP interface. The path and the query
-- come from `urlparse` and `parse_qs`, which leaves out a name without a value. `int` of a text,
-- `strptime` of a date and `json.loads` are parameters, and so is what Redis holds, if it answers.
pub mod Alerts
use ott_ad_pipeline.Base.{
  ℕ, zero, suc, ◌+◌, ◌-◌, ◌*◌, String, str_eq, Bool, true, false, ◌||◌, Option, none, some, List,
  [], ◌∷◌, length, take, map, if◌then◌else◌, or_else, ◌>>=◌,
}
use ott_ad_pipeline.Base.Int.{ℤ, pos, negsuc, ◌-ℤ◌}
use ott_ad_pipeline.Base.Dict.{Dict, get}
use ott_ad_pipeline.Event.{Event}
use ott_ad_pipeline.Writer.{Redis, Counts}
use ott_ad_pipeline.Writer.Summary.{
  Acc, SeriesRow, sum_range, summary_between, summary_day, series_rows, late_minutes,
}

abbrev pub Query : Type 0
Query = Dict (List String)

-- `(q.get(k) or [d])[0]`
unfoldable pub first_or : String → String → Query → String
unfolding get
first_or k d q = elim (get k q) [ none ↦ d | some [] ↦ d | some (v ∷ vs) ↦ v ]

-- `q.get(k)` with its first value.
unfoldable pub first : String → Query → Option String
unfolding get
first k q = elim (get k q) [ none ↦ none | some [] ↦ none | some (v ∷ vs) ↦ some v ]

-- What LRANGE gives from the head to an index, where a negative one counts from the end.
unfoldable pub lrange : {A : Type 0} → ℤ → List A → List A
lrange (pos end) xs = take (suc end) xs
lrange (negsuc end) xs = take (length xs - end) xs

-- The bodies of the answers.
pub data Reply : Type 0 where
  health : (uptime : ℕ) → Counts → Reply
  summary : (dt : String) → Dict Acc → (late_total alerts_total : ℕ) → Reply
  series_reply : List SeriesRow → List (ℕ × ℕ) → Reply
  alerts : List Event → Reply
  not_found : (path : String) → Reply
  failure : Reply

-- The code that `_json` sends with a body.
unfoldable pub status : Reply → ℕ
status (not_found path) = 404
status failure = 500
status reply = 200

-- `[json.loads(x) for x in raw]`
unfoldable pub load_all : (String → Option Event) → List String → Option (List Event)
load_all loads [] = some []
load_all loads (x ∷ xs) = elim (loads x) [
  | none ↦ none
  | some d ↦ elim (load_all loads xs) [ none ↦ none | some ds ↦ some (d ∷ ds) ]
]

pub record Parsers : Type 0 where
  -- `int(float(x))` of a stored count, and `int(x)` of a parameter
  pub read : String → Option ℕ
  pub int_of : String → Option ℤ
  -- the first second of a date
  pub day_start : String → Option ℕ
  pub loads : String → Option Event

module _ (p : Parsers) (r : Redis) where
  -- `from` and `to` of a summary. No score is negative, so a negative `from` is 0 and a negative
  -- `to` finds nothing.
  unfoldable pub range_summary : ℤ → ℤ → r.Store → Option (Dict Acc)
  range_summary from (negsuc to) s = some []
  range_summary (pos from) (pos to) s = summary_between p.read r from to s
  range_summary (negsuc from) (pos to) s = summary_between p.read r 0 to s

  unfoldable pub campaigns_in : String → Query → r.Store → Option (Dict Acc)
  campaigns_in dt q s = elim (first "from" q) [
    | none ↦ (do start ← p.day_start dt; summary_day p.read r start s)
    | some from ↦ elim (first "to" q) [
      | none ↦ (do start ← p.day_start dt; summary_day p.read r start s)
      | some to ↦ (do a ← p.int_of from; b ← p.int_of to; range_summary a b s)
    ]
  ]

  -- `/agg/series` for a number of minutes, which may be negative, at the minute that starts at `now`.
  unfoldable pub series_of : ℤ → ℕ → r.Store → Option Reply
  series_of (pos mins) now s = do
    rows ← series_rows p.read (
        map (λ k. (k.1, r.hgetall k.0 s))
          (r.zrangebyscore "agg:index" (now - mins * 60) (now + 60) s))
    some (series_reply rows (late_minutes r s (suc mins) now))
  series_of (negsuc m) now s = do
    rows ← series_rows p.read (
        map (λ k. (k.1, r.hgetall k.0 s))
          (r.zrangebyscore "agg:index" (now + suc m * 60) (now + 60) s))
    some (series_reply rows [])

  -- The part of `do_GET` that asks Redis, by its path; `none` is an exception.
  unfoldable pub read_store : String → Query → String → ℕ → r.Store → Option Reply
  read_store path q today now s =
      if str_eq path "/agg/summary"
      then (do
        camps ← campaigns_in (first_or "dt" today q) q s
        some (
            summary (first_or "dt" today q) camps (r.count_at "late:total" s)
              (r.count_at "alerts:total" s)))
      else if str_eq path "/agg/series"
      then (do mins ← p.int_of (first_or "minutes" "30" q); series_of mins now s)
      else (do
        n ← p.int_of (first_or "limit" "20" q)
        ds ← load_all p.loads (lrange (n -ℤ pos 1) (r.list_at "alerts:recent" s))
        some (alerts ds))

  -- `do_GET`, for the counts of the program, its age and the time. Redis answers, or every call of
  -- it raises.
  unfoldable pub do_get : String → Query → Counts → ℕ → String → ℕ → Option r.Store → Reply
  do_get path q c uptime today now store =
      if str_eq path "/" || str_eq path "/health"
      then health uptime c
      else if str_eq path "/agg/summary" || (str_eq path "/agg/series" || str_eq path "/alerts")
      then or_else (store >>= read_store path q today now) failure
      else not_found path
