-- ===== src/Writer/Summary.antt =====
-- redis-writer/writer.py: what its HTTP interface reads back from Redis for the settlement check
-- and the dashboard. `int(float(x))` of a stored count is the parameter `read`.
use Prim.Native.String.{◌++◌ as str_append}
use ott_ad_pipeline.Base.{
  ℕ, zero, suc, ◌+◌, ◌-◌, ◌*◌, ◌/◌, String, str_eq, Option, none, some, List, [], ◌∷◌, map, ltb,
  if◌then◌else◌, or_else, ◌>>=◌,
}
use ott_ad_pipeline.Base.Dict.{Dict, get, put}
use ott_ad_pipeline.Calendar.{minute_stamp}
use ott_ad_pipeline.Writer.{Redis}

-- The numbers that are summed for a campaign.
pub record Amounts : Type 0 where
  pub impressions : ℕ
  pub clicks : ℕ
  pub completes : ℕ
  pub requests : ℕ
  pub ssai_dupes : ℕ
  pub minutes : ℕ

-- What `_sum_range` keeps for a campaign.
pub record Acc : Type 0 where
  pub amounts : Amounts
  pub advertiser : String
  pub campaign_name : String

abbrev pub zeros : Amounts
zeros = record {
  impressions = 0;
  clicks = 0;
  completes = 0;
  requests = 0;
  ssai_dupes = 0;
  minutes = 0;
}

abbrev pub plus : Amounts → Amounts → Amounts
plus a b = record {
  impressions = a.impressions + b.impressions;
  clicks = a.clicks + b.clicks;
  completes = a.completes + b.completes;
  requests = a.requests + b.requests;
  ssai_dupes = a.ssai_dupes + b.ssai_dupes;
  minutes = a.minutes + b.minutes;
}

-- A row of `/agg/series`.
pub record SeriesRow : Type 0 where
  pub minute : ℕ
  pub campaign_id : Option String
  pub amounts : Amounts

module _ (read : String → Option ℕ) where
  -- `int(float(h.get(f) or 0))`
  unfoldable pub amount : String → Dict String → Option ℕ
  unfolding get
  amount f h = elim (get f h) [ none ↦ some 0 | some t ↦ if str_eq t "" then some 0 else read t ]

  -- The amounts of one hash, which is one campaign in one minute.
  unfoldable pub read_hash : Dict String → Option Amounts
  read_hash h = do
    i ← amount "impressions" h
    k ← amount "clicks" h
    f ← amount "completes" h
    q ← amount "requests" h
    d ← amount "ssai_dupes" h
    some record {
      impressions = i;
      clicks = k;
      completes = f;
      requests = q;
      ssai_dupes = d;
      minutes = 1;
    }

  -- `h.get("campaign_id")`, where an empty name counts as none.
  unfoldable pub campaign_of : Dict String → Option String
  unfolding get
  campaign_of h = elim (get "campaign_id" h) [
    | none ↦ none
    | some cid ↦ if str_eq cid "" then none else some cid
  ]

  unfoldable pub new_acc : Dict String → Acc
  unfolding get
  new_acc h = record {
    amounts = zeros;
    advertiser = or_else (get "advertiser" h) "";
    campaign_name = or_else (get "campaign_name" h) "";
  }

  -- One round of the loop of `_sum_range`. A hash that has expired is empty.
  unfoldable pub add_hash : Dict String → Dict Acc → Option (Dict Acc)
  unfolding get put
  add_hash h out = elim (campaign_of h) [
    | none ↦ some out
    | some cid ↦ elim (read_hash h) [
      | none ↦ none
      | some a ↦
          let acc = or_else (get cid out) (new_acc h) in
          some (put cid (record acc { amounts = plus acc.amounts a }) out)
    ]
  ]

  unfoldable pub sum_hashes : List (Dict String) → Dict Acc → Option (Dict Acc)
  sum_hashes [] out = some out
  sum_hashes (h ∷ hs) out = elim (add_hash h out) [ none ↦ none | some next ↦ sum_hashes hs next ]

  module _ (r : Redis) where
    -- `_sum_range`: `none` is a stored text that is not a number.
    unfoldable pub sum_range : ℕ → ℕ → r.Store → Option (Dict Acc)
    sum_range start end s =
        sum_hashes (map (λ k. r.hgetall k.0 s) (r.zrangebyscore "agg:index" start end s)) []

    -- `/agg/summary?from=..&to=..`. A `to` in the first minute of the epoch makes the upper end
    -- negative, and no score is.
    unfoldable pub summary_between : ℕ → ℕ → r.Store → Option (Dict Acc)
    summary_between from to s =
        if ltb to 60 then some [] else sum_range (from / 60 * 60) (to / 60 * 60 - 1) s

    -- `/agg/summary?dt=..`, for the first second of the day.
    unfoldable pub summary_day : ℕ → r.Store → Option (Dict Acc)
    summary_day start s = sum_range start (start + 86400 - 1) s

  unfoldable pub series_rows : List (ℕ × Dict String) → Option (List SeriesRow)
  unfolding get
  series_rows [] = some []
  series_rows ((score, []) ∷ rest) = series_rows rest
  series_rows ((score, kv ∷ h) ∷ rest) = elim (read_hash (kv ∷ h)) [
    | none ↦ none
    | some a ↦ elim (series_rows rest) [
      | none ↦ none
      | some rows ↦
          some (
            record { minute = score; campaign_id = get "campaign_id" (kv ∷ h); amounts = a } ∷ rows)
    ]
  ]

-- `late` of `/agg/series`: the minutes `m`, `m - 60`, ... that have late events, `n` of them. A
-- counter that exists is at least one, so 0 stands for a missing key.
unfoldable pub late_minutes : (r : Redis) → r.Store → ℕ → ℕ → List (ℕ × ℕ)
late_minutes r s zero m = []
late_minutes r s (suc n) m =
    let rest = late_minutes r s n (m - 60) in
    elim (r.count_at (str_append "late:1m:" (minute_stamp m)) s) [
      | zero ↦ rest
      | suc k ↦ (m, suc k) ∷ rest
    ]

-- `/agg/series?minutes=..` at the minute that starts at `now`.
unfoldable pub series :
    (String → Option ℕ) → (r : Redis) → ℕ → ℕ → r.Store → Option (List SeriesRow × List (ℕ × ℕ))
series read r mins now s =
    let keys = r.zrangebyscore "agg:index" (now - mins * 60) (now + 60) s in
    elim (series_rows read (map (λ k. (k.1, r.hgetall k.0 s)) keys)) [
      | none ↦ none
      | some rows ↦ some (rows, late_minutes r s (suc mins) now)
    ]
