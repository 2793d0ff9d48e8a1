-- ===== src/Generator/Stats.antt =====
-- class Stats of generator/stats.py: running totals, the counts of the last second and the
-- response times of the last second, in whole microseconds. A list of response times is a
-- `deque(maxlen=5000)`, oldest first. The formatting of `line` and `summary` is left out.
pub mod Laws
pub mod Percentile
use ott_ad_pipeline.Base.{
  ℕ, ◌+◌, ◌-◌, ◌*◌, ◌/◌, min, String, leb, Option, none, some, List, [], ◌∷◌, ◌++◌, length, drop,
  get_or, or_else,
}
use ott_ad_pipeline.Base.Dict.{Counter, count, add}
use ott_ad_pipeline.Base.Sort.{sort}

abbrev pub max_samples : ℕ
max_samples = 5000

pub record Stats : Type 0 where
  pub total : Counter
  pub window : Counter
  pub latencies : List ℕ
  pub ad_latencies : List ℕ
  pub last_lat : Option (List ℕ)

abbrev pub no_stats : Stats
no_stats = record { total = []; window = []; latencies = []; ad_latencies = []; last_lat = none }

unfoldable pub bump : String → ℕ → Stats → Stats
unfolding add
bump key n s = record s { total = add key n s.total; window = add key n s.window }

-- `d.append(x)` on a deque with `max_samples` places.
unfoldable pub append_sample : ℕ → List ℕ → List ℕ
append_sample x xs = drop (length xs + 1 - max_samples) (xs ++ x ∷ [])

unfoldable pub latency : ℕ → Stats → Stats
unfolding append_sample
latency ms s = record s { latencies = append_sample ms s.latencies }

unfoldable pub latency_ad : ℕ → Stats → Stats
unfolding append_sample
latency_ad ms s = record s { ad_latencies = append_sample ms s.ad_latencies }

-- The samples that `_pct` reads: those of the last snapshot, or the present ones if it has none.
unfoldable pub samples : Stats → List ℕ
samples s = elim s.last_lat [ none ↦ s.latencies | some [] ↦ s.latencies | some (x ∷ xs) ↦ x ∷ xs ]

-- `s[min(len(s) - 1, int(len(s) * p))]` of the sorted samples, for the p = 0.95 of `line` and
-- `summary`, the only one that is asked for. The source takes the product in floating point; for 0.95
-- and the at most 5000 samples of a deque its whole part is that of the exact product.
unfoldable pub pct_of : List ℕ → ℕ
unfolding sort
pct_of [] = 0
pct_of (x ∷ xs) = let s = sort leb (x ∷ xs) in get_or s (min (length s - 1) (length s * 95 / 100)) 0

unfoldable pub pct : Stats → ℕ
unfolding samples pct_of
pct s = pct_of (samples s)

-- The counts of the window that ends, and the state after.
unfoldable pub snapshot : Stats → Counter × Stats
snapshot s = (s.window, record s { window = []; last_lat = some s.latencies; latencies = [] })
