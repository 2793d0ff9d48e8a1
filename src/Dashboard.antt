-- ===== src/Dashboard.antt =====
-- dashboard/api.py: the samplers behind the operations page. What the services answer are
-- arguments; a counter is a whole number, a time is in milliseconds, and a rate is a fraction.
pub mod Laws
pub mod Labels
pub mod Flink
pub mod Samplers
pub mod Sampler
mod Tests
use Prim.Native.String.{◌++◌ as str_append}
use ott_ad_pipeline.Base.{
  ℕ, zero, suc, ◌+◌, ◌-◌, ◌*◌, max, ltb, leb, ◌==◌, ◌&&◌, not, String, str_eq, Bool, true, false,
  Option, none, some, List, [], ◌∷◌, ◌++◌, length, if◌then◌else◌, or_else,
}
use ott_ad_pipeline.Base.Int.{ℤ, pos, negsuc}
use ott_ad_pipeline.Base.Dict.{Dict, get, put, Counter, add}

-- A sample: when, and the value of the counter.
abbrev pub Sample : Type 0
Sample = ℕ × ℕ

abbrev pub rate_window : ℕ
rate_window = 8000

abbrev pub rate_window_flink : ℕ
rate_window_flink = 24000

-- The loop of `rate` that drops old samples, two of which stay at any age.
unfoldable pub trim : ℕ → ℕ → List Sample → List Sample
trim w now [] = []
trim w now (a ∷ []) = a ∷ []
trim w now (a ∷ b ∷ []) = a ∷ b ∷ []
trim w now (a ∷ b ∷ c ∷ buf) =
    let rest = trim w now (b ∷ c ∷ buf) in if ltb w (now - a.0) then rest else a ∷ b ∷ c ∷ buf

abbrev pub last_of : Sample → List Sample → Sample
last_of a [] = a
last_of a (b ∷ buf) = last_of b buf

-- The growth for each second, as a numerator and a denominator; a counter that fell counts 0.
unfoldable pub slope : List Sample → ℕ × ℕ
slope [] = (0, 1)
slope (a ∷ []) = (0, 1)
slope (a ∷ b ∷ buf) =
    let z = last_of b buf in
    if ltb (z.0 - a.0) 1000 then (0, 1) else ((z.1 - a.1) * 1000, z.0 - a.0)

-- `rate`, with the samples that are kept for each key. A value that is `None` changes nothing.
unfoldable pub rate :
    String → Option ℕ → ℕ → Option ℕ → Dict (List Sample) → (ℕ × ℕ) × Dict (List Sample)
unfolding get put trim slope
rate key none now window prev = ((0, 1), prev)
rate key (some value) now window prev =
    let buf =
      trim (or_else window rate_window) now (or_else (get key prev) [] ++ (now, value) ∷ []) in
    (slope buf, put key buf prev)

-- A line of the Prometheus text: a name, its labels, and a value.
pub record Line : Type 0 where
  pub name : String
  pub labels : String
  pub value : ℕ

-- The loop of `prom`, for the lines that the pattern reads.
unfoldable pub prom : List Line → Counter → Counter
unfolding add put
prom [] out = out
prom (l ∷ lines) out =
    let summed = add l.name l.value out in
    prom lines
      (if str_eq l.labels "" then summed else put (str_append l.name l.labels) l.value summed)

-- `for k, v in m.items(): merged[k] = merged.get(k, 0.0) + v`
unfoldable pub merge : Counter → Counter → Counter
unfolding add
merge [] merged = merged
merge ((k, v) ∷ m) merged = merge m (add k v merged)

-- `prom_all`, for what each replica answers; one that does not answer is empty.
unfoldable pub prom_all : List Counter → Counter × ℕ → Counter × ℕ
unfolding merge
prom_all [] (merged, alive) = (merged, alive)
prom_all ([] ∷ ms) (merged, alive) = prom_all ms (merged, alive)
prom_all ((kv ∷ m) ∷ ms) (merged, alive) = prom_all ms (merge (kv ∷ m) merged, suc alive)

-- The committed offset of a partition, and the end of the partition if it is known.
pub record Committed : Type 0 where
  pub offset : Option ℤ
  pub end : Option ℕ

-- The lag of a group, and the partitions that it is over.
unfoldable pub group_lag : List Committed → ℕ × ℕ → ℕ × ℕ
group_lag [] (lag, n) = (lag, n)
group_lag (tp ∷ tps) (lag, n) = group_lag tps (lag_step tp.offset tp.end lag n)
  where
    lag_step : Option ℤ → Option ℕ → ℕ → ℕ → ℕ × ℕ
    lag_step (some (pos offset)) (some hi) lag n = (lag + (hi - offset), suc n)
    lag_step (some (pos offset)) none lag n = (lag, n)
    lag_step (some (negsuc m)) end lag n = (lag, n)
    lag_step none end lag n = (lag, n)
