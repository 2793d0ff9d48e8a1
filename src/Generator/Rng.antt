-- ===== src/Generator/Rng.antt =====
-- `random.Random` as the stream of its draws. `random()` is k / 2 ^ 53 for a whole number k below
-- 2 ^ 53; a draw is that k, and a probability is given by the number of draws below it.
-- Every theorem holds for all streams.
use ott_ad_pipeline.Base.{ℕ, ◌+◌, ◌-◌, ◌*◌, ◌/◌, ◌%◌, ◌^◌, Bool, ltb, List, length, get_or}

pub record Rng : Type 0 where
  pub draw : ℕ → ℕ
  pub next : ℕ

-- `rng.random()`
unfoldable pub random : Rng → ℕ
random r = r.draw r.next % 2 ^ 53

-- The generator after one call.
unfoldable pub advance : Rng → Rng
advance r = record r { next = r.next + 1 }

-- `rng.random() < p`
unfoldable pub chance : ℕ → Rng → Bool
unfolding random
chance p r = ltb (random r) p

-- `int(rng.uniform(lo, hi))` for whole numbers lo and hi.
unfoldable pub uniform : ℕ → ℕ → Rng → ℕ
unfolding random
uniform lo hi r = lo + (hi - lo) * random r / 2 ^ 53

-- `rng.choice(xs)`; the default stands for the IndexError at an empty list.
unfoldable pub choice {ℓ} : {A : Type ℓ} → List A → A → Rng → A
unfolding random
choice xs d r = get_or xs (random r % length xs) d
