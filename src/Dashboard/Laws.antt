-- ===== src/Dashboard/Laws.antt =====
-- The samples that a rate is taken from, and the sums over replicas.
use ott_ad_pipeline.Base.{
  ℕ, suc, ◌+◌, ◌-◌, ◌≤◌, ◌≡◌, refl, ap, ◌∙◌, ltb, String, str_eq, List, [], ◌∷◌, ◌++◌, length, min,
  if◌then◌else◌, arith, Bool-cases, inl, inr, ◌⊎◌,
}
use ott_ad_pipeline.Base.Dict.{Counter, count, add, count-add}
use ott_ad_pipeline.Dashboard.{Sample, trim, merge, prom_all}

-- What is kept of a key's samples: the newest of them, and the oldest one kept is in the window
-- unless there are only two.
pub record IsTrimmed (w now : ℕ) (all kept : List Sample) : Type 0 where
  pub dropped : List Sample
  pub is_end : dropped ++ kept ≡ all
  pub enough : min 2 (length all) ≤ length kept
  pub in_window :
      (length kept ≤ 2)
      ⊎ ((a : Sample) × (rest : List Sample) × (kept ≡ a ∷ rest) × (now - a.0 ≤ w))

-- Old samples go, from the oldest on, and two stay whatever their age, so that a slow source
-- still has a rate.
pub trim-IsTrimmed : (w now : ℕ) (buf : List Sample) → IsTrimmed w now buf (trim w now buf)
unfolding trim
trim-IsTrimmed w now [] = record {
  dropped = [];
  is_end = refl;
  enough = omega arith;
  in_window = inl (omega arith);
}
trim-IsTrimmed w now (a ∷ []) = record {
  dropped = [];
  is_end = refl;
  enough = omega arith;
  in_window = inl (omega arith);
}
trim-IsTrimmed w now (a ∷ b ∷ []) = record {
  dropped = [];
  is_end = refl;
  enough = omega arith;
  in_window = inl (omega arith);
}
trim-IsTrimmed w now (a ∷ b ∷ c ∷ buf) = elim (Bool-cases (ltb w (now - a.0))) [
  | inl e ↦
      let rest = trim-IsTrimmed w now (b ∷ c ∷ buf) in
      rw (e, trim)
        record {
          dropped = a ∷ rest.dropped;
          is_end = ap (λ l. a ∷ l) rest.is_end;
          enough = omega (arith, rest.enough);
          in_window = rest.in_window;
        }
  | inr e ↦
      rw (e, trim)
        record {
          dropped = [];
          is_end = refl;
          enough = omega arith;
          in_window = inr (a, b ∷ c ∷ buf, refl, ground (arith, e));
        }
]

-- What a metric has in one answer, and over the replicas.
pub sum_in : String → Counter → ℕ
sum_in k [] = 0
sum_in k ((j, v) ∷ m) = let rest = sum_in k m in if str_eq j k then v + rest else rest

pub sum_over : String → List Counter → ℕ
sum_over k [] = 0
sum_over k (m ∷ ms) = sum_in k m + sum_over k ms

pub answering : List Counter → ℕ
answering [] = 0
answering ([] ∷ ms) = answering ms
answering ((kv ∷ m) ∷ ms) = suc (answering ms)

count-merge :
    (k : String) (m merged : Counter) → count k (merge m merged) ≡ count k merged + sum_in k m
unfolding merge sum_in
count-merge k [] merged = omega arith
count-merge k ((j, v) ∷ m) merged =
    count-merge k m (add j v merged) ∙ ground (arith, count-add j k v merged)

-- A metric of the page is the sum of the replicas' values, and every replica that answers is
-- counted as alive.
pub prom_all_lem :
    (k : String) (ms : List Counter) (merged : Counter) (alive : ℕ)
    → (count k (prom_all ms (merged, alive)).0 ≡ count k merged + sum_over k ms)
      × ((prom_all ms (merged, alive)).1 ≡ alive + answering ms)
unfolding prom_all sum_over answering sum_in
prom_all_lem k [] merged alive = (omega arith, omega arith)
prom_all_lem k ([] ∷ ms) merged alive =
    let rest = prom_all_lem k ms merged alive in (omega (arith, rest.0), omega (arith, rest.1))
prom_all_lem k ((kv ∷ m) ∷ ms) merged alive =
    let rest = prom_all_lem k ms (merge (kv ∷ m) merged) (suc alive) in
    (omega (arith, rest.0, count-merge k (kv ∷ m) merged), omega (arith, rest.1))
