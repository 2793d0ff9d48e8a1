-- ===== src/Settlement/Batch/Days.antt =====
-- Which days and campaigns have a row in daily_settlement of spark/batch_settlement.py.
use mathlib.Core.List.{Memᴰ}
use mathlib.Core.List.Memᴰ.{of_map, map as mem_map}
use mathlib.Core.Option.{some-injective, none-ne-some}
use ott_ad_pipeline.Base.{
  ℕ, ◌≤◌, ◌≡◌, ◌↔◌, refl, ap, sym, ◌∙◌, subst, String, Bool, true, Option, none, some, List, [],
  ◌∷◌, map,
}
use ott_ad_pipeline.Settlement.Batch.{
  Row, Cell, Spark, raw_rows, dedup, imp_all, day_of, joined, Daily, priced, daily,
}
use ott_ad_pipeline.Settlement.Batch.Laws.{SparkLaws, in_group, no_null}
use ott_ad_pipeline.Settlement.Batch.Minutes.{Present, OuterLaws}

-- What Spark documents of rows: a group is one of a row at least, and a left join loses no row of
-- its left side.
pub record LeftLaws (spark : Spark) : Type 1 where
  pub group_pos :
      (cell : Row → Cell) (rows : List Row) (k : Cell) (n : ℕ)
      → Memᴰ (k, n) (spark.group_count cell rows)
      → no_null k ≡ true
      → 1 ≤ n
  pub left_present :
      {A : Type 0} (xs : List (Cell × A)) (ys : List (Cell × ℕ)) (k : Cell)
      → Present k xs
      → Present k (spark.left_join xs ys)

module _ (spark : Spark) (laws : SparkLaws spark) (outer : OuterLaws spark) (left : LeftLaws spark)
    (text_lt : String → String → Bool) (names : List String) (rows : List Row) (k : Cell)
    (whole : no_null k ≡ true) where
  open laws use {group_mem, join_left}
  open left use {group_pos, left_present}

  -- The impressions of the day and campaign, one for each event id.
  abbrev pub raw_count : ℕ
  raw_count = in_group day_of k (imp_all (dedup spark text_lt names (raw_rows rows)))

  unjoin :
      {A : Type 0} (xs : List (Cell × A)) (ys : List (Cell × ℕ))
      → Present k (spark.left_join xs ys)
      → Present k xs
  unjoin xs ys ((a, n), m) = (a, join_left xs ys k a n m)

  joined-Present : 1 ≤ raw_count → Present k (joined spark text_lt names rows)
  unfolding joined
  joined-Present h = left_present _ _ k (
      left_present _ _ k (
        left_present _ _ k (
          left_present _ _ k
            (left_present _ _ k (left_present _ _ k (outer.group_some day_of _ k h))))))

  Present-joined : Present k (joined spark text_lt names rows) → 1 ≤ raw_count
  unfolding joined
  Present-joined p =
      let (n, m) = unjoin _ _ (unjoin _ _ (unjoin _ _ (unjoin _ _ (unjoin _ _ (unjoin _ _ p))))) in
      subst (λ i. 1 ≤ i) (group_mem day_of _ k n m) (group_pos day_of _ k n m whole)

  -- For an engine with the documented laws: a day and campaign has a row in daily_settlement exactly
  -- if it has an impression. So the clicks, completed plays and requests of a day and campaign
  -- without one are in no row.
  pub daily_rows :
      (rates : Option String → Option ℕ) (price : ℕ → ℕ → ℕ) (table : List Daily)
      → daily rates price spark text_lt names rows ≡ some table
      → ((d : Daily) × Memᴰ d table × (d.cell ≡ k)) ↔ (1 ≤ raw_count)
  unfolding daily priced
  daily_rows rates price table e = go (raw_rows rows) e
    where
      go :
          (raw : List Row)
          → elim raw [
            | [] ↦ none
            | x ∷ xs ↦ some (map (priced rates price) (joined spark text_lt names rows))
          ]
            ≡ some table
          → ((d : Daily) × Memᴰ d table × (d.cell ≡ k)) ↔ (1 ≤ raw_count)
      go [] e = absurd (none-ne-some _ e)
      go (x ∷ xs) e =
          let all = joined spark text_lt names rows in
          let same : map (priced rates price) all ≡ table = some-injective _ _ e in
          (
            λ (d, m, c).
                let (j, n, f) =
                  of_map (priced rates price) all (subst (λ t. Memᴰ d t) (sym same) m) in
                let same_key : j.0 ≡ k = ap (λ x. x.cell) f ∙ c in
                Present-joined (j.1, subst (λ i. Memᴰ (i, j.1) all) same_key n),
            λ h.
                let (a, m) = joined-Present h in
                (
                  priced rates price (k, a),
                  subst (λ t. Memᴰ (priced rates price (k, a)) t) same
                      (mem_map (priced rates price) m),
                  refl,
                ),
          )
