-- ===== src/Settlement/Batch/Minutes.antt =====
-- The minute table of spark/batch_settlement.py: which rows it has, and their counts.
use mathlib.Core.List.{Memᴰ}
use ott_ad_pipeline.Base.{
  ℕ, zero, suc, ◌+◌, ◌≤◌, ◌≡◌, refl, sym, ◌∙◌, ap, ◌⊎◌, inl, inr, String, Bool, true, List, select,
  arith, leb, leb→le, Bool-cases,
}
use ott_ad_pipeline.Settlement.Batch.{
  Row, Cell, Spark, is_event, is_complete, is_filled, raw_rows, dedup, imp_all, one_path, base,
  minute_of, minute_table,
}
use ott_ad_pipeline.Settlement.Batch.Laws.{SparkLaws, in_group, no_null}

-- A table has a row for a group, or has none.
abbrev pub Present : {A : Type 0} → Cell → List (Cell × A) → Type 0
Present {A = A} k t = (a : A) × Memᴰ (k, a) t

abbrev pub Absent : {A : Type 0} → Cell → List (Cell × A) → Type 0
Absent {A = A} k t = (a : A) → ¬ Memᴰ (k, a) t

-- What Spark documents of a full outer join on a group without nulls: a row joins two rows of the
-- group, or one with what stands for the missing side; and every row of a side is in a row. A group
-- that has a row is counted.
pub record OuterLaws (spark : Spark) : Type 1 where
  pub outer_row :
      {A : Type 0} (d : A) (xs : List (Cell × A)) (ys : List (Cell × ℕ)) (k : Cell) (a : A) (n : ℕ)
      → Memᴰ (k, (a, n)) (spark.full_join d xs ys)
      → no_null k ≡ true
      → (Memᴰ (k, a) xs × (Memᴰ (k, n) ys ⊎ ((n ≡ 0) × Absent k ys)))
        ⊎ ((a ≡ d) × Absent k xs × Memᴰ (k, n) ys)
  pub outer_left :
      {A : Type 0} (d : A) (xs : List (Cell × A)) (ys : List (Cell × ℕ)) (k : Cell)
      → Present k xs
      → Present k (spark.full_join d xs ys)
  pub outer_right :
      {A : Type 0} (d : A) (xs : List (Cell × A)) (ys : List (Cell × ℕ)) (k : Cell)
      → Present k ys
      → Present k (spark.full_join d xs ys)
  pub group_some :
      (cell : Row → Cell) (rows : List Row) (k : Cell)
      → 1 ≤ in_group cell k rows
      → Present k (spark.group_count cell rows)

pair_eq : {A B : Type 0} {a b : A} {m n : B} → a ≡ b → m ≡ n → ◌≡◌ {A = A × B} (a, m) (b, n)
pair_eq p q = λ i. (p i, q i)

-- A table says of a group what is true, and has a row if that is not the default.
record Exact {A : Type 0} (k : Cell) (v d : A) (t : List (Cell × A)) : Type 0 where
  rows_eq : (a : A) → Memᴰ (k, a) t → a ≡ v
  default : Absent k t → v ≡ d

module _ (spark : Spark) (laws : SparkLaws spark) (outer : OuterLaws spark) (k : Cell)
    (whole : no_null k ≡ true) where
  open laws use {group_mem}
  open outer use {outer_row, outer_left, outer_right, group_some}

  abbrev pub counted : List Row → ℕ
  counted rows = in_group minute_of k rows

  abbrev table_of : List Row → List (Cell × ℕ)
  table_of rows = spark.group_count minute_of rows

  counted-Absent : (rows : List Row) → Absent k (table_of rows) → counted rows ≡ 0
  counted-Absent rows h = go (counted rows) refl
    where
      go : (n : ℕ) → counted rows ≡ n → counted rows ≡ 0
      go zero e = e
      go (suc n) e = let (m, p) = group_some minute_of rows k (omega (arith, e)) in absurd (h m p)

  counted-Exact : (rows : List Row) → Exact k (counted rows) 0 (table_of rows)
  counted-Exact rows = record {
    rows_eq = λ n m. group_mem minute_of rows k n m;
    default = counted-Absent rows;
  }

  join-Exact :
      {A : Type 0} (v d : A) (xs : List (Cell × A)) (rows : List Row)
      → Exact k v d xs
      → Exact k (v, counted rows) (d, 0) (spark.full_join d xs (table_of rows))
  join-Exact v d xs rows h = record {
    rows_eq = λ p m. elim (outer_row d xs (table_of rows) k p.0 p.1 m whole) [
      | inl (left, inl right) ↦ pair_eq (h.rows_eq p.0 left) (group_mem minute_of rows k p.1 right)
      | inl (left, inr (e, none_right)) ↦
          pair_eq (h.rows_eq p.0 left) (e ∙ sym (counted-Absent rows none_right))
      | inr (e, none_left, right) ↦
          pair_eq (e ∙ sym (h.default none_left)) (group_mem minute_of rows k p.1 right)
    ];
    default = λ none_there.
        pair_eq
          (h.default
            (λ a m. let (c, n) = outer_left d xs (table_of rows) k (a, m) in none_there c n))
          (counted-Absent rows
            (λ n m. let (c, q) = outer_right d xs (table_of rows) k (n, m) in none_there c q));
  }

  join-Present :
      {A : Type 0} (n : ℕ) (d : A) (xs : List (Cell × A)) (rows : List Row)
      → (1 ≤ n → Present k xs)
      → 1 ≤ n + counted rows
      → Present k (spark.full_join d xs (table_of rows))
  join-Present n d xs rows left h = elim (Bool-cases (leb 1 n)) [
    | inl e ↦ outer_left d xs (table_of rows) k (left (leb→le 1 n e))
    | inr e ↦
        outer_right d xs (table_of rows) k (group_some minute_of rows k (ground (arith, h, e)))
  ]

  module _ (text_lt : String → String → Bool) (names : List String) (rows : List Row) where
    abbrev pub kept : List Row
    kept = dedup spark text_lt names (raw_rows rows)

    abbrev pub settled : List Row
    settled = one_path spark text_lt names (imp_all kept)

    abbrev pub clicks : List Row
    clicks = select (λ e. is_event "click" e) (base kept)

    abbrev pub completes : List Row
    completes = select is_complete (base kept)

    abbrev pub requests : List Row
    requests = select is_filled (base kept)

    minute_table-Exact :
        Exact k
          (
            (((counted settled, counted (imp_all kept)), counted clicks), counted completes),
            counted requests,
          )
          ((((0, 0), 0), 0), 0)
          (minute_table spark text_lt names rows)
    unfolding minute_table
    minute_table-Exact = join-Exact _ _ _ requests (
        join-Exact _ _ _ completes
          (join-Exact _ _ _ clicks (join-Exact _ _ _ (imp_all kept) (counted-Exact settled))))

    -- For an engine with the documented laws: a row of minute_settlement with a minute and a campaign
    -- has exactly the five counts of that minute and campaign: the impressions of one path for each
    -- request, all impressions, the clicks, the completed plays and the filled requests.
    pub minute_table_rows :
        (imp raw clk cmpl req : ℕ)
        → Memᴰ (k, ((((imp, raw), clk), cmpl), req)) (minute_table spark text_lt names rows)
        → (imp ≡ counted settled)
          × (raw ≡ counted (imp_all kept))
          × (clk ≡ counted clicks)
          × (cmpl ≡ counted completes)
          × (req ≡ counted requests)
    minute_table_rows imp raw clk cmpl req m =
        let e = minute_table-Exact.rows_eq ((((imp, raw), clk), cmpl), req) m in
        (
          ap (λ p. p.0.0.0.0) e,
          ap (λ p. p.0.0.0.1) e,
          ap (λ p. p.0.0.1) e,
          ap (λ p. p.0.1) e,
          ap (λ p. p.1) e,
        )

    -- For an engine with the documented laws: a minute and campaign with a settled or raw impression,
    -- a click, a completed play or a filled request has a row in minute_settlement.
    pub minute_table-Present :
        1
          ≤ counted settled
            + counted (imp_all kept)
            + counted clicks
            + counted completes
            + counted requests
        → Present k (minute_table spark text_lt names rows)
    unfolding minute_table
    minute_table-Present = join-Present _ _ _ requests (
        join-Present _ _ _ completes (
          join-Present _ _ _ clicks
            (join-Present _ _ _ (imp_all kept) (group_some minute_of settled k))))
