-- ===== src/Settlement/Batch/Laws.antt =====
-- What the counts of a day's settlement are, and how they stand to each other.
use mathlib.Core.List.{Memᴰ}
use mathlib.Core.List.Memᴰ.{of_map}
use mathlib.Core.Option.{some-injective, none-ne-some}
use ott_ad_pipeline.Base.{
  ℕ, ◌≤◌, ◌≡◌, refl, ap, sym, subst, eq_iff, ==_iff, both_true, ◌∙◌, ◌&&◌, String, str_eq, Bool,
  true, false, Option, none, some, List, [], ◌∷◌, map, if◌then◌else◌, is_some, select, length,
  arith,
}
use ott_ad_pipeline.Base.Int.{pos, neg_part, ◌-ℤ◌}
use ott_ad_pipeline.Settlement.Batch.{
  Row, Cell, Spark, is_true, is_event, same_time, is_complete, is_filled, raw_rows, dedup, imp_all,
  one_path, base, day_of, joined, Daily, priced, daily,
}

abbrev pub same_campaign : Option String → Option String → Bool
same_campaign none none = true
same_campaign (some a) (some b) = str_eq a b
same_campaign none (some b) = false
same_campaign (some a) none = false

pub same_campaign-eq : (a b : Option String) → same_campaign a b ≡ true → a ≡ b
same_campaign-eq none none h = refl
same_campaign-eq (some a) (some b) h = ap some ((eq_iff a b).0 h)
same_campaign-eq none (some b) h = absurd (cc h)
same_campaign-eq (some a) none h = absurd (cc h)

abbrev pub same_cell : Cell → Cell → Bool
same_cell (t, c) (u, d) = same_time t u && same_campaign c d

-- The count that a table has for a group: its first, and 0 if there is none.
abbrev pub looked : Cell → List (Cell × ℕ) → ℕ
looked k [] = 0
looked k ((j, n) ∷ t) = if same_cell k j then n else looked k t

-- The rows of a group.
abbrev pub in_group : (Row → Cell) → Cell → List Row → ℕ
in_group cell k rows = length (select (λ e. same_cell k (cell e)) rows)

abbrev pub no_null : Cell → Bool
no_null (t, c) = is_some t && is_some c

same_time-eq : (a b : Option ℕ) → same_time a b ≡ true → a ≡ b
same_time-eq none none h = refl
same_time-eq (some a) (some b) h = ap some ((==_iff a b).0 h)
same_time-eq none (some b) h = absurd (cc h)
same_time-eq (some a) none h = absurd (cc h)

pub same_cell-eq : (j k : Cell) → same_cell j k ≡ true → j ≡ k
same_cell-eq (t, c) (u, d) h =
    let (p, q) = both_true (same_time t u) (same_campaign c d) h in
    cc (same_time-eq t u p, same_campaign-eq c d q)

pub same_cell_self : (k : Cell) → no_null k ≡ true → same_cell k k ≡ true
same_cell_self (some t, some c) h = rw ((==_iff t t).1 refl) (rw ((eq_iff c c).1 refl) refl)
same_cell_self (some t, none) h = absurd (cc h)
same_cell_self (none, c) h = absurd (cc h)

-- What Spark documents: of the rows of a window the first is kept, and no row is made up; a group
-- has its number of rows; a left join keeps the left row and adds the count of an equal group,
-- where a group with a null equals none.
pub record SparkLaws (spark : Spark) : Type 1 where
  pub first_part :
      (key : Row → Option String) (before : Row → Row → Bool) (p : Row → Bool) (rows : List Row)
      → length (select p (spark.first_of key before rows)) ≤ length (select p rows)
  pub group_rows :
      (cell : Row → Cell) (rows : List Row) (k : Cell)
      → looked k (spark.group_count cell rows) ≡ in_group cell k rows
  pub group_mem :
      (cell : Row → Cell) (rows : List Row) (k : Cell) (n : ℕ)
      → Memᴰ (k, n) (spark.group_count cell rows)
      → n ≡ in_group cell k rows
  pub join_left :
      {A : Type 0} (xs : List (Cell × A)) (ys : List (Cell × ℕ)) (k : Cell) (a : A) (n : ℕ)
      → Memᴰ (k, (a, n)) (spark.left_join xs ys)
      → Memᴰ (k, a) xs
  pub join_count :
      {A : Type 0} (xs : List (Cell × A)) (ys : List (Cell × ℕ)) (k : Cell) (a : A) (n : ℕ)
      → Memᴰ (k, (a, n)) (spark.left_join xs ys)
      → no_null k ≡ true
      → n ≡ looked k ys

length-select-select :
    (p q : Row → Bool) (l : List Row)
    → length (select q (select p l)) ≡ length (select (λ e. p e && q e) l)
length-select-select p q [] = refl
length-select-select p q (e ∷ l) = ground (arith, length-select-select p q l)

pub length-select_sub :
    (p q : Row → Bool) (l : List Row) → length (select q (select p l)) ≤ length (select q l)
length-select_sub p q [] = omega arith
length-select_sub p q (e ∷ l) = ground (arith, length-select_sub p q l)

no_debt : (a b : ℕ) → a ≤ b → neg_part (pos b -ℤ pos a) ≡ 0
unfolding ◌-ℤ◌
no_debt a b h = ground arith

module _ (spark : Spark) (laws : SparkLaws spark) (text_lt : String → String → Bool)
    (names : List String) (rows : List Row) where
  open laws use {first_part, group_rows, group_mem, join_left, join_count}

  abbrev events : List Row
  events = dedup spark text_lt names (raw_rows rows)

  abbrev paths : List Row
  paths = one_path spark text_lt names (imp_all events)

  -- A row of the table has the counts of its day and campaign: each from the events with one row
  -- for each event id, the impressions from one path for each request; and the raw counts bound
  -- the settled ones.
  pub record IsSettled (d : Daily) : Type 0 where
    pub raw : d.raw_impressions ≡ in_group day_of d.cell (imp_all events)
    pub settled : d.impressions ≡ in_group day_of d.cell paths
    pub clicks : d.clicks ≡ in_group day_of d.cell (select (λ e. is_event "click" e) (base events))
    pub completes : d.completes ≡ in_group day_of d.cell (select is_complete (base events))
    pub requests : d.requests ≡ in_group day_of d.cell (select is_filled (base events))
    pub settled_le : d.impressions ≤ d.raw_impressions
    pub late_le : d.late_impressions ≤ d.impressions
    pub dupes_pos : neg_part d.dupes_removed ≡ 0

  paths_le : (k : Cell) → in_group day_of k paths ≤ in_group day_of k (imp_all events)
  unfolding one_path
  paths_le k = first_part _ _ _ _

  late_le :
      (k : Cell)
      → in_group day_of k (select (λ e. is_true e.late_flag) paths) ≤ in_group day_of k paths
  late_le k = length-select_sub _ _ paths

  dedup_le :
      (k : Cell) → in_group day_of k (imp_all events) ≤ in_group day_of k (imp_all (raw_rows rows))
  unfolding imp_all dedup
  dedup_le k =
      rw (length-select-select _ _ (dedup spark text_lt names (raw_rows rows)))
        (rw (length-select-select _ _ (raw_rows rows)) (first_part _ _ _ _))

  exact :
      {A : Type 0} (xs : List (Cell × A)) (counted : List Row) (k : Cell) (a : A) (n : ℕ)
      → Memᴰ (k, (a, n)) (spark.left_join xs (spark.group_count day_of counted))
      → no_null k ≡ true
      → n ≡ in_group day_of k counted
  exact xs counted k a n m h = join_count xs _ k a n m h ∙ group_rows day_of counted k

  joined-IsSettled :
      (rates : Option String → Option ℕ) (price : ℕ → ℕ → ℕ) (k : Cell)
      (raw imp clk cmpl req all late : ℕ)
      → Memᴰ (k, ((((((raw, imp), clk), cmpl), req), all), late)) (joined spark text_lt names rows)
      → no_null k ≡ true
      → IsSettled (priced rates price (k, ((((((raw, imp), clk), cmpl), req), all), late)))
  unfolding joined priced
  joined-IsSettled rates price k raw imp clk cmpl req all late m h =
      let m1 = join_left _ _ _ _ _ m in
      let m2 = join_left _ _ _ _ _ m1 in
      let m3 = join_left _ _ _ _ _ m2 in
      let m4 = join_left _ _ _ _ _ m3 in
      let m5 = join_left _ _ _ _ _ m4 in
      let m6 = join_left _ _ _ _ _ m5 in
      let raw_eq = group_mem _ _ _ _ m6 in
      let imp_eq = exact _ paths k raw imp m5 h in
      let rows_eq = exact _ (imp_all (raw_rows rows)) k _ all m1 h in
      let late_eq = exact _ (select (λ e. is_true e.late_flag) paths) k _ late m h in
      record {
        raw = raw_eq;
        settled = imp_eq;
        clicks = exact _ _ k _ clk m4 h;
        completes = exact _ _ k _ cmpl m3 h;
        requests = exact _ _ k _ req m2 h;
        settled_le = omega (arith, raw_eq, imp_eq, paths_le k);
        late_le = omega (arith, imp_eq, late_eq, late_le k);
        dupes_pos = no_debt raw all (omega (arith, raw_eq, rows_eq, dedup_le k));
      }

  -- For an engine with the documented laws: every row of daily_settlement with a day and a campaign
  -- has the counts of that day and campaign in the rows that the engine keeps by event id, and its
  -- impressions in those that it keeps by request; these are at most the raw ones, the late ones
  -- at most these, and the number of removed duplicates is not negative.
  pub daily-IsSettled :
      (rates : Option String → Option ℕ) (price : ℕ → ℕ → ℕ) (table : List Daily) (d : Daily)
      → daily rates price spark text_lt names rows ≡ some table
      → Memᴰ d table
      → no_null d.cell ≡ true
      → IsSettled d
  unfolding daily priced
  daily-IsSettled rates price table d e m h = go (raw_rows rows) e
    where
      go :
          (raw : List Row)
          → elim raw [
            | [] ↦ none
            | x ∷ xs ↦ some (map (priced rates price) (joined spark text_lt names rows))
          ]
            ≡ some table
          → IsSettled d
      go [] e = absurd (none-ne-some _ e)
      go (x ∷ xs) e =
          let (j, n, f) =
            of_map (priced rates price) _ (subst (λ t. Memᴰ d t) (sym (some-injective _ _ e)) m) in
          let (k, ((((((raw, imp), clk), cmpl), req), all), late)) = j in
          subst IsSettled f (
            joined-IsSettled rates price k raw imp clk cmpl req all late n
              (subst (λ t. no_null t.cell ≡ true) (sym f) h))
