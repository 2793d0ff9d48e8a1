-- ===== src/Settlement/Engine.antt =====
-- An engine on lists that has what the settlement of spark/batch_settlement.py asks of Spark.
pub mod Distinct
pub mod First
pub mod Left
pub mod Outer
use mathlib.Core.List.{Memᴰ}
use mathlib.Core.List.Memᴰ.{head, tail, of_map, cases_cons}
use ott_ad_pipeline.Base.{
  ℕ, ◌≤◌, ◌≡◌, refl, arith, ap, sym, ◌∙◌, String, eq_iff, Bool, true, false, ◌||◌, ◌&&◌, not,
  Option, none, some, List, [], ◌∷◌, ◌++◌, map, any, length, select, if◌then◌else◌, Bool-cases, inl,
  inr, ==_iff,
}
use ott_ad_pipeline.Settlement.Batch.{Row, Cell, Spark, same_time}
use ott_ad_pipeline.Settlement.Batch.Laws.{
  SparkLaws, same_cell-eq, same_campaign, same_campaign-eq, same_cell, looked, in_group,
  length-select_sub,
}

abbrev join_all : {A : Type 0} → List (Cell × A) → List (Cell × ℕ) → List (Cell × (A × ℕ))
join_all [] ys = []
join_all ((k, a) ∷ xs) ys = (k, (a, looked k ys)) ∷ join_all xs ys

-- The rows that are kept so far, one for each key, and one row more: of two with the same key the
-- one that comes before stays.
abbrev pub place : (Row → Option String) → (Row → Row → Bool) → Row → List Row → List Row
place key before r [] = r ∷ []
place key before r (q ∷ qs) =
    if same_campaign (key q) (key r)
    then (if before q r then q else r) ∷ qs
    else q ∷ place key before r qs

abbrev pub first_rows : (Row → Option String) → (Row → Row → Bool) → List Row → List Row
first_rows key before [] = []
first_rows key before (r ∷ rows) = place key before r (first_rows key before rows)

-- One row for each group.
abbrev pub heads : (Row → Cell) → List Row → List Row
heads cell [] = []
heads cell (r ∷ rows) = r ∷ select (λ q. not (same_cell (cell r) (cell q))) (heads cell rows)

abbrev pub engine : Spark
engine = record {
  first_of = first_rows;
  group_count = λ cell rows. map (λ r. (cell r, in_group cell (cell r) rows)) (heads cell rows);
  left_join = join_all;
  full_join = λ d xs ys.
      join_all xs ys
      ++ map (λ y. (y.0, (d, y.1))) (select (λ y. not (any (λ x. same_cell x.0 y.0) xs)) ys);
}

-- Looking a group up in the counts of some of the rows finds it if one of them is in it.
looked-some :
    (cell : Row → Cell) (all rows : List Row) (k : Cell)
    → looked k (map (λ r. (cell r, in_group cell (cell r) all)) rows)
      ≡ (if any (λ r. same_cell k (cell r)) rows then in_group cell k all else 0)
looked-some cell all [] k = refl
looked-some cell all (r ∷ rows) k = elim (Bool-cases (same_cell k (cell r))) [
  | inl e ↦ rw e (ap (λ j. in_group cell j all) (sym (same_cell-eq k (cell r) e)))
  | inr e ↦ rw e (looked-some cell all rows k)
]

pub in_group-none :
    (cell : Row → Cell) (rows : List Row) (k : Cell)
    → any (λ r. same_cell k (cell r)) rows ≡ false
    → in_group cell k rows ≡ 0
in_group-none cell [] k h = refl
in_group-none cell (r ∷ rows) k h = go (same_cell k (cell r)) h (in_group-none cell rows k)
  where
    go :
        (b : Bool)
        → (b || any (λ r. same_cell k (cell r)) rows) ≡ false
        → (any (λ r. same_cell k (cell r)) rows ≡ false → in_group cell k rows ≡ 0)
        → length (
            if b
            then r ∷ select (λ e. same_cell k (cell e)) rows
            else select (λ e. same_cell k (cell e)) rows)
          ≡ 0
    go true h rest = absurd (cc h)
    go false h rest = rest h

-- Leaving out one group does not hide another.
any-others :
    (cell : Row → Cell) (k j : Cell) (qs : List Row)
    → same_cell k j ≡ false
    → any (λ q. same_cell k (cell q)) (select (λ q. not (same_cell j (cell q))) qs)
      ≡ any (λ q. same_cell k (cell q)) qs
any-others cell k j [] h = refl
any-others cell k j (q ∷ qs) h = elim (Bool-cases (same_cell j (cell q))) [
  | inl e ↦
      let other : same_cell k (cell q) ≡ false =
        sym (ap (λ c. same_cell k c) (same_cell-eq j (cell q) e)) ∙ h in
      rw e (rw other (any-others cell k j qs h))
  | inr e ↦ rw e (ap (λ b. same_cell k (cell q) || b) (any-others cell k j qs h))
]

-- A group has a row among the heads if it has one.
pub any-heads :
    (cell : Row → Cell) (k : Cell) (rows : List Row)
    → any (λ r. same_cell k (cell r)) (heads cell rows) ≡ any (λ r. same_cell k (cell r)) rows
any-heads cell k [] = refl
any-heads cell k (r ∷ rows) = elim (Bool-cases (same_cell k (cell r))) [
  | inl e ↦ rw e refl
  | inr e ↦ rw e (any-others cell k (cell r) (heads cell rows) e ∙ any-heads cell k rows)
]

looked-all :
    (cell : Row → Cell) (rows : List Row) (k : Cell)
    → looked k (map (λ r. (cell r, in_group cell (cell r) rows)) (heads cell rows))
      ≡ in_group cell k rows
looked-all cell rows k =
    looked-some cell rows (heads cell rows) k
    ∙ elim (Bool-cases (any (λ r. same_cell k (cell r)) rows)) [
      | inl e ↦ rw (any-heads cell k rows ∙ e) refl
      | inr e ↦ rw (any-heads cell k rows ∙ e) (sym (in_group-none cell rows k e))
    ]

mem_counts :
    (cell : Row → Cell) (rows : List Row) (k : Cell) (n : ℕ)
    → Memᴰ {A = Cell × ℕ}
        (k, n)
        (map (λ r. (cell r, in_group cell (cell r) rows)) (heads cell rows))
    → n ≡ in_group cell k rows
mem_counts cell rows k n m =
    let (r, p, e) = of_map (λ r. (cell r, in_group cell (cell r) rows)) (heads cell rows) m in
    sym (ap (λ x. x.1) e) ∙ ap (λ j. in_group cell j rows) (ap (λ x. x.0) e)

mem_join :
    {A : Type 0} (xs : List (Cell × A)) (ys : List (Cell × ℕ)) (k : Cell) (a : A) (n : ℕ)
    → Memᴰ {A = Cell × (A × ℕ)} (k, (a, n)) (join_all xs ys)
    → Memᴰ {A = Cell × A} (k, a) xs × (n ≡ looked k ys)
mem_join {A = A} [] ys k a n m = absurd (elim m [ ])
mem_join {A = A} ((j, b) ∷ xs) ys k a n m = elim (cases_cons m) [
  | inl e ↦
      let (same_k, same_a, same_n) = parts_of e in
      (head (cc (same_k, same_a)), same_n ∙ ap (λ c. looked c ys) (sym same_k))
  | inr rest ↦ let (p, q) = mem_join xs ys k a n rest in (tail p, q)
]
  where
    parts_of :
        ◌≡◌ {A = Cell × (A × ℕ)} (k, (a, n)) (j, (b, looked j ys))
        → (k ≡ j) × (a ≡ b) × (n ≡ looked j ys)
    parts_of e = (ap (λ x. x.0) e, ap (λ x. x.1.0) e, ap (λ x. x.1.1) e)

length-select-place :
    (key : Row → Option String) (before : Row → Row → Bool) (p : Row → Bool) (r : Row)
    (qs : List Row)
    → length (select p (place key before r qs)) ≤ length (select p (r ∷ qs))
length-select-place key before p r [] = omega arith
length-select-place key before p r (q ∷ qs) = ground (arith, length-select-place key before p r qs)

first_part_lem :
    (key : Row → Option String) (before : Row → Row → Bool) (p : Row → Bool) (rows : List Row)
    → length (select p (first_rows key before rows)) ≤ length (select p rows)
first_part_lem key before p [] = omega arith
first_part_lem key before p (r ∷ rows) = ground (
  arith,
  first_part_lem key before p rows,
  length-select-place key before p r (first_rows key before rows),
)

pub engine_laws : SparkLaws engine
engine_laws = record {
  first_part = first_part_lem;
  group_rows = looked-all;
  group_mem = mem_counts;
  join_left = λ xs ys k a n m. (mem_join xs ys k a n m).0;
  join_count = λ xs ys k a n m h. (mem_join xs ys k a n m).1;
}
