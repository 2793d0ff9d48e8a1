-- ===== src/Settlement/Engine/Distinct.antt =====
-- That the engine on lists has one row for each group, as the table of minutes asks of Spark.
use mathlib.Core.List.{Memᴰ}
use mathlib.Core.List.Memᴰ.{head, tail}
use ott_ad_pipeline.Base.{
  ℕ, ◌≡◌, refl, ◌&&◌, not, Bool, true, false, List, [], ◌∷◌, ◌++◌, map, All, All-append, any,
  select, Bool-cases, inl, inr,
}
use ott_ad_pipeline.Base.Members.{mem_any}
use ott_ad_pipeline.Settlement.Batch.{Row, Cell}
use ott_ad_pipeline.Settlement.Batch.Laws.{same_cell, in_group, no_null}
use ott_ad_pipeline.Settlement.Batch.Sums.{Distinct}
use ott_ad_pipeline.Settlement.Stored.Compared.{DistinctLaws}
use ott_ad_pipeline.Settlement.Engine.{engine, join_all, heads}

-- No row of a table is of the group.
abbrev Apart : {A : Type 0} → Cell → List (Cell × A) → Type 0
Apart k t = All (λ x. (no_null k && same_cell k x.0) ≡ false) t

none_same : (a b : Bool) → b ≡ false → (a && b) ≡ false
none_same true b h = h
none_same false b h = refl

-- What holds of the keys of a table holds of those of a table made from some of its rows.
module _ {A B : Type 0} (g : A → B) (p : Cell × A → Bool) where
  abbrev changed : List (Cell × A) → List (Cell × B)
  changed t = map (λ x. (x.0, g x.1)) (select p t)

  Apart-select : (k : Cell) (t : List (Cell × A)) → Apart k t → Apart k (changed t)
  Apart-select k [] h = tt
  Apart-select k (x ∷ t) h = elim (Bool-cases (p x)) [
    | inl e ↦ rw e (h.0, Apart-select k t h.1)
    | inr e ↦ rw e (Apart-select k t h.1)
  ]

  Distinct-select : (t : List (Cell × A)) → Distinct t → Distinct (changed t)
  Distinct-select [] h = tt
  Distinct-select (x ∷ t) h = elim (Bool-cases (p x)) [
    | inl e ↦ rw e (Apart-select x.0 t h.0, Distinct-select t h.1)
    | inr e ↦ rw e (Distinct-select t h.1)
  ]

module _ (cell : Row → Cell) (n : Row → ℕ) where
  abbrev counted : List Row → List (Cell × ℕ)
  counted hs = map (λ r. (cell r, n r)) hs

  Apart-heads :
      (k : Cell) (hs : List Row) → Apart k (counted (select (λ q. not (same_cell k (cell q))) hs))
  Apart-heads k [] = tt
  Apart-heads k (q ∷ hs) = elim (Bool-cases (same_cell k (cell q))) [
    | inl e ↦ rw e (Apart-heads k hs)
    | inr e ↦ rw e (none_same (no_null k) (same_cell k (cell q)) e, Apart-heads k hs)
  ]

  Apart-sub :
      (k : Cell) (p : Row → Bool) (hs : List Row)
      → Apart k (counted hs)
      → Apart k (counted (select p hs))
  Apart-sub k p [] h = tt
  Apart-sub k p (q ∷ hs) h = elim (Bool-cases (p q)) [
    | inl e ↦ rw e (h.0, Apart-sub k p hs h.1)
    | inr e ↦ rw e (Apart-sub k p hs h.1)
  ]

  Distinct-sub :
      (p : Row → Bool) (hs : List Row) → Distinct (counted hs) → Distinct (counted (select p hs))
  Distinct-sub p [] h = tt
  Distinct-sub p (q ∷ hs) h = elim (Bool-cases (p q)) [
    | inl e ↦ rw e (Apart-sub (cell q) p hs h.0, Distinct-sub p hs h.1)
    | inr e ↦ rw e (Distinct-sub p hs h.1)
  ]

  Distinct-heads : (rows : List Row) → Distinct (counted (heads cell rows))
  Distinct-heads [] = tt
  Distinct-heads (r ∷ rows) = (
    Apart-heads (cell r) (heads cell rows),
    Distinct-sub _ (heads cell rows) (Distinct-heads rows),
  )

module _ {A : Type 0} (d : A) (ys : List (Cell × ℕ)) where
  Apart-join : (k : Cell) (xs : List (Cell × A)) → Apart k xs → Apart k (join_all xs ys)
  Apart-join k [] h = tt
  Apart-join k ((j, a) ∷ xs) h = (h.0, Apart-join k xs h.1)

  abbrev right : List (Cell × A) → List (Cell × ℕ) → List (Cell × (A × ℕ))
  right xs zs = map (λ z. (z.0, (d, z.1))) (select (λ z. not (any (λ x. same_cell x.0 z.0) xs)) zs)

  Apart-right :
      (x : Cell × A) (xs : List (Cell × A)) (zs : List (Cell × ℕ))
      → Memᴰ x xs
      → Apart x.0 (right xs zs)
  Apart-right x xs [] m = tt
  Apart-right x xs (z ∷ zs) m = elim (Bool-cases (any (λ x. same_cell x.0 z.0) xs)) [
    | inl e ↦ rw e (Apart-right x xs zs m)
    | inr e ↦ rw e (elim (Bool-cases (same_cell x.0 z.0)) [
      | inl s ↦ absurd (cc (e, mem_any (λ (x : Cell × A). same_cell x.0 z.0) x xs m s))
      | inr s ↦ (none_same (no_null x.0) (same_cell x.0 z.0) s, Apart-right x xs zs m)
    ])
  ]

  Distinct-join :
      (rest : List (Cell × (A × ℕ))) (xs : List (Cell × A))
      → ((x : Cell × A) → Memᴰ x xs → Apart x.0 rest)
      → Distinct xs
      → Distinct rest
      → Distinct (join_all xs ys ++ rest)
  Distinct-join rest [] apart h k = k
  Distinct-join rest ((j, a) ∷ xs) apart h k = (
    All-append _ (join_all xs ys) rest (Apart-join j xs h.0) (apart (j, a) (head refl)),
    Distinct-join rest xs (λ x m. apart x (tail m)) h.1 k,
  )

outer_distinct_lem :
    {A : Type 0} (d : A) (xs : List (Cell × A)) (ys : List (Cell × ℕ))
    → Distinct xs
    → Distinct ys
    → Distinct (engine.full_join d xs ys)
outer_distinct_lem {A} d xs ys h k =
    Distinct-join d ys (right d ys xs ys) xs (λ x m. Apart-right d ys x xs ys m) h
      (Distinct-select (λ n. (d, n)) (λ z. not (any (λ (x : Cell × A). same_cell x.0 z.0) xs)) ys k)

pub distinct_laws : DistinctLaws engine
distinct_laws = record {
  group_distinct = λ cell rows. Distinct-heads cell (λ r. in_group cell (cell r) rows) rows;
  outer_distinct = outer_distinct_lem;
}
