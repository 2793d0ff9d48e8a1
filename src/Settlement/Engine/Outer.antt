-- ===== src/Settlement/Engine/Outer.antt =====
-- That the engine on lists has what the minute table of spark/batch_settlement.py asks of a full
-- outer join.
use mathlib.Core.List.{Memᴰ}
use mathlib.Core.List.Memᴰ.{
  head, tail, of_map, map as mem_map, append_left, append_right, append_cases, cases_cons,
}
use ott_ad_pipeline.Base.{
  ℕ, ◌≤◌, ◌≡◌, refl, ap, sym, subst, ◌∙◌, Bool, true, false, ◌||◌, not, List, [], ◌∷◌, map, any,
  Bool-cases, inl, inr, ◌⊎◌, arith,
}
use ott_ad_pipeline.Base.Members.{select_mem, mem_select}
use ott_ad_pipeline.Settlement.Batch.{Row, Cell}
use ott_ad_pipeline.Settlement.Batch.Laws.{
  same_cell, same_cell-eq, same_cell_self, looked, in_group, no_null,
}
use ott_ad_pipeline.Settlement.Batch.Minutes.{Present, Absent, OuterLaws}
use ott_ad_pipeline.Settlement.Engine.{engine, join_all, mem_join, heads, any-heads, in_group-none}

-- Looking a group up finds its first row, or there is none.
looked_cases :
    (k : Cell) (ys : List (Cell × ℕ))
    → no_null k ≡ true
    → Memᴰ {A = Cell × ℕ} (k, looked k ys) ys ⊎ ((looked k ys ≡ 0) × Absent k ys)
looked_cases k [] h = inr (refl, λ n m. elim m [ ])
looked_cases k ((j, n) ∷ ys) h = elim (Bool-cases (same_cell k j)) [
  | inl e ↦ inl (rw e (head (pair_with (same_cell-eq k j e))))
  | inr e ↦ elim (looked_cases k ys h) [
    | inl m ↦ inl (rw e (tail m))
    | inr (z, none_there) ↦ inr (
      rw e z,
      λ c m. elim (cases_cons m) [
        | inl q ↦ absurd (cc (same_cell_self k h, e, ap (λ p. p.0) q))
        | inr rest ↦ none_there c rest
      ],
    )
  ]
]
  where
    pair_with : k ≡ j → ◌≡◌ {A = Cell × ℕ} (k, n) (j, n)
    pair_with q = λ i. (q i, n)

abbrev has_key : {A : Type 0} → Cell → List (Cell × A) → Bool
has_key k xs = any (λ x. same_cell x.0 k) xs

or_true : (b : Bool) → (b || true) ≡ true
or_true true = refl
or_true false = refl

has_key_mem :
    {A : Type 0} (k : Cell) (a : A) (xs : List (Cell × A))
    → no_null k ≡ true
    → Memᴰ {A = Cell × A} (k, a) xs
    → has_key k xs ≡ true
has_key_mem k a [] h m = absurd (elim m [ ])
has_key_mem k a (x ∷ xs) h m = elim (cases_cons m) [
  | inl e ↦
      subst (λ j. (same_cell j k || has_key k xs) ≡ true) (ap (λ p. p.0) e)
        (rw (same_cell_self k h) refl)
  | inr rest ↦ rw (has_key_mem k a xs h rest) (or_true (same_cell x.0 k))
]

key_mem : {A : Type 0} (k : Cell) (xs : List (Cell × A)) → has_key k xs ≡ true → Present k xs
key_mem k [] h = absurd (cc h)
key_mem {A = A} k ((j, a) ∷ xs) h = elim (Bool-cases (same_cell j k)) [
  | inl e ↦ (a, head (ap {B = Cell × A} (λ c. (c, a)) (sym (same_cell-eq j k e))))
  | inr e ↦ let (b, m) = key_mem k xs (sym (rw e refl) ∙ h) in (b, tail m)
]

pub mem_join_all :
    {A : Type 0} (k : Cell) (a : A) (xs : List (Cell × A)) (ys : List (Cell × ℕ))
    → Memᴰ {A = Cell × A} (k, a) xs
    → Memᴰ {A = Cell × (A × ℕ)} (k, (a, looked k ys)) (join_all xs ys)
mem_join_all k a [] ys m = absurd (elim m [ ])
mem_join_all {A = A} k a ((j, b) ∷ xs) ys m = elim (cases_cons m) [
  | inl e ↦ head (ap {A = Cell × A} (λ p. (p.0, (p.1, looked p.0 ys))) e)
  | inr rest ↦ tail (mem_join_all k a xs ys rest)
]

outer_row_lem :
    {A : Type 0} (d : A) (xs : List (Cell × A)) (ys : List (Cell × ℕ)) (k : Cell) (a : A) (n : ℕ)
    → Memᴰ {A = Cell × (A × ℕ)} (k, (a, n)) (engine.full_join d xs ys)
    → no_null k ≡ true
    → (Memᴰ {A = Cell × A} (k, a) xs × (Memᴰ {A = Cell × ℕ} (k, n) ys ⊎ ((n ≡ 0) × Absent k ys)))
      ⊎ ((a ≡ d) × Absent k xs × Memᴰ {A = Cell × ℕ} (k, n) ys)
outer_row_lem {A = A} d xs ys k a n m h = elim (append_cases (join_all xs ys) m) [
  | inl left ↦
      let (p, q) = mem_join xs ys k a n left in
      elim (looked_cases k ys h) [
        | inl r ↦ inl (p, inl (subst (λ c. Memᴰ {A = Cell × ℕ} (k, c) ys) (sym q) r))
        | inr (z, none_there) ↦ inl (p, inr (q ∙ z, none_there))
      ]
  | inr right ↦
      let (y, p, e) = of_map (λ (y : Cell × ℕ). (y.0, (d, y.1))) _ right in
      let (q, ok) = select_mem (λ (y : Cell × ℕ). not (has_key y.0 xs)) y ys p in
      inr (
        sym (ap (λ p. p.1.0) e),
        λ b r. absurd (
            cc (
              subst (λ j. not (has_key j xs) ≡ true) (ap (λ p. p.0) e) ok,
              has_key_mem k b xs h r,
            )),
        subst (λ z. Memᴰ {A = Cell × ℕ} z ys) (ap {B = Cell × ℕ} (λ p. (p.0, p.1.1)) e) q,
      )
]

outer_left_lem :
    {A : Type 0} (d : A) (xs : List (Cell × A)) (ys : List (Cell × ℕ)) (k : Cell)
    → Present k xs
    → Present k (engine.full_join d xs ys)
outer_left_lem d xs ys k (a, m) = ((a, looked k ys), append_left _ (mem_join_all k a xs ys m))

outer_right_lem :
    {A : Type 0} (d : A) (xs : List (Cell × A)) (ys : List (Cell × ℕ)) (k : Cell)
    → Present k ys
    → Present k (engine.full_join d xs ys)
outer_right_lem {A = A} d xs ys k (n, m) = elim (Bool-cases (has_key k xs)) [
  | inl e ↦ outer_left_lem d xs ys k (key_mem k xs e)
  | inr e ↦ (
    (d, n),
    append_right (join_all xs ys) (
        mem_map (λ (y : Cell × ℕ). (y.0, (d, y.1)))
          (mem_select (λ (y : Cell × ℕ). not (has_key y.0 xs)) (k, n) ys m (rw e refl))),
  )
]

any_counts :
    (cell : Row → Cell) (all hs : List Row) (k : Cell)
    → any (λ r. same_cell k (cell r)) hs ≡ true
    → Present k (map (λ r. (cell r, in_group cell (cell r) all)) hs)
any_counts cell all [] k h = absurd (cc h)
any_counts cell all (r ∷ hs) k h = elim (Bool-cases (same_cell k (cell r))) [
  | inl e ↦ (
    in_group cell (cell r) all,
    head (ap {B = Cell × ℕ} (λ c. (c, in_group cell (cell r) all)) (same_cell-eq k (cell r) e)),
  )
  | inr e ↦ let (n, m) = any_counts cell all hs k (sym (rw e refl) ∙ h) in (n, tail m)
]

group_some_lem :
    (cell : Row → Cell) (rows : List Row) (k : Cell)
    → 1 ≤ in_group cell k rows
    → Present k (engine.group_count cell rows)
group_some_lem cell rows k h = elim (Bool-cases (any (λ r. same_cell k (cell r)) rows)) [
  | inl e ↦ any_counts cell rows (heads cell rows) k (any-heads cell k rows ∙ e)
  | inr e ↦ absurd (omega (arith, h, in_group-none cell rows k e))
]

pub outer_laws : OuterLaws engine
outer_laws = record {
  outer_row = outer_row_lem;
  outer_left = outer_left_lem;
  outer_right = outer_right_lem;
  group_some = group_some_lem;
}
