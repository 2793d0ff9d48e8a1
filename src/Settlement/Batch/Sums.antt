-- ===== src/Settlement/Batch/Sums.antt =====
-- The sum of a column of a settlement table of spark/batch_settlement.py, against the rows counted.
use mathlib.Core.List.{Memᴰ}
use mathlib.Core.List.Memᴰ.{head, tail, cases_cons}
use ott_ad_pipeline.Base.{
  ℕ, zero, suc, ◌+◌, ◌≤◌, ◌≡◌, refl, ap, sym, ◌∙◌, subst, ◌&&◌, not, Bool, true, false, List, [],
  ◌∷◌, All, length, select, if◌then◌else◌, Bool-cases, inl, inr, arith,
}
use ott_ad_pipeline.Base.Members.{some_member, select_mem, mem_select, length_pos}
use ott_ad_pipeline.Settlement.Batch.{Row, Cell}
use ott_ad_pipeline.Settlement.Batch.Laws.{
  same_cell, same_cell-eq, same_cell_self, in_group, no_null,
}
use ott_ad_pipeline.Settlement.Batch.Minutes.{Present}

-- No two rows of a table are of the same group, where a group with a null is none.
abbrev pub Distinct : {A : Type 0} → List (Cell × A) → Type 0
Distinct [] = Unit
Distinct ((k, a) ∷ t) = All (λ x. (no_null k && same_cell k x.0) ≡ false) t × Distinct t

-- The sum of a column over the rows whose group passes a test.
abbrev pub total : {A : Type 0} → (A → ℕ) → (Cell → Bool) → List (Cell × A) → ℕ
total f p [] = 0
total f p ((k, a) ∷ t) = let rest = total f p t in if p k then f a + rest else rest

All_mem : {A : Type 0} (P : A → Type 0) (x : A) (xs : List A) → All P xs → Memᴰ x xs → P x
All_mem P x [] h m = absurd (elim m [ ])
All_mem P x (y ∷ ys) h m = elim (cases_cons m) [
  | inl e ↦ subst P (sym e) h.0
  | inr n ↦ All_mem P x ys h.1 n
]

module _ (cell : Row → Cell) where
  -- The rows of the other groups.
  abbrev others : Cell → List Row → List Row
  others k rows = select (λ e. not (same_cell k (cell e))) rows

  in_group-others :
      (j k : Cell) (rows : List Row)
      → same_cell k j ≡ false
      → in_group cell j (others k rows) ≡ in_group cell j rows
  in_group-others j k [] h = refl
  in_group-others j k (e ∷ rows) h = elim (Bool-cases (same_cell k (cell e))) [
    | inl s ↦ rw s (elim (Bool-cases (same_cell j (cell e))) [
      | inl t ↦ absurd (cc (h, s, same_cell-eq j (cell e) t))
      | inr t ↦ rw t (in_group-others j k rows h)
    ])
    | inr s ↦ rw s (elim (Bool-cases (same_cell j (cell e))) [
      | inl t ↦ rw t (ap suc (in_group-others j k rows h))
      | inr t ↦ rw t (in_group-others j k rows h)
    ])
  ]

  in_group-others_self : (k : Cell) (rows : List Row) → in_group cell k (others k rows) ≡ 0
  in_group-others_self k [] = refl
  in_group-others_self k (e ∷ rows) = elim (Bool-cases (same_cell k (cell e))) [
    | inl s ↦ rw s (in_group-others_self k rows)
    | inr s ↦ rw s (rw s (in_group-others_self k rows))
  ]

  module _ (p : Cell → Bool) where
    -- How many rows are of a group that passes.
    abbrev pub passing : List Row → ℕ
    passing rows = length (select (λ e. p (cell e)) rows)

    passing_split :
        (k : Cell) (rows : List Row)
        → p k ≡ true
        → passing rows ≡ in_group cell k rows + passing (others k rows)
    passing_split k [] h = omega arith
    passing_split k (e ∷ rows) h = elim (Bool-cases (same_cell k (cell e))) [
      | inl s ↦
          let passes : p (cell e) ≡ true = sym (ap p (same_cell-eq k (cell e) s)) ∙ h in
          rw s (rw passes (omega (arith, passing_split k rows h)))
      | inr s ↦ rw s (elim (Bool-cases (p (cell e))) [
        | inl t ↦ rw t (omega (arith, passing_split k rows h))
        | inr t ↦ rw t (passing_split k rows h)
      ])
    ]

    -- What a column has: the number of rows of each group, and each group that passes and has a row.
    pub record Counts {A : Type 0} (f : A → ℕ) (t : List (Cell × A)) (rows : List Row)
        : Type 0 where
      pub sound : (k : Cell) (a : A) → Memᴰ (k, a) t → p k ≡ true → f a ≡ in_group cell k rows
      pub complete : (k : Cell) → p k ≡ true → 1 ≤ in_group cell k rows → Present k t

    module _ (whole : (k : Cell) → p k ≡ true → no_null k ≡ true) {A : Type 0} (f : A → ℕ) where
      empty-passing : (rows : List Row) → Counts f [] rows → passing rows ≡ 0
      empty-passing rows c = go (passing rows) refl
        where
          go : (n : ℕ) → passing rows ≡ n → passing rows ≡ 0
          go zero e = e
          go (suc n) e =
              let (r, m) = some_member _ (omega (arith, e)) in
              let (there, h) = select_mem (λ e. p (cell e)) r rows m in
              let self = same_cell_self (cell r) (whole (cell r) h) in
              let (a, none) = c.complete (cell r) h (
                length_pos r _ (mem_select (λ e. same_cell (cell r) (cell e)) r rows there self)) in
              absurd (elim none [ ])

      skip-Counts :
          (k : Cell) (a : A) (t : List (Cell × A)) (rows : List Row)
          → p k ≡ false
          → Counts f ((k, a) ∷ t) rows
          → Counts f t rows
      skip-Counts k a t rows h c = record {
        sound = λ j b m q. c.sound j b (tail m) q;
        complete = λ j q n.
            let (b, m) = c.complete j q n in
            elim (cases_cons m) [
              | inl e ↦ absurd (cc (h, q, ap p (ap (λ x. x.0) e)))
              | inr there ↦ (b, there)
            ];
      }

      others-Counts :
          (k : Cell) (a : A) (t : List (Cell × A)) (rows : List Row)
          → p k ≡ true
          → Distinct ((k, a) ∷ t)
          → Counts f ((k, a) ∷ t) rows
          → Counts f t (others k rows)
      others-Counts k a t rows h d c = record {
        sound = λ j b m q.
            let apart = All_mem (λ x. (no_null k && same_cell k x.0) ≡ false) (j, b) t d.0 m in
            c.sound j b (tail m) q
            ∙ sym (in_group-others j k rows (sym (rw (whole k h) refl) ∙ apart));
        complete = λ j q n. elim (Bool-cases (same_cell k j)) [
          | inl s ↦
              let gone = ap (λ i. in_group cell i (others k rows)) (same_cell-eq k j s) in
              absurd (omega (arith, n, gone, in_group-others_self k rows))
          | inr s ↦
              let (b, m) = c.complete j q (subst (λ i. 1 ≤ i) (in_group-others j k rows s) n) in
              elim (cases_cons m) [
                | inl e ↦ absurd (
                    cc (s, same_cell_self k (whole k h), ap (λ i. same_cell k i) (ap (λ x. x.0) e)))
                | inr there ↦ (b, there)
              ]
        ];
      }

      -- A column that has the number of rows of each group adds up to the number of all rows of the
      -- groups that pass.
      pub total-Counts :
          (t : List (Cell × A)) (rows : List Row)
          → Distinct t
          → Counts f t rows
          → total f p t ≡ passing rows
      total-Counts [] rows d c = sym (empty-passing rows c)
      total-Counts ((k, a) ∷ t) rows d c = elim (Bool-cases (p k)) [
        | inl e ↦
            let rest = total-Counts t (others k rows) d.1 (others-Counts k a t rows e d c) in
            let mine : f a ≡ in_group cell k rows = c.sound k a (head refl) e in
            rw e (omega (arith, rest, mine, passing_split k rows e))
        | inr e ↦ rw e (total-Counts t rows d.1 (skip-Counts k a t rows e c))
      ]
