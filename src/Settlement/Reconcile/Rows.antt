-- ===== src/Settlement/Reconcile/Rows.antt =====
-- Which campaigns are compared, and what the totals say of the rows.
use ott_ad_pipeline.Base.{
  ℕ, ◌≡◌, refl, ◌∙◌, String, str_eq, eq_iff, Bool, false, ◌||◌, List, [], ◌∷◌, ◌++◌, any, arith,
  inl, inr, Bool-cases, ap,
}
use ott_ad_pipeline.Base.Int.{ℤ, pos, ◌+ℤ◌, ◌-ℤ◌, int_laws}
use ott_ad_pipeline.Base.Dict.{Dict}
use ott_ad_pipeline.Base.Sort.{sort, insert, IsSorted, sort-IsSorted}
use ott_ad_pipeline.Base.Text.{text_le, text_le-IsOrder}
use ott_ad_pipeline.Signing.{keys}
use ott_ad_pipeline.Settlement.Reconcile.{
  Settled, Row, compare_one, compare_all, distinct, campaigns, Totals, add_row, totals,
  total_residual,
}

abbrev pub sum_diff : List Row → ℤ
sum_diff [] = pos 0
sum_diff (r ∷ rs) = r.diff +ℤ sum_diff rs

abbrev pub sum_residual : List Row → ℤ
sum_residual [] = pos 0
sum_residual (r ∷ rs) = r.residual +ℤ sum_residual rs

total_diff : Totals → ℤ
total_diff t = pos t.t_bt -ℤ pos t.t_rt

module _ (rt_camps : Dict ℕ) (b_rows : Dict Settled) (late_by : Dict ℕ) where
  add_row_lem :
      (t : Totals) (cid : String)
      → let r = compare_one rt_camps b_rows late_by cid in
        (total_diff (add_row t r) ≡ total_diff t +ℤ r.diff)
        × (total_residual (add_row t r) ≡ total_residual t +ℤ r.residual)
  unfolding compare_one add_row total_residual total_diff
  add_row_lem t cid = (omega int_laws, omega int_laws)

  totals-from :
      (cids : List String) (t : Totals)
      → let rows = compare_all rt_camps b_rows late_by cids in
        (total_diff (totals t rows) ≡ total_diff t +ℤ sum_diff rows)
        × (total_residual (totals t rows) ≡ total_residual t +ℤ sum_residual rows)
  unfolding compare_all totals
  totals-from [] t = (omega int_laws, omega int_laws)
  totals-from (cid ∷ cids) t =
      let r = compare_one rt_camps b_rows late_by cid in
      let (d, e) = totals-from cids (add_row t r) in
      let (a, b) = add_row_lem t cid in (d ∙ rw a (omega int_laws), e ∙ rw b (omega int_laws))

-- Whether a campaign is in a list.
abbrev pub has : String → List String → Bool
has c l = any (λ y. str_eq y c) l

has-append : (c : String) (xs ys : List String) → has c (xs ++ ys) ≡ (has c xs || has c ys)
has-append c [] ys = refl
has-append c (x ∷ xs) ys = ground (arith, has-append c xs ys)

has-insert :
    (c x : String) (ys : List String) → has c (insert text_le x ys) ≡ (str_eq x c || has c ys)
unfolding insert
has-insert c x [] = refl
has-insert c x (y ∷ ys) = ground (arith, has-insert c x ys)

has-sort : (c : String) (xs : List String) → has c (sort text_le xs) ≡ has c xs
unfolding sort
has-sort c [] = refl
has-sort c (x ∷ xs) = has-insert c x (sort text_le xs) ∙ ap (λ b. str_eq x c || b) (has-sort c xs)

has-distinct : (c : String) (xs : List String) → has c (distinct xs) ≡ has c xs
unfolding distinct
has-distinct c [] = refl
has-distinct c (x ∷ xs) = elim (Bool-cases (has x (distinct xs))) [
  | inr e ↦ rw e (ap (λ b. str_eq x c || b) (has-distinct c xs))
  | inl e ↦ ground (arith, has-distinct c xs, eq_iff x c)
]

abbrev pub NoRepeat : List String → Type 0
NoRepeat [] = Unit
NoRepeat (x ∷ xs) = (has x xs ≡ false) × NoRepeat xs

distinct-NoRepeat : (xs : List String) → NoRepeat (distinct xs)
unfolding distinct
distinct-NoRepeat [] = tt
distinct-NoRepeat (x ∷ xs) = elim (Bool-cases (has x (distinct xs))) [
  | inl e ↦ rw e (distinct-NoRepeat xs)
  | inr e ↦ rw e (e, distinct-NoRepeat xs)
]

insert-NoRepeat :
    (x : String) (ys : List String)
    → has x ys ≡ false
    → NoRepeat ys
    → NoRepeat (insert text_le x ys)
unfolding insert
insert-NoRepeat x [] h n = (refl, tt)
insert-NoRepeat x (y ∷ ys) h n = elim (Bool-cases (text_le x y)) [
  | inl e ↦ rw e (h, n)
  | inr e ↦ rw e (
    has-insert y x ys ∙ ground (arith, eq_iff x y, eq_iff y x),
    insert-NoRepeat x ys (ground arith) n.1,
  )
]

sort-NoRepeat : (xs : List String) → NoRepeat xs → NoRepeat (sort text_le xs)
unfolding sort
sort-NoRepeat [] n = tt
sort-NoRepeat (x ∷ xs) n =
    insert-NoRepeat x (sort text_le xs) (has-sort x xs ∙ n.0) (sort-NoRepeat xs n.1)

-- The campaigns compared are those that either side knows, each once, in the order of their names.
pub campaigns_lem :
    (rt_camps : Dict ℕ) (b_rows : Dict Settled)
    → let cids = campaigns rt_camps b_rows in
      ((c : String) → has c cids ≡ (has c (keys rt_camps) || has c (keys b_rows)))
      × NoRepeat cids
      × IsSorted text_le cids
unfolding campaigns
campaigns_lem rt_camps b_rows =
    let both = keys rt_camps ++ keys b_rows in
    (
      λ c.
          has-sort c (distinct both)
          ∙ has-distinct c both
          ∙ has-append c (keys rt_camps) (keys b_rows),
      sort-NoRepeat (distinct both) (distinct-NoRepeat both),
      sort-IsSorted text_le text_le-IsOrder (distinct both),
    )

-- The totals that are printed agree with the rows: their difference is the sum of the rows'
-- differences, and their rest is the sum of the rows' rests.
pub totals-compare_all :
    (rt_camps : Dict ℕ) (b_rows : Dict Settled) (late_by : Dict ℕ) (cids : List String)
    → let rows = compare_all rt_camps b_rows late_by cids in
      let t = totals (record { t_rt = 0; t_bt = 0; t_late = 0; t_ssai = pos 0 }) rows in
      (pos t.t_bt -ℤ pos t.t_rt ≡ sum_diff rows) × (total_residual t ≡ sum_residual rows)
unfolding total_diff total_residual
totals-compare_all rt_camps b_rows late_by cids =
    let t : Totals = record { t_rt = 0; t_bt = 0; t_late = 0; t_ssai = pos 0 } in
    let (d, e) = totals-from rt_camps b_rows late_by cids t in
    (d ∙ omega int_laws, e ∙ omega int_laws)
