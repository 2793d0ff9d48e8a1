-- ===== src/Settlement/Engine/Left.antt =====
-- That the engine on lists loses no day of spark/batch_settlement.py.
use mathlib.Core.List.{Memᴰ}
use mathlib.Core.List.Memᴰ.{of_map, head, tail, cases_cons}
use ott_ad_pipeline.Base.{ℕ, ◌≤◌, ◌≡◌, ap, sym, subst, true, not, List, [], ◌∷◌, inl, inr}
use ott_ad_pipeline.Base.Members.{select_mem, mem_select, length_pos}
use ott_ad_pipeline.Settlement.Batch.{Row, Cell}
use ott_ad_pipeline.Settlement.Batch.Laws.{same_cell, same_cell_self, in_group, looked, no_null}
use ott_ad_pipeline.Settlement.Batch.Days.{LeftLaws}
use ott_ad_pipeline.Settlement.Engine.{engine, heads}
use ott_ad_pipeline.Settlement.Engine.Outer.{mem_join_all}

heads_mem : (cell : Row → Cell) (r : Row) (rows : List Row) → Memᴰ r (heads cell rows) → Memᴰ r rows
heads_mem cell r [] m = m
heads_mem cell r (x ∷ rows) m = elim (cases_cons m) [
  | inl e ↦ head e
  | inr n ↦
      let (there, other) =
        select_mem (λ q. not (same_cell (cell x) (cell q))) r (heads cell rows) n in
      tail (heads_mem cell r rows there)
]

group_pos_lem :
    (cell : Row → Cell) (rows : List Row) (k : Cell) (n : ℕ)
    → Memᴰ {A = Cell × ℕ} (k, n) (engine.group_count cell rows)
    → no_null k ≡ true
    → 1 ≤ n
group_pos_lem cell rows k n m h =
    let (r, p, e) = of_map (λ r. (cell r, in_group cell (cell r) rows)) (heads cell rows) m in
    let key : cell r ≡ k = ap (λ x. x.0) e in
    let count : in_group cell (cell r) rows ≡ n = ap (λ x. x.1) e in
    let self = same_cell_self (cell r) (subst (λ i. no_null i ≡ true) (sym key) h) in
    subst (λ i. 1 ≤ i) count
      (length_pos r _
        (mem_select (λ q. same_cell (cell r) (cell q)) r rows (heads_mem cell r rows p) self))

pub left_laws : LeftLaws engine
left_laws = record {
  group_pos = group_pos_lem;
  left_present = λ xs ys k (a, m). ((a, looked k ys), mem_join_all k a xs ys m);
}
