-- ===== src/Settlement/Reconcile/Causes.antt =====
-- What a cause says of the difference that it explains.
use ott_ad_pipeline.Base.{
  ℕ, zero, suc, ◌≤◌, ◌≡◌, refl, ◌∙◌, String, List, [], ◌∷◌, ◌++◌, arith, ◌⊎◌, inl, inr, subst, ap,
}
use ott_ad_pipeline.Base.Int.{ℤ, pos, negsuc, pos_part, neg_part, ◌+ℤ◌, ◌-ℤ◌, ◌≤ℤ◌, int_laws}
use ott_ad_pipeline.Base.Dict.{Dict}
use ott_ad_pipeline.Settlement.Reconcile.{
  Part, late_part, ssai_part, surplus, deficit, Cause, not_realtime, not_batch, parts, late_parts,
  ssai_parts, residual_parts, classify, Settled, Row, compare_one,
}

-- What a part contributes to the settled count, over the real-time one.
abbrev pub effect : Part → ℤ
effect (late_part n) = pos n
effect (ssai_part s) = pos 0 -ℤ s
effect (surplus n) = pos n
effect (deficit n) = pos 0 -ℤ pos n

abbrev pub effects : List Part → ℤ
effects [] = pos 0
effects (p ∷ ps) = effect p +ℤ effects ps

effects-append : (ps qs : List Part) → effects (ps ++ qs) ≡ effects ps +ℤ effects qs
effects-append [] qs = omega int_laws
effects-append (p ∷ ps) qs = rw (effects-append ps qs) (omega int_laws)

effects-late : (n : ℕ) → effects (late_parts n) ≡ pos n
unfolding late_parts
effects-late zero = refl
effects-late (suc n) = omega int_laws

effects-ssai : (s : ℤ) → effects (ssai_parts s) ≡ pos 0 -ℤ s
unfolding ssai_parts
effects-ssai (pos zero) = omega int_laws
effects-ssai (pos (suc n)) = omega int_laws
effects-ssai (negsuc n) = omega int_laws

effects-residual : (r : ℤ) → effects (residual_parts r) ≡ r
unfolding residual_parts
effects-residual (pos zero) = refl
effects-residual (pos (suc n)) = omega int_laws
effects-residual (negsuc n) = omega int_laws

effects-all :
    (ssai : ℤ) (late : ℕ) (residual : ℤ)
    → effects (late_parts late ++ (ssai_parts ssai ++ residual_parts residual))
      ≡ pos late -ℤ ssai +ℤ residual
effects-all ssai late residual =
    rw
      (
        effects-append (late_parts late) (ssai_parts ssai ++ residual_parts residual),
        effects-append (ssai_parts ssai) (residual_parts residual),
        effects-late late,
        effects-ssai ssai,
        effects-residual residual,
      )
      (omega int_laws)

-- A cause by parts explains the difference in full, and neither count was zero alone.
abbrev pub Explains : Cause → Row → Type 0
Explains (parts ps) r =
    (effects ps ≡ r.diff)
    × (r.realtime_impressions ≡ 0 → r.batch_impressions ≡ 0)
    × (r.batch_impressions ≡ 0 → r.realtime_impressions ≡ 0)
Explains not_realtime r = (r.realtime_impressions ≡ 0) × (1 ≤ r.batch_impressions)
Explains not_batch r = (r.batch_impressions ≡ 0) × (1 ≤ r.realtime_impressions)

classify_cases :
    (ssai : ℤ) (late : ℕ) (residual : ℤ) (rt bt : ℕ)
    → (classify ssai late residual rt bt ≡ not_realtime) × (rt ≡ 0) × (1 ≤ bt)
      ⊎ (classify ssai late residual rt bt ≡ not_batch) × (bt ≡ 0) × (1 ≤ rt)
      ⊎ (classify ssai late residual rt bt
          ≡ parts (late_parts late ++ (ssai_parts ssai ++ residual_parts residual)))
        × (rt ≡ 0 → bt ≡ 0)
        × (bt ≡ 0 → rt ≡ 0)
unfolding classify
classify_cases ssai late residual rt bt = ground arith

-- Every row's cause is right: either one of the two sides has no count at all, and the cause says
-- which; or the parts of the cause add up, with their signs, to the settled count less the
-- real-time one.
pub compare_one-Explains :
    (rt_camps : Dict ℕ) (b_rows : Dict Settled) (late_by : Dict ℕ) (cid : String)
    → let r = compare_one rt_camps b_rows late_by cid in Explains r.likely_cause r
unfolding compare_one
compare_one-Explains rt_camps b_rows late_by cid =
    let r = compare_one rt_camps b_rows late_by cid in
    elim (classify_cases r.ssai r.late r.residual r.realtime_impressions r.batch_impressions) [
      | inl (e, a, b) ↦ rw e (a, b)
      | inr (inl (e, a, b)) ↦ rw e (a, b)
      | inr (inr (e, a, b)) ↦ rw e (effects-all r.ssai r.late r.residual ∙ omega int_laws, a, b)
    ]

-- A row without any part, the text "no difference", has equal counts.
pub no_parts-eq :
    (rt_camps : Dict ℕ) (b_rows : Dict Settled) (late_by : Dict ℕ) (cid : String)
    → (compare_one rt_camps b_rows late_by cid).likely_cause ≡ parts []
    → (compare_one rt_camps b_rows late_by cid).realtime_impressions
      ≡ (compare_one rt_camps b_rows late_by cid).batch_impressions
unfolding compare_one
no_parts-eq rt_camps b_rows late_by cid e =
    let r = compare_one rt_camps b_rows late_by cid in
    let h = subst (λ c. Explains c r) e (compare_one-Explains rt_camps b_rows late_by cid) in
    omega (int_laws, ap pos_part h.0, ap neg_part h.0)

-- The rate of difference lies between -1 and 1: no difference exceeds the denominator.
pub diff-le-base :
    (rt_camps : Dict ℕ) (b_rows : Dict Settled) (late_by : Dict ℕ) (cid : String)
    → let r = compare_one rt_camps b_rows late_by cid in
      (r.diff ≤ℤ pos r.base) × (pos 0 -ℤ pos r.base ≤ℤ r.diff) × (1 ≤ r.base)
unfolding compare_one
diff-le-base rt_camps b_rows late_by cid = omega int_laws
