-- ===== src/Settlement/Engine/First.antt =====
-- That the engine on lists keeps one row for each key, as spark/batch_settlement.py asks of a window.
use mathlib.Core.List.{Memᴰ}
use mathlib.Core.List.Memᴰ.{head, tail, cases_cons}
use ott_ad_pipeline.Base.{
  ℕ, suc, ◌≤◌, ◌≡◌, refl, ap, sym, ◌∙◌, subst, String, eq_iff, Bool, true, false, Option, none,
  some, List, [], ◌∷◌, length, select, if◌then◌else◌, Bool-cases, inl, inr, arith,
}
use ott_ad_pipeline.Settlement.Batch.{Row}
use ott_ad_pipeline.Settlement.Batch.Laws.{same_campaign, same_campaign-eq}
use ott_ad_pipeline.Settlement.Batch.Paid.{FirstLaws}
use ott_ad_pipeline.Settlement.Engine.{engine, place, first_rows}

same_self : (c : Option String) → same_campaign c c ≡ true
same_self none = refl
same_self (some c) = (eq_iff c c).1 refl

same_of_eq : (a b : Option String) → a ≡ b → same_campaign a b ≡ true
same_of_eq a b p = subst (λ c. same_campaign a c ≡ true) p (same_self a)

module _ (key : Row → Option String) (before : Row → Row → Bool) where
  place_mem : (x r : Row) (qs : List Row) → Memᴰ x (place key before r qs) → Memᴰ x (r ∷ qs)
  place_mem x r [] m = m
  place_mem x r (q ∷ qs) m = go (same_campaign (key q) (key r)) (before q r) m (place_mem x r qs)
    where
      go :
          (b c : Bool)
          → Memᴰ x (if b then (if c then q else r) ∷ qs else q ∷ place key before r qs)
          → (Memᴰ x (place key before r qs) → Memᴰ x (r ∷ qs))
          → Memᴰ x (r ∷ q ∷ qs)
      go true true m rest = tail m
      go true false m rest = elim (cases_cons m) [ inl e ↦ head e | inr n ↦ tail (tail n) ]
      go false c m rest = elim (cases_cons m) [
        | inl e ↦ tail (head e)
        | inr n ↦ elim (cases_cons (rest n)) [ inl e ↦ head e | inr o ↦ tail (tail o) ]
      ]

  first_mem_lem : (rows : List Row) (x : Row) → Memᴰ x (first_rows key before rows) → Memᴰ x rows
  first_mem_lem [] x m = m
  first_mem_lem (r ∷ rows) x m = elim (cases_cons (place_mem x r (first_rows key before rows) m)) [
    | inl e ↦ head e
    | inr n ↦ tail (first_mem_lem rows x n)
  ]

  -- A row of the list with the same key.
  abbrev Kept : Row → List Row → Type 0
  Kept r qs = (q : Row) × Memᴰ q qs × (same_campaign (key q) (key r) ≡ true)

  place_new : (r : Row) (qs : List Row) → Kept r (place key before r qs)
  place_new r [] = (r, head refl, same_self (key r))
  place_new r (q ∷ qs) = elim (Bool-cases (same_campaign (key q) (key r))) [
    | inl e ↦ rw e (elim (Bool-cases (before q r)) [
      | inl b ↦ rw b (q, head refl, e)
      | inr b ↦ rw b (r, head refl, same_self (key r))
    ])
    | inr e ↦ rw e (let (t, m, s) = place_new r qs in (t, tail m, s))
  ]

  place_old : (x r : Row) (qs : List Row) → Memᴰ x qs → Kept x (place key before r qs)
  place_old x r [] m = absurd (elim m [ ])
  place_old x r (q ∷ qs) m = elim (cases_cons m) [
    | inl e ↦
        let same = same_of_eq (key q) (key x) (sym (ap key e)) in
        elim (Bool-cases (same_campaign (key q) (key r))) [
          | inl s ↦ rw s (elim (Bool-cases (before q r)) [
            | inl b ↦ rw b (q, head refl, same)
            | inr b ↦ rw b (
              r,
              head refl,
              same_of_eq (key r) (key x) (sym (ap key e ∙ same_campaign-eq (key q) (key r) s)),
            )
          ])
          | inr s ↦ rw s (q, head refl, same)
        ]
    | inr n ↦ elim (Bool-cases (same_campaign (key q) (key r))) [
      | inl s ↦ rw s (x, tail n, same_self (key x))
      | inr s ↦ rw s (let (t, mt, st) = place_old x r qs n in (t, tail mt, st))
    ]
  ]

  first_key_lem : (rows : List Row) (r : Row) → Memᴰ r rows → Kept r (first_rows key before rows)
  first_key_lem [] r m = absurd (elim m [ ])
  first_key_lem (x ∷ rows) r m = elim (cases_cons m) [
    | inl e ↦
        subst (λ j. Kept j (place key before x (first_rows key before rows))) (sym e)
          (place_new x (first_rows key before rows))
    | inr n ↦
        let (q, mq, sq) = first_key_lem rows r n in
        let (t, mt, st) = place_old q x (first_rows key before rows) mq in
        (
          t,
          mt,
          same_of_eq (key t) (key r)
              (same_campaign-eq (key t) (key q) st ∙ same_campaign-eq (key q) (key r) sq),
        )
  ]

  abbrev with_key : Option String → List Row → ℕ
  with_key k qs = length (select (λ e. same_campaign (key e) k) qs)

  same_head :
      (k : Option String) (q r : Row) (qs : List Row)
      → key q ≡ key r
      → with_key k (r ∷ qs) ≡ with_key k (q ∷ qs)
  same_head k q r qs p =
      ap
        (λ j. length (
          if same_campaign j k
          then r ∷ select (λ e. same_campaign (key e) k) qs
          else select (λ e. same_campaign (key e) k) qs))
        (sym p)
      ∙ either (same_campaign (key q) k)
    where
      either :
          (b : Bool)
          → length (
              if b
              then r ∷ select (λ e. same_campaign (key e) k) qs
              else select (λ e. same_campaign (key e) k) qs)
            ≡ length (
                if b
                then q ∷ select (λ e. same_campaign (key e) k) qs
                else select (λ e. same_campaign (key e) k) qs)
      either true = refl
      either false = refl

  -- The row that stays of two with the same key.
  same_head_place :
      (k : Option String) (q r : Row) (qs : List Row)
      → key q ≡ key r
      → with_key k ((if before q r then q else r) ∷ qs) ≡ with_key k (q ∷ qs)
  same_head_place k q r qs p = elim (Bool-cases (before q r)) [
    | inl b ↦ rw b refl
    | inr b ↦ rw b (same_head k q r qs p)
  ]

  place_other :
      (k : Option String) (r : Row) (qs : List Row)
      → same_campaign (key r) k ≡ false
      → with_key k (place key before r qs) ≡ with_key k qs
  place_other k r [] h = rw h refl
  place_other k r (q ∷ qs) h = elim (Bool-cases (same_campaign (key q) (key r))) [
    | inl e ↦ rw e (same_head_place k q r qs (same_campaign-eq (key q) (key r) e))
    | inr e ↦ rw e (elim (Bool-cases (same_campaign (key q) k)) [
      | inl s ↦ rw s (ap suc (place_other k r qs h))
      | inr s ↦ rw s (place_other k r qs h)
    ])
  ]

  place_once :
      (k : Option String) (r : Row) (qs : List Row)
      → with_key k qs ≤ 1
      → with_key k (place key before r qs) ≤ 1
  place_once k r [] h = ground arith
  place_once k r (q ∷ qs) h = elim (Bool-cases (same_campaign (key q) (key r))) [
    | inl e ↦ rw e (omega (arith, h, same_head_place k q r qs (same_campaign-eq (key q) (key r) e)))
    | inr e ↦ rw e (elim (Bool-cases (same_campaign (key q) k)) [
      | inl s ↦ elim (Bool-cases (same_campaign (key r) k)) [
        | inl t ↦ absurd (
            cc (
              e,
              same_of_eq (key q) (key r)
                  (same_campaign-eq (key q) k s ∙ sym (same_campaign-eq (key r) k t)),
            ))
        | inr t ↦ rw s (omega (arith, rw s at h, place_other k r qs t))
      ]
      | inr s ↦ rw s (place_once k r qs (rw s at h))
    ])
  ]

  first_once_lem :
      (rows : List Row) (k : Option String) → with_key k (first_rows key before rows) ≤ 1
  first_once_lem [] k = omega arith
  first_once_lem (r ∷ rows) k = place_once k r (first_rows key before rows) (first_once_lem rows k)

pub first_laws : FirstLaws engine
first_laws = record {
  first_mem = first_mem_lem;
  first_key = first_key_lem;
  first_once = first_once_lem;
}
