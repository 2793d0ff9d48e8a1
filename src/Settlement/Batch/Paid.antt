-- ===== src/Settlement/Batch/Paid.antt =====
-- Which impressions spark/batch_settlement.py settles, of what comes again and what comes twice.
use mathlib.Core.List.{Memᴰ}
use ott_ad_pipeline.Base.{
  ℕ, ◌≤◌, ◌≡◌, refl, ap, ◌∙◌, ◌&&◌, not, String, Bool, true, Option, List, any, length, select,
  if◌then◌else◌, Bool-cases, inl, inr, arith, both_true, leb, leb→le,
}
use ott_ad_pipeline.Base.Members.{select_mem, mem_select, length_pos, some_member, any_mem, mem_any}
use ott_ad_pipeline.Settlement.Batch.{
  Row, Spark, is_event, is_campaign, raw_rows, imp_all, request_key, by_time, by_prio, dedup,
  one_path,
}
use ott_ad_pipeline.Settlement.Batch.Laws.{same_campaign, same_campaign-eq}

-- What Spark documents of `row_number() == 1` over a window: it gives rows of the table, and of the
-- rows with the same key just one, also where the key is null.
pub record FirstLaws (spark : Spark) : Type 1 where
  pub first_mem :
      (key : Row → Option String) (before : Row → Row → Bool) (rows : List Row) (r : Row)
      → Memᴰ r (spark.first_of key before rows)
      → Memᴰ r rows
  pub first_key :
      (key : Row → Option String) (before : Row → Row → Bool) (rows : List Row) (r : Row)
      → Memᴰ r rows
      → (q : Row) × Memᴰ q (spark.first_of key before rows) × (same_campaign (key q) (key r) ≡ true)
  pub first_once :
      (key : Row → Option String) (before : Row → Row → Bool) (rows : List Row) (k : Option String)
      → length (select (λ r. same_campaign (key r) k) (spark.first_of key before rows)) ≤ 1

-- An impression of a campaign for a request.
abbrev pub paid_for : Option String → Row → Bool
paid_for k e =
    (is_event "impression" e && is_campaign e.campaign_id) && same_campaign (request_key e) k

-- No two rows with the same event id differ in whether they are an impression for the request.
abbrev pub consistent : Option String → List Row → Bool
consistent k rows = not (
    any
      (λ a.
        any (λ b. same_campaign b.event_id a.event_id && (paid_for k a && not (paid_for k b))) rows)
      rows)

paid_for-same :
    (k : Option String) (rows : List Row) (a b : Row)
    → consistent k rows ≡ true
    → Memᴰ a rows
    → Memᴰ b rows
    → same_campaign b.event_id a.event_id ≡ true
    → paid_for k a ≡ true
    → paid_for k b ≡ true
paid_for-same k rows a b h ma mb s p = elim (Bool-cases (paid_for k b)) [
  | inl e ↦ e
  | inr e ↦
      let differs = λ (x : Row) (y : Row).
        same_campaign y.event_id x.event_id && (paid_for k x && not (paid_for k y)) in
      let there : any (λ y. differs a y) rows ≡ true =
        mem_any (λ y. differs a y) b rows mb (rw s (rw p (rw e refl))) in
      let found : any (λ x. any (λ y. differs x y) rows) rows ≡ true =
        mem_any (λ x. any (λ y. differs x y) rows) a rows ma there in
      absurd (cc (h, ap not found))
]

module _ (spark : Spark) (first : FirstLaws spark) (text_lt : String → String → Bool)
    (names : List String) (rows : List Row) (k : Option String) where
  open first use {first_mem, first_key, first_once}

  -- The settled impressions of a request.
  abbrev pub settled_for : ℕ
  settled_for = length (
      select (λ e. same_campaign (request_key e) k)
        (one_path spark text_lt names (imp_all (dedup spark text_lt names (raw_rows rows)))))

  abbrev raw : List Row
  raw = raw_rows rows

  abbrev kept : List Row
  kept = dedup spark text_lt names raw

  abbrev is_imp : Row → Bool
  is_imp e = is_event "impression" e && is_campaign e.campaign_id

  -- An impression that is settled for the request is in the archive.
  settled-any : 1 ≤ settled_for → any (paid_for k) raw ≡ true
  unfolding dedup imp_all one_path
  settled-any h =
      let (e, m) = some_member _ h in
      let (paid, key) = select_mem (λ e. same_campaign (request_key e) k) e _ m in
      let (there, imp) = select_mem is_imp e kept (first_mem _ _ _ e paid) in
      mem_any (paid_for k) e raw (first_mem _ _ _ e there) (rw imp (rw key refl))

  -- Of the impressions in the archive for the request one is settled.
  any-settled : consistent k raw ≡ true → any (paid_for k) raw ≡ true → 1 ≤ settled_for
  unfolding dedup imp_all one_path
  any-settled h there =
      let (r, m, p) = any_mem (paid_for k) raw there in
      let (q, mq, same) = first_key (λ e. e.event_id) (by_time spark text_lt names) raw r m in
      let paid = paid_for-same k raw r q h m (first_mem _ _ _ q mq) same p in
      let (imp, key) = both_true (is_imp q) (same_campaign (request_key q) k) paid in
      let (t, mt, again) =
        first_key request_key (by_prio spark text_lt names) (select is_imp kept) q
          (mem_select is_imp q kept mq imp) in
      length_pos t _ (
        mem_select (λ e. same_campaign (request_key e) k) t _ mt
          (ap (λ j. same_campaign j k) (same_campaign-eq (request_key t) (request_key q) again)
            ∙ key))

  -- For an engine with the documented laws, and rows that differ in no event id in this: a request
  -- has exactly one settled impression if the archive has an impression of a campaign for it, however
  -- often and on however many paths, and else none.
  pub settled_for_lem :
      consistent k (raw_rows rows) ≡ true
      → settled_for ≡ (if any (paid_for k) (raw_rows rows) then 1 else 0)
  unfolding one_path
  settled_for_lem h =
      let once : settled_for ≤ 1 = first_once _ _ _ k in
      elim (Bool-cases (any (paid_for k) raw)) [
        | inl e ↦ rw e (omega (arith, any-settled h e))
        | inr e ↦ rw e (elim (Bool-cases (leb 1 settled_for)) [
          | inl some ↦ absurd (cc (e, settled-any (leb→le 1 settled_for some)))
          | inr none ↦ ground (arith, none)
        ])
      ]
