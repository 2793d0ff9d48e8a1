-- ===== src/Writer/Sums.antt =====
-- What the sums of `_sum_range` in redis-writer/writer.py come to.
use ott_ad_pipeline.Base.{
  ℕ, ◌≡◌, refl, ap, sym, ◌∙◌, String, str_eq, eq_iff, Option, none, some, List, [], ◌∷◌,
  if◌then◌else◌, or_else, arith, Bool-cases, Option-cases, inl, inr,
}
use mathlib.Core.Option.{some-injective, none-ne-some}
use ott_ad_pipeline.Base.Dict.{Dict, get, put, get-put}
use ott_ad_pipeline.Writer.Summary.{
  Amounts, Acc, zeros, plus, read_hash, campaign_of, new_acc, add_hash, sum_hashes,
}

-- What a result says of a campaign.
unfoldable pub amounts_of : String → Dict Acc → Amounts
amounts_of j out = elim (get j out) [ none ↦ zeros | some acc ↦ acc.amounts ]

-- Equal numbers are equal amounts.
pub amounts_ext :
    (a b : Amounts)
    → (a.impressions ≡ b.impressions)
      × (a.clicks ≡ b.clicks)
      × (a.completes ≡ b.completes)
      × (a.requests ≡ b.requests)
      × (a.ssai_dupes ≡ b.ssai_dupes)
      × (a.minutes ≡ b.minutes)
    → a ≡ b
amounts_ext a b (p, q, r, s, t, u) = λ i. record {
  impressions = p i;
  clicks = q i;
  completes = r i;
  requests = s i;
  ssai_dupes = t i;
  minutes = u i;
}

plus-zeros : (a : Amounts) → plus a zeros ≡ a
plus-zeros a = amounts_ext _ _ (omega arith)

plus_assoc : (a b c : Amounts) → plus (plus a b) c ≡ plus a (plus b c)
plus_assoc a b c = amounts_ext _ _ (omega arith)

module _ (read : String → Option ℕ) where
  -- What one hash has for a campaign, and what many have.
  unfoldable pub share : String → Dict String → Amounts
  share j h = elim (campaign_of read h) [
    | none ↦ zeros
    | some cid ↦ if str_eq cid j then or_else (read_hash read h) zeros else zeros
  ]

  unfoldable pub total : String → List (Dict String) → Amounts
  total j [] = zeros
  total j (h ∷ hs) = plus (share j h) (total j hs)

  amounts_of-put :
      (j cid : String) (h : Dict String) (a : Amounts) (out : Dict Acc)
      → amounts_of j (
          put cid
            (record (or_else (get cid out) (new_acc read h)) {
              amounts = plus (or_else (get cid out) (new_acc read h)).amounts a;
            })
            out)
        ≡ plus (amounts_of j out) (if str_eq cid j then a else zeros)
  unfolding amounts_of new_acc
  amounts_of-put j cid h a out = elim (Bool-cases (str_eq cid j)) [
    | inl e ↦
        let same = (eq_iff cid j).0 e in
        rw (get-put cid j _ out, amounts_of) (rw (e, amounts_of) (rw (sym same) (go (get cid out))))
    | inr e ↦ rw (get-put cid j _ out, amounts_of) (rw (e, amounts_of) (zero_right (get j out)))
  ]
    where
      go :
          (o : Option Acc)
          → plus (or_else o (new_acc read h)).amounts a
            ≡ plus (elim o [ none ↦ zeros | some acc ↦ acc.amounts ]) a
      go none = refl
      go (some acc) = refl

      zero_right :
          (o : Option Acc)
          → elim o [ none ↦ zeros | some acc ↦ acc.amounts ]
            ≡ plus (elim o [ none ↦ zeros | some acc ↦ acc.amounts ]) zeros
      zero_right none = refl
      zero_right (some acc) = sym (plus-zeros acc.amounts)

  add_hash_lem :
      (j : String) (h : Dict String) (out next : Dict Acc)
      → add_hash read h out ≡ some next
      → amounts_of j next ≡ plus (amounts_of j out) (share j h)
  unfolding add_hash share
  add_hash_lem j h out next = elim (Option-cases (campaign_of read h)) [
    | inl q ↦
        rw (q, add_hash)
          (rw (q, share) (λ e. cc (some-injective _ _ e, plus-zeros (amounts_of j out))))
    | inr (cid, q) ↦ elim (Option-cases (read_hash read h)) [
      | inl w ↦ rw (q, add_hash) (rw (w, add_hash) (λ e. absurd (none-ne-some _ e)))
      | inr (a, w) ↦
          rw (q, add_hash)
            (rw (w, add_hash)
              (rw (q, share)
                (rw (w, share)
                  (λ e.
                    sym (ap (amounts_of j) (some-injective _ _ e))
                    ∙ amounts_of-put j cid h a out))))
    ]
  ]

  -- If every count that is read is a number, the result has for every campaign what it had before
  -- and the sum of the campaign's hashes: each of the five counts, and the number of its minutes.
  pub sum_hashes_lem :
      (j : String) (hs : List (Dict String)) (out res : Dict Acc)
      → sum_hashes read hs out ≡ some res
      → amounts_of j res ≡ plus (amounts_of j out) (total j hs)
  unfolding sum_hashes total
  sum_hashes_lem j [] out res = λ e. cc (some-injective _ _ e, plus-zeros (amounts_of j out))
  sum_hashes_lem j (h ∷ hs) out res = elim (Option-cases (add_hash read h out)) [
    | inl q ↦ rw (q, sum_hashes) (λ e. absurd (none-ne-some _ e))
    | inr (next, q) ↦
        rw (q, sum_hashes)
          (λ e.
            sum_hashes_lem j hs next res e
            ∙ ap (λ t. plus t (total j hs)) (add_hash_lem j h out next q)
            ∙ plus_assoc _ _ _)
  ]
