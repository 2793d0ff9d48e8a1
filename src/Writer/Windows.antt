-- ===== src/Writer/Windows.antt =====
-- How the windows of `/agg/summary` in redis-writer/writer.py fit together.
pub mod Indexed
use mathlib.Core.Option.{some-injective}
use ott_ad_pipeline.Base.{
  ℕ, ◌+◌, ◌-◌, ◌*◌, ◌/◌, ◌≤◌, ◌≡◌, refl, ap, sym, ◌∙◌, String, Bool, true, false, ◌&&◌, Option,
  some, List, [], ◌∷◌, map, ltb, leb, if◌then◌else◌, arith, Bool-cases, inl, inr, select, All,
}
use ott_ad_pipeline.Base.Dict.{Dict, get}
use ott_ad_pipeline.Writer.{Redis}
use ott_ad_pipeline.Writer.Summary.{Amounts, Acc, zeros, plus, sum_range, summary_between}
use ott_ad_pipeline.Writer.Sums.{amounts_ext, amounts_of, share, total, sum_hashes_lem}

-- The entries of a sorted set, and what Redis documents of ZRANGEBYSCORE: both ends count.
pub record IndexLaws (r : Redis) : Type 0 where
  pub index : r.Store → List (String × ℕ)
  pub range_is :
      (a b : ℕ) (s : r.Store)
      → r.zrangebyscore "agg:index" a b s ≡ select (λ k. leb a k.1 && leb k.1 b) (index s)

-- Whether the window [from, to) of whole minutes holds a score.
abbrev pub in_window : ℕ → ℕ → ℕ → Bool
in_window from to score =
    if ltb to 60 then false else leb (from / 60 * 60) score && leb score (to / 60 * 60 - 1)

abbrev as_number : Bool → ℕ
as_number true = 1
as_number false = 0

windows_meet :
    (a b c m : ℕ)
    → a ≤ b
    → b ≤ c
    → as_number (in_window a c (m * 60))
      ≡ as_number (in_window a b (m * 60)) + as_number (in_window b c (m * 60))
windows_meet a b c m h k = ground arith

-- Every score of the index is the first second of a minute, as `handle_agg` writes it.
pub record OnMinutes (l : List (String × ℕ)) : Type 0 where
  pub minutes : All (λ k. (m : ℕ) × (k.1 ≡ m * 60)) l

module _ (read : String → Option ℕ) (hash : String → Dict String) (j : String) where
  abbrev in_keys : List (String × ℕ) → Amounts
  in_keys l = total read j (map (λ k. hash k.0) l)

  in_keys-if :
      (b : Bool) (k : String × ℕ) (l : List (String × ℕ))
      → in_keys (if b then k ∷ l else l)
        ≡ plus (if b then share read j (hash k.0) else zeros) (in_keys l)
  unfolding total
  in_keys-if true k l = refl
  in_keys-if false k l = amounts_ext _ _ (omega arith)

  plus_split :
      (x y z : Bool) (v a b c : Amounts)
      → as_number x ≡ as_number y + as_number z
      → a ≡ plus b c
      → plus (if x then v else zeros) a
        ≡ plus (plus (if y then v else zeros) b) (plus (if z then v else zeros) c)
  plus_split true true false v a b c h e = rw e (amounts_ext _ _ (omega arith))
  plus_split true false true v a b c h e = rw e (amounts_ext _ _ (omega arith))
  plus_split false false false v a b c h e = rw e (amounts_ext _ _ (omega arith))
  plus_split true true true v a b c h e = absurd (omega (arith, h))
  plus_split true false false v a b c h e = absurd (omega (arith, h))
  plus_split false true z v a b c h e = absurd (omega (arith, h))
  plus_split false false true v a b c h e = absurd (omega (arith, h))

  in_keys-split :
      (a b c : ℕ) (l : List (String × ℕ))
      → a ≤ b
      → b ≤ c
      → All (λ k. (m : ℕ) × (k.1 ≡ m * 60)) l
      → in_keys (select (λ k. in_window a c k.1) l)
        ≡ plus
            (in_keys (select (λ k. in_window a b k.1) l))
            (in_keys (select (λ k. in_window b c k.1) l))
  unfolding total
  in_keys-split a b c [] h k all = refl
  in_keys-split a b c ((key, score) ∷ l) h k ((m, e), all) =
      in_keys-if (in_window a c score) (key, score) _
      ∙ plus_split (in_window a c score) (in_window a b score) (in_window b c score)
          (share read j (hash key)) _ _ _ (rw e (windows_meet a b c m h k))
          (in_keys-split a b c l h k all)
      ∙ sym (
          ap2' (in_keys-if (in_window a b score) (key, score) _)
            (in_keys-if (in_window b c score) (key, score) _))
    where
      ap2' : {p p' q q' : Amounts} → p ≡ p' → q ≡ q' → plus p q ≡ plus p' q'
      ap2' e f = cc (e, f)

plus-zeros_left : (a : Amounts) → plus zeros a ≡ a
plus-zeros_left a = amounts_ext _ _ (omega arith)

module _ (read : String → Option ℕ) (r : Redis) (laws : IndexLaws r) where
  open laws use {index, range_is}

  pub between_total :
      (j : String) (a b : ℕ) (s : r.Store) (x : Dict Acc)
      → summary_between read r a b s ≡ some x
      → amounts_of j x
        ≡ total read j (map (λ k. r.hgetall k.0 s) (select (λ k. in_window a b k.1) (index s)))
  unfolding summary_between sum_range total amounts_of get
  between_total j a b s x = elim (Bool-cases (ltb b 60)) [
    | inl e ↦
        rw (e, summary_between)
          ((λ p.
            ap (amounts_of j) (sym (some-injective _ _ p))
            ∙ ap (λ l. total read j (map (λ k. r.hgetall k.0 s) l)) (sym (nothing_in (index s)))))
    | inr e ↦
        rw (e, summary_between)
          ((rw (range_is _ _ s) (λ p. sum_hashes_lem read j _ [] x p ∙ plus-zeros_left _)))
  ]
    where
      nothing_in : (l : List (String × ℕ)) → select (λ k. false) l ≡ []
      nothing_in [] = refl
      nothing_in (k ∷ l) = nothing_in l

  -- Two windows of /agg/summary that meet lose no minute and count none twice: for every campaign
  -- the sums of [a, b) and [b, c) add up to the sums of [a, c). The index holds whole minutes,
  -- and the three reads find numbers in the hashes.
  pub summary_between_meet :
      (a b c : ℕ) (s : r.Store) (x y z : Dict Acc) (j : String)
      → a ≤ b
      → b ≤ c
      → OnMinutes (index s)
      → summary_between read r a c s ≡ some x
      → summary_between read r a b s ≡ some y
      → summary_between read r b c s ≡ some z
      → amounts_of j x ≡ plus (amounts_of j y) (amounts_of j z)
  summary_between_meet a b c s x y z j h k m p q t =
      between_total j a c s x p
      ∙ in_keys-split read (λ n. r.hgetall n s) j a b c (index s) h k m.minutes
      ∙ sym (cc (between_total j a b s y q, between_total j b c s z t))
