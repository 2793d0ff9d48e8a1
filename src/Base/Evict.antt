-- ===== src/Base/Evict.antt =====
-- A dict that keeps its newest entries: `for old in list(d)[:-limit]: d.pop(old, None)`.
use mathlib.Core.Option.{none-ne-some}
use ott_ad_pipeline.Base.{
  ℕ, zero, suc, ◌-◌, ◌≤◌, ◌≡◌, refl, ap, sym, ◌∙◌, String, str_eq, eq_iff, Bool, true, false, none,
  some, List, [], ◌∷◌, ◌++◌, ◌<◌, take, drop, length, length-drop, length-append, if◌then◌else◌,
  arith,
}
use ott_ad_pipeline.Base.Dict.{Dict, get, put, pop}

module _ {ℓ} {V : Type ℓ} where
  abbrev pub dict_keys : Dict V → List String
  dict_keys [] = []
  dict_keys ((k, v) ∷ d) = k ∷ dict_keys d

  unfoldable pub forget : List String → Dict V → Dict V
  forget [] d = d
  forget (old ∷ names) d = forget names (pop old d)

  -- `list(d)[:-limit]`
  unfoldable pub oldest : ℕ → Dict V → List String
  oldest limit d = take (length d - limit) (dict_keys d)

  -- `d[k] = v`, and then all but the newest `limit` go.
  unfoldable pub put_newest : ℕ → String → V → Dict V → Dict V
  unfolding put forget oldest
  put_newest limit k v d = let next = put k v d in forget (oldest limit next) next

  put-new : (k : String) (v : V) (d : Dict V) → get k d ≡ none → put k v d ≡ d ++ (k, v) ∷ []
  unfolding get put
  put-new k v [] h = refl
  put-new k v ((j, w) ∷ d) h = go (str_eq j k) h (put-new k v d)
    where
      go :
          (b : Bool)
          → (if b then some w else get k d) ≡ none
          → (get k d ≡ none → put k v d ≡ d ++ (k, v) ∷ [])
          → (if b then (j, v) ∷ d else (j, w) ∷ put k v d) ≡ (j, w) ∷ d ++ (k, v) ∷ []
      go true h rest = absurd (none-ne-some w (sym h))
      go false h rest = ap (λ t. (j, w) ∷ t) (rest h)

  forget_oldest : (m : ℕ) (d : Dict V) → forget (take m (dict_keys d)) d ≡ drop m d
  unfolding forget pop
  forget_oldest zero d = refl
  forget_oldest (suc m) [] = refl
  forget_oldest (suc m) ((k, v) ∷ d) = rw ((eq_iff k k).1 refl, pop) (forget_oldest m d)

  drop-append_le :
      (m : ℕ) (d : Dict V) (x : String × V)
      → m ≤ length d
      → drop m (d ++ x ∷ []) ≡ drop m d ++ x ∷ []
  drop-append_le zero d x h = refl
  drop-append_le (suc m) [] x h = absurd (omega (arith, h))
  drop-append_le (suc m) (y ∷ d) x h = drop-append_le m d x (omega (arith, h))

  -- A new key comes last, behind the newest entries of those that were, in their order.
  pub put_newest_lem :
      (limit : ℕ) (k : String) (v : V) (d : Dict V)
      → 0 < limit
      → get k d ≡ none
      → put_newest limit k v d ≡ drop (suc (length d) - limit) d ++ (k, v) ∷ []
  unfolding put_newest oldest
  put_newest_lem limit k v d pos h = rw (put-new k v d h) (
      forget_oldest (length (d ++ (k, v) ∷ []) - limit) (d ++ (k, v) ∷ [])
      ∙ ap (λ n. drop (n - limit) (d ++ (k, v) ∷ [])) count
      ∙ drop-append_le _ d (k, v) (omega arith))
    where
      count : length (d ++ (k, v) ∷ []) ≡ suc (length d)
      count = omega (arith, length-append d ((k, v) ∷ []))

  length-forget : (m : ℕ) (d : Dict V) → length (forget (take m (dict_keys d)) d) ≡ length d - m
  length-forget m d = ap length (forget_oldest m d) ∙ length-drop m d

  -- Whatever is put, at most `limit` entries are kept.
  pub length-put_newest :
      (limit : ℕ) (k : String) (v : V) (d : Dict V) → length (put_newest limit k v d) ≤ limit
  unfolding put_newest oldest
  length-put_newest limit k v d =
      omega (arith, length-forget (length (put k v d) - limit) (put k v d))
