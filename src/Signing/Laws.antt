-- ===== src/Signing/Laws.antt =====
-- What the signature depends on, and that an unforged pixel carries it.
use mathlib.Core.List.{Perm}
use ott_ad_pipeline.Base.{
  ℕ, ◌+◌, ◌≡◌, refl, sym, ap, ◌∙◌, String, eq_iff, true, false, arith, List, [], ◌∷◌, map, Option,
  some, select, Bool-cases, inl, inr,
}
use ott_ad_pipeline.Base.Dict.{get, put, get-put}
use ott_ad_pipeline.Base.Sort.{sort}
use ott_ad_pipeline.Base.Sort.Unique.{select-sort, sort-eq_of_perm}
use ott_ad_pipeline.Base.Text.{text_le, text_le-IsOrder, text_set}
use ott_ad_pipeline.Event.{num, Event}
use ott_ad_pipeline.Signing.{
  Params, keys, join, pair_text, is_signed, canonical, pixel_map, pixel_fields, show, sign,
  pixel_params,
}

select-keys-put :
    (v : String) (p : Params) → select is_signed (keys (put "sig" v p)) ≡ select is_signed (keys p)
unfolding keys put
select-keys-put v [] = refl
select-keys-put v ((k, w) ∷ p) = ground (arith, eq_iff k "sig", select-keys-put v p)

-- The texts of the pairs of a list of signed keys depend on what the dict has at those.
map-pair_text :
    (p q : Params) (ks : List String)
    → ((k : String) → is_signed k ≡ true → get k p ≡ get k q)
    → map (pair_text p) (select is_signed ks) ≡ map (pair_text q) (select is_signed ks)
unfolding pair_text
map-pair_text p q [] h = refl
map-pair_text p q (k ∷ ks) h = elim (Bool-cases (is_signed k)) [
  | inl e ↦ ground (arith, h k e, map-pair_text p q ks h)
  | inr e ↦ ground (arith, map-pair_text p q ks h)
]

-- The canonical text does not depend on a signature that the parameters carry already.
pub canonical-put_sig : (v : String) (p : Params) → canonical (put "sig" v p) ≡ canonical p
unfolding canonical
canonical-put_sig v p =
    let q = put "sig" v p in
    let by_values = map-pair_text q p (sort text_le (keys q)) (λ k e. same k e) in
    let by_keys =
      select-sort text_le text_le-IsOrder is_signed (keys q)
      ∙ ap (sort text_le) (select-keys-put v p)
      ∙ sym (select-sort text_le text_le-IsOrder is_signed (keys p)) in
    ap (join "&") (by_values ∙ ap (map (pair_text p)) by_keys)
  where
    same : (k : String) → is_signed k ≡ true → get k (put "sig" v p) ≡ get k p
    same k e = ground (arith, get-put "sig" k v p, eq_iff k "sig", eq_iff "sig" k)

-- Nor does it depend on the order of the parameters.
pub canonical-perm :
    (p q : Params)
    → Perm (keys p) (keys q)
    → ((k : String) → get k p ≡ get k q)
    → canonical p ≡ canonical q
unfolding canonical
canonical-perm p q h g =
    let by_values = map-pair_text p q (sort text_le (keys p)) (λ k _. g k) in
    let by_keys = ap (select is_signed) (sort-eq_of_perm text_le text_le-IsOrder text_set h) in
    ap (join "&") (by_values ∙ ap (map (pair_text q)) by_keys)

-- A pixel that is not forged carries, for every secret and HMAC, the signature of the parameters
-- that it carries: what a verifier computes from all of them, `sig` included.
pub get-pixel_params :
    (hmac : String → String → String) (secret : String) (ev : Event) (seconds : ℕ) (hex : String)
    → let params = pixel_params hmac secret ev false seconds hex in
      get "sig" params ≡ some (sign hmac secret params)
unfolding pixel_params sign
get-pixel_params hmac secret ev seconds hex =
    let unsigned = put "exp" (show (num (seconds + 300))) (pixel_fields ev pixel_map []) in
    let s = hmac secret (canonical unsigned) in
    get-put "sig" "sig" s unsigned
    ∙ ap {B = Option String} (λ t. some (hmac secret t)) (sym (canonical-put_sig s unsigned))
