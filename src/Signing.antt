-- ===== src/Signing.antt =====
-- The signature of a tracking pixel: `sign` of generator/emitter.py, of player/app.py and of
-- tracer/app.py, which are the same code, and `_pixel`'s parameters. HMAC-SHA256 with its
-- hexadecimal digest is a parameter, of the secret and the text.
pub mod Laws
mod Tests
use Prim.Native.String.{◌++◌ as str_append}
use ott_ad_pipeline.Base.{
  ℕ, zero, suc, ◌+◌, ◌/◌, ◌%◌, String, str_eq, Bool, true, false, not, ltb, List, [], ◌∷◌, map,
  Option, none, some, if◌then◌else◌, or_else, select, get_or,
}
use ott_ad_pipeline.Base.Dict.{Dict, get, put}
use ott_ad_pipeline.Base.Sort.{sort}
use ott_ad_pipeline.Base.Text.{text_le}
use ott_ad_pipeline.Event.{Value, null, num, text, flag, Event}

abbrev pub Params : Type 0
Params = Dict String

-- The keys of a dict, in its order.
unfoldable pub keys {ℓ} : {V : Type ℓ} → Dict V → List String
keys [] = []
keys ((k, v) ∷ d) = k ∷ keys d

-- `s.join(parts)`
unfoldable pub join : String → List String → String
join s [] = ""
join s (x ∷ []) = x
join s (x ∷ y ∷ r) = str_append x (str_append s (join s (y ∷ r)))

-- `f"{k}={params[k]}"`
unfoldable pub pair_text : Params → String → String
unfolding get
pair_text params k = str_append k (str_append "=" (or_else (get k params) ""))

abbrev pub is_signed : String → Bool
is_signed k = not (str_eq k "sig")

unfoldable pub canonical : Params → String
canonical params = join "&" (map (pair_text params) (select is_signed (sort text_le (keys params))))

-- `str(n)`: one round for each digit; n + 1 rounds are enough.
unfoldable pub digits : ℕ → ℕ → String
digits zero n = ""
digits (suc fuel) n =
    let last =
      get_or ("0" ∷ "1" ∷ "2" ∷ "3" ∷ "4" ∷ "5" ∷ "6" ∷ "7" ∷ "8" ∷ "9" ∷ []) (n % 10) "" in
    let longer = str_append (digits fuel (n / 10)) last in if ltb n 10 then last else longer

-- `str(v)`, where the value is not None.
unfoldable pub show : Value → String
unfolding digits
show null = "None"
show (num n) = digits (n + 1) n
show (text s) = s
show (flag true) = "True"
show (flag false) = "False"

abbrev pub pixel_map : List (String × String)
pixel_map =
    ("eid", "event_id")
    ∷ ("et", "event_type")
    ∷ ("cid", "campaign_id")
    ∷ ("ts", "event_time")
    ∷ ("arid", "ad_request_id")
    ∷ ("crid", "creative_id")
    ∷ ("q", "quartile")
    ∷ ("sid", "session_id")
    ∷ ("src", "source")
    ∷ []

-- The loop over `_PIXEL_MAP`: what is missing or None is left out.
unfoldable pub pixel_fields : Event → List (String × String) → Params → Params
pixel_fields ev [] params = params
pixel_fields ev ((pk, ek) ∷ rest) params =
    pixel_fields ev rest
      (elim (get ek ev) [ none ↦ params | some null ↦ params | some v ↦ put pk (show v) params ])

-- HMAC of a secret and a text, in hexadecimal digits.
module _ (hmac : String → String → String) (secret : String) where
  unfoldable pub sign : Params → String
  sign params = hmac secret (canonical params)

  -- The parameters of `_pixel`, for the time in seconds and the digits of a `uuid4`.
  unfoldable pub pixel_params : Event → Bool → ℕ → String → Params
  unfolding put
  pixel_params ev forge seconds hex =
      let params = put "exp" (show (num (seconds + 300))) (pixel_fields ev pixel_map []) in
      put "sig" (if forge then hex else sign params) params
