-- ===== src/Base/Text.antt =====
-- The order of Python's texts: by code points, from the left.
use Prim.Native.Nat.{compare, Ordering}
use Prim.Native.Char.{code}
use Prim.Native.String.{String, ◌++◌ as str_append, slice, len}
use mathlib.Core.Path.{◌≡◌, refl, sym, ap, ◌∙◌}
use mathlib.Core.Logic.{◌⊎◌, inl, inr}
use mathlib.Core.Bool.{Bool, true, false}
use native.Mathlib.Omega.{arith}
use mathlib.Core.HLevel.{hedberg}
use text.Mathlib.Text.{◌==◌}
use text.Mathlib.Text.{◌==◌ as str_eq}
use text.Mathlib.TextPositions.{slice-append_left}
use text.Mathlib.TextEquality.{codes_equal, eq_iff}
use ott_ad_pipeline.Base.Tests.{Bool-cases}
use ott_ad_pipeline.Base.Sort.{IsOrder}

unfoldable pub text_le : String → String → Bool
text_le String.[] t = true
text_le (String.◌∷◌ c s) String.[] = false
text_le (String.◌∷◌ c s) (String.◌∷◌ d t) = elim (compare (code c) (code d)) [
  | Ordering.lt ↦ true
  | Ordering.eq ↦ text_le s t
  | Ordering.gt ↦ false
]

text_le_total : (s t : String) → (text_le s t ≡ true) ⊎ (text_le t s ≡ true)
unfolding text_le
text_le_total String.[] t = inl refl
text_le_total (String.◌∷◌ c s) String.[] = inr refl
text_le_total (String.◌∷◌ c s) (String.◌∷◌ d t) = ground (arith, text_le_total s t)

text_le_trans : (s t u : String) → text_le s t ≡ true → text_le t u ≡ true → text_le s u ≡ true
unfolding text_le
text_le_trans String.[] t u h k = refl
text_le_trans (String.◌∷◌ c s) String.[] u h k = cc
text_le_trans (String.◌∷◌ c s) (String.◌∷◌ d t) String.[] h k = cc
text_le_trans (String.◌∷◌ c s) (String.◌∷◌ d t) (String.◌∷◌ e u) h k =
    ground (arith, text_le_trans s t u)

text_le_antisym : (s t : String) → text_le s t ≡ true → text_le t s ≡ true → s ≡ t
unfolding text_le
text_le_antisym String.[] String.[] h k = refl
text_le_antisym String.[] (String.◌∷◌ d t) h k = absurd (cc)
text_le_antisym (String.◌∷◌ c s) String.[] h k = absurd (cc)
text_le_antisym (String.◌∷◌ c s) (String.◌∷◌ d t) h k =
    ground (arith, text_le_antisym s t, codes_equal c d)

pub text_le-IsOrder : IsOrder text_le
text_le-IsOrder = record { total = text_le_total; antisym = text_le_antisym; trans = text_le_trans }

text_discrete : Discrete String
text_discrete s t = elim (Bool-cases (s == t)) [
  | inl e ↦ yes ((eq_iff s t).0 e)
  | inr e ↦ no (λ p. cc (e, (eq_iff s t).1 p))
]

pub text_set : IsSet String
text_set = hedberg text_discrete

-- A text that begins with another text than `k` does is not `k`.
pub prefix_ne :
    (p x k : String) → str_eq p (slice k 0 (len p)) ≡ false → str_eq (str_append p x) k ≡ false
prefix_ne p x k h = elim (Bool-cases (str_eq (str_append p x) k)) [
  | inr e ↦ e
  | inl e ↦
      let path =
        sym (slice-append_left p x)
        ∙ ap (λ t. slice t 0 (len p)) ((eq_iff (str_append p x) k).0 e) in
      absurd (cc ((eq_iff p (slice k 0 (len p))).1 path, h))
]
