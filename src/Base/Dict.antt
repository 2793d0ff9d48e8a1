-- ===== src/Base/Dict.antt =====
-- A Python dict with text keys, in insertion order; a `Counter` is one whose missing keys count 0.
use Prim.Native.Nat.{ℕ, ◌+◌}
use Prim.Native.String.{String}
use mathlib.Core.Path.{◌≡◌, refl}
use mathlib.Core.Bool.{false}
use mathlib.Core.List.{List, [], ◌∷◌}
use mathlib.Core.Option.{Option, none, some}
use native.Mathlib.Omega.{arith}
use text.Mathlib.Text.{◌==◌}
use text.Mathlib.TextEquality.{eq_iff}
use ott_ad_pipeline.Base.Tests.{if◌then◌else◌, or_else}

abbrev pub Dict {ℓ} : Type ℓ → Type ℓ
Dict V = List (String × V)

module _ {ℓ} {V : Type ℓ} where
  -- `d.get(k)`
  unfoldable pub get : String → Dict V → Option V
  get k [] = none
  get k ((j, v) ∷ d) = if j == k then some v else get k d

  -- `d[k] = v`: a key that is there keeps its place.
  unfoldable pub put : String → V → Dict V → Dict V
  put k v [] = (k, v) ∷ []
  put k v ((j, w) ∷ d) = if j == k then (j, v) ∷ d else (j, w) ∷ put k v d

  -- `d.pop(k, None)` without its result.
  unfoldable pub pop : String → Dict V → Dict V
  pop k [] = []
  pop k ((j, w) ∷ d) = if j == k then d else (j, w) ∷ pop k d

  pub get-put :
      (k j : String) (v : V) (d : Dict V) → get j (put k v d) ≡ (if k == j then some v else get j d)
  unfolding get put
  get-put k j v [] = refl
  get-put k j v ((i, w) ∷ d) = ground (arith, eq_iff k j, eq_iff i k, eq_iff i j, get-put k j v d)

  pub get-pop_ne : (k j : String) (d : Dict V) → (k == j) ≡ false → get j (pop k d) ≡ get j d
  unfolding get pop
  get-pop_ne k j [] h = refl
  get-pop_ne k j ((i, w) ∷ d) h =
      ground (arith, eq_iff k j, eq_iff i k, eq_iff i j, get-pop_ne k j d h)

abbrev pub Counter : Type 0
Counter = Dict ℕ

-- `c[k]` of a `Counter`.
unfoldable pub count : String → Counter → ℕ
unfolding get
count k c = or_else (get k c) 0

-- `c[k] += n` of a `Counter`.
unfoldable pub add : String → ℕ → Counter → Counter
unfolding count put
add k n c = put k (count k c + n) c

pub count-add :
    (k j : String) (n : ℕ) (c : Counter)
    → count j (add k n c) ≡ (if k == j then count j c + n else count j c)
unfolding count add
count-add k j n c = ground (arith, eq_iff k j, get-put k j (or_else (get k c) 0 + n) c)
