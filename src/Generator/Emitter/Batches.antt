-- ===== src/Generator/Emitter/Batches.antt =====
-- The pieces that a flush posts are the buffer, cut.
use ott_ad_pipeline.Base.{
  ℕ, zero, suc, ◌≤◌, ◌<◌, ◌≡◌, refl, arith, List, [], ◌∷◌, length, All, drop, length-take,
  length-drop, take-append-drop,
}
use mathlib.Core.List.{flatten}
use ott_ad_pipeline.Event.{Event}
use ott_ad_pipeline.Generator.Emitter.Loop.{batches}

abbrev pub Fits : ℕ → List Event → Type 0
Fits size piece = (0 < length piece) × (length piece ≤ size)

batches_from :
    (fuel size : ℕ) (xs : List Event)
    → 0 < size
    → length xs ≤ fuel
    → (flatten (batches fuel size xs) ≡ xs) × All (Fits size) (batches fuel size xs)
unfolding batches flatten
batches_from zero size [] p h = (refl, tt)
batches_from zero size (x ∷ xs) p h = absurd (omega arith)
batches_from (suc fuel) size [] p h = (refl, tt)
batches_from (suc fuel) size (x ∷ xs) p h =
    let (whole, pieces) =
      batches_from fuel size (drop size (x ∷ xs)) p (omega (arith, length-drop size (x ∷ xs))) in
    (
      rw whole (take-append-drop size (x ∷ xs)),
      (
        (omega (arith, length-take size (x ∷ xs)), omega (arith, length-take size (x ∷ xs))),
        pieces,
      ),
    )

-- The pieces of a batch put together are the batch, in its order; none is empty, and none is
-- longer than the batch size, which is positive.
pub batches_lem :
    (size : ℕ) (xs : List Event)
    → 0 < size
    → (flatten (batches (length xs) size xs) ≡ xs) × All (Fits size) (batches (length xs) size xs)
batches_lem size xs p = batches_from (length xs) size xs p (omega arith)
