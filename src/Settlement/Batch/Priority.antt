-- ===== src/Settlement/Batch/Priority.antt =====
-- The order of the two ways of an impression.
use ott_ad_pipeline.Base.{
  ℕ, suc, ◌+◌, ◌-◌, ◌≡◌, refl, ap, ◌∙◌, String, Option, List, [], ◌∷◌, ◌++◌, if◌then◌else◌, length,
  arith, append-nil,
}
use ott_ad_pipeline.Settlement.Batch.{is_text, prio, prio_loop, reverse_onto}

-- The place of a source among the names from place `i` on, and a value for one that is not there.
pub place : ℕ → List String → ℕ → Option String → ℕ
place i [] other source = other
place i (x ∷ xs) other source = if is_text x source then i else place (suc i) xs other source

-- The loop goes through the names backwards: what is left of them stands before what is done.
loop_lem :
    (left : List String) (right : List String) (n i other : ℕ) (f : Option String → ℕ)
    (source : Option String)
    → i ≡ length right
    → n ≡ length left + length right
    → f source ≡ place (length left) right other source
    → prio_loop n i left f source ≡ place 0 (reverse_onto left right) other source
unfolding prio_loop place
loop_lem [] right n i other f source h k e = e
loop_lem (x ∷ left) right n i other f source h k e =
    loop_lem left (x ∷ right) n (suc i) other _ source (omega (arith, h)) (omega (arith, k))
      (rw e (rw spot refl))
  where
    spot : n - 1 - i ≡ length left
    spot = omega (arith, h, k)

length-reverse_onto : (xs ys : List String) → length (reverse_onto xs ys) ≡ length xs + length ys
length-reverse_onto [] ys = omega arith
length-reverse_onto (x ∷ xs) ys = omega (arith, length-reverse_onto xs (x ∷ ys))

reverse_onto-reverse_onto :
    (xs ys zs : List String) → reverse_onto (reverse_onto xs ys) zs ≡ reverse_onto ys (xs ++ zs)
reverse_onto-reverse_onto [] ys zs = refl
reverse_onto-reverse_onto (x ∷ xs) ys zs = reverse_onto-reverse_onto xs (x ∷ ys) zs

reverse_twice : (xs : List String) → reverse_onto (reverse_onto xs []) [] ≡ xs
reverse_twice xs = reverse_onto-reverse_onto xs [] [] ∙ append-nil xs

-- A source has the place of its name in SSAI_SOURCE_PRIORITY, the first one if it stands there
-- twice; another source, or none, comes after all of them.
pub prio_lem :
    (names : List String) (source : Option String)
    → prio names source ≡ place 0 names (length names + 1) source
unfolding prio place
prio_lem names source =
    loop_lem (reverse_onto names []) [] (length names) 0 (length names + 1) _ source refl
      (omega (arith, length-reverse_onto names [])) (unnamed (length (reverse_onto names [])))
    ∙ ap (λ l. place 0 l (length names + 1) source) (reverse_twice names)
  where
    unnamed : (n : ℕ) → length names + 1 ≡ place n [] (length names + 1) source
    unnamed n = refl
