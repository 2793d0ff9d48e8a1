-- ===== src/Base/Sort/Unique.antt =====
-- A sorted list is determined by its elements, and sorting commutes with selecting.
use mathlib.Core.Path.{◌≡◌, refl, ap, ap₂, ◌∙◌}
use mathlib.Core.Logic.{inl, inr, ∥∥₁_elim}
use mathlib.Core.Bool.{Bool, true}
use mathlib.Core.List.{List, [], ◌∷◌, Perm, Permᴰ, is_set}
use native.Mathlib.Omega.{arith}
use ott_ad_pipeline.Base.Tests.{if◌then◌else◌, Bool-cases}
use ott_ad_pipeline.Base.Lists.{All, select}
use ott_ad_pipeline.Base.Sort.{IsOrder, IsSorted, insert, sort, sort-IsSorted, All-le_trans}

module _ {ℓ} {A : Type ℓ} (le : A → A → Bool) (o : IsOrder le) where
  insert_comm :
      (x y : A) (zs : List A) → insert le x (insert le y zs) ≡ insert le y (insert le x zs)
  unfolding insert
  insert_comm x y [] = ground (arith, o.total x y, o.antisym x y)
  insert_comm x y (z ∷ zs) = ground (
    arith,
    insert_comm x y zs,
    o.total x y,
    o.antisym x y,
    o.trans x y z,
    o.trans y x z,
    o.total x z,
    o.total y z,
  )

  sort-eq_of_permᴰ : {xs ys : List A} → Permᴰ xs ys → sort le xs ≡ sort le ys
  unfolding sort
  sort-eq_of_permᴰ Permᴰ.nil = refl
  sort-eq_of_permᴰ (Permᴰ.cons e p) = ap₂ (insert le) e (sort-eq_of_permᴰ p)
  sort-eq_of_permᴰ (Permᴰ.swap {b = y} {a' = y'} {b' = x'} {l = l} e f) =
      ap₂ (λ a b. insert le a (insert le b (sort le l))) e f ∙ insert_comm x' y' (sort le l)
  sort-eq_of_permᴰ (Permᴰ.trans p q) = sort-eq_of_permᴰ p ∙ sort-eq_of_permᴰ q

  -- The order in which the elements stood does not matter.
  pub sort-eq_of_perm : IsSet A → {xs ys : List A} → Perm xs ys → sort le xs ≡ sort le ys
  sort-eq_of_perm set p = ∥∥₁_elim p (is_set set _ _) sort-eq_of_permᴰ

  All-select {κ} : (P : A → Type κ) (q : A → Bool) (xs : List A) → All P xs → All P (select q xs)
  All-select P q [] h = tt
  All-select P q (x ∷ xs) h = elim (Bool-cases (q x)) [
    | inl e ↦ rw e (h.0, All-select P q xs h.1)
    | inr e ↦ rw e (All-select P q xs h.1)
  ]

  insert_head : (x : A) (zs : List A) → All (λ z. le x z ≡ true) zs → insert le x zs ≡ x ∷ zs
  unfolding insert
  insert_head x [] h = refl
  insert_head x (z ∷ zs) h = rw h.0

  select-insert :
      (q : A → Bool) (x : A) (ys : List A)
      → IsSorted le ys
      → select q (insert le x ys) ≡ (if q x then insert le x (select q ys) else select q ys)
  unfolding insert
  select-insert q x [] s = ground arith
  select-insert q x (y ∷ ys) s = elim (Bool-cases (le x y)) [
    | inr e ↦ ground (arith, select-insert q x ys s.1)
    | inl e ↦ ground (
      arith,
      insert_head x (select q (y ∷ ys))
          (All-select (λ z. le x z ≡ true) q (y ∷ ys) (e, All-le_trans le o x y ys e s.0)),
    )
  ]

  pub select-sort : (q : A → Bool) (xs : List A) → select q (sort le xs) ≡ sort le (select q xs)
  unfolding sort
  select-sort q [] = refl
  select-sort q (x ∷ xs) = elim (Bool-cases (q x)) [
    | inl e ↦ rw e (
        select-insert q x (sort le xs) (sort-IsSorted le o xs)
        ∙ rw e (ap (insert le x) (select-sort q xs)))
    | inr e ↦
        rw e (select-insert q x (sort le xs) (sort-IsSorted le o xs) ∙ rw e (select-sort q xs))
  ]
