-- ===== src/Base/Members.antt =====
-- The members of a list that pass a test, and how many they are.
use mathlib.Core.List.{Memᴰ}
use mathlib.Core.List.Memᴰ.{head, tail, cases_cons}
use ott_ad_pipeline.Base.{
  ◌≤◌, ◌≡◌, refl, sym, ap, subst, ◌∙◌, Bool, true, false, List, [], ◌∷◌, length, select, any, ◌||◌,
  if◌then◌else◌, Bool-cases, inl, inr, arith,
}

pub select_mem :
    {A : Type 0} (p : A → Bool) (y : A) (ys : List A)
    → Memᴰ y (select p ys)
    → Memᴰ y ys × (p y ≡ true)
select_mem p y [] m = absurd (elim m [ ])
select_mem p y (x ∷ xs) m = elim (Bool-cases (p x)) [
  | inl e ↦
      elim (cases_cons (subst (λ b. Memᴰ y (if b then x ∷ select p xs else select p xs)) e m)) [
        | inl q ↦ (head q, ap p q ∙ e)
        | inr rest ↦ let (n, h) = select_mem p y xs rest in (tail n, h)
      ]
  | inr e ↦
      let (n, h) =
        select_mem p y xs (subst (λ b. Memᴰ y (if b then x ∷ select p xs else select p xs)) e m) in
      (tail n, h)
]

pub mem_select :
    {A : Type 0} (p : A → Bool) (y : A) (ys : List A)
    → Memᴰ y ys
    → p y ≡ true
    → Memᴰ y (select p ys)
mem_select p y [] m h = absurd (elim m [ ])
mem_select p y (x ∷ xs) m h = elim (cases_cons m) [
  | inl q ↦ rw (sym (ap p q) ∙ h) (head q)
  | inr rest ↦ go (p x) (mem_select p y xs rest h)
]
  where
    go : (b : Bool) → Memᴰ y (select p xs) → Memᴰ y (if b then x ∷ select p xs else select p xs)
    go true n = tail n
    go false n = n

-- A list with a member is not empty.
pub length_pos : {A : Type 0} (y : A) (ys : List A) → Memᴰ y ys → 1 ≤ length ys
length_pos y [] m = absurd (elim m [ ])
length_pos y (x ∷ xs) m = omega arith

pub some_member : {A : Type 0} (ys : List A) → 1 ≤ length ys → (y : A) × Memᴰ y ys
some_member [] h = absurd (omega arith)
some_member (x ∷ xs) h = (x, head refl)

pub any_mem :
    {A : Type 0} (p : A → Bool) (ys : List A) → any p ys ≡ true → (y : A) × Memᴰ y ys × (p y ≡ true)
any_mem p [] h = absurd (cc h)
any_mem p (x ∷ xs) h = elim (Bool-cases (p x)) [
  | inl e ↦ (x, head refl, e)
  | inr e ↦ let (y, m, q) = any_mem p xs (sym (rw e refl) ∙ h) in (y, tail m, q)
]

pub mem_any :
    {A : Type 0} (p : A → Bool) (y : A) (ys : List A) → Memᴰ y ys → p y ≡ true → any p ys ≡ true
mem_any p y [] m h = absurd (elim m [ ])
mem_any p y (x ∷ xs) m h = elim (cases_cons m) [
  | inl e ↦ rw (sym (ap p e) ∙ h) refl
  | inr rest ↦ rw (mem_any p y xs rest h) (or_true (p x))
]
  where
    or_true : (b : Bool) → (b || true) ≡ true
    or_true true = refl
    or_true false = refl
