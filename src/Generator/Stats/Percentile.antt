-- ===== src/Generator/Stats/Percentile.antt =====
-- The percentile of generator/stats.py, `_pct`, against the samples that it is taken of.
use ott_ad_pipeline.Base.{
  ℕ, zero, suc, ◌+◌, ◌-◌, ◌*◌, ◌/◌, ◌≤◌, ◌<◌, ◌≡◌, refl, subst, ap, sym, ◌∙◌, min, Bool, true, leb,
  List, [], ◌∷◌, length, get_or, All, arith, if◌then◌else◌, Bool-cases, inl, inr,
}
use ott_ad_pipeline.Base.Sort.{insert, sort, IsSorted, length-sort, sort-IsSorted, leb-IsOrder}
use native.Mathlib.Nat.{mul-add, mul-le-mul_left}
use ott_ad_pipeline.Generator.Stats.{max_samples, pct_of}

-- How many of the samples pass a test.
abbrev pub number : (ℕ → Bool) → List ℕ → ℕ
number f [] = 0
number f (x ∷ xs) = let rest = number f xs in if f x then suc rest else rest

number-insert :
    (f : ℕ → Bool) (x : ℕ) (ys : List ℕ) → number f (insert leb x ys) ≡ number f (x ∷ ys)
unfolding insert
number-insert f x [] = refl
number-insert f x (y ∷ ys) = elim (Bool-cases (leb x y)) [
  | inl e ↦ rw e refl
  | inr e ↦ rw e (ground (arith, number-insert f x ys))
]

number-sort : (f : ℕ → Bool) (xs : List ℕ) → number f (sort leb xs) ≡ number f xs
unfolding sort
number-sort f [] = refl
number-sort f (x ∷ xs) = ground (arith, number-insert f x (sort leb xs), number-sort f xs)

All-get_or : (P : ℕ → Type 0) (xs : List ℕ) (i : ℕ) → All P xs → i < length xs → P (get_or xs i 0)
All-get_or P [] i h k = absurd (omega arith)
All-get_or P (x ∷ xs) zero h k = h.0
All-get_or P (x ∷ xs) (suc i) h k = All-get_or P xs i h.1 (omega arith)

number-All : (f : ℕ → Bool) (xs : List ℕ) → All (λ y. f y ≡ true) xs → number f xs ≡ length xs
number-All f [] h = refl
number-All f (x ∷ xs) h = rw h.0 (ap suc (number-All f xs h.1))

number_up_to :
    (s : List ℕ) (i : ℕ)
    → IsSorted leb s
    → i < length s
    → i + 1 ≤ number (λ y. leb y (get_or s i 0)) s
number_up_to [] i h k = omega arith
number_up_to (x ∷ xs) zero h k = ground arith
number_up_to (x ∷ xs) (suc i) h k =
    let below : leb x (get_or xs i 0) ≡ true =
      All-get_or (λ y. leb x y ≡ true) xs i h.0 (omega arith) in
    let rest : i + 1 ≤ number (λ y. leb y (get_or xs i 0)) xs =
      number_up_to xs i h.1 (omega arith) in
    rw below (omega arith)

number_from :
    (s : List ℕ) (i : ℕ)
    → IsSorted leb s
    → i < length s
    → length s ≤ i + number (λ y. leb (get_or s i 0) y) s
number_from [] i h k = omega arith
number_from (x ∷ xs) zero h k =
    let all : number (leb x) xs ≡ length xs = number-All (leb x) xs h.0 in ground arith
number_from (x ∷ xs) (suc i) h k =
    let rest : length xs ≤ i + number (λ y. leb (get_or xs i 0) y) xs =
      number_from xs i h.1 (omega arith) in
    ground arith

-- The sample at place i of the sorted samples: i + 1 are at most it, and all but i not below it.
ranks :
    (xs : List ℕ) (i : ℕ)
    → i < length xs
    → (i + 1 ≤ number (λ y. leb y (get_or (sort leb xs) i 0)) xs)
      × (length xs ≤ i + number (leb (get_or (sort leb xs) i 0)) xs)
ranks xs i h =
    let s = sort leb xs in
    let sorted = sort-IsSorted leb leb-IsOrder xs in
    let k : i < length s = subst (λ n. i < n) (sym (length-sort leb xs)) h in
    (
      subst (λ n. i + 1 ≤ n) (number-sort (λ y. leb y (get_or s i 0)) xs)
          (number_up_to s i sorted k),
      rw (sym (length-sort leb xs), sym (number-sort (leb (get_or s i 0)) xs))
          (number_from s i sorted k),
    )

place :
    (n p : ℕ)
    → 0 < n
    → p < 100
    → let i = min (n - 1) (n * p / 100) in (i < n) × (n * p < 100 * (i + 1)) × (100 * i ≤ n * p)
place n p h k = let below : n * p ≤ n * 99 = mul-le-mul_left n (omega arith) in omega arith

spread :
    (n p i up from : ℕ)
    → p < 100
    → n * p < 100 * (i + 1)
    → 100 * i ≤ n * p
    → i + 1 ≤ up
    → n ≤ i + from
    → (n * p < 100 * up) × (n * (100 - p) ≤ 100 * from)
spread n p i up from h a b c d =
    let e : n * (100 - p) + n * p ≡ n * 100 =
      sym (mul-add n (100 - p) p) ∙ ap (λ k. n * k) (omega arith) in
    omega arith

pct_of-sort :
    (x : ℕ) (xs : List ℕ)
    → let n = length (x ∷ xs) in
      pct_of (x ∷ xs) ≡ get_or (sort leb (x ∷ xs)) (min (n - 1) (n * 95 / 100)) 0
unfolding pct_of
pct_of-sort x xs =
    ap (λ n. get_or (sort leb (x ∷ xs)) (min (n - 1) (n * 95 / 100)) 0) (length-sort leb (x ∷ xs))

-- For any response times, as many as a deque of them has at most: more than 95 hundredths of them
-- are at most the percentile, and at least 5 hundredths are not below it.
pub pct_of_lem :
    (x : ℕ) (xs : List ℕ)
    → length (x ∷ xs) ≤ max_samples
    → (length (x ∷ xs) * 95 < 100 * number (λ y. leb y (pct_of (x ∷ xs))) (x ∷ xs))
      × (length (x ∷ xs) * 5 ≤ 100 * number (leb (pct_of (x ∷ xs))) (x ∷ xs))
pct_of_lem x xs few =
    let n = length (x ∷ xs) in
    let i = min (n - 1) (n * 95 / 100) in
    let at = place n 95 (omega arith) (omega arith) in
    let r = ranks (x ∷ xs) i at.0 in
    let up = number (λ y. leb y (get_or (sort leb (x ∷ xs)) i 0)) (x ∷ xs) in
    let from = number (leb (get_or (sort leb (x ∷ xs)) i 0)) (x ∷ xs) in
    subst
      (λ v.
        (n * 95 < 100 * number (λ y. leb y v) (x ∷ xs)) × (n * 5 ≤ 100 * number (leb v) (x ∷ xs)))
      (sym (pct_of-sort x xs)) (spread n 95 i up from (omega arith) at.1 at.2 r.0 r.1)
