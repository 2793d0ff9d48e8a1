-- ===== src/Generator/Main/Pacing.antt =====
-- That the reporter of generator/main.py holds the clock's speed in its range and corrects it in the
-- right direction.
use ott_ad_pipeline.Base.{
  ℕ, ◌+◌, ◌*◌, ◌≤◌, subst, sym, arith, ltb, lt→ltb, Bool, true, false, List, [], ◌∷◌, if◌then◌else◌,
  Bool-cases, inl, inr,
}
use native.Mathlib.Nat.{mul-le-mul, mul_right_comm, mul_assoc}
use ott_ad_pipeline.Generator.Main.Speed.{
  Fraction, max_of, min_of, ratio, correction, slowest, fastest, corrected, Pace, report, reports,
}

abbrev pub AtMost : Fraction → Fraction → Type 0
AtMost (a, b) (c, d) = a * d ≤ c * b

abbrev pub InRange : Fraction → Type 0
InRange s = AtMost slowest s × AtMost s fastest

clamped : (s : Fraction) → InRange (min_of (max_of s slowest) fastest)
unfolding max_of min_of
clamped (a, b) = ground arith

corrected-InRange : (target_eps sent : ℕ) (s : Fraction) → InRange (corrected target_eps sent s)
unfolding corrected
corrected-InRange target_eps sent (a, b) =
    let (c, d) = correction (ratio target_eps sent) in clamped (a * c, b * d)

-- The ratio is at least one if no more was sent than the target, and at most one if no less was.
ratio-up : (t n : ℕ) → n ≤ t → 1 ≤ t → (ratio t n).1 ≤ (ratio t n).0
unfolding ratio max_of min_of
ratio-up t n h k = ground arith

ratio-down : (t n : ℕ) → t ≤ n → (ratio t n).0 ≤ (ratio t n).1
unfolding ratio max_of min_of
ratio-down t n h = ground arith

-- A fraction between another and the ends of the range stays there when it is clamped.
clamped-above :
    (s p : Fraction)
    → AtMost s p
    → AtMost slowest p
    → AtMost s fastest
    → AtMost s (min_of (max_of p slowest) fastest)
unfolding max_of min_of
clamped-above (a, b) (x, y) h lo hi = ground arith

clamped-below :
    (s p : Fraction)
    → AtMost p s
    → AtMost p fastest
    → AtMost slowest s
    → AtMost (min_of (max_of p slowest) fastest) s
unfolding max_of min_of
clamped-below (a, b) (x, y) h hi lo = ground arith

-- Products in the two orders that a fraction times a factor has.
grown : (b d c k x y : ℕ) → b * d ≤ c * k → x ≤ y → b * (d * x) ≤ (c * y) * k
grown b d c k x y h e =
    subst (λ n. n ≤ (c * y) * k) (mul_assoc b d x)
      (subst (λ n. (b * d) * x ≤ n) (mul_right_comm c k y) (mul-le-mul h e))

shrunk : (b d c k x y : ℕ) → c * k ≤ b * d → x ≤ y → (c * x) * k ≤ b * (d * y)
shrunk b d c k x y h e =
    subst (λ n. (c * x) * k ≤ n) (mul_assoc b d y)
      (subst (λ n. n ≤ (b * d) * y) (mul_right_comm c k x) (mul-le-mul h e))

corrected-up : (t n : ℕ) (s : Fraction) → n ≤ t → 1 ≤ t → InRange s → AtMost s (corrected t n s)
unfolding corrected correction
corrected-up t n (a, b) h k (lo, hi) =
    let up = ratio-up t n h k in
    let f = correction (ratio t n) in
    let e : f.1 ≤ f.0 = omega (arith, up) in
    clamped-above (a, b) (a * f.0, b * f.1) (grown a b a b f.1 f.0 (omega arith) e)
      (grown 1 b a 20 f.1 f.0 lo e) hi

corrected-down : (t n : ℕ) (s : Fraction) → t ≤ n → InRange s → AtMost (corrected t n s) s
unfolding corrected correction
corrected-down t n (a, b) h (lo, hi) =
    let down = ratio-down t n h in
    let f = correction (ratio t n) in
    let e : f.0 ≤ f.1 = omega (arith, down) in
    clamped-below (a, b) (a * f.0, b * f.1) (shrunk a b a b f.0 f.1 (omega arith) e)
      (shrunk 5000 b a 1 f.0 f.1 hi e) lo

-- If no more was sent in a second than the target, which is at least one, then the report does not
-- lower a speed in the range.
pub report-up :
    (t n : ℕ) (p : Pace) → n ≤ t → 1 ≤ t → InRange p.speed → AtMost p.speed (report t n p).speed
unfolding report
report-up t n p h k r = elim (Bool-cases (ltb 2 (p.tick + 1))) [
  | inl e ↦ rw e (corrected-up t n p.speed h k r)
  | inr e ↦ rw e (omega arith)
]

-- If no less was sent in a second than the target, then the report does not raise a speed in the
-- range.
pub report-down :
    (t n : ℕ) (p : Pace) → t ≤ n → InRange p.speed → AtMost (report t n p).speed p.speed
unfolding report
report-down t n p h r = elim (Bool-cases (ltb 2 (p.tick + 1))) [
  | inl e ↦ rw e (corrected-down t n p.speed h r)
  | inr e ↦ rw e (omega arith)
]

reports_keep :
    (t : ℕ) (sents : List ℕ) (p : Pace) → InRange p.speed → InRange (reports t sents p).speed
unfolding reports report
reports_keep t [] p r = r
reports_keep t (n ∷ rest) p r = reports_keep t rest _ (go (ltb 2 (p.tick + 1)))
  where
    go : (b : Bool) → InRange (if b then corrected t n p.speed else p.speed)
    go true = corrected-InRange t n p.speed
    go false = r

-- Whatever the speed was and whatever was sent, from the third report on the speed is between 0.05
-- and 5000.
pub reports-InRange :
    (t n : ℕ) (rest : List ℕ) (p : Pace) → 2 ≤ p.tick → InRange (reports t (n ∷ rest) p).speed
unfolding reports report
reports-InRange t n rest p h = reports_keep t rest _ (
    subst (λ b. InRange (if b then corrected t n p.speed else p.speed))
      (sym (lt→ltb 2 (p.tick + 1) (omega (arith, h)))) (corrected-InRange t n p.speed))
