-- ===== src/Generator/Main/Speed.antt =====
-- generator/main.py: the speed of the clock, which the reporter corrects every second so that the
-- events sent come near the target. Speeds and ratios are fractions, computed exactly.
use ott_ad_pipeline.Base.{
  ℕ, zero, suc, ◌+◌, ◌*◌, ltb, max, String, str_eq, List, [], ◌∷◌, if◌then◌else◌,
}
use ott_ad_pipeline.Base.Dict.{count}
use ott_ad_pipeline.Generator.Stats.{Stats, snapshot}

-- A numerator and a denominator, which is never 0 here.
abbrev pub Fraction : Type 0
Fraction = ℕ × ℕ

unfoldable pub max_of : Fraction → Fraction → Fraction
max_of (a, b) (c, d) = if ltb (a * d) (c * b) then (c, d) else (a, b)

unfoldable pub min_of : Fraction → Fraction → Fraction
min_of (a, b) (c, d) = if ltb (c * b) (a * d) then (c, d) else (a, b)

-- `target_eps / actual`, held between a half and two.
unfoldable pub ratio : ℕ → ℕ → Fraction
unfolding max_of min_of
ratio target_eps sent = min_of (max_of (target_eps, max sent 1) (1, 2)) (2, 1)

-- `1 + 0.35 * (ratio - 1)`
unfoldable pub correction : Fraction → Fraction
correction (a, b) = (65 * b + 35 * a, 100 * b)

abbrev pub slowest : Fraction
slowest = (1, 20)

abbrev pub fastest : Fraction
fastest = (5000, 1)

-- `min(max(speed * (1 + 0.35 * (ratio - 1)), 0.05), 5000.0)`
unfoldable pub corrected : ℕ → ℕ → Fraction → Fraction
unfolding ratio correction max_of min_of
corrected target_eps sent (a, b) =
    let (c, d) = correction (ratio target_eps sent) in
    min_of (max_of (a * c, b * d) slowest) fastest

-- What the reporter keeps: how often it has reported, and the speed of the clock.
pub record Pace : Type 0 where
  pub tick : ℕ
  pub speed : Fraction

-- One report, for the events that were sent in the second before it. The first two correct nothing.
unfoldable pub report : ℕ → ℕ → Pace → Pace
report target_eps sent p = record {
  tick = p.tick + 1;
  speed = if ltb 2 (p.tick + 1) then corrected target_eps sent p.speed else p.speed;
}

-- A round of `reporter`, which reads the count and then takes the snapshot with its line.
unfoldable pub reporter : ℕ → Pace × Stats → Pace × Stats
unfolding report count snapshot
reporter target_eps (p, s) = (report target_eps (count "sent" s.window) p, (snapshot s).1)

-- The reports of a run, for the events sent in each second.
unfoldable pub reports : ℕ → List ℕ → Pace → Pace
reports target_eps [] p = p
reports target_eps (sent ∷ rest) p = reports target_eps rest (report target_eps sent p)

-- `args.eps or MODE_EPS[args.mode]`
unfoldable pub target_of : ℕ → String → ℕ
target_of zero mode = if str_eq mode "live" then 2000 else 200
target_of (suc eps) mode = suc eps

-- `max(target_eps / max(users * EPS_PER_USER_PER_CONTENT_SEC, 0.01), 0.1)`
unfoldable pub first_speed : ℕ → ℕ → Fraction
unfolding max_of
first_speed target_eps users =
    let (a, b) = max_of (users * 55, 1000) (1, 100) in max_of (target_eps * b, a) (1, 10)
