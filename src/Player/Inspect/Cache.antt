-- ===== src/Player/Inspect/Cache.antt =====
-- How often the archive is read for player/app.py, whose pages ask again every few seconds.
use ott_ad_pipeline.Base.{
  ℕ, ◌+◌, ◌-◌, ◌≤◌, ◌≡◌, refl, ap, ◌∙◌, sym, arith, subst, ltb, String, eq_iff, Bool, true, false,
  Option, some, List, [], ◌∷◌, if◌then◌else◌, Bool-cases, Option-cases, inl, inr, ◌⊎◌,
}
use mathlib.Core.Option.{none-ne-some, some-injective}
use ott_ad_pipeline.Base.Dict.{get, put, get-put}
use ott_ad_pipeline.Player.Inspect.{Cached, through_cache}

-- A request: when it asks, when it would have read the archive, and what is there.
abbrev pub Ask : Type 0 → Type 0
Ask A = ℕ × (ℕ × Option A)

-- The readings of the archive about one key: when each was asked for and when it was done.
unfoldable pub read_times : {A : Type 0} → String → List (Ask A) → Cached A → List (ℕ × ℕ)
unfolding through_cache
read_times key [] cache = []
read_times key ((now, (done, fresh)) ∷ asks) cache =
    let ((was_read, found), next) = through_cache key now done fresh cache in
    let rest = read_times key asks next in if was_read then (now, done) ∷ rest else rest

-- Each is asked for at least five seconds after the one before it was done.
abbrev pub SpacedFrom : ℕ → List (ℕ × ℕ) → Type 0
SpacedFrom at [] = Unit
SpacedFrom at ((now, done) ∷ ts) = (at + 5000 ≤ now) × SpacedFrom done ts

abbrev pub Spaced : List (ℕ × ℕ) → Type 0
Spaced [] = Unit
Spaced ((now, done) ∷ ts) = SpacedFrom done ts

module _ {A : Type 0} (key : String) where
  get-put_same : (v : ℕ × Option A) (cache : Cached A) → get key (put key v cache) ≡ some v
  get-put_same v cache =
      get-put key key v cache
      ∙ ap (λ b. if b then some v else get key cache) ((eq_iff key key).1 refl)

  -- One request: the kept answer is given again, or the archive is read.
  abbrev StepCases : (now done : ℕ) → Option A → Cached A → Type 0
  StepCases now done fresh cache =
      (((at : ℕ) × (found : Option A) × (get key cache ≡ some (at, found))
          × (through_cache key now done fresh cache ≡ ((false, found), cache)))
        ⊎ ((through_cache key now done fresh cache ≡ ((true, fresh), put key (done, fresh) cache))
            × (((at : ℕ) (found : Option A) → get key cache ≡ some (at, found) → at + 5000 ≤ now))))

  through_cache_cases :
      (now done : ℕ) (fresh : Option A) (cache : Cached A) → StepCases now done fresh cache
  unfolding through_cache
  through_cache_cases now done fresh cache = elim (Option-cases (get key cache)) [
    | inl e ↦ inr (rw (e, through_cache), λ at found h. absurd (none-ne-some _ (sym e ∙ h)))
    | inr ((at, found), e) ↦ elim (Bool-cases (ltb (now - at) 5000)) [
      | inl b ↦ inl (at, found, e, rw (e, through_cache) (rw (b, through_cache)))
      | inr b ↦ inr (
        rw (e, through_cache) (rw (b, through_cache)),
        λ at' found' h.
            subst (λ n. n + 5000 ≤ now)
              (ap (λ p. p.0) (some-injective (at, found) (at', found') (sym e ∙ h)))
              (ground (arith, b)),
      )
    ]
  ]

  -- The readings from a request on, by what it did.
  abbrev continued : (now done : ℕ) → List (Ask A) → (Bool × Option A) × Cached A → List (ℕ × ℕ)
  continued now done asks r =
      let rest = read_times key asks r.1 in if r.0.0 then (now, done) ∷ rest else rest

  read_times-SpacedFrom :
      (asks : List (Ask A)) (cache : Cached A) (at : ℕ) (found : Option A)
      → get key cache ≡ some (at, found)
      → SpacedFrom at (read_times key asks cache)
  unfolding read_times
  read_times-SpacedFrom [] cache at found h = tt
  read_times-SpacedFrom ((now, (done, fresh)) ∷ asks) cache at found h =
      elim (through_cache_cases now done fresh cache) [
        | inl (at', found', g, e) ↦
            subst (λ r. SpacedFrom at (continued now done asks r)) (sym e)
              (read_times-SpacedFrom asks cache at found h)
        | inr (e, late) ↦
            subst (λ r. SpacedFrom at (continued now done asks r)) (sym e)
              (
                late at found h,
                read_times-SpacedFrom asks (put key (done, fresh) cache) done fresh
                    (get-put_same (done, fresh) cache),
              )
      ]

  -- If no two requests about an advertisement overlap, at whatever times they ask and however long
  -- they read, and whatever the cache holds of it at first: a reading of the archive for it begins at
  -- least five seconds after the one before it was done.
  pub read_times-Spaced :
      (asks : List (Ask A)) (cache : Cached A) → Spaced (read_times key asks cache)
  unfolding read_times
  read_times-Spaced [] cache = tt
  read_times-Spaced ((now, (done, fresh)) ∷ asks) cache =
      elim (through_cache_cases now done fresh cache) [
        | inl (at, found, g, e) ↦
            subst (λ r. Spaced (continued now done asks r)) (sym e) (read_times-Spaced asks cache)
        | inr (e, late) ↦
            subst (λ r. Spaced (continued now done asks r)) (sym e)
              (read_times-SpacedFrom asks (put key (done, fresh) cache) done fresh
                (get-put_same (done, fresh) cache))
      ]
