-- ===== src/Generator/Emitter/Stepwise.antt =====
-- How each method of the emitter moves the counts: one lemma for each, with the method shut.
use ott_ad_pipeline.Base.{
  ℕ, suc, ◌+◌, ◌<◌, ◌≡◌, ◌∙◌, refl, ◌⊎◌, inl, inr, Bool-cases, String, str_eq, Bool, true, false,
  arith, if◌then◌else◌, List, [], ◌∷◌, length, length-append,
}
use ott_ad_pipeline.Base.Dict.{count}
use ott_ad_pipeline.Event.{Event}
use ott_ad_pipeline.Generator.Rng.{chance}
use ott_ad_pipeline.Generator.Stats.Laws.{total-bump}
use ott_ad_pipeline.Generator.Emitter.{
  Emitter, Task, post, pixel, delayed, bump_stat, bucket, buffer_pixel, buffer_post, drawn, route,
}

-- A total of the statistics.
abbrev pub tally : String → Emitter → ℕ
tally k e = count k e.stats.total

pub tally-bump_stat :
    (j k : String) (n : ℕ) (e : Emitter)
    → tally j (bump_stat k n e) ≡ (if str_eq k j then tally j e + n else tally j e)
unfolding bump_stat
tally-bump_stat j k n e = total-bump j k n e.stats

-- Events that wait in a task for an answer.
abbrev pub waiting : List Task → ℕ
waiting [] = 0
waiting (post batch ∷ ts) = length batch + waiting ts
waiting (pixel ev forge ∷ ts) = suc (waiting ts)
waiting (delayed ev delay allow ∷ ts) = waiting ts

-- Events that were counted as sent and have no answer yet, and those that have one.
abbrev pub unanswered : Emitter → ℕ
unanswered e = length e.buf + length e.pixel_buf + waiting e.inflight

abbrev pub answers : Emitter → ℕ
answers e = tally "http.2xx" e + tally "http.err" e

-- The bucket of an event is one of the five that the reporter prints.
pub bucket_cases :
    (ev : Event)
    → (bucket ev ≡ "t.impression")
      ⊎ (bucket ev ≡ "t.quartile")
      ⊎ (bucket ev ≡ "t.click")
      ⊎ (bucket ev ≡ "t.request")
      ⊎ (bucket ev ≡ "t.behavior")
unfolding bucket
bucket_cases ev = ground arith

pub bucket_keys :
    (ev : Event)
    → (str_eq (bucket ev) "sent" ≡ false)
      × (str_eq (bucket ev) "http.2xx" ≡ false)
      × (str_eq (bucket ev) "http.err" ≡ false)
bucket_keys ev = elim (bucket_cases ev) [
  | inl e ↦ rw e (refl, refl, refl)
  | inr (inl e) ↦ rw e (refl, refl, refl)
  | inr (inr (inl e)) ↦ rw e (refl, refl, refl)
  | inr (inr (inr (inl e))) ↦ rw e (refl, refl, refl)
  | inr (inr (inr (inr e))) ↦ rw e (refl, refl, refl)
]

-- The account of an emitter: of the events that were counted as sent, `n` are not in a buffer, not
-- in a task and not answered. Between two callbacks `n` is 0. The size of the batches is positive.
pub record Owes (n : ℕ) (e : Emitter) : Type 0 where
  pub owed : tally "sent" e ≡ unanswered e + answers e + n
  pub sized : 0 < e.batch_size

tally-bump_other :
    (j k : String) (n : ℕ) (e : Emitter)
    → str_eq k j ≡ false
    → tally j (bump_stat k n e) ≡ tally j e
tally-bump_other j k n e h = tally-bump_stat j k n e ∙ rw h

unanswered-bump_stat :
    (k : String) (n : ℕ) (e : Emitter) → unanswered (bump_stat k n e) ≡ unanswered e
unfolding bump_stat
unanswered-bump_stat k n e = refl

batch_size-bump_stat :
    (k : String) (n : ℕ) (e : Emitter) → (bump_stat k n e).batch_size ≡ e.batch_size
unfolding bump_stat
batch_size-bump_stat k n e = refl

-- A key that the account does not read.
abbrev pub IsPlain : String → Type 0
IsPlain k =
    (str_eq k "sent" ≡ false) × (str_eq k "http.2xx" ≡ false) × (str_eq k "http.err" ≡ false)

pub bump_plain :
    {m : ℕ} {e : Emitter} (k : String) (n : ℕ) → IsPlain k → Owes m e → Owes m (bump_stat k n e)
bump_plain {m} {e} k n (a, b, c) h = omega (
  arith,
  tally-bump_other "sent" k n e a,
  tally-bump_other "http.2xx" k n e b,
  tally-bump_other "http.err" k n e c,
  unanswered-bump_stat k n e,
  batch_size-bump_stat k n e,
)

pub bump_sent : {m : ℕ} {e : Emitter} → Owes m e → Owes (suc m) (bump_stat "sent" 1 e)
bump_sent {m} {e} h = omega (
  arith,
  tally-bump_stat "sent" "sent" 1 e,
  tally-bump_stat "http.2xx" "sent" 1 e,
  tally-bump_stat "http.err" "sent" 1 e,
  unanswered-bump_stat "sent" 1 e,
  batch_size-bump_stat "sent" 1 e,
)

-- An answer settles what it answers.
pub bump_answer :
    {e : Emitter} (n : ℕ) (good : Bool)
    → Owes n e
    → Owes 0 (bump_stat (if good then "http.2xx" else "http.err") n e)
bump_answer {e} n true h = omega (
  arith,
  tally-bump_stat "sent" "http.2xx" n e,
  tally-bump_stat "http.2xx" "http.2xx" n e,
  tally-bump_stat "http.err" "http.2xx" n e,
  unanswered-bump_stat "http.2xx" n e,
  batch_size-bump_stat "http.2xx" n e,
)
bump_answer {e} n false h = omega (
  arith,
  tally-bump_stat "sent" "http.err" n e,
  tally-bump_stat "http.2xx" "http.err" n e,
  tally-bump_stat "http.err" "http.err" n e,
  unanswered-bump_stat "http.err" n e,
  batch_size-bump_stat "http.err" n e,
)

pub drawn-Owes : {m : ℕ} {e : Emitter} → Owes m e → Owes m (drawn e)
unfolding drawn
drawn-Owes h = record { owed = h.owed; sized = h.sized }

pub buffer_post-Owes :
    {m : ℕ} {e : Emitter} (ev : Event) → Owes (suc m) e → Owes m (buffer_post ev e)
unfolding buffer_post
buffer_post-Owes {m} {e} ev h = omega (arith, length-append e.buf (ev ∷ []))

pub buffer_pixel-Owes :
    {m : ℕ} {e : Emitter} (ev : Event) (forge : Bool)
    → Owes (suc m) e
    → Owes m (buffer_pixel ev forge e)
unfolding buffer_pixel
buffer_pixel-Owes {m} {e} ev forge h = omega (arith, length-append e.pixel_buf ((ev, forge) ∷ []))

-- The two bumps that `route` begins with.
abbrev counted : Event → Emitter → Emitter
counted ev e = bump_stat "sent" 1 (bump_stat (bucket ev) 1 e)

counted-Owes : {m : ℕ} {e : Emitter} (ev : Event) → Owes m e → Owes (suc m) (counted ev e)
counted-Owes ev h = bump_sent (bump_plain (bucket ev) 1 (bucket_keys ev) h)

-- An event that is routed is counted as sent and stands in one of the two buffers.
pub route-Owes :
    {m : ℕ} {e : Emitter} (ev : Event) (allow forge : Bool)
    → Owes m e
    → Owes m (route ev allow forge e)
unfolding route
route-Owes ev allow true h =
    buffer_pixel-Owes ev true (bump_plain "a.forge" 1 (refl, refl, refl) (counted-Owes ev h))
route-Owes ev false false h = buffer_post-Owes ev (counted-Owes ev h)
route-Owes {e = e} ev true false h =
    let c = counted ev e in
    elim (Bool-cases (chance c.pixel_ratio c.rng)) [
      | inl p ↦ rw p (buffer_pixel-Owes ev false (drawn-Owes (counted-Owes ev h)))
      | inr p ↦ rw p (buffer_post-Owes ev (drawn-Owes (counted-Owes ev h)))
    ]
