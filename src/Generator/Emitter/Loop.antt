-- ===== src/Generator/Emitter/Loop.antt =====
-- class Emitter of generator/emitter.py: the flush of the buffers, the tasks, and runs of the loop.
use ott_ad_pipeline.Base.{
  ℕ, zero, suc, Bool, true, false, not, ◌&&◌, leb, ltb, ◌==◌, List, [], ◌∷◌, ◌++◌, length, map,
  take, drop, get_elem?, remove_at, Option, none, some, if◌then◌else◌, String,
}
use ott_ad_pipeline.Event.{Event}
use ott_ad_pipeline.Generator.Stats.{latency}
use ott_ad_pipeline.Generator.Emitter.{Emitter, Task, post, pixel, delayed, bump_stat, route, emit}

unfoldable pub pause : Emitter → Emitter
pause e = record e { paused = true }

unfoldable pub resume : Emitter → Emitter
resume e = record e { paused = false }

-- `[batch[i:i + size] for i in range(0, len(batch), size)]`: one piece for each unit of fuel, which
-- is the length of the batch.
unfoldable pub batches : ℕ → ℕ → List Event → List (List Event)
batches zero size xs = []
batches (suc fuel) size [] = []
batches (suc fuel) size (x ∷ xs) = take size (x ∷ xs) ∷ batches fuel size (drop size (x ∷ xs))

unfoldable pub spawn : List Task → Emitter → Emitter
spawn tasks e = record e { inflight = e.inflight ++ tasks }

-- The buffer is taken, and its pieces are posted. `range` raises at a step of 0, by then too late.
unfoldable pub post_all : List Event → Emitter → Option Emitter
post_all [] e = some e
post_all (x ∷ xs) e =
    if e.batch_size == 0
    then none
    else some
        (spawn (map post (batches (length (x ∷ xs)) e.batch_size (x ∷ xs))) (record e { buf = [] }))

unfoldable pub flush_pixels : Emitter → Emitter
flush_pixels e =
    spawn (map (λ (p : Event × Bool). pixel p.0 p.1) e.pixel_buf) (record e { pixel_buf = [] })

unfoldable pub flush : Bool → Emitter → Emitter
flush force e =
    if e.paused && not force
    then e
    else elim (post_all e.buf e) [ none ↦ record e { buf = [] } | some e ↦ flush_pixels e ]

-- How a task ends: the collector answered, with a status and after a time; the call raised; a
-- delay is over; the task was cancelled.
pub data Outcome : Type 0 where
  answered : (status ms : ℕ) → Outcome
  failed : Outcome
  woken : Outcome
  cancelled : Outcome

unfoldable pub is_2xx : ℕ → Bool
is_2xx status = leb 200 status && ltb status 300

unfoldable pub time_response : ℕ → Emitter → Emitter
time_response ms e = record e { stats = latency ms e.stats }

-- `_post` from its answer on. A cancellation is no `Exception`, so nothing is counted.
unfoldable pub end_post : List Event → Outcome → Emitter → Emitter
end_post batch (answered status ms) e =
    let e = bump_stat "sent.post" (length batch) (time_response ms e) in
    bump_stat (if is_2xx status then "http.2xx" else "http.err") (length batch) e
end_post batch failed e = bump_stat "http.err" (length batch) e
end_post batch _ e = e

-- `_pixel` from its answer on.
unfoldable pub end_pixel : Outcome → Emitter → Emitter
end_pixel (answered status ms) e =
    let e = bump_stat "sent.pixel" 1 (time_response ms e) in
    bump_stat (if is_2xx status then "http.2xx" else "http.err") 1 e
end_pixel failed e = bump_stat "http.err" 1 e
end_pixel _ e = e

-- `_delayed` after its sleep.
unfoldable pub end_delayed : Event → Bool → Outcome → Emitter → Emitter
end_delayed ev allow_pixel woken e = if e.closing then e else route ev allow_pixel false e
end_delayed ev allow_pixel _ e = e

unfoldable pub end_task : Task → Outcome → Emitter → Emitter
end_task (post batch) o e = end_post batch o e
end_task (pixel ev forge) o e = end_pixel o e
end_task (delayed ev delay allow_pixel) o e = end_delayed ev allow_pixel o e

-- The ends that a task can have: a request is never woken, and a sleep is never answered.
abbrev pub fits : Task → Outcome → Bool
fits (post batch) woken = false
fits (pixel ev forge) woken = false
fits (delayed ev delay allow_pixel) (answered status ms) = false
fits (delayed ev delay allow_pixel) failed = false
fits _ _ = true

-- The loop finishes the i-th task, whose done callback discards it.
unfoldable pub finish : ℕ → Outcome → Emitter → Emitter
finish i o e = elim (get_elem? e.inflight i) [
  | none ↦ e
  | some t ↦ if fits t o then end_task t o (record e { inflight = remove_at i e.inflight }) else e
]

-- `close` up to its `gather`, which waits until `inflight` is empty.
unfoldable pub close : Emitter → Emitter
close e = flush true (resume (record e { closing = true }))

-- What the loop runs next: a viewer's `emit`, a round of `flush_loop`, the burst cycle, the end of
-- a task, or the end of the program.
pub data Action : Type 0 where
  emitting : Event → Bool → String → Action
  flushing : Action
  pausing : Action
  resuming : Action
  finishing : ℕ → Outcome → Action
  closes : Action

unfoldable pub step : Action → Emitter → Emitter
step (emitting ev allow_pixel fresh) e = emit ev allow_pixel fresh e
step flushing e = flush false e
step pausing e = pause e
step resuming e = resume e
step (finishing i o) e = finish i o e
step closes e = close e

unfoldable pub run : List Action → Emitter → Emitter
run [] e = e
run (a ∷ rest) e = run rest (step a e)
