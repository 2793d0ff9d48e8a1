-- ===== src/Generator/Emitter.antt =====
-- class Emitter of generator/emitter.py. The event loop runs one callback at a time, and between
-- two waits nothing interleaves: so each method is a function on the state, and a run is a list of
-- the loop's callbacks. A task that was spawned stands in `inflight` until the loop finishes it.
-- The HTTP session and the clock are the outcomes that the callbacks carry; the hexadecimal digits
-- that `uuid.uuid4()` gives are arguments.
pub mod Loop
pub mod Stepwise
pub mod Accounting
pub mod Draining
pub mod Injection
pub mod Batches
use ott_ad_pipeline.Base.{
  ℕ, ◌+◌, ◌-◌, String, Bool, true, false, Option, none, some, List, [], ◌∷◌, ◌++◌, length,
  if◌then◌else◌, or_else, str_eq,
}
use ott_ad_pipeline.Base.Dict.{Dict, get, put, pop}
use ott_ad_pipeline.Event.{Value, num, text, flag, Event, get_text}
use ott_ad_pipeline.Generator.Rng.{Rng, advance, chance, uniform, choice}
use ott_ad_pipeline.Generator.Stats.{Stats, bump}

-- The probabilities, by the number of draws below each.
pub record Anomalies : Type 0 where
  pub late : ℕ
  pub dup : ℕ
  pub bad : ℕ
  pub forge : ℕ
  pub ssai : ℕ

-- A task that the loop has not finished: `_post`, `_pixel` and `_delayed`, with its arguments.
pub data Task : Type 0 where
  post : List Event → Task
  pixel : Event → Bool → Task
  delayed : Event → ℕ → Bool → Task

pub record Emitter : Type 0 where
  pub anom : Anomalies
  pub pixel_ratio : ℕ
  pub batch_size : ℕ
  pub stats : Stats
  pub rng : Rng
  pub buf : List Event
  pub pixel_buf : List (Event × Bool)
  pub paused : Bool
  pub closing : Bool
  pub inflight : List Task

abbrev pub required_fields : List String
required_fields = "event_id" ∷ "event_type" ∷ "campaign_id" ∷ "event_time" ∷ []

abbrev pub type_bucket : Dict String
type_bucket =
    ("impression", "t.impression")
    ∷ ("quartile", "t.quartile")
    ∷ ("click", "t.click")
    ∷ ("ad_request", "t.request")
    ∷ ("ad_response", "t.request")
    ∷ []

unfoldable pub pending : Emitter → ℕ
pending e = length e.buf + length e.pixel_buf

unfoldable pub bump_stat : String → ℕ → Emitter → Emitter
bump_stat k n e = record e { stats = bump k n e.stats }

-- The generator has made one call.
unfoldable pub drawn : Emitter → Emitter
drawn e = record e { rng = advance e.rng }

-- `_TYPE_BUCKET.get(ev.get("event_type"), "t.behavior")`
unfoldable pub bucket : Event → String
unfolding get get_text
bucket ev = elim (get_text "event_type" ev) [
  | none ↦ "t.behavior"
  | some et ↦ or_else (get et type_bucket) "t.behavior"
]

unfoldable pub buffer_pixel : Event → Bool → Emitter → Emitter
buffer_pixel ev forge e = record e { pixel_buf = e.pixel_buf ++ (ev, forge) ∷ [] }

-- `_strip` returns its argument.
unfoldable pub buffer_post : Event → Emitter → Emitter
buffer_post ev e = record e { buf = e.buf ++ ev ∷ [] }

-- `_route`. The generator is asked only if the event is not forged and the pixel path is allowed.
unfoldable pub route : Event → Bool → Bool → Emitter → Emitter
unfolding bucket bump_stat buffer_pixel buffer_post drawn chance
route ev allow_pixel forge e =
    let e = bump_stat "sent" 1 (bump_stat (bucket ev) 1 e) in
    if forge
    then buffer_pixel ev true (bump_stat "a.forge" 1 e)
    else if allow_pixel
    then (if chance e.pixel_ratio e.rng
        then buffer_pixel ev false (drawn e)
        else buffer_post ev (drawn e))
    else buffer_post ev e

-- Step 1 of `emit`: a second copy of an impression, on the server path and with an id of its own.
unfoldable pub twin_of : Event → Value → String → Event
unfolding put
twin_of ev id fresh =
    put "ssai_twin_of" id (put "source" (text "server") (put "event_id" (text fresh) ev))

unfoldable pub is_impression : Event → Bool
unfolding get_text
is_impression ev = elim (get_text "event_type" ev) [ none ↦ false | some t ↦ str_eq t "impression" ]

-- `none` is the KeyError of `ev["event_id"]`, which ends `emit`.
unfoldable pub inject_ssai : Event → String → Emitter → Option Emitter
inject_ssai ev fresh e =
    if is_impression ev
    then (if chance e.anom.ssai e.rng
        then elim (get "event_id" ev) [
          | none ↦ none
          | some id ↦
              some (route (twin_of ev id fresh) false false (bump_stat "a.ssai" 1 (drawn e)))
        ]
        else some (drawn e))
    else some e

-- Step 2: an event time 30 to 60 seconds back. `none` is the error of `ev["event_time"]`.
unfoldable pub inject_late : Event → Emitter → Option (Event × Emitter)
inject_late ev e =
    if chance e.anom.late e.rng
    then elim (get "event_time" ev) [
      | some (num t) ↦ some (
        put "_late" (flag true)
            (put "event_time" (num (t - uniform 30000 60000 (advance e.rng))) ev),
        bump_stat "a.late" 1 (drawn (drawn e)),
      )
      | _ ↦ none
    ]
    else some (ev, drawn e)

-- What step 2 leaves where it raises: a missing time is found before the shift is drawn, and one that
-- is no number after it.
unfoldable pub late_raised : Event → Emitter → Emitter
unfolding get
late_raised ev e = elim (get "event_time" ev) [ none ↦ drawn e | some v ↦ drawn (drawn e) ]

-- Step 4: one required field is dropped.
unfoldable pub inject_bad : Event → Emitter → Event × Emitter
inject_bad ev e =
    if chance e.anom.bad e.rng
    then (let victim = choice required_fields "" (advance e.rng) in
        (put "_bad" (text victim) (pop victim ev), bump_stat "a.bad" 1 (drawn (drawn e))))
    else (ev, drawn e)

-- Step 5: a copy that is sent again 0.5 to 3 seconds later, by a task.
unfoldable pub inject_dup : Event → Bool → Emitter → Emitter
inject_dup ev allow_pixel e =
    if chance e.anom.dup e.rng
    then (let copy = put "_dup" (flag true) ev in
        let delay = uniform 500 3000 (advance e.rng) in
        let e = bump_stat "a.dup" 1 (drawn (drawn e)) in
        record e { inflight = e.inflight ++ delayed copy delay allow_pixel ∷ [] })
    else drawn e

-- Steps 3 to 5, after the event time is settled.
unfoldable pub emit_rest : Event → Bool → Emitter → Emitter
emit_rest ev allow_pixel e =
    let forge = chance e.anom.forge e.rng in
    let (ev, e) = inject_bad ev (drawn e) in
    inject_dup ev allow_pixel (route ev allow_pixel forge e)

-- `emit`: where it raises, the state is what it had done by then. At `ev["event_time"]` the
-- generator has made the first of two calls: Python reads the left operand first.
unfoldable pub emit : Event → Bool → String → Emitter → Emitter
emit ev allow_pixel fresh e = elim (inject_ssai ev fresh e) [
  | none ↦ drawn e
  | some e ↦ elim (inject_late ev e) [
    | none ↦ late_raised ev e
    | some (ev, e) ↦ emit_rest ev allow_pixel e
  ]
]
