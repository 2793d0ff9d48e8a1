-- ===== src/Generator/Tests.antt =====
-- The load generator on small inputs.
mod Runs
mod Whole
use ott_ad_pipeline.Base.{
  ℕ, ◌+◌, ◌-◌, ◌*◌, leb, ◌≤◌, ◌<◌, ◌≡◌, refl, sym, length, String, str_eq, true, false, none, some,
  List, [], ◌∷◌, ◌++◌, All, arith, if◌then◌else◌,
}
use mathlib.Core.List.{flatten}
use ott_ad_pipeline.Base.Dict.{get, count, add, pop, put}
use ott_ad_pipeline.Event.{num, text, flag, Event, get_text}
use ott_ad_pipeline.Generator.Rng.{Rng, random, chance, advance, choice, uniform}
use ott_ad_pipeline.Generator.Stats.{no_stats, append_sample, bump, latency, pct_of}
use ott_ad_pipeline.Generator.Stats.Percentile.{number, pct_of_lem}
use ott_ad_pipeline.Generator.Stats.Laws.{
  Call, count_event, sample, second_ends, replay, Agrees, replay-Agrees,
}
use ott_ad_pipeline.Generator.Emitter.{
  Emitter, delayed, is_impression, inject_ssai, inject_late, inject_dup, inject_bad, emit,
  emit_rest, route, bucket, buffer_pixel, buffer_post, bump_stat, drawn, twin_of,
}
use ott_ad_pipeline.Generator.Emitter.Loop.{
  batches, Outcome, Action, emitting, flushing, woken, answered, run, close, finish, flush, resume,
  post_all, step, end_delayed, end_pixel, end_post, end_task, flush_pixels, is_2xx, pause, spawn,
  time_response,
}
use ott_ad_pipeline.Generator.Emitter.Stepwise.{tally, unanswered, answers, Owes}
use ott_ad_pipeline.Generator.Emitter.Accounting.{IsKept, IsEnd, tally-run}
use ott_ad_pipeline.Generator.Emitter.Draining.{finish_all, Ends, close_drains}
use ott_ad_pipeline.Generator.Emitter.Batches.{Fits, batches_lem}
use ott_ad_pipeline.Generator.Emitter.Injection.{
  IsTwin, inject_ssai-IsTwin, inject_late_lem, inject_dup_lem,
}
use ott_ad_pipeline.Generator.Users.{World, Viewer, Done}
use ott_ad_pipeline.Generator.Users.Watch.{new_id, one_ad}
use ott_ad_pipeline.Generator.Users.Ads.{Label, labels, AdEvents, one_ad-AdEvents}

-- A generator whose every draw is 0, so that whatever is possible happens.
abbrev always : Rng
always = record { draw = λ n. 0; next = 0 }

abbrev start : Emitter
start = record {
  anom = record { late = 1; dup = 1; bad = 0; forge = 0; ssai = 1 };
  pixel_ratio = 0;
  batch_size = 200;
  stats = no_stats;
  rng = always;
  buf = [];
  pixel_buf = [];
  paused = false;
  closing = false;
  inflight = [];
}

abbrev an_impression : Event
an_impression =
    ("event_id", text "evt-1")
    ∷ ("event_type", text "impression")
    ∷ ("event_time", num 1789200120000)
    ∷ ("ad_request_id", text "req-1")
    ∷ ("campaign_id", text "cmp-1001")
    ∷ []

start-Owes : Owes 0 start
unfolding count get
start-Owes = omega arith

start_kept : tally "sent" start ≡ unanswered start + answers start
start_kept = omega (arith, start-Owes.owed)

abbrev a_run : List Action
a_run = emitting an_impression true "0a" ∷ flushing ∷ []

a_run-IsKept : All IsKept a_run
unfolding IsKept
a_run-IsKept = (tt, (tt, tt))

tally-run_example :
    tally "sent" (run a_run start) ≡ unanswered (run a_run start) + answers (run a_run start)
tally-run_example = tally-run start a_run a_run-IsKept (omega arith) start_kept

batches_lem_example :
    (flatten (batches 3 2 (an_impression ∷ an_impression ∷ an_impression ∷ []))
      ≡ an_impression ∷ an_impression ∷ an_impression ∷ [])
    × All (Fits 2) (batches 3 2 (an_impression ∷ an_impression ∷ an_impression ∷ []))
batches_lem_example =
    batches_lem 2 (an_impression ∷ an_impression ∷ an_impression ∷ []) (omega arith)

is_impression_run : is_impression an_impression ≡ true
unfolding is_impression
is_impression_run = refl

drawn_run : chance 1 always ≡ true
unfolding chance
drawn_run = refl

id_run : get "event_id" an_impression ≡ some (text "evt-1")
unfolding get
id_run = refl

time_run : get "event_time" an_impression ≡ some (num 1789200120000)
unfolding get
time_run = refl

abbrev two_seconds : List Call
two_seconds = count_event "sent" 3 ∷ sample 12 ∷ second_ends ∷ count_event "sent" 2 ∷ []

nothing_shown : Agrees "sent" (0, no_stats)
unfolding count get
nothing_shown = omega arith

replay-Agrees_example : Agrees "sent" (replay "sent" two_seconds (0, no_stats))
replay-Agrees_example = replay-Agrees "sent" two_seconds (0, no_stats) nothing_shown

abbrev world : World
world = record {
  hex = λ len n. "0a";
  time = λ n. 1789200120000;
  stop = λ n. false;
  service = false;
  decide = λ n. none;
}

abbrev viewer : Viewer
viewer = record {
  uid = "user-000000";
  device = "mobile";
  session_id = "sess-1";
  content_id = "ct-kbo-0912";
  cfg = record { abandon = 0; ad_abandon = 0; click_rate = 1; drop_impression = 0 };
}

abbrev nothing_done : Done
nothing_done = record { rng = always; uuids = 0; checks = 0; ads = 0; out = [] }

one_ad-AdEvents_example :
    (new : List Label) × (labels (one_ad world viewer "pod-1" 0 0 nothing_done)
      ≡ labels nothing_done ++ new)
    × AdEvents (new_id world "req-" 16 nothing_done) world.service new
one_ad-AdEvents_example = one_ad-AdEvents world viewer "pod-1" 0 0 nothing_done

-- Four response times, whose 95th percentile is the longest.
pct_of_lem_example :
    (4 * 95 < 100 * number (λ y. leb y (pct_of (30 ∷ 12 ∷ 45 ∷ 12 ∷ []))) (30 ∷ 12 ∷ 45 ∷ 12 ∷ []))
    × (4 * 5 ≤ 100 * number (leb (pct_of (30 ∷ 12 ∷ 45 ∷ 12 ∷ []))) (30 ∷ 12 ∷ 45 ∷ 12 ∷ []))
pct_of_lem_example = pct_of_lem 30 (12 ∷ 45 ∷ 12 ∷ []) (omega arith)

longest : pct_of (30 ∷ 12 ∷ 45 ∷ 12 ∷ []) ≡ 45
unfolding pct_of
longest = refl
