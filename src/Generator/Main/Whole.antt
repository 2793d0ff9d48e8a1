-- ===== src/Generator/Main/Whole.antt =====
-- generator/main.py: what `main` sets up from the options, and its end. The number of draws of
-- `random()` below a probability in hundredths is the argument `share`, as the source has floats.
use ott_ad_pipeline.Base.{ℕ, ◌+◌, ◌<◌, ◌≡◌, false, List, [], All, length, arith}
use ott_ad_pipeline.Base.Dict.{count, get}
use ott_ad_pipeline.Generator.Main.{Options}
use ott_ad_pipeline.Generator.Rng.{Rng}
use ott_ad_pipeline.Generator.Stats.{no_stats}
use ott_ad_pipeline.Generator.Users.{BehaviorConfig}
use ott_ad_pipeline.Generator.Emitter.{Anomalies, Emitter}
use ott_ad_pipeline.Generator.Emitter.Loop.{Action, Outcome, run, close}
use ott_ad_pipeline.Generator.Emitter.Stepwise.{Owes, tally}
use ott_ad_pipeline.Generator.Emitter.Accounting.{IsKept}
use ott_ad_pipeline.Generator.Emitter.Draining.{finish_all, Ends, close_drains}

unfoldable pub anomalies_of : (ℕ → ℕ) → Options → Anomalies
anomalies_of share o = record {
  late = share o.late;
  dup = share o.dup;
  bad = share o.bad;
  forge = share o.forge;
  ssai = share o.ssai;
}

unfoldable pub behavior_of : (ℕ → ℕ) → Options → BehaviorConfig
behavior_of share o = record {
  abandon = share o.abandon;
  ad_abandon = share o.ad_abandon;
  click_rate = share o.click_rate;
  drop_impression = share o.drop_impression;
}

-- The emitter that the tasks share, with fresh statistics.
unfoldable pub emitter_of : (ℕ → ℕ) → Options → Rng → Emitter
unfolding anomalies_of
emitter_of share o rng = record {
  anom = anomalies_of share o;
  pixel_ratio = share o.pixel_ratio;
  batch_size = o.batch_size;
  stats = no_stats;
  rng = rng;
  buf = [];
  pixel_buf = [];
  paused = false;
  closing = false;
  inflight = [];
}

-- The whole program: what the loop runs until the stop, when the viewers' tasks and the others of
-- `main` are cancelled; `close`; and the ends of the emitter's own tasks, which `close` waits for.
unfoldable pub main : (ℕ → ℕ) → Options → Rng → List Action → List (ℕ × Outcome) → Emitter
unfolding emitter_of run close finish_all
main share o rng actions ends = finish_all ends (close (run actions (emitter_of share o rng)))

emitter_of-Owes :
    (share : ℕ → ℕ) (o : Options) (rng : Rng) → 0 < o.batch_size → Owes 0 (emitter_of share o rng)
unfolding emitter_of count get
emitter_of-Owes share o rng h = omega arith

-- Whatever the options but a positive size of batches, the draws and what the loop ran, bursts and
-- the injected anomalies included: if no request is cancelled, then as many ends of tasks as there
-- are when `close` has run leave none, and the program's summary has as many events answered, by 2xx
-- or as errors, as it has events sent.
pub main_drains :
    (share : ℕ → ℕ) (o : Options) (rng : Rng) (actions : List Action) (ends : List (ℕ × Outcome))
    → 0 < o.batch_size
    → All IsKept actions
    → let closed = close (run actions (emitter_of share o rng)) in
      Ends ends closed
      → length ends ≡ length closed.inflight
      → let last = main share o rng actions ends in
        (last.inflight ≡ []) × (tally "sent" last ≡ tally "http.2xx" last + tally "http.err" last)
unfolding main
main_drains share o rng actions ends h kept d n =
    close_drains actions ends (emitter_of share o rng) kept (emitter_of-Owes share o rng h) d n
