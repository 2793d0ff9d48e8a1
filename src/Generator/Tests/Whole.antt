-- ===== src/Generator/Tests/Whole.antt =====
-- A run of the whole program of generator/main.py, without anomalies.
use ott_ad_pipeline.Base.{ℕ, ◌+◌, ◌≡◌, refl, sym, arith, List, [], ◌∷◌, length}
use ott_ad_pipeline.Base.Dict.{get, count, add, put, pop}
use ott_ad_pipeline.Event.{get_text}
use ott_ad_pipeline.Generator.Rng.{random, chance, advance, choice, uniform}
use ott_ad_pipeline.Generator.Stats.{append_sample, bump, latency}
use ott_ad_pipeline.Generator.Emitter.{
  is_impression, inject_ssai, inject_late, inject_dup, inject_bad, emit, emit_rest, route, bucket,
  buffer_pixel, buffer_post, bump_stat, drawn, twin_of,
}
use ott_ad_pipeline.Generator.Emitter.Loop.{
  batches, Outcome, answered, run, close, finish, flush, resume, post_all, step, end_delayed,
  end_pixel, end_post, end_task, flush_pixels, is_2xx, pause, spawn, time_response,
}
use ott_ad_pipeline.Generator.Emitter.Stepwise.{tally}
use ott_ad_pipeline.Generator.Emitter.Draining.{Ends}
use ott_ad_pipeline.Generator.Main.{defaults}
use ott_ad_pipeline.Generator.Main.Whole.{emitter_of, main, main_drains}
use ott_ad_pipeline.Generator.Tests.{always, a_run, a_run-IsKept}

abbrev no_share : ℕ → ℕ
no_share p = 0

abbrev one_answer : List (ℕ × Outcome)
one_answer = (0, answered 202 12) ∷ []

one_answer-Ends : Ends one_answer (close (run a_run (emitter_of no_share defaults always)))
unfolding finish close flush resume post_all run step emit inject_ssai is_impression chance
    inject_late route advance emit_rest inject_dup inject_bad add count get pop put get_text batches
    end_delayed end_pixel end_post end_task flush_pixels is_2xx pause spawn time_response bucket
    buffer_pixel buffer_post bump_stat drawn twin_of choice random uniform append_sample bump
    latency emitter_of
one_answer-Ends = (refl, tt, tt)

one_left : length (close (run a_run (emitter_of no_share defaults always))).inflight ≡ 1
unfolding finish close flush resume post_all run step emit inject_ssai is_impression chance
    inject_late route advance emit_rest inject_dup inject_bad add count get pop put get_text batches
    end_delayed end_pixel end_post end_task flush_pixels is_2xx pause spawn time_response bucket
    buffer_pixel buffer_post bump_stat drawn twin_of choice random uniform append_sample bump
    latency emitter_of
one_left = refl

main_drains_example :
    let last = main no_share defaults always a_run one_answer in
    (last.inflight ≡ []) × (tally "sent" last ≡ tally "http.2xx" last + tally "http.err" last)
main_drains_example =
    main_drains no_share defaults always a_run one_answer (omega arith) a_run-IsKept one_answer-Ends
      (sym one_left)
