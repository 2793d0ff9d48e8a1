-- ===== src/Dashboard/Tests.antt =====
-- The samplers of dashboard/api.py on small inputs.
use ott_ad_pipeline.Dashboard.Flink.Laws.{sum_of, input_of, row_of, add_jobs_lem}
use ott_ad_pipeline.Base.{
  map, ◌+◌, ◌≡◌, refl, String, false, not, none, some, List, [], ◌∷◌, ◌++◌, length,
}
use ott_ad_pipeline.Base.Dict.{Counter, count, put}
use ott_ad_pipeline.Dashboard.{Sample, trim, prom_all}
use ott_ad_pipeline.Dashboard.Labels.{label_sum, by_reason}
use ott_ad_pipeline.Dashboard.Flink.{
  Job, no_flink, add_jobs, add_running, add_vertices, add_vertex, add_checkpoints,
}
use ott_ad_pipeline.Dashboard.Sampler.{Round, Sampler, sampler, round, publish, failed_round}
use ott_ad_pipeline.Dashboard.Sampler.Coherence.{Coherent, succeeds, sampler-Coherent}

abbrev samples : List Sample
samples = (0, 10) ∷ (1000, 20) ∷ (9000, 30) ∷ (9500, 40) ∷ []

trim_run : trim 8000 9500 samples ≡ (9000, 30) ∷ (9500, 40) ∷ []
unfolding trim
trim_run = refl

abbrev replicas : List Counter
replicas = (("dlq", 3) ∷ []) ∷ [] ∷ (("dlq", 4) ∷ ("received", 9) ∷ []) ∷ []

prom_all_run : count "dlq" (prom_all replicas ([], 0)).0 ≡ 7
unfolding prom_all count
prom_all_run = refl

-- The names of the rounds' samples stand for the samples.
abbrev rounds : List (Round String String)
rounds =
    record { parts = some "first"; kafka = some "lag 1" }
    ∷ record { parts = some "second"; kafka = none }
    ∷ []

abbrev broken : Round String String
broken = record { parts = none; kafka = some "lag 3" }

abbrev fresh : Sampler String String
fresh = record { tick = 0; kafka_snap = "nothing"; shown = none; error = false }

fresh-Coherent : Coherent fresh
unfolding Coherent
fresh-Coherent = tt

sampler-Coherent_example :
    Coherent (sampler (rounds ++ broken ∷ []) fresh)
    × ((sampler (rounds ++ broken ∷ []) fresh).error
        ≡ not (succeeds (fresh.tick + length rounds) broken))
sampler-Coherent_example = sampler-Coherent rounds broken fresh fresh-Coherent

sampler_run : (sampler (rounds ++ broken ∷ []) fresh).shown ≡ some ("second", "lag 1")
unfolding sampler round publish failed_round
sampler_run = refl

abbrev labelled : Counter
labelled =
    ("addecision_requests_total", 9)
    ∷ ("addecision_requests_total{fill=\"true\",app=\"ad\"}", 7)
    ∷ ("addecision_requests_total{fill=\"false\",app=\"ad\"}", 2)
    ∷ ("collector_events_invalid_total{reason=\"schema\",app=\"c\"}", 5)
    ∷ []

label_sum_run : label_sum labelled "addecision_requests_total" "fill" "true" ≡ 7
unfolding label_sum
label_sum_run = refl

by_reason_run : by_reason labelled [] ≡ some (("schema", 5) ∷ [])
unfolding by_reason put
by_reason_run = refl

abbrev realtime : Job
realtime = record {
  name = "ott-ads-realtime";
  state = "RUNNING";
  running = some 12;
  total = some 12;
  details = some (
      record { name = "Source: ad_events"; read_records = none; write_records = some 100 }
      ∷ record { name = "Deduplicate[3]"; read_records = some 100; write_records = some 97 }
      ∷ record { name = "late_events_sink[9]: Writer"; read_records = some 4; write_records = none }
      ∷ []);
  checkpoint_counts = none;
}

abbrev archive : Job
archive = record realtime { name = "ott-ads-archive" }

-- The source of the archive's job is not counted, and its other operators are.
flink_run :
    let out = add_jobs (realtime ∷ archive ∷ record realtime { state = "FAILED" } ∷ []) no_flink in
    out.input ∷ out.dedup_in ∷ out.dedup_out ∷ out.late_out ∷ length out.jobs ∷ []
    ≡ 100 ∷ 200 ∷ 194 ∷ 8 ∷ 3 ∷ []
unfolding add_jobs add_running add_vertices add_vertex add_checkpoints
flink_run = refl

add_jobs_lem_example :
    ((add_jobs (realtime ∷ archive ∷ []) no_flink).input
      ≡ 0 + sum_of input_of (realtime ∷ archive ∷ []))
    × ((add_jobs (realtime ∷ archive ∷ []) no_flink).jobs
        ≡ [] ++ map row_of (realtime ∷ archive ∷ []))
add_jobs_lem_example = add_jobs_lem (realtime ∷ archive ∷ []) no_flink
