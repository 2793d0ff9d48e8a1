-- ===== src/Dashboard/Flink.antt =====
-- dashboard/api.py: the sample of the Flink jobs.
pub mod Laws
use ott_ad_pipeline.Base.{
  ℕ, ◌+◌, ◌-◌, ◌&&◌, String, str_eq, Option, none, some, List, [], ◌∷◌, ◌++◌, if◌then◌else◌,
  or_else,
}
use ott_ad_pipeline.Base.Dict.{Dict}
use ott_ad_pipeline.Dashboard.{Sample, rate, rate_window_flink}
use ott_ad_pipeline.Dashboard.Labels.{starts_with, contains}

-- What the page of a job says of an operator.
pub record Vertex : Type 0 where
  pub name : String
  pub read_records : Option ℕ
  pub write_records : Option ℕ

-- What the page of a job's checkpoints says, of the newest one that completed the last two.
pub record Counts : Type 0 where
  pub completed : Option ℕ
  pub failed : Option ℕ
  pub state_size : Option ℕ
  pub end_to_end_duration : Option ℕ

-- A job of the overview, with its two pages; one that does not answer is `none`.
pub record Job : Type 0 where
  pub name : String
  pub state : String
  pub running : Option ℕ
  pub total : Option ℕ
  pub details : Option (List Vertex)
  pub checkpoint_counts : Option Counts

pub record JobRow : Type 0 where
  pub name : String
  pub state : String
  pub running : Option ℕ
  pub total : Option ℕ

-- The size in kilobytes as a fraction.
pub record Checkpoints : Type 0 where
  pub completed : Option ℕ
  pub failed : Option ℕ
  pub size_kb : ℕ × ℕ
  pub duration_ms : Option ℕ

pub record FlinkSample : Type 0 where
  pub jobs : List JobRow
  pub input : ℕ
  pub dedup_in : ℕ
  pub dedup_out : ℕ
  pub dedup_removed : ℕ
  pub late_out : ℕ
  pub agg_out : ℕ
  pub checkpoints : Option Checkpoints

abbrev pub no_flink : FlinkSample
no_flink = record {
  jobs = [];
  input = 0;
  dedup_in = 0;
  dedup_out = 0;
  dedup_removed = 0;
  late_out = 0;
  agg_out = 0;
  checkpoints = none;
}

unfoldable pub add_vertex : (job : String) → Vertex → FlinkSample → FlinkSample
add_vertex job v out =
    let rin = or_else v.read_records 0 in
    let rout = or_else v.write_records 0 in
    let is_source = starts_with v.name "Source:" && str_eq job "ott-ads-realtime" in
    let is_dedup = starts_with v.name "Deduplicate" in
    let is_writer = contains v.name "Writer" in
    record out {
      input = if is_source then out.input + rout else out.input;
      dedup_in = if is_dedup then out.dedup_in + rin else out.dedup_in;
      dedup_out = if is_dedup then out.dedup_out + rout else out.dedup_out;
      late_out =
          if starts_with v.name "late_events_sink" && is_writer
          then out.late_out + rin
          else out.late_out;
      agg_out =
          if starts_with v.name "agg_minute_sink" && is_writer
          then out.agg_out + rin
          else out.agg_out;
    }

unfoldable pub add_vertices : (job : String) → List Vertex → FlinkSample → FlinkSample
unfolding add_vertex
add_vertices job [] out = out
add_vertices job (v ∷ vs) out = add_vertices job vs (add_vertex job v out)

unfoldable pub add_checkpoints : Option Counts → FlinkSample → FlinkSample
add_checkpoints none out = out
add_checkpoints (some c) out = record out {
  checkpoints = some (record {
    completed = c.completed;
    failed = c.failed;
    size_kb = (or_else c.state_size 0, 1024);
    duration_ms = c.end_to_end_duration;
  });
}

-- A job that runs and whose page answers.
unfoldable pub add_running : Job → FlinkSample → FlinkSample
unfolding add_vertices add_checkpoints
add_running j out = elim j.details [
  | none ↦ out
  | some vertices ↦
      let summed = add_vertices j.name vertices out in
      if str_eq j.name "ott-ads-realtime"
      then add_checkpoints j.checkpoint_counts summed
      else summed
]

-- The loop over the jobs: each is listed, and one that does not run is passed over.
unfoldable pub add_jobs : List Job → FlinkSample → FlinkSample
unfolding add_running
add_jobs [] out = out
add_jobs (j ∷ jobs) out =
    let row : JobRow = record {
      name = j.name;
      state = j.state;
      running = j.running;
      total = j.total;
    } in
    let listed = record out { jobs = out.jobs ++ row ∷ [] } in
    add_jobs jobs (if str_eq j.state "RUNNING" then add_running j listed else listed)

pub record FlinkRates : Type 0 where
  pub input_rate : ℕ × ℕ
  pub late_rate : ℕ × ℕ

-- `sample_flink`, for the overview that Flink gave. Without one there is an error and no rate, and
-- the samples of the rates stay as they are.
unfoldable pub sample_flink :
    Option (List Job)
    → (now : ℕ) → Dict (List Sample)
    → FlinkSample × Option FlinkRates × Dict (List Sample)
unfolding add_jobs rate
sample_flink none now prev = (no_flink, none, prev)
sample_flink (some jobs) now prev =
    let counted = add_jobs jobs no_flink in
    let out = record counted { dedup_removed = counted.dedup_in - counted.dedup_out } in
    let (input_rate, prev1) = rate "flink_in" (some out.input) now (some rate_window_flink) prev in
    let (late_rate, prev2) =
      rate "flink_late" (some out.late_out) now (some rate_window_flink) prev1 in
    (out, some (record { input_rate = input_rate; late_rate = late_rate }), prev2)
