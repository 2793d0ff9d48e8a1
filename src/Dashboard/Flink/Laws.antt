-- ===== src/Dashboard/Flink/Laws.antt =====
-- What the sample of the Flink jobs says of each job, in dashboard/api.py.
use ott_ad_pipeline.Base.{
  append-nil, append_assoc, ℕ, ◌+◌, ◌≡◌, refl, ap, sym, ◌∙◌, ◌&&◌, Bool, true, false, String,
  str_eq, Option, none, some, List, [], ◌∷◌, map, ◌++◌, arith, if◌then◌else◌, or_else,
}
use ott_ad_pipeline.Dashboard.Labels.{starts_with}
use ott_ad_pipeline.Dashboard.Flink.{
  Vertex, Counts, Job, JobRow, FlinkSample, add_vertex, add_vertices, add_checkpoints, add_running,
  add_jobs,
}

abbrev pub sum_of {ℓ} : {A : Type ℓ} → (A → ℕ) → List A → ℕ
sum_of f [] = 0
sum_of f (x ∷ xs) = f x + sum_of f xs

-- What the sources of a job wrote.
abbrev pub source_writes : List Vertex → ℕ
source_writes = sum_of (λ v. if starts_with v.name "Source:" then or_else v.write_records 0 else 0)

-- What a job brings to the input: only the job that counts in real time does, while it runs.
abbrev pub input_of : Job → ℕ
input_of j =
    if str_eq j.state "RUNNING" && str_eq j.name "ott-ads-realtime"
    then source_writes (or_else j.details [])
    else 0

abbrev pub row_of : Job → JobRow
row_of j = record { name = j.name; state = j.state; running = j.running; total = j.total }

input-add_vertex :
    (job : String) (v : Vertex) (out : FlinkSample)
    → (add_vertex job v out).input
      ≡ out.input
        + (if str_eq job "ott-ads-realtime"
            then (if starts_with v.name "Source:" then or_else v.write_records 0 else 0)
            else 0)
unfolding add_vertex
input-add_vertex job v out = go (starts_with v.name "Source:") (str_eq job "ott-ads-realtime")
  where
    go :
        (a b : Bool)
        → (if a && b then out.input + or_else v.write_records 0 else out.input)
          ≡ out.input + (if b then (if a then or_else v.write_records 0 else 0) else 0)
    go true true = refl
    go true false = omega arith
    go false true = omega arith
    go false false = omega arith

add_share :
    (b : Bool) (start x rest middle end : ℕ)
    → middle ≡ start + (if b then x else 0)
    → end ≡ middle + (if b then rest else 0)
    → end ≡ start + (if b then x + rest else 0)
add_share true start x rest middle end h k = omega arith
add_share false start x rest middle end h k = omega arith

input-add_vertices :
    (job : String) (vs : List Vertex) (out : FlinkSample)
    → (add_vertices job vs out).input
      ≡ out.input + (if str_eq job "ott-ads-realtime" then source_writes vs else 0)
unfolding add_vertices
input-add_vertices job [] out = ground arith
input-add_vertices job (v ∷ vs) out =
    let mid = add_vertex job v out in
    add_share (str_eq job "ott-ads-realtime") out.input
      (if starts_with v.name "Source:" then or_else v.write_records 0 else 0) (source_writes vs)
      mid.input (add_vertices job vs mid).input (input-add_vertex job v out)
      (input-add_vertices job vs mid)

jobs-add_vertices :
    (job : String) (vs : List Vertex) (out : FlinkSample)
    → (add_vertices job vs out).jobs ≡ out.jobs
unfolding add_vertices add_vertex
jobs-add_vertices job [] out = refl
jobs-add_vertices job (v ∷ vs) out = jobs-add_vertices job vs (add_vertex job v out)

add_checkpoints_lem :
    (c : Option Counts) (out : FlinkSample)
    → ((add_checkpoints c out).input ≡ out.input) × ((add_checkpoints c out).jobs ≡ out.jobs)
unfolding add_checkpoints
add_checkpoints_lem none out = (refl, refl)
add_checkpoints_lem (some c) out = (refl, refl)

running_lem :
    (j : Job) (out : FlinkSample)
    → ((add_running j out).input
        ≡ out.input
          + (if str_eq j.name "ott-ads-realtime" then source_writes (or_else j.details []) else 0))
      × ((add_running j out).jobs ≡ out.jobs)
unfolding add_running
running_lem j out = go j.details
  where
    chosen :
        (b : Bool) (vs : List Vertex)
        → let summed = add_vertices j.name vs out in
          (summed.input ≡ out.input + (if b then source_writes vs else 0))
          → let after : FlinkSample =
              if b then add_checkpoints j.checkpoint_counts summed else summed in
            (after.input ≡ out.input + (if b then source_writes vs else 0))
            × (after.jobs ≡ out.jobs)
    chosen true vs input =
        let c = add_checkpoints_lem j.checkpoint_counts (add_vertices j.name vs out) in
        (c.0 ∙ input, c.1 ∙ jobs-add_vertices j.name vs out)
    chosen false vs input = (input, jobs-add_vertices j.name vs out)

    go :
        (d : Option (List Vertex))
        → let after : FlinkSample = elim d [
          | none ↦ out
          | some vs ↦
              let summed = add_vertices j.name vs out in
              if str_eq j.name "ott-ads-realtime"
              then add_checkpoints j.checkpoint_counts summed
              else summed
        ] in
          (after.input
            ≡ out.input
              + (if str_eq j.name "ott-ads-realtime" then source_writes (or_else d []) else 0))
          × (after.jobs ≡ out.jobs)
    go none = (ground arith, refl)
    go (some vs) = chosen (str_eq j.name "ott-ads-realtime") vs (input-add_vertices j.name vs out)

-- However many jobs there are and whatever runs: the input of the sample is what the sources of the
-- real-time job wrote while it ran and its page answered, so that the sources of the archive's job
-- are not counted; and every job is listed once, in their order, whether it runs or not.
pub add_jobs_lem :
    (jobs : List Job) (out : FlinkSample)
    → ((add_jobs jobs out).input ≡ out.input + sum_of input_of jobs)
      × ((add_jobs jobs out).jobs ≡ out.jobs ++ map row_of jobs)
unfolding add_jobs
add_jobs_lem [] out = (omega arith, sym (append-nil out.jobs))
add_jobs_lem (j ∷ jobs) out =
    go (str_eq j.state "RUNNING") (add_jobs_lem jobs (add_running j listed))
      (add_jobs_lem jobs listed)
  where
    listed : FlinkSample
    listed = record out { jobs = out.jobs ++ row_of j ∷ [] }

    Counted : FlinkSample → Type 0
    Counted next =
        ((add_jobs jobs next).input ≡ next.input + sum_of input_of jobs)
        × ((add_jobs jobs next).jobs ≡ next.jobs ++ map row_of jobs)

    go :
        (b : Bool)
        → Counted (add_running j listed)
        → Counted listed
        → let next : FlinkSample = if b then add_running j listed else listed in
          let share =
            if b && str_eq j.name "ott-ads-realtime"
            then source_writes (or_else j.details [])
            else 0 in
          ((add_jobs jobs next).input ≡ out.input + (share + sum_of input_of jobs))
          × ((add_jobs jobs next).jobs ≡ out.jobs ++ row_of j ∷ map row_of jobs)
    go true r idle =
        let running = running_lem j listed in
        (
          omega (arith, r.0, running.0),
          r.1
              ∙ ap (λ rows. rows ++ map row_of jobs) running.1
              ∙ append_assoc out.jobs (row_of j ∷ []) (map row_of jobs),
        )
    go false r idle =
        (omega (arith, idle.0), idle.1 ∙ append_assoc out.jobs (row_of j ∷ []) (map row_of jobs))
