-- ===== src/Dashboard/Sampler.antt =====
-- dashboard/api.py: the samples of PostgreSQL and of the consumer groups, and the thread that puts
-- the samples of a round together for the page.
pub mod Coherence
use ott_ad_pipeline.Base.{
  ℕ, ◌+◌, ◌%◌, ◌==◌, String, str_eq, Bool, true, false, Option, none, some, is_some, List, [], ◌∷◌,
  any, if◌then◌else◌, or_else,
}
use ott_ad_pipeline.Base.Int.{ℤ}
use ott_ad_pipeline.Base.Dict.{Dict, get, put}
use ott_ad_pipeline.Dashboard.{Committed, group_lag}

-- A row of `daily_settlement`, with the amount in cents.
pub record Daily : Type 0 where
  pub dt : String
  pub campaign_id : String
  pub requests : ℕ
  pub impressions : ℕ
  pub raw_impressions : ℕ
  pub dupes_removed : ℕ
  pub late_impressions : ℕ
  pub clicks : ℕ
  pub completes : ℕ
  pub amount : Option ℕ

-- A row of `reconciliation`, with the rate in hundredths of a percent.
pub record Recon : Type 0 where
  pub campaign_id : String
  pub realtime : ℕ
  pub batch : ℕ
  pub diff : ℤ
  pub diff_rate : Option ℤ
  pub cause : String
  pub run_at : Option String
  pub scope : Option String

-- What PostgreSQL answers to the four queries; `none` is an exception.
pub record Postgres : Type 0 where
  pub connected : Bool
  pub minute_rows : Option (List (String × ℕ × ℕ))
  pub daily_rows : Option (List Daily)
  pub recon_rows : Option (List Recon)
  pub outbox_count : Option (ℕ × ℕ)

pub record PgSample : Type 0 where
  pub minute : Dict (List (ℕ × ℕ))
  pub daily : List Daily
  pub recon : List Recon
  pub outbox_rows : Option (ℕ × ℕ)
  pub error : Bool

-- `d[ts] = n` on the minutes of a campaign.
unfoldable pub set_at : ℕ → ℕ → List (ℕ × ℕ) → List (ℕ × ℕ)
set_at ts n [] = (ts, n) ∷ []
set_at ts n ((t, v) ∷ rest) =
    let others = set_at ts n rest in if t == ts then (t, n) ∷ rest else (t, v) ∷ others

unfoldable pub add_rows : List (String × ℕ × ℕ) → Dict (List (ℕ × ℕ)) → Dict (List (ℕ × ℕ))
unfolding get put set_at
add_rows [] out = out
add_rows ((cid, ts, imp) ∷ rows) out =
    add_rows rows (put cid (set_at ts imp (or_else (get cid out) [])) out)

abbrev pub no_rows : PgSample
no_rows = record { minute = []; daily = []; recon = []; outbox_rows = none; error = false }

-- The queries behind the first, in their order; an exception ends them and keeps what was read.
unfoldable pub later_queries : Postgres → PgSample → PgSample
later_queries pg out = elim pg.daily_rows [
  | none ↦ record out { error = true }
  | some daily ↦ elim pg.recon_rows [
    | none ↦ record out { daily = daily; error = true }
    | some recon ↦ elim pg.outbox_count [
      | none ↦ record out { daily = daily; recon = recon; error = true }
      | some n ↦ record out { daily = daily; recon = recon; outbox_rows = some n }
    ]
  ]
]

-- `sample_postgres`: the table of minutes may not be there yet, which is no error.
unfoldable pub sample_postgres : Postgres → PgSample
unfolding add_rows later_queries
sample_postgres pg =
    if pg.connected
    then later_queries pg (record no_rows { minute = add_rows (or_else pg.minute_rows []) [] })
    else record no_rows { error = true }

-- What is said of a consumer group: its lag, if known, and the partitions that it is over.
pub record Group : Type 0 where
  pub lag : Option ℕ
  pub partitions : ℕ
  pub missing : Bool

-- The loop of `sample_kafka` over the groups, for the groups that the broker lists and what it
-- answers for each; `none` is an exception.
unfoldable pub sample_groups :
    List String → List String → (String → Option (List Committed)) → List (String × Group)
sample_groups [] alive offsets = []
sample_groups (g ∷ groups) alive offsets =
    let found : Group = elim (offsets g) [
      | none ↦ record { lag = none; partitions = 0; missing = false }
      | some tps ↦
          let (lag, n) = group_lag tps (0, 0) in
          record { lag = some lag; partitions = n; missing = false }
    ] in
    let row : Group =
      if any (λ a. str_eq a g) alive
      then found
      else record { lag = none; partitions = 0; missing = true } in
    (g, row) ∷ sample_groups groups alive offsets

abbrev pub consumer_groups : List String
consumer_groups = "flink-rt" ∷ "flink-archive" ∷ "redis-writer" ∷ []

-- What the samplers of one round give: the five that run every time, where `none` is an exception
-- in one of them, and that of Kafka, which runs in every third.
pub record Round (P K : Type 0) : Type 0 where
  pub parts : Option P
  pub kafka : Option K

-- The state of `sampler`: the number of the round, its last sample of Kafka, and what `SNAP` shows:
-- a snapshot, once there is one, and whether an error was noted since.
pub record Sampler (P K : Type 0) : Type 0 where
  pub tick : ℕ
  pub kafka_snap : K
  pub shown : Option (P × K)
  pub error : Bool

module _ {P K : Type 0} where
  unfoldable pub publish : P → K → Sampler P K → Sampler P K
  publish parts kafka s = record {
    tick = s.tick + 1;
    kafka_snap = kafka;
    shown = some (parts, kafka);
    error = false;
  }

  unfoldable pub failed_round : Sampler P K → Sampler P K
  failed_round s = record s { tick = s.tick + 1; error = true }

  -- One round of the loop of `sampler`.
  unfoldable pub round : Round P K → Sampler P K → Sampler P K
  unfolding publish failed_round
  round i s = elim i.parts [
    | none ↦ failed_round s
    | some parts ↦
        if s.tick % 3 == 0
        then elim i.kafka [ none ↦ failed_round s | some kafka ↦ publish parts kafka s ]
        else publish parts s.kafka_snap s
  ]

  unfoldable pub sampler : List (Round P K) → Sampler P K → Sampler P K
  sampler [] s = s
  sampler (i ∷ rounds) s = sampler rounds (round i s)

  -- `/api/health`
  unfoldable pub is_ready : Sampler P K → Bool
  is_ready s = is_some s.shown
