-- ===== src/Dashboard/Samplers.antt =====
-- dashboard/api.py: the samples of the collector, the outbox, Kafka's topics and Redis.
use Prim.Native.String.{◌++◌ as str_append}
use ott_ad_pipeline.Base.{
  ◌+◌, ℕ, String, str_eq, Bool, true, false, Option, none, some, List, [], ◌∷◌, if◌then◌else◌,
  or_else, ◌>>=◌, ◌==◌,
}
use ott_ad_pipeline.Base.Dict.{Dict, get, put, Counter, count}
use ott_ad_pipeline.Dashboard.{Sample, rate}
use ott_ad_pipeline.Dashboard.Labels.{label_sum, by_reason}
use ott_ad_pipeline.Writer.Summary.{Amounts, zeros, plus, read_hash, campaign_of}

-- What `sample_ingest` says.
pub record Ingest : Type 0 where
  pub up : Bool
  pub replicas : ℕ
  pub replicas_up : ℕ
  pub received : ℕ
  pub received_rate : ℕ × ℕ
  pub invalid : ℕ
  pub invalid_rate : ℕ × ℕ
  pub dlq : ℕ
  pub dlq_rate : ℕ × ℕ
  pub fallback : ℕ
  pub fallback_pending : ℕ
  pub kafka_errors : ℕ
  pub invalid_by_reason : Dict ℕ

abbrev pub is_up : Counter → Bool
is_up [] = false
is_up (kv ∷ m) = true

-- `sample_ingest`, for what `prom_all` gave, with the samples of the rates. The function ends in an
-- exception where a metric of invalid events has no reason; the rates have their samples then.
unfoldable pub sample_ingest :
    Counter → (alive total now : ℕ) → Dict (List Sample) → Option Ingest × Dict (List Sample)
unfolding count rate by_reason
sample_ingest m alive total now prev =
    let recv = count "collector_events_received_total" m in
    let inval = count "collector_events_invalid_total" m in
    let dlq = count "collector_dlq_total" m in
    let (recv_rate, prev1) = rate "recv" (some recv) now none prev in
    let (inval_rate, prev2) = rate "inval" (some inval) now none prev1 in
    let (dlq_rate, prev3) = rate "dlq" (some dlq) now none prev2 in
    (
      by_reason m [] >>= (λ reasons. some (record {
        up = is_up m;
        replicas = total;
        replicas_up = alive;
        received = recv;
        received_rate = recv_rate;
        invalid = inval;
        invalid_rate = inval_rate;
        dlq = dlq;
        dlq_rate = dlq_rate;
        fallback = count "collector_events_fallback_total" m;
        fallback_pending = count "collector_fallback_pending" m;
        kafka_errors = count "collector_kafka_publish_errors_total" m;
        invalid_by_reason = reasons;
      })),
      prev3,
    )

-- The totals of `sample_realtime` for a campaign, with the name that is shown; the number of
-- minutes in the amounts is not.
pub record Shown : Type 0 where
  pub amounts : Amounts
  pub name : String

abbrev pub shown_name : String → Dict String → String
shown_name cid h = elim (get "campaign_name" h) [
  | none ↦ cid
  | some n ↦ if str_eq n "" then cid else n
]

module _ (read : String → Option ℕ) where
  -- One round of the loop: the impressions of the minute, and the sums. A text that is not a
  -- number is `none`.
  unfoldable pub add_minute :
      ℕ → Dict String → Dict (List (ℕ × ℕ)) × Dict Shown → Option (Dict (List (ℕ × ℕ)) × Dict Shown)
  unfolding get put campaign_of read_hash
  add_minute score h (series, totals) = elim (campaign_of read h) [
    | none ↦ some (series, totals)
    | some cid ↦ elim (read_hash read h) [
      | none ↦ none
      | some a ↦
          let fresh : Shown = record { amounts = zeros; name = shown_name cid h } in
          let t = or_else (get cid totals) fresh in
          some (
            put cid (set_minute score a.impressions (or_else (get cid series) [])) series,
            put cid (record t { amounts = plus t.amounts a }) totals,
          )
    ]
  ]
    where
      set_minute : ℕ → ℕ → List (ℕ × ℕ) → List (ℕ × ℕ)
      set_minute m n [] = (m, n) ∷ []
      set_minute m n ((k, v) ∷ rest) =
          let others = set_minute m n rest in
          elim (k == m) [ true ↦ (k, n) ∷ rest | false ↦ (k, v) ∷ others ]

  -- `sample_realtime`, for the keys of the index with their minutes and hashes, in the order of
  -- the minutes. A hash that has expired is empty, and has no campaign.
  unfoldable pub sample_realtime :
      List (ℕ × Dict String)
      → Dict (List (ℕ × ℕ)) × Dict Shown
      → Option (Dict (List (ℕ × ℕ)) × Dict Shown)
  unfolding add_minute
  sample_realtime [] out = some out
  sample_realtime ((score, h) ∷ rest) out = add_minute score h out >>= sample_realtime rest

-- What `sample_outbox` says.
pub record Outbox : Type 0 where
  pub up : Bool
  pub unpublished : ℕ
  pub lag_seconds : ℕ
  pub published : ℕ
  pub published_rate : ℕ × ℕ
  pub republished : ℕ
  pub update_skipped : ℕ
  pub fill : ℕ
  pub nofill : ℕ

unfoldable pub sample_outbox :
    Counter → (now : ℕ) → Dict (List Sample) → Outbox × Dict (List Sample)
unfolding count rate label_sum
sample_outbox m now prev =
    let published = count "outbox_published_total" m in
    let (published_rate, next) = rate "outbox_pub" (some published) now none prev in
    (
      record {
        up = is_up m;
        unpublished = count "outbox_unpublished" m;
        lag_seconds = count "outbox_lag_seconds" m;
        published = published;
        published_rate = published_rate;
        republished = count "outbox_republished_total" m;
        update_skipped = count "outbox_update_skipped_total" m;
        fill = label_sum m "addecision_requests_total" "fill" "true";
        nofill = label_sum m "addecision_requests_total" "fill" "false";
      },
      next,
    )

-- The end offsets of a topic's partitions, as far as they could be read in time; their sum is what
-- was produced. The topics of the broker itself are not among them.
unfoldable pub produced : List (Option ℕ) → ℕ
produced [] = 0
produced (none ∷ ends) = produced ends
produced (some hi ∷ ends) = hi + produced ends

-- `topics` of `sample_kafka`, for the topics in the order of their names.
unfoldable pub sample_topics :
    List (String × List (Option ℕ))
    → (now : ℕ) → Dict (List Sample)
    → List (String × ℕ × (ℕ × ℕ)) × Dict (List Sample)
unfolding produced rate
sample_topics [] now prev = ([], prev)
sample_topics ((topic, ends) ∷ topics) now prev =
    let total = produced ends in
    let (speed, next) = rate (str_append "topic:" topic) (some total) now none prev in
    let (rows, last) = sample_topics topics now next in ((topic, total, speed) ∷ rows, last)
