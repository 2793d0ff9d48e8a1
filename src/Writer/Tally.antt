-- ===== src/Writer/Tally.antt =====
-- The errors of the consumer of redis-writer/writer.py: which polls it refuses, and that a refused
-- one leaves no trace but its count.
use ott_ad_pipeline.Base.{
  ℕ, ◌+◌, String, str_eq, Bool, true, false, Option, none, some, is_some, if◌then◌else◌,
}
use ott_ad_pipeline.Event.{Event}
use ott_ad_pipeline.Writer.{
  Redis, Counts, aggregate_of, late_epoch, write_agg, write_late, write_alert, Poll, nothing,
  kafka_error, message,
}

pub data Tally : Type 0 where
  as_agg as_late as_alert uncounted : Tally

abbrev pub counted : Tally → Counts → Counts
counted as_agg c = record c { agg = c.agg + 1 }
counted as_late c = record c { late = c.late + 1 }
counted as_alert c = record c { alert = c.alert + 1 }
counted uncounted c = c

module _ (r : Redis) (instant : String → Option ℕ) (dump : Event → String) where
  abbrev pub Effect : Type 0
  Effect = (r.Store → r.Store) × Tally

  -- What a message is to do to the store and how it counts, if it is accepted.
  unfoldable agg_effect : Event → ℕ → String → Option Effect
  agg_effect d now t = elim (aggregate_of instant d t) [
    | none ↦ none
    | some a ↦ some (write_agg r instant dump a now, as_agg)
  ]

  unfoldable late_effect : Event → Option Effect
  late_effect d = elim (late_epoch instant d) [
    | none ↦ none
    | some none ↦ some ((λ s. s), uncounted)
    | some (some m) ↦ some (write_late r instant dump m, as_late)
  ]

  unfoldable effect_of : String → Event → ℕ → String → Option Effect
  effect_of topic d now t =
      if str_eq topic "agg.minute"
      then agg_effect d now t
      else if str_eq topic "late.events"
      then late_effect d
      else if str_eq topic "alert.anomaly"
      then some (write_alert r instant dump d, as_alert)
      else none

  -- Whether a poll counts as no error.
  pub accepts : Poll → Bool
  accepts nothing = true
  accepts (kafka_error eof) = eof
  accepts (message topic none now t) = false
  accepts (message topic (some d) now t) = is_some (effect_of topic d now t)

  abbrev apply : Option Effect → r.Store → Counts → Option (r.Store × Counts)
  apply none s c = none
  apply (some (f, k)) s c = some (f s, counted k c)

  abbrev pub with_errors : ℕ → r.Store × Counts → r.Store × Counts
  with_errors n (s, c) = (s, record c { err = c.err + n })
