-- ===== src/Writer/Steps.antt =====
-- What a message does to Redis in redis-writer/writer.py, and how Redis' keys come to their end.
use ott_ad_pipeline.Base.{
  ℕ, ◌≤◌, ◌≡◌, refl, String, str_eq, eq_iff, true, false, Option, none, some, List, [], ◌∷◌,
  if◌then◌else◌, Bool-cases, Option-cases, inl, inr, arith,
}
use ott_ad_pipeline.Event.{Event}
use ott_ad_pipeline.Writer.{
  Redis, Counts, Aggregate, aggregate_of, late_epoch, write_agg, handle_agg, write_late,
  handle_late, write_alert, handle_alert, Poll, nothing, kafka_error, message, dispatch, consume,
}

-- The aggregate that a message brings.
abbrev pub brought : (String → Option ℕ) → String → Event → String → Option Aggregate
brought instant topic d t = if str_eq topic "agg.minute" then aggregate_of instant d t else none

-- The times of the messages do not decrease, from an instant on and up to another.
abbrev pub InOrder : ℕ → List Poll → ℕ → Type 0
InOrder from [] to = from ≤ to
InOrder from (message topic d now t ∷ ms) to = (from ≤ now) × InOrder now ms to
InOrder from (nothing ∷ ms) to = InOrder from ms to
InOrder from (kafka_error b ∷ ms) to = InOrder from ms to

module _ (r : Redis) (instant : String → Option ℕ) (dump : Event → String) where
  -- The store that a message leaves, by what it is.
  pub data Leaves (topic : String) (d : Event) (now : ℕ) (t : String) (s : r.Store)
      : r.Store → Type 0 where
    refused :
        brought instant topic d t ≡ none
        → str_eq topic "alert.anomaly" ≡ false
        → Leaves topic d now t s s
    passed :
        brought instant topic d t ≡ none
        → str_eq topic "alert.anomaly" ≡ false
        → Leaves topic d now t s (r.wait now s)
    counted :
        (a : Aggregate)
        → brought instant topic d t ≡ some a
        → str_eq topic "alert.anomaly" ≡ false
        → Leaves topic d now t s (write_agg r instant dump a now (r.wait now s))
    late :
        (epoch : ℕ)
        → brought instant topic d t ≡ none
        → str_eq topic "alert.anomaly" ≡ false
        → Leaves topic d now t s (write_late r instant dump epoch (r.wait now s))
    alerted :
        brought instant topic d t ≡ none
        → str_eq topic "alert.anomaly" ≡ true
        → Leaves topic d now t s (write_alert r instant dump d (r.wait now s))

  pub consume-Leaves :
      (topic : String) (d : Event) (now : ℕ) (t : String) (s : r.Store) (c : Counts)
      → Leaves topic d now t s (consume r instant dump (message topic (some d) now t) (s, c)).0
  unfolding consume dispatch handle_agg handle_late handle_alert
  consume-Leaves topic d now t s c = elim (Bool-cases (str_eq topic "agg.minute")) [
    | inl a ↦ elim (Option-cases (aggregate_of instant d t)) [
      | inl e ↦ rw (a, dispatch, consume) (rw (e, handle_agg) (refused (rw (a, e) refl) (ne_agg a)))
      | inr (g, e) ↦
          rw (a, dispatch, consume) (rw (e, handle_agg) (counted g (rw (a, e) refl) (ne_agg a)))
    ]
    | inr a ↦ elim (Bool-cases (str_eq topic "late.events")) [
      | inl b ↦ elim (Option-cases (late_epoch instant d)) [
        | inl e ↦
            rw (a, dispatch, consume)
              (rw (b, dispatch) (rw (e, handle_late) (refused (rw a refl) (ne_late b))))
        | inr (none, e) ↦
            rw (a, dispatch, consume)
              (rw (b, dispatch) (rw (e, handle_late) (passed (rw a refl) (ne_late b))))
        | inr (some m, e) ↦
            rw (a, dispatch, consume)
              (rw (b, dispatch) (rw (e, handle_late) (late m (rw a refl) (ne_late b))))
      ]
      | inr b ↦ elim (Bool-cases (str_eq topic "alert.anomaly")) [
        | inl e ↦
            rw (a, dispatch, consume) (rw (b, dispatch) (rw (e, dispatch) (alerted (rw a refl) e)))
        | inr e ↦
            rw (a, dispatch, consume) (rw (b, dispatch) (rw (e, dispatch) (refused (rw a refl) e)))
      ]
    ]
  ]
    where
      ne_agg : str_eq topic "agg.minute" ≡ true → str_eq topic "alert.anomaly" ≡ false
      ne_agg h = rw ((eq_iff topic "agg.minute").0 h)

      ne_late : str_eq topic "late.events" ≡ true → str_eq topic "alert.anomaly" ≡ false
      ne_late h = rw ((eq_iff topic "late.events").0 h)

pub InOrder-le : (from to : ℕ) (ms : List Poll) → InOrder from ms to → from ≤ to
InOrder-le from to [] h = h
InOrder-le from to (message topic d now t ∷ ms) (h, rest) =
    let k = InOrder-le now to ms rest in omega (arith, h, k)
InOrder-le from to (nothing ∷ ms) h = InOrder-le from to ms h
InOrder-le from to (kafka_error b ∷ ms) h = InOrder-le from to ms h
