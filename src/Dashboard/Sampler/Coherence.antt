-- ===== src/Dashboard/Sampler/Coherence.antt =====
-- What the page of dashboard/api.py can show: whole snapshots, and errors that do not hide them.
use ott_ad_pipeline.Base.{
  ℕ, ◌+◌, ◌%◌, ◌==◌, ◌≡◌, refl, ap, ◌∙◌, length, Bool, ◌&&◌, ◌||◌, not, none, some, is_some, List,
  [], ◌∷◌, ◌++◌, arith, Option-cases, Bool-cases, inl, inr,
}
use ott_ad_pipeline.Dashboard.Sampler.{
  Postgres, later_queries, sample_postgres, Round, Sampler, publish, failed_round, round, sampler,
}

-- A sample of PostgreSQL has an error if the connection or one of the last three queries failed;
-- what was read before the failure is shown, and a missing table of minutes is none.
pub error-sample_postgres :
    (pg : Postgres)
    → (sample_postgres pg).error
      ≡ not (
          pg.connected
          && (is_some pg.daily_rows && (is_some pg.recon_rows && is_some pg.outbox_count)))
unfolding sample_postgres later_queries
error-sample_postgres pg = ground arith

module _ {P K : Type 0} where
  -- What a page can be given: the sample of Kafka in the snapshot is the sampler's last one.
  unfoldable pub Coherent : Sampler P K → Type 0
  Coherent s = elim s.shown [ none ↦ Unit | some p ↦ p.1 ≡ s.kafka_snap ]

  -- Whether a round gives a snapshot: no sampler fails that runs in it.
  pub succeeds : ℕ → Round P K → Bool
  succeeds tick i = is_some i.parts && (not (tick % 3 == 0) || is_some i.kafka)

  round_cases :
      (i : Round P K) (s : Sampler P K)
      → Coherent s
      → Coherent (round i s)
        × ((round i s).error ≡ not (succeeds s.tick i))
        × ((round i s).tick ≡ s.tick + 1)
  unfolding round publish failed_round Coherent succeeds
  round_cases i s h = elim (Option-cases i.parts) [
    | inl e ↦ rw (e, round) (h, refl, refl)
    | inr (parts, e) ↦ elim (Bool-cases (s.tick % 3 == 0)) [
      | inr b ↦ rw (e, round) (rw (b, round) (refl, refl, refl))
      | inl b ↦ elim (Option-cases i.kafka) [
        | inl k ↦ rw (e, round) (rw (b, round) (rw (k, round) (h, refl, refl)))
        | inr (kafka, k) ↦ rw (e, round) (rw (b, round) (rw (k, round) (refl, refl, refl)))
      ]
    ]
  ]

  -- After any rounds from a state in which this holds, the page has either no snapshot or one whose
  -- sample of Kafka is the last that was taken; and it has an error exactly if the last round failed.
  pub sampler-Coherent :
      (rounds : List (Round P K)) (i : Round P K) (s : Sampler P K)
      → Coherent s
      → Coherent (sampler (rounds ++ i ∷ []) s)
        × ((sampler (rounds ++ i ∷ []) s).error ≡ not (succeeds (s.tick + length rounds) i))
  unfolding sampler
  sampler-Coherent [] i s h =
      let (c, e, t) = round_cases i s h in (c, e ∙ ap (λ n. not (succeeds n i)) (omega arith))
  sampler-Coherent (j ∷ rounds) i s h =
      let (c, e, t) = round_cases j s h in
      let (d, f) = sampler-Coherent rounds i (round j s) c in
      (d, f ∙ ap (λ n. not (succeeds n i)) (omega (arith, t)))
