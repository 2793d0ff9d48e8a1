-- ===== src/Tracer/Keeping.antt =====
-- Which traces the server keeps.
use ott_ad_pipeline.Base.{
  ℕ, ◌-◌, ◌≤◌, ◌≡◌, refl, subst, String, Option, none, some, [], ◌∷◌, ◌++◌, drop, length, arith,
  Option-cases, inl, inr,
}
use ott_ad_pipeline.Base.Dict.{Dict, get}
use ott_ad_pipeline.Base.Evict.{put_newest_lem, length-put_newest}
use ott_ad_pipeline.Tracer.{Services}
use ott_ad_pipeline.Tracer.Kinds.{Kind, kind_of}
use ott_ad_pipeline.Tracer.Trace.{Trace, Offsets, new_trace, api_send}

module _ (s : Services) (read : String → ℕ) (hgetall : String → Option (Dict String))
    (trace_id kind : String) (ts : ℕ) (offsets : Offsets) where
  -- What a request gives: nothing for an unknown kind, and else the trace that begins, which comes
  -- last, behind the newest nineteen.
  pub data Sends (traces : Dict Trace) : Option Trace × Dict Trace → Type 0 where
    unknown : kind_of kind ≡ none → Sends traces (none, traces)
    begun :
        (k : Kind) (tr : Trace)
        → kind_of kind ≡ some k
        → tr ≡ new_trace s read hgetall trace_id k ts offsets
        → Sends traces (some tr, drop (length traces - 19) traces ++ (trace_id, tr) ∷ [])

  -- A request for a kind that there is not changes nothing and begins no trace; one for a known
  -- kind, under a new id, begins its trace, and of the others the newest nineteen stay, in order.
  pub api_send_lem :
      (traces : Dict Trace)
      → get trace_id traces ≡ none
      → Sends traces (api_send s read hgetall trace_id kind ts offsets traces)
  unfolding api_send
  api_send_lem traces h = elim (Option-cases (kind_of kind)) [
    | inl e ↦ rw (e, api_send) (unknown e)
    | inr (k, e) ↦
        let tr = new_trace s read hgetall trace_id k ts offsets in
        rw (e, api_send)
          (rw (put_newest_lem 20 trace_id tr traces (omega arith) h) (
            subst (λ n. Sends traces (some tr, drop n traces ++ (trace_id, tr) ∷ [])) (omega arith)
              (begun k tr e refl)))
  ]

  -- A request of any kind, known or not, keeps the number of traces at twenty at most.
  pub api_send-le :
      (traces : Dict Trace)
      → length traces ≤ 20
      → length (api_send s read hgetall trace_id kind ts offsets traces).1 ≤ 20
  unfolding api_send
  api_send-le traces h = elim (Option-cases (kind_of kind)) [
    | inl e ↦ rw (e, api_send) h
    | inr (k, e) ↦
        rw (e, api_send)
          (length-put_newest 20 trace_id (new_trace s read hgetall trace_id k ts offsets) traces)
  ]
