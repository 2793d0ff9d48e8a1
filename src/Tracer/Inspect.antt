-- ===== src/Tracer/Inspect.antt =====
-- tracer/app.py: what `api_trace` asks of the archive and of PostgreSQL, its whole answer, and the
-- registration of a traced campaign. `none` is an exception; the answers of the archive are kept for
-- five seconds as the player keeps them.
use Prim.Native.String.{◌++◌ as str_append}
use ott_ad_pipeline.Base.{
  ℕ, String, Bool, true, false, Option, none, some, List, [], ◌∷◌, length, select, if◌then◌else◌,
}
use ott_ad_pipeline.Base.Dict.{Dict, get, put}
use ott_ad_pipeline.Event.{Event, get_text}
use ott_ad_pipeline.Player.Inspect.{Cached, through_cache}
use ott_ad_pipeline.Tracer.{Target}
use ott_ad_pipeline.Tracer.Trace.{Trace, Delta, Message, api_trace, match_field_of, is_target}

pub record Parquet : Type 0 where
  pub rows : ℕ
  pub path : String

-- The rows of the hour's directory that the filter of `check_minio` leaves, as rows of texts: those
-- whose field is the id of one of the trace's targets.
unfoldable pub found_rows : String → List Target → List Event → Option Parquet
unfolding get_text
found_rows path ids rows =
    elim (select (λ r. is_target ids (get_text (match_field_of ids) r)) rows) [
      | [] ↦ none
      | r ∷ rs ↦
          some record { rows = length (r ∷ rs); path = str_append "s3a://" (str_append path "/") }
    ]

-- `check_minio`; the text of an error, which the trace keeps for the page, is left out.
unfoldable pub check_minio :
    (bucket : String)
    → (String → Option (List Event))
    → Trace
    → (now done : ℕ) → Cached Parquet
    → Option Parquet × Cached Parquet
unfolding found_rows through_cache
check_minio bucket dataset tr now done cache =
    let path =
      str_append bucket (str_append "/dt=" (str_append tr.dt (str_append "/hour=" tr.hour))) in
    let fresh : Option Parquet = elim (dataset path) [
      | none ↦ none
      | some rows ↦ found_rows path tr.sent.ids rows
    ] in
    let ((was_read, found), next) = through_cache tr.trace_id now done fresh cache in (found, next)

-- The row of `daily_settlement`, in which a missing amount is 0.
pub record Settlement : Type 0 where
  pub impressions : ℕ
  pub requests : ℕ
  pub raw_impressions : ℕ
  pub amount : ℕ

-- `check_pg`: a failure is like a missing row.
unfoldable pub check_pg :
    Bool → (String → String → Option (Option Settlement)) → String → String → Option Settlement
check_pg connected settlement_of campaign dt =
    let answer : Option Settlement = elim (settlement_of campaign dt) [
      | none ↦ none
      | some row ↦ row
    ] in
    if connected then answer else none

-- The tables that a traced campaign has to be in: its vertical and budget, and its prices.
pub record Registered : Type 0 where
  pub campaigns : Dict (String × ℕ)
  pub rates : Dict (ℕ × ℕ)

-- INSERT … ON CONFLICT DO NOTHING
unfoldable pub insert_once {ℓ} : {A : Type ℓ} → String → A → Dict A → Dict A
unfolding get put
insert_once k v d = elim (get k d) [ none ↦ put k v d | some old ↦ d ]

-- `ensure_campaign`: both rows in one transaction, or none of them if a statement fails.
unfoldable pub ensure_campaign : Bool → String → Registered → Bool × Registered
unfolding insert_once
ensure_campaign succeeds campaign_id t =
    let both : Registered = record {
      campaigns = insert_once campaign_id ("trace", 0) t.campaigns;
      rates = insert_once campaign_id (10000, 0) t.rates;
    } in
    if succeeds then (true, both) else (false, t)

-- What `api_trace` answers for a trace that is there.
pub record View : Type 0 where
  pub trace : Trace
  pub redis : Option Delta
  pub minio : Option Parquet
  pub pg : Option Settlement

-- `api_trace`, with the caches of the archive; `none` is the answer 404.
unfoldable pub view_trace :
    (String → ℕ)
    → (String → Option (Dict String))
    → (bucket : String) → (String → Option (List Event))
    → (now done : ℕ) → (connected : Bool) → (String → String → Option (Option Settlement))
    → String
    → List Message
    → Dict Trace × Cached Parquet
    → Option View × (Dict Trace × Cached Parquet)
unfolding api_trace check_minio check_pg
view_trace read hgetall bucket dataset now done connected settlement_of trace_id ms
      (traces, cache) =
    let (shown, next) = api_trace read hgetall trace_id ms traces in
    elim shown [
      | none ↦ (none, (next, cache))
      | some (tr, redis) ↦
          let (found, kept) = check_minio bucket dataset tr now done cache in
          (
            some record {
              trace = tr;
              redis = redis;
              minio = found;
              pg = check_pg connected settlement_of tr.campaign tr.dt;
            },
            (next, kept),
          )
    ]
