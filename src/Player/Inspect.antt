-- ===== src/Player/Inspect.antt =====
-- player/app.py: the answer of `inspect`, which asks Kafka, Redis, the archive and PostgreSQL how far
-- an advertisement has come. A time is in milliseconds: when a request asks, and when it has read the archive. What the services answer are arguments, and
-- `none` is an exception.
pub mod Cache
use Prim.Native.String.{◌++◌ as str_append}
use ott_ad_pipeline.Base.{
  ℕ, ◌-◌, ltb, String, str_eq, Bool, true, false, Option, none, some, List, [], ◌∷◌, length, map,
  select, any, if◌then◌else◌, or_else,
}
use ott_ad_pipeline.Base.Dict.{Dict, get, put}
use ott_ad_pipeline.Base.Sort.{sort}
use ott_ad_pipeline.Base.Text.{text_le}
use ott_ad_pipeline.Event.{null, num, text, flag}
use ott_ad_pipeline.Player.{Play, Sent, Agg}
use ott_ad_pipeline.Player.Trace.{redis_agg, Message, scan_kafka, Delta, delta}

-- `_PARQUET_CACHE`: when the archive was read for a key, and what was found.
abbrev pub Cached : Type 0 → Type 0
Cached A = Dict (ℕ × Option A)

-- The answer for a key at a time: one that is less than five seconds old is given again; otherwise
-- the archive is read, and what it has is kept with the later time at which the reading was done.
-- The flag says whether it is read. The source takes no lock, so that two requests that overlap may
-- both read; here a request is done before the next one asks.
unfoldable pub through_cache :
    {A : Type 0} → String → (now done : ℕ) → Option A → Cached A → (Bool × Option A) × Cached A
unfolding get put
through_cache key now done fresh cache = elim (get key cache) [
  | none ↦ ((true, fresh), put key (done, fresh) cache)
  | some (at, found) ↦
      if ltb (now - at) 5000
      then ((false, found), cache)
      else ((true, fresh), put key (done, fresh) cache)
]

-- A row of the archive.
pub record Archived : Type 0 where
  pub event_id : String
  pub ad_request_id : String
  pub event_type : Option String
  pub quartile : Option String

pub record Parquet : Type 0 where
  pub rows : ℕ
  pub path : String
  pub types : List String

-- `(type or "") + ("/" + quartile if quartile else "")`
unfoldable pub type_of : Archived → String
type_of r =
    str_append (or_else r.event_type "")
      (elim r.quartile [ none ↦ "" | some q ↦ if str_eq q "" then "" else str_append "/" q ])

-- A set as a list.
unfoldable pub distinct : List String → List String
distinct [] = []
distinct (x ∷ xs) = let rest = distinct xs in if any (λ y. str_eq y x) rest then rest else x ∷ rest

-- The rows that the filter of `check_minio` leaves.
unfoldable pub found_rows : String → String → List Archived → Option Parquet
unfolding type_of sort text_le distinct
found_rows path arid rows = elim (select (λ r. str_eq r.ad_request_id arid) rows) [
  | [] ↦ none
  | r ∷ rs ↦ some record {
    rows = length (r ∷ rs);
    path = str_append "s3a://" (str_append path "/");
    types = sort text_le (distinct (map type_of (r ∷ rs)));
  }
]

-- What `check_minio` finds without its cache, for the rows of the hour's directory.
unfoldable pub read_hour :
    (bucket dt hour : String) → (String → Option (List Archived)) → String → Option Parquet
unfolding found_rows
read_hour bucket dt hour dataset arid =
    let path = str_append bucket (str_append "/dt=" (str_append dt (str_append "/hour=" hour))) in
    elim (dataset path) [ none ↦ none | some rows ↦ found_rows path arid rows ]

-- Rows of `event_outbox` and of `daily_settlement`; a missing amount is 0.
pub record OutboxRow : Type 0 where
  pub id : ℕ
  pub event_id : String
  pub published : Bool
  pub occurred_at : String
  pub published_at : Option String

pub record Settlement : Type 0 where
  pub impressions : ℕ
  pub raw_impressions : ℕ
  pub requests : ℕ
  pub clicks : ℕ
  pub amount : ℕ

pub record Postgres : Type 0 where
  pub connected : Bool
  pub outbox_of : String → Option (List OutboxRow)
  pub settlement_of : String → String → Option (Option Settlement)

pub record PgState : Type 0 where
  pub outbox : Option (List OutboxRow)
  pub settlement : Option Settlement
  pub error : Bool

abbrev pub some_rows : List OutboxRow → Option (List OutboxRow)
some_rows [] = none
some_rows (r ∷ rs) = some (r ∷ rs)

-- The second query of `check_pg`, for an advertisement with a campaign.
unfoldable pub settled : Postgres → Option String → String → Option (Option Settlement)
settled pg none dt = some none
settled pg (some campaign) dt =
    if str_eq campaign "" then some none else pg.settlement_of campaign dt

unfoldable pub check_pg : Postgres → String → Option String → String → PgState
unfolding settled
check_pg pg arid campaign dt =
    let failed : PgState = record { outbox = none; settlement = none; error = true } in
    let answer : PgState = elim (pg.outbox_of arid) [
      | none ↦ failed
      | some rows ↦ elim (settled pg campaign dt) [
        | none ↦ record { outbox = some_rows rows; settlement = none; error = true }
        | some s ↦ record { outbox = some_rows rows; settlement = s; error = false }
      ]
    ] in
    if pg.connected then answer else failed

-- What `inspect` answers: the advertisement with what Kafka has of it, the counts of Redis since it
-- was asked for, the archive's rows, and PostgreSQL's.
pub record Inspection : Type 0 where
  pub play : Play
  pub redis : Option Delta
  pub minio : Option Parquet
  pub postgres : PgState

-- The services at a moment: the messages that a scan polls, Redis, the archive, and PostgreSQL.
pub record Backends : Type 0 where
  pub messages : List Message
  pub read : String → ℕ
  pub hgetall : String → Option (Dict String)
  pub dataset : String → Option (List Archived)
  pub pg : Postgres

-- `targets`: the ids of the events that were sent; one that is missing or empty is none.
unfoldable pub targets_of : List Sent → List String
targets_of [] = []
targets_of (e ∷ es) =
    let rest = targets_of es in
    elim e.event_id [
      | none ↦ rest
      | some null ↦ rest
      | some (num n) ↦ rest
      | some (flag b) ↦ rest
      | some (text id) ↦ if str_eq id "" then rest else id ∷ rest
    ]

-- `inspect` of an advertisement, for the day and hour that were kept with it; the answer for one
-- that is not followed is a 404.
unfoldable pub inspect :
    Backends
    → (bucket dt hour : String) → String
    → (now done : ℕ) → Dict Play × Cached Parquet
    → Option Inspection × (Dict Play × Cached Parquet)
unfolding get put targets_of redis_agg delta through_cache read_hour check_pg
inspect b bucket dt hour arid now done (plays, cache) = elim (get arid plays) [
  | none ↦ (none, (plays, cache))
  | some old ↦
      let play = scan_kafka (targets_of old.event_ids) b.messages old in
      let agg = redis_agg b.read b.hgetall play.campaign play.minute in
      let fresh = read_hour bucket dt hour b.dataset arid in
      let ((was_read, minio), next) = through_cache arid now done fresh cache in
      (
        some record {
          play = play;
          redis = delta agg play.redis_base;
          minio = minio;
          postgres = check_pg b.pg arid play.campaign dt;
        },
        (put arid play plays, next),
      )
]
