-- ===== src/Generator/Emitter/Injection.antt =====
-- What `emit` sends when it injects an anomaly.
use ott_ad_pipeline.Base.{
  ap, ℕ, ◌+◌, ◌-◌, ◌≤◌, ◌<◌, ◌≡◌, refl, ◌∙◌, String, str_eq, Bool, true, false, arith,
  if◌then◌else◌, [], ◌∷◌, ◌++◌, some,
}
use ott_ad_pipeline.Base.Dict.{get, put, get-put}
use ott_ad_pipeline.Event.{Value, num, text, flag, Event}
use ott_ad_pipeline.Generator.Rng.{Rng, random, advance, chance, uniform}
use ott_ad_pipeline.Generator.Emitter.{
  Emitter, delayed, bump_stat, buffer_post, drawn, route, twin_of, is_impression, inject_ssai,
  inject_late, inject_dup,
}

-- ## The second path of an impression

get-twin_of :
    (ev : Event) (id : Value) (fresh k : String)
    → get k (twin_of ev id fresh) ≡ (
        if str_eq "ssai_twin_of" k
        then some id
        else if str_eq "source" k
        then some (text "server")
        else if str_eq "event_id" k
        then some (text fresh)
        else get k ev)
unfolding twin_of
get-twin_of ev id fresh k = ground (
  arith,
  get-put "ssai_twin_of" k id (put "source" (text "server") (put "event_id" (text fresh) ev)),
  get-put "source" k (text "server") (put "event_id" (text fresh) ev),
  get-put "event_id" k (text fresh) ev,
)

route_server-buf : (ev : Event) (e : Emitter) → (route ev false false e).buf ≡ e.buf ++ ev ∷ []
unfolding route buffer_post bump_stat
route_server-buf ev e = refl

-- What the second event of an impression says, key by key.
pub record IsTwin (ev : Event) (id : Value) (fresh : String) (twin : Event) : Type 0 where
  pub own_id : get "event_id" twin ≡ some (text fresh)
  pub server : get "source" twin ≡ some (text "server")
  pub names : get "ssai_twin_of" twin ≡ some id
  pub same_request : get "ad_request_id" twin ≡ get "ad_request_id" ev
  pub same_type : get "event_type" twin ≡ get "event_type" ev
  pub same_campaign : get "campaign_id" twin ≡ get "campaign_id" ev
  pub same_time : get "event_time" twin ≡ get "event_time" ev

twin_of-IsTwin :
    (ev : Event) (id : Value) (fresh : String) → IsTwin ev id fresh (twin_of ev id fresh)
twin_of-IsTwin ev id fresh = record {
  own_id = get-twin_of ev id fresh "event_id";
  server = get-twin_of ev id fresh "source";
  names = get-twin_of ev id fresh "ssai_twin_of";
  same_request = get-twin_of ev id fresh "ad_request_id";
  same_type = get-twin_of ev id fresh "event_type";
  same_campaign = get-twin_of ev id fresh "campaign_id";
  same_time = get-twin_of ev id fresh "event_time";
}

-- If the draw asks for it, an impression with an id puts one event more in the batch buffer: with a
-- new id, from the server, naming the impression, and with its request id, type, campaign and time.
pub inject_ssai-IsTwin :
    (ev : Event) (fresh : String) (e : Emitter) (id : Value)
    → is_impression ev ≡ true
    → chance e.anom.ssai e.rng ≡ true
    → get "event_id" ev ≡ some id
    → (twin : Event) × (e' : Emitter) × (inject_ssai ev fresh e ≡ some e')
      × (e'.buf ≡ e.buf ++ twin ∷ [])
      × IsTwin ev id fresh twin
unfolding inject_ssai bump_stat drawn
inject_ssai-IsTwin ev fresh e id p q r = (
  twin_of ev id fresh,
  route (twin_of ev id fresh) false false (bump_stat "a.ssai" 1 (drawn e)),
  rw (p, inject_ssai) (rw (q, inject_ssai) (rw (r, inject_ssai))),
  route_server-buf (twin_of ev id fresh) (bump_stat "a.ssai" 1 (drawn e)),
  twin_of-IsTwin ev id fresh,
)

-- ## Delay

delay_bounds : (r : Rng) → (30000 ≤ uniform 30000 60000 r) × (uniform 30000 60000 r < 60000)
unfolding uniform random
delay_bounds r = omega arith

-- If the draw asks for it, an event whose time is at least a minute after the epoch is moved into
-- the past by at least 30 and less than 60 seconds, marked `_late`, and keeps every other key.
pub inject_late_lem :
    (ev : Event) (e : Emitter) (t : ℕ)
    → chance e.anom.late e.rng ≡ true
    → get "event_time" ev ≡ some (num t)
    → 60000 ≤ t
    → (late : Event) × (e' : Emitter) × (t' : ℕ) × (inject_late ev e ≡ some (late, e'))
      × (get "event_time" late ≡ some (num t'))
      × (t < t' + 60000)
      × (t' + 30000 ≤ t)
      × (get "_late" late ≡ some (flag true))
      × ((k : String)
          → get k late ≡ (
              if str_eq "_late" k
              then some (flag true)
              else if str_eq "event_time" k
              then some (num t')
              else get k ev))
unfolding inject_late
inject_late_lem ev e t p q h =
    let r = advance e.rng in
    let d = uniform 30000 60000 r in
    let moved = put "event_time" (num (t - d)) ev in
    (
      put "_late" (flag true) moved,
      bump_stat "a.late" 1 (drawn (drawn e)),
      t - d,
      rw (p, inject_late) (rw (q, inject_late)),
      get-put "_late" "event_time" (flag true) moved
          ∙ get-put "event_time" "event_time" (num (t - d)) ev,
      omega (arith, delay_bounds r),
      omega (arith, delay_bounds r),
      get-put "_late" "_late" (flag true) moved,
      λ k.
          get-put "_late" k (flag true) moved
          ∙ ap (λ o. if str_eq "_late" k then some (flag true) else o)
              (get-put "event_time" k (num (t - d)) ev),
    )

-- ## Resending

-- If the draw asks for it, a copy is left to a task of its own: with the event's id, type and
-- request, and a wait of at least half a second and less than three.
pub inject_dup_lem :
    (ev : Event) (allow : Bool) (e : Emitter)
    → chance e.anom.dup e.rng ≡ true
    → (copy : Event) × (ms : ℕ) × ((inject_dup ev allow e).inflight
        ≡ e.inflight ++ delayed copy ms allow ∷ [])
      × (500 ≤ ms)
      × (ms < 3000)
      × (get "_dup" copy ≡ some (flag true))
      × ((k : String) → get k copy ≡ (if str_eq "_dup" k then some (flag true) else get k ev))
unfolding inject_dup bump_stat drawn uniform random
inject_dup_lem ev allow e p = (
  put "_dup" (flag true) ev,
  uniform 500 3000 (advance e.rng),
  rw (p, inject_dup),
  omega arith,
  omega arith,
  get-put "_dup" "_dup" (flag true) ev,
  λ k. get-put "_dup" k (flag true) ev,
)
