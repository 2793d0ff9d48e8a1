-- ===== src/Writer/Api/Alerts.antt =====
-- The alerts that redis-writer/writer.py gives out again at /alerts, from the messages that its
-- consumer read.
use ott_ad_pipeline.Base.{
  Bool, true, false, ◌+◌, ℕ, zero, suc, ◌≤◌, ◌≡◌, refl, ap, ◌∙◌, arith, String, str_eq, Option,
  none, some, List, [], ◌∷◌, map, take, All, if◌then◌else◌, Bool-cases, inl, inr,
}
use ott_ad_pipeline.Base.Int.{pos, ◌-ℤ◌}
use ott_ad_pipeline.Event.{Event}
use ott_ad_pipeline.Writer.{
  ttl_seconds, Redis, Counts, Poll, nothing, kafka_error, message, consume_all,
}
use ott_ad_pipeline.Writer.Api.{
  Query, first_or, lrange, alerts, load_all, Parsers, read_store, do_get,
}
use ott_ad_pipeline.Writer.Clock.{ClockLaws, overdue, kept}
use ott_ad_pipeline.Writer.Steps.{InOrder}
use ott_ad_pipeline.Writer.Queue.{ListLaws, recent, alert_history, Holds, list-consume_all}

-- The alerts that are kept after a message, and until when.
abbrev pub next_events : String → Event → ℕ → List Event → Option ℕ → List Event × Option ℕ
next_events topic d now older end =
    if str_eq topic "alert.anomaly"
    then (d ∷ kept now end older, some (now + ttl_seconds))
    else (older, end)

-- The alerts of some polls that are kept at an instant, newest first.
unfoldable pub alert_events : ℕ → List Poll → List Event → Option ℕ → List Event
alert_events n [] older end = kept n end older
alert_events n (message topic (some d) now t ∷ ms) older end =
    alert_events n ms (next_events topic d now older end).0 (next_events topic d now older end).1
alert_events n (m ∷ ms) older end = alert_events n ms older end

map-kept :
    (f : Event → String) (n : ℕ) (end : Option ℕ) (l : List Event)
    → kept n end (map f l) ≡ map f (kept n end l)
map-kept f n end l = go (overdue n end)
  where
    go : (b : Bool) → (if b then [] else map f l) ≡ map f (if b then [] else l)
    go true = refl
    go false = refl

take-map : (f : Event → String) (n : ℕ) (xs : List Event) → take n (map f xs) ≡ map f (take n xs)
take-map f zero xs = refl
take-map f (suc n) [] = refl
take-map f (suc n) (x ∷ xs) = ap (λ l. f x ∷ l) (take-map f n xs)

take-take : (n m : ℕ) (xs : List String) → n ≤ m → take n (take m xs) ≡ take n xs
take-take zero m xs h = refl
take-take (suc n) zero xs h = absurd (omega (arith, h))
take-take (suc n) (suc m) [] h = refl
take-take (suc n) (suc m) (x ∷ xs) h = ap (λ l. x ∷ l) (take-take n m xs (omega (arith, h)))

less_one : (k : ℕ) → pos (suc k) -ℤ pos 1 ≡ pos k
unfolding ◌-ℤ◌
less_one k = ground arith

-- `json.loads` gives back what `json.dumps` made of an event.
abbrev pub Reads : (String → Option Event) → (Event → String) → Event → Type 0
Reads loads dump d = loads (dump d) ≡ some d

All-take : (P : Event → Type 0) (n : ℕ) (ds : List Event) → All P ds → All P (take n ds)
All-take P zero ds h = tt
All-take P (suc n) [] h = tt
All-take P (suc n) (d ∷ ds) h = (h.0, All-take P n ds h.1)

load_all-map :
    (loads : String → Option Event) (dump : Event → String) (ds : List Event)
    → All (Reads loads dump) ds
    → load_all loads (map dump ds) ≡ some ds
unfolding load_all
load_all-map loads dump [] h = refl
load_all-map loads dump (d ∷ ds) h = rw h.0 (rw (load_all-map loads dump ds h.1) refl)

history-events :
    (dump : Event → String) (n : ℕ) (ms : List Poll) (older : List Event) (end : Option ℕ)
    → alert_history dump n ms (map dump older) end ≡ map dump (alert_events n ms older end)
unfolding alert_history alert_events
history-events dump n [] older end = map-kept dump n end older
history-events dump n (nothing ∷ ms) older end = history-events dump n ms older end
history-events dump n (kafka_error b ∷ ms) older end = history-events dump n ms older end
history-events dump n (message topic none now t ∷ ms) older end = history-events dump n ms older end
history-events dump n (message topic (some d) now t ∷ ms) older end =
    elim (Bool-cases (str_eq topic "alert.anomaly")) [
      | inl e ↦ rw e (
          ap (λ l. alert_history dump n ms (dump d ∷ l) (some (now + ttl_seconds)))
            (map-kept dump now end older)
          ∙ history-events dump n ms (d ∷ kept now end older) (some (now + ttl_seconds)))
      | inr e ↦ rw e (history-events dump n ms older end)
    ]

module _ (p : Parsers) (r : Redis) (time : ClockLaws r) (laws : ListLaws r time)
    (instant : String → Option ℕ) (dump : Event → String) where
  none_held :
      (from : ℕ) (s : r.Store)
      → r.list_at recent s ≡ []
      → Holds r time laws instant dump from s [] none
  none_held from s e n h =
      laws.wait_list recent n s
      ∙ ap (kept n (time.expires recent s)) e
      ∙ go (overdue n (time.expires recent s))
    where
      go : (b : Bool) → ◌≡◌ {A = List String} (if b then [] else []) []
      go true = refl
      go false = refl

  -- If `json.loads` undoes `json.dumps` on the alerts that are kept, and Redis held no alert at the
  -- start, then after any polls, at times that do not decrease, a request for up to a hundred alerts,
  -- and at least one, is answered with the newest so many of the alerts that are kept, newest first
  -- and as they came: those with less than 48 hours from each to the next and to the request.
  pub do_get-alerts :
      (from : ℕ) (ms : List Poll) (s : r.Store) (c : Counts) (q : Query) (k uptime : ℕ)
      (today : String) (now : ℕ)
      → time.clock s ≤ from
      → InOrder from ms now
      → All (Reads p.loads dump) (alert_events now ms [] none)
      → r.list_at recent s ≡ []
      → p.int_of (first_or "limit" "20" q) ≡ some (pos (suc k))
      → suc k ≤ 100
      → do_get p r "/alerts" q c uptime today now
          (some (r.wait now (consume_all r instant dump ms (s, c)).0))
        ≡ alerts (take (suc k) (alert_events now ms [] none))
  unfolding do_get read_store lrange
  do_get-alerts from ms s c q k uptime today now at o loads empty limit few =
      let es = alert_events now ms [] none in
      let kept_now =
        list-consume_all r time laws instant dump from now ms s c [] none at o
          (none_held from s empty)
        ∙ ap (take 100) (history-events dump now ms [] none) in
      let asked =
        ap (take (suc k)) kept_now
        ∙ take-take (suc k) 100 (map dump es) few
        ∙ take-map dump (suc k) es in
      rw (limit, do_get, read_store)
        (rw (less_one k) (
          rw asked (
            rw
              (load_all-map p.loads dump (take (suc k) es)
                (All-take (Reads p.loads dump) (suc k) es loads))
              refl)))
