-- ===== src/Writer/Queue.antt =====
-- The list of recent alerts that the consumer of redis-writer/writer.py keeps.
use ott_ad_pipeline.Base.{
  ℕ, zero, suc, ◌+◌, ◌≤◌, ◌<◌, ◌≡◌, refl, sym, ◌∙◌, ap, String, str_eq, Bool, true, false, Option,
  none, some, List, [], ◌∷◌, take, if◌then◌else◌, arith,
}
use ott_ad_pipeline.Base.Dict.{Dict}
use ott_ad_pipeline.Base.Text.{prefix_ne}
use ott_ad_pipeline.Event.{Event}
use ott_ad_pipeline.Calendar.{minute_stamp}
use ott_ad_pipeline.Writer.{
  Redis, Counts, ttl_seconds, Aggregate, write_agg, write_late, write_alert, Poll, nothing,
  kafka_error, message, consume, consume_all,
}
use ott_ad_pipeline.Writer.Steps.{
  Leaves, refused, passed, counted, late, alerted, consume-Leaves, InOrder,
}
use ott_ad_pipeline.Writer.Clock.{
  ClockLaws, overdue, kept, kept-kept, alerts-Apart, agg_other, clock-consume,
  expires-write_agg_other, expires-write_late, expires-write_alert,
}

-- What Redis documents of its lists: LPUSH puts a value in front, LTRIM keeps a range with both
-- ends, and a command leaves the keys alone that it does not name. EXPIRE removes nothing before
-- the time that it is given, at least a second, and a list whose end is reached is gone.
pub record ListLaws (r : Redis) (time : ClockLaws r) : Type 0 where
  pub lpush_same : (k v : String) (s : r.Store) → r.list_at k (r.lpush k v s) ≡ v ∷ r.list_at k s
  pub ltrim_same :
      (k : String) (n : ℕ) (s : r.Store)
      → r.list_at k (r.ltrim k 0 n s) ≡ take (suc n) (r.list_at k s)
  pub wait_list :
      (k : String) (n : ℕ) (s : r.Store)
      → r.list_at k (r.wait n s) ≡ kept n (time.expires k s) (r.list_at k s)
  pub list_key :
      (k v : String) (l : List String) (s : r.Store)
      → r.list_at k s ≡ v ∷ l
      → time.has_key k s ≡ true
  pub expire_any :
      (k j : String) (t : ℕ) (s : r.Store) → 0 < t → r.list_at k (r.expire j t s) ≡ r.list_at k s
  pub incr_other :
      (k j : String) (s : r.Store) → str_eq j k ≡ false → r.list_at k (r.incr j s) ≡ r.list_at k s
  pub hset_other :
      (k j : String) (h : Dict String) (s : r.Store)
      → str_eq j k ≡ false
      → r.list_at k (r.hset j h s) ≡ r.list_at k s
  pub sadd_other :
      (k j v : String) (s : r.Store)
      → str_eq j k ≡ false
      → r.list_at k (r.sadd j v s) ≡ r.list_at k s
  pub zadd_other :
      (k j v : String) (n : ℕ) (s : r.Store)
      → str_eq j k ≡ false
      → r.list_at k (r.zadd j v n s) ≡ r.list_at k s
  pub zrem_other :
      (k j : String) (a b : ℕ) (s : r.Store)
      → str_eq j k ≡ false
      → r.list_at k (r.zremrangebyscore j a b s) ≡ r.list_at k s

abbrev pub recent : String
recent = "alerts:recent"

take-cons-take :
    (n : ℕ) (x : String) (l : List String)
    → take (suc n) (x ∷ take (suc n) l) ≡ take (suc n) (x ∷ l)
take-cons-take n x l = ap (λ t. x ∷ t) (take-take n l)
  where
    take-take : (n : ℕ) (l : List String) → take n (take (suc n) l) ≡ take n l
    take-take zero l = refl
    take-take (suc n) [] = refl
    take-take (suc n) (y ∷ l) = ap (λ t. y ∷ t) (take-take n l)

-- The alerts that are kept after a message, and until when.
abbrev pub next :
    (Event → String) → String → Event → ℕ → List String → Option ℕ → List String × Option ℕ
next dump topic d now older end =
    if str_eq topic "alert.anomaly"
    then (dump d ∷ kept now end older, some (now + ttl_seconds))
    else (older, end)

-- The texts of the alerts that are read at an instant, newest first. Before each message is what is
-- kept, and until when.
unfoldable pub alert_history :
    (Event → String) → ℕ → List Poll → List String → Option ℕ → List String
alert_history dump n [] older d = kept n d older
alert_history dump n (message topic (some ev) now t ∷ ms) older d =
    alert_history dump n ms (next dump topic ev now older d).0 (next dump topic ev now older d).1
alert_history dump n (m ∷ ms) older d = alert_history dump n ms older d

take-kept : (n m : ℕ) (d : Option ℕ) (l : List String) → take n (kept m d l) ≡ kept m d (take n l)
take-kept n m d l = go (overdue m d) n
  where
    go : (b : Bool) (n : ℕ) → take n (if b then [] else l) ≡ (if b then [] else take n l)
    go true zero = refl
    go true (suc n) = refl
    go false n = refl

module _ (r : Redis) (time : ClockLaws r) (laws : ListLaws r time) (instant : String → Option ℕ)
    (dump : Event → String) where
  open time use {clock, expires, has_key}

  list-write_agg :
      (a : Aggregate) (now : ℕ) (s : r.Store)
      → r.list_at recent (write_agg r instant dump a now s) ≡ r.list_at recent s
  unfolding write_agg
  list-write_agg a now s =
      laws.zrem_other recent "agg:index" 0 _ _ refl
      ∙ laws.zadd_other recent "agg:index" _ _ _ refl
      ∙ laws.expire_any recent "agg:campaigns" _ _ (omega arith)
      ∙ laws.sadd_other recent "agg:campaigns" _ _ refl
      ∙ laws.expire_any recent _ _ _ (omega arith)
      ∙ laws.hset_other recent _ _ s (agg_other a)

  list-write_late :
      (m : ℕ) (s : r.Store) → r.list_at recent (write_late r instant dump m s) ≡ r.list_at recent s
  unfolding write_late
  list-write_late m s =
      laws.incr_other recent "late:total" _ refl
      ∙ laws.expire_any recent _ _ _ (omega arith)
      ∙ laws.incr_other recent _ s (prefix_ne "late:1m:" (minute_stamp m) recent refl)

  list-lpush :
      (d : Event) (s : r.Store)
      → r.list_at recent (r.ltrim recent 0 99 (r.lpush recent (dump d) s))
        ≡ take 100 (dump d ∷ r.list_at recent s)
  list-lpush d s = laws.ltrim_same recent 99 _ ∙ ap (take 100) (laws.lpush_same recent (dump d) s)

  list-write_alert :
      (d : Event) (s : r.Store)
      → r.list_at recent (write_alert r instant dump d s) ≡ take 100 (dump d ∷ r.list_at recent s)
  unfolding write_alert
  list-write_alert d s =
      laws.incr_other recent "alerts:total" _ refl
      ∙ laws.expire_any recent recent _ _ (omega arith)
      ∙ list-lpush d s

  -- What is read of the alerts at any instant from `from` on.
  abbrev pub Holds : ℕ → r.Store → List String → Option ℕ → Type 0
  Holds from s older d =
      (n : ℕ) → from ≤ n → r.list_at recent (r.wait n s) ≡ take 100 (kept n d older)

  list-wait :
      (now n : ℕ) (s : r.Store)
      → now ≤ n
      → r.list_at recent (r.wait n (r.wait now s)) ≡ r.list_at recent (r.wait n s)
  list-wait now n s h =
      laws.wait_list recent n (r.wait now s)
      ∙ ap (λ d. kept n d (r.list_at recent (r.wait now s))) (time.wait_expires recent now s)
      ∙ ap (kept n (if overdue now (expires recent s) then none else expires recent s))
          (laws.wait_list recent now s)
      ∙ kept-kept n now (expires recent s) (r.list_at recent s) h
      ∙ sym (laws.wait_list recent n s)

  list_same :
      (n : ℕ) (s t : r.Store)
      → expires recent t ≡ expires recent s
      → r.list_at recent t ≡ r.list_at recent s
      → r.list_at recent (r.wait n t) ≡ r.list_at recent (r.wait n s)
  list_same n s t e h =
      laws.wait_list recent n t
      ∙ ap (λ d. kept n d (r.list_at recent t)) e
      ∙ ap (kept n (expires recent s)) h
      ∙ sym (laws.wait_list recent n s)

  Holds-alert :
      (now n : ℕ) (d : Event) (s : r.Store) (older : List String)
      → clock s ≡ now
      → r.list_at recent s ≡ take 100 older
      → r.list_at recent (r.wait n (write_alert r instant dump d s))
        ≡ take 100 (kept n (some (now + ttl_seconds)) (dump d ∷ older))
  Holds-alert now n d s older at h =
      laws.wait_list recent n (write_alert r instant dump d s)
      ∙ ap (λ e. kept n e (r.list_at recent (write_alert r instant dump d s)))
          (expires-write_alert r time instant dump d s (laws.list_key recent _ _ _ (list-lpush d s))
            ∙ ap (λ (m : ℕ). some (m + ttl_seconds)) at)
      ∙ ap (kept n (some (now + ttl_seconds))) (
          list-write_alert d s
          ∙ ap (λ l. take 100 (dump d ∷ l)) h
          ∙ take-cons-take 99 (dump d) older)
      ∙ sym (take-kept 100 n (some (now + ttl_seconds)) (dump d ∷ older))

  consume-Holds :
      (from : ℕ) (topic : String) (d : Event) (now : ℕ) (t : String) (s : r.Store) (c : Counts)
      (older : List String) (end : Option ℕ)
      → clock s ≤ now
      → from ≤ now
      → Holds from s older end
      → Holds now
          (consume r instant dump (message topic (some d) now t) (s, c)).0
          (next dump topic d now older end).0
          (next dump topic d now older end).1
  consume-Holds from topic d now t s c older end before le h n later =
      go _ (consume-Leaves r instant dump topic d now t s c)
    where
      waited : r.list_at recent (r.wait n (r.wait now s)) ≡ take 100 (kept n end older)
      waited = list-wait now n s later ∙ h n (omega (arith, later, le))

      go :
          (s' : r.Store)
          → Leaves r instant dump topic d now t s s'
          → r.list_at recent (r.wait n s')
            ≡ take 100
                (kept n (next dump topic d now older end).1 (next dump topic d now older end).0)
      go _ (refused _ e) = rw e (h n (omega (arith, later, le)))
      go _ (passed _ e) = rw e waited
      go _ (counted a _ e) = rw e (
          list_same n (r.wait now s) (write_agg r instant dump a now (r.wait now s))
            (expires-write_agg_other r time instant dump recent a now (r.wait now s) alerts-Apart
              (agg_other a))
            (list-write_agg a now (r.wait now s))
          ∙ waited)
      go _ (late m _ e) = rw e (
          list_same n (r.wait now s) (write_late r instant dump m (r.wait now s))
            (expires-write_late r time instant dump recent m (r.wait now s) alerts-Apart)
            (list-write_late m (r.wait now s))
          ∙ waited)
      go _ (alerted _ e) = rw e (
          Holds-alert now n d (r.wait now s) (kept now end older) (time.wait_clock now s before)
            (h now le))

  -- If Redis shows the newest hundred of the older alerts, for as long as they are kept, then after
  -- any polls, of valid messages or not, at times that do not decrease, it shows the newest hundred of
  -- all alerts that are kept, newest first: an alert keeps those before it for another 48 hours, and
  -- all are gone when 48 hours have passed without one. Every pipeline is executed.
  pub list-consume_all :
      (from n : ℕ) (ms : List Poll) (s : r.Store) (c : Counts) (older : List String)
      (end : Option ℕ)
      → clock s ≤ from
      → InOrder from ms n
      → Holds from s older end
      → r.list_at recent (r.wait n (consume_all r instant dump ms (s, c)).0)
        ≡ take 100 (alert_history dump n ms older end)
  unfolding consume_all consume alert_history
  list-consume_all from n [] s c older end at o h = h n o
  list-consume_all from n (nothing ∷ ms) s c older end at o h =
      list-consume_all from n ms s c older end at o h
  list-consume_all from n (kafka_error true ∷ ms) s c older end at o h =
      list-consume_all from n ms s c older end at o h
  list-consume_all from n (kafka_error false ∷ ms) s c older end at o h =
      list-consume_all from n ms s _ older end at o h
  list-consume_all from n (message topic none now t ∷ ms) s c older end at o h =
      list-consume_all now n ms s _ older end (omega (arith, at, o.0)) o.1
        (λ m k. h m (omega (arith, k, o.0)))
  list-consume_all from n (message topic (some d) now t ∷ ms) s c older end at (le, o) h =
      let before : clock s ≤ now = omega (arith, at, le) in
      let p = consume r instant dump (message topic (some d) now t) (s, c) in
      list-consume_all now n ms p.0 p.1 (next dump topic d now older end).0
        (next dump topic d now older end).1
        (clock-consume r time instant dump topic d now t s c before) o
        (consume-Holds from topic d now t s c older end before le h)
