-- ===== src/Writer/Upsert/Lasting.antt =====
-- What the consumer of redis-writer/writer.py keeps of the aggregates, for how long.
use ott_ad_pipeline.Base.{
  ℕ, ◌+◌, ◌≤◌, ◌≡◌, refl, sym, subst, ◌∙◌, ap, String, str_eq, eq_iff, Bool, true, false, Option,
  none, some, List, [], ◌∷◌, if◌then◌else◌, Bool-cases, inl, inr, is_some, arith,
}
use ott_ad_pipeline.Base.Dict.{get}
use ott_ad_pipeline.Event.{Event}
use ott_ad_pipeline.Writer.{
  Redis, Counts, ttl_seconds, agg_key, Aggregate, write_agg, write_late, write_alert, Poll, nothing,
  kafka_error, message, consume, consume_all,
}
use ott_ad_pipeline.Writer.Steps.{
  brought, Leaves, refused, passed, counted, late, alerted, consume-Leaves, InOrder, InOrder-le,
}
use ott_ad_pipeline.Writer.Clock.{
  ClockLaws, clock-consume, overdue, Apart, agg_key-Apart, agg_key_ne, expires-write_agg_other,
  expires-write_late, expires-write_alert_other, expires-write_agg,
}
use ott_ad_pipeline.Writer.Upsert.{
  HashLaws, override, at_key, writes, latest, shown, shown-later, InHash, aggregate_of-InHash, live,
  live-live,
}

brought-InHash :
    (instant : String → Option ℕ) (f topic : String) (d : Event) (t : String) (a : Aggregate)
    → InHash f
    → brought instant topic d t ≡ some a
    → is_some (get f a.hash) ≡ true
brought-InHash instant f topic d t a field = elim (Bool-cases (str_eq topic "agg.minute")) [
  | inl e ↦ rw e (aggregate_of-InHash instant f d t a field)
  | inr e ↦ rw e (λ q. absurd (cc q))
]

module _ (r : Redis) (time : ClockLaws r) (laws : HashLaws r time) (instant : String → Option ℕ)
    (dump : Event → String) where
  open time use {clock, expires, has_key}

  -- What is read of a field of a key at an instant.
  abbrev seen : String → String → ℕ → r.Store → Option String
  seen f k n s = get f (r.hgetall k (r.wait n s))

  seen_lem :
      (f k : String) (n : ℕ) (s : r.Store)
      → seen f k n s ≡ live n (expires k s) (get f (r.hgetall k s))
  unfolding get
  seen_lem f k n s = ap (get f) (laws.wait_hash k n s) ∙ go (overdue n (expires k s))
    where
      go :
          (b : Bool)
          → get f (if b then [] else r.hgetall k s) ≡ (if b then none else get f (r.hgetall k s))
      go true = refl
      go false = refl

  seen_same :
      (f k : String) (n : ℕ) (s t : r.Store)
      → expires k t ≡ expires k s
      → get f (r.hgetall k t) ≡ get f (r.hgetall k s)
      → seen f k n t ≡ seen f k n s
  seen_same f k n s t e h =
      seen_lem f k n t
      ∙ ap (λ d. live n d (get f (r.hgetall k t))) e
      ∙ ap (live n (expires k s)) h
      ∙ sym (seen_lem f k n s)

  seen-wait :
      (f k : String) (now n : ℕ) (s : r.Store) → now ≤ n → seen f k n (r.wait now s) ≡ seen f k n s
  seen-wait f k now n s h =
      seen_lem f k n (r.wait now s)
      ∙ ap (λ d. live n d (get f (r.hgetall k (r.wait now s)))) (time.wait_expires k now s)
      ∙ ap (live n (if overdue now (expires k s) then none else expires k s)) (seen_lem f k now s)
      ∙ live-live n now (expires k s) (get f (r.hgetall k s)) h
      ∙ sym (seen_lem f k n s)

  field-write_agg :
      (f k : String) (a : Aggregate) (now : ℕ) (s : r.Store)
      → get f (r.hgetall k (write_agg r instant dump a now s)) ≡ (
          if str_eq (agg_key a.cid a.epoch) k
          then override (get f a.hash) (get f (r.hgetall k s))
          else get f (r.hgetall k s))
  unfolding write_agg
  field-write_agg f k a now s =
      ap (get f) (
        laws.zrem_hash k "agg:index" 0 _ _
        ∙ laws.zadd_hash k "agg:index" _ _ _
        ∙ laws.expire_hash k "agg:campaigns" _ _ (omega arith)
        ∙ laws.sadd_hash k "agg:campaigns" _ _
        ∙ laws.expire_hash k _ _ _ (omega arith))
      ∙ laws.hset_field f k (agg_key a.cid a.epoch) a.hash s

  hash-write_late :
      (k : String) (m : ℕ) (s : r.Store)
      → r.hgetall k (write_late r instant dump m s) ≡ r.hgetall k s
  unfolding write_late
  hash-write_late k m s =
      laws.incr_hash k _ _ ∙ laws.expire_hash k _ _ _ (omega arith) ∙ laws.incr_hash k _ s

  hash-write_alert :
      (k : String) (d : Event) (s : r.Store)
      → r.hgetall k (write_alert r instant dump d s) ≡ r.hgetall k s
  unfolding write_alert
  hash-write_alert k d s =
      laws.incr_hash k _ _
      ∙ laws.expire_hash k _ _ _ (omega arith)
      ∙ laws.ltrim_hash k _ _ _ _
      ∙ laws.lpush_hash k _ _ s

  override_full : (o p : Option String) → is_some o ≡ true → override o p ≡ o
  override_full none p h = absurd (cc h)
  override_full (some v) p h = refl

  -- A hash that is written is read until its time to live is over.
  seen-write_agg :
      (f : String) (n now : ℕ) (a : Aggregate) (s : r.Store)
      → is_some (get f a.hash) ≡ true
      → clock s ≡ now
      → seen f (agg_key a.cid a.epoch) n (write_agg r instant dump a now s)
        ≡ shown f n (some (a.hash, now)) none
  seen-write_agg f n now a s full at =
      let k = agg_key a.cid a.epoch in
      let same = (eq_iff k k).1 refl in
      let put =
        laws.hset_field f k k a.hash s ∙ rw same (override_full _ (get f (r.hgetall k s)) full) in
      let (v, e) = some_value (get f a.hash) full in
      seen_lem f k n (write_agg r instant dump a now s)
      ∙ ap (λ d. live n d (get f (r.hgetall k (write_agg r instant dump a now s))))
          (expires-write_agg r time instant dump a now s (laws.hash_key f k v _ (put ∙ e))
            ∙ ap (λ (m : ℕ). some (m + ttl_seconds)) at)
      ∙ ap (live n (some (now + ttl_seconds)))
          (field-write_agg f k a now s ∙ rw same (override_full _ (get f (r.hgetall k s)) full))
    where
      some_value : (o : Option String) → is_some o ≡ true → (v : String) × (o ≡ some v)
      some_value none h = absurd (cc h)
      some_value (some v) h = (v, refl)

  seen-write_agg_other :
      (f k : String) (n now : ℕ) (a : Aggregate) (s : r.Store)
      → Apart k
      → str_eq (agg_key a.cid a.epoch) k ≡ false
      → seen f k n (write_agg r instant dump a now s) ≡ seen f k n s
  seen-write_agg_other f k n now a s apart e =
      seen_same f k n s (write_agg r instant dump a now s)
        (expires-write_agg_other r time instant dump k a now s apart e)
        (field-write_agg f k a now s ∙ rw e refl)

  seen-consume :
      (f cid : String) (epoch n : ℕ) (topic : String) (d : Event) (now : ℕ) (t : String)
      (s : r.Store) (c : Counts)
      → InHash f
      → clock s ≤ now
      → now ≤ n
      → seen f
          (agg_key cid epoch)
          n
          (consume r instant dump (message topic (some d) now t) (s, c)).0
        ≡ shown f n
            (writes instant (agg_key cid epoch) (message topic (some d) now t))
            (seen f (agg_key cid epoch) n s)
  seen-consume f cid epoch n topic d now t s c field before after =
      go _ (consume-Leaves r instant dump topic d now t s c)
    where
      k : String
      k = agg_key cid epoch

      waited : seen f (agg_key cid epoch) n (r.wait now s) ≡ seen f (agg_key cid epoch) n s
      waited = seen-wait f (agg_key cid epoch) now n s after

      apart : Apart (agg_key cid epoch)
      apart = agg_key-Apart cid epoch

      go :
          (s' : r.Store)
          → Leaves r instant dump topic d now t s s'
          → seen f (agg_key cid epoch) n s'
            ≡ shown f n
                (at_key (agg_key cid epoch) now (brought instant topic d t))
                (seen f (agg_key cid epoch) n s)
      go _ (refused e _) = rw e refl
      go _ (passed e _) = rw e waited
      go _ (late m e _) = rw e (
          seen_same f (agg_key cid epoch) n (r.wait now s)
            (write_late r instant dump m (r.wait now s))
            (expires-write_late r time instant dump (agg_key cid epoch) m (r.wait now s) apart)
            (ap (get f) (hash-write_late (agg_key cid epoch) m (r.wait now s)))
          ∙ waited)
      go _ (alerted e _) = rw e (
          seen_same f (agg_key cid epoch) n (r.wait now s)
            (write_alert r instant dump d (r.wait now s))
            (expires-write_alert_other r time instant dump (agg_key cid epoch) d (r.wait now s)
              (agg_key_ne cid epoch))
            (ap (get f) (hash-write_alert (agg_key cid epoch) d (r.wait now s)))
          ∙ waited)
      go _ (counted a e _) =
          elim (Bool-cases (str_eq (agg_key a.cid a.epoch) (agg_key cid epoch))) [
            | inl q ↦
                rw (e, q)
                  (subst
                    (λ j.
                      seen f j n (write_agg r instant dump a now (r.wait now s))
                      ≡ shown f n (some (a.hash, now)) none)
                    ((eq_iff _ _).0 q)
                    (seen-write_agg f n now a (r.wait now s)
                      (brought-InHash instant f topic d t a field e)
                      (time.wait_clock now s before)))
            | inr q ↦
                rw (e, q)
                  (seen-write_agg_other f (agg_key cid epoch) n now a (r.wait now s) apart q
                    ∙ waited)
          ]

  -- Whatever the consumer reads, at times that do not decrease: at an instant after it, each field of
  -- a campaign's minute in Redis is what the last aggregate for them says, if it came less than 48
  -- hours before, and nothing if it came earlier. If none came, it is what it would be without the
  -- messages. Every pipeline is executed, and the clocks of Redis and of the program agree.
  pub field-consume_all :
      (f cid : String) (epoch n from : ℕ) (ms : List Poll) (s : r.Store) (c : Counts)
      → InHash f
      → clock s ≤ from
      → InOrder from ms n
      → get f (r.hgetall (agg_key cid epoch) (r.wait n (consume_all r instant dump ms (s, c)).0))
        ≡ shown f n
            (latest instant (agg_key cid epoch) ms)
            (get f (r.hgetall (agg_key cid epoch) (r.wait n s)))
  unfolding consume_all consume
  field-consume_all f cid epoch n from [] s c field h o = refl
  field-consume_all f cid epoch n from (nothing ∷ ms) s c field h o =
      field-consume_all f cid epoch n from ms s c field h o
      ∙ sym (shown-later f n (latest instant (agg_key cid epoch) ms) none _)
  field-consume_all f cid epoch n from (kafka_error true ∷ ms) s c field h o =
      field-consume_all f cid epoch n from ms s c field h o
      ∙ sym (shown-later f n (latest instant (agg_key cid epoch) ms) none _)
  field-consume_all f cid epoch n from (kafka_error false ∷ ms) s c field h o =
      field-consume_all f cid epoch n from ms s _ field h o
      ∙ sym (shown-later f n (latest instant (agg_key cid epoch) ms) none _)
  field-consume_all f cid epoch n from (message topic none now t ∷ ms) s c field h o =
      field-consume_all f cid epoch n now ms s _ field (omega (arith, h, o.0)) o.1
      ∙ sym (shown-later f n (latest instant (agg_key cid epoch) ms) none _)
  field-consume_all f cid epoch n from (message topic (some d) now t ∷ ms) s c field h (le, o) =
      let k = agg_key cid epoch in
      let before : clock s ≤ now = omega (arith, h, le) in
      let p = consume r instant dump (message topic (some d) now t) (s, c) in
      field-consume_all f cid epoch n now ms p.0 p.1 field
        (clock-consume r time instant dump topic d now t s c before) o
      ∙ ap (shown f n (latest instant k ms))
          (seen-consume f cid epoch n topic d now t s c field before (InOrder-le now n ms o))
      ∙ sym (
          shown-later f n (latest instant k ms) (writes instant k (message topic (some d) now t))
            (seen f k n s))
