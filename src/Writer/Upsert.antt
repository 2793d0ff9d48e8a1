-- ===== src/Writer/Upsert.antt =====
-- The aggregates that the consumer of redis-writer/writer.py keeps: Redis as a map from a campaign
-- and minute to the last message for it, for the time that it lives.
pub mod Lasting
pub mod Served
use mathlib.Core.Option.{some-injective, none-ne-some}
use ott_ad_pipeline.Base.{
  ℕ, ◌+◌, ◌≤◌, ◌<◌, ◌≡◌, refl, sym, subst, ◌∙◌, ap, leb, String, str_eq, eq_iff, Bool, true, false,
  Option, none, some, List, [], ◌∷◌, if◌then◌else◌, Bool-cases, Option-cases, inl, inr, ◌>>=◌,
  is_some, arith,
}
use ott_ad_pipeline.Base.Dict.{Dict, get}
use ott_ad_pipeline.Event.{Event, get_text}
use ott_ad_pipeline.Writer.{
  Redis, Counts, ttl_seconds, agg_key, Aggregate, aggregate_of, required, sent, hash_fields,
  write_agg, write_late, write_alert, Poll, nothing, kafka_error, message, consume, consume_all,
}
use ott_ad_pipeline.Writer.Steps.{
  brought, Leaves, refused, passed, counted, late, alerted, consume-Leaves, InOrder, InOrder-le,
}
use ott_ad_pipeline.Writer.Clock.{
  ClockLaws, overdue, kept, Apart, agg_key-Apart, agg_key_ne, clock-write_agg, clock-write_late,
  clock-write_alert, expires-write_agg_other, expires-write_late, expires-write_alert_other,
  expires-write_agg,
}

abbrev pub override : Option String → Option String → Option String
override none old = old
override (some v) old = some v

-- What Redis documents of its hashes: HSET sets the given fields of one key; a command for another
-- type changes no hash; EXPIRE removes nothing before the time that it is given, at least a second;
-- and a hash whose end is reached is gone.
pub record HashLaws (r : Redis) (time : ClockLaws r) : Type 0 where
  pub hset_field :
      (f k j : String) (h : Dict String) (s : r.Store)
      → get f (r.hgetall k (r.hset j h s))
        ≡ (if str_eq j k then override (get f h) (get f (r.hgetall k s)) else get f (r.hgetall k s))
  pub wait_hash :
      (k : String) (n : ℕ) (s : r.Store)
      → r.hgetall k (r.wait n s) ≡ kept n (time.expires k s) (r.hgetall k s)
  pub hash_key :
      (f k v : String) (s : r.Store) → get f (r.hgetall k s) ≡ some v → time.has_key k s ≡ true
  pub expire_hash :
      (k j : String) (t : ℕ) (s : r.Store) → 0 < t → r.hgetall k (r.expire j t s) ≡ r.hgetall k s
  pub incr_hash : (k j : String) (s : r.Store) → r.hgetall k (r.incr j s) ≡ r.hgetall k s
  pub lpush_hash : (k j v : String) (s : r.Store) → r.hgetall k (r.lpush j v s) ≡ r.hgetall k s
  pub ltrim_hash :
      (k j : String) (a b : ℕ) (s : r.Store) → r.hgetall k (r.ltrim j a b s) ≡ r.hgetall k s
  pub sadd_hash : (k j v : String) (s : r.Store) → r.hgetall k (r.sadd j v s) ≡ r.hgetall k s
  pub zadd_hash :
      (k j v : String) (n : ℕ) (s : r.Store) → r.hgetall k (r.zadd j v n s) ≡ r.hgetall k s
  pub zrem_hash :
      (k j : String) (a b : ℕ) (s : r.Store)
      → r.hgetall k (r.zremrangebyscore j a b s) ≡ r.hgetall k s

-- The hash that is written under a key last, and when.
abbrev pub Written : Type 0
Written = Option (Dict String × ℕ)

abbrev pub later : Written → Written → Written
later none old = old
later (some w) old = some w

abbrev pub at_key : String → ℕ → Option Aggregate → Written
at_key k now none = none
at_key k now (some a) = if str_eq (agg_key a.cid a.epoch) k then some (a.hash, now) else none

abbrev pub writes : (String → Option ℕ) → String → Poll → Written
writes instant k (message topic (some d) now t) = at_key k now (brought instant topic d t)
writes instant k (message topic none now t) = none
writes instant k nothing = none
writes instant k (kafka_error b) = none

abbrev pub latest : (String → Option ℕ) → String → List Poll → Written
latest instant k [] = none
latest instant k (m ∷ ms) = later (latest instant k ms) (writes instant k m)

-- What is read of a field at an instant: what was written last, until its time to live is over.
abbrev pub shown : String → ℕ → Written → Option String → Option String
shown f n none old = old
shown f n (some (h, at)) old = if leb (at + ttl_seconds) n then none else get f h

pub shown-later :
    (f : String) (n : ℕ) (a b : Written) (old : Option String)
    → shown f n (later a b) old ≡ shown f n a (shown f n b old)
shown-later f n none b old = refl
shown-later f n (some w) b old = refl

-- The fields that every aggregate's hash has.
abbrev pub InHash : String → Type 0
InHash f = (d : Event) (start now : String) → is_some (get f (hash_fields d start now)) ≡ true

sent-get :
    (f : String) (l : List (String × Option String)) (h : Dict String)
    → is_some (get f l) ≡ true
    → sent l ≡ some h
    → is_some (get f h) ≡ true
unfolding sent get
sent-get f [] h k = λ e. absurd (cc k)
sent-get f ((j, none) ∷ l) h k = λ e. absurd (none-ne-some h e)
sent-get f ((j, some t) ∷ l) h k = elim (Option-cases (sent l)) [
  | inl q ↦ rw (q, sent) (λ e. absurd (none-ne-some h e))
  | inr (g, q) ↦
      rw (q, sent)
        (λ e.
          subst (λ x. is_some (get f x) ≡ true) (some-injective ((j, t) ∷ g) h e)
            (go (str_eq j f) (sent-get f l g) k q))
]
  where
    go :
        {g : Dict String} (b : Bool)
        → (is_some (get f l) ≡ true → sent l ≡ some g → is_some (get f g) ≡ true)
        → is_some (if b then some (some t) else get f l) ≡ true
        → sent l ≡ some g
        → is_some (if b then some t else get f g) ≡ true
    go true rest m q = refl
    go false rest m q = rest m q

pub aggregate_of-InHash :
    (instant : String → Option ℕ) (f : String) (d : Event) (t : String) (a : Aggregate)
    → InHash f
    → aggregate_of instant d t ≡ some a
    → is_some (get f a.hash) ≡ true
unfolding aggregate_of
aggregate_of-InHash instant f d t a field = bound (get_text "window_start" d) _ (λ start.
    bound (instant start) _
      (λ epoch. bound (required "campaign_id" d) _ (λ cid. made start epoch cid)))
  where
    bound :
        {A : Type 0} (o : Option A) (next : A → Option Aggregate)
        → ((x : A) → next x ≡ some a → is_some (get f a.hash) ≡ true)
        → (o >>= next) ≡ some a
        → is_some (get f a.hash) ≡ true
    bound none next all e = absurd (none-ne-some a e)
    bound (some x) next all e = all x e

    made :
        (start : String) (epoch : ℕ) (cid : String)
        → (sent (hash_fields d start t) >>= λ hash.
            some record { cid = cid; epoch = epoch; hash = hash })
          ≡ some a
        → is_some (get f a.hash) ≡ true
    made start epoch cid = elim (Option-cases (sent (hash_fields d start t))) [
      | inl q ↦ rw q (λ e. absurd (none-ne-some a e))
      | inr (h, q) ↦ rw q (λ e.
          subst (λ (x : Aggregate). is_some (get f x.hash) ≡ true) (some-injective _ a e)
            (sent-get f (hash_fields d start t) h (field d start t) q))
    ]

abbrev pub live : ℕ → Option ℕ → Option String → Option String
live n d o = if overdue n d then none else o

pub live-live :
    (m n : ℕ) (d : Option ℕ) (o : Option String)
    → n ≤ m
    → live m (if overdue n d then none else d) (live n d o) ≡ live m d o
live-live m n none o h = refl
live-live m n (some d) o h = ground arith
