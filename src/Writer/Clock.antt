-- ===== src/Writer/Clock.antt =====
-- How long Redis keeps the keys that redis-writer/writer.py writes.
use Prim.Native.String.{◌++◌ as str_append, len, slice}
use text.Mathlib.TextPositions.{slice-append_left}
use text.Mathlib.TextLemmas.{append_assoc}
use ott_ad_pipeline.Base.{
  ℕ, ◌+◌, ◌≤◌, ◌≡◌, refl, sym, ap, ◌∙◌, leb, String, str_eq, eq_iff, Bool, true, false, Option,
  none, some, List, [], if◌then◌else◌, Bool-cases, inl, inr, arith,
}
use ott_ad_pipeline.Base.Dict.{Dict}
use ott_ad_pipeline.Base.Text.{prefix_ne}
use ott_ad_pipeline.Calendar.{minute_stamp}
use ott_ad_pipeline.Event.{Event}
use ott_ad_pipeline.Writer.Steps.{Leaves, refused, passed, counted, late, alerted, consume-Leaves}
use ott_ad_pipeline.Writer.{
  Redis, Counts, message, consume, Aggregate, agg_key, ttl_seconds, write_agg, write_late,
  write_alert,
}

-- Whether the instant at which a key ends has been reached; a key may have no end.
abbrev pub overdue : ℕ → Option ℕ → Bool
overdue n none = false
overdue n (some d) = leb d n

-- What Redis documents of the end of keys: EXPIRE sets it for a key that there is, no other command
-- changes it unless it removes the key, and no command takes time.
pub record ClockLaws (r : Redis) : Type 0 where
  pub clock : r.Store → ℕ
  pub expires : String → r.Store → Option ℕ
  pub has_key : String → r.Store → Bool
  pub wait_clock : (n : ℕ) (s : r.Store) → clock s ≤ n → clock (r.wait n s) ≡ n
  pub wait_expires :
      (k : String) (n : ℕ) (s : r.Store)
      → expires k (r.wait n s) ≡ (if overdue n (expires k s) then none else expires k s)
  pub expire_same :
      (k : String) (t : ℕ) (s : r.Store)
      → has_key k s ≡ true
      → expires k (r.expire k t s) ≡ some (clock s + t)
  pub expire_other :
      (k j : String) (t : ℕ) (s : r.Store)
      → str_eq j k ≡ false
      → expires k (r.expire j t s) ≡ expires k s
  pub hset_expires :
      (k j : String) (h : Dict String) (s : r.Store) → expires k (r.hset j h s) ≡ expires k s
  pub sadd_expires : (k j v : String) (s : r.Store) → expires k (r.sadd j v s) ≡ expires k s
  pub zadd_expires :
      (k j v : String) (n : ℕ) (s : r.Store) → expires k (r.zadd j v n s) ≡ expires k s
  pub zrem_expires :
      (k j : String) (a b : ℕ) (s : r.Store)
      → str_eq j k ≡ false
      → expires k (r.zremrangebyscore j a b s) ≡ expires k s
  pub incr_expires : (k j : String) (s : r.Store) → expires k (r.incr j s) ≡ expires k s
  pub lpush_expires : (k j v : String) (s : r.Store) → expires k (r.lpush j v s) ≡ expires k s
  pub ltrim_expires :
      (k j : String) (n : ℕ) (s : r.Store) → expires k (r.ltrim j 0 n s) ≡ expires k s
  pub hset_clock : (j : String) (h : Dict String) (s : r.Store) → clock (r.hset j h s) ≡ clock s
  pub expire_clock : (j : String) (t : ℕ) (s : r.Store) → clock (r.expire j t s) ≡ clock s
  pub sadd_clock : (j v : String) (s : r.Store) → clock (r.sadd j v s) ≡ clock s
  pub zadd_clock : (j v : String) (n : ℕ) (s : r.Store) → clock (r.zadd j v n s) ≡ clock s
  pub zrem_clock :
      (j : String) (a b : ℕ) (s : r.Store) → clock (r.zremrangebyscore j a b s) ≡ clock s
  pub incr_clock : (j : String) (s : r.Store) → clock (r.incr j s) ≡ clock s
  pub lpush_clock : (j v : String) (s : r.Store) → clock (r.lpush j v s) ≡ clock s
  pub ltrim_clock : (j : String) (n : ℕ) (s : r.Store) → clock (r.ltrim j 0 n s) ≡ clock s

-- What waiting leaves of a value, if the empty value stands for a missing key.
abbrev pub kept {ℓ} : {A : Type ℓ} → ℕ → Option ℕ → List A → List A
kept n d l = if overdue n d then [] else l

pub kept-kept {ℓ} :
    {A : Type ℓ} (m n : ℕ) (d : Option ℕ) (l : List A)
    → n ≤ m
    → kept m (if overdue n d then none else d) (kept n d l) ≡ kept m d l
kept-kept m n none l h = refl
kept-kept m n (some d) l h = ground arith

str_eq_sym : (a b : String) → str_eq a b ≡ false → str_eq b a ≡ false
str_eq_sym a b h = elim (Bool-cases (str_eq b a)) [
  | inr e ↦ e
  | inl e ↦ absurd (cc (h, (eq_iff a b).1 (sym ((eq_iff b a).0 e))))
]

-- Texts that begin with one text, and a text that does not.
prefix_ne_sym :
    (j p x : String) → str_eq p (slice j 0 (len p)) ≡ false → str_eq j (str_append p x) ≡ false
prefix_ne_sym j p x h = str_eq_sym (str_append p x) j (prefix_ne p x j h)

late_ne : (x y : String) → str_eq (str_append "late:1m:" x) (str_append "agg:1m:" y) ≡ false
late_ne x y =
    ap (λ t. str_eq t (str_append "agg:1m:" y)) (append_assoc "late:1m" ":" x)
    ∙ prefix_ne "late:1m" (str_append ":" x) (str_append "agg:1m:" y)
        (ap (str_eq "late:1m") (slice-append_left "agg:1m:" y))

-- A key that no command but those of its own aggregate or list names.
pub record Apart (k : String) : Type 0 where
  pub from_campaigns : str_eq "agg:campaigns" k ≡ false
  pub from_index : str_eq "agg:index" k ≡ false
  pub from_late : (x : String) → str_eq (str_append "late:1m:" x) k ≡ false

pub agg_key-Apart : (cid : String) (m : ℕ) → Apart (agg_key cid m)
agg_key-Apart cid m =
    let rest = str_append cid (str_append ":" (minute_stamp m)) in
    record {
      from_campaigns = prefix_ne_sym "agg:campaigns" "agg:1m:" rest refl;
      from_index = prefix_ne_sym "agg:index" "agg:1m:" rest refl;
      from_late = λ x. late_ne x rest;
    }

pub agg_key_ne : (cid : String) (m : ℕ) → str_eq "alerts:recent" (agg_key cid m) ≡ false
agg_key_ne cid m =
    prefix_ne_sym "alerts:recent" "agg:1m:" (str_append cid (str_append ":" (minute_stamp m))) refl

pub agg_other : (a : Aggregate) → str_eq (agg_key a.cid a.epoch) "alerts:recent" ≡ false
agg_other a =
    prefix_ne "agg:1m:" (str_append a.cid (str_append ":" (minute_stamp a.epoch))) "alerts:recent"
      refl

pub alerts-Apart : Apart "alerts:recent"
alerts-Apart = record {
  from_campaigns = refl;
  from_index = refl;
  from_late = λ x. prefix_ne "late:1m:" x "alerts:recent" refl;
}

module _ (r : Redis) (laws : ClockLaws r) (instant : String → Option ℕ)
    (dump : Event → String) where
  open laws use {clock, expires, has_key}

  pub clock-write_agg :
      (a : Aggregate) (now : ℕ) (s : r.Store) → clock (write_agg r instant dump a now s) ≡ clock s
  unfolding write_agg
  clock-write_agg a now s =
      laws.zrem_clock _ _ _ _
      ∙ laws.zadd_clock _ _ _ _
      ∙ laws.expire_clock _ _ _
      ∙ laws.sadd_clock _ _ _
      ∙ laws.expire_clock _ _ _
      ∙ laws.hset_clock _ _ s

  pub clock-write_late : (m : ℕ) (s : r.Store) → clock (write_late r instant dump m s) ≡ clock s
  unfolding write_late
  clock-write_late m s = laws.incr_clock _ _ ∙ laws.expire_clock _ _ _ ∙ laws.incr_clock _ s

  pub clock-write_alert :
      (d : Event) (s : r.Store) → clock (write_alert r instant dump d s) ≡ clock s
  unfolding write_alert
  clock-write_alert d s =
      laws.incr_clock _ _
      ∙ laws.expire_clock _ _ _
      ∙ laws.ltrim_clock _ _ _
      ∙ laws.lpush_clock _ _ s

  -- The ends of the keys that a pipeline does not name.
  pub expires-write_agg_other :
      (k : String) (a : Aggregate) (now : ℕ) (s : r.Store)
      → Apart k
      → str_eq (agg_key a.cid a.epoch) k ≡ false
      → expires k (write_agg r instant dump a now s) ≡ expires k s
  unfolding write_agg
  expires-write_agg_other k a now s p e =
      laws.zrem_expires k "agg:index" _ _ _ p.from_index
      ∙ laws.zadd_expires k _ _ _ _
      ∙ laws.expire_other k "agg:campaigns" _ _ p.from_campaigns
      ∙ laws.sadd_expires k _ _ _
      ∙ laws.expire_other k _ _ _ e
      ∙ laws.hset_expires k _ _ s

  pub expires-write_late :
      (k : String) (m : ℕ) (s : r.Store)
      → Apart k
      → expires k (write_late r instant dump m s) ≡ expires k s
  unfolding write_late
  expires-write_late k m s p =
      laws.incr_expires k _ _ ∙ laws.expire_other k _ _ _ (p.from_late _) ∙ laws.incr_expires k _ s

  pub expires-write_alert_other :
      (k : String) (d : Event) (s : r.Store)
      → str_eq "alerts:recent" k ≡ false
      → expires k (write_alert r instant dump d s) ≡ expires k s
  unfolding write_alert
  expires-write_alert_other k d s e =
      laws.incr_expires k _ _
      ∙ laws.expire_other k _ _ _ e
      ∙ laws.ltrim_expires k _ _ _
      ∙ laws.lpush_expires k _ _ s

  -- A hash that is written lives for `ttl_seconds`.
  pub expires-write_agg :
      (a : Aggregate) (now : ℕ) (s : r.Store)
      → has_key (agg_key a.cid a.epoch) (r.hset (agg_key a.cid a.epoch) a.hash s) ≡ true
      → expires (agg_key a.cid a.epoch) (write_agg r instant dump a now s)
        ≡ some (clock s + ttl_seconds)
  unfolding write_agg
  expires-write_agg a now s h =
      let k = agg_key a.cid a.epoch in
      let p = agg_key-Apart a.cid a.epoch in
      laws.zrem_expires k "agg:index" _ _ _ p.from_index
      ∙ laws.zadd_expires k _ _ _ _
      ∙ laws.expire_other k "agg:campaigns" _ _ p.from_campaigns
      ∙ laws.sadd_expires k _ _ _
      ∙ laws.expire_same k ttl_seconds _ h
      ∙ ap (λ (n : ℕ). some (n + ttl_seconds)) (laws.hset_clock _ _ s)

  pub expires-write_alert :
      (d : Event) (s : r.Store)
      → has_key "alerts:recent" (r.ltrim "alerts:recent" 0 99 (r.lpush "alerts:recent" (dump d) s))
        ≡ true
      → expires "alerts:recent" (write_alert r instant dump d s) ≡ some (clock s + ttl_seconds)
  unfolding write_alert
  expires-write_alert d s h =
      laws.incr_expires _ _ _
      ∙ laws.expire_same "alerts:recent" ttl_seconds _ h
      ∙ ap (λ (n : ℕ). some (n + ttl_seconds)) (laws.ltrim_clock _ _ _ ∙ laws.lpush_clock _ _ s)

  -- The clock is at the time of the message, or where it was.
  pub clock-consume :
      (topic : String) (d : Event) (now : ℕ) (t : String) (s : r.Store) (c : Counts)
      → clock s ≤ now
      → clock (consume r instant dump (message topic (some d) now t) (s, c)).0 ≤ now
  clock-consume topic d now t s c h = go _ (consume-Leaves r instant dump topic d now t s c)
    where
      waited : clock (r.wait now s) ≡ now
      waited = laws.wait_clock now s h

      go : (s' : r.Store) → Leaves r instant dump topic d now t s s' → clock s' ≤ now
      go _ (refused _ _) = h
      go _ (passed _ _) = omega (arith, waited)
      go _ (counted a _ _) =
          let e = clock-write_agg a now (r.wait now s) in omega (arith, e, waited)
      go _ (late m _ _) = let e = clock-write_late m (r.wait now s) in omega (arith, e, waited)
      go _ (alerted _ _) = let e = clock-write_alert d (r.wait now s) in omega (arith, e, waited)
