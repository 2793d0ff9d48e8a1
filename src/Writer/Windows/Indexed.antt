-- ===== src/Writer/Windows/Indexed.antt =====
-- The index that the consumer of redis-writer/writer.py keeps of its aggregates.
use mathlib.Core.Option.{some-injective, none-ne-some}
use mathlib.Core.List.{Memᴰ}
use mathlib.Core.List.Memᴰ.{head, tail}
use ott_ad_pipeline.Base.{
  ℕ, ◌*◌, true, false, All, ◌≡◌, refl, ap, sym, subst, ◌∙◌, String, str_eq, Bool-cases, Option,
  Option-cases, none, some, List, [], ◌∷◌, inl, inr, ◌⊎◌, ◌>>=◌,
}
use ott_ad_pipeline.Event.{Event, get_text}
use ott_ad_pipeline.Writer.{
  Redis, Counts, Aggregate, aggregate_of, required, sent, hash_fields, agg_key, write_agg,
  write_late, write_alert, Poll, nothing, kafka_error, message, consume, consume_all,
}
use ott_ad_pipeline.Writer.Steps.{
  brought, Leaves, refused, passed, counted, late, alerted, consume-Leaves,
}
use ott_ad_pipeline.Writer.Windows.{IndexLaws, OnMinutes}

-- What Redis documents of its sorted sets: ZADD adds a member with its score, ZREMRANGEBYSCORE and the
-- passing of time add none, and a command for another type changes none.
pub record IndexWrites (r : Redis) (l : IndexLaws r) : Type 0 where
  pub zadd_index :
      (k : String) (n : ℕ) (s : r.Store) (x : String × ℕ)
      → Memᴰ x (l.index (r.zadd "agg:index" k n s))
      → (x ≡ (k, n)) ⊎ Memᴰ x (l.index s)
  pub wait_index :
      (n : ℕ) (s : r.Store) (x : String × ℕ) → Memᴰ x (l.index (r.wait n s)) → Memᴰ x (l.index s)
  pub zrem_index :
      (a b : ℕ) (s : r.Store) (x : String × ℕ)
      → Memᴰ x (l.index (r.zremrangebyscore "agg:index" a b s))
      → Memᴰ x (l.index s)
  pub hset_index :
      (k : String) (h : List (String × String)) (s : r.Store) → l.index (r.hset k h s) ≡ l.index s
  pub expire_index : (k : String) (t : ℕ) (s : r.Store) → l.index (r.expire k t s) ≡ l.index s
  pub sadd_index : (k v : String) (s : r.Store) → l.index (r.sadd k v s) ≡ l.index s
  pub incr_index : (k : String) (s : r.Store) → l.index (r.incr k s) ≡ l.index s
  pub lpush_index : (k v : String) (s : r.Store) → l.index (r.lpush k v s) ≡ l.index s
  pub ltrim_index : (k : String) (a b : ℕ) (s : r.Store) → l.index (r.ltrim k a b s) ≡ l.index s

all_of : {A : Type 0} (P : A → Type 0) (xs : List A) → ((x : A) → Memᴰ x xs → P x) → All P xs
all_of P [] h = tt
all_of P (x ∷ xs) h = (h x (head refl), all_of P xs (λ y m. h y (tail m)))

module _ (r : Redis) (l : IndexLaws r) (w : IndexWrites r l) (instant : String → Option ℕ)
    (dump : Event → String) where
  -- An entry that names the hash of the minute that is its score, a time that parsed.
  abbrev pub IsEntry : String × ℕ → Type 0
  IsEntry x = (cid start : String) × (instant start ≡ some x.1) × (x.0 ≡ agg_key cid x.1)

  abbrev pub AllEntries : r.Store → Type 0
  AllEntries s = (x : String × ℕ) → Memᴰ x (l.index s) → IsEntry x

  same-AllEntries : {s t : r.Store} → l.index t ≡ l.index s → AllEntries s → AllEntries t
  same-AllEntries e h x m = h x (subst (λ i. Memᴰ x i) e m)

  write_agg-AllEntries :
      (a : Aggregate) (now : ℕ) (start : String) (s : r.Store)
      → instant start ≡ some a.epoch
      → AllEntries s
      → AllEntries (write_agg r instant dump a now s)
  unfolding write_agg
  write_agg-AllEntries a now start s e h x m =
      elim (w.zadd_index (agg_key a.cid a.epoch) a.epoch _ x (w.zrem_index 0 _ _ x m)) [
        | inl q ↦ subst IsEntry (sym q) (a.cid, start, e, refl)
        | inr k ↦ h x (
            subst (λ i. Memᴰ x i)
              (w.expire_index _ _ _
                ∙ w.sadd_index _ _ _
                ∙ w.expire_index _ _ _
                ∙ w.hset_index _ _ _)
              k)
      ]

  index-write_late : (m : ℕ) (s : r.Store) → l.index (write_late r instant dump m s) ≡ l.index s
  unfolding write_late
  index-write_late m s = w.incr_index _ _ ∙ w.expire_index _ _ _ ∙ w.incr_index _ s

  index-write_alert :
      (d : Event) (s : r.Store) → l.index (write_alert r instant dump d s) ≡ l.index s
  unfolding write_alert
  index-write_alert d s =
      w.incr_index _ _ ∙ w.expire_index _ _ _ ∙ w.ltrim_index _ _ _ _ ∙ w.lpush_index _ _ s

  wait-AllEntries : (n : ℕ) (s : r.Store) → AllEntries s → AllEntries (r.wait n s)
  wait-AllEntries n s h x m = h x (w.wait_index n s x m)

  aggregate_of-instant :
      (d : Event) (t : String) (a : Aggregate)
      → aggregate_of instant d t ≡ some a
      → (start : String) × (instant start ≡ some a.epoch)
  unfolding aggregate_of
  aggregate_of-instant d t a = elim (Option-cases (get_text "window_start" d)) [
    | inl e ↦ rw e (λ q. absurd (none-ne-some a q))
    | inr (start, e) ↦ elim (Option-cases (instant start)) [
      | inl e1 ↦ rw (e, e1) (λ q. absurd (none-ne-some a q))
      | inr (epoch, e1) ↦
          rw (e, e1)
            (λ q. (
              start,
              e1 ∙ ap some (made epoch (required "campaign_id" d) (sent (hash_fields d start t)) q),
            ))
    ]
  ]
    where
      made :
          (epoch : ℕ) (o : Option String) (p : Option (List (String × String)))
          → (o >>= λ cid. p >>= λ hash. some record { cid = cid; epoch = epoch; hash = hash })
            ≡ some a
          → epoch ≡ a.epoch
      made epoch none p q = absurd (none-ne-some a q)
      made epoch (some cid) none q = absurd (none-ne-some a q)
      made epoch (some cid) (some h) q = ap (λ (g : Aggregate). g.epoch) (some-injective _ a q)

  brought-instant :
      (topic : String) (d : Event) (t : String) (a : Aggregate)
      → brought instant topic d t ≡ some a
      → (start : String) × (instant start ≡ some a.epoch)
  brought-instant topic d t a = elim (Bool-cases (str_eq topic "agg.minute")) [
    | inl e ↦ rw e (aggregate_of-instant d t a)
    | inr e ↦ rw e (λ q. absurd (none-ne-some a q))
  ]

  consume-AllEntries :
      (topic : String) (d : Event) (now : ℕ) (t : String) (s : r.Store) (c : Counts)
      → AllEntries s
      → AllEntries (consume r instant dump (message topic (some d) now t) (s, c)).0
  consume-AllEntries topic d now t s c h = go _ (consume-Leaves r instant dump topic d now t s c)
    where
      go : (s' : r.Store) → Leaves r instant dump topic d now t s s' → AllEntries s'
      go _ (refused _ _) = h
      go _ (passed _ _) = wait-AllEntries now s h
      go _ (counted a e _) =
          let (start, p) = brought-instant topic d t a e in
          write_agg-AllEntries a now start (r.wait now s) p (wait-AllEntries now s h)
      go _ (late m _ _) =
          same-AllEntries (index-write_late m (r.wait now s)) (wait-AllEntries now s h)
      go _ (alerted _ _) =
          same-AllEntries (index-write_alert d (r.wait now s)) (wait-AllEntries now s h)

  -- Whatever the consumer reads, the index keeps to the aggregates: each of its entries is the key
  -- of a campaign and the minute that is its score, and this minute is a time that parsed.
  pub consume_all-AllEntries :
      (ms : List Poll) (s : r.Store) (c : Counts)
      → AllEntries s
      → AllEntries (consume_all r instant dump ms (s, c)).0
  unfolding consume_all consume
  consume_all-AllEntries [] s c h = h
  consume_all-AllEntries (nothing ∷ ms) s c h = consume_all-AllEntries ms s c h
  consume_all-AllEntries (kafka_error true ∷ ms) s c h = consume_all-AllEntries ms s c h
  consume_all-AllEntries (kafka_error false ∷ ms) s c h = consume_all-AllEntries ms s _ h
  consume_all-AllEntries (message topic none now t ∷ ms) s c h = consume_all-AllEntries ms s _ h
  consume_all-AllEntries (message topic (some d) now t ∷ ms) s c h =
      let p = consume r instant dump (message topic (some d) now t) (s, c) in
      consume_all-AllEntries ms p.0 p.1 (consume-AllEntries topic d now t s c h)

  -- So the index holds whole minutes if the times that parse are whole minutes, and the sums of
  -- windows that meet add up.
  pub AllEntries-OnMinutes :
      (s : r.Store)
      → ((t : String) (n : ℕ) → instant t ≡ some n → (m : ℕ) × (n ≡ m * 60))
      → AllEntries s
      → OnMinutes (l.index s)
  AllEntries-OnMinutes s whole h = record {
    minutes =
        all_of (λ (k : String × ℕ). (m : ℕ) × (k.1 ≡ m * 60)) (l.index s)
          (λ x m. let (cid, start, e, q) = h x m in whole start x.1 e);
  }
