-- ===== src/Tracer/Scanning.antt =====
-- What the scans of Kafka for a trace find, over all the requests of its page.
use ott_ad_pipeline.Base.{
  ℕ, suc, ◌≤◌, ◌<◌, ◌≡◌, refl, ap, sym, ◌∙◌, String, eq_iff, Bool, true, false, ◌||◌, ◌&&◌, List,
  [], ◌∷◌, ◌++◌, any, if◌then◌else◌, ◌==◌, arith, All, map, select, append-nil, append_assoc,
}
use ott_ad_pipeline.Player.{Found}
use ott_ad_pipeline.Player.Trace.{same_place, put_offset}
use ott_ad_pipeline.Tracer.Trace.{
  Offsets, Trace, Message, is_hit, found_of, scan_message, scan_kafka,
}

-- The offset at which a partition is read next.
abbrev pub offset_of : String → ℕ → Offsets → ℕ
offset_of t p [] = 0
offset_of t p (((u, q), n) ∷ rest) = if same_place t p u q then n else offset_of t p rest

-- What Kafka documents of a consumer that is assigned at these offsets: the messages of a partition
-- come in the order of their offsets, from the assigned one on.
abbrev pub Delivered : Offsets → List Message → Type 0
Delivered offsets [] = Unit
Delivered offsets (m ∷ ms) =
    (offset_of m.topic m.partition offsets ≤ m.offset)
    × Delivered (put_offset m.topic m.partition (suc m.offset) offsets) ms

abbrev same_found : Found → Found → Bool
same_found f g = same_place f.topic f.partition g.topic g.partition && f.offset == g.offset

-- No message is there twice.
abbrev pub Once : List Found → Type 0
Once [] = Unit
Once (f ∷ fs) = (any (same_found f) fs ≡ false) × Once fs

-- What is listed lies before the offsets that are read next, and is listed once.
pub record IsOnce (tr : Trace) : Type 0 where
  pub once : Once tr.kafka
  pub before : All (λ f. f.offset < offset_of f.topic f.partition tr.offsets) tr.kafka

offset_of-put_offset :
    (t u : String) (p q n : ℕ) (offsets : Offsets)
    → offset_of u q (put_offset t p n offsets)
      ≡ (if same_place t p u q then n else offset_of u q offsets)
unfolding put_offset
offset_of-put_offset t u p q n [] = ground (arith, eq_iff t u, eq_iff u t)
offset_of-put_offset t u p q n (((v, r), m) ∷ rest) =
    ground
      (arith, eq_iff t u, eq_iff u t, eq_iff t v, eq_iff u v, offset_of-put_offset t u p q n rest)

any-append :
    (f : Found) (xs ys : List Found)
    → any (same_found f) (xs ++ ys) ≡ (any (same_found f) xs || any (same_found f) ys)
any-append f [] ys = refl
any-append f (x ∷ xs) ys = ground (arith, any-append f xs ys)

-- A new message that is behind all that is listed can be added.
Once-append :
    (x : Found) (offsets : Offsets) (fs : List Found)
    → offset_of x.topic x.partition offsets ≤ x.offset
    → All (λ f. f.offset < offset_of f.topic f.partition offsets) fs
    → Once fs
    → Once (fs ++ x ∷ [])
Once-append x offsets [] le all once = (refl, tt)
Once-append x offsets (f ∷ fs) le (lt, all) (new, once) = (
  any-append f fs (x ∷ []) ∙ rw new (differs (same_found f x) refl),
  Once-append x offsets fs le all once,
)
  where
    differs : (b : Bool) → same_found f x ≡ b → (b || false) ≡ false
    differs false e = refl
    differs true e = absurd (
        ground
          (arith, eq_iff f.topic x.topic, lt, le, e, ap (λ t. offset_of t x.partition offsets)))

same_place_self : (t : String) (p : ℕ) → same_place t p t p ≡ true
same_place_self t p = ground (arith, eq_iff t t)

before_put :
    (m : Message) (offsets : Offsets) (fs : List Found)
    → offset_of m.topic m.partition offsets ≤ m.offset
    → All (λ f. f.offset < offset_of f.topic f.partition offsets) fs
    → All
        (λ f.
          f.offset
          < offset_of f.topic f.partition (put_offset m.topic m.partition (suc m.offset) offsets))
        fs
before_put m offsets [] le all = tt
before_put m offsets (f ∷ fs) le (lt, all) = (
  rw (offset_of-put_offset m.topic f.topic m.partition f.partition (suc m.offset) offsets)
      (go (same_place m.topic m.partition f.topic f.partition) refl),
  before_put m offsets fs le all,
)
  where
    go :
        (b : Bool)
        → same_place m.topic m.partition f.topic f.partition ≡ b
        → f.offset < (if b then suc m.offset else offset_of f.topic f.partition offsets)
    go false e = lt
    go true e =
        ground (arith, eq_iff m.topic f.topic, lt, le, e, ap (λ t. offset_of t m.partition offsets))

All-snoc {κ} :
    (P : Found → Type κ) (fs : List Found) (x : Found) → All P fs → P x → All P (fs ++ x ∷ [])
All-snoc P [] x all h = (h, tt)
All-snoc P (f ∷ fs) x (a, all) h = (a, All-snoc P fs x all h)

scan_message-IsOnce :
    (m : Message) (tr : Trace)
    → offset_of m.topic m.partition tr.offsets ≤ m.offset
    → IsOnce tr
    → IsOnce (scan_message m tr)
unfolding scan_message
scan_message-IsOnce m tr le h = go (is_hit tr.sent.ids m)
  where
    behind : ℕ
    behind =
        offset_of m.topic m.partition (put_offset m.topic m.partition (suc m.offset) tr.offsets)

    read : suc m.offset ≡ behind
    read = sym (
        offset_of-put_offset m.topic m.topic m.partition m.partition (suc m.offset) tr.offsets
        ∙ rw (same_place_self m.topic m.partition))

    kept :
        All
          (λ f.
            f.offset
            < offset_of f.topic f.partition
                (put_offset m.topic m.partition (suc m.offset) tr.offsets))
          tr.kafka
    kept = before_put m tr.offsets tr.kafka le h.before

    go :
        (b : Bool)
        → IsOnce (record tr {
          offsets = put_offset m.topic m.partition (suc m.offset) tr.offsets;
          kafka = if b then tr.kafka ++ found_of m ∷ [] else tr.kafka;
        })
    go false = record { once = h.once; before = kept }
    go true = record {
      once = Once-append (found_of m) tr.offsets tr.kafka le h.before h.once;
      before = All-snoc _ tr.kafka (found_of m) kept (omega (arith, read));
    }

-- However often a trace is scanned: if Kafka delivers the messages of each partition in order from
-- the offset where the last scan stopped, then no message is listed twice for the trace.
pub scan_kafka-IsOnce :
    (ms : List Message) (tr : Trace)
    → Delivered tr.offsets ms
    → IsOnce tr
    → IsOnce (scan_kafka ms tr)
unfolding scan_kafka
scan_kafka-IsOnce [] tr d h = h
scan_kafka-IsOnce (m ∷ ms) tr (le, d) h =
    scan_kafka-IsOnce ms (scan_message m tr) (unfold scan_message in d)
      (scan_message-IsOnce m tr le h)

-- A scan lists, in the order of their delivery, exactly the messages that name an id of the trace.
pub kafka-scan_kafka :
    (ms : List Message) (tr : Trace)
    → (scan_kafka ms tr).kafka ≡ tr.kafka ++ map found_of (select (is_hit tr.sent.ids) ms)
unfolding scan_kafka scan_message
kafka-scan_kafka [] tr = sym (append-nil tr.kafka)
kafka-scan_kafka (m ∷ ms) tr = kafka-scan_kafka ms (scan_message m tr) ∙ go (is_hit tr.sent.ids m)
  where
    go :
        (b : Bool)
        → (if b then tr.kafka ++ found_of m ∷ [] else tr.kafka)
            ++ map found_of (select (is_hit tr.sent.ids) ms)
          ≡ tr.kafka
            ++ map found_of
                (if b then m ∷ select (is_hit tr.sent.ids) ms else select (is_hit tr.sent.ids) ms)
    go true =
        append_assoc tr.kafka (found_of m ∷ []) (map found_of (select (is_hit tr.sent.ids) ms))
    go false = refl
