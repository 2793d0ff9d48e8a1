-- ===== src/Player/Scanning.antt =====
-- What a scan of Kafka for an advertisement finds.
use ott_ad_pipeline.Base.{
  suc, ◌≡◌, refl, ◌∙◌, subst, String, eq_iff, Bool, true, false, ◌||◌, ◌&&◌, not, none, some, List,
  [], ◌∷◌, ◌++◌, if◌then◌else◌, arith, All,
}
use ott_ad_pipeline.Player.{Found, Play}
use ott_ad_pipeline.Player.Trace.{
  Message, was_found, is_about, put_offset, scan_message, scan_kafka,
}

-- Whether a message is one that a scan keeps.
abbrev pub matches : String → List String → Message → Bool
matches arid targets m = elim m.ids [ none ↦ false | some ids ↦ is_about arid targets ids ]

abbrev pub found_of : Message → Found
found_of m = record { topic = m.topic; partition = m.partition; offset = m.offset }

-- Whether a scan has to keep a message yet.
abbrev pub is_new : String → List String → List Found → Message → Bool
is_new arid targets found m = matches arid targets m && not (was_found m found)

was_found-append :
    (m : Message) (found more : List Found)
    → was_found m (found ++ more) ≡ (was_found m found || was_found m more)
unfolding was_found
was_found-append m [] more = refl
was_found-append m (f ∷ found) more = ground (arith, was_found-append m found more)

was_found_self : (m : Message) → was_found m (found_of m ∷ []) ≡ true
unfolding was_found
was_found_self m = ground (arith, (eq_iff m.topic m.topic).1 refl)

kafka-scan_message :
    (targets : List String) (m : Message) (play : Play)
    → (scan_message targets m play).kafka ≡ (
        if matches play.ad_request_id targets m && not (was_found m play.kafka)
        then play.kafka ++ found_of m ∷ []
        else play.kafka)
unfolding scan_message
kafka-scan_message targets m play =
    go (matches play.ad_request_id targets m && not (was_found m play.kafka))
  where
    go :
        (b : Bool)
        → (if b
            then record play {
              offsets = put_offset m.topic m.partition (suc m.offset) play.offsets;
              kafka = play.kafka ++ found_of m ∷ [];
            }
            else record play {
              offsets = put_offset m.topic m.partition (suc m.offset) play.offsets;
            }).kafka
          ≡ (if b then play.kafka ++ found_of m ∷ [] else play.kafka)
    go true = refl
    go false = refl

arid-scan_message :
    (targets : List String) (m : Message) (play : Play)
    → (scan_message targets m play).ad_request_id ≡ play.ad_request_id
unfolding scan_message
arid-scan_message targets m play = go (is_new play.ad_request_id targets play.kafka m)
  where
    go :
        (b : Bool)
        → (if b
            then record play {
              offsets = put_offset m.topic m.partition (suc m.offset) play.offsets;
              kafka = play.kafka ++ found_of m ∷ [];
            }
            else record play {
              offsets = put_offset m.topic m.partition (suc m.offset) play.offsets;
            }).ad_request_id
          ≡ play.ad_request_id
    go true = refl
    go false = refl

still_found :
    (targets : List String) (n m : Message) (play : Play)
    → was_found m play.kafka ≡ true
    → was_found m (scan_message targets n play).kafka ≡ true
still_found targets n m play h =
    rw (kafka-scan_message targets n play) (go (is_new play.ad_request_id targets play.kafka n))
  where
    go : (b : Bool) → was_found m (if b then play.kafka ++ found_of n ∷ [] else play.kafka) ≡ true
    go true = rw (was_found-append m play.kafka (found_of n ∷ [])) (rw h refl)
    go false = h

now_old :
    (targets : List String) (m : Message) (play : Play)
    → is_new play.ad_request_id targets (scan_message targets m play).kafka m ≡ false
now_old targets m play =
    rw (kafka-scan_message targets m play)
      (go (matches play.ad_request_id targets m) (was_found m play.kafka) refl)
  where
    go :
        (b w : Bool)
        → was_found m play.kafka ≡ w
        → (b
            && not (was_found m (if b && not w then play.kafka ++ found_of m ∷ [] else play.kafka)))
          ≡ false
    go false w e = refl
    go true true e = rw e refl
    go true false e =
        rw (was_found-append m play.kafka (found_of m ∷ [])) (rw e (rw (was_found_self m) refl))

still_old :
    (targets : List String) (n m : Message) (play : Play)
    → is_new play.ad_request_id targets play.kafka m ≡ false
    → is_new play.ad_request_id targets (scan_message targets n play).kafka m ≡ false
still_old targets n m play h =
    go (matches play.ad_request_id targets m) (was_found m play.kafka) refl h
  where
    go :
        (b w : Bool)
        → was_found m play.kafka ≡ w
        → (b && not w) ≡ false
        → (b && not (was_found m (scan_message targets n play).kafka)) ≡ false
    go false w e h = refl
    go true true e h = rw (still_found targets n m play e) refl
    go true false e h = absurd (cc h)

old_after :
    (targets : List String) (ms : List Message) (m : Message) (play : Play)
    → is_new play.ad_request_id targets play.kafka m ≡ false
    → is_new play.ad_request_id targets (scan_kafka targets ms play).kafka m ≡ false
unfolding scan_kafka
old_after targets [] m play h = h
old_after targets (n ∷ ms) m play h =
    subst
      (λ a. is_new a targets (scan_kafka targets ms (scan_message targets n play)).kafka m ≡ false)
      (arid-scan_message targets n play)
      (old_after targets ms m (scan_message targets n play)
        (rw (arid-scan_message targets n play) (still_old targets n m play h)))

-- After a scan, every one of its messages that names the advertisement or one of its events is
-- among the found ones.
pub scan_kafka_lem :
    (targets : List String) (ms : List Message) (play : Play)
    → All (λ m. is_new play.ad_request_id targets (scan_kafka targets ms play).kafka m ≡ false) ms
unfolding scan_kafka
scan_kafka_lem targets [] play = tt
scan_kafka_lem targets (m ∷ ms) play =
    let next : Play = scan_message targets m play in
    subst (λ a. All (λ n. is_new a targets (scan_kafka targets ms next).kafka n ≡ false) (m ∷ ms))
      (arid-scan_message targets m play)
      (
        old_after targets ms m next
            (rw (arid-scan_message targets m play) (now_old targets m play)),
        scan_kafka_lem targets ms next,
      )

nothing_new :
    (targets : List String) (ms : List Message) (play : Play)
    → All (λ m. is_new play.ad_request_id targets play.kafka m ≡ false) ms
    → (scan_kafka targets ms play).kafka ≡ play.kafka
unfolding scan_kafka
nothing_new targets [] play h = refl
nothing_new targets (m ∷ ms) play (h, hs) =
    let same : (scan_message targets m play).kafka ≡ play.kafka =
      kafka-scan_message targets m play ∙ rw h refl in
    nothing_new targets ms (scan_message targets m play)
      (rw (arid-scan_message targets m play) (rw same hs))
    ∙ same

arid-scan_kafka :
    (targets : List String) (ms : List Message) (play : Play)
    → (scan_kafka targets ms play).ad_request_id ≡ play.ad_request_id
unfolding scan_kafka
arid-scan_kafka targets [] play = refl
arid-scan_kafka targets (m ∷ ms) play =
    arid-scan_kafka targets ms (scan_message targets m play) ∙ arid-scan_message targets m play

-- A second scan over the same messages adds nothing to what the first one found.
pub scan_twice :
    (targets : List String) (ms : List Message) (play : Play)
    → (scan_kafka targets ms (scan_kafka targets ms play)).kafka
      ≡ (scan_kafka targets ms play).kafka
scan_twice targets ms play =
    nothing_new targets ms (scan_kafka targets ms play)
      (rw (arid-scan_kafka targets ms play) (scan_kafka_lem targets ms play))
