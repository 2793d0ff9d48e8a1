-- ===== src/Generator/Users.antt =====
-- class VirtualUser of generator/users.py. A viewer's coroutine is a function on what it has done:
-- the calls that it made of its own generator, of `uuid.uuid4`, of the stop event and of the
-- decision service, and the events that it handed to `emit`. What those calls give is the `World`.
-- Positions are whole milliseconds of content; `playhead_s` is in tenths of a second.
pub mod Watch
pub mod Ads
pub mod Sessions
pub mod Stops
pub mod Typed
pub mod Running
use Prim.Native.String.{◌++◌ as str_append}
use ott_ad_pipeline.Base.{
  ℕ, zero, suc, ◌+◌, ◌-◌, ◌*◌, ◌/◌, ◌%◌, ◌^◌, ltb, leb, ◌==◌, ◌&&◌, String, str_eq, Bool, true,
  false, Option, none, some, List, [], ◌∷◌, ◌++◌, map, take, length, if◌then◌else◌, or_else,
}
use ott_ad_pipeline.Base.Dict.{Dict, get, put}
use ott_ad_pipeline.Event.{Value, null, num, text, flag, Event}
use ott_ad_pipeline.Generator.Rng.{Rng, random, advance, chance, choice}
use ott_ad_pipeline.Generator.Catalog.{campaigns, creatives, ad_lengths, quartiles}
use ott_ad_pipeline.Generator.AdDecision.{Decision}

-- The probabilities, by the number of draws below each.
pub record BehaviorConfig : Type 0 where
  pub abandon : ℕ
  pub ad_abandon : ℕ
  pub click_rate : ℕ
  pub drop_impression : ℕ

pub record World : Type 0 where
  -- the digits of the n-th `uuid4`, cut to a length
  pub hex : ℕ → ℕ → String
  -- the time in milliseconds at which the n-th event is built
  pub time : ℕ → ℕ
  -- what the n-th look at the stop event finds
  pub stop : ℕ → Bool
  -- whether a decision service is given, and what it decides for the n-th advertisement
  pub service : Bool
  pub decide : ℕ → Option Decision

pub record Viewer : Type 0 where
  pub uid : String
  pub device : String
  pub cfg : BehaviorConfig
  pub session_id : String
  pub content_id : String

pub record Done : Type 0 where
  pub rng : Rng
  pub uuids : ℕ
  pub checks : ℕ
  pub ads : ℕ
  pub out : List (Event × Bool)

-- `d.update(extra)`
unfoldable pub update : Event → Event → Event
unfolding put
update ev [] = ev
update ev ((k, v) ∷ extra) = update (put k v ev) extra

module _ (w : World) (u : Viewer) where
  -- `_base`
  unfoldable pub base : String → Event → Done → Event
  unfolding update
  base event_type extra s =
      update
        (("event_id", text (str_append "evt-" (w.hex 16 s.uuids)))
          ∷ ("event_type", text event_type)
          ∷ ("event_time", num (w.time s.uuids))
          ∷ ("user_id", text u.uid)
          ∷ ("session_id", text u.session_id)
          ∷ ("device", text u.device)
          ∷ ("content_id", text u.content_id)
          ∷ ("source", text "client")
          ∷ [])
        extra

  -- `emit(self._base(event_type, **extra), allow_pixel)`
  unfoldable pub send : String → Event → Bool → Done → Done
  unfolding base
  send event_type extra allow s = record s {
    uuids = s.uuids + 1;
    out = s.out ++ (base event_type extra s, allow) ∷ [];
  }

unfoldable pub drew : Done → Done
drew s = record s { rng = advance s.rng }

-- `rng.choices(values, weights)[0]`, for weights in hundredths that sum to 100.
unfoldable pub weighted {ℓ} : {A : Type ℓ} → List (A × ℕ) → A → ℕ → A
weighted [] d k = d
weighted ((a, p) ∷ rest) d k =
    let other = weighted rest d (k - p * 2 ^ 53) in if ltb k (p * 2 ^ 53) then a else other

unfoldable pub choose {ℓ} : {A : Type ℓ} → List (A × ℕ) → A → Rng → A
unfolding weighted random
choose xs d r = weighted xs d (random r * 100)

-- The campaign, the creative and the length in seconds of an advertisement.
abbrev pub Booking : Type 0
Booking = String × String × ℕ

unfoldable pub any_creative : Decision → Done → String
unfolding get choice
any_creative d s = choice (or_else (get d.campaign_id creatives) ("crt-unknown" ∷ [])) "" s.rng

-- `d.get("creative_id") or rng.choice(…)`, which asks the generator only if there is no creative.
unfoldable pub creative_of : Decision → Done → String × Done
unfolding any_creative drew
creative_of d s = elim d.creative_id [
  | none ↦ (any_creative d s, drew s)
  | some c ↦ if str_eq c "" then (any_creative d s, drew s) else (c, s)
]

-- `d.get("ad_duration_s") or rng.choice(AD_LENGTHS)`
unfoldable pub length_of : Decision → Done → ℕ × Done
unfolding choice drew
length_of d s = elim d.ad_duration_s [
  | none ↦ (choice ad_lengths 0 s.rng, drew s)
  | some zero ↦ (choice ad_lengths 0 s.rng, drew s)
  | some (suc n) ↦ (suc n, s)
]

unfoldable pub book_filled : Decision → Done → Option Booking × Done
unfolding creative_of length_of
book_filled d s =
    let (creative, s1) = creative_of d s in
    let (ad_len, s2) = length_of d s1 in (some (d.campaign_id, creative, ad_len), s2)

-- The generator's own choice.
unfoldable pub book_own : Done → Option Booking × Done
unfolding get choice choose drew
book_own s =
    let campaign = choose campaigns "" s.rng in
    let s1 = drew s in
    let creative = choice (or_else (get campaign creatives) []) "" s1.rng in
    let s2 = drew s1 in (some (campaign, creative, choice ad_lengths 0 s2.rng), drew s2)

-- Part 2 of `one_ad`: what the service answered, or the generator's own decision. There is no
-- booking if the call failed or nothing was filled.
unfoldable pub book : World → Done → Option Booking × Done
book w s =
    if w.service
    then (let s1 : Done = record s { ads = s.ads + 1 } in
        elim (w.decide s.ads) [
          | none ↦ (none, s1)
          | some d ↦ if d.fill then book_filled d s1 else (none, s1)
        ])
    else book_own s
