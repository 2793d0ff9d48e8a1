-- ===== src/Generator/Users/Watch.antt =====
-- generator/users.py: one advertisement, an advertisement break, and a viewing session.
use Prim.Native.String.{◌++◌ as str_append}
use ott_ad_pipeline.Base.{
  ℕ, zero, suc, ◌+◌, ◌-◌, ◌*◌, ◌/◌, ◌%◌, ◌^◌, ltb, leb, ◌==◌, String, str_eq, Bool, true, false,
  Option, none, some, List, [], ◌∷◌, ◌++◌, map, take, length, any, if◌then◌else◌,
}
use ott_ad_pipeline.Base.Sort.{sort}
use ott_ad_pipeline.Event.{Value, num, text, flag, Event}
use ott_ad_pipeline.Generator.Rng.{random, chance, uniform}
use ott_ad_pipeline.Generator.Catalog.{Content, quartiles, range_from}
use ott_ad_pipeline.Generator.Users.{World, Viewer, Done, Booking, send, drew, choose, book}

-- `uuid.uuid4().hex[:length]` behind a prefix.
unfoldable pub new_id : World → String → ℕ → Done → String
new_id w prefix cut s = str_append prefix (w.hex cut s.uuids)

unfoldable pub minted : Done → Done
minted s = record s { uuids = s.uuids + 1 }

-- `stop_event.is_set()`, and the state after the look.
unfoldable pub stopped : World → Done → Bool
stopped w s = w.stop s.checks

unfoldable pub looked : Done → Done
looked s = record s { checks = s.checks + 1 }

-- The fields that the events of one advertisement share.
unfoldable pub common : Booking → String → String → ℕ → ℕ → Event
common (campaign, creative, ad_len) arid pod_id slot playhead =
    ("campaign_id", text campaign)
    ∷ ("ad_request_id", text arid)
    ∷ ("creative_id", text creative)
    ∷ ("ad_pod_id", text pod_id)
    ∷ ("ad_slot", num slot)
    ∷ ("ad_duration_s", num ad_len)
    ∷ ("playhead_s", num (playhead * 10))
    ∷ []

unfoldable pub requested : String → String → ℕ → ℕ → Event
requested arid pod_id slot playhead =
    ("campaign_id", text "pending")
    ∷ ("ad_request_id", text arid)
    ∷ ("ad_pod_id", text pod_id)
    ∷ ("ad_slot", num slot)
    ∷ ("playhead_s", num (playhead * 10))
    ∷ []

module _ (w : World) (u : Viewer) where
  -- The quartiles that are played, in order.
  unfoldable pub play : Event → List (String × ℕ) → Done → Done
  play shared [] s = s
  play shared ((name, part) ∷ rest) s =
      play shared rest (send w u "quartile" (("quartile", text name) ∷ shared) true s)

  -- How many quartiles are played: all, or up to the drawn one, of which there are 1 to 4.
  unfoldable pub played : Done → ℕ × Done
  unfolding chance drew random
  played s =
      if chance u.cfg.ad_abandon s.rng
      then (1 + random (drew s).rng % 4, drew (drew s))
      else (length quartiles, drew s)

  -- Part 5 of `one_ad`: the last quartile is at place `n - 1`.
  unfoldable pub maybe_click : Event → ℕ → Done → Done
  unfolding chance drew
  maybe_click shared n s =
      if leb 2 (n - 1)
      then (if chance u.cfg.click_rate s.rng then send w u "click" shared true (drew s) else drew s)
      else s

  -- Parts 3 to 5 of `one_ad`.
  unfoldable pub show_ad : Event → Done → Done
  show_ad shared s =
      let (n, s1) = played (send w u "impression" shared true (drew s)) in
      maybe_click shared n (play shared (take n quartiles) s1)

  -- The response, which the generator sends itself if it has no service.
  unfoldable pub respond : Event → Bool → Done → Done
  respond shared true s = s
  respond shared false s = send w u "ad_response" (("fill", flag true) ∷ shared) false s

  -- `one_ad` from its booking on; the draw before the impression is the pause of 0.1 to 0.4 s.
  unfoldable pub booked : Booking → String → String → ℕ → ℕ → Done → Done
  booked b arid pod_id slot playhead s =
      if chance u.cfg.drop_impression s.rng
      then drew s
      else (let shared = common b arid pod_id slot playhead in
          show_ad shared (respond shared w.service (drew s)))

  unfoldable pub one_ad : String → ℕ → ℕ → Done → Done
  one_ad pod_id slot playhead s =
      let arid = new_id w "req-" 16 s in
      let s1 = send w u "ad_request" (requested arid pod_id slot playhead) false (minted s) in
      let (b, s2) = book w s1 in
      elim b [ none ↦ s2 | some b ↦ booked b arid pod_id slot playhead s2 ]

  -- The slots of a pod: `left` of them, from `slot` on.
  unfoldable pub slots : String → ℕ → ℕ → ℕ → Done → Done
  slots pod_id zero slot playhead s = s
  slots pod_id (suc left) slot playhead s =
      let rest = slots pod_id left (slot + 1) playhead (one_ad pod_id slot playhead (looked s)) in
      if stopped w s then looked s else rest

  unfoldable pub ad_break : ℕ → Done → Done
  unfolding choose drew
  ad_break playhead s =
      let pod_size = choose ((1, 45) ∷ (2, 40) ∷ (3, 15) ∷ []) 0 s.rng in
      let s1 = drew s in slots (new_id w "pod-" 10 s1) pod_size 0 playhead (minted s1)

-- A point of the timeline. `"break"` comes before `"ping"`.
pub data Mark : Type 0 where
  pause ping : Mark

abbrev pub mark_le : ℕ × Mark → ℕ × Mark → Bool
mark_le (a, pause) (b, m) = leb a b
mark_le (a, ping) (b, pause) = ltb a b
mark_le (a, ping) (b, ping) = leb a b

unfoldable pub distinct : List ℕ → List ℕ
distinct [] = []
distinct (x ∷ xs) = let rest = distinct xs in if any (λ y. x == y) rest then rest else x ∷ rest

-- `range(30, duration_s, 30)` has (duration_s - 1) / 30 members.
unfoldable pub timeline : Content → List (ℕ × Mark)
unfolding range_from sort distinct
timeline c = sort mark_le (
    map (λ (p : ℕ). (p, ping)) (range_from ((c.duration_s - 1) / 30) 30 30)
    ++ map (λ (b : ℕ). (b, pause)) (distinct c.ad_breaks))

abbrev pub no_campaign : String × Value
no_campaign = ("campaign_id", text "none")

-- How the loop over the timeline was left.
pub data Left : Type 0 where
  at_end abandoned : Left

module _ (w : World) (u : Viewer) where
  -- One point of the timeline, in seconds.
  unfoldable pub visit : ℕ × Mark → Done → Done
  visit (at, ping) s =
      send w u "progress" (no_campaign ∷ ("playhead_s", num (at * 10)) ∷ []) false s
  visit (at, pause) s = ad_break w u at s

  -- The event of a session that is abandoned.
  unfoldable pub leave : ℕ → Done → Done
  leave limit s =
      send w u "session_end"
        (no_campaign ∷ ("playhead_s", num ((limit + 50) / 100)) ∷ ("reason", text "abandon") ∷ [])
        false s

  -- The loop over the timeline from position `start`, in milliseconds. An abandoned session ends
  -- behind the first mark that lies after `abandon_at`.
  unfoldable pub follow : ℕ → Option ℕ → List (ℕ × Mark) → Done → Left × Done
  follow start abandon_at [] s = (at_end, s)
  follow start abandon_at ((at, m) ∷ marks) s =
      let skip = follow start abandon_at marks s in
      let next = follow start abandon_at marks (visit (at, m) (looked s)) in
      if ltb (at * 1000) start
      then skip
      else if stopped w s
      then (at_end, looked s)
      else elim abandon_at [
        | none ↦ next
        | some limit ↦ if ltb limit (at * 1000) then (abandoned, leave limit (looked s)) else next
      ]

  -- Where the session starts: in the middle of a live programme, or of some others.
  unfoldable pub start_pos : Content → Done → ℕ × Done
  unfolding uniform chance drew
  start_pos c s =
      if str_eq c.kind "live"
      then (uniform 0 (c.duration_s * 900) s.rng, drew s)
      else if chance (2 ^ 53 * 6 / 10) s.rng
      then (uniform 0 (c.duration_s * 800) (drew s).rng, drew (drew s))
      else (0, drew s)

  unfoldable pub abandon_point : Content → ℕ → Done → Option ℕ × Done
  unfolding uniform chance drew
  abandon_point c start s =
      if chance u.cfg.abandon s.rng
      then (some (uniform start (c.duration_s * 1000) (drew s).rng), drew (drew s))
      else (none, drew s)

  -- The two events at the end of the content, if the viewer was not stopped.
  unfoldable pub complete : Content → Done → Done
  complete c s =
      if stopped w s
      then looked s
      else send w u "session_end" (no_campaign ∷ ("reason", text "completed") ∷ []) false (
          send w u "content_end" (no_campaign ∷ ("playhead_s", num (c.duration_s * 10)) ∷ []) false
            (looked s))

  unfoldable pub finish_session : Content → Left × Done → Done
  finish_session c (at_end, s) = complete c s
  finish_session c (abandoned, s) = s

  -- `watch`, for the content and the session id that it has drawn.
  unfoldable pub watch : Content → Done → Done
  watch c s =
      let (start, s1) = start_pos c s in
      let (abandon_at, s2) = abandon_point c start s1 in
      let s3 =
        send w u "session_start"
          (no_campaign
            ∷ ("content_kind", text c.kind)
            ∷ ("playhead_s", num ((start + 50) / 100))
            ∷ [])
          false s2 in
      finish_session c (follow start abandon_at (timeline c) s3)
