-- ===== src/Generator/Users/Running/Ending.antt =====
-- That a viewer of generator/users.py stops when the stop event is set.
use ott_ad_pipeline.Base.{
  ℕ, zero, suc, ◌+◌, ◌≤◌, ◌<◌, ◌≡◌, refl, ◌∙◌, arith, leb, String, Bool, true, false, Option, none,
  some, List, [], ◌∷◌, Bool-cases, Option-cases, inl, inr, ◌⊎◌, ◌/◌, leb→le,
}
use ott_ad_pipeline.Event.{num, text, Event}
use ott_ad_pipeline.Generator.Rng.{chance}
use ott_ad_pipeline.Generator.Catalog.{Content}
use ott_ad_pipeline.Generator.Users.{
  World, Viewer, Done, Booking, send, drew, book, book_own, book_filled, creative_of, length_of,
}
use ott_ad_pipeline.Generator.Users.Watch.{
  new_id, minted, stopped, looked, no_campaign, requested, play, played, maybe_click, show_ad,
  respond, booked, one_ad, slots, ad_break, Mark, pause, ping, Left, at_end, abandoned, timeline,
  visit, leave, follow, start_pos, abandon_point, complete, finish_session, watch,
}
use ott_ad_pipeline.Generator.Users.Running.{begin, session, sessions, run}

-- No part of a session takes back a look at the stop event.
abbrev Later : Done → Done → Type 0
Later s t = s.checks ≤ t.checks

module _ (w : World) (u : Viewer) where
  checks-send :
      (k : String) (e : Event) (b : Bool) (s : Done) → (send w u k e b s).checks ≡ s.checks
  unfolding send
  checks-send k e b s = refl

  checks-play :
      (shared : Event) (qs : List (String × ℕ)) (s : Done)
      → (play w u shared qs s).checks ≡ s.checks
  unfolding play
  checks-play shared [] s = refl
  checks-play shared ((name, part) ∷ qs) s = checks-play shared qs _ ∙ checks-send _ _ _ s

  checks-played : (s : Done) → (played w u s).1.checks ≡ s.checks
  unfolding played drew
  checks-played s = ground arith

  checks-maybe_click :
      (shared : Event) (n : ℕ) (s : Done) → (maybe_click w u shared n s).checks ≡ s.checks
  unfolding maybe_click drew send
  checks-maybe_click shared n s = ground arith

  checks-book : (s : Done) → (book w s).1.checks ≡ s.checks
  unfolding book book_filled book_own creative_of length_of drew
  checks-book s = ground arith

  checks-respond :
      (shared : Event) (b : Bool) (s : Done) → (respond w u shared b s).checks ≡ s.checks
  unfolding respond
  checks-respond shared true s = refl
  checks-respond shared false s = checks-send _ _ _ s

  checks-show_ad : (shared : Event) (s : Done) → (show_ad w u shared s).checks ≡ s.checks
  unfolding show_ad drew
  checks-show_ad shared s =
      let s1 = send w u "impression" shared true (drew s) in
      checks-maybe_click shared _ _
      ∙ checks-play shared _ _
      ∙ checks-played s1
      ∙ checks-send _ _ _ (drew s)

  checks-booked :
      (b : Booking) (arid pod_id : String) (slot playhead : ℕ) (s : Done)
      → (booked w u b arid pod_id slot playhead s).checks ≡ s.checks
  unfolding booked drew
  checks-booked b arid pod_id slot playhead s =
      elim (Bool-cases (chance u.cfg.drop_impression s.rng)) [
        | inl p ↦ rw p refl
        | inr p ↦ rw p (checks-show_ad _ _ ∙ checks-respond _ _ (drew s))
      ]

  checks-one_ad :
      (pod_id : String) (slot playhead : ℕ) (s : Done)
      → (one_ad w u pod_id slot playhead s).checks ≡ s.checks
  unfolding one_ad minted
  checks-one_ad pod_id slot playhead s =
      let arid = new_id w "req-" 16 s in
      let s1 = send w u "ad_request" (requested arid pod_id slot playhead) false (minted s) in
      let e = checks-book s1 ∙ checks-send _ _ _ (minted s) in
      elim (Option-cases (book w s1).0) [
        | inl q ↦ rw (q, one_ad) e
        | inr (b, q) ↦ rw (q, one_ad) (checks-booked b arid pod_id slot playhead (book w s1).1 ∙ e)
      ]

  slots-Later :
      (pod_id : String) (left slot playhead : ℕ) (s : Done)
      → Later s (slots w u pod_id left slot playhead s)
  unfolding slots looked
  slots-Later pod_id zero slot playhead s = omega arith
  slots-Later pod_id (suc left) slot playhead s =
      let t = one_ad w u pod_id slot playhead (looked s) in
      let rest = slots-Later pod_id left (slot + 1) playhead t in
      ground (arith, rest, checks-one_ad pod_id slot playhead (looked s))

  visit-Later : (p : ℕ × Mark) (s : Done) → Later s (visit w u p s)
  unfolding visit ad_break minted drew send
  visit-Later (at, ping) s = omega arith
  visit-Later (at, pause) s = slots-Later (new_id w "pod-" 10 (drew s)) _ 0 at (minted (drew s))

  follow-Later :
      (start : ℕ) (abandon_at : Option ℕ) (marks : List (ℕ × Mark)) (s : Done)
      → Later s (follow w u start abandon_at marks s).1
  unfolding follow looked leave send
  follow-Later start abandon_at [] s = omega arith
  follow-Later start none ((at, m) ∷ marks) s =
      let t = visit w u (at, m) (looked s) in
      ground (
        arith,
        follow-Later start none marks s,
        follow-Later start none marks t,
        visit-Later (at, m) (looked s),
      )
  follow-Later start (some limit) ((at, m) ∷ marks) s =
      let t = visit w u (at, m) (looked s) in
      ground (
        arith,
        follow-Later start (some limit) marks s,
        follow-Later start (some limit) marks t,
        visit-Later (at, m) (looked s),
      )

  finish_session-Later : (c : Content) (p : Left × Done) → Later p.1 (finish_session w u c p)
  unfolding finish_session complete looked send
  finish_session-Later c (at_end, s) = ground arith
  finish_session-Later c (abandoned, s) = omega arith

  checks-start_pos : (c : Content) (s : Done) → (start_pos w u c s).1.checks ≡ s.checks
  unfolding start_pos drew
  checks-start_pos c s = ground arith

  checks-abandon_point :
      (c : Content) (start : ℕ) (s : Done) → (abandon_point w u c start s).1.checks ≡ s.checks
  unfolding abandon_point drew
  checks-abandon_point c start s = ground arith

  watch-Later : (c : Content) (s : Done) → Later s (watch w u c s)
  unfolding watch
  watch-Later c s =
      let (start, s1) = start_pos w u c s in
      let (abandon_at, s2) = abandon_point w u c start s1 in
      let fields =
        no_campaign
        ∷ ("content_kind", text c.kind)
        ∷ ("playhead_s", num ((start + 50) / 100))
        ∷ [] in
      let s3 = send w u "session_start" fields false s2 in
      let p = follow w u start abandon_at (timeline c) s3 in
      omega (
        arith,
        checks-start_pos c s,
        checks-abandon_point c start s1,
        checks-send "session_start" fields false s2,
        follow-Later start abandon_at (timeline c) s3,
        finish_session-Later c p,
      )

session-Later : (w : World) (u : Viewer) (s : Done) → Later s (session w u s).1
unfolding session begin drew minted
session-Later w u s =
    let (v, c) = (begin w u s).0 in omega (arith, watch-Later w v c (begin w u s).1)

sessions_end :
    (n fuel : ℕ) (w : World) (u : Viewer) (s : Done)
    → ((k : ℕ) → n ≤ k → w.stop k ≡ true)
    → n < fuel + s.checks
    → 1 ≤ fuel
    → (t : Done) × (sessions fuel w u s ≡ some t)
unfolding sessions stopped looked
sessions_end n zero w u s h more one = absurd (omega (arith, one))
sessions_end n (suc fuel) w u s h more one = elim (Bool-cases (w.stop s.checks)) [
  | inl e ↦ (looked s, rw e refl)
  | inr e ↦
      let (v, t) = session w u (looked s) in
      let early = not_yet e (Bool-cases (leb n s.checks)) in
      let later = session-Later w u (looked s) in
      let (r, q) =
        sessions_end n fuel w v t h (omega (arith, more, later)) (omega (arith, early, more)) in
      (r, rw e q)
]
  where
    not_yet :
        w.stop s.checks ≡ false → (leb n s.checks ≡ true) ⊎ (leb n s.checks ≡ false) → s.checks < n
    not_yet e (inl q) = absurd (cc (e, h s.checks (leb→le n s.checks q)))
    not_yet e (inr q) = ground (arith, q)

-- If the stop event stays set from its n-th look on, then a viewer ends: as much fuel as n + 1 gives
-- a result, however long its sessions are.
pub run_ends :
    (n : ℕ) (w : World) (u : Viewer) (s : Done)
    → ((k : ℕ) → n ≤ k → w.stop k ≡ true)
    → (t : Done) × (run (n + 1) w u s ≡ some t)
unfolding run drew
run_ends n w u s h = sessions_end n (n + 1) w u (drew s) h (omega arith) (omega arith)
