-- ===== src/Generator/Users/Typed/Sessions.antt =====
-- That a whole run of generator/users.py sends events with the required fields only.
use mathlib.Core.Option.{some-injective, none-ne-some}
use ott_ad_pipeline.Base.{
  ◌≤◌, ℕ, zero, suc, ◌+◌, ◌*◌, ◌/◌, ltb, ◌≡◌, refl, sym, subst, ◌∙◌, String, Bool, true, false,
  Option, none, some, List, [], ◌∷◌, All, if◌then◌else◌, arith,
}
use ott_ad_pipeline.Base.Dict.{get, put}
use ott_ad_pipeline.Event.{num, text, Event}
use ott_ad_pipeline.Generator.Catalog.{Content}
use ott_ad_pipeline.Generator.Users.{World, Viewer, Done, update, base, send, drew, choose}
use ott_ad_pipeline.Generator.Users.Watch.{
  new_id, minted, stopped, looked, slots, ad_break, Mark, pause, ping, timeline, no_campaign, Left,
  at_end, abandoned, visit, leave, follow, start_pos, abandon_point, complete, finish_session,
  watch,
}
use ott_ad_pipeline.Generator.Users.Running.{begin, session, sessions, run}
use ott_ad_pipeline.Generator.Users.Running.Ending.{run_ends}
use ott_ad_pipeline.Generator.Users.Typed.{
  Typed, from_fields, AllTyped, send-AllTyped, one_ad-AllTyped,
}

module _ (w : World) (u : Viewer) where
  slots-AllTyped :
      (pod_id : String) (left slot playhead : ℕ) (s : Done)
      → AllTyped s
      → AllTyped (slots w u pod_id left slot playhead s)
  unfolding slots looked
  slots-AllTyped pod_id zero slot playhead s h = h
  slots-AllTyped pod_id (suc left) slot playhead s h = go (stopped w s) _ (
      slots-AllTyped pod_id left (slot + 1) playhead _
        (one_ad-AllTyped w u pod_id slot playhead (looked s) h))
    where
      go : (b : Bool) (t : Done) → AllTyped t → AllTyped (if b then looked s else t)
      go true t k = h
      go false t k = k

  visit-AllTyped : (at : ℕ) (m : Mark) (s : Done) → AllTyped s → AllTyped (visit w u (at, m) s)
  unfolding visit ad_break base update put get minted drew
  visit-AllTyped at ping s h =
      send-AllTyped w u "progress" (no_campaign ∷ ("playhead_s", num (at * 10)) ∷ []) false s
        (from_fields _ false refl refl refl refl refl) h
  visit-AllTyped at pause s h =
      slots-AllTyped (new_id w "pod-" 10 (drew s))
        (choose ((1, 45) ∷ (2, 40) ∷ (3, 15) ∷ []) 0 s.rng) 0 at (minted (drew s)) h

  leave-AllTyped : (limit : ℕ) (s : Done) → AllTyped s → AllTyped (leave w u limit s)
  unfolding leave base update put get
  leave-AllTyped limit s h =
      send-AllTyped w u "session_end"
        (no_campaign ∷ ("playhead_s", num ((limit + 50) / 100)) ∷ ("reason", text "abandon") ∷ [])
        false s (from_fields _ false refl refl refl refl refl) h

  follow-AllTyped :
      (start : ℕ) (abandon_at : Option ℕ) (marks : List (ℕ × Mark)) (s : Done)
      → AllTyped s
      → AllTyped (follow w u start abandon_at marks s).1
  unfolding follow looked
  follow-AllTyped start abandon_at [] s h = h
  follow-AllTyped start abandon_at ((at, m) ∷ marks) s h =
      go abandon_at (ltb (at * 1000) start) (stopped w s) _ _
        (follow-AllTyped start abandon_at marks s h)
        (follow-AllTyped start abandon_at marks _ (visit-AllTyped at m (looked s) h))
    where
      leaves :
          (limit : ℕ) (b : Bool) (next : Left × Done)
          → AllTyped next.1
          → AllTyped (if b then (abandoned, leave w u limit (looked s)) else next).1
      leaves limit true next k = leave-AllTyped limit (looked s) h
      leaves limit false next k = k

      go :
          (o : Option ℕ) (b c : Bool) (skip next : Left × Done)
          → AllTyped skip.1
          → AllTyped next.1
          → AllTyped
              (if b then skip else if c then (at_end, looked s) else elim o [
                | none ↦ next
                | some limit ↦
                    if ltb limit (at * 1000) then (abandoned, leave w u limit (looked s)) else next
              ]).1
      go o true c skip next k l = k
      go o false true skip next k l = h
      go none false false skip next k l = l
      go (some limit) false false skip next k l = leaves limit (ltb limit (at * 1000)) next l

  complete-AllTyped : (c : Content) (s : Done) → AllTyped s → AllTyped (complete w u c s)
  unfolding complete looked base update put get
  complete-AllTyped c s h = go (stopped w s)
    where
      ended : AllTyped (
          send w u "content_end"
            (no_campaign ∷ ("playhead_s", num (c.duration_s * 10)) ∷ [])
            false
            (looked s))
      ended =
          send-AllTyped w u "content_end"
            (no_campaign ∷ ("playhead_s", num (c.duration_s * 10)) ∷ []) false (looked s)
            (from_fields _ false refl refl refl refl refl) h

      go :
          (b : Bool)
          → AllTyped (
              if b
              then looked s
              else send w u "session_end" (no_campaign ∷ ("reason", text "completed") ∷ []) false (
                  send w u "content_end"
                    (no_campaign ∷ ("playhead_s", num (c.duration_s * 10)) ∷ [])
                    false
                    (looked s)))
      go true = h
      go false =
          send-AllTyped w u "session_end" (no_campaign ∷ ("reason", text "completed") ∷ []) false _
            (from_fields _ false refl refl refl refl refl) ended

  finish_session-AllTyped :
      (c : Content) (p : Left × Done) → AllTyped p.1 → AllTyped (finish_session w u c p)
  unfolding finish_session
  finish_session-AllTyped c (at_end, s) h = complete-AllTyped c s h
  finish_session-AllTyped c (abandoned, s) h = h

  out-start_pos : (c : Content) (s : Done) → (start_pos w u c s).1.out ≡ s.out
  unfolding start_pos drew
  out-start_pos c s = ground arith

  out-abandon_point :
      (c : Content) (start : ℕ) (s : Done) → (abandon_point w u c start s).1.out ≡ s.out
  unfolding abandon_point drew
  out-abandon_point c start s = ground arith

  pub watch-AllTyped : (c : Content) (s : Done) → AllTyped s → AllTyped (watch w u c s)
  unfolding watch base update put get
  watch-AllTyped c s h =
      let (start, s1) = start_pos w u c s in
      let (abandon_at, s2) = abandon_point w u c start s1 in
      let fields =
        no_campaign
        ∷ ("content_kind", text c.kind)
        ∷ ("playhead_s", num ((start + 50) / 100))
        ∷ [] in
      let s3 = send w u "session_start" fields false s2 in
      let k : AllTyped s2 =
        subst (λ o. All (λ (p : Event × Bool). Typed p.0 p.1) o)
          (sym (out-abandon_point c start s1 ∙ out-start_pos c s)) h in
      finish_session-AllTyped c (follow w u start abandon_at (timeline c) s3) (
        follow-AllTyped start abandon_at (timeline c) s3 (
          send-AllTyped w u "session_start" fields false s2
            (from_fields _ false refl refl refl refl refl) k))

sessions-AllTyped :
    (fuel : ℕ) (w : World) (u : Viewer) (s t : Done)
    → AllTyped s
    → sessions fuel w u s ≡ some t
    → AllTyped t
unfolding sessions session begin drew minted looked
sessions-AllTyped zero w u s t h e = absurd (none-ne-some t e)
sessions-AllTyped (suc fuel) w u s t h e =
    let ((v, c), s1) = begin w u (looked s) in
    go (stopped w s)
      (sessions-AllTyped fuel w v (drew (watch w v c s1)) t (watch-AllTyped w v c s1 h)) e
  where
    go :
        (b : Bool) {rest : Option Done}
        → (rest ≡ some t → AllTyped t)
        → (if b then some (looked s) else rest) ≡ some t
        → AllTyped t
    go true k e = subst (λ r. AllTyped r) (some-injective (looked s) t e) h
    go false k e = k e

-- If the stop event stays set from its n-th look on, and the events so far were well typed, then the
-- run ends with well-typed events only: each has an id, a type, a campaign and a time, which are the
-- required fields, the time as a number and the others as texts; and it may go by the pixel exactly
-- when it is an impression, a quartile or a click.
pub run-AllTyped :
    (n : ℕ) (w : World) (u : Viewer) (s : Done)
    → AllTyped s
    → ((k : ℕ) → n ≤ k → w.stop k ≡ true)
    → (t : Done) × (run (n + 1) w u s ≡ some t) × AllTyped t
unfolding run drew
run-AllTyped n w u s h stops =
    let (t, e) = run_ends n w u s stops in (t, e, sessions-AllTyped (n + 1) w u (drew s) t h e)
