-- ===== src/Generator/Users/Stops.antt =====
-- What a viewer of generator/users.py still sends once its stop event is set.
use ott_ad_pipeline.Base.{
  ℕ, zero, suc, ◌*◌, ◌≤◌, ◌≡◌, refl, ltb, arith, String, Option, List, [], ◌∷◌, Bool-cases, inl,
  inr, true,
}
use ott_ad_pipeline.Generator.Catalog.{Content}
use ott_ad_pipeline.Generator.Users.{World, Viewer, Done}
use ott_ad_pipeline.Generator.Users.Watch.{
  stopped, looked, slots, Mark, follow, complete, finish_session,
}
use ott_ad_pipeline.Generator.Users.Ads.{labels}

-- The stop event is set at this look and at all later ones.
abbrev pub StopsFrom : World → ℕ → Type 0
StopsFrom w n = (k : ℕ) → n ≤ k → w.stop k ≡ true

module _ (w : World) (u : Viewer) where
  labels-slots_stopped :
      (pod_id : String) (left slot playhead : ℕ) (s : Done)
      → StopsFrom w s.checks
      → labels (slots w u pod_id left slot playhead s) ≡ labels s
  unfolding slots stopped looked
  labels-slots_stopped pod_id zero slot playhead s h = refl
  labels-slots_stopped pod_id (suc left) slot playhead s h = rw (h s.checks (omega arith)) refl

  labels-complete_stopped :
      (c : Content) (s : Done) → StopsFrom w s.checks → labels (complete w u c s) ≡ labels s
  unfolding complete stopped looked
  labels-complete_stopped c s h = rw (h s.checks (omega arith)) refl

  labels-follow_stopped :
      (c : Content) (start : ℕ) (abandon_at : Option ℕ) (marks : List (ℕ × Mark)) (s : Done)
      → StopsFrom w s.checks
      → labels (finish_session w u c (follow w u start abandon_at marks s)) ≡ labels s
  unfolding follow finish_session stopped looked
  labels-follow_stopped c start abandon_at [] s h = labels-complete_stopped c s h
  labels-follow_stopped c start abandon_at ((at, m) ∷ marks) s h =
      elim (Bool-cases (ltb (at * 1000) start)) [
        | inl e ↦ rw e (labels-follow_stopped c start abandon_at marks s h)
        | inr e ↦
            rw (e, h s.checks (omega arith))
              (labels-complete_stopped c (looked s) (λ k q. h k (omega (arith, q))))
      ]

  -- Once the stop event is set, and if it stays set: what is left of a session's timeline, with the
  -- end of the session, sends nothing more, and neither does what is left of a break.
  pub labels_stopped :
      (c : Content) (start : ℕ) (abandon_at : Option ℕ) (marks : List (ℕ × Mark))
      → (pod_id : String) (left slot playhead : ℕ) (s : Done) → StopsFrom w s.checks
      → (labels (finish_session w u c (follow w u start abandon_at marks s)) ≡ labels s)
        × (labels (slots w u pod_id left slot playhead s) ≡ labels s)
  labels_stopped c start abandon_at marks pod_id left slot playhead s h = (
    labels-follow_stopped c start abandon_at marks s h,
    labels-slots_stopped pod_id left slot playhead s h,
  )
