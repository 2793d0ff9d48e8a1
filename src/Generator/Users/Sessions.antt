-- ===== src/Generator/Users/Sessions.antt =====
-- What one viewing session of generator/users.py sends: its start, its middle, its end.
use mathlib.Core.List.{Memᴰ}
use ott_ad_pipeline.Base.{
  ◌<◌, ◌≤◌, ◌⊎◌, ℕ, ◌*◌, ◌≡◌, ap, ◌∙◌, String, str_eq, Bool, true, false, ◌||◌, Option, none, some,
  List, [], ◌∷◌, ◌++◌, All, All-append, append_assoc,
}
use ott_ad_pipeline.Generator.Catalog.{Content}
use ott_ad_pipeline.Generator.Users.{World, Viewer, Done}
use ott_ad_pipeline.Generator.Users.Watch.{Mark, Left, at_end, abandoned, start_pos, abandon_point}
use ott_ad_pipeline.Generator.Users.Ads.{Label, labels}

abbrev pub is_boundary : Label → Bool
is_boundary (none, q, r) = false
is_boundary (some t, q, r) =
    str_eq t "session_start" || (str_eq t "content_end" || str_eq t "session_end")

abbrev pub Inside : Label → Type 0
Inside l = is_boundary l ≡ false

abbrev pub session_label : String → Label
session_label t = (some t, none, none)

-- A mark is before the start of a session, or not behind the point at which it is abandoned.
abbrev pub Within : ℕ → Option ℕ → ℕ × Mark → Type 0
Within start none (at, m) = Unit
Within start (some limit) (at, m) = (at * 1000 < start) ⊎ (at * 1000 ≤ limit)

-- Every mark was passed, or the stop event was seen.
abbrev pub Reached : World → List (ℕ × Mark) → ℕ → Option ℕ → Type 0
Reached w marks start abandon_at =
    ((n : ℕ) × (w.stop n ≡ true)) ⊎ All (Within start abandon_at) marks

-- How the events of a session end: it was stopped; it was abandoned, at a mark of its timeline that
-- is not before its start and lies behind the point drawn for it; or it was seen to the end, so that
-- no mark lies behind that point (or the loop over the marks was stopped), and not stopped then.
pub data IsEnd (w : World) (marks : List (ℕ × Mark)) (start : ℕ) (abandon_at : Option ℕ)
    : List Label → Type 0 where
  is_cut : (n : ℕ) → w.stop n ≡ true → IsEnd w marks start abandon_at []
  is_left :
      (limit at : ℕ) (m : Mark)
      → abandon_at ≡ some limit
      → start ≤ at * 1000
      → limit < at * 1000
      → Memᴰ (at, m) marks
      → IsEnd w marks start abandon_at (session_label "session_end" ∷ [])
  is_complete :
      (n : ℕ)
      → w.stop n ≡ false
      → Reached w marks start abandon_at
      → IsEnd w marks start abandon_at
          (session_label "content_end" ∷ session_label "session_end" ∷ [])

-- The state `t` has the events of `s` and some that are in the middle of a session.
abbrev Extends : Done → Done → Type 0
Extends s t = (new : List Label) × (labels t ≡ labels s ++ new) × All Inside new

Extends-trans : (s t u : Done) → Extends s t → Extends t u → Extends s u
Extends-trans s t u (a, p, h) (b, q, k) =
    (a ++ b, q ∙ ap (λ l. l ++ b) p ∙ append_assoc (labels s) a b, All-append Inside a b h k)

module _ (w : World) (u : Viewer) where
  -- The mark at which a session was abandoned.
  pub record Leaves (marks : List (ℕ × Mark)) (start : ℕ) (abandon_at : Option ℕ) : Type 0 where
    pub limit : ℕ
    pub at : ℕ
    pub mark : Mark
    pub is_drawn : abandon_at ≡ some limit
    pub is_seen : start ≤ at * 1000
    pub is_behind : limit < at * 1000
    pub is_mark : Memᴰ (at, mark) marks

  -- What the loop over the timeline has sent, by the way it was left.
  Followed : List (ℕ × Mark) → ℕ → Option ℕ → Done → Left × Done → Type 0
  Followed marks start abandon_at s (at_end, t) = Extends s t × Reached w marks start abandon_at
  Followed marks start abandon_at s (abandoned, t) =
      (body : List Label) × (labels t ≡ labels s ++ body ++ session_label "session_end" ∷ [])
      × All Inside body
      × Leaves marks start abandon_at

  after :
      (marks : List (ℕ × Mark)) (start : ℕ) (abandon_at : Option ℕ) (s t : Done) (p : Left × Done)
      → Extends s t
      → Followed marks start abandon_at t p
      → Followed marks start abandon_at s p
  unfolding Followed
  after marks start abandon_at s t (at_end, v) h (k, q) = (Extends-trans s t v h k, q)
  after marks start abandon_at s t (abandoned, v) (a, p, h) (b, q, k, l) = (
    a ++ b,
    q
        ∙ ap (λ l. l ++ b ++ session_label "session_end" ∷ []) p
        ∙ ap (λ l. l ++ session_label "session_end" ∷ []) (append_assoc (labels s) a b),
    All-append Inside a b h k,
    l,
  )

  -- What a session sends behind what was sent before it.
  pub record IsSession (marks : List (ℕ × Mark)) (start : ℕ) (abandon_at : Option ℕ)
      (before after : Done) : Type 0 where
    pub body : List Label
    pub ends : List Label
    pub sends : labels after ≡ labels before ++ session_label "session_start" ∷ [] ++ body ++ ends
    pub middle : All Inside body
    pub ending : IsEnd w marks start abandon_at ends

  -- Where a session starts, as `watch` draws it.
  abbrev pub drawn_start : Content → Done → ℕ
  drawn_start c s = (start_pos w u c s).0

  -- The point at which a session is to be abandoned, as `watch` draws it.
  abbrev pub drawn_point : Content → Done → Option ℕ
  drawn_point c s = (abandon_point w u c (start_pos w u c s).0 (start_pos w u c s).1).0
