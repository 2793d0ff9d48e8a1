-- ===== src/Generator/Users/Ads.antt =====
-- What one advertisement of generator/users.py sends.
use ott_ad_pipeline.Base.{
  ℕ, ◌-◌, ◌≤◌, ◌≡◌, refl, ap, ◌∙◌, sym, leb, String, Bool, true, false, Option, none, some, arith,
  List, [], ◌∷◌, ◌++◌, map, take, if◌then◌else◌, inl, inr, Bool-cases, Option-cases, append_assoc,
  append-nil,
}
use mathlib.Core.List.{map-append}
use ott_ad_pipeline.Base.Dict.{get, put}
use ott_ad_pipeline.Event.{text, flag, Event, get_text}
use ott_ad_pipeline.Generator.Rng.{chance, random}
use ott_ad_pipeline.Generator.Catalog.{quartiles}
use ott_ad_pipeline.Generator.Users.{
  World, Viewer, Done, Booking, update, base, send, drew, book, book_own, book_filled, Decision,
  creative_of, length_of,
}
use ott_ad_pipeline.Generator.Users.Watch.{
  new_id, minted, common, requested, play, played, maybe_click, show_ad, respond, booked, one_ad,
}

-- What an event says of its type, its quartile and its advertisement.
abbrev pub Label : Type 0
Label = Option String × Option String × Option String

unfoldable pub label : Event × Bool → Label
unfolding get_text get
label (ev, allow) = (get_text "event_type" ev, get_text "quartile" ev, get_text "ad_request_id" ev)

abbrev pub plain : String → String → Label
plain arid event_type = (some event_type, none, some arid)

abbrev pub quartile_label : String → String × ℕ → Label
quartile_label arid (name, part) = (some "quartile", some name, some arid)

abbrev pub labels : Done → List Label
labels s = map label s.out

-- The events of an advertisement that is shown: an impression, the first `n` quartiles, and
-- perhaps a click, for which at least three were played.
abbrev pub shown_labels : String → ℕ → Bool → List Label
shown_labels arid n clicked =
    plain arid "impression" ∷ map (quartile_label arid) (take n quartiles)
    ++ (if clicked then plain arid "click" ∷ [] else [])

pub record Shows (arid : String) (new : List Label) : Type 0 where
  pub n : ℕ
  pub clicked : Bool
  pub one_at_least : 1 ≤ n
  pub five_at_most : n ≤ 5
  pub midpoint_before_click : clicked ≡ true → 3 ≤ n
  pub sends : new ≡ shown_labels arid n clicked

-- What one advertisement sends: its request alone, or the request and the events of an advertisement
-- that is shown, with the response between them exactly if there is no decision service.
pub data AdEvents (arid : String) : (service : Bool) → List Label → Type 0 where
  not_shown : (service : Bool) → AdEvents arid service (plain arid "ad_request" ∷ [])
  is_shown :
      {new : List Label} → Shows arid new → AdEvents arid true (plain arid "ad_request" ∷ new)
  responded :
      {new : List Label}
      → Shows arid new
      → AdEvents arid false (plain arid "ad_request" ∷ plain arid "ad_response" ∷ new)

module _ (w : World) (u : Viewer) where
  pub labels-send :
      (event_type : String) (extra : Event) (allow : Bool) (s : Done) {l : Label}
      → label (base w u event_type extra s, allow) ≡ l
      → labels (send w u event_type extra allow s) ≡ labels s ++ l ∷ []
  unfolding send
  labels-send event_type extra allow s e =
      map-append label s.out ((base w u event_type extra s, allow) ∷ [])
      ∙ ap (λ t. labels s ++ t ∷ []) e

  label-request :
      (arid pod_id : String) (slot playhead : ℕ) (s : Done)
      → label (base w u "ad_request" (requested arid pod_id slot playhead) s, false)
        ≡ plain arid "ad_request"
  unfolding label base requested update put
  label-request arid pod_id slot playhead s = refl

  module _ (b : Booking) (arid pod_id : String) (slot playhead : ℕ) where
    abbrev shared : Event
    shared = common b arid pod_id slot playhead

    label-shared :
        (event_type : String) (allow : Bool) (s : Done)
        → label (base w u event_type shared s, allow) ≡ plain arid event_type
    unfolding label base common update put
    label-shared event_type allow s = refl

    label-response :
        (s : Done)
        → label (base w u "ad_response" (("fill", flag true) ∷ shared) s, false)
          ≡ plain arid "ad_response"
    unfolding label base common update put
    label-response s = refl

    label-quartile :
        (name : String) (part : ℕ) (s : Done)
        → label (base w u "quartile" (("quartile", text name) ∷ shared) s, true)
          ≡ quartile_label arid (name, part)
    unfolding label base common update put
    label-quartile name part s = refl

    labels-play :
        (qs : List (String × ℕ)) (s : Done)
        → labels (play w u shared qs s) ≡ labels s ++ map (quartile_label arid) qs
    unfolding play
    labels-play [] s = sym (append-nil _)
    labels-play ((name, part) ∷ qs) s =
        labels-play qs _
        ∙ ap (λ l. l ++ map (quartile_label arid) qs)
            (labels-send "quartile" (("quartile", text name) ∷ shared) true s
              (label-quartile name part s))
        ∙ append_assoc (labels s) _ _

    played_bounds : (s : Done) → (1 ≤ (played w u s).0) × ((played w u s).0 ≤ 5)
    unfolding played random
    played_bounds s = ground arith

    labels-played : (s : Done) → labels (played w u s).1 ≡ labels s
    unfolding played drew
    labels-played s = ground arith

    labels-maybe_click :
        (n : ℕ) (s : Done)
        → (clicked : Bool) × (clicked ≡ true → 3 ≤ n)
          × (labels (maybe_click w u shared n s)
              ≡ labels s ++ (if clicked then plain arid "click" ∷ [] else []))
    unfolding maybe_click drew
    labels-maybe_click n s = elim (Bool-cases (leb 2 (n - 1))) [
      | inr p ↦ (false, λ e. cc, rw p (sym (append-nil _)))
      | inl p ↦ elim (Bool-cases (chance u.cfg.click_rate s.rng)) [
        | inr q ↦ (false, λ e. cc, rw p (rw q (sym (append-nil _))))
        | inl q ↦ (
          true,
          λ e. ground arith,
          rw p (
              rw q (labels-send "click" shared true (drew s) (label-shared "click" true (drew s)))),
        )
      ]
    ]

    show_ad-Shows :
        (s : Done)
        → (new : List Label) × (labels (show_ad w u shared s) ≡ labels s ++ new) × Shows arid new
    unfolding show_ad drew
    show_ad-Shows s =
        let s1 = send w u "impression" shared true (drew s) in
        let n = (played w u s1).0 in
        let s2 = (played w u s1).1 in
        let s3 = play w u shared (take n quartiles) s2 in
        let (clicked, needs, e4) = labels-maybe_click n s3 in
        let e1 =
          labels-send "impression" shared true (drew s) (label-shared "impression" true (drew s)) in
        let qs = map (quartile_label arid) (take n quartiles) in
        let c : List Label = if clicked then plain arid "click" ∷ [] else [] in
        let i : List Label = plain arid "impression" ∷ [] in
        (
          shown_labels arid n clicked,
          e4
              ∙ ap (λ l. l ++ c)
                  (labels-play (take n quartiles) s2 ∙ ap (λ l. l ++ qs) (labels-played s1 ∙ e1))
              ∙ append_assoc (labels s ++ i) qs c
              ∙ append_assoc (labels s) i (qs ++ c),
          record {
            n = n;
            clicked = clicked;
            one_at_least = (played_bounds s1).0;
            five_at_most = (played_bounds s1).1;
            midpoint_before_click = needs;
            sends = refl;
          },
        )

  labels-book_filled : (d : Decision) (s : Done) → labels (book_filled d s).1 ≡ labels s
  unfolding book_filled
  labels-book_filled d s = ground arith

  labels-book : (s : Done) → labels (book w s).1 ≡ labels s
  unfolding book book_filled book_own creative_of length_of drew
  labels-book s = ground arith

  respond-AdEvents :
      (b : Booking) (arid pod_id : String) (slot playhead : ℕ) (service : Bool)
      (before : List Label) (s : Done)
      → labels s ≡ before ++ plain arid "ad_request" ∷ []
      → let shared = common b arid pod_id slot playhead in
        (new : List Label) × (labels (show_ad w u shared (respond w u shared service s))
          ≡ before ++ new)
        × AdEvents arid service new
  unfolding respond
  respond-AdEvents b arid pod_id slot playhead true before s e =
      let (new, shown, h) = show_ad-Shows b arid pod_id slot playhead s in
      (
        plain arid "ad_request" ∷ new,
        shown ∙ ap (λ l. l ++ new) e ∙ append_assoc before _ new,
        is_shown h,
      )
  respond-AdEvents b arid pod_id slot playhead false before s e =
      let fields = ("fill", flag true) ∷ common b arid pod_id slot playhead in
      let s1 = send w u "ad_response" fields false s in
      let (new, shown, h) = show_ad-Shows b arid pod_id slot playhead s1 in
      let sent =
        labels-send "ad_response" fields false s (label-response b arid pod_id slot playhead s) in
      let l : List Label = plain arid "ad_response" ∷ [] in
      (
        plain arid "ad_request" ∷ plain arid "ad_response" ∷ new,
        shown
            ∙ ap (λ t. t ++ new) (sent ∙ ap (λ t. t ++ l) e)
            ∙ append_assoc (before ++ plain arid "ad_request" ∷ []) l new
            ∙ append_assoc before _ _,
        responded h,
      )

  booked-AdEvents :
      (b : Booking) (arid pod_id : String) (slot playhead : ℕ) (before : List Label) (s : Done)
      → labels s ≡ before ++ plain arid "ad_request" ∷ []
      → (new : List Label) × (labels (booked w u b arid pod_id slot playhead s) ≡ before ++ new)
        × AdEvents arid w.service new
  unfolding booked drew
  booked-AdEvents b arid pod_id slot playhead before s e =
      elim (Bool-cases (chance u.cfg.drop_impression s.rng)) [
        | inl p ↦ (plain arid "ad_request" ∷ [], rw p e, not_shown w.service)
        | inr p ↦
            let (new, shown, h) =
              respond-AdEvents b arid pod_id slot playhead w.service before (drew s) e in
            (new, rw p shown, h)
      ]

  -- Every advertisement sends its request first. If it is shown, an impression follows, behind the
  -- response, which the generator sends itself exactly if it has no service; then the quartiles from the
  -- start on without a gap, at least one; and a click only last, and only if the midpoint was
  -- played. All these events carry the request id that the advertisement began with.
  pub one_ad-AdEvents :
      (pod_id : String) (slot playhead : ℕ) (s : Done)
      → (new : List Label) × (labels (one_ad w u pod_id slot playhead s) ≡ labels s ++ new)
        × AdEvents (new_id w "req-" 16 s) w.service new
  unfolding one_ad minted
  one_ad-AdEvents pod_id slot playhead s =
      let arid = new_id w "req-" 16 s in
      let fields = requested arid pod_id slot playhead in
      let s1 = send w u "ad_request" fields false (minted s) in
      let sent =
        labels-send "ad_request" fields false (minted s)
          (label-request arid pod_id slot playhead (minted s)) in
      let e = labels-book s1 ∙ sent in
      elim (Option-cases (book w s1).0) [
        | inl none_booked ↦
            (plain arid "ad_request" ∷ [], rw (none_booked, one_ad) e, not_shown w.service)
        | inr (b, is_booked) ↦
            let (new, after, h) =
              booked-AdEvents b arid pod_id slot playhead (labels s) (book w s1).1 e in
            (new, rw (is_booked, one_ad) after, h)
      ]
