-- ===== src/Generator/Users/Typed.antt =====
-- The fields of the events of generator/users.py, which the collector requires.
pub mod Sessions
use ott_ad_pipeline.Base.{
  ℕ, zero, suc, ◌+◌, ◌*◌, ◌/◌, ltb, leb, is_some, Option-cases, ◌-◌, ◌≡◌, refl, sym, ap, subst, ◌∙◌,
  String, str_eq, Bool, true, false, ◌||◌, Option, none, some, List, [], ◌∷◌, ◌++◌, map, take, All,
  All-append, arith, if◌then◌else◌, Bool-cases, inl, inr,
}
use ott_ad_pipeline.Base.Dict.{get, put}
use ott_ad_pipeline.Event.{Value, num, text, flag, Event}
use ott_ad_pipeline.Generator.Catalog.{Content, quartiles}
use ott_ad_pipeline.Generator.Emitter.{required_fields}
use ott_ad_pipeline.Generator.Rng.{chance}
use ott_ad_pipeline.Generator.Users.{
  World, Viewer, Done, Booking, Decision, update, base, send, drew, book, book_own, book_filled,
  creative_of, length_of,
}
use ott_ad_pipeline.Generator.Users.Watch.{
  new_id, minted, stopped, looked, common, requested, play, played, maybe_click, show_ad, respond,
  booked, one_ad, slots, ad_break, Mark, pause, ping, timeline, no_campaign, Left, at_end,
  abandoned, visit, leave, follow, start_pos, abandon_point, complete, finish_session, watch,
}

-- The types that may go by the pixel.
abbrev pub is_pixel : String → Bool
is_pixel t = str_eq t "impression" || (str_eq t "quartile" || str_eq t "click")

-- An event with every required field, of the right type, and the way that its type allows.
pub record Typed (ev : Event) (allow : Bool) : Type 0 where
  pub event_id : String
  pub event_type : String
  pub campaign_id : String
  pub event_time : ℕ
  pub has_id : get "event_id" ev ≡ some (text event_id)
  pub has_type : get "event_type" ev ≡ some (text event_type)
  pub has_campaign : get "campaign_id" ev ≡ some (text campaign_id)
  pub has_time : get "event_time" ev ≡ some (num event_time)
  pub has_required : All (λ f. is_some (get f ev) ≡ true) required_fields
  pub is_allowed : allow ≡ is_pixel event_type

abbrev pub AllTyped : Done → Type 0
AllTyped s = All (λ (p : Event × Bool). Typed p.0 p.1) s.out

from_fields :
    (ev : Event) (allow : Bool) {i t c : String} {n : ℕ}
    → get "event_id" ev ≡ some (text i)
    → get "event_type" ev ≡ some (text t)
    → get "campaign_id" ev ≡ some (text c)
    → get "event_time" ev ≡ some (num n)
    → allow ≡ is_pixel t
    → Typed ev allow
from_fields ev allow {i} {t} {c} {n} a b d e f = record {
  event_id = i;
  event_type = t;
  campaign_id = c;
  event_time = n;
  has_id = a;
  has_type = b;
  has_campaign = d;
  has_time = e;
  has_required = (rw a refl, (rw b refl, (rw d refl, (rw e refl, tt))));
  is_allowed = f;
}

module _ (w : World) (u : Viewer) where
  pub send-AllTyped :
      (event_type : String) (extra : Event) (allow : Bool) (s : Done)
      → Typed (base w u event_type extra s) allow
      → AllTyped s
      → AllTyped (send w u event_type extra allow s)
  unfolding send
  send-AllTyped event_type extra allow s t h =
      All-append (λ (p : Event × Bool). Typed p.0 p.1) s.out _ h (t, tt)

  module _ (b : Booking) (arid pod_id : String) (slot playhead : ℕ) where
    abbrev shared : Event
    shared = common b arid pod_id slot playhead

    shared-Typed :
        (event_type : String) (allow : Bool) (s : Done)
        → allow ≡ is_pixel event_type
        → Typed (base w u event_type shared s) allow
    unfolding base common update put get
    shared-Typed event_type allow s e = from_fields _ allow refl refl refl refl e

    quartile-Typed :
        (name : String) (s : Done)
        → Typed (base w u "quartile" (("quartile", text name) ∷ shared) s) true
    unfolding base common update put get
    quartile-Typed name s = from_fields _ true refl refl refl refl refl

    response-Typed :
        (s : Done) → Typed (base w u "ad_response" (("fill", flag true) ∷ shared) s) false
    unfolding base common update put get
    response-Typed s = from_fields _ false refl refl refl refl refl

    play-AllTyped :
        (qs : List (String × ℕ)) (s : Done) → AllTyped s → AllTyped (play w u shared qs s)
    unfolding play
    play-AllTyped [] s h = h
    play-AllTyped ((name, part) ∷ qs) s h = play-AllTyped qs _ (
        send-AllTyped "quartile" (("quartile", text name) ∷ shared) true s (quartile-Typed name s)
          h)

    out-played : (s : Done) → (played w u s).1.out ≡ s.out
    unfolding played drew
    out-played s = ground arith

    maybe_click-AllTyped : (n : ℕ) (s : Done) → AllTyped s → AllTyped (maybe_click w u shared n s)
    unfolding maybe_click drew
    maybe_click-AllTyped n s h =
        go (leb 2 (n - 1)) (chance u.cfg.click_rate s.rng) _
          (send-AllTyped "click" shared true (drew s) (shared-Typed "click" true (drew s) refl) h)
      where
        go :
            (b c : Bool) (t : Done)
            → AllTyped t
            → AllTyped (if b then (if c then t else drew s) else s)
        go true true t k = k
        go true false t k = h
        go false c t k = h

    show_ad-AllTyped : (s : Done) → AllTyped s → AllTyped (show_ad w u shared s)
    unfolding show_ad drew
    show_ad-AllTyped s h =
        let s1 = send w u "impression" shared true (drew s) in
        let (n, s2) = played w u s1 in
        let k =
          send-AllTyped "impression" shared true (drew s)
            (shared-Typed "impression" true (drew s) refl) h in
        maybe_click-AllTyped n (play w u shared (take n quartiles) s2) (
          play-AllTyped (take n quartiles) s2
            (subst (λ o. All (λ (p : Event × Bool). Typed p.0 p.1) o) (sym (out-played s1)) k))

    respond-AllTyped :
        (service : Bool) (s : Done) → AllTyped s → AllTyped (respond w u shared service s)
    unfolding respond
    respond-AllTyped true s h = h
    respond-AllTyped false s h =
        send-AllTyped "ad_response" (("fill", flag true) ∷ shared) false s (response-Typed s) h

    booked-AllTyped : (s : Done) → AllTyped s → AllTyped (booked w u b arid pod_id slot playhead s)
    unfolding booked drew
    booked-AllTyped s h =
        go (chance u.cfg.drop_impression s.rng) _
          (show_ad-AllTyped _ (respond-AllTyped w.service (drew s) h))
      where
        go : (c : Bool) (t : Done) → AllTyped t → AllTyped (if c then drew s else t)
        go true t k = h
        go false t k = k

  out-book : (s : Done) → (book w s).1.out ≡ s.out
  unfolding book book_filled book_own creative_of length_of drew
  out-book s = ground arith

  requested-Typed :
      (arid pod_id : String) (slot playhead : ℕ) (s : Done)
      → Typed (base w u "ad_request" (requested arid pod_id slot playhead) s) false
  unfolding base requested update put get
  requested-Typed arid pod_id slot playhead s = from_fields _ false refl refl refl refl refl

  pub one_ad-AllTyped :
      (pod_id : String) (slot playhead : ℕ) (s : Done)
      → AllTyped s
      → AllTyped (one_ad w u pod_id slot playhead s)
  unfolding one_ad minted
  one_ad-AllTyped pod_id slot playhead s h =
      let arid = new_id w "req-" 16 s in
      let fields = requested arid pod_id slot playhead in
      let s1 = send w u "ad_request" fields false (minted s) in
      let k =
        send-AllTyped "ad_request" fields false (minted s)
          (requested-Typed arid pod_id slot playhead (minted s)) h in
      go (book w s1).0 (book w s1).1
        (subst (λ o. All (λ (p : Event × Bool). Typed p.0 p.1) o) (sym (out-book s1)) k)
    where
      go :
          (o : Option Booking) (t : Done)
          → AllTyped t
          → AllTyped (elim o [
            | none ↦ t
            | some b ↦ booked w u b (new_id w "req-" 16 s) pod_id slot playhead t
          ])
      go none t k = k
      go (some b) t k = booked-AllTyped b (new_id w "req-" 16 s) pod_id slot playhead t k
