-- ===== src/Player/Sending.antt =====
-- What the answer to a batch of events says.
use ott_ad_pipeline.Base.{
  ◌≡◌, refl, ap, sym, ◌∙◌, String, Bool, true, false, ◌||◌, not, List, [], ◌∷◌, ◌++◌, map,
  append-nil, append_assoc, select, if◌then◌else◌,
}
use ott_ad_pipeline.Base.Dict.{Dict}
use ott_ad_pipeline.Event.{Event, get_text}
use ott_ad_pipeline.Player.{
  Play, Collector, ResultRow, has_id, pixel_row, batch_row, sort_out, post_rest, events,
}

module _ (c : Collector) (lower : String → String) (pixel_ids forge_ids : List String) where
  abbrev pub is_forged : Event → Bool
  is_forged ev = has_id (get_text "event_id" ev) forge_ids

  abbrev pub by_pixel : Event → Bool
  by_pixel ev = has_id (get_text "event_id" ev) pixel_ids || is_forged ev

  abbrev pub pixels : List Event → List ResultRow
  pixels evs =
      map (λ ev. pixel_row c lower pixel_ids forge_ids ev (is_forged ev)) (select by_pixel evs)

  abbrev pub batched : List Event → List Event
  batched evs = select (λ ev. not (by_pixel ev)) evs

  -- The rows of a batch: none is sent when it is empty.
  pub batch_rows : List Event → List ResultRow
  batch_rows evs = map (batch_row c lower pixel_ids forge_ids (c.post_events evs)) evs

  sort_out_lem :
      (evs : List Event) (plays : Dict Play) (results : List ResultRow) (buffered : List Event)
      → (sort_out c lower pixel_ids forge_ids evs plays results buffered).0
        ≡ (results ++ pixels evs, buffered ++ batched evs)
  unfolding sort_out
  sort_out_lem [] plays results buffered = sym (cc (append-nil results, append-nil buffered))
  sort_out_lem (ev ∷ evs) plays results buffered = sort_out_lem evs _ _ _ ∙ go (by_pixel ev)
    where
      row : ResultRow
      row = pixel_row c lower pixel_ids forge_ids ev (is_forged ev)

      go :
          (b : Bool)
          → ◌≡◌ {A = List ResultRow × List Event}
              (
                (if b then results ++ row ∷ [] else results) ++ pixels evs,
                (if b then buffered else buffered ++ ev ∷ []) ++ batched evs,
              )
              (
                results
                    ++ map
                        (λ e. pixel_row c lower pixel_ids forge_ids e (is_forged e))
                        (if b then ev ∷ select by_pixel evs else select by_pixel evs),
                buffered ++ (if not b then ev ∷ batched evs else batched evs),
              )
      go true =
          ap (λ t. (t, buffered ++ batched evs)) (append_assoc results (row ∷ []) (pixels evs))
      go false =
          ap (λ t. (results ++ pixels evs, t)) (append_assoc buffered (ev ∷ []) (batched evs))

  -- Every event of a request has one row in the answer: first, in their order, those that were
  -- sent as pixels, as each was, then the others, with the status of the one batch.
  pub events_lem :
      (evs : List Event) (plays : Dict Play)
      → (events c lower pixel_ids forge_ids evs plays).0 ≡ pixels evs ++ batch_rows (batched evs)
  unfolding events batch_rows post_rest
  events_lem evs plays =
      ap (λ p. post_rest c lower pixel_ids forge_ids p.0 p.1) (sort_out_lem evs plays [] [])
      ∙ go (batched evs)
    where
      go :
          (evs' : List Event)
          → post_rest c lower pixel_ids forge_ids (pixels evs) evs' ≡ pixels evs ++ batch_rows evs'
      go [] = sym (append-nil (pixels evs))
      go (ev ∷ evs') = refl
