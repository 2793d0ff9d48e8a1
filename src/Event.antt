-- ===== src/Event.antt =====
-- The event dicts that the Python programs pass around and send as JSON.
-- Times are whole milliseconds or seconds, as the field's comment in the source says.
use ott_ad_pipeline.Base.{ℕ, String, Bool, Option, none, some}
use ott_ad_pipeline.Base.Dict.{Dict, get}

pub data Value : Type 0 where
  null : Value
  num : ℕ → Value
  text : String → Value
  flag : Bool → Value

abbrev pub Event : Type 0
Event = Dict Value

-- `ev.get(k)` where only a text is of use.
unfoldable pub get_text : String → Event → Option String
unfolding get
get_text k ev = elim (get k ev) [ some (text s) ↦ some s | _ ↦ none ]
