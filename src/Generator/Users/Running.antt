-- ===== src/Generator/Users/Running.antt =====
-- generator/users.py: `VirtualUser.run`, one session after another until the stop event is set.
pub mod Ending
use ott_ad_pipeline.Base.{ℕ, zero, suc, String, Option, none, some, [], if◌then◌else◌}
use ott_ad_pipeline.Generator.Rng.{choice}
use ott_ad_pipeline.Generator.Catalog.{Content, catalog}
use ott_ad_pipeline.Generator.Users.{World, Viewer, Done, drew}
use ott_ad_pipeline.Generator.Users.Watch.{new_id, minted, stopped, looked, watch}

abbrev no_content : Content
no_content = record { content_id = ""; kind = ""; duration_s = 0; ad_breaks = [] }

-- What `watch` draws first: the content, and the id of the session.
unfoldable pub begin : World → Viewer → Done → (Viewer × Content) × Done
unfolding choice drew minted new_id
begin w u s =
    let c = choice catalog no_content s.rng in
    let s1 = drew s in
    ((record u { session_id = new_id w "sess-" 12 s1; content_id = c.content_id }, c), minted s1)

-- A session, and the pause behind it, whose length is drawn.
unfoldable pub session : World → Viewer → Done → Viewer × Done
unfolding begin drew
session w u s = let ((v, c), s1) = begin w u s in (v, drew (watch w v c s1))

-- The loop of `run`, with fuel for so many looks at the stop event; `none` is a run that goes on.
unfoldable pub sessions : ℕ → World → Viewer → Done → Option Done
sessions zero w u s = none
sessions (suc fuel) w u s =
    let (v, t) = session w u (looked s) in
    let rest = sessions fuel w v t in if stopped w s then some (looked s) else rest

-- `run`: a pause before the first session, whose length is drawn.
unfoldable pub run : ℕ → World → Viewer → Done → Option Done
unfolding sessions drew
run fuel w u s = sessions fuel w u (drew s)
