-- ===== src/Generator/Main/Bursts.antt =====
-- That the burst cycle of generator/main.py cannot lose events at the end of the program.
use ott_ad_pipeline.Base.{◌≡◌, refl, ◌∙◌, Bool, true, false, List, [], ◌∷◌}
use ott_ad_pipeline.Generator.Emitter.{Emitter}
use ott_ad_pipeline.Generator.Emitter.Loop.{pause, resume, close}
use ott_ad_pipeline.Generator.Main.{burst_cycle}

close-pause : (e : Emitter) → close (pause e) ≡ close e
unfolding close pause resume
close-pause e = refl

close-resume : (e : Emitter) → close (resume e) ≡ close e
unfolding close pause resume
close-resume e = refl

-- Wherever the burst cycle is when the program ends, in a pause or not, `close` leaves the emitter
-- as it would without any burst: all that was held back is sent.
pub close-burst_cycle :
    (pausing : Bool) (waits : List Bool) (e : Emitter)
    → close (burst_cycle pausing waits e) ≡ close e
unfolding burst_cycle
close-burst_cycle pausing [] e = refl
close-burst_cycle pausing (true ∷ waits) e = refl
close-burst_cycle false (false ∷ waits) e = close-burst_cycle true waits (pause e) ∙ close-pause e
close-burst_cycle true (false ∷ waits) e = close-burst_cycle false waits (resume e) ∙ close-resume e
