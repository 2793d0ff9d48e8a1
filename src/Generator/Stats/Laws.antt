-- ===== src/Generator/Stats/Laws.antt =====
-- What the statistics of generator/stats.py promise.
use ott_ad_pipeline.Base.{ℕ, ◌+◌, ◌≡◌, refl, String, str_eq, List, [], ◌∷◌, arith, if◌then◌else◌}
use ott_ad_pipeline.Base.Dict.{count, count-add}
use ott_ad_pipeline.Generator.Stats.{Stats, bump, latency, snapshot}

-- A bump is seen in the totals at its own key, and nowhere else.
pub total-bump :
    (j k : String) (n : ℕ) (s : Stats)
    → count j (bump k n s).total ≡ (if str_eq k j then count j s.total + n else count j s.total)
unfolding bump
total-bump j k n s = count-add k j n s.total

pub window-bump :
    (j k : String) (n : ℕ) (s : Stats)
    → count j (bump k n s).window ≡ (if str_eq k j then count j s.window + n else count j s.window)
unfolding bump
window-bump j k n s = count-add k j n s.window

pub total-latency : (ms : ℕ) (s : Stats) → (latency ms s).total ≡ s.total
unfolding latency
total-latency ms s = refl

-- A call of the reporter: events are counted, or the second ends and its counts are read.
pub data Call : Type 0 where
  count_event : String → ℕ → Call
  sample : ℕ → Call
  second_ends : Call

-- The counts of key `k` that the seconds ended so far have shown, and the state.
pub replay : String → List Call → ℕ × Stats → ℕ × Stats
replay k [] r = r
replay k (count_event j n ∷ cs) (shown, s) = replay k cs (shown, bump j n s)
replay k (sample ms ∷ cs) (shown, s) = replay k cs (shown, latency ms s)
replay k (second_ends ∷ cs) (shown, s) =
    let (w, s') = snapshot s in replay k cs (shown + count k w, s')

abbrev pub Agrees : String → ℕ × Stats → Type 0
Agrees k (shown, s) = count k s.total ≡ shown + count k s.window

-- For every key, whatever the calls: if its total is what the ended seconds have shown and what the
-- current second holds, it is so after them. No count is lost or shown twice.
pub replay-Agrees :
    (k : String) (cs : List Call) (r : ℕ × Stats) → Agrees k r → Agrees k (replay k cs r)
unfolding replay
replay-Agrees k [] r h = h
replay-Agrees k (count_event j n ∷ cs) (shown, s) h =
    replay-Agrees k cs (shown, bump j n s) (ground (arith, total-bump k j n s, window-bump k j n s))
replay-Agrees k (sample ms ∷ cs) (shown, s) h =
    replay-Agrees k cs (shown, latency ms s) (unfold latency in h)
replay-Agrees k (second_ends ∷ cs) (shown, s) h =
    let (w, s') = snapshot s in
    replay-Agrees k cs (shown + count k w, s') (unfold snapshot count in ground arith)
