-- ===== src/Generator/Main.antt =====
-- generator/main.py: the options, the burst cycle, and the tasks that a run starts and ends with.
-- What a wait for the stop event gives is an argument: whether the event came before the time was
-- over. Ratios and probabilities are in hundredths.
pub mod Speed
pub mod Pacing
pub mod Bursts
pub mod Whole
use Prim.Native.String.{◌++◌ as str_append}
use ott_ad_pipeline.Base.{
  ℕ, zero, suc, ◌+◌, ◌-◌, ◌*◌, ◌/◌, ◌%◌, ◌==◌, max, String, str_eq, Bool, true, false, List, [],
  ◌∷◌, ◌++◌, map, if◌then◌else◌,
}
use ott_ad_pipeline.Signing.{digits}
use ott_ad_pipeline.Generator.Emitter.{Emitter, Task}
use ott_ad_pipeline.Generator.Emitter.Loop.{pause, resume, close}

pub record Options : Type 0 where
  pub mode : String
  pub users : ℕ
  pub duration : ℕ
  pub eps : ℕ
  pub late : ℕ
  pub dup : ℕ
  pub bad : ℕ
  pub forge : ℕ
  pub ssai : ℕ
  pub abandon : ℕ
  pub ad_abandon : ℕ
  pub click_rate : ℕ
  pub drop_impression : ℕ
  pub pixel_ratio : ℕ
  pub batch_size : ℕ
  pub flush_ms : ℕ
  pub burst_pause : ℕ
  pub burst_period : ℕ

-- What `parse_args` gives for an empty command line.
abbrev pub defaults : Options
defaults = record {
  mode = "normal";
  users = 200;
  duration = 60;
  eps = 0;
  late = 10;
  dup = 5;
  bad = 1;
  forge = 1;
  ssai = 3;
  abandon = 20;
  ad_abandon = 8;
  click_rate = 10;
  drop_impression = 0;
  pixel_ratio = 15;
  batch_size = 200;
  flush_ms = 100;
  burst_pause = 10;
  burst_period = 30;
}

-- How long a burst sends, in seconds.
unfoldable pub run_seconds : ℕ → ℕ → ℕ
run_seconds burst_period burst_pause = max (burst_period - burst_pause) 1

-- `burst_cycle`, for the waits that have ended so far: each sending is followed by a pause, and a
-- stop leaves the cycle where it is. The flag says whether the wait is one of a pause.
unfoldable pub burst_cycle : Bool → List Bool → Emitter → Emitter
unfolding pause resume
burst_cycle pausing [] em = em
burst_cycle pausing (true ∷ waits) em = em
burst_cycle false (false ∷ waits) em = burst_cycle true waits (pause em)
burst_cycle true (false ∷ waits) em = burst_cycle false waits (resume em)

-- The tasks that `main` creates.
pub data Role : Type 0 where
  flush_loop : Role
  reporter : Role
  burst : Role
  viewer : String → Role

-- `f"user-{i:06d}"`, for fewer than a million.
unfoldable pub user_name : ℕ → String
unfolding digits
user_name i = str_append "user-" (
    str_append (digits 1 (i / 100000 % 10)) (
      str_append (digits 1 (i / 10000 % 10)) (
        str_append (digits 1 (i / 1000 % 10)) (
          str_append (digits 1 (i / 100 % 10))
            (str_append (digits 1 (i / 10 % 10)) (digits 1 (i % 10)))))))

-- The viewers from the i-th on, `left` of them.
unfoldable pub viewers : ℕ → ℕ → List Role
unfolding user_name
viewers zero i = []
viewers (suc left) i = viewer (user_name i) ∷ viewers left (i + 1)

unfoldable pub tasks : Options → List Role
unfolding viewers
tasks o =
    flush_loop ∷ reporter ∷ (if str_eq o.mode "burst" then burst ∷ [] else []) ++ viewers o.users 0

-- How many pauses of 10 ms the start of the viewers has: one behind each 200th.
unfoldable pub pauses : ℕ → ℕ → ℕ
pauses zero i = 0
pauses (suc left) i = let rest = pauses left (i + 1) in if i % 200 == 199 then rest + 1 else rest
