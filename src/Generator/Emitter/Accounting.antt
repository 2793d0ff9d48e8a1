-- ===== src/Generator/Emitter/Accounting.antt =====
-- Every event that the emitter counts as sent is in a buffer, in a task or answered.
use ott_ad_pipeline.Base.{
  ℕ, zero, suc, ◌+◌, ◌≤◌, ◌<◌, ◌≡◌, refl, ap, subst, inl, inr, Bool-cases, Option-cases, Bool, true,
  false, arith, if◌then◌else◌, List, [], ◌∷◌, ◌++◌, length, map, drop, get_elem?, remove_at, All,
  length-take, length-drop, Option, none, some, not, ◌&&◌, String,
}
use ott_ad_pipeline.Base.Dict.{get}
use ott_ad_pipeline.Event.{Event, Value, num}
use ott_ad_pipeline.Generator.Rng.{chance}
use ott_ad_pipeline.Generator.Stats.Laws.{total-latency}
use ott_ad_pipeline.Generator.Emitter.{
  Emitter, Task, post, pixel, delayed, twin_of, is_impression, inject_ssai, inject_late,
  late_raised, inject_bad, inject_dup, emit_rest, emit,
}
use ott_ad_pipeline.Generator.Emitter.Loop.{
  batches, spawn, post_all, flush_pixels, flush, Outcome, answered, failed, woken, cancelled,
  time_response, is_2xx, end_post, end_pixel, end_delayed, end_task, fits, finish, close, pause,
  resume, Action, emitting, flushing, pausing, resuming, finishing, closes, step, run,
}
use ott_ad_pipeline.Generator.Emitter.Stepwise.{
  Owes, waiting, tally, unanswered, answers, bump_plain, bump_answer, drawn-Owes, route-Owes,
}

waiting-append : (xs ys : List Task) → waiting (xs ++ ys) ≡ waiting xs + waiting ys
waiting-append [] ys = omega arith
waiting-append (post b ∷ xs) ys = omega (arith, waiting-append xs ys)
waiting-append (pixel ev f ∷ xs) ys = omega (arith, waiting-append xs ys)
waiting-append (delayed ev d a ∷ xs) ys = omega (arith, waiting-append xs ys)

-- What a task of its own accounts for.
abbrev load : Task → ℕ
load t = waiting (t ∷ [])

waiting-remove_at :
    (i : ℕ) {t : Task} (ts : List Task)
    → get_elem? ts i ≡ some t
    → waiting ts ≡ waiting (remove_at i ts) + load t
waiting-remove_at i [] e = cc
waiting-remove_at zero (post b ∷ ts) e = ground arith
waiting-remove_at zero (pixel ev f ∷ ts) e = ground arith
waiting-remove_at zero (delayed ev d a ∷ ts) e = ground arith
waiting-remove_at (suc i) (post b ∷ ts) e = omega (arith, waiting-remove_at i ts e)
waiting-remove_at (suc i) (pixel ev f ∷ ts) e = omega (arith, waiting-remove_at i ts e)
waiting-remove_at (suc i) (delayed ev d a ∷ ts) e = omega (arith, waiting-remove_at i ts e)

-- What holds of the value of an attempt, if there is one.
abbrev OnSome {ℓ} : {A : Type ℓ} → (A → Type 0) → Option A → Type 0
OnSome P none = Unit
OnSome P (some a) = P a

inject_ssai-Owes :
    {e : Emitter} (ev : Event) (fresh : String)
    → Owes 0 e
    → OnSome (Owes 0) (inject_ssai ev fresh e)
unfolding inject_ssai
inject_ssai-Owes {e} ev fresh h = elim (Bool-cases (is_impression ev)) [
  | inr p ↦ rw p h
  | inl p ↦ elim (Bool-cases (chance e.anom.ssai e.rng)) [
    | inr q ↦ rw (p, q) (drawn-Owes h)
    | inl q ↦ elim (Option-cases (get "event_id" ev)) [
      | inl r ↦ rw (p, q, r) tt
      | inr (id, r) ↦
          rw (p, q, r)
            (route-Owes (twin_of ev id fresh) false false
              (bump_plain "a.ssai" 1 (refl, refl, refl) (drawn-Owes h)))
    ]
  ]
]

late_event-Owes :
    {e : Emitter} (v : Option Value) (f : ℕ → Event)
    → Owes 0 e
    → OnSome
        (λ (r : Event × Emitter). Owes 0 r.1)
        (elim v [ some (num t) ↦ some (f t, e) | _ ↦ none ])
late_event-Owes none f h = tt
late_event-Owes (some (num t)) f h = h
late_event-Owes (some v) f h = tt

inject_late-Owes :
    {e : Emitter} (ev : Event)
    → Owes 0 e
    → OnSome (λ (r : Event × Emitter). Owes 0 r.1) (inject_late ev e)
unfolding inject_late
inject_late-Owes {e} ev h = elim (Bool-cases (chance e.anom.late e.rng)) [
  | inl p ↦ rw p (
      late_event-Owes (get "event_time" ev) _
        (bump_plain "a.late" 1 (refl, refl, refl) (drawn-Owes (drawn-Owes h))))
  | inr p ↦ rw p (drawn-Owes h)
]

inject_bad-Owes : {e : Emitter} (ev : Event) → Owes 0 e → Owes 0 (inject_bad ev e).1
unfolding inject_bad
inject_bad-Owes {e} ev h = elim (Bool-cases (chance e.anom.bad e.rng)) [
  | inl p ↦ rw p (bump_plain "a.bad" 1 (refl, refl, refl) (drawn-Owes (drawn-Owes h)))
  | inr p ↦ rw p (drawn-Owes h)
]

spawn-Owes : {n : ℕ} {e : Emitter} (ts : List Task) → Owes (n + waiting ts) e → Owes n (spawn ts e)
unfolding spawn
spawn-Owes {n} {e} ts h = omega (arith, waiting-append e.inflight ts)

inject_dup-Owes :
    {e : Emitter} (ev : Event) (allow : Bool) → Owes 0 e → Owes 0 (inject_dup ev allow e)
unfolding inject_dup
inject_dup-Owes {e} ev allow h = elim (Bool-cases (chance e.anom.dup e.rng)) [
  | inl p ↦ rw p (
      unfold spawn in
      spawn-Owes {n = 0} (delayed _ _ allow ∷ [])
        (bump_plain "a.dup" 1 (refl, refl, refl) (drawn-Owes (drawn-Owes h))))
  | inr p ↦ rw p (drawn-Owes h)
]

emit_rest-Owes :
    {e : Emitter} (ev : Event) (allow : Bool) → Owes 0 e → Owes 0 (emit_rest ev allow e)
unfolding emit_rest
emit_rest-Owes ev allow h =
    inject_dup-Owes _ allow (route-Owes _ allow _ (inject_bad-Owes ev (drawn-Owes h)))

late_raised-Owes : {e : Emitter} (ev : Event) → Owes 0 e → Owes 0 (late_raised ev e)
unfolding late_raised
late_raised-Owes {e} ev h = elim (Option-cases (get "event_time" ev)) [
  | inl p ↦ rw (p, late_raised) (drawn-Owes h)
  | inr (v, p) ↦ rw (p, late_raised) (drawn-Owes (drawn-Owes h))
]

-- Whatever cases it injects, and where it raises too, `emit` loses no event that it counts.
pub emit-Owes :
    {e : Emitter} (ev : Event) (allow : Bool) (fresh : String)
    → Owes 0 e
    → Owes 0 (emit ev allow fresh e)
unfolding emit
emit-Owes {e} ev allow fresh h = elim (Option-cases (inject_ssai ev fresh e)) [
  | inl p ↦ rw (p, emit) (drawn-Owes h)
  | inr (e1, p) ↦
      let h1 = subst (OnSome (Owes 0)) p (inject_ssai-Owes ev fresh h) in
      elim (Option-cases (inject_late ev e1)) [
        | inl q ↦ rw (p, emit) (rw (q, emit) (late_raised-Owes ev h1))
        | inr ((ev2, e2), q) ↦
            rw (p, emit)
              (rw (q, emit)
                (emit_rest-Owes ev2 allow (
                  subst (OnSome (λ (r : Event × Emitter). Owes 0 r.1)) q (inject_late-Owes ev h1))))
      ]
]

-- ## flush

-- The pieces hold the events of the batch.
waiting-batches :
    (fuel size : ℕ) (xs : List Event)
    → 0 < size
    → length xs ≤ fuel
    → waiting (map post (batches fuel size xs)) ≡ length xs
unfolding batches
waiting-batches zero size [] p h = refl
waiting-batches zero size (x ∷ xs) p h = absurd (omega arith)
waiting-batches (suc fuel) size [] p h = refl
waiting-batches (suc fuel) size (x ∷ xs) p h = omega (
  arith,
  waiting-batches fuel size (drop size (x ∷ xs)) p (omega (arith, length-drop size (x ∷ xs))),
  length-take size (x ∷ xs),
  length-drop size (x ∷ xs),
)

waiting-pixels :
    (ps : List (Event × Bool)) → waiting (map (λ (p : Event × Bool). pixel p.0 p.1) ps) ≡ length ps
waiting-pixels [] = refl
waiting-pixels (p ∷ ps) = ap suc (waiting-pixels ps)

flush_pixels-Owes : {e : Emitter} → Owes 0 e → Owes 0 (flush_pixels e)
unfolding flush_pixels
flush_pixels-Owes {e} h =
    let taken : Emitter = record e { pixel_buf = [] } in
    let owes : Owes (0 + waiting (map (λ (p : Event × Bool). pixel p.0 p.1) e.pixel_buf)) taken =
      omega (arith, waiting-pixels e.pixel_buf) in
    spawn-Owes _ owes

post_all-Owes :
    {e : Emitter} (xs : List Event)
    → length e.buf ≡ length xs
    → Owes 0 e
    → (e' : Emitter) × (post_all xs e ≡ some e') × Owes 0 e'
unfolding post_all
post_all-Owes {e} [] q h = (e, refl, h)
post_all-Owes {e} (x ∷ xs) q h =
    let taken : Emitter = record e { buf = [] } in
    let pieces = map post (batches (length (x ∷ xs)) e.batch_size (x ∷ xs)) in
    let owes : Owes (0 + waiting pieces) taken =
      omega
        (arith, waiting-batches (length (x ∷ xs)) e.batch_size (x ∷ xs) h.sized (omega arith)) in
    (spawn pieces taken, ground arith, spawn-Owes pieces owes)

-- A flush moves the events of both buffers into tasks, and drops none.
pub flush-Owes : {e : Emitter} (force : Bool) → Owes 0 e → Owes 0 (flush force e)
unfolding flush
flush-Owes {e} force h = elim (Bool-cases (e.paused && not force)) [
  | inl q ↦ rw (q, flush) h
  | inr q ↦ let (e', r, h') = post_all-Owes e.buf refl h in rw (q, r, flush) (flush_pixels-Owes h')
]

-- ## Tasks

Owes-of_remove :
    {e : Emitter} (i : ℕ) {t : Task}
    → get_elem? e.inflight i ≡ some t
    → Owes 0 e
    → Owes (load t) (record e { inflight = remove_at i e.inflight })
Owes-of_remove {e} i q h = omega (arith, waiting-remove_at i e.inflight q)

time_response-Owes : {n : ℕ} {e : Emitter} (ms : ℕ) → Owes n e → Owes n (time_response ms e)
unfolding time_response
time_response-Owes {n} {e} ms h = record {
  owed = rw (total-latency ms e.stats) h.owed;
  sized = h.sized;
}

if-Owes : {x y : Emitter} (b : Bool) → Owes 0 x → Owes 0 y → Owes 0 (if b then x else y)
if-Owes true h k = h
if-Owes false h k = k

-- The ends of a request that the collector or an error gives; a cancelled one is given up.
abbrev pub IsEnd : Outcome → Type 0
IsEnd cancelled = ⊥
IsEnd _ = Unit

end_task-Owes :
    {e : Emitter} (t : Task) (o : Outcome)
    → fits t o ≡ true
    → IsEnd o
    → Owes (load t) e
    → Owes 0 (end_task t o e)
unfolding end_task end_post end_pixel end_delayed
end_task-Owes (post b) (answered status ms) f d h =
    bump_answer (length b) (is_2xx status)
      (bump_plain "sent.post" (length b) (refl, refl, refl) (time_response-Owes ms (omega arith)))
end_task-Owes (post b) failed f d h = bump_answer (length b) false (omega arith)
end_task-Owes (post b) woken f d h = absurd (cc)
end_task-Owes (post b) cancelled f d h = absurd d
end_task-Owes (pixel ev forge) (answered status ms) f d h =
    bump_answer 1 (is_2xx status)
      (bump_plain "sent.pixel" 1 (refl, refl, refl) (time_response-Owes ms (omega arith)))
end_task-Owes (pixel ev forge) failed f d h = bump_answer 1 false (omega arith)
end_task-Owes (pixel ev forge) woken f d h = absurd (cc)
end_task-Owes (pixel ev forge) cancelled f d h = absurd d
end_task-Owes {e} (delayed ev delay allow) woken f d h =
    if-Owes e.closing (omega arith) (route-Owes ev allow false (omega arith))
end_task-Owes (delayed ev delay allow) cancelled f d h = absurd d
end_task-Owes (delayed ev delay allow) (answered status ms) f d h = absurd (cc)
end_task-Owes (delayed ev delay allow) failed f d h = absurd (cc)

pub finish-Owes : {e : Emitter} (i : ℕ) (o : Outcome) → IsEnd o → Owes 0 e → Owes 0 (finish i o e)
unfolding finish
finish-Owes {e} i o d h = elim (Option-cases (get_elem? e.inflight i)) [
  | inl q ↦ rw (q, finish) h
  | inr (t, q) ↦ elim (Bool-cases (fits t o)) [
    | inl f ↦ rw (q, finish) (rw (f, finish) (end_task-Owes t o f d (Owes-of_remove i q h)))
    | inr f ↦ rw (q, finish) (rw (f, finish) h)
  ]
]

-- ## Runs

unfoldable pub IsKept : Action → Type 0
IsKept (finishing i o) = IsEnd o
IsKept _ = Unit

pub close-Owes : {e : Emitter} → Owes 0 e → Owes 0 (close e)
unfolding close resume
close-Owes {e} h = flush-Owes true (omega arith)

step-Owes : {e : Emitter} (a : Action) → IsKept a → Owes 0 e → Owes 0 (step a e)
unfolding step pause resume IsKept
step-Owes (emitting ev allow fresh) d h = emit-Owes ev allow fresh h
step-Owes {e} flushing d h = flush-Owes false h
step-Owes pausing d h = omega arith
step-Owes resuming d h = omega arith
step-Owes (finishing i o) d h = finish-Owes i o d h
step-Owes closes d h = close-Owes h

pub run-Owes :
    {e : Emitter} (actions : List Action) → All IsKept actions → Owes 0 e → Owes 0 (run actions e)
unfolding run
run-Owes [] d h = h
run-Owes {e = e} (a ∷ rest) d h = run-Owes {e = step a e} rest d.1 (step-Owes a d.0 h)

-- Whatever the loop runs, as long as no request is cancelled and the batch size is positive: if at
-- first every event that was counted as sent is in a buffer, or in a task, or was answered and
-- counted by its status, then so it is behind the run.
pub tally-run :
    (e : Emitter) (actions : List Action)
    → All IsKept actions
    → 0 < e.batch_size
    → tally "sent" e ≡ unanswered e + answers e
    → tally "sent" (run actions e) ≡ unanswered (run actions e) + answers (run actions e)
tally-run e actions d positive h =
    let start : Owes 0 e = record { owed = omega (arith, h); sized = positive } in
    let ran = run-Owes {e = e} actions d start in omega (arith, ran.owed)
