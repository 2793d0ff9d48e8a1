-- ===== src/Generator/Emitter/Draining.antt =====
-- The end of the program: `close` and the `gather` that waits for the tasks.
use mathlib.Core.Option.{none-ne-some}
use ott_ad_pipeline.Base.{
  ℕ, zero, suc, sym, subst, none, remove_at, ◌+◌, ◌<◌, ◌≡◌, refl, inl, inr, Bool-cases,
  Option-cases, Bool, true, false, arith, if◌then◌else◌, List, [], ◌∷◌, length, All, get_elem?,
  some, ap, map,
}
use ott_ad_pipeline.Event.{Event}
use ott_ad_pipeline.Generator.Emitter.{Emitter, Task, post, pixel, delayed, bump_stat, route}
use ott_ad_pipeline.Generator.Emitter.Loop.{
  batches, spawn, post_all, flush_pixels, flush, Outcome, answered, failed, woken, cancelled,
  time_response, end_post, end_pixel, end_delayed, end_task, fits, finish, close, resume, Action,
  run,
}
use ott_ad_pipeline.Generator.Emitter.Stepwise.{Owes, tally, waiting}
use ott_ad_pipeline.Generator.Emitter.Accounting.{IsKept, IsEnd, run-Owes, close-Owes, finish-Owes}

-- Nothing enters the buffers any more.
pub record IsClosed (e : Emitter) : Type 0 where
  pub closed : e.closing ≡ true
  pub no_posts : e.buf ≡ []
  pub no_pixels : e.pixel_buf ≡ []

post_all-IsClosed :
    (xs : List Event) (e : Emitter)
    → e.buf ≡ xs
    → 0 < e.batch_size
    → e.closing ≡ true
    → (e' : Emitter) × (post_all xs e ≡ some e') × (e'.buf ≡ []) × (e'.closing ≡ true)
unfolding post_all spawn
post_all-IsClosed [] e q p c = (e, refl, q, c)
post_all-IsClosed (x ∷ xs) e q p c = (
  spawn (map post (batches (length (x ∷ xs)) e.batch_size (x ∷ xs))) (record e { buf = [] }),
  ground arith,
  refl,
  c,
)

-- `close` empties both buffers, whether the emitter is paused or not.
pub close-IsClosed : (e : Emitter) → 0 < e.batch_size → IsClosed (close e)
unfolding close resume flush flush_pixels spawn
close-IsClosed e p =
    let e1 : Emitter = record e { closing = true; paused = false } in
    let (e2, r, b, c) = post_all-IsClosed e.buf e1 refl p refl in
    rw (r, flush) (record { closed = c; no_posts = b; no_pixels = refl })

end_task-IsClosed : {e : Emitter} (t : Task) (o : Outcome) → IsClosed e → IsClosed (end_task t o e)
unfolding end_task end_post end_pixel end_delayed time_response bump_stat
end_task-IsClosed (post b) (answered status ms) h = ground arith
end_task-IsClosed (post b) failed h = ground arith
end_task-IsClosed (post b) _ h = ground arith
end_task-IsClosed (pixel ev f) (answered status ms) h = ground arith
end_task-IsClosed (pixel ev f) failed h = ground arith
end_task-IsClosed (pixel ev f) _ h = ground arith
end_task-IsClosed {e} (delayed ev d a) woken h = go e.closing refl
  where
    go : (b : Bool) → e.closing ≡ b → IsClosed (if b then e else route ev a false e)
    go true q = h
    go false q = absurd (cc (h.closed, q))
end_task-IsClosed (delayed ev d a) (answered status ms) h = h
end_task-IsClosed (delayed ev d a) failed h = h
end_task-IsClosed (delayed ev d a) cancelled h = h

pub finish-IsClosed : {e : Emitter} (i : ℕ) (o : Outcome) → IsClosed e → IsClosed (finish i o e)
unfolding finish
finish-IsClosed {e} i o h = elim (Option-cases (get_elem? e.inflight i)) [
  | inl q ↦ rw (q, finish) h
  | inr (t, q) ↦ elim (Bool-cases (fits t o)) [
    | inl f ↦
        rw (q, finish)
          (rw (f, finish)
            (end_task-IsClosed t o
              (record { closed = h.closed; no_posts = h.no_posts; no_pixels = h.no_pixels })))
    | inr f ↦ rw (q, finish) (rw (f, finish) h)
  ]
]

-- The ends of tasks, which are all that the loop runs after `close`.
unfoldable pub finish_all : List (ℕ × Outcome) → Emitter → Emitter
finish_all [] e = e
finish_all ((i, o) ∷ rest) e = finish_all rest (finish i o e)

-- None of the requests is cancelled.
abbrev pub AllEnd : List (ℕ × Outcome) → Type 0
AllEnd = All (λ (p : ℕ × Outcome). IsEnd p.1)

finish_all-Owes :
    (ends : List (ℕ × Outcome)) {e : Emitter} → AllEnd ends → Owes 0 e → Owes 0 (finish_all ends e)
unfolding finish_all
finish_all-Owes [] d h = h
finish_all-Owes ((i, o) ∷ rest) d h = finish_all-Owes rest d.1 (finish-Owes i o d.0 h)

finish_all-IsClosed :
    (ends : List (ℕ × Outcome)) {e : Emitter} → IsClosed e → IsClosed (finish_all ends e)
unfolding finish_all
finish_all-IsClosed [] h = h
finish_all-IsClosed ((i, o) ∷ rest) h = finish_all-IsClosed rest (finish-IsClosed i o h)

-- The i-th task can end so.
abbrev pub can_end : ℕ → Outcome → List Task → Bool
can_end i o tasks = elim (get_elem? tasks i) [ none ↦ false | some t ↦ fits t o ]

-- Each end is one of a task that is there, and none is the cancellation of a request.
abbrev pub Ends : List (ℕ × Outcome) → Emitter → Type 0
Ends [] e = Unit
Ends ((i, o) ∷ rest) e = (can_end i o e.inflight ≡ true) × IsEnd o × Ends rest (finish i o e)

length-remove_at :
    (i : ℕ) (tasks : List Task) (t : Task)
    → get_elem? tasks i ≡ some t
    → length (remove_at i tasks) + 1 ≡ length tasks
length-remove_at i [] t h = absurd (none-ne-some t h)
length-remove_at zero (x ∷ xs) t h = omega arith
length-remove_at (suc i) (x ∷ xs) t h = omega (arith, length-remove_at i xs t h)

inflight-end_task :
    (t : Task) (o : Outcome) (e : Emitter)
    → e.closing ≡ true
    → (end_task t o e).inflight ≡ e.inflight
unfolding end_task end_post end_pixel end_delayed time_response bump_stat
inflight-end_task (post b) (answered status ms) e h = refl
inflight-end_task (post b) failed e h = refl
inflight-end_task (post b) woken e h = refl
inflight-end_task (post b) cancelled e h = refl
inflight-end_task (pixel ev f) (answered status ms) e h = refl
inflight-end_task (pixel ev f) failed e h = refl
inflight-end_task (pixel ev f) woken e h = refl
inflight-end_task (pixel ev f) cancelled e h = refl
inflight-end_task (delayed ev d a) woken e h = rw h refl
inflight-end_task (delayed ev d a) (answered status ms) e h = refl
inflight-end_task (delayed ev d a) failed e h = refl
inflight-end_task (delayed ev d a) cancelled e h = refl

-- Once the program is closing, no task starts another: each end leaves one task less.
inflight-finish :
    (i : ℕ) (o : Outcome) (e : Emitter)
    → e.closing ≡ true
    → can_end i o e.inflight ≡ true
    → length (finish i o e).inflight + 1 ≡ length e.inflight
unfolding finish
inflight-finish i o e c h = elim (Option-cases (get_elem? e.inflight i)) [
  | inl q ↦ absurd (cc (rw (q, can_end) at h))
  | inr (t, q) ↦
      let f : fits t o ≡ true = rw (q, can_end) at h in
      rw (q, finish)
        (rw (f, finish)
          (rw (inflight-end_task t o (record e { inflight = remove_at i e.inflight }) c)
            (length-remove_at i e.inflight t q)))
]

inflight-finish_all :
    (ends : List (ℕ × Outcome)) (e : Emitter)
    → IsClosed e
    → Ends ends e
    → length ends ≡ length e.inflight
    → (finish_all ends e).inflight ≡ []
unfolding finish_all
inflight-finish_all [] e c h n = empty e.inflight (sym n)
  where
    empty : (tasks : List Task) → length tasks ≡ 0 → tasks ≡ []
    empty [] h = refl
    empty (t ∷ tasks) h = absurd (omega arith)
inflight-finish_all ((i, o) ∷ rest) e c h n =
    inflight-finish_all rest (finish i o e) (finish-IsClosed i o c) h.2
      (omega (arith, inflight-finish i o e c.closed h.0))

-- The end that a task has at best.
abbrev best_end : Task → Outcome
best_end (post batch) = answered 202 0
best_end (pixel ev forge) = answered 200 0
best_end (delayed ev delay allow_pixel) = woken

fits-best_end : (t : Task) → fits t (best_end t) ≡ true
fits-best_end (post batch) = refl
fits-best_end (pixel ev forge) = refl
fits-best_end (delayed ev delay allow_pixel) = refl

best_end-IsEnd : (t : Task) → IsEnd (best_end t)
best_end-IsEnd (post batch) = tt
best_end-IsEnd (pixel ev forge) = tt
best_end-IsEnd (delayed ev delay allow_pixel) = tt

-- There is always a way to end every task, however many there are.
pub some_ends :
    (n : ℕ) (e : Emitter)
    → IsClosed e
    → length e.inflight ≡ n
    → (ends : List (ℕ × Outcome)) × Ends ends e × (length ends ≡ n)
some_ends zero e c h = ([], tt, refl)
some_ends (suc n) e c h = go e.inflight refl (λ e' c' h'. some_ends n e' c' h')
  where
    go :
        (tasks : List Task)
        → e.inflight ≡ tasks
        → ((e' : Emitter)
            → IsClosed e'
            → length e'.inflight ≡ n
            → (ends : List (ℕ × Outcome)) × Ends ends e' × (length ends ≡ n))
        → (ends : List (ℕ × Outcome)) × Ends ends e × (length ends ≡ suc n)
    go [] q later = absurd (omega (arith, h, ap (λ (l : List Task). length l) q))
    go (t ∷ tasks) q later =
        let o = best_end t in
        let can = subst (λ ts. can_end 0 o ts ≡ true) (sym q) (fits-best_end t) in
        let (rest, d, m) =
          later (finish 0 o e) (finish-IsClosed 0 o c)
            (omega (arith, h, inflight-finish 0 o e c.closed can)) in
        ((0, o) ∷ rest, (can, best_end-IsEnd t, d), omega (arith, m))

Ends-AllEnd : (ends : List (ℕ × Outcome)) (e : Emitter) → Ends ends e → AllEnd ends
Ends-AllEnd [] e h = tt
Ends-AllEnd ((i, o) ∷ rest) e h = (h.1, Ends-AllEnd rest (finish i o e) h.2)

-- Once `close` has run, as many ends of tasks as there are tasks then, in whatever order, none of
-- them the cancellation of a request, leave no task; and every event that was ever counted as sent
-- has been counted as answered, by 2xx or as an error.
pub close_drains :
    (actions : List Action) (ends : List (ℕ × Outcome)) (e : Emitter)
    → All IsKept actions
    → Owes 0 e
    → Ends ends (close (run actions e))
    → length ends ≡ length (close (run actions e)).inflight
    → let last = finish_all ends (close (run actions e)) in
      (last.inflight ≡ []) × (tally "sent" last ≡ tally "http.2xx" last + tally "http.err" last)
close_drains actions ends e d h d' n =
    let ran = run-Owes {e = e} actions d h in
    let owes = finish_all-Owes ends (Ends-AllEnd ends _ d') (close-Owes ran) in
    let is_closed = close-IsClosed (run actions e) ran.sized in
    let closed = finish_all-IsClosed ends is_closed in
    let done = inflight-finish_all ends _ is_closed d' n in
    (
      done,
      omega (
        arith,
        owes.owed,
        ap (λ (l : List Event). length l) closed.no_posts,
        ap (λ (l : List (Event × Bool)). length l) closed.no_pixels,
        ap waiting done,
      ),
    )
