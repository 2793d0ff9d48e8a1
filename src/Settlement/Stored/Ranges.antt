-- ===== src/Settlement/Stored/Ranges.antt =====
-- The rows of minute_settlement in a range of spark/reconcile.py, and the events in it.
use mathlib.Core.Option.{some-injective, none-ne-some}
use ott_ad_pipeline.Base.{
  ℕ, ◌*◌, ◌/◌, ◌≡◌, refl, ap, subst, ◌&&◌, String, str_eq, Bool, true, false, Option, none, some,
  List, [], ◌∷◌, length, select, Bool-cases, inl, inr, arith, or_else, ◌>>=◌,
}
use ott_ad_pipeline.Settlement.Batch.{Row, Cell, minute_of}
use ott_ad_pipeline.Settlement.Batch.Laws.{no_null}
use ott_ad_pipeline.Settlement.Batch.Sums.{total, passing}
use ott_ad_pipeline.Settlement.Reconcile.{parse_utc}
use ott_ad_pipeline.Settlement.Reconcile.Fetch.{within, Minute}
use ott_ad_pipeline.Settlement.Reconcile.Fetch.Window.{is_of, column_in}
use ott_ad_pipeline.Settlement.Stored.{Five, minute_row, stored}

abbrev pub in_window : String → ℕ → ℕ → Cell → Bool
in_window cid t0 t1 (some m, some c) = within t0 t1 (m * 60) && str_eq c cid
in_window cid t0 t1 (some m, none) = false
in_window cid t0 t1 (none, c) = false

pub in_window-whole :
    (cid : String) (t0 t1 : ℕ) (k : Cell) → in_window cid t0 t1 k ≡ true → no_null k ≡ true
in_window-whole cid t0 t1 (some m, some c) h = refl
in_window-whole cid t0 t1 (some m, none) h = absurd (cc h)
in_window-whole cid t0 t1 (none, c) h = absurd (cc h)

-- An event of a campaign in the window.
abbrev pub happened : String → ℕ → ℕ → Row → Bool
happened cid t0 t1 e = elim e.event_time [
  | none ↦ false
  | some t ↦ within t0 t1 t && is_of cid e.campaign_id
]

-- The window is cut to whole minutes, so that a minute is in it with all its events.
same_minute :
    (from to t : ℕ)
    → within (parse_utc from) (parse_utc to) (t / 60 * 60)
      ≡ within (parse_utc from) (parse_utc to) t
unfolding parse_utc
same_minute from to t = ground arith

and_false : (b : Bool) → false ≡ (b && false)
and_false true = refl
and_false false = refl

pub passing-happened :
    (cid : String) (from to : ℕ) (rows : List Row)
    → let t0 = parse_utc from in
      let t1 = parse_utc to in
      passing minute_of (in_window cid t0 t1) rows ≡ length (select (happened cid t0 t1) rows)
passing-happened cid from to rows = ap length (go rows)
  where
    one :
        (time : Option ℕ) (campaign : Option String)
        → in_window cid
            (parse_utc from)
            (parse_utc to)
            (elim time [ none ↦ none | some t ↦ some (t / 60) ], campaign)
          ≡ elim time [
            | none ↦ false
            | some t ↦ within (parse_utc from) (parse_utc to) t && is_of cid campaign
          ]
    one none c = refl
    one (some t) none = and_false (within (parse_utc from) (parse_utc to) t)
    one (some t) (some c) = ap (λ b. b && str_eq c cid) (same_minute from to t)

    go :
        (l : List Row)
        → select (λ e. in_window cid (parse_utc from) (parse_utc to) (minute_of e)) l
          ≡ select (happened cid (parse_utc from) (parse_utc to)) l
    go [] = refl
    go (e ∷ l) = rw (one e.event_time e.campaign_id) (rw (go l) refl)

module _ (column : Minute → Option ℕ) (f : Five → ℕ)
    (reads : (m : ℕ) (c : String) (n : Five) → or_else (column (minute_row m c n)) 0 ≡ f n)
    (cid : String) (t0 t1 : ℕ) where
  pub column_in-stored :
      (table : List (Cell × Five)) (minutes : List Minute)
      → stored table ≡ some minutes
      → column_in column cid t0 t1 minutes ≡ total f (in_window cid t0 t1) table
  unfolding stored
  column_in-stored [] minutes e =
      subst (λ ms. column_in column cid t0 t1 ms ≡ 0) (some-injective [] minutes e) refl
  column_in-stored (((some m, some c), n) ∷ table) minutes e =
      go (stored table) e (λ ms p. column_in-stored table ms p)
    where
      go :
          (o : Option (List Minute))
          → (o >>= λ ms. some (minute_row m c n ∷ ms)) ≡ some minutes
          → ((ms : List Minute)
              → o ≡ some ms
              → column_in column cid t0 t1 ms ≡ total f (in_window cid t0 t1) table)
          → column_in column cid t0 t1 minutes
            ≡ total f (in_window cid t0 t1) (((some m, some c), n) ∷ table)
      go none e rest = absurd (none-ne-some _ e)
      go (some ms) e rest =
          subst
            (λ l.
              column_in column cid t0 t1 l
              ≡ total f (in_window cid t0 t1) (((some m, some c), n) ∷ table))
            (some-injective (minute_row m c n ∷ ms) minutes e)
            (elim (Bool-cases (within t0 t1 (m * 60) && str_eq c cid)) [
              | inl b ↦ rw b (omega (arith, reads m c n, rest ms refl))
              | inr b ↦ rw b (rest ms refl)
            ])
  column_in-stored (((some m, none), n) ∷ table) minutes e = absurd (none-ne-some _ e)
  column_in-stored (((none, c), n) ∷ table) minutes e = absurd (none-ne-some _ e)
