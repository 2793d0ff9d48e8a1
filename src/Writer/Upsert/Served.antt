-- ===== src/Writer/Upsert/Served.antt =====
-- What `/agg/summary` of redis-writer/writer.py answers behind the consumer of the same program.
use mathlib.Core.List.{Memᴰ}
use mathlib.Core.List.Memᴰ.{head, tail}
use ott_ad_pipeline.Base.{
  ℕ, ◌+◌, ◌≤◌, ◌≡◌, refl, sym, ap, subst, ◌∙◌, leb, String, str_eq, Bool, true, false, Option, none,
  some, List, [], ◌∷◌, map, select, if◌then◌else◌, or_else,
}
use ott_ad_pipeline.Base.Members.{select_mem}
use ott_ad_pipeline.Base.Dict.{Dict, get}
use ott_ad_pipeline.Event.{Event}
use ott_ad_pipeline.Writer.{Redis, Counts, Poll, consume_all, agg_key, ttl_seconds}
use ott_ad_pipeline.Writer.Clock.{ClockLaws, overdue, kept}
use ott_ad_pipeline.Writer.Steps.{InOrder}
use ott_ad_pipeline.Writer.Summary.{
  Acc, Amounts, zeros, amount, read_hash, campaign_of, summary_between,
}
use ott_ad_pipeline.Writer.Sums.{share, total, amounts_of}
use ott_ad_pipeline.Writer.Upsert.{HashLaws, Written, latest, shown, InHash}
use ott_ad_pipeline.Writer.Upsert.Lasting.{field-consume_all}
use ott_ad_pipeline.Writer.Windows.{IndexLaws, in_window, between_total}
use ott_ad_pipeline.Writer.Windows.Indexed.{IndexWrites, AllEntries, consume_all-AllEntries}

-- The fields that are summed.
fields :
    InHash "campaign_id"
    × InHash "impressions"
    × InHash "clicks"
    × InHash "completes"
    × InHash "requests"
    × InHash "ssai_dupes"
unfolding get
fields = (
  λ d start now. refl,
  λ d start now. refl,
  λ d start now. refl,
  λ d start now. refl,
  λ d start now. refl,
  λ d start now. refl,
)

-- Two hashes with the same value of a field.
abbrev SameAt : Dict String → Dict String → String → Type 0
SameAt h g f = get f h ≡ get f g

module _ (read : String → Option ℕ) (j : String) where
  amount-SameAt :
      (f : String) (h g : Dict String) → SameAt h g f → amount read f h ≡ amount read f g
  unfolding amount
  amount-SameAt f h g e = rw (e, amount) refl

  campaign_of-SameAt :
      (h g : Dict String) → SameAt h g "campaign_id" → campaign_of read h ≡ campaign_of read g
  unfolding campaign_of
  campaign_of-SameAt h g e = rw (e, campaign_of) refl

  read_hash-SameAt :
      (h g : Dict String)
      → ((f : String) → InHash f → SameAt h g f)
      → read_hash read h ≡ read_hash read g
  unfolding read_hash
  read_hash-SameAt h g same =
      rw
        (
          amount-SameAt "impressions" h g (same "impressions" fields.1),
          amount-SameAt "clicks" h g (same "clicks" fields.2),
          amount-SameAt "completes" h g (same "completes" fields.3),
          amount-SameAt "requests" h g (same "requests" fields.4),
          amount-SameAt "ssai_dupes" h g (same "ssai_dupes" fields.5),
          read_hash,
        )
        refl

  share-SameAt :
      (h g : Dict String)
      → ((f : String) → InHash f → SameAt h g f)
      → share read j h ≡ share read j g
  unfolding share
  share-SameAt h g same =
      ap pick (campaign_of-SameAt h g (same "campaign_id" fields.0))
      ∙ ap (λ a. of_hash a (campaign_of read g)) (read_hash-SameAt h g same)
    where
      of_hash : Option Amounts → Option String → Amounts
      of_hash a none = zeros
      of_hash a (some cid) = if str_eq cid j then or_else a zeros else zeros

      pick : Option String → Amounts
      pick o = of_hash (read_hash read h) o

  total-SameAt :
      (h g : String × ℕ → Dict String) (l : List (String × ℕ))
      → ((k : String × ℕ) (f : String) → Memᴰ k l → InHash f → SameAt (h k) (g k) f)
      → total read j (map h l) ≡ total read j (map g l)
  unfolding total
  total-SameAt h g [] same = refl
  total-SameAt h g (k ∷ l) same = cc (
    share-SameAt (h k) (g k) (λ f. same k f (head refl)),
    total-SameAt h g l (λ i f m. same i f (tail m)),
  )

-- What is counted of a key at an instant: the last hash for it, if its time to live is not over.
abbrev pub alive_hash : ℕ → Written → Dict String
alive_hash n none = []
alive_hash n (some (h, at)) = if leb (at + ttl_seconds) n then [] else h

shown-alive : (f : String) (n : ℕ) (o : Written) → shown f n o none ≡ get f (alive_hash n o)
unfolding get
shown-alive f n none = refl
shown-alive f n (some (h, at)) = go (leb (at + ttl_seconds) n)
  where
    go : (b : Bool) → (if b then none else get f h) ≡ get f (if b then [] else h)
    go true = refl
    go false = refl

module _ (read : String → Option ℕ) (r : Redis) (time : ClockLaws r) (hashes : HashLaws r time)
    (index : IndexLaws r) (writes : IndexWrites r index) (instant : String → Option ℕ)
    (dump : Event → String) where
  fresh_wait :
      (k f : String) (n : ℕ) (s : r.Store)
      → r.hgetall k s ≡ []
      → get f (r.hgetall k (r.wait n s)) ≡ none
  unfolding get
  fresh_wait k f n s fresh =
      ap (get f) (hashes.wait_hash k n s ∙ ap (kept n (time.expires k s)) fresh)
      ∙ go (overdue n (time.expires k s))
    where
      go : (b : Bool) → get {V = String} f (if b then [] else []) ≡ none
      go true = refl
      go false = refl

  -- From an empty store on, whatever the consumer reads, at times that do not decrease: if
  -- /agg/summary answers at an instant after it, then its sums for a campaign are the sums over the
  -- entries that the index has in the window, each with the counts of the last aggregate that came
  -- for its campaign and minute, if it came less than 48 hours before, and none otherwise.
  pub summary_between-latest :
      (ms : List Poll) (s : r.Store) (c : Counts) (from n a b : ℕ) (x : Dict Acc) (j : String)
      → ((k : String) → r.hgetall k s ≡ [])
      → index.index s ≡ []
      → time.clock s ≤ from
      → InOrder from ms n
      → summary_between read r a b (r.wait n (consume_all r instant dump ms (s, c)).0) ≡ some x
      → amounts_of j x
        ≡ total read j (
            map
              (λ k. alive_hash n (latest instant k.0 ms))
              (select
                (λ k. in_window a b k.1)
                (index.index (r.wait n (consume_all r instant dump ms (s, c)).0))))
  summary_between-latest ms s c from n a b x j fresh empty at o e =
      let t = r.wait n (consume_all r instant dump ms (s, c)).0 in
      between_total read r index j a b t x e
      ∙ total-SameAt read j _ (λ k. alive_hash n (latest instant k.0 ms)) _
          (λ k f m field.
            let (cid, start, p, q) =
              consume_all-AllEntries r index writes instant dump ms s c none_yet k (
                writes.wait_index n _ k
                  (select_mem (λ i. in_window a b i.1) k (index.index t) m).0) in
            subst (λ i. get f (r.hgetall i t) ≡ get f (alive_hash n (latest instant i ms))) (sym q)
              (field-consume_all r time hashes instant dump f cid k.1 n from ms s c field at o
                ∙ ap (shown f n (latest instant (agg_key cid k.1) ms))
                    (fresh_wait (agg_key cid k.1) f n s (fresh _))
                ∙ shown-alive f n (latest instant (agg_key cid k.1) ms)))
    where
      none_yet : AllEntries r index writes instant dump s
      none_yet x m = absurd (elim (subst (λ l. Memᴰ x l) empty m) [ ])
