-- ===== src/Writer/Tests/Memory.antt =====
-- A Redis in memory, which has the documented laws.
use mathlib.Core.List.{Memᴰ}
use mathlib.Core.List.Memᴰ.{head, tail, cases_cons}
use mathlib.Core.Option.{none-ne-some}
use ott_ad_pipeline.Base.{
  ℕ, zero, suc, ◌+◌, ◌-◌, ◌≡◌, refl, ap, ◌∙◌, String, str_eq, eq_iff, Bool, true, false, ◌&&◌, ◌||◌,
  leb, Option, none, some, List, [], ◌∷◌, ◌++◌, take, drop, select, if◌then◌else◌, or_else, is_some,
  Bool-cases, Option-cases, inl, inr, ◌⊎◌,
}
use ott_ad_pipeline.Base.Dict.{Dict, get, put, get-put}
use ott_ad_pipeline.Writer.{Redis}
use ott_ad_pipeline.Writer.Clock.{ClockLaws, overdue}
use ott_ad_pipeline.Writer.Queue.{ListLaws}
use ott_ad_pipeline.Writer.Upsert.{HashLaws, override}
use ott_ad_pipeline.Writer.Windows.{IndexLaws}
use ott_ad_pipeline.Writer.Windows.Indexed.{IndexWrites}

pub record Store : Type 0 where
  pub lists : Dict (List String)
  pub hashes : Dict (Dict String)
  pub index : List (String × ℕ)
  pub clock : ℕ
  pub ends : Dict ℕ

abbrev pub list_of : String → Store → List String
list_of k s = or_else (get k s.lists) []

abbrev pub set_list : String → List String → Store → Store
set_list k l s = record s { lists = put k l s.lists }

abbrev pub trim_list : ℕ → ℕ → List String → List String
trim_list zero b l = take (suc b) l
trim_list (suc a) b l = take (b - a) (drop (suc a) l)

-- The entries whose keys are not gone.
abbrev pub without {ℓ} : {V : Type ℓ} → (String → Bool) → Dict V → Dict V
without gone [] = []
without gone ((k, v) ∷ d) = let rest = without gone d in if gone k then rest else (k, v) ∷ rest

abbrev pub has_key : String → Store → Bool
has_key k s = is_some (get k s.hashes) || is_some (get k s.lists)

abbrev pub is_gone : ℕ → Store → String → Bool
is_gone n s k = overdue n (get k s.ends)

abbrev pub redis : Redis
redis = record {
  Store = Store;
  wait = λ n s. record s {
    clock = n;
    lists = without (is_gone n s) s.lists;
    hashes = without (is_gone n s) s.hashes;
    ends = without (is_gone n s) s.ends;
  };
  hset = λ k h s. record s { hashes = put k (h ++ or_else (get k s.hashes) []) s.hashes };
  expire = λ k t s. record s { ends = if has_key k s then put k (s.clock + t) s.ends else s.ends };
  sadd = λ k v s. s;
  zadd = λ k v n s. record s { index = put v n s.index };
  zremrangebyscore = λ k a b s. s;
  incr = λ k s. s;
  lpush = λ k v s. set_list k (v ∷ list_of k s) s;
  ltrim = λ k a b s. set_list k (trim_list a b (list_of k s)) s;
  hgetall = λ k s. or_else (get k s.hashes) [];
  zrangebyscore =
      λ k a b s. if str_eq k "agg:index" then select (λ e. leb a e.1 && leb e.1 b) s.index else [];
  count_at = λ k s. 0;
  list_at = list_of;
}

pub get-without {ℓ} :
    {V : Type ℓ} (gone : String → Bool) (k : String) (d : Dict V)
    → get k (without gone d) ≡ (if gone k then none else get k d)
unfolding get
get-without gone k [] = elim (Bool-cases (gone k)) [ inl e ↦ rw e refl | inr e ↦ rw e refl ]
get-without gone k ((j, v) ∷ d) = elim (Bool-cases (str_eq j k)) [
  | inl e ↦ elim (Bool-cases (gone k)) [
    | inl g ↦ rw (ap gone ((eq_iff j k).0 e) ∙ g, get-without gone k d, g) refl
    | inr g ↦ rw (ap gone ((eq_iff j k).0 e) ∙ g, g) (rw (e, get) refl)
  ]
  | inr e ↦ elim (Bool-cases (gone j)) [
    | inl g ↦ rw (g, get-without gone k d) (rw (e, get) refl)
    | inr g ↦ rw g (rw (e, get) (get-without gone k d))
  ]
]

pub list_of-set_list : (k : String) (l : List String) (s : Store) → list_of k (set_list k l s) ≡ l
list_of-set_list k l s = rw (get-put k k l s.lists) (rw ((eq_iff k k).1 refl) refl)

pub or_else-kept {ℓ} :
    {A : Type ℓ} (b : Bool) (o : Option (List A))
    → or_else (if b then none else o) [] ≡ (if b then [] else or_else o [])
or_else-kept true o = refl
or_else-kept false o = refl

pub same :
    (k : String) (t : ℕ) (s : Store)
    → has_key k s ≡ true
    → get k (redis.expire k t s).ends ≡ some (s.clock + t)
same k t s h = rw h (get-put k k (s.clock + t) s.ends ∙ rw ((eq_iff k k).1 refl) refl)

pub other :
    (k j : String) (t : ℕ) (s : Store)
    → str_eq j k ≡ false
    → get k (redis.expire j t s).ends ≡ get k s.ends
other k j t s e = elim (Bool-cases (has_key j s)) [
  | inl h ↦ rw h (get-put j k (s.clock + t) s.ends ∙ rw e refl)
  | inr h ↦ rw h refl
]

abbrev pub clock_laws : ClockLaws redis
clock_laws = record {
  clock = λ s. s.clock;
  expires = λ k s. get k s.ends;
  has_key = has_key;
  wait_clock = λ n s h. refl;
  wait_expires = λ k n s. get-without (is_gone n s) k s.ends;
  expire_same = same;
  expire_other = other;
  hset_expires = λ k j h s. refl;
  sadd_expires = λ k j v s. refl;
  zadd_expires = λ k j v n s. refl;
  zrem_expires = λ k j a b s h. refl;
  incr_expires = λ k j s. refl;
  lpush_expires = λ k j v s. refl;
  ltrim_expires = λ k j n s. refl;
  hset_clock = λ j h s. refl;
  expire_clock = λ j t s. refl;
  sadd_clock = λ j v s. refl;
  zadd_clock = λ j v n s. refl;
  zrem_clock = λ j a b s. refl;
  incr_clock = λ j s. refl;
  lpush_clock = λ j v s. refl;
  ltrim_clock = λ j n s. refl;
}

pub list_key :
    (k v : String) (l : List String) (s : Store) → list_of k s ≡ v ∷ l → has_key k s ≡ true
list_key k v l s = elim (Option-cases (get k s.lists)) [
  | inl e ↦ rw e (λ h. absurd (cc h))
  | inr (m, e) ↦ rw e (λ h. or_true (is_some (get k s.hashes)))
]
  where
    or_true : (b : Bool) → (b || true) ≡ true
    or_true true = refl
    or_true false = refl

abbrev pub redis_laws : ListLaws redis clock_laws
redis_laws = record {
  lpush_same = λ k v s. list_of-set_list k _ s;
  ltrim_same = λ k n s. list_of-set_list k _ s;
  wait_list = λ k n s.
      ap (λ o. or_else o []) (get-without (is_gone n s) k s.lists)
      ∙ or_else-kept (is_gone n s k) (get k s.lists);
  list_key = list_key;
  expire_any = λ k j t s h. refl;
  incr_other = λ k j s h. refl;
  hset_other = λ k j h s e. refl;
  sadd_other = λ k j v s e. refl;
  zadd_other = λ k j v n s e. refl;
  zrem_other = λ k j a b s e. refl;
}

abbrev pub index_laws : IndexLaws redis
index_laws = record { index = λ s. s.index; range_is = λ a b s. refl }

get-append : (f : String) (h old : Dict String) → get f (h ++ old) ≡ override (get f h) (get f old)
unfolding get
get-append f [] old = refl
get-append f ((j, v) ∷ h) old = elim (Bool-cases (str_eq j f)) [
  | inl e ↦ rw (e, get)
  | inr e ↦ rw (e, get) (get-append f h old)
]

pub hset_field_lem :
    (f k j : String) (h : Dict String) (s : Store)
    → get f (redis.hgetall k (redis.hset j h s)) ≡ (
        if str_eq j k
        then override (get f h) (get f (redis.hgetall k s))
        else get f (redis.hgetall k s))
hset_field_lem f k j h s = elim (Bool-cases (str_eq j k)) [
  | inl e ↦ rw (get-put j k (h ++ or_else (get j s.hashes) []) s.hashes) (
      rw e (
        get-append f h (or_else (get j s.hashes) [])
        ∙ ap (λ i. override (get f h) (get f (or_else (get i s.hashes) []))) ((eq_iff j k).0 e)))
  | inr e ↦ rw (get-put j k (h ++ or_else (get j s.hashes) []) s.hashes) (rw e refl)
]

pub hash_key :
    (f k v : String) (s : Store) → get f (redis.hgetall k s) ≡ some v → has_key k s ≡ true
unfolding get
hash_key f k v s = elim (Option-cases (get k s.hashes)) [
  | inl e ↦ rw e (λ h. absurd (none-ne-some v h))
  | inr (m, e) ↦ rw e (λ h. refl)
]

abbrev pub hash_laws : HashLaws redis clock_laws
hash_laws = record {
  hset_field = hset_field_lem;
  wait_hash = λ k n s.
      ap (λ o. or_else o []) (get-without (is_gone n s) k s.hashes)
      ∙ or_else-kept (is_gone n s k) (get k s.hashes);
  hash_key = hash_key;
  expire_hash = λ k j t s h. refl;
  incr_hash = λ k j s. refl;
  lpush_hash = λ k j v s. refl;
  ltrim_hash = λ k j a b s. refl;
  sadd_hash = λ k j v s. refl;
  zadd_hash = λ k j v n s. refl;
  zrem_hash = λ k j a b s. refl;
}

pub mem_put :
    (k : String) (n : ℕ) (d : Dict ℕ) (x : String × ℕ)
    → Memᴰ x (put k n d)
    → (x ≡ (k, n)) ⊎ Memᴰ x d
unfolding put
mem_put k n [] x = λ m. elim (cases_cons m) [ inl e ↦ inl e | inr r ↦ absurd (elim r [ ]) ]
mem_put k n ((j, v) ∷ d) x = elim (Bool-cases (str_eq j k)) [
  | inl e ↦
      rw (e, put)
        (λ m. elim (cases_cons m) [
          | inl q ↦ inl (q ∙ ap {B = String × ℕ} (λ i. (i, n)) ((eq_iff j k).0 e))
          | inr r ↦ inr (tail r)
        ])
  | inr e ↦
      rw (e, put)
        (λ m. elim (cases_cons m) [
          | inl q ↦ inr (head q)
          | inr r ↦ elim (mem_put k n d x r) [ inl q ↦ inl q | inr y ↦ inr (tail y) ]
        ])
]

pub index_writes : IndexWrites redis index_laws
index_writes = record {
  wait_index = λ n s x m. m;
  zadd_index = λ k n s x m. mem_put k n s.index x m;
  zrem_index = λ a b s x m. m;
  hset_index = λ k h s. refl;
  expire_index = λ k t s. refl;
  sadd_index = λ k v s. refl;
  incr_index = λ k s. refl;
  lpush_index = λ k v s. refl;
  ltrim_index = λ k a b s. refl;
}
