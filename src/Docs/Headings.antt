-- ===== src/Docs/Headings.antt =====
-- The anchors that `anchors` of scripts/ci/check_docs.py gives to the headings.
use ott_ad_pipeline.Base.{
  ℕ, ◌+◌, ◌≡◌, refl, ap, inl, inr, Bool, Bool-cases, not, ◌||◌, String, str_eq, eq_iff, List, [],
  ◌∷◌, select, length, Option, none, some, if◌then◌else◌, arith,
}
use ott_ad_pipeline.Base.Dict.{Counter, get, put, count, get-put}
use ott_ad_pipeline.Docs.{Patterns, slug, numbered, headings}

-- The titles equal to one.
abbrev pub same : String → List String → ℕ
same s titles = length (select (λ t. str_eq t s) titles)

-- Each title with the number of equal titles before it, and before the list.
abbrev pub number : List String → List String → List String
number before [] = []
number before (s ∷ titles) = numbered s (same s before) ∷ number (s ∷ before) titles

-- The dict counts the titles before.
abbrev Counts : Counter → List String → Type 0
Counts seen before = (s : String) → count s seen ≡ same s before

no_counts : Counts [] []
unfolding count get
no_counts s = refl

count-Counts :
    (seen : Counter) (before : List String) (t : String)
    → Counts seen before
    → Counts (put t (count t seen + 1) seen) (t ∷ before)
unfolding count
count-Counts seen before t h s = elim (Bool-cases (str_eq t s)) [
  | inl e ↦
      rw (get-put t s (count t seen + 1) seen, e)
        (omega (arith, h t, ap (λ r. same r before) ((eq_iff t s).0 e)))
  | inr e ↦ rw (get-put t s (count t seen + 1) seen, e) (h s)
]

module _ (re : Patterns) where
  -- The slugs of the headings outside the blocks of code.
  abbrev pub titles : Bool → List String → List String
  titles fenced [] = []
  titles fenced (line ∷ lines) =
      let rest = titles (if re.fence line then not fenced else fenced) lines in
      elim (if re.fence line || fenced then none else re.heading line) [
        | none ↦ rest
        | some title ↦ slug re title ∷ rest
      ]

  headings_from :
      (fenced : Bool) (lines : List String) (seen : Counter) (before : List String)
      → Counts seen before
      → headings re fenced lines seen ≡ number before (titles fenced lines)
  unfolding headings
  headings_from fenced [] seen before h = refl
  headings_from fenced (line ∷ lines) seen before h =
      let next = if re.fence line then not fenced else fenced in
      go (if re.fence line || fenced then none else re.heading line) (headings re next lines)
        (titles next lines) (headings_from next lines)
    where
      go :
          (o : Option String) (anchors : Counter → List String) (rest : List String)
          → ((s : Counter) (b : List String) → Counts s b → anchors s ≡ number b rest)
          → (elim o [
            | none ↦ anchors seen
            | some title ↦
                let s = slug re title in
                let n = count s seen in numbered s n ∷ anchors (put s (n + 1) seen)
          ])
            ≡ number before (elim o [ none ↦ rest | some title ↦ slug re title ∷ rest ])
      go none anchors rest k = k seen before h
      go (some title) anchors rest k =
          rw
            (
              k (put (slug re title) (count (slug re title) seen + 1) seen) (slug re title ∷ before)
                  (count-Counts seen before (slug re title) h),
              h (slug re title),
            )
            refl

  -- The anchors of the headings are their slugs in order, each with the number of equal slugs
  -- before it when there are some; headings in blocks of code have none.
  pub headings_lem :
      (fenced : Bool) (lines : List String)
      → headings re fenced lines [] ≡ number [] (titles fenced lines)
  headings_lem fenced lines = headings_from fenced lines [] [] no_counts
