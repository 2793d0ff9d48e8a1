-- ===== src/Docs/Reports.antt =====
-- That `main` of scripts/ci/check_docs.py reports the links that are not alive, each at its line.
use mathlib.Core.List.{Memᴰ}
use mathlib.Core.List.Memᴰ.{head, tail, append_cases}
use ott_ad_pipeline.Base.{
  All, ◌↔◌, ℕ, suc, ◌+◌, ◌≡◌, refl, ap, subst, ◌∙◌, inl, inr, String, List, [], ◌∷◌, ◌++◌,
  get_elem?, some, false, arith,
}
use ott_ad_pipeline.Docs.{
  Patterns, Repo, Problem, strip_code, check_target, check_targets, check_lines, check_files, main,
}
use ott_ad_pipeline.Docs.Links.{Alive, Names, check_target-Names, check_target_lem}
use ott_ad_pipeline.Docs.Lines.{Kept, links_of, strip_code-Kept}

module _ (re : Patterns) (repo : Repo) where
  abbrev pub text_of : String → List String
  text_of rel = re.splitlines (repo.read_text rel)

  abbrev pub AllAlive : List String → Type 0
  AllAlive files =
      All
        (λ rel.
          All (λ line. All (Alive re repo rel) (links_of re line))
            (strip_code re false (text_of rel)))
        files

  split_nil {ℓ} : {A : Type ℓ} (xs ys : List A) → xs ++ ys ≡ [] → (xs ≡ []) × (ys ≡ [])
  split_nil [] ys h = (refl, h)
  split_nil (x ∷ xs) ys h = absurd (cc h)

  both_nil {ℓ} : {A : Type ℓ} {xs ys : List A} → xs ≡ [] → ys ≡ [] → xs ++ ys ≡ []
  both_nil e f = rw (e, f) refl

  targets_lem :
      (rel : String) (n : ℕ) (ts : List String)
      → (check_targets re repo rel n ts ≡ []) ↔ All (Alive re repo rel) ts
  unfolding check_targets
  targets_lem rel n [] = (λ h. tt, λ h. refl)
  targets_lem rel n (t ∷ ts) = (
    λ h.
        let (e, f) = split_nil _ _ h in
        ((check_target_lem re repo rel n t).0 e, (targets_lem rel n ts).0 f),
    λ (a, rest). both_nil ((check_target_lem re repo rel n t).1 a) ((targets_lem rel n ts).1 rest),
  )

  lines_lem :
      (rel : String) (n : ℕ) (lines : List String)
      → (check_lines re repo rel n lines ≡ [])
        ↔ All (λ line. All (Alive re repo rel) (links_of re line)) lines
  unfolding check_lines
  lines_lem rel n [] = (λ h. tt, λ h. refl)
  lines_lem rel n (line ∷ lines) = (
    λ h.
        let (e, f) = split_nil _ _ h in
        ((targets_lem rel n (links_of re line)).0 e, (lines_lem rel (suc n) lines).0 f),
    λ (a, rest).
        both_nil ((targets_lem rel n (links_of re line)).1 a)
          ((lines_lem rel (suc n) lines).1 rest),
  )

  files_lem : (files : List String) → (check_files re repo files ≡ []) ↔ AllAlive files
  unfolding check_files
  files_lem [] = (λ h. tt, λ h. refl)
  files_lem (rel ∷ files) = (
    λ h.
        let (e, f) = split_nil _ _ h in
        ((lines_lem rel 1 (strip_code re false (text_of rel))).0 e, (files_lem files).0 f),
    λ (a, rest).
        both_nil ((lines_lem rel 1 (strip_code re false (text_of rel))).1 a)
          ((files_lem files).1 rest),
  )

  -- The check of the documents succeeds exactly when every link of every document, in the lines
  -- that it looks at, is alive.
  pub main_lem : (files : List String) → (main re repo files ≡ 0) ↔ AllAlive files
  unfolding main
  main_lem files = (
    λ h. (files_lem files).0 (to (check_files re repo files) h),
    λ a. rw ((files_lem files).1 a, main) refl,
  )
    where
      to : (ps : List Problem) → (let c : ℕ = elim ps [ [] ↦ 0 | q ∷ qs ↦ 1 ] in c ≡ 0) → ps ≡ []
      to [] h = refl
      to (p ∷ ps) h = absurd (omega arith)

  -- Where a problem comes from.
  targets_mem :
      (rel : String) (n : ℕ) (ts : List String) (p : Problem)
      → Memᴰ p (check_targets re repo rel n ts)
      → (t : String) × Memᴰ t ts × Names re repo p rel n t × ¬ Alive re repo rel t
  unfolding check_targets
  targets_mem rel n [] p m = absurd (elim m [ ])
  targets_mem rel n (t ∷ ts) p m = elim (append_cases (check_target re repo rel n t) m) [
    | inl k ↦
        let (named, dead) = check_target-Names re repo rel n t p k in (t, head refl, named, dead)
    | inr k ↦ let (s, i, named, dead) = targets_mem rel n ts p k in (s, tail i, named, dead)
  ]

  lines_mem :
      (rel : String) (n : ℕ) (lines : List String) (p : Problem)
      → Memᴰ p (check_lines re repo rel n lines)
      → (i : ℕ) × (line t : String) × (get_elem? lines i ≡ some line)
        × Memᴰ t (links_of re line)
        × Names re repo p rel (n + i) t
        × ¬ Alive re repo rel t
  unfolding check_lines
  lines_mem rel n [] p m = absurd (elim m [ ])
  lines_mem rel n (line ∷ lines) p m =
      elim (append_cases (check_targets re repo rel n (links_of re line)) m) [
        | inl k ↦
            let (t, i, named, dead) = targets_mem rel n (links_of re line) p k in
            (0, line, t, refl, i, subst (λ j. Names re repo p rel j t) (omega arith) named, dead)
        | inr k ↦
            let (i, text, t, e, l, named, dead) = lines_mem rel (suc n) lines p k in
            (suc i, text, t, e, l, subst (λ j. Names re repo p rel j t) (omega arith) named, dead)
      ]

  -- A dead link of a document, at a line that is outside the blocks of code.
  pub record Broken (files : List String) (p : Problem) : Type 0 where
    pub rel : String
    pub index : ℕ
    pub text : String
    pub target : String
    pub is_file : Memᴰ rel files
    pub is_kept : Kept re false (text_of rel) index text
    pub is_link : Memᴰ target (links_of re text)
    pub named : Names re repo p rel (1 + index) target
    pub is_dead : ¬ Alive re repo rel target

  -- When an empty line has no links, a reported problem names a document, the number of one of its
  -- lines, counted from 1, which is no fence and stands outside the blocks of code, and a link of
  -- this line without its inline code that is not alive.
  pub check_files-Broken :
      (files : List String) (p : Problem)
      → links_of re "" ≡ []
      → Memᴰ p (check_files re repo files)
      → Broken files p
  unfolding check_files
  check_files-Broken [] p h m = absurd (elim m [ ])
  check_files-Broken (rel ∷ files) p h m =
      elim (append_cases (check_lines re repo rel 1 (strip_code re false (text_of rel))) m) [
        | inl k ↦
            let (i, text, t, e, l, named, dead) =
              lines_mem rel 1 (strip_code re false (text_of rel)) p k in
            record {
              rel = rel;
              index = i;
              text = text;
              target = t;
              is_file = head refl;
              is_kept = elim (strip_code-Kept re false (text_of rel) i text e) [
                | inl q ↦ absurd (elim (subst (λ ls. Memᴰ t ls) (ap (links_of re) q ∙ h) l) [ ])
                | inr kept ↦ kept
              ];
              is_link = l;
              named = named;
              is_dead = dead;
            }
        | inr k ↦
            let b = check_files-Broken files p h k in
            record {
              rel = b.rel;
              index = b.index;
              text = b.text;
              target = b.target;
              is_file = tail b.is_file;
              is_kept = b.is_kept;
              is_link = b.is_link;
              named = b.named;
              is_dead = b.is_dead;
            }
      ]
