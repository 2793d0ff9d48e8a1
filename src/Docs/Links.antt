-- ===== src/Docs/Links.antt =====
-- When `main` of scripts/ci/check_docs.py reports a link.
use mathlib.Core.List.{Memᴰ}
use mathlib.Core.List.Memᴰ.{cases_cons}
use ott_ad_pipeline.Base.{
  ℕ, ◌≡◌, refl, sym, subst, ◌↔◌, ◌⊎◌, inl, inr, Bool, true, false, not, ◌&&◌, String, str_eq,
  eq_iff, List, [], ◌∷◌, if◌then◌else◌,
}
use ott_ad_pipeline.Base.Members.{any_mem, mem_any}
use ott_ad_pipeline.Docs.{
  Patterns, Repo, Problem, no_file, no_anchor, anchors, fragment, dest_of, has_anchor, check_target,
}

-- The tests of the loop's body on a link.
abbrev chosen : (p q : Problem) (scheme exists plain document anchored : Bool) → List Problem
chosen p q scheme exists plain document anchored =
    if scheme
    then []
    else if not exists
    then p ∷ []
    else if not plain && (document && not anchored)
    then q ∷ []
    else []

abbrev Passes : (scheme exists plain document anchored : Bool) → Type 0
Passes scheme exists plain document anchored =
    (scheme ≡ true)
    ⊎ ((exists ≡ true) × ((plain ≡ true) ⊎ ((document ≡ false) ⊎ (anchored ≡ true))))

chosen-Passes : (p q : Problem) (a b c d e : Bool) → chosen p q a b c d e ≡ [] → Passes a b c d e
chosen-Passes p q true b c d e h = inl refl
chosen-Passes p q false false c d e h = absurd (cc h)
chosen-Passes p q false true true d e h = inr (refl, inl refl)
chosen-Passes p q false true false false e h = inr (refl, inr (inl refl))
chosen-Passes p q false true false true true h = inr (refl, inr (inr refl))
chosen-Passes p q false true false true false h = absurd (cc h)

Passes-chosen : (p q : Problem) (a b c d e : Bool) → Passes a b c d e → chosen p q a b c d e ≡ []
Passes-chosen p q true b c d e h = refl
Passes-chosen p q false false c d e h = absurd (elim h [ inl x ↦ cc x | inr x ↦ cc (x.0) ])
Passes-chosen p q false true true d e h = refl
Passes-chosen p q false true false false e h = refl
Passes-chosen p q false true false true true h = refl
Passes-chosen p q false true false true false h = absurd (elim h [
  | inl x ↦ cc x
  | inr (y, inl x) ↦ cc x
  | inr (y, inr (inl x)) ↦ cc (sym x)
  | inr (y, inr (inr x)) ↦ cc x
])

chosen_mem :
    (p q r : Problem) (a b c d e : Bool) → Memᴰ r (chosen p q a b c d e) → (r ≡ p) ⊎ (r ≡ q)
chosen_mem p q r a b c d e m = elim (either a m) [
  | inl k ↦ absurd (elim k [ ])
  | inr k ↦ elim (either (not b) k) [
    | inl n ↦ inl (only n)
    | inr n ↦ elim (either (not c && (d && not e)) n) [
      | inl o ↦ inr (only o)
      | inr o ↦ absurd (elim o [ ])
    ]
  ]
]
  where
    either :
        {xs ys : List Problem} (h : Bool) → Memᴰ r (if h then xs else ys) → Memᴰ r xs ⊎ Memᴰ r ys
    either true n = inl n
    either false n = inr n

    only : {x : Problem} → Memᴰ r (x ∷ []) → r ≡ x
    only n = elim (cases_cons n) [ inl e ↦ e | inr k ↦ absurd (elim k [ ]) ]

module _ (re : Patterns) (repo : Repo) where
  -- A link of a file is alive when it has a scheme, or when it leads to a file that exists and to
  -- an anchor of it, if it names one and the file is a document.
  abbrev pub Alive : String → String → Type 0
  Alive rel t =
      (re.has_scheme t ≡ true)
      ⊎ ((repo.exists (dest_of re repo rel t) ≡ true)
          × ((fragment t ≡ "")
              ⊎ ((repo.is_markdown (dest_of re repo rel t) ≡ false)
                  ⊎ Memᴰ (re.unquote (fragment t))
                      (anchors re (repo.read_text (dest_of re repo rel t))))))

  -- A problem that names the file, the line and the link.
  abbrev pub Names : Problem → String → ℕ → String → Type 0
  Names p rel n t = (p ≡ no_file rel n t) ⊎ (p ≡ no_anchor rel n t)

  has_anchor_lem :
      (text frag : String)
      → (has_anchor re text frag ≡ true) ↔ Memᴰ (re.unquote frag) (anchors re text)
  has_anchor_lem text frag = (to, from)
    where
      is : String → Bool
      is a = str_eq a (re.unquote frag)

      to : has_anchor re text frag ≡ true → Memᴰ (re.unquote frag) (anchors re text)
      to h =
          let (a, m, e) = any_mem (λ a. str_eq a (re.unquote frag)) (anchors re text) h in
          subst (λ b. Memᴰ b (anchors re text)) ((eq_iff a (re.unquote frag)).0 e) m

      from : Memᴰ (re.unquote frag) (anchors re text) → has_anchor re text frag ≡ true
      from m =
          mem_any (λ a. str_eq a (re.unquote frag)) (re.unquote frag) (anchors re text) m
            ((eq_iff (re.unquote frag) (re.unquote frag)).1 refl)

  Passes-Alive :
      (rel t : String)
      → Passes
          (re.has_scheme t)
          (repo.exists (dest_of re repo rel t))
          (str_eq (fragment t) "")
          (repo.is_markdown (dest_of re repo rel t))
          (has_anchor re (repo.read_text (dest_of re repo rel t)) (fragment t))
        ↔ Alive rel t
  Passes-Alive rel t = (
    λ h. elim h [
      | inl a ↦ inl a
      | inr (b, inl c) ↦ inr (b, inl ((eq_iff _ _).0 c))
      | inr (b, inr (inl d)) ↦ inr (b, inr (inl d))
      | inr (b, inr (inr e)) ↦ inr (b, inr (inr ((has_anchor_lem _ _).0 e)))
    ],
    λ h. elim h [
      | inl a ↦ inl a
      | inr (b, inl c) ↦ inr (b, inl ((eq_iff _ _).1 c))
      | inr (b, inr (inl d)) ↦ inr (b, inr (inl d))
      | inr (b, inr (inr e)) ↦ inr (b, inr (inr ((has_anchor_lem _ _).1 e)))
    ],
  )

  -- A link is passed over exactly when it is alive.
  pub check_target_lem :
      (rel : String) (n : ℕ) (t : String) → (check_target re repo rel n t ≡ []) ↔ Alive rel t
  unfolding check_target
  check_target_lem rel n t = (
    λ h. (Passes-Alive rel t).0 (chosen-Passes (no_file rel n t) (no_anchor rel n t) _ _ _ _ _ h),
    λ a. Passes-chosen (no_file rel n t) (no_anchor rel n t) _ _ _ _ _ ((Passes-Alive rel t).1 a),
  )

  -- A problem of a link names it, and the link is not alive.
  pub check_target-Names :
      (rel : String) (n : ℕ) (t : String) (p : Problem)
      → Memᴰ p (check_target re repo rel n t)
      → Names p rel n t × ¬ Alive rel t
  unfolding check_target
  check_target-Names rel n t p m = (
    chosen_mem (no_file rel n t) (no_anchor rel n t) p (re.has_scheme t)
        (repo.exists (dest_of re repo rel t)) (str_eq (fragment t) "")
        (repo.is_markdown (dest_of re repo rel t))
        (has_anchor re (repo.read_text (dest_of re repo rel t)) (fragment t)) m,
    λ h. absurd (elim (subst (λ l. Memᴰ p l) ((check_target_lem rel n t).1 h) m) [ ]),
  )
