-- ===== src/Docs/Lines.antt =====
-- Which lines of a text `strip_code` of scripts/ci/check_docs.py keeps.
use mathlib.Core.Option.{some-injective}
use ott_ad_pipeline.Base.{
  ℕ, suc, zero, ◌+◌, ◌%◌, ◌≡◌, refl, sym, subst, ◌∙◌, ◌⊎◌, inl, inr, Bool, Bool-cases, true, false,
  not, ◌||◌, String, List, [], ◌∷◌, ◌++◌, get_elem?, take, select, length, some, if◌then◌else◌,
  arith,
}
use ott_ad_pipeline.Docs.{Patterns, strip_code}

-- 1 inside a block of code.
abbrev pub depth : Bool → ℕ
depth true = 1
depth false = 0

module _ (re : Patterns) where
  abbrev pub links_of : String → List String
  links_of line = re.link line ++ re.html_src line

  -- The fences before a line.
  abbrev pub fences : ℕ → List String → ℕ
  fences i lines = length (select re.fence (take i lines))

  -- A line of a text that `strip_code` keeps: no fence, and outside the blocks.
  pub record Kept (fenced : Bool) (lines : List String) (i : ℕ) (text : String) : Type 0 where
    pub line : String
    pub is_line : get_elem? lines i ≡ some line
    pub no_fence : re.fence line ≡ false
    pub outside : (depth fenced + fences i lines) % 2 ≡ 0
    pub stripped : text ≡ re.without_code line

  -- Past a line, with the state that its fence leaves.
  next-Kept :
      {fenced : Bool} (line : String) {lines : List String} {i : ℕ} {text : String}
      → Kept (if re.fence line then not fenced else fenced) lines i text
      → Kept fenced (line ∷ lines) (suc i) text
  next-Kept {fenced} line {lines} {i} k = record {
    line = k.line;
    is_line = k.is_line;
    no_fence = k.no_fence;
    outside = elim (Bool-cases (re.fence line)) [
      | inl e ↦ rw e (
          go fenced (fences i lines) (
            subst (λ b. (depth (if b then not fenced else fenced) + fences i lines) % 2 ≡ 0) e
              k.outside))
      | inr e ↦ rw e (
          subst (λ b. (depth (if b then not fenced else fenced) + fences i lines) % 2 ≡ 0) e
            k.outside)
    ];
    stripped = k.stripped;
  }
    where
      go : (b : Bool) (n : ℕ) → (depth (not b) + n) % 2 ≡ 0 → (depth b + suc n) % 2 ≡ 0
      go true n h = omega arith
      go false n h = omega arith

  first-Kept :
      (fenced : Bool) (line : String) (lines : List String)
      → (re.fence line || fenced) ≡ false
      → Kept fenced (line ∷ lines) 0 (re.without_code line)
  first-Kept fenced line lines h = record {
    line = line;
    is_line = refl;
    no_fence = (neither (re.fence line) fenced h).0;
    outside = rw (neither (re.fence line) fenced h).1 refl;
    stripped = refl;
  }
    where
      neither : (a b : Bool) → (a || b) ≡ false → (a ≡ false) × (b ≡ false)
      neither true b h = absurd (cc h)
      neither false b h = (refl, h)

  pub strip_code-Kept :
      (fenced : Bool) (lines : List String) (i : ℕ) (text : String)
      → get_elem? (strip_code re fenced lines) i ≡ some text
      → (text ≡ "") ⊎ Kept fenced lines i text
  unfolding strip_code
  strip_code-Kept fenced [] i text h = absurd (cc h)
  strip_code-Kept fenced (line ∷ lines) zero text h = elim (Bool-cases (re.fence line || fenced)) [
    | inl e ↦ inl (sym (sym (rw e refl) ∙ some-injective _ text h))
    | inr e ↦ inr (
        subst (λ t. Kept fenced (line ∷ lines) 0 t) (sym (rw e refl) ∙ some-injective _ text h)
          (first-Kept fenced line lines e))
  ]
  strip_code-Kept fenced (line ∷ lines) (suc i) text h =
      elim (strip_code-Kept (if re.fence line then not fenced else fenced) lines i text h) [
        | inl e ↦ inl e
        | inr k ↦ inr (next-Kept line k)
      ]
