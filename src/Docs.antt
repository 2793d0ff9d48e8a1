-- ===== src/Docs.antt =====
-- scripts/ci/check_docs.py: the check that the links of the repository's documents are alive.
-- Regular expressions, the other operations on texts and the file system are parameters.
pub mod Links
pub mod Lines
pub mod Reports
pub mod Headings
mod Tests
use Prim.Native.String.{◌++◌ as str_append, len, find, slice}
use ott_ad_pipeline.Base.{
  ℕ, suc, ◌+◌, ◌==◌, ◌&&◌, ◌||◌, not, String, str_eq, Bool, true, false, Option, none, some, List,
  [], ◌∷◌, ◌++◌, any, if◌then◌else◌,
}
use ott_ad_pipeline.Base.Dict.{Counter, count, put}
use ott_ad_pipeline.Event.{num}
use ott_ad_pipeline.Signing.{show}

-- What the expressions find in a line or a text, and what they replace.
pub record Patterns : Type 0 where
  pub splitlines : String → List String
  pub fence : String → Bool
  -- the title of a heading
  pub heading : String → Option String
  pub link : String → List String
  pub html_src : String → List String
  -- `http:`, `mailto:` and the like
  pub has_scheme : String → Bool
  pub named_ids : String → List String
  pub without_code : String → String
  pub without_html : String → String
  pub link_texts : String → String
  pub without_ticks : String → String
  pub strip : String → String
  pub lower : String → String
  pub without_symbols : String → String
  pub spaces_to_dashes : String → String
  pub unquote : String → String

-- The repository: the texts of its files, and where a path leads from a file.
pub record Repo : Type 0 where
  pub read_text : String → String
  pub exists : String → Bool
  pub is_markdown : String → Bool
  pub resolve : (src path : String) → String

pub data Problem : Type 0 where
  no_file : (rel : String) (lineno : ℕ) (target : String) → Problem
  no_anchor : (rel : String) (lineno : ℕ) (target : String) → Problem

-- `target.partition("#")` without the separator.
abbrev pub path_part : String → String
path_part target = slice target 0 (find target "#")

abbrev pub fragment : String → String
fragment target = slice target (find target "#" + 1) (len target)

-- The anchor of a title that came n times before.
unfoldable pub numbered : String → ℕ → String
unfolding show
numbered s n = if n == 0 then s else str_append s (str_append "-" (show (num n)))

module _ (re : Patterns) where
  -- The loop of `strip_code`.
  unfoldable pub strip_code : Bool → List String → List String
  strip_code fenced [] = []
  strip_code fenced (line ∷ lines) =
      let text = if re.fence line || fenced then "" else re.without_code line in
      text ∷ strip_code (if re.fence line then not fenced else fenced) lines

  unfoldable pub slug : String → String
  slug title = re.spaces_to_dashes (
      re.without_symbols
        (re.lower (re.strip (re.without_ticks (re.link_texts (re.without_html title))))))

  -- The loop of `anchors`, with the titles seen so far.
  unfoldable pub headings : Bool → List String → Counter → List String
  unfolding slug numbered count put
  headings fenced [] seen = []
  headings fenced (line ∷ lines) seen =
      let rest = headings (if re.fence line then not fenced else fenced) lines in
      elim (if re.fence line || fenced then none else re.heading line) [
        | none ↦ rest seen
        | some title ↦
            let s = slug title in let n = count s seen in numbered s n ∷ rest (put s (n + 1) seen)
      ]

  unfoldable pub anchors : String → List String
  unfolding headings
  anchors text = headings false (re.splitlines text) [] ++ re.named_ids text

  abbrev pub has_anchor : String → String → Bool
  has_anchor text frag = any (λ a. str_eq a (re.unquote frag)) (anchors text)

  module _ (repo : Repo) where
    -- The file that a link of `src` leads to.
    abbrev pub dest_of : String → String → String
    dest_of src target =
        if str_eq (path_part target) ""
        then src
        else repo.resolve src (re.unquote (path_part target))

    -- The body of the loop over the links of a line; a link with a scheme is passed over.
    unfoldable pub check_target : String → ℕ → String → List Problem
    unfolding anchors
    check_target rel lineno target =
        let dest = dest_of rel target in
        let frag = fragment target in
        if re.has_scheme target
        then []
        else if not (repo.exists dest)
        then no_file rel lineno target ∷ []
        else if not (str_eq frag "")
            && (repo.is_markdown dest && not (has_anchor (repo.read_text dest) frag))
        then no_anchor rel lineno target ∷ []
        else []

    unfoldable pub check_targets : String → ℕ → List String → List Problem
    unfolding check_target
    check_targets rel lineno [] = []
    check_targets rel lineno (t ∷ ts) = check_target rel lineno t ++ check_targets rel lineno ts

    -- The loop over the lines of a file, from a number on.
    unfoldable pub check_lines : String → ℕ → List String → List Problem
    unfolding check_targets
    check_lines rel lineno [] = []
    check_lines rel lineno (line ∷ lines) =
        check_targets rel lineno (re.link line ++ re.html_src line)
        ++ check_lines rel (suc lineno) lines

    unfoldable pub check_files : List String → List Problem
    unfolding check_lines strip_code
    check_files [] = []
    check_files (rel ∷ files) =
        check_lines rel 1 (strip_code false (re.splitlines (repo.read_text rel)))
        ++ check_files files

    -- The exit code.
    unfoldable pub main : List String → ℕ
    unfolding check_files
    main files = elim (check_files files) [ [] ↦ 0 | p ∷ ps ↦ 1 ]
