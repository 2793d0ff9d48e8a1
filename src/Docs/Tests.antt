-- ===== src/Docs/Tests.antt =====
-- scripts/ci/check_docs.py on two small documents.
use Prim.Native.String.{len, slice}
use mathlib.Core.List.Memᴰ.{head}
use ott_ad_pipeline.Base.{
  ◌≡◌, refl, ◌↔◌, String, str_eq, true, false, Option, none, some, List, [], ◌∷◌, if◌then◌else◌,
}
use ott_ad_pipeline.Docs.{
  Patterns, Repo, no_file, no_anchor, headings, anchors, path_part, fragment, check_files, main,
}
use ott_ad_pipeline.Docs.Reports.{AllAlive, main_lem, Broken, check_files-Broken}
use ott_ad_pipeline.Docs.Headings.{number, titles, headings_lem}

-- A title starts with `# `, and a line that starts with `[` is a link.
abbrev after : String → String → Option String
after mark line =
    if str_eq (slice line 0 (len mark)) mark then some (slice line (len mark) (len line)) else none

abbrev lines_of : String → List String
lines_of name =
    if str_eq name "README.md"
    then "# Use" ∷ "```" ∷ "[gone.md" ∷ "```" ∷ "[#Use" ∷ "[b.md#Use-1" ∷ "[b.md#None" ∷ "[gone.md"
      ∷ []
    else "# Use" ∷ "# Use" ∷ []

abbrev link_in : String → List String
link_in line = elim (after "[" line) [ none ↦ [] | some target ↦ target ∷ [] ]

abbrev expressions : Patterns
expressions = record {
  splitlines = lines_of;
  fence = λ line. str_eq line "```";
  heading = after "# ";
  link = link_in;
  html_src = λ line. [];
  has_scheme = λ target. str_eq (slice target 0 5) "http:";
  named_ids = λ t. [];
  without_code = λ line. line;
  without_html = λ t. t;
  link_texts = λ t. t;
  without_ticks = λ t. t;
  strip = λ t. t;
  lower = λ t. t;
  without_symbols = λ t. t;
  spaces_to_dashes = λ t. t;
  unquote = λ t. t;
}

abbrev documents : Repo
documents = record {
  read_text = λ name. name;
  exists = λ path. if str_eq path "README.md" then true else str_eq path "b.md";
  is_markdown = λ path. true;
  resolve = λ src path. path;
}

files_run :
    check_files expressions documents ("README.md" ∷ "b.md" ∷ [])
    ≡ no_anchor "README.md" 7 "b.md#None" ∷ no_file "README.md" 8 "gone.md" ∷ []
unfolding check_files
files_run = refl

anchors_run : anchors expressions "b.md" ≡ "Use" ∷ "Use-1" ∷ []
unfolding anchors
anchors_run = refl

main_lem_example :
    (main expressions documents ("README.md" ∷ []) ≡ 0)
    ↔ AllAlive expressions documents ("README.md" ∷ [])
main_lem_example = main_lem expressions documents ("README.md" ∷ [])

check_files-Broken_example :
    Broken expressions documents ("README.md" ∷ "b.md" ∷ []) (no_anchor "README.md" 7 "b.md#None")
unfolding check_files
check_files-Broken_example =
    check_files-Broken expressions documents ("README.md" ∷ "b.md" ∷ [])
      (no_anchor "README.md" 7 "b.md#None") refl (head refl)

parts_run :
    (path_part "b.md" ≡ "b.md")
    × (fragment "b.md" ≡ "")
    × (path_part "b#c#d" ≡ "b")
    × (fragment "b#c#d" ≡ "c#d")
parts_run = (refl, refl, refl, refl)

-- Two different headings with the same anchor.
collision_run :
    headings expressions false ("# a" ∷ "# a" ∷ "# a-1" ∷ []) [] ≡ "a" ∷ "a-1" ∷ "a-1" ∷ []
unfolding headings
collision_run = refl

headings_lem_example :
    headings expressions false ("# Use" ∷ "# Use" ∷ []) []
    ≡ number [] (titles expressions false ("# Use" ∷ "# Use" ∷ []))
headings_lem_example = headings_lem expressions false ("# Use" ∷ "# Use" ∷ [])
