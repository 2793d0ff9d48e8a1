-- ===== src/Dashboard/Labels.antt =====
-- dashboard/api.py: the metrics with labels, which the page counts by the label's value.
use Prim.Native.String.{◌++◌ as str_append, len, find, slice}
use ott_ad_pipeline.Base.{
  ℕ, ◌+◌, leb, ◌==◌, ◌&&◌, String, Bool, Option, none, some, [], ◌∷◌, if◌then◌else◌, ◌>>=◌,
}
use ott_ad_pipeline.Base.Dict.{Dict, put, Counter}

-- `k.startswith(t)`, for a text that is not empty.
abbrev pub starts_with : String → String → Bool
starts_with k t = find k t == 0

-- `t in k`; `find` is past the end where the text is not found.
abbrev pub contains : String → String → Bool
contains k t = leb (find k t) (len k)

unfoldable pub label_sum : Counter → (name label value : String) → ℕ
label_sum [] name label value = 0
label_sum ((k, v) ∷ metrics) name label value =
    let rest = label_sum metrics name label value in
    let quoted = str_append label (str_append "=\"" (str_append value "\"")) in
    if starts_with k (str_append name "{") && contains k quoted then v + rest else rest

-- `k.split(t)[0]`
abbrev pub until : String → String → String
until t k = slice k 0 (find k t)

-- `k.split(t)[1]`, which is no text where `t` is not found.
abbrev pub second_part : String → String → Option String
second_part t k = if contains k t then some (until t (slice k (find k t + len t) (len k))) else none

-- The value of the label, up to its closing quote.
abbrev pub reason_of : String → Option String
reason_of k = second_part "reason=\"" k >>= (λ r. some (until "\"" r))

-- `by_reason`. A metric without the label raises, which is `none`.
unfoldable pub by_reason : Counter → Dict ℕ → Option (Dict ℕ)
unfolding put
by_reason [] out = some out
by_reason ((k, v) ∷ metrics) out =
    if starts_with k "collector_events_invalid_total{"
    then (reason_of k >>= (λ r. by_reason metrics (put r v out)))
    else by_reason metrics out
