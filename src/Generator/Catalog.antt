-- ===== src/Generator/Catalog.antt =====
-- generator/catalog.py: what there is to watch, and the campaigns. Weights are in hundredths.
use ott_ad_pipeline.Base.{ℕ, zero, suc, ◌+◌, String, List, [], ◌∷◌}
use ott_ad_pipeline.Base.Dict.{Dict}

pub record Content : Type 0 where
  pub content_id : String
  pub kind : String
  pub duration_s : ℕ
  pub ad_breaks : List ℕ

-- `range(start, …, step)` with a count of its members.
unfoldable pub range_from : ℕ → ℕ → ℕ → List ℕ
range_from zero start step = []
range_from (suc n) start step = start ∷ range_from n (start + step) step

unfoldable pub catalog : List Content
unfolding range_from
catalog =
    record {
      content_id = "ct-kbo-0912";
      kind = "live";
      duration_s = 10800;
      ad_breaks = range_from 17 600 600;
    }
    ∷ record {
      content_id = "ct-drama-201";
      kind = "vod";
      duration_s = 3600;
      ad_breaks = 0 ∷ 900 ∷ 1800 ∷ 2700 ∷ [];
    }
    ∷ record {
      content_id = "ct-movie-77";
      kind = "vod";
      duration_s = 7200;
      ad_breaks = 0 ∷ 1800 ∷ 3600 ∷ 5400 ∷ [];
    }
    ∷ record {
      content_id = "ct-var-33";
      kind = "vod";
      duration_s = 4500;
      ad_breaks = 0 ∷ 1200 ∷ 2400 ∷ 3600 ∷ [];
    }
    ∷ record {
      content_id = "ct-news-live";
      kind = "live";
      duration_s = 10800;
      ad_breaks = range_from 11 900 900;
    }
    ∷ []

abbrev pub campaigns : List (String × ℕ)
campaigns =
    ("cmp-1001", 30)
    ∷ ("cmp-1002", 25)
    ∷ ("cmp-1003", 20)
    ∷ ("cmp-1004", 15)
    ∷ ("cmp-1005", 10)
    ∷ []

abbrev pub creatives : Dict (List String)
creatives =
    ("cmp-1001", "crt-1001-a" ∷ "crt-1001-b" ∷ [])
    ∷ ("cmp-1002", "crt-1002-a" ∷ "crt-1002-b" ∷ [])
    ∷ ("cmp-1003", "crt-1003-a" ∷ "crt-1003-b" ∷ [])
    ∷ ("cmp-1004", "crt-1004-a" ∷ "crt-1004-b" ∷ [])
    ∷ ("cmp-1005", "crt-1005-a" ∷ "crt-1005-b" ∷ [])
    ∷ []

abbrev pub devices : List (String × ℕ)
devices = ("smart_tv", 45) ∷ ("mobile", 30) ∷ ("tablet", 10) ∷ ("pc", 10) ∷ ("stb", 5) ∷ []

abbrev pub ad_lengths : List ℕ
ad_lengths = 15 ∷ 15 ∷ 15 ∷ 30 ∷ []

-- The name of each quartile, and the part of the advertisement before it in hundredths.
abbrev pub quartiles : List (String × ℕ)
quartiles =
    ("start", 0)
    ∷ ("first_quartile", 25)
    ∷ ("midpoint", 50)
    ∷ ("third_quartile", 75)
    ∷ ("complete", 100)
    ∷ []
