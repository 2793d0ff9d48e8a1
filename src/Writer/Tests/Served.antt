-- ===== src/Writer/Tests/Served.antt =====
-- What `/agg/summary` of redis-writer/writer.py answers behind its consumer, on the test store.
use mathlib.Core.List.{Memᴰ}
use mathlib.Core.List.Memᴰ.{head}
use ott_ad_pipeline.Base.{
  arith, ℕ, ◌≡◌, refl, String, str_eq, Option, some, List, [], ◌∷◌, map, select, if◌then◌else◌,
}
use ott_ad_pipeline.Base.Dict.{Dict, get, put}
use ott_ad_pipeline.Event.{num}
use ott_ad_pipeline.Writer.{
  Poll, message, consume_all, consume, dispatch, handle_agg, write_agg, handle_late, aggregate_of,
  late_epoch, sent, required, ratio_field, field_or,
}
use ott_ad_pipeline.Calendar.{minute_stamp}
use ott_ad_pipeline.Writer.Summary.{
  Acc, summary_between, sum_range, sum_hashes, add_hash, read_hash, amount, campaign_of, new_acc,
}
use ott_ad_pipeline.Writer.Sums.{amounts_of, total}
use ott_ad_pipeline.Writer.Windows.{in_window}
use ott_ad_pipeline.Writer.Windows.Indexed.{IsEntry, consume_all-AllEntries}
use ott_ad_pipeline.Writer.Upsert.Served.{alive_hash, summary_between-latest}
use ott_ad_pipeline.Writer.Upsert.{latest}
use ott_ad_pipeline.Writer.Tests.{no_counts}
use ott_ad_pipeline.Writer.Tests.Memory.{
  Store, redis, clock_laws, hash_laws, index_laws, index_writes,
}
use ott_ad_pipeline.Writer.Tests.Runs.{aggregate, at_minute, no_dump}

abbrev empty_store : Store
empty_store = record { lists = []; hashes = []; index = []; clock = 0; ends = [] }

empty_store_fresh : (k : String) → redis.hgetall k empty_store ≡ []
unfolding get
empty_store_fresh k = refl

-- The aggregate comes again with another count, which replaces the first.
abbrev corrected_messages : List Poll
corrected_messages =
    message "agg.minute" (some aggregate) 1789208580 "10:23:00"
    ∷ message "agg.minute" (some (("impressions", num 2) ∷ aggregate)) 1789208590 "10:23:10"
    ∷ message "late.events" (some []) 1789208590 ""
    ∷ message "agg.minute" (some []) 1789208600 ""
    ∷ []

abbrev read_count : String → Option ℕ
read_count t = if str_eq t "2" then some 2 else some 0

abbrev two : Dict Acc
two =
    (
      "cmp-1001",
      record {
        amounts = record {
          impressions = 2;
          clicks = 0;
          completes = 0;
          requests = 0;
          ssai_dupes = 0;
          minutes = 1;
        };
        advertiser = "";
        campaign_name = "";
      },
    )
    ∷ []

abbrev after_them : Store
after_them =
    redis.wait 1789300000
      (consume_all redis at_minute no_dump corrected_messages (empty_store, no_counts)).0

served : summary_between read_count redis 1789208460 1789208640 after_them ≡ some two
unfolding consume_all consume dispatch handle_agg write_agg handle_late summary_between sum_range
    sum_hashes add_hash read_hash amount campaign_of new_acc get put minute_stamp field_or
    aggregate_of sent required ratio_field late_epoch
served = refl

summary_between-latest_example :
    amounts_of "cmp-1001" two
    ≡ total read_count "cmp-1001" (
        map
          (λ k. alive_hash 1789300000 (latest at_minute k.0 corrected_messages))
          (select (λ k. in_window 1789208460 1789208640 k.1) after_them.index))
summary_between-latest_example =
    summary_between-latest read_count redis clock_laws hash_laws index_laws index_writes at_minute
      no_dump corrected_messages empty_store no_counts 0 1789300000 1789208460 1789208640 two
      "cmp-1001" empty_store_fresh refl (omega arith)
      (omega arith, (omega arith, (omega arith, (omega arith, omega arith)))) served

abbrev the_entry : String × ℕ
the_entry = ("agg:1m:cmp-1001:202609121022", 1789208520)

is_indexed :
    Memᴰ the_entry
      (consume_all redis at_minute no_dump corrected_messages (empty_store, no_counts)).0.index
unfolding consume_all consume dispatch handle_agg write_agg handle_late put minute_stamp
    aggregate_of sent required field_or ratio_field get late_epoch
is_indexed = head refl

consume_all-AllEntries_example : IsEntry redis index_laws index_writes at_minute no_dump the_entry
consume_all-AllEntries_example =
    consume_all-AllEntries redis index_laws index_writes at_minute no_dump corrected_messages
      empty_store no_counts (λ x m. absurd (elim m [ ])) the_entry is_indexed
