-- ===== src/Writer/Tests.antt =====
-- The consumer and the HTTP interface of redis-writer/writer.py on small inputs, with a store that
-- has the documented laws.
mod Memory
mod Runs
mod Served
use ott_ad_pipeline.Base.{
  ℕ, zero, suc, ◌-◌, ◌*◌, ◌≡◌, refl, String, str_eq, eq_iff, false, ◌&&◌, leb, Option, none, some,
  List, [], ◌∷◌, ◌++◌, take, drop, select, if◌then◌else◌, or_else, arith,
}
use ott_ad_pipeline.Base.Dict.{Dict, get, put, get-put}
use ott_ad_pipeline.Event.{num}
use ott_ad_pipeline.Writer.{Redis, Counts, Poll, nothing, kafka_error, message, consume_all}
use ott_ad_pipeline.Writer.Queue.{Holds, ListLaws, recent, alert_history, list-consume_all}
use ott_ad_pipeline.Writer.Summary.{
  Acc, plus, amount, campaign_of, read_hash, new_acc, add_hash, sum_hashes, sum_range,
  summary_between,
}
use ott_ad_pipeline.Writer.Sums.{amounts_of, total, sum_hashes_lem}
use ott_ad_pipeline.Writer.Tests.Memory.{Store, redis, clock_laws, redis_laws, index_laws, list_of}
use ott_ad_pipeline.Writer.Windows.{IndexLaws, OnMinutes, summary_between_meet}

abbrev hash_of_minute : Dict String
hash_of_minute = ("campaign_id", "cmp-1001") ∷ ("impressions", "3") ∷ []

abbrev store : Store
store = record {
  lists = [];
  hashes = ("agg:1", hash_of_minute) ∷ ("agg:2", hash_of_minute) ∷ [];
  index = ("agg:1", 60 * 10) ∷ ("agg:2", 60 * 11) ∷ [];
  clock = 0;
  ends = [];
}

abbrev polls : List Poll
polls =
    nothing
    ∷ message "alert.anomaly" (some (("id", num 1) ∷ [])) 0 ""
    ∷ kafka_error false
    ∷ message "alert.anomaly" none 0 ""
    ∷ message "other" (some []) 0 ""
    ∷ []

abbrev no_counts : Counts
no_counts = record { agg = 0; late = 0; alert = 0; err = 0 }

no_alerts : Holds redis clock_laws redis_laws (λ t. none) (λ d. "alert") 0 store [] none
unfolding get
no_alerts n h = refl

list-consume_all_example :
    list_of recent
      (redis.wait 60 (consume_all redis (λ t. none) (λ d. "alert") polls (store, no_counts)).0)
    ≡ take 100 (alert_history (λ d. "alert") 60 polls [] none)
list-consume_all_example =
    list-consume_all redis clock_laws redis_laws (λ t. none) (λ d. "alert") 0 60 polls store
      no_counts [] none (omega arith) (omega arith, (omega arith, (omega arith, omega arith)))
      no_alerts

-- An alert that comes 48 hours after another one finds that one gone.
history_run :
    alert_history
      (λ d. "alert")
      172900
      (message "alert.anomaly" (some []) 0 "" ∷ message "alert.anomaly" (some []) 172800 "" ∷ [])
      []
      none
    ≡ "alert" ∷ []
unfolding alert_history
history_run = refl

-- `int(float(x))` for a store whose every count is 3.
abbrev read_three : String → Option ℕ
read_three t = some 3

abbrev three : Dict Acc
three =
    (
      "cmp-1001",
      record {
        amounts = record {
          impressions = 3;
          clicks = 0;
          completes = 0;
          requests = 0;
          ssai_dupes = 0;
          minutes = 1;
        };
        advertiser = "";
        campaign_name = "";
      },
    )
    ∷ []

abbrev six : Dict Acc
six =
    (
      "cmp-1001",
      record {
        amounts = record {
          impressions = 6;
          clicks = 0;
          completes = 0;
          requests = 0;
          ssai_dupes = 0;
          minutes = 2;
        };
        advertiser = "";
        campaign_name = "";
      },
    )
    ∷ []

sum_run : sum_hashes read_three (hash_of_minute ∷ hash_of_minute ∷ []) [] ≡ some six
unfolding sum_hashes add_hash read_hash amount campaign_of new_acc get put
sum_run = refl

both : summary_between read_three redis 600 720 store ≡ some six
unfolding summary_between sum_range sum_hashes add_hash read_hash amount campaign_of new_acc get put
both = refl

first : summary_between read_three redis 600 660 store ≡ some three
unfolding summary_between sum_range sum_hashes add_hash read_hash amount campaign_of new_acc get put
first = refl

second : summary_between read_three redis 660 720 store ≡ some three
unfolding summary_between sum_range sum_hashes add_hash read_hash amount campaign_of new_acc get put
second = refl

on_minutes : OnMinutes store.index
on_minutes = record { minutes = ((10, refl), ((11, refl), tt)) }

summary_between_meet_example :
    amounts_of "cmp-1001" six ≡ plus (amounts_of "cmp-1001" three) (amounts_of "cmp-1001" three)
summary_between_meet_example =
    summary_between_meet read_three redis index_laws 600 660 720 store six three three "cmp-1001"
      (omega arith) (omega arith) on_minutes both first second
