-- ===== src/Settlement/Tests/Paid.antt =====
-- What spark/batch_settlement.py settles of an impression that was sent again and on both paths.
use ott_ad_pipeline.Base.{
  ◌≡◌, refl, String, true, false, Option, some, List, ◌∷◌, any, if◌then◌else◌,
}
use ott_ad_pipeline.Settlement.Batch.{Row, raw_rows, is_campaign}
use ott_ad_pipeline.Settlement.Batch.Paid.{paid_for, consistent, settled_for, settled_for_lem}
use ott_ad_pipeline.Settlement.Engine.{engine}
use ott_ad_pipeline.Settlement.Engine.First.{first_laws}
use ott_ad_pipeline.Settlement.Tests.{archive, priorities, impression_of}

abbrev sent_again : List Row
sent_again = impression_of "evt-1" "req-1" "client" ∷ archive

abbrev request : Option String
request = some "req-1"

sent_again-consistent : consistent request (raw_rows sent_again) ≡ true
unfolding raw_rows is_campaign
sent_again-consistent = refl

settled_for_lem_example :
    settled_for engine first_laws (λ a b. false) priorities sent_again request
    ≡ (if any (paid_for request) (raw_rows sent_again) then 1 else 0)
settled_for_lem_example =
    settled_for_lem engine first_laws (λ a b. false) priorities sent_again request
      sent_again-consistent

there_is_one : any (paid_for request) (raw_rows sent_again) ≡ true
unfolding raw_rows is_campaign
there_is_one = refl
