-- ===== src/Tracer/Kinds.antt =====
-- tracer/app.py: the kinds of test events, with what the page says of each.
use ott_ad_pipeline.Base.{String, str_eq, Option, none, some, if◌then◌else◌}

pub data Kind : Type 0 where
  normal duplicate ssai late bad_schema forged ad_request : Kind

-- What is expected at each place.
pub record Expect : Type 0 where
  pub kafka : String
  pub redis : String
  pub minio : String
  pub pg : String

pub record Meta : Type 0 where
  pub title : String
  pub desc : String
  pub expect : Expect
  pub lesson : String

-- `KINDS`
unfoldable pub kinds : Kind → Meta
kinds normal = record {
  title = "정상 임프레션 1건";
  desc = "가장 단순한 경로. 다섯 단계를 모두 통과한다.";
  expect = record { kafka = "ad.impression 1건"; redis = "+1"; minio = "1행"; pg = "1" };
  lesson = "이게 기준선이다. 아래 버튼들은 전부 이 흐름에서 무언가가 어긋난 경우다.";
}
kinds duplicate = record {
  title = "중복 — 같은 event_id 2번";
  desc = "플레이어가 같은 이벤트를 재전송한 상황.";
  expect = record { kafka = "ad.impression 2건"; redis = "+1 (접힘)"; minio = "2행"; pg = "1" };
  lesson =
      "Kafka 에는 2건이 그대로 앉지만 Flink 가 event_id 로 접어 Redis 는 +1 이다. Parquet 은 원본이라 2행이고, Spark 가 다시 접어 확정은 1이다.";
}
kinds ssai = record {
  title = "SSAI 이중경로 — event_id 다름";
  desc = "같은 광고(ad_request_id)가 클라이언트/서버 두 경로로 도착.";
  expect = record { kafka = "ad.impression 2건"; redis = "+2 (못 접음!)"; minio = "2행"; pg = "1" };
  lesson =
      "위 '중복' 과 비교할 것. event_id 가 다르므로 Flink 는 둘 다 센다. 실시간 집계가 부풀어 있는 상태이고, ad_request_id 로 묶는 Spark 배치만 이걸 정리한다.";
}
kinds late = record {
  title = "지연 이벤트 — 90초 과거";
  desc = "네트워크 복구 후 밀린 전송. event_time 이 90초 전이다.";
  expect = record {
    kafka = "ad.impression 1건 + late.events";
    redis = "+0 (윈도우 놓침)";
    minio = "1행";
    pg = "1";
  };
  lesson =
      "속한 1분 창이 이미 닫힌 뒤 도착해 실시간 윈도우가 버린다. (60초 전이면 창이 아직 열려 있을 수 있어 90초로 둔다) late.events 토픽과 late_dropped 테이블에 남고, event_time 만 보는 배치는 정상 집계한다. 실시간 < 확정 이 되는 이유가 이것이다.";
}
kinds bad_schema = record {
  title = "스키마 위반 — campaign_id 누락";
  desc = "필수 필드가 빠진 이벤트.";
  expect = record { kafka = "dlq.invalid"; redis = "+0"; minio = "0행"; pg = "0" };
  lesson =
      "Collector 가 검증에서 걸러 dlq.invalid 로 보낸다. 버리지 않고 사유와 원본을 남긴다. 응답은 202 다 — 배치 전체를 거절하면 플레이어가 재전송 폭주를 일으키기 때문.";
}
kinds forged = record {
  title = "서명 위조 트래킹 픽셀";
  desc = "sig 가 틀린 /v1/track 호출. 임프레션 부풀리기 시도.";
  expect = record { kafka = "dlq.invalid"; redis = "+0"; minio = "0행"; pg = "0" };
  lesson =
      "HTTP 는 200 + 1x1 GIF 로 답한다 (4xx 를 주면 플레이어가 재시도 폭주). 대신 집계에는 한 건도 안 들어간다. 서명 검증이 정산의 방어선이다.";
}
kinds ad_request = record {
  title = "광고 요청 — Outbox 경로";
  desc = "ad-decision 이 소재를 정하고 같은 트랜잭션에서 event_outbox 에 INSERT.";
  expect = record {
    kafka = "ad.request (Outbox 워커 경유)";
    redis = "requests +1";
    minio = "1행";
    pg = "requests";
  };
  lesson = "이건 Collector 를 거치지 않는다. DB 에 먼저 쓰고 워커가 Kafka 로 옮긴다. 그래서 Kafka 도착이 0.5초쯤 늦다 (워커 폴링 주기).";
}

-- The kind that a request names.
unfoldable pub kind_of : String → Option Kind
kind_of k =
    if str_eq k "normal"
    then some normal
    else if str_eq k "duplicate"
    then some duplicate
    else if str_eq k "ssai"
    then some ssai
    else if str_eq k "late"
    then some late
    else if str_eq k "bad_schema"
    then some bad_schema
    else if str_eq k "forged"
    then some forged
    else if str_eq k "ad_request"
    then some ad_request
    else none
