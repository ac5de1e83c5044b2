-- ===== src/Tests/AnalyticsTests.antt =====
-- Examples of the analytics events.
use verity_backend.Prelude.{none, some, [], ◌∷◌, codes}
use verity_backend.Prelude.Int.{pos}
use verity_backend.Queue.City.{absent}
use verity_backend.Analytics.Values.{queue_joined, text}
use verity_backend.Analytics.Rows.{web}
use verity_backend.Analytics.Fields.{entries}
use verity_backend.Analytics.Ingest.{
  ClientContext, EmitInput, track_client_event, track_server_event,
}
use verity_backend.Analytics.Sound.{IsSound, track-IsSound}
use verity_backend.Tests.Events.{naturals, memory_tables, empty_store, bare_env}

abbrev from_web : ClientContext
from_web = record {
  platform = some (codes "web");
  app_version = some (codes "1.2");
  build_number = none;
  request_id = none;
  region = none;
  event_id = absent;
  occurred_at = absent;
  event_schema_version = none;
}

track-IsSound_example :
    IsSound bare_env
      (track_client_event {t = memory_tables} bare_env 1000
        (codes "u")
        (codes "me")
        (codes "queue_joined")
        (entries ((codes "queueKey", text (codes "city")) ∷ []))
        from_web
        empty_store).1
    × IsSound bare_env (
        track_server_event {t = memory_tables} bare_env 1000
          (codes "u")
          none
          (codes "queue_joined")
          (entries ((codes "queueKey", text (codes "city")) ∷ []))
          absent
          absent
          none
          empty_store)
track-IsSound_example =
    track-IsSound {t = memory_tables} bare_env 1000 (codes "u") (codes "queue_joined")
      (entries ((codes "queueKey", text (codes "city")) ∷ [])) empty_store (codes "me") from_web
      none absent absent none tt

abbrev join_event : EmitInput naturals
join_event = record {
  source = web;
  user = none;
  name_text = codes "queue_joined";
  name = queue_joined;
  properties = [];
  app_version = none;
  build_number = none;
  request_id = none;
  region = none;
  event_id = codes "id";
  occurred_at = pos 1000;
  event_schema_version = 1;
}
