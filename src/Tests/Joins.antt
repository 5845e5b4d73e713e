-- ===== src/Tests/Joins.antt =====
-- Participants who wait for the host, and their images.
use cc_core_server.Common.{ℕ, List, [], ◌∷◌, take, false, ok, ◌≡◌, refl}
use cc_core_server.Common.SyncMap
use cc_core_server.Storage.{load_value, store_value}
use cc_core_server.Server.Records.{new_record}
use cc_core_server.Server.Participants.{join_participant, policy_case}
use cc_core_server.Server.Avatars.{Images, new_avatar}
use cc_core_server.Server.Avatars.Stored.{IsAdded, new_avatar-IsAdded}
use cc_core_server.Tests.Sample.{sample, config}
use cc_core_server.Tests.Lifecycle.{one_stream}
use cc_core_server.Server.Participants.{Waiting, joining, denied, resolve_join}
use cc_core_server.Server.Participants.Joining.{NotPending}
use cc_core_server.Server.Participants.Deciding.{
  IsWaiting, join_participant-IsWaiting, resolve_join-denied,
}
use cc_core_server.Server.{Server}
use cc_core_server.Tests.Db.{stream_doc}
use cc_core_server.Server.Records.{default_mode}
use cc_core_server.Tests.Access.{bob}
use cc_core_server.Tests.Lifecycle.{started}

-- A server whose one stream leaves the decision to the host.
abbrev host_decides : Server sample
host_decides = record one_stream {
  stream_storage = record {
    name = "stream";
    db =
        (
          "stream",
          (
            "s1",
            stream_doc (new_record (default_mode (config "host_resolve")) "s1" "h1" started 100),
          )
              ∷ [],
        )
        ∷ [];
  };
}

abbrev pub bob_waits : Waiting sample
bob_waits = record { stream_uuid = "s1"; private_key = 7; participant = joining "p1" bob }

join_participant-IsWaiting_example :
    IsWaiting "p1" "s1" bob host_decides bob_waits
      (join_participant "p1" "s1" "" bob host_decides).1
unfolding join_participant SyncMap.load SyncMap.store load_value policy_case new_record
join_participant-IsWaiting_example =
    join_participant-IsWaiting "p1" "s1" "" bob host_decides bob_waits refl

resolve_join-denied_example :
    ((resolve_join false bob_waits (join_participant "p1" "s1" "" bob host_decides).1).0
      ≡ ok denied)
    × ((resolve_join false bob_waits
          (join_participant "p1" "s1" "" bob host_decides).1).1.participant_storage
        ≡ (join_participant "p1" "s1" "" bob host_decides).1.participant_storage)
    × NotPending
        (resolve_join false bob_waits (join_participant "p1" "s1" "" bob host_decides).1).1
        "s1"
        "p1"
resolve_join-denied_example =
    resolve_join-denied bob_waits (join_participant "p1" "s1" "" bob host_decides).1

-- Images that are their own bytes, and are cut to 256 of them.
abbrev pub bytes_as_images : Images
bytes_as_images = record {
  Image = List ℕ;
  decode = λ p body. ok body;
  encode = λ p image. ok image;
  resize = λ w h image. take w image;
}

new_avatar-IsAdded_example :
    IsAdded bytes_as_images "a7" "image/png"
      (137 ∷ 80 ∷ [])
      one_stream
      (new_avatar bytes_as_images "a7" "image/png" (137 ∷ 80 ∷ []) one_stream).1
      "a7"
unfolding new_avatar store_value SyncMap.load SyncMap.store
new_avatar-IsAdded_example =
    new_avatar-IsAdded bytes_as_images "a7" "image/png" (137 ∷ 80 ∷ []) one_stream "a7" refl
