-- ===== src/Tests/NotificationTests.antt =====
-- Examples of the notifications.
use verity_backend.Prelude.{◌≡◌, ◌&&◌, ◌==◌, none, [], ◌∷◌, codes, trim, contains}
use verity_backend.Schema.{platform_web}
use verity_backend.World.{World}
use verity_backend.Notifications.{RegisterPushToken, register_push_token, deliveries}
use verity_backend.Notifications.Owner.{is_delivered, register_push_token-deliveries}
use verity_backend.Tests.Memory.{memory}
use verity_backend.Tests.Worlds.{funded}

abbrev device : RegisterPushToken
device = record { token = codes " device-token "; platform = platform_web; device_id = none }

-- The first user had registered the device.
abbrev handed_over : World memory
handed_over = register_push_token 2 device funded

register_push_token-deliveries_example :
    is_delivered 2
      (trim device.token)
      (deliveries (2 ∷ 4 ∷ []) (register_push_token 4 device handed_over))
    ≡ (contains 4 (2 ∷ 4 ∷ []) && (4 == 2))
register_push_token-deliveries_example =
    register_push_token-deliveries 4 2 (2 ∷ 4 ∷ []) device handed_over
