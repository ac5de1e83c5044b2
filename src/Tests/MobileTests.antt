-- ===== src/Tests/MobileTests.antt =====
-- Examples of the app.
use verity_backend.Prelude.{refl, none, some}
use verity_backend.Services.Redis.{match}
use verity_backend.Mobile.Decision.{
  State, initial, Reply, SocketPayload, submit_choice, on_answer, replied, handle_mutual, Reachable,
  start, then_step, tap, answer, match_mutual,
}
use verity_backend.Mobile.OneChoice.{IsSingle, Reachable-IsSingle}

-- The choice of a match, whose reply, that the partner has not chosen, comes after the message.
abbrev tapped : State
tapped = submit_choice 6 match initial

abbrev mutual_payload : SocketPayload
mutual_payload = record {
  session = some 6;
  match_id = some 10;
  partner_reveal_version = none;
  partner_reveal = none;
}

abbrev told : State
told = handle_mutual 6 mutual_payload tapped

abbrev pending_reply : Reply
pending_reply = record { status = 200; body = none }

abbrev late : State
late = on_answer (replied pending_reply) (record told { in_flight = 0 })

late-Reachable : Reachable 6 late
unfolding submit_choice handle_mutual
late-Reachable =
    then_step told late
      (then_step tapped told (then_step initial tapped start (tap match initial))
        (match_mutual mutual_payload tapped))
      (answer (replied pending_reply) 0 told refl)

Reachable-IsSingle_example : IsSingle late
Reachable-IsSingle_example = Reachable-IsSingle 6 late late-Reachable
