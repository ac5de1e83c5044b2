-- ===== src/Tests/ModerationTests.antt =====
-- Examples of the moderation.
use verity_backend.Prelude.{
  ◌≤◌, ℕ, ◌≡◌, ◌≢◌, ◌↔◌, ◌<◌, ◌+◌, trim, refl, true, inr, none, some, List, [], ◌∷◌, codes, arith,
}
use verity_backend.Exec.{ok, err, suspended, conversation_unavailable, already_resolved}
use verity_backend.Schema.{
  Report, open_report, banned, Block, Appeal, open_appeal, ban, ModerationEvent,
}
use verity_backend.World.{World}
use verity_backend.Queue.City.{absent}
use verity_backend.Queue.Join.{join_queue}
use verity_backend.Matches.Acknowledge.{later}
use verity_backend.Matches.Service.{match_of}
use verity_backend.Chat.{send_message}
use verity_backend.Moderation.Blocks.{
  BlockReply, blocked, remove_from_queue_if_present, queue_named, block_as, create_block,
}
use verity_backend.Moderation.Violations.{
  Payload, handle_webhook, ban_ttl_ms, emit_moderation_action, set_ban, apply_moderation_action,
}
use verity_backend.Moderation.Reports.{act_on_report, resolve_as, resolve_report}
use verity_backend.Moderation.Appeals.{
  overturn, uphold, resolved, resolve_open, resolve_found, resolve_appeal,
}
use verity_backend.Moderation.Bans.{apply_moderation_action-suspends}
use verity_backend.Moderation.Blocked.{create_block-silences}
use verity_backend.Moderation.Appealed.{resolve_appeal-resolve_appeal}
use verity_backend.Moderation.Reports.{ReportInput, create_report}
use verity_backend.Moderation.Limits.{reports_today, create_report-within}
use verity_backend.Moderation.Replay.{handle_webhook-handle_webhook}
use verity_backend.Moderation.Signature.{verify_webhook_signature}
use verity_backend.Moderation.Signed.{IsTimely, IsSignedWith, verify_webhook_signature-ok}
use verity_backend.Tests.VideoTests.{zeros}
use verity_backend.Tests.Memory.{memory}
use verity_backend.Tests.Worlds.{dating, matched_world, pair_match}

abbrev complaint : Report
complaint = record {
  id = 20;
  created_at = 900;
  reporter = 2;
  reported = 4;
  reason = 22;
  details = none;
  status = open_report;
}

abbrev reported_world : World memory
reported_world = record matched_world { reports = (complaint ∷ [], 22) }

abbrev verdict : World memory
verdict = (resolve_report 20 ban reported_world).1

resolves :
    resolve_report 20 ban reported_world ≡ (ok (record complaint { status = banned }), verdict)
unfolding resolve_report resolve_as act_on_report create_block block_as remove_from_queue_if_present
    queue_named emit_moderation_action set_ban
resolves = refl

key_of : List ℕ → ℕ
key_of city = 8

soon : 5000 < verdict.now + ban_ttl_ms
unfolding resolve_report resolve_as act_on_report create_block block_as remove_from_queue_if_present
    queue_named emit_moderation_action set_ban
soon = omega arith

abbrev violation : ModerationEvent
violation = record { user = 4; created_at = 990 }

abbrev violent : World memory
violent = record matched_world { events = (violation ∷ violation ∷ violation ∷ [], 2) }

apply_moderation_action-suspends_example :
    let v = later 5000 (apply_moderation_action 4 12 violent) in
    join_queue key_of 4 absent absent 30 v ≡ (err suspended, v)
apply_moderation_action-suspends_example =
    apply_moderation_action-suspends 4 12 5000 30 key_of absent absent violent (omega arith) refl
      (omega arith)

abbrev new_block : Block
new_block = record { id = 2; created_at = 1000; blocker = 4; blocked = 2; lifted_at = none }

abbrev block_reply : BlockReply
block_reply = record { status = blocked; block = new_block }

abbrev apart : World memory
apart = (create_block 4 2 matched_world).1

blocks : create_block 4 2 matched_world ≡ (ok block_reply, apart)
unfolding create_block block_as
blocks = refl

still_matched : match_of 10 apart ≡ some pair_match
unfolding create_block block_as remove_from_queue_if_present queue_named
still_matched = refl

some_text : trim (codes "hi") ≢ []
some_text = λ e. cc e

create_block-silences_example :
    send_message 10 2 (codes "hi") apart ≡ (err conversation_unavailable, apart)
create_block-silences_example =
    create_block-silences 4 2 10 2 (codes "hi") pair_match block_reply matched_world apart blocks
      still_matched (inr (refl, refl)) refl some_text

abbrev appeal : Appeal
appeal = record {
  id = 24;
  user = 4;
  report = some 20;
  action = ban;
  reason = none;
  status = open_appeal;
  created_at = 950;
  resolved_at = none;
  resolver = none;
}

abbrev appealed : World memory
appealed = record matched_world { appeals = (appeal ∷ [], 26) }

abbrev lifted : World memory
lifted = (resolve_appeal 60 24 overturn appealed).1

overturns : resolve_appeal 60 24 overturn appealed ≡ (ok (resolved 60 overturn 1000 appeal), lifted)
unfolding resolve_appeal resolve_found resolve_open
overturns = refl

resolve_appeal-resolve_appeal_example :
    resolve_appeal 62 24 uphold lifted ≡ (err already_resolved, lifted)
resolve_appeal-resolve_appeal_example =
    resolve_appeal-resolve_appeal 60 62 24 overturn uphold (resolved 60 overturn 1000 appeal)
      appealed lifted overturns

abbrev accusation : ReportInput
accusation = record { reported = 4; reason = 22; details = none }

create_report-within_example : reports_today 2 (create_report 2 accusation reported_world).1 ≤ 10
create_report-within_example = create_report-within 2 accusation reported_world (omega arith)

abbrev delivery_signature : List ℕ
delivery_signature = codes "sha256=0000000000000000000000000000000000000000000000000000000000000000"

verify_webhook_signature-ok_example :
    (verify_webhook_signature
        (λ key bytes. zeros 32)
        (some (codes "secret"))
        (codes "{}")
        (some delivery_signature)
        (some (codes "1700000000"))
        1700000200000
      ≡ ok tt)
    ↔ ((codes "secret" ≢ [])
        × IsTimely (codes "1700000000") 1700000200000
        × IsSignedWith (zeros 32) delivery_signature)
verify_webhook_signature-ok_example =
    verify_webhook_signature-ok (λ key bytes. zeros 32) (codes "secret") (codes "{}")
      delivery_signature (codes "1700000000") 1700000200000 (refl, omega arith)

abbrev reported_violation : Payload
reported_violation = record {
  session = 6;
  user = none;
  violation = true;
  action = none;
  event = none;
  labels = 0;
  severity = none;
  reason = none;
}

handle_webhook-handle_webhook_example :
    (handle_webhook reported_violation
      (some 30)
      (later 500_000 (handle_webhook reported_violation (some 30) dating).1)).1
    ≡ later 500_000 (handle_webhook reported_violation (some 30) dating).1
handle_webhook-handle_webhook_example =
    handle_webhook-handle_webhook reported_violation reported_violation 30 500_000 dating refl refl
      (omega arith)
