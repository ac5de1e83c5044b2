-- ===== src/Tests/SessionTests.antt =====
-- Examples of the sessions.
use verity_backend.Prelude.{
  ◌*◌, [], ◌∷◌, arith, ℕ, ◌≡◌, refl, inl, none, some, ◌==◌, ◌&&◌, if◌then◌else◌,
}
use verity_backend.Exec.{ok}
use verity_backend.Services.Redis.{
  plain, key_eq, session_ended, choice_deadline, match, pass, to_iso,
}
use verity_backend.Schema.{PartnerReveal, timeout}
use verity_backend.World.{World, timer_of}
use verity_backend.Matches.Reveal.{build_partner_reveal, resolve_primary_photo_url}
use verity_backend.Session.Decision.{
  ChoiceResult, mutual_match, non_mutual, parse_stored_decision, read_stored_decision,
}
use verity_backend.Session.Lifecycle.{ensure_choice_deadline, timer_for, end_session}
use verity_backend.Session.Finalize.{
  build_partner_reveal_for_user, enrich_choice_result, decide, upsert_match, store_decision,
  announce, conclude, settle, finalize_decision,
}
use verity_backend.Session.Choices.{
  weigh, evaluate_choices, record_choice, submit_once, choose, submit_choice, is_over,
}
use verity_backend.Matches.Acknowledge.{later}
use verity_backend.Session.Once.{finalize-finalize}
use verity_backend.Session.Ended.{end_session_opens_choice}
use verity_backend.Session.Outcome.{Explains, choice_by, evaluate-Explains}
use verity_backend.Session.Agreement.{bare, partners_agree}
use verity_backend.Session.Scan.{Page, scan_keys, Ends, scan_keys-Ends}
use verity_backend.Tests.Memory.{memory}
use verity_backend.Tests.Worlds.{date, dating}

-- The session has ended and the second user has chosen MATCH.
abbrev ended_world : World memory
ended_world = record dating {
  strings = λ n k. if key_eq k (session_ended 6) then some (plain 2) else none;
  choices = λ n i f. if i == 6 && f == 4 then some match else none;
}

abbrev profile_of : ℕ → PartnerReveal
profile_of id = record {
  id = id;
  display_name = none;
  primary_photo = none;
  age = none;
  bio = none;
}

abbrev mutual_reply : ChoiceResult
mutual_reply = mutual_match 2 (some (profile_of 4))

abbrev after : World memory
after = (submit_choice 6 2 match ended_world).1

submits : submit_choice 6 2 match ended_world ≡ (ok mutual_reply, after)
unfolding submit_choice choose submit_once record_choice ensure_choice_deadline evaluate_choices
    weigh finalize_decision settle conclude decide upsert_match announce store_decision
    read_stored_decision parse_stored_decision enrich_choice_result build_partner_reveal_for_user
    build_partner_reveal resolve_primary_photo_url
submits = refl

partners_agree_example : submit_choice 6 4 pass (later 500_000 after) ≡ (
  ok (enrich_choice_result (bare mutual_reply) date 4 (later 500_000 after)),
  later 500_000 after,
)
unfolding submit_choice read_stored_decision parse_stored_decision choose ensure_choice_deadline
    record_choice evaluate_choices weigh finalize_decision settle decide announce
partners_agree_example =
    partners_agree date 2 4 match pass ended_world after (later 500_000 after) mutual_reply refl
      refl tt submits (omega arith) refl refl refl refl

abbrev settled : World memory
settled = (finalize_decision date match match dating).1

finalizes : finalize_decision date match match dating ≡ (ok (mutual_match 2 none), settled)
unfolding finalize_decision settle conclude decide upsert_match announce store_decision
    read_stored_decision parse_stored_decision
finalizes = refl

finalize-finalize_example :
    finalize_decision date pass match (later 500_000 settled)
    ≡ (ok (mutual_match 2 none), later 500_000 settled)
finalize-finalize_example =
    finalize-finalize date match match pass match dating settled (later 500_000 settled)
      (mutual_match 2 none) (inl refl) finalizes (omega arith) refl

-- The deadline of the session's choice has passed.
evaluates :
    evaluate_choices date (some 900) dating
    ≡ (ok non_mutual, (evaluate_choices date (some 900) dating).1)
unfolding evaluate_choices weigh finalize_decision settle conclude decide upsert_match announce
    store_decision read_stored_decision parse_stored_decision
evaluates = refl

evaluate-Explains_example :
    Explains
      (choice_by date 2 dating)
      (choice_by date 4 dating)
      (is_over 1000 (some 900))
      non_mutual
evaluate-Explains_example =
    evaluate-Explains date (some 900) dating (evaluate_choices date (some 900) dating).1 non_mutual
      (inl refl) evaluates

end_session_opens_choice_example :
    let w = end_session date timeout dating in
    (timer_of 6 w.timers ≡ none)
    × (timer_of 6 w.choice_timers ≡ some (timer_for 6 2 4 61_000))
    × (memory.strings.get w.now (choice_deadline 6) w.strings ≡ some (plain (to_iso 61_000)))
end_session_opens_choice_example = end_session_opens_choice date timeout dating refl refl

-- One key in each reply, a second for each round, and no end.
abbrev endless : ℕ → ℕ → Page
endless round cursor = record { next = 3; keys = 2 ∷ [] }

abbrev seconds : ℕ → ℕ
seconds round = round * 1000

scan_keys-Ends_example : Ends (scan_keys endless seconds 6)
scan_keys-Ends_example = scan_keys-Ends endless seconds 5 6 (omega arith) (omega arith)
