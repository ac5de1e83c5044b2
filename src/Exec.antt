-- ===== src/Exec.antt =====
-- A handler reads and writes the state of the backend and may throw. What was written before a
-- throw stays written, so the state comes back beside the exception too.
use verity_backend.Prelude.{◌≡◌, refl, ap, Bool, true, false}

-- The exceptions, one for each `throw` of the modelled code.
pub data Exception : Type 0 where
  -- queue.service.ts
  suspended in_progress insufficient_balance transaction_failed invalid_city city_required :
      Exception
  -- matching.worker.ts: thrown by the database and by Redis
  session_refused redis_failed : Exception
  -- session.service.ts; the last two are thrown by `toISOString` and by Redis
  session_not_found not_participant not_ended missing_match_id : Exception
  invalid_date not_an_integer : Exception
  -- payments.service.ts; the last three are thrown by the database
  user_not_found unknown_pack missing_price missing_secret missing_signature : Exception
  no_such_row out_of_range duplicate_session : Exception
  -- matches.service.ts and chat.service.ts
  match_not_found not_match_participant : Exception
  text_required conversation_unavailable reveal_ack_required : Exception
  -- auth.service.ts
  invalid_refresh_token refresh_reused refresh_expired refresh_used : Exception
  invalid_date_of_birth too_young invalid_phone phone_in_use : Exception
  invalid_email email_in_use code_required provider_missing : Exception
  invalid_code request_failed : Exception
  -- moderation.service.ts
  self_report details_too_long report_limit self_block : Exception
  missing_session_id reason_too_long report_not_found not_reported_user : Exception
  appeal_not_found already_resolved : Exception
  missing_timestamp invalid_timestamp stale_timestamp invalid_signature : Exception
  -- analytics.service.ts; the last one is thrown by the database
  unsupported_event_name invalid_properties too_many_properties : Exception
  invalid_property_key blocked_property_key infinite_property : Exception
  property_too_long invalid_property_value unsupported_schema_version : Exception
  invalid_event_id invalid_occurred_at time_skew sink_failed : Exception
  -- monitoring.controller.ts
  origin_not_allowed invalid_report not_a_text wrong_length not_a_number : Exception
  unsupported_name invalid_rating invalid_error_type nothing_reported : Exception
  -- security-config.ts and roles.guard.ts
  missing_jwt_secret authentication_required insufficient_role : Exception

pub data Result {ℓ} (A : Type ℓ) : Type ℓ where
  ok : A → Result A
  err : Exception → Result A

abbrev pub Exec {ℓ} : Type ℓ → Type ℓ → Type ℓ
Exec S A = S → Result A × S

module _ {ℓ} {S A : Type ℓ} where
  abbrev pub pure : A → Exec S A
  pure a s = (ok a, s)

  abbrev pub throw : Exception → Exec S A
  throw e s = (err e, s)

  abbrev pub gets : (S → A) → Exec S A
  gets f s = (ok (f s), s)

module _ {ℓ} {S A B : Type ℓ} where
  abbrev pub continue : Result A → (A → Exec S B) → Exec S B
  continue (ok a) f s = f a s
  continue (err e) f s = (err e, s)

  infixl 10 ◌>>=◌ ◌>>◌
  abbrev pub ◌>>=◌ : Exec S A → (A → Exec S B) → Exec S B
  ◌>>=◌ m f s = let (r, s') = m s in continue r f s'

  abbrev pub ◌>>◌ : Exec S A → Exec S B → Exec S B
  m >> n = m >>= λ _. n

module _ {S : Type 0} where
  abbrev pub modify : (S → S) → Exec S (Unit {0})
  modify f s = (ok tt, f s)

  abbrev pub throw_if : Bool → Exception → Exec S (Unit {0})
  throw_if true e s = (err e, s)
  throw_if false e s = (ok tt, s)

-- `try { m } finally { last }`
abbrev pub finally {ℓ} : {S A : Type ℓ} → Exec S A → (S → S) → Exec S A
finally m last s = let (r, s') = m s in (r, last s')

module _ {ℓ} {S A B : Type ℓ} where
  continue-eq-ok :
      (r : Result A) (f : A → Exec S B) (s s'' : S) (b : B)
      → continue r f s ≡ (ok b, s'')
      → (a : A) × (r ≡ ok a) × (f a s ≡ (ok b, s''))
  continue-eq-ok (ok a) f s s'' b e = (a, refl, e)
  continue-eq-ok (err c) f s s'' b e = cc (ap (λ (p : Result B × S). p.0) e)

  -- A chain that returns has returned at each step.
  pub >>=-eq-ok :
      (m : Exec S A) (f : A → Exec S B) (s s'' : S) (b : B)
      → (m >>= f) s ≡ (ok b, s'')
      → (a : A) × (s' : S) × (m s ≡ (ok a, s')) × (f a s' ≡ (ok b, s''))
  >>=-eq-ok m f s s'' b e =
      let (a, q, rest) = continue-eq-ok (m s).0 f (m s).1 s'' b e in
      (a, (m s).1, λ i. (q i, (m s).1), rest)
