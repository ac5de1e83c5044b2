-- ===== src/Monitoring/Accepted.antt =====
-- What src/monitoring/monitoring.controller.ts accepts.
use verity_backend.Prelude.{
  ℕ, ◌≡◌, ◌≤◌, ◌⊎◌, inl, inr, refl, subst, Bool, true, false, ◌||◌, Option, none, some, List, [],
  ◌∷◌, zero, suc, ltb, trim, text_length, arith, Bool-cases,
}
use verity_backend.Exec.{Result, ok, err}
use verity_backend.Config.Secrets.{SecurityEnv, is_origin_allowed}
use verity_backend.Analytics.Values.{slice}
use verity_backend.Analytics.Clean.{text_length-slice}
use verity_backend.Monitoring.{
  Field, missing, other_field, text_field, number_field, ◌>>=◌, in_range, parse_string,
  parse_optional_string, FrontendErrorBody, FrontendErrorPayload, holds_text, check_reported,
  parse_error_type, parse_optional_number, parse_frontend_error_payload, if_allowed, limit, Logged,
  logged_of, capture_frontend_error,
}

abbrev Ensures : {A : Type 0} → (A → Type 0) → Result A → Type 0
Ensures P (ok a) = P a
Ensures P (err e) = Unit

bind-Ensures :
    {A B : Type 0} (P : A → Type 0) (Q : B → Type 0) (r : Result A) (f : A → Result B)
    → Ensures P r
    → ((a : A) → P a → Ensures Q (f a))
    → Ensures Q (r >>= f)
bind-Ensures P Q (ok a) f h k = k a h
bind-Ensures P Q (err e) f h k = tt

any-Ensures : {A : Type 0} (r : Result A) → Ensures (λ a. Unit {0}) r
any-Ensures (ok a) = tt
any-Ensures (err e) = tt

-- A text that is missing, or has one character at least and so many at most.
abbrev pub IsWithin : ℕ → Option (List ℕ) → Type 0
IsWithin most none = Unit
IsWithin most (some value) = (1 ≤ text_length value) × (text_length value ≤ most)

in_range-Ensures :
    (most : ℕ) (value : List ℕ)
    → Ensures (λ v. (1 ≤ text_length v) × (text_length v ≤ most)) (in_range 1 most value)
in_range-Ensures most value =
    elim (Bool-cases (ltb (text_length value) 1 || ltb most (text_length value))) [
      | inl e ↦ rw e tt
      | inr e ↦ rw e (ground (arith, e), ground (arith, e))
    ]

parse_optional_string-IsWithin :
    (input : Field) (most : ℕ) → Ensures (IsWithin most) (parse_optional_string input 1 most)
unfolding parse_optional_string parse_string
parse_optional_string-IsWithin missing most = tt
parse_optional_string-IsWithin other_field most = tt
parse_optional_string-IsWithin (number_field n) most = tt
parse_optional_string-IsWithin (text_field cs) most =
    bind-Ensures (λ v. (1 ≤ text_length v) × (text_length v ≤ most)) (IsWithin most)
      (in_range 1 most (trim cs)) (λ value. ok (some value)) (in_range-Ensures most (trim cs))
      (λ a h. h)

-- A report with a message or a reason, and with texts of the lengths that are allowed.
pub record IsReport (p : FrontendErrorPayload) : Type 0 where
  pub message : IsWithin 500 p.message
  pub reason : IsWithin 500 p.reason
  pub source : IsWithin 300 p.source
  pub stack : IsWithin 4000 p.stack
  pub path : IsWithin 200 p.path
  pub reported : (holds_text p.message ≡ true) ⊎ (holds_text p.reason ≡ true)

check_reported-IsReport :
    (p : FrontendErrorPayload)
    → IsWithin 500 p.message
    → IsWithin 500 p.reason
    → IsWithin 300 p.source
    → IsWithin 4000 p.stack
    → IsWithin 200 p.path
    → Ensures IsReport (check_reported p)
check_reported-IsReport p message reason source stack path =
    let report : ((holds_text p.message ≡ true) ⊎ (holds_text p.reason ≡ true)) → IsReport p = λ r.
      record {
        message = message;
        reason = reason;
        source = source;
        stack = stack;
        path = path;
        reported = r;
      } in
    elim (Bool-cases (holds_text p.message)) [
      | inl m ↦ rw m (report (inl m))
      | inr m ↦ elim (Bool-cases (holds_text p.reason)) [
        | inl r ↦ rw (m, r) (report (inr r))
        | inr r ↦ rw (m, r) tt
      ]
    ]

parse_frontend_error_payload-IsReport :
    (input : Option FrontendErrorBody) → Ensures IsReport (parse_frontend_error_payload input)
unfolding parse_frontend_error_payload
parse_frontend_error_payload-IsReport none = tt
parse_frontend_error_payload-IsReport (some input) =
    bind-Ensures (λ a. Unit {0}) IsReport _ _ (any-Ensures (parse_error_type input.type))
      λ type _.
        bind-Ensures (IsWithin 500) IsReport _ _ (parse_optional_string-IsWithin input.message 500)
          λ message is_message.
            bind-Ensures (IsWithin 500) IsReport _ _
              (parse_optional_string-IsWithin input.reason 500)
              λ reason is_reason.
                bind-Ensures (IsWithin 300) IsReport _ _
                  (parse_optional_string-IsWithin input.source 300)
                  λ source is_source.
                    bind-Ensures (λ a. Unit {0}) IsReport _ _
                      (any-Ensures (parse_optional_number input.line))
                      λ line _.
                        bind-Ensures (λ a. Unit {0}) IsReport _ _
                          (any-Ensures (parse_optional_number input.column))
                          λ column _.
                            bind-Ensures (IsWithin 4000) IsReport _ _
                              (parse_optional_string-IsWithin input.stack 4000)
                              λ stack is_stack.
                                bind-Ensures (IsWithin 200) IsReport _ _
                                  (parse_optional_string-IsWithin input.path 200)
                                  λ path is_path.
                                    bind-Ensures (λ a. Unit {0}) IsReport _ _
                                      (any-Ensures (parse_optional_number input.timestamp))
                                      λ timestamp _.
                                        check_reported-IsReport
                                          (record {
                                            type = type;
                                            message = message;
                                            reason = reason;
                                            source = source;
                                            line = line;
                                            column = column;
                                            stack = stack;
                                            path = path;
                                            timestamp = timestamp;
                                          })
                                          is_message is_reason is_source is_stack is_path

slice-some : (most c : ℕ) (cs : List ℕ) → 1 ≤ most → 1 ≤ text_length (slice most (c ∷ cs))
slice-some zero c cs h = ground (arith, h)
slice-some (suc zero) c cs h = ground arith
slice-some (suc (suc most)) c cs h = ground arith

limit-IsWithin : (most : ℕ) (text : Option (List ℕ)) → 1 ≤ most → IsWithin most (limit text most)
unfolding limit
limit-IsWithin most none h = tt
limit-IsWithin most (some []) h = tt
limit-IsWithin most (some (c ∷ cs)) h = elim (Bool-cases (ltb most (text_length (c ∷ cs)))) [
  | inl e ↦ rw e (slice-some most c cs h, text_length-slice most (c ∷ cs))
  | inr e ↦ rw e (ground arith, ground (arith, e))
]

-- What is logged: the origin as it came, the user agent cut to 200 units, and the report.
abbrev pub IsLogged : Option (List ℕ) → Option (List ℕ) → Logged FrontendErrorPayload → Type 0
IsLogged origin user_agent entry =
    (entry.origin ≡ origin)
    × (entry.user_agent ≡ limit user_agent 200)
    × IsWithin 200 entry.user_agent
    × IsReport entry.payload

logged_of-IsLogged :
    (now : ℕ) (origin user_agent : Option (List ℕ)) (r : Result FrontendErrorPayload)
    → Ensures IsReport r
    → Ensures (IsLogged origin user_agent) (logged_of now origin user_agent r)
unfolding logged_of
logged_of-IsLogged now origin user_agent (ok p) h =
    (refl, refl, limit-IsWithin 200 user_agent (omega arith), h)
logged_of-IsLogged now origin user_agent (err e) h = tt

if_allowed-ok :
    {A : Type 0} (t : Bool) (r : Result A) (p : A) → if_allowed t r ≡ ok p → (t ≡ true) × (r ≡ ok p)
if_allowed-ok true r p h = (refl, h)
if_allowed-ok false r p h = cc

-- What is logged for an error comes from an origin that is allowed, which is logged as it came,
-- with the user agent cut to 200 units; its report has a message or a reason, and texts of the
-- allowed lengths only.
pub capture_frontend_error-IsReport :
    (env : SecurityEnv) (now : ℕ) (origin user_agent : Option (List ℕ))
    (body : Option FrontendErrorBody) (entry : Logged FrontendErrorPayload)
    → capture_frontend_error env now origin user_agent body ≡ ok entry
    → (is_origin_allowed env origin ≡ true) × IsLogged origin user_agent entry
unfolding capture_frontend_error
capture_frontend_error-IsReport env now origin user_agent body entry h =
    let (allowed, logged) =
      if_allowed-ok (is_origin_allowed env origin)
        (logged_of now origin user_agent (parse_frontend_error_payload body)) entry h in
    (
      allowed,
      subst (Ensures (IsLogged origin user_agent)) logged (
          logged_of-IsLogged now origin user_agent (parse_frontend_error_payload body)
            (parse_frontend_error_payload-IsReport body)),
    )
