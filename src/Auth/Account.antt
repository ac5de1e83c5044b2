-- ===== src/Auth/Account.antt =====
-- The profile and the account of a user: `signupAnonymous`, `getCurrentUser`, and
-- `updateCurrentUser` of src/auth/auth.service.ts. The date that is read is an argument.
use verity_backend.Prelude.{
  ℕ, Option, none, some, List, [], ◌∷◌, map, trim, is_some, get_or_else, if◌then◌else◌,
}
use verity_backend.Exec.{Result, ok, err, Exec, user_not_found, invalid_date_of_birth, too_young}
use verity_backend.Schema.{
  User, user_role, Date, Consents, Photos, photo_text, photo_list, no_list, Event, track,
}
use verity_backend.World.{Servers, World, send}
use verity_backend.Auth.Age.{calculate_age, is_below}
use verity_backend.Auth.Refresh.{Jwt, Tokens, user_of, issue_tokens}
use verity_backend.Auth.Verification.{update_user}
use verity_backend.Queue.City.{non_empty}

-- `UpdateUserProfileDto`: a field that is missing stays as it is.
pub record ProfileInput : Type 0 where
  pub display_name : Option (List ℕ)
  pub age : Option ℕ
  pub gender : Option (List ℕ)
  pub bio : Option (List ℕ)
  pub interests : Option (List (List ℕ))
  pub photos : Option (List (List ℕ))

-- The trimmed text, or null where nothing is left.
abbrev pub text_or_null : Option (List ℕ) → Option (List ℕ) → Option (List ℕ)
text_or_null none old = old
text_or_null (some value) old = non_empty (trim value)

abbrev pub keep_text : List ℕ → List (List ℕ) → List (List ℕ)
keep_text [] rest = rest
keep_text (c ∷ cs) rest = (c ∷ cs) ∷ rest

unfoldable pub trimmed_texts : List (List ℕ) → List (List ℕ)
trimmed_texts [] = []
trimmed_texts (value ∷ values) = keep_text (trim value) (trimmed_texts values)

abbrev pub list_or : Option (List (List ℕ)) → List (List ℕ) → List (List ℕ)
unfolding trimmed_texts
list_or none old = old
list_or (some values) old = trimmed_texts values

abbrev pub photos_of : List (List ℕ) → Photos
photos_of [] = no_list
photos_of (p ∷ ps) = photo_list (map photo_text (p ∷ ps))

abbrev pub photos_or : Option (List (List ℕ)) → Photos → Photos
unfolding trimmed_texts
photos_or none old = old
photos_or (some values) old = photos_of (trimmed_texts values)

abbrev pub age_or : Option ℕ → Option ℕ → Option ℕ
age_or none old = old
age_or (some age) old = some age

unfoldable pub updated_profile : ProfileInput → User → User
updated_profile input u = record u {
  display_name = text_or_null input.display_name u.display_name;
  age = age_or input.age u.age;
  gender = text_or_null input.gender u.gender;
  bio = text_or_null input.bio u.bio;
  interests = list_or input.interests u.interests;
  photos = photos_or input.photos u.photos;
}

-- The date of birth of a signup: not given, not readable, or read.
pub data BirthInput : Type 0 where
  no_birth unreadable_birth : BirthInput
  birth : Date → BirthInput

pub record SignupInput : Type 0 where
  pub date_of_birth : BirthInput
  pub consents : Option Consents
  pub privacy_notice_version : Option (List ℕ)
  pub tos_version : Option (List ℕ)

-- The date of birth of a user who is 18 or older.
unfoldable pub adult_birth : Date → BirthInput → Result (Option Date)
unfolding calculate_age
adult_birth today no_birth = ok none
adult_birth today unreadable_birth = err invalid_date_of_birth
adult_birth today (birth date) =
    if is_below (calculate_age date today) 18 then err too_young else ok (some date)

abbrev pub verified_at : ℕ → Option Date → Option ℕ
verified_at now none = none
verified_at now (some date) = some now

abbrev pub accepted_at : ℕ → Option Consents → Option Consents
accepted_at now none = none
accepted_at now (some c) = some (record c { accepted_at = some (get_or_else c.accepted_at now) })

abbrev pub new_user : SignupInput → ℕ → Option Date → ℕ → User
new_user input now date id = record {
  id = id;
  role = user_role;
  token_balance = 0;
  display_name = none;
  bio = none;
  age = none;
  photos = no_list;
  gender = none;
  interests = [];
  date_of_birth = date;
  age_verified_at = verified_at now date;
  consents = accepted_at now input.consents;
  privacy_notice_version = input.privacy_notice_version;
  tos_version = input.tos_version;
  phone = none;
  email = none;
}

module _ {b : Servers} where
  abbrev pub user_or_error : Option User → Exec (World b) User
  user_or_error none w = (err user_not_found, w)
  user_or_error (some u) w = (ok u, w)

  unfoldable pub get_current_user : ℕ → Exec (World b) User
  get_current_user user w = user_or_error (user_of user w) w

  abbrev pub update_found : ℕ → ProfileInput → Option User → Exec (World b) User
  unfolding updated_profile
  update_found user input none w = (err user_not_found, w)
  update_found user input (some u) w =
      (ok (updated_profile input u), update_user user (updated_profile input) w)

  unfoldable pub update_current_user : ℕ → ProfileInput → Exec (World b) User
  unfolding update_found
  update_current_user user input w = update_found user input (user_of user w) w

  abbrev pub sign_up :
      Jwt → ℕ → ℕ → SignupInput → Result (Option Date) → Exec (World b) (User × Tokens)
  unfolding issue_tokens
  sign_up jwt family token_id input (err e) w = (err e, w)
  sign_up jwt family token_id input (ok date) w =
      let (u, users) = b.users.create (new_user input w.now date) w.users in
      let (tokens, w') =
        issue_tokens jwt u.id family token_id u.role (record w { users = users }) in
      let event = Event.auth_signup_completed (is_some date) (is_some input.consents) in
      (ok (u, tokens), send (track u.id event ∷ []) w')

  -- The date of the clock, and the UUIDs of the family and of the refresh token.
  unfoldable pub signup_anonymous :
      Jwt → Date → ℕ → ℕ → SignupInput → Exec (World b) (User × Tokens)
  unfolding adult_birth sign_up
  signup_anonymous jwt today family token_id input w =
      sign_up jwt family token_id input (adult_birth today input.date_of_birth) w
