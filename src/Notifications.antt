-- ===== src/Notifications.antt =====
-- src/notifications/notifications.service.ts: the tokens of devices, and what is sent to them. The
-- reply of the webhook changes nothing but the log, which is left out, as is the row that a
-- registration returns.
use verity_backend.Prelude.{
  ℕ, Bool, true, false, not, ◌&&◌, Option, none, some, List, [], ◌∷◌, map, filter, contains, length,
  ◌==◌, same_text, trim, is_some, if◌then◌else◌,
}
use verity_backend.Schema.{PushPlatform, PushToken, Push}
use verity_backend.World.{Servers, World}
use verity_backend.Queue.City.{non_empty}
pub mod Owner

-- `RegisterPushTokenDto`
pub record RegisterPushToken : Type 0 where
  pub token : List ℕ
  pub platform : PushPlatform
  pub device_id : Option (List ℕ)

abbrev pub trimmed_device : Option (List ℕ) → Option (List ℕ)
trimmed_device none = none
trimmed_device (some value) = non_empty (trim value)

abbrev pub owned_by : ℕ → RegisterPushToken → ℕ → PushToken → PushToken
owned_by user dto now t = record t {
  user = user;
  platform = dto.platform;
  device_id = trimmed_device dto.device_id;
  last_seen_at = now;
  revoked_at = none;
}

abbrev pub new_push_token : ℕ → RegisterPushToken → ℕ → ℕ → PushToken
new_push_token user dto now id = record {
  id = id;
  user = user;
  token = trim dto.token;
  platform = dto.platform;
  device_id = trimmed_device dto.device_id;
  last_seen_at = now;
  revoked_at = none;
}

abbrev pub is_active : PushToken → Bool
is_active t = not (is_some t.revoked_at)

abbrev pub revoked : ℕ → PushToken → PushToken
revoked now t = record t { revoked_at = some now }

-- One entry of `deliveries`.
pub record Delivery : Type 0 where
  pub user : ℕ
  pub token : List ℕ
  pub platform : PushPlatform

abbrev pub delivery_of : PushToken → Delivery
delivery_of t = record { user = t.user; token = t.token; platform = t.platform }

-- `[...new Set(userIds.filter(Boolean))]`
unfoldable pub unique_users : List ℕ → List ℕ
unique_users [] = []
unique_users (u ∷ us) =
    let rest = unique_users us in if u == 0 then rest else u ∷ filter (λ v. not (v == u)) rest

-- What is posted to the webhook, if anything, with the counts that are returned.
pub record NotifyReply : Type 0 where
  pub attempted_users : ℕ
  pub token_count : ℕ
  pub posted : Option (Push × List Delivery)

abbrev pub nobody : NotifyReply
nobody = record { attempted_users = 0; token_count = 0; posted = none }

-- by the variable PUSH_DISPATCH_WEBHOOK_URL
abbrev pub dispatch : Option (List ℕ) → Push → List Delivery → Option (Push × List Delivery)
dispatch webhook push [] = none
dispatch none push (d ∷ ds) = none
dispatch (some url) push (d ∷ ds) =
    if is_some (non_empty (trim url)) then some (push, d ∷ ds) else none

module _ {b : Servers} where
  unfoldable pub register_push_token : ℕ → RegisterPushToken → World b → World b
  register_push_token user dto w =
      let token = trim dto.token in
      if is_some (b.push_tokens.find_first (λ t. same_text t.token token) w.push_tokens)
      then record w {
        push_tokens =
            (b.push_tokens.update_many (λ t. same_text t.token token) (owned_by user dto w.now)
              w.push_tokens).1;
      }
      else record w {
        push_tokens = (b.push_tokens.create (new_push_token user dto w.now) w.push_tokens).1;
      }

  -- the number of tokens that are removed
  unfoldable pub unregister_push_token : ℕ → List ℕ → World b → ℕ × World b
  unregister_push_token user raw w =
      let token = trim raw in
      let (count, push_tokens) =
        b.push_tokens.update_many (λ t. t.user == user && same_text t.token token && is_active t)
          (revoked w.now) w.push_tokens in
      (count, record w { push_tokens = push_tokens })

  unfoldable pub deliveries : List ℕ → World b → List Delivery
  deliveries users w =
      map delivery_of
        (b.push_tokens.find_many (λ t. contains t.user users && is_active t) w.push_tokens)

  abbrev pub notify_unique : Option (List ℕ) → List ℕ → Push → World b → NotifyReply
  unfolding deliveries
  notify_unique webhook [] push w = nobody
  notify_unique webhook (u ∷ us) push w =
      let ds = deliveries (u ∷ us) w in
      record {
        attempted_users = length (u ∷ us);
        token_count = length ds;
        posted = dispatch webhook push ds;
      }

  unfoldable pub notify_users : Option (List ℕ) → List ℕ → Push → World b → NotifyReply
  unfolding unique_users notify_unique
  notify_users webhook users push w = notify_unique webhook (unique_users users) push w
