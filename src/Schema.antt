-- ===== src/Schema.antt =====
-- The rows of prisma/schema.prisma that the handlers read and write, and what the handlers send
-- out: socket messages, push notifications and analytics events.
use verity_backend.Prelude.{ℕ, Bool, Option, List}
use verity_backend.Services.Redis.{Choice}

pub data Role : Type 0 where
  user_role admin_role : Role

-- An entry of the JSON array `photos`: a text by its code points, or another value.
pub data Photo : Type 0 where
  photo_text : List ℕ → Photo
  no_text : Photo

-- `photos` as stored: an array, or null or another value.
pub data Photos : Type 0 where
  photo_list : List Photo → Photos
  no_list : Photos

-- A date by its year, month and day in UTC.
pub record Date : Type 0 where
  pub year : ℕ
  pub month : ℕ
  pub day : ℕ

-- The JSON of `consents`: the number of its other fields, and `acceptedAt`.
pub record Consents : Type 0 where
  pub others : ℕ
  pub accepted_at : Option ℕ

pub record User : Type 0 where
  pub id : ℕ
  pub role : Role
  pub token_balance : ℕ
  pub display_name : Option (List ℕ)
  pub bio : Option (List ℕ)
  pub age : Option ℕ
  pub photos : Photos
  pub gender : Option (List ℕ)
  pub interests : List (List ℕ)
  pub date_of_birth : Option Date
  pub age_verified_at : Option ℕ
  pub consents : Option Consents
  pub privacy_notice_version : Option (List ℕ)
  pub tos_version : Option (List ℕ)
  pub phone : Option (List ℕ)
  pub email : Option (List ℕ)

pub record Session : Type 0 where
  pub id : ℕ
  pub created_at : ℕ
  pub user_a : ℕ
  pub user_b : ℕ
  pub queue_key : ℕ

pub record Match : Type 0 where
  pub id : ℕ
  pub created_at : ℕ
  pub user_a : ℕ
  pub user_b : ℕ
  pub ack_a : Option ℕ
  pub ack_b : Option ℕ

pub record Block : Type 0 where
  pub id : ℕ
  pub created_at : ℕ
  pub blocker : ℕ
  pub blocked : ℕ
  pub lifted_at : Option ℕ

pub record Message : Type 0 where
  pub id : ℕ
  pub created_at : ℕ
  pub match_id : ℕ
  pub sender : ℕ
  pub text : List ℕ

pub record TokenTransaction : Type 0 where
  pub id : ℕ
  pub user : ℕ
  pub amount : ℕ
  pub balance_after : ℕ
  pub stripe_session : ℕ
  pub stripe_event : ℕ
  pub pack : ℕ

pub record RefreshToken : Type 0 where
  pub id : ℕ
  pub user : ℕ
  pub family : ℕ
  pub token_hash : ℕ
  pub expires_at : ℕ
  pub revoked_at : Option ℕ
  pub replaced_by : Option ℕ
  pub last_used_at : ℕ

pub record ModerationEvent : Type 0 where
  pub user : ℕ
  pub created_at : ℕ

pub data ReportStatus : Type 0 where
  open_report warned banned : ReportStatus

pub record Report : Type 0 where
  pub id : ℕ
  pub created_at : ℕ
  pub reporter : ℕ
  pub reported : ℕ
  pub reason : ℕ
  pub details : Option (List ℕ)
  pub status : ReportStatus

pub data AppealStatus : Type 0 where
  open_appeal upheld overturned : AppealStatus

pub data Action : Type 0 where
  warn ban : Action

pub record Appeal : Type 0 where
  pub id : ℕ
  pub user : ℕ
  pub report : Option ℕ
  pub action : Action
  pub reason : Option (List ℕ)
  pub status : AppealStatus
  pub created_at : ℕ
  pub resolved_at : Option ℕ
  pub resolver : Option ℕ

pub data PushPlatform : Type 0 where
  platform_web platform_ios platform_android : PushPlatform

pub record PushToken : Type 0 where
  pub id : ℕ
  pub user : ℕ
  pub token : List ℕ
  pub platform : PushPlatform
  pub device_id : Option (List ℕ)
  pub last_seen_at : ℕ
  pub revoked_at : Option ℕ

pub data EndReason : Type 0 where
  timeout ended token_error : EndReason

pub data EndedBy : Type 0 where
  timer moderation error : EndedBy

pub data LeaveStatus : Type 0 where
  left not_queued already_matched : LeaveStatus

pub data LeaveReason : Type 0 where
  manual timed_out matched system : LeaveReason

pub data CancelStatus : Type 0 where
  refunded matched_concurrently not_refunded : CancelStatus

-- The profile that a match partner sees.
pub record PartnerReveal : Type 0 where
  pub id : ℕ
  pub display_name : Option (List ℕ)
  pub primary_photo : Option (List ℕ)
  pub age : Option ℕ
  pub bio : Option (List ℕ)

-- An analytics event by its name, with the properties that the modelled code computes.
pub data Event : Type 0 where
  queue_joined : ℕ → ℕ → Option ℕ → Event
  token_spent : ℕ → Event
  queue_left : Option ℕ → LeaveReason → LeaveStatus → Bool → Event
  queue_cancel : CancelStatus → Event
  queue_match_found : ℕ → ℕ → ℕ → ℕ → Event
  session_started : ℕ → ℕ → Event
  session_ended : ℕ → EndReason → EndedBy → ℕ → Event
  choice_submitted : ℕ → Choice → Event
  choice_resolved : ℕ → Bool → Bool → Event
  session_result : ℕ → Bool → Bool → Bool → Event
  token_purchase_succeeded token_purchase_completed : ℕ → ℕ → ℕ → Option ℕ → Event
  token_purchase_started : ℕ → ℕ → ℕ → Event
  token_balance_viewed : ℕ → Event
  match_chat_opened : ℕ → ℕ → ℕ → Event
  message_sent first_message_sent : ℕ → ℕ → Event
  match_message_sent : ℕ → ℕ → Bool → ℕ → Event
  safety_violation_detected : ℕ → Event
  safety_action_taken : Action → Bool → Option ℕ → Event
  safety_report_submitted : ℕ → ℕ → ℕ → Bool → Event
  safety_appeal_opened : ℕ → Option ℕ → Action → Option ℕ → Event
  safety_appeal_resolved : ℕ → Action → ℕ → Event
  auth_signup_completed : Bool → Bool → Event

pub data Push : Type 0 where
  push_match_found : ℕ → ℕ → Push
  push_match_mutual : ℕ → ℕ → Push
  chat_message_new : ℕ → ℕ → ℕ → List ℕ → Push
  chat_reveal_required : ℕ → ℕ → ℕ → Push

-- `anon_<digest>`, with the digest of a session and a user kept symbolic.
pub data AnonymousId : Type 0 where
  anon : ℕ → ℕ → AnonymousId

-- A message to the room `user:<id>` of a socket namespace.
pub data SocketMessage : Type 0 where
  match_found : ℕ → AnonymousId → ℕ → SocketMessage
  queue_status : ℕ → SocketMessage
  session_start : ℕ → ℕ → ℕ → ℕ → SocketMessage
  session_end : ℕ → EndReason → ℕ → SocketMessage
  match_mutual : ℕ → ℕ → Option PartnerReveal → SocketMessage
  match_non_mutual : ℕ → SocketMessage
  message_new : ℕ → ℕ → ℕ → List ℕ → ℕ → SocketMessage
  moderation_action : Action → ℕ → SocketMessage

pub data Output : Type 0 where
  track : ℕ → Event → Output
  emit : ℕ → SocketMessage → Output
  notify : List ℕ → Push → Output

-- The environment of src/video/video.service.ts: the numbers of AGORA_APP_ID and
-- AGORA_APP_CERTIFICATE, 0 where unset, and AGORA_TOKEN_TTL_SECONDS where it parses to a number
-- that is not negative.
pub record AgoraConfig : Type 0 where
  pub app_id : ℕ
  pub app_certificate : ℕ
  pub ttl : Option ℕ
