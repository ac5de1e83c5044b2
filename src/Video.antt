-- ===== src/Video.antt =====
-- src/video/video.service.ts: whether tokens can be issued, and when they expire; what a token
-- holds is in Bytes and Token.
use verity_backend.Prelude.{ℕ, ◌+◌, ◌*◌, ◌||◌, Option, none, some, ◌==◌, if◌then◌else◌}
use verity_backend.Schema.{AgoraConfig}
pub mod Bytes
pub mod Token
pub mod Reader
pub mod Readback

abbrev pub default_token_ttl_seconds : ℕ
default_token_ttl_seconds = 60

unfoldable pub get_token_ttl_seconds : AgoraConfig → ℕ
get_token_ttl_seconds c = elim c.ttl [
  | none ↦ default_token_ttl_seconds
  | some value ↦ if value == 0 then default_token_ttl_seconds else value
]

-- `none` where `getRequiredEnv` throws, else the time at which the tokens expire
unfoldable pub build_session_tokens : AgoraConfig → ℕ → Option ℕ
unfolding get_token_ttl_seconds
build_session_tokens c now =
    if c.app_id == 0 || c.app_certificate == 0
    then none
    else some (now + get_token_ttl_seconds c * 1000)
