-- ===== src/Auth/Refresh.antt =====
-- `refreshService` of packages/auth/services/refresh.service.ts. The signing of tokens is a
-- parameter, which gets the time and the life in seconds; `jti` is the random id of the new refresh
-- token. The session is verified at one time; the new token is signed and the session written at
-- another.
use semantask.Prelude.{
  ℕ, ◌*◌, ◌==◌, Bool, false, not, Option, none, some, String, str_eq, is_present, or_else,
  if◌then◌else◌,
}
use semantask.Prelude.Result.{Result, ok, err}
use semantask.Auth.Session.{
  RefreshTokenPayload, Sessions, rotate_session_token_hash, revoke_session, AuthError,
  user_not_found, account_deleted, account_not_active, password_change_required,
  token_version_revoked, unable_to_rotate, verify_session,
}

pub record User : Type 0 where
  pub id : String
  pub role : Option String
  pub status : Option String
  pub token_version : ℕ
  pub is_deleted : Bool
  pub must_change_password : Bool

pub record Tokens (Token : Type 0) : Type 0 where
  pub access_token : String
  pub refresh_token : Token
  pub user_id : String
  pub session_id : String

-- `user.status && user.status !== "active"`
abbrev pub is_inactive : User → Bool
is_inactive user = elim user.status [
  | none ↦ false
  | some status ↦ if is_present status then not (str_eq status "active") else false
]

-- Why a user gets no tokens, in the order of the code's tests.
unfoldable pub refuse_user : Option User → Option AuthError
refuse_user none = some user_not_found
refuse_user (some user) =
    if user.is_deleted
    then some account_deleted
    else if is_inactive user
    then some account_not_active
    else if user.must_change_password
    then some password_change_required
    else none

-- `getRefreshTokenConfig().expiresIn`, "7d" in seconds, and `getSessionConfig().refreshTtlMs`.
abbrev pub refresh_expires_in : ℕ
refresh_expires_in = 7 * 24 * 60 * 60

abbrev pub refresh_ttl_ms : ℕ
refresh_ttl_ms = 7 * 24 * 60 * 60 * 1000

module _ {Token : Type 0} (verify_refresh_token : (now : ℕ) → Token → Option RefreshTokenPayload)
    (hash_token : Token → String)
    (sign_refresh_token : (now expires_in : ℕ) → RefreshTokenPayload → (jti : String) → Token)
    (sign_access_token : (sub role : String) → (token_version : ℕ) → String)
    (users : String → Option User) where
  abbrev next_payload : RefreshTokenPayload → (token_version : ℕ) → RefreshTokenPayload
  next_payload payload version = record {
    sub = payload.sub;
    session_id = payload.session_id;
    token_version = version;
  }

  -- The rotation, and what is handed out where the session is still stored.
  unfoldable pub issue_tokens :
      Sessions
      → RefreshTokenPayload
      → User
      → (jti : String) → (now : ℕ) → Sessions × Result AuthError (Tokens Token)
  issue_tokens sessions payload user jti now =
      let next =
        sign_refresh_token now refresh_expires_in (next_payload payload user.token_version) jti in
      let (rotated, found) =
        rotate_session_token_hash sessions payload.session_id (hash_token next) now
          refresh_ttl_ms in
      elim found [
        | none ↦ (rotated, err unable_to_rotate)
        | some s ↦ (
          rotated,
          ok (record {
            access_token = sign_access_token user.id (or_else user.role "user") user.token_version;
            refresh_token = next;
            user_id = user.id;
            session_id = payload.session_id;
          }),
        )
      ]

  -- What follows the verification, on the sessions as they then are.
  unfoldable pub continue_refresh :
      Sessions
      → RefreshTokenPayload
      → (jti : String) → (now : ℕ) → Sessions × Result AuthError (Tokens Token)
  continue_refresh sessions payload jti now = elim (users payload.sub) [
    | none ↦ (sessions, err user_not_found)
    | some user ↦ elim (refuse_user (some user)) [
      | some e ↦ (sessions, err e)
      | none ↦
          if payload.token_version == user.token_version
          then issue_tokens sessions payload user jti now
          else ((revoke_session sessions payload.session_id now).0, err token_version_revoked)
    ]
  ]

  unfoldable pub refresh_service :
      Sessions
      → (refresh_token : Token) → (jti : String) → (verified_at now : ℕ)
      → Sessions × Result AuthError (Tokens Token)
  refresh_service sessions token jti verified_at now =
      elim (verify_session verify_refresh_token hash_token sessions token verified_at) [
        | err e ↦ (sessions, err e)
        | ok (session, payload) ↦ continue_refresh sessions payload jti now
      ]
