-- ===== src/Auth/Session.antt =====
-- The stored sessions of packages/auth/repositories/session.repo.ts and `verifySession` of
-- packages/auth/session/verify-session.ts. The verification of a signed token and the hash are
-- those of libraries, so parameters, and so is the type of a token; a token is verified at a time. A collection is a function of the id.
use semantask.Prelude.{
  ℕ, ◌+◌, ◌<◌, leb, Bool, true, false, not, ◌&&◌, Option, none, some, String, str_eq, is_present,
  if◌then◌else◌, ◌≡◌, ◌↔◌, arith,
}
use semantask.Prelude.Result.{Result, ok, err, ◌>>=◌, ◌>>◌, guard, is_ok}

pub record RefreshTokenPayload : Type 0 where
  pub sub : String
  pub session_id : String
  pub token_version : ℕ

pub data SessionState : Type 0 where
  active step_up_pending : SessionState

pub record Session : Type 0 where
  pub user_id : String
  pub refresh_token_hash : String
  pub revoked_at : Option ℕ
  pub expires_at : ℕ
  pub last_active_at : ℕ
  pub state : SessionState

abbrev pub Sessions : Type 0
Sessions = String → Option Session

-- `findByIdAndUpdate`: the collection afterwards and the updated document.
unfoldable pub update_session :
    Sessions → (id : String) → (Session → Session) → Sessions × Option Session
update_session sessions id change = elim (sessions id) [
  | none ↦ (sessions, none)
  | some s ↦ ((λ k. if str_eq k id then some (change s) else sessions k), some (change s))
]

unfoldable pub rotate_session_token_hash :
    Sessions
    → (id refresh_token_hash : String) → (now refresh_ttl_ms : ℕ) → Sessions × Option Session
rotate_session_token_hash sessions id hash now ttl = update_session sessions id λ s. record s {
  refresh_token_hash = hash;
  state = active;
  last_active_at = now;
  expires_at = now + ttl;
}

unfoldable pub revoke_session : Sessions → (id : String) → (now : ℕ) → Sessions × Option Session
revoke_session sessions id now = update_session sessions id λ s. record s { revoked_at = some now }

-- The errors of the two services, by their messages; the first is that of the token library.
pub data AuthError : Type 0 where
  invalid_token invalid_session user_mismatch session_revoked session_expired invalid_session_token
        user_not_found account_deleted account_not_active password_change_required
        token_version_revoked unable_to_rotate :
      AuthError

abbrev pub from_option : {A : Type 0} → Option A → AuthError → Result AuthError A
from_option none e = err e
from_option (some a) e = ok a

abbrev pub is_revoked : Session → Bool
is_revoked s = elim s.revoked_at [ none ↦ false | some at ↦ true ]

module _ {Token : Type 0} (verify_refresh_token : (now : ℕ) → Token → Option RefreshTokenPayload)
    (hash_token : Token → String) where
  -- The tests on the session that was found.
  unfoldable pub check_session :
      (token : Token)
      → RefreshTokenPayload
      → Session
      → (now : ℕ) → Result AuthError (Session × RefreshTokenPayload)
  check_session token payload session now =
      guard (str_eq session.user_id payload.sub) user_mismatch
      >> guard (not (is_revoked session)) session_revoked
      >> guard (not (leb session.expires_at now)) session_expired
      >> guard
          (is_present session.refresh_token_hash
            && str_eq session.refresh_token_hash (hash_token token))
          invalid_session_token
      >> ok (session, payload)

  unfoldable pub verify_session :
      Sessions → (token : Token) → (now : ℕ) → Result AuthError (Session × RefreshTokenPayload)
  verify_session sessions token now =
      from_option (verify_refresh_token now token) invalid_token >>= λ payload.
      from_option (sessions payload.session_id) invalid_session >>= λ session.
      check_session token payload session now

  pub check_session_iff :
      (token : Token) (p : RefreshTokenPayload) (s : Session) (now : ℕ)
      → (check_session token p s now ≡ ok (s, p)
          ↔ (str_eq s.user_id p.sub ≡ true)
            × (is_revoked s ≡ false)
            × (now < s.expires_at)
            × (is_present s.refresh_token_hash ≡ true)
            × (str_eq s.refresh_token_hash (hash_token token) ≡ true))
        × (is_ok (check_session token p s now) ≡ true → check_session token p s now ≡ ok (s, p))
  unfolding check_session
  check_session_iff token p s now = ground arith
